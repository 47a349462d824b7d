-- ===== src/State.antt =====
-- The static variables of src/rcio_pwm.c and src/rcio_gpio.c, and the state that their functions
-- share: these variables and the device behind the adapter.
use rcio_dkms.Base.{ℕ, ◌^◌, Bool, false, List, [], ◌∷◌, replicate, ltb, leb, ◌&&◌}

abbrev pub rcio_pwm_max_channels : ℕ
rcio_pwm_max_channels = 16

abbrev pub rcio_pwm_timer_count : ℕ
rcio_pwm_timer_count = 4

abbrev pub rcio_pwm_channels_per_timer : ℕ
rcio_pwm_channels_per_timer = 4

abbrev pub rcio_pwm_max_zeroed_channels : ℕ
rcio_pwm_max_zeroed_channels = 12

abbrev pub rcio_pwm_zero_skip_update_cycles : ℕ
rcio_pwm_zero_skip_update_cycles = 50

-- A variable of type `int` is held as its 32-bit pattern; these are its signs.
abbrev pub int_pos : ℕ → Bool
int_pos n = ltb 0 n && ltb n (2 ^ 31)

abbrev pub int_neg : ℕ → Bool
int_neg n = leb (2 ^ 31) n

pub record Pwm : Type 0 where
  pub values : List ℕ
  pub alt_frequency : ℕ
  pub alt_frequency_updated : Bool
  pub default_frequency : ℕ
  pub default_frequency_updated : Bool
  pub frequencies : List ℕ
  pub new_frequencies : List ℕ
  pub frequencies_update_required : List Bool
  pub armed : Bool
  pub armtimeout : ℕ
  pub print_freqs_countdown : ℕ
  pub force_pwmzero_countdown : ℕ
  pub freq_update_noticed : Bool
  pub adv_timer_config_supported : Bool

-- `struct rcio_gpio gpio` and the two variables that src/rcio_pwm.c reads too. `counter` is not
-- used.
pub record Gpio : Type 0 where
  pub gpio_supported : Bool
  pub pwm_ignore_writings_mask : ℕ
  pub pin_states_updated : ℕ
  pub pin_states : List ℕ

pub record World (D : Type 0) : Type 0 where
  pub dev : D
  pub pwm : Pwm
  pub gpio : Gpio

-- The variables as the module is loaded.
unfoldable pub initial_pwm : Pwm
initial_pwm = record {
  values = replicate rcio_pwm_max_channels 0;
  alt_frequency = 50;
  alt_frequency_updated = false;
  default_frequency = 50;
  default_frequency_updated = false;
  frequencies = 50 ∷ 50 ∷ 50 ∷ 50 ∷ [];
  new_frequencies = 50 ∷ 50 ∷ 50 ∷ 50 ∷ [];
  frequencies_update_required = replicate rcio_pwm_timer_count false;
  armed = false;
  armtimeout = 0;
  print_freqs_countdown = 3;
  force_pwmzero_countdown = 0;
  freq_update_noticed = false;
  adv_timer_config_supported = false;
}

unfoldable pub initial_gpio : Gpio
initial_gpio = record {
  gpio_supported = false;
  pwm_ignore_writings_mask = 0;
  pin_states_updated = 0;
  pin_states = replicate rcio_pwm_max_channels 0;
}
