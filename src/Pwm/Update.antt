-- ===== src/Pwm/Update.antt =====
-- rcio_pwm_update and what it calls (src/rcio_pwm.c).
pub mod Laws
pub mod Pins
pub mod Progress
pub mod Countdown
use mathlib.Core.Option
use rcio_dkms.Base.{
  ℕ, zero, suc, ◌+◌, ◌-◌, ◌%◌, ◌^◌, Bool, true, false, not, ◌&&◌, ◌||◌, Option, none, some, ℤ, List,
  [], ◌∷◌, get_or, set, drop, replicate, ltb, if◌then◌else◌,
}
use rcio_dkms.Base.Int.{to_bool}
use rcio_dkms.Adapter.{Adapter}
use rcio_dkms.Kernel.{Kernel}
use rcio_dkms.Protocol.Regs.{
  px4io_page_setup, px4io_p_setup_pwm_altrate, px4io_p_setup_pwm_defaultrate,
  px4io_p_setup_pwm_group1_rate, px4io_page_direct_pwm,
}
use rcio_dkms.Registers.{register_set, register_set_byte}
use rcio_dkms.State.{
  World, Pwm, int_pos, int_neg, rcio_pwm_max_channels, rcio_pwm_max_zeroed_channels,
  rcio_pwm_zero_skip_update_cycles,
}

-- freq_update_stage_t; `set_grp i` is SET_GRP1 + i.
pub data FreqUpdateStage : Type 0 where
  set_grp : ℕ → FreqUpdateStage
  set_alt set_def clear : FreqUpdateStage

-- `for (i = 0; i < RCIO_PWM_TIMER_COUNT; i++) some = some || frequencies_update_required[i];`
unfoldable pub any_required : List Bool → Bool → Bool
any_required [] some_updated = some_updated
any_required (r ∷ rs) some_updated = any_required rs (some_updated || r)

unfoldable pub some_freq_updated : Pwm → Bool
unfolding any_required
some_freq_updated p =
    any_required p.frequencies_update_required
      (p.alt_frequency_updated || p.default_frequency_updated)

-- The loop that looks for the first group to update, from group `i` on.
unfoldable pub first_required : List Bool → ℕ → Option ℕ
first_required [] i = none
first_required (true ∷ rs) i = some i
first_required (false ∷ rs) i = first_required rs (i + 1)

-- `for (i = 0; i < RCIO_PWM_MAX_ZEROED_CHANNELS; i++) values[i] = 0;`, with `left` rounds to go.
unfoldable pub zero_from : ℕ → ℕ → List ℕ → List ℕ
zero_from zero i values = values
zero_from (suc left) i values = zero_from left (i + 1) (set values i 0)

unfoldable pub rcio_set_zero_values : Pwm → Pwm
unfolding zero_from
rcio_set_zero_values p = record p { values = zero_from rcio_pwm_max_zeroed_channels 0 p.values }

-- The arming test at the head of rcio_pwm_update.
unfoldable pub arm : Kernel → ℕ → Pwm → Pwm
arm k jiffies p =
    if k.time_before jiffies p.armtimeout && ltb 0 p.armtimeout
    then record p { armed = true }
    else record p { armed = false; print_freqs_countdown = 3 }

-- The countdown at its end.
unfoldable pub zero_countdown : Pwm → Pwm
unfolding rcio_set_zero_values
zero_countdown p =
    if int_pos p.force_pwmzero_countdown
    then rcio_set_zero_values
        (record p { force_pwmzero_countdown = (p.force_pwmzero_countdown + 2 ^ 32 - 1) % 2 ^ 32 })
    else (if int_neg p.force_pwmzero_countdown then record p { force_pwmzero_countdown = 0 } else p)

module _ {D : Type 0} (a : Adapter D) where
  unfoldable pub rcio_pwm_update_frequency : World D → FreqUpdateStage → World D
  rcio_pwm_update_frequency w clear = record w {
    dev =
        (register_set a w.dev px4io_page_direct_pwm 0 (replicate rcio_pwm_max_channels 0)
          rcio_pwm_max_channels).1;
  }
  rcio_pwm_update_frequency w set_alt = record w {
    dev =
        (register_set_byte a w.dev px4io_page_setup px4io_p_setup_pwm_altrate
          (w.pwm.alt_frequency)).1;
    pwm = record (w.pwm) { alt_frequency_updated = false };
  }
  rcio_pwm_update_frequency w set_def = record w {
    dev =
        (register_set_byte a w.dev px4io_page_setup px4io_p_setup_pwm_defaultrate
          (w.pwm.default_frequency)).1;
    pwm = record (w.pwm) { default_frequency_updated = false };
  }
  rcio_pwm_update_frequency w (set_grp i) = record w {
    dev =
        (register_set_byte a w.dev px4io_page_setup (px4io_p_setup_pwm_group1_rate + i)
          (get_or w.pwm.new_frequencies i 0)).1;
    pwm = record (w.pwm) {
      frequencies = set w.pwm.frequencies i (get_or w.pwm.new_frequencies i 0);
    };
  }

  -- `values + pwm_pin_number`, one register
  unfoldable pub rcio_pwm_force_update_pin : World D → ℕ → ℤ × World D
  rcio_pwm_force_update_pin w pin =
      let (ret, dev') = register_set a w.dev px4io_page_direct_pwm pin (drop pin w.pwm.values) 1 in
      (ret, record w { dev = dev' })

  -- The three changes of frequency of rcio_pwm_update, each with its flag taken back.
  unfoldable pub update_group : World D → ℕ → World D
  unfolding rcio_pwm_update_frequency
  update_group w i =
      let w' = rcio_pwm_update_frequency w (set_grp i) in
      record w' {
        pwm = record (w'.pwm) {
          frequencies_update_required = set w'.pwm.frequencies_update_required i false;
        };
      }

  unfoldable pub update_alt : World D → World D
  unfolding rcio_pwm_update_frequency
  update_alt w =
      let w' = rcio_pwm_update_frequency w set_alt in
      record w' { pwm = record (w'.pwm) { alt_frequency_updated = false } }

  unfoldable pub update_default : World D → World D
  unfolding rcio_pwm_update_frequency
  update_default w =
      let w' = rcio_pwm_update_frequency w set_def in
      record w' { pwm = record (w'.pwm) { default_frequency_updated = false } }

  -- The changes that are made while armed, one in a call: the new way by groups, the old way by
  -- the two rates. `none` where nothing is left to change.
  unfoldable pub pending_frequency : World D → Option (World D)
  unfolding first_required
  pending_frequency w =
      if w.pwm.adv_timer_config_supported
      then Option.map (update_group w) (first_required w.pwm.frequencies_update_required 0)
      else (if w.pwm.alt_frequency_updated
          then some (update_alt w)
          else (if w.pwm.default_frequency_updated then some (update_default w) else none))

  -- The end of rcio_pwm_update: the countdown, and the write of all values.
  unfoldable pub finish_update : World D → Bool → Bool × World D
  unfolding zero_countdown
  finish_update w some_updated =
      let w' = record w { pwm = zero_countdown (record (w.pwm) { freq_update_noticed = false }) } in
      let (ret, dev') =
        register_set a w'.dev px4io_page_direct_pwm 0 w'.pwm.values rcio_pwm_max_channels in
      if w'.pwm.armed && not some_updated
      then (to_bool ret, record w' { dev = dev' })
      else (true, w')

  -- A call that has changed a frequency returns at once.
  unfoldable pub after_frequency : Option (World D) → World D → Bool → Bool × World D
  after_frequency (some w2) w some_updated = (true, w2)
  after_frequency none w some_updated = finish_update w some_updated

  -- The zeros are written before a frequency is changed.
  unfoldable pub clear_values : World D → World D
  unfolding rcio_pwm_update_frequency
  clear_values w =
      let w' = rcio_pwm_update_frequency w clear in
      record w' { pwm = record (w'.pwm) { freq_update_noticed = true } }

  unfoldable pub rcio_pwm_update : Kernel → ℕ → World D → Bool × World D
  rcio_pwm_update k jiffies w =
      let some_updated = some_freq_updated w.pwm in
      let w1 = record w { pwm = arm k jiffies w.pwm } in
      if w1.pwm.armed
      then (if some_updated && not w1.pwm.freq_update_noticed
          then (true, clear_values w1)
          else after_frequency (pending_frequency w1) w1 some_updated)
      else finish_update w1 some_updated

  unfoldable pub rcio_pwm_force_zero_duty : Kernel → ℕ → World D → World D
  rcio_pwm_force_zero_duty k jiffies w =
      (rcio_pwm_update k jiffies (record w {
        pwm = record (w.pwm) {
          force_pwmzero_countdown =
              (w.pwm.force_pwmzero_countdown + rcio_pwm_zero_skip_update_cycles) % 2 ^ 32;
        };
      })).1
