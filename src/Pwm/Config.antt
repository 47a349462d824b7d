-- ===== src/Pwm/Config.antt =====
-- rcio_pwm_config and what it decides (src/rcio_pwm.c). The PWM core calls it with
-- 0 <= duty_ns <= period_ns and 0 < period_ns, so both are natural numbers here.
pub mod Laws
pub mod Safe
use rcio_dkms.Base.{
  ℕ, zero, suc, ◌+◌, ◌-◌, ◌*◌, ◌/◌, ◌%◌, ◌^◌, Bool, true, false, not, ◌&&◌, ◌||◌, ℤ, pos, List,
  bit_and, get_or, set, ltb, leb, ◌==◌, if◌then◌else◌,
}
use rcio_dkms.Kernel.{Kernel, ulong}
use rcio_dkms.State.{
  Pwm, Gpio, int_pos, int_neg, rcio_pwm_max_zeroed_channels, rcio_pwm_channels_per_timer,
}

-- The mask as it is tested: `(pwm_ignore_writings_mask >> channel) & 0x01`.
unfoldable pub is_pwm_ignored : ℕ → ℕ → Bool
is_pwm_ignored mask channel = not (bit_and (mask / 2 ^ channel) 0x01 == 0)

-- `pwm_ignore_writings_mask && is_pwm_ignored(channel)`
unfoldable pub ignores : ℕ → ℕ → Bool
unfolding is_pwm_ignored
ignores mask channel = not (mask == 0) && is_pwm_ignored mask channel

unfoldable pub print_freqs_error : Pwm → Pwm
print_freqs_error p =
    if int_neg p.print_freqs_countdown
    then p
    else record p { print_freqs_countdown = (p.print_freqs_countdown + 2 ^ 32 - 1) % 2 ^ 32 }

abbrev inside_range : ℕ → ℕ → ℕ → Bool
inside_range x lower upper = leb lower x && leb x upper

-- The four tests on `channel->hwpwm`, the last that holds being the one that counts.
unfoldable pub pwm_group_number : ℕ → ℕ
pwm_group_number pin =
    if inside_range pin 12 15
    then 3
    else (if inside_range pin 8 11 then 2 else (if inside_range pin 4 7 then 1 else 0))

-- The loop over the group's pins, from pin `i` with `left` to go.
unfoldable pub motors_stopped : List ℕ → ℕ → ℕ → Bool → Bool
motors_stopped values zero i stopped = stopped
motors_stopped values (suc left) i stopped =
    motors_stopped values left (i + 1) (if get_or values i 0 == 0 then stopped else false)

unfoldable pub should_change_freq_new_way : Pwm → ℕ → ℕ → ℕ → Bool × Pwm
unfolding print_freqs_error motors_stopped
should_change_freq_new_way p pin group new_frequency =
    let control_pin = group * 4 in
    if get_or p.frequencies group 0 == new_frequency
    then (false, p)
    else (if pin == control_pin
        then (true, p)
        else (if motors_stopped p.values rcio_pwm_channels_per_timer control_pin true
            then (true, p)
            else (false, print_freqs_error p)))

unfoldable pub should_change_freq_old_way : Pwm → ℕ → ℕ → ℕ → Bool × Pwm
unfolding print_freqs_error
should_change_freq_old_way p pin new_frequency duty_ns =
    if ltb pin 8
    then (if not (new_frequency == p.alt_frequency) && not (duty_ns == 0)
        then (if pin == 0 || pin == 4 then (true, p) else (false, print_freqs_error p))
        else (false, p))
    else (if not (new_frequency == p.default_frequency) && not (duty_ns == 0)
        then (if pin == 8 || pin == 12 then (true, p) else (false, print_freqs_error p))
        else (false, p))

unfoldable pub should_change_duty_new_way : Pwm → ℕ → ℕ → Bool
should_change_duty_new_way p group new_frequency = get_or p.frequencies group 0 == new_frequency

unfoldable pub should_change_duty_old_way : Pwm → ℕ → ℕ → Bool
should_change_duty_old_way p pin new_frequency =
    (ltb pin 8 && new_frequency == p.alt_frequency)
    || (leb 8 pin && new_frequency == p.default_frequency)

-- `values[hwpwm] = duty_ns / 1000` through the 16-bit `duty_ms`, or 0 where it is not safe.
unfoldable pub store_duty : Bool → ℕ → ℕ → Pwm → Pwm
store_duty safe pin duty_ns p = record p {
  values = set p.values pin (if safe then duty_ns / 1000 % 2 ^ 16 else 0);
}

unfoldable pub config_new_way : Pwm → ℕ → ℕ → ℕ → Pwm
unfolding should_change_freq_new_way should_change_duty_new_way store_duty pwm_group_number
config_new_way p pin duty_ns new_frequency =
    let group = pwm_group_number pin in
    let (change, p1) = should_change_freq_new_way p pin group new_frequency in
    let p2 =
      if change
      then record p1 {
        new_frequencies = set p1.new_frequencies group new_frequency;
        frequencies_update_required = set p1.frequencies_update_required group true;
      }
      else p1 in
    store_duty (should_change_duty_new_way p2 group new_frequency) pin duty_ns p2

unfoldable pub config_old_way : Pwm → ℕ → ℕ → ℕ → Pwm
unfolding should_change_freq_old_way should_change_duty_old_way store_duty
config_old_way p pin duty_ns new_frequency =
    let (change, p1) = should_change_freq_old_way p pin new_frequency duty_ns in
    let p2 =
      if change
      then (if ltb pin 8
          then record p1 { alt_frequency = new_frequency; alt_frequency_updated = true }
          else record p1 { default_frequency = new_frequency; default_frequency_updated = true })
      else p1 in
    store_duty (should_change_duty_old_way p2 pin new_frequency) pin duty_ns p2

-- The test by which a request is dropped: the pin is ignored, or the outputs are being zeroed.
unfoldable pub config_blocked : Gpio → Pwm → ℕ → ℕ → Bool
unfolding ignores
config_blocked g p pin duty_ns =
    (ignores g.pwm_ignore_writings_mask pin && not (duty_ns == 0))
    || (int_pos p.force_pwmzero_countdown && ltb pin rcio_pwm_max_zeroed_channels)

unfoldable pub rcio_pwm_config : Kernel → ℕ → Gpio → Pwm → ℕ → ℕ → ℕ → ℤ × Pwm
rcio_pwm_config k jiffies g p pin duty_ns period_ns =
    let new_frequency = 1_000_000_000 / period_ns % 2 ^ 16 in
    let p1 = record p { armtimeout = ulong (jiffies + k.hz / 10) } in
    if config_blocked g p pin duty_ns
    then (pos 0, record p { values = set p.values pin 0 })
    else (if p.adv_timer_config_supported
        then (pos 0, config_new_way p1 pin duty_ns new_frequency)
        else (pos 0, config_old_way p1 pin duty_ns new_frequency))
