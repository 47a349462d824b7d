-- ===== src/Tests/Pwm.antt =====
-- The outputs and the whole driver at concrete inputs.
use mathlib.Core.Bool.{false≢true}
use rcio_dkms.Base.{
  ℕ, zero, suc, ◌^◌, ◌<◌, ◌≡◌, ◌≢◌, refl, sym, true, false, pos, is_neg, [], ◌∷◌, ◌++◌, arith,
  get_or, set, replicate, bit_and, if◌then◌else◌,
}
use rcio_dkms.Protocol.Regs.{px4io_page_gpio_exported, px4io_page_direct_pwm}
use rcio_dkms.Registers.{register_get, register_set}
use rcio_dkms.State.{World, Pwm, Gpio}
use rcio_dkms.Pwm.Config.{rcio_pwm_config, config_blocked, ignores}
use rcio_dkms.Pwm.Config.Laws.{frequency_of, changes_group, rcio_pwm_config_new_way}
use rcio_dkms.Pwm.Config.Safe.{Safe, rcio_pwm_config-Safe}
use rcio_dkms.Pwm.Channel.{rcio_pwm_request}
use rcio_dkms.Pwm.Channel.Laws.{outputs, rcio_pwm_request_granted}
use rcio_dkms.Pwm.Invariant.{PwmInv}
use rcio_dkms.Pwm.Update.Progress.{
  updates, write_rate, rates_sent, waiting, rcio_pwm_update_settles,
}
use rcio_dkms.Tests.{clock, quiet}

-- The new way, with an output at 1500 on pin 13, and the rates of two groups to change.
abbrev pending : Pwm
pending = record {
  values = replicate 13 0 ++ (1500 ∷ 0 ∷ 0 ∷ []);
  alt_frequency = 50;
  alt_frequency_updated = false;
  default_frequency = 50;
  default_frequency_updated = false;
  frequencies = 50 ∷ 50 ∷ 50 ∷ 50 ∷ [];
  new_frequencies = 100 ∷ 50 ∷ 400 ∷ 50 ∷ [];
  frequencies_update_required = true ∷ false ∷ true ∷ false ∷ [];
  armed = false;
  armtimeout = 1000;
  print_freqs_countdown = 3;
  force_pwmzero_countdown = 0;
  freq_update_noticed = false;
  adv_timer_config_supported = true;
}

abbrev pins : Gpio
pins = record {
  gpio_supported = false;
  pwm_ignore_writings_mask = 0;
  pin_states_updated = 0;
  pin_states = replicate 16 0;
}

abbrev changing : World ℕ
changing = record { dev = 0; pwm = pending; gpio = pins }

pending_settled :
    (i : ℕ)
    → get_or pending.frequencies_update_required i false ≡ false
    → get_or pending.frequencies i 0 ≡ get_or pending.new_frequencies i 0
pending_settled zero e = absurd (false≢true (sym e))
pending_settled (suc zero) e = refl
pending_settled (suc (suc zero)) e = absurd (false≢true (sym e))
pending_settled (suc (suc (suc zero))) e = refl
pending_settled (suc (suc (suc (suc i)))) e = refl

pending-PwmInv : PwmInv pending
pending-PwmInv = record {
  values_all = refl;
  values_words = omega arith;
  frequencies_all = refl;
  new_frequencies_all = refl;
  required_all = refl;
  settled = pending_settled;
  new_way = λ e. (refl, refl);
  old_way = λ e. absurd (false≢true (sym e));
}

two_waiting : waiting pending.frequencies_update_required ≡ 2
unfolding waiting
two_waiting = refl

some_wait : 0 < waiting pending.frequencies_update_required
unfolding waiting
some_wait = omega arith

rcio_pwm_update_settles_example :
    let w = updates quiet clock (10 ∷ 11 ∷ 12 ∷ []) changing in
    ((i : ℕ) → get_or w.pwm.frequencies_update_required i false ≡ false)
    × ((i : ℕ) → get_or w.pwm.frequencies i 0 ≡ get_or (100 ∷ 50 ∷ 400 ∷ 50 ∷ []) i 0)
    × (w.pwm.values ≡ pending.values)
    × (w.dev
        ≡ write_rate quiet clock pending.new_frequencies 2 (
            write_rate quiet clock pending.new_frequencies 0
              (register_set quiet changing.dev px4io_page_direct_pwm 0 (replicate 16 0) 16).1))
unfolding rates_sent
rcio_pwm_update_settles_example =
    rcio_pwm_update_settles quiet clock 10 (11 ∷ 12 ∷ []) changing refl refl some_wait two_waiting
      (refl, (refl, (refl, tt))) pending-PwmInv

free_pin : config_blocked pins pending 5 1_500_000 ≡ false
unfolding config_blocked
free_pin = refl

-- Pin 5, 1500 us at 50 Hz: the rate of its group.
rcio_pwm_config_new_way_example :
    let (ret, q) = rcio_pwm_config clock 10 pins pending 5 1_500_000 20_000_000 in
    let f = frequency_of 20_000_000 in
    (ret ≡ pos 0)
    × (q.values ≡ set pending.values 5 1500)
    × (q.frequencies ≡ pending.frequencies)
    × (q.new_frequencies ≡ (
        if changes_group pending 5 f
        then set pending.new_frequencies 1 f
        else pending.new_frequencies))
    × (q.frequencies_update_required ≡ (
        if changes_group pending 5 f
        then set pending.frequencies_update_required 1 true
        else pending.frequencies_update_required))
    × (q.armtimeout ≡ 20)
rcio_pwm_config_new_way_example =
    rcio_pwm_config_new_way clock 10 pins pending 5 1_500_000 20_000_000 (omega arith) free_pin refl

-- Pin 8 at 400 Hz, the old way, behind an output of pin 13 that is on.
abbrev old_pending : Pwm
old_pending = record pending {
  frequencies_update_required = replicate 4 false;
  adv_timer_config_supported = false;
}

rcio_pwm_config-Safe_example :
    let (ret, q) = rcio_pwm_config clock 10 pins old_pending 8 1_500_000 2_500_000 in
    (ret ≡ pos 0)
    × (get_or q.values 8 0 ≢ 0 → config_blocked pins old_pending 8 1_500_000 ≡ false)
    × Safe old_pending 8 1_500_000 400 q
rcio_pwm_config-Safe_example =
    rcio_pwm_config-Safe clock 10 pins old_pending 8 1_500_000 2_500_000 refl (omega arith)

granted : (rcio_pwm_request quiet 3 changing 5).0 ≡ pos 0
unfolding rcio_pwm_request ignores register_get
granted = refl

not_ignored : ignores 0 5 ≡ false
unfolding ignores
not_ignored = refl

rcio_pwm_request_granted_example :
    let (ret, values, d1) = outputs quiet 3 0 in
    (is_neg ret ≡ false)
    × ((i : ℕ) → get_or values i 0 ≡ 0)
    × (false ≡ true
        → bit_and
            (get_or (register_get quiet d1 px4io_page_gpio_exported 0 (3 ∷ []) 1).1 0 0)
            (2 ^ 5)
          ≡ 0)
rcio_pwm_request_granted_example = rcio_pwm_request_granted quiet 3 changing 5 not_ignored granted
