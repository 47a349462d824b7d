-- ===== src/Pwm/Update/Countdown.antt =====
-- The countdown of src/rcio_pwm.c that forces the outputs to zero, over several calls.
use rcio_dkms.Base.{
  ℕ, suc, ◌+◌, ◌^◌, ◌<◌, ◌≡◌, refl, ap, ◌∙◌, Bool, true, false, none, List, [], ◌∷◌, ◌++◌, arith,
  length, drop, replicate, All, ◌||◌, ◌%◌, sym, inl, inr, Bool-cases, length-drop,
}
use rcio_dkms.Adapter.{Adapter}
use rcio_dkms.Kernel.{Kernel}
use rcio_dkms.State.{World, Pwm, int_pos}
use rcio_dkms.Pwm.Update.{
  any_required, some_freq_updated, first_required, pending_frequency, after_frequency,
  finish_update, rcio_pwm_update, rcio_pwm_force_zero_duty,
}
use rcio_dkms.Pwm.Update.Laws.{
  armed_at, armed_world, zero_countdown_lem, rcio_pwm_update-armed, written, counted,
}
use rcio_dkms.Pwm.Update.Progress.{updates}

none_required :
    (rs : List Bool) (b : Bool) (i : ℕ)
    → any_required rs b ≡ false
    → (b ≡ false) × (first_required rs i ≡ none)
unfolding any_required first_required
none_required [] b i h = (h, refl)
none_required (r ∷ rs) b i h =
    let rest = none_required rs (b || r) (i + 1) h in ground (arith, rest.0, rest.1)

pub length-written : (p : Pwm) → length p.values ≡ 16 → length (written p) ≡ 16
length-written p all = ground (arith, length-drop 12 p.values)

-- What a later call writes is the same as long as the zeros have been written once.
written_again :
    (p q : Pwm)
    → int_pos p.force_pwmzero_countdown ≡ true
    → q.values ≡ written p
    → written q ≡ written p
written_again p q positive same = elim (Bool-cases (int_pos q.force_pwmzero_countdown)) [
  | inl more ↦ rw (more, positive, same) (rw positive refl)
  | inr last ↦ rw last same
]

module _ {D : Type 0} (a : Adapter D) (k : Kernel) where
  -- With no change asked for, there is none to make.
  pub nothing_pending :
      (w : World D) → some_freq_updated w.pwm ≡ false → pending_frequency a w ≡ none
  unfolding some_freq_updated pending_frequency
  nothing_pending w quiet =
      let (rates, groups) =
        none_required w.pwm.frequencies_update_required
          (w.pwm.alt_frequency_updated || w.pwm.default_frequency_updated) 0 quiet in
      ground (arith, rates, groups)

  -- The variables after a call, armed and with no frequency to change.
  quiet_step :
      (t : ℕ) (w : World D)
      → armed_at k t w.pwm.armtimeout ≡ true
      → some_freq_updated w.pwm ≡ false
      → length w.pwm.values ≡ 16
      → w.pwm.force_pwmzero_countdown < 2 ^ 32
      → (rcio_pwm_update a k t w).1.pwm ≡ record (w.pwm) {
        armed = true;
        freq_update_noticed = false;
        values = written w.pwm;
        force_pwmzero_countdown = counted w.pwm.force_pwmzero_countdown;
      }
  unfolding some_freq_updated
  quiet_step t w on quiet all small =
      rw
        (
          rcio_pwm_update-armed a k t w on (rw quiet refl),
          nothing_pending (armed_world a k t w) quiet,
          quiet,
        )
        (unfold after_frequency finish_update in
          rw
            (zero_countdown_lem (record (w.pwm) { armed = true; freq_update_noticed = false }) all
              small)
            refl)

  run_down :
      (ts : List ℕ) (w : World D)
      → some_freq_updated w.pwm ≡ false
      → length w.pwm.values ≡ 16
      → w.pwm.force_pwmzero_countdown ≡ length ts
      → length ts < 2 ^ 31
      → All (λ t. armed_at k t w.pwm.armtimeout ≡ true) ts
      → let w' = updates a k ts w in
        (w'.pwm.force_pwmzero_countdown ≡ 0) × (w'.pwm.values ≡ written w.pwm)
  unfolding updates some_freq_updated
  run_down [] w quiet all counts short on = (counts, ground arith)
  run_down (t ∷ ts) w quiet all counts short on =
      let step = quiet_step t w on.0 quiet all (omega arith) in
      let w1 = (rcio_pwm_update a k t w).1 in
      let positive : int_pos w.pwm.force_pwmzero_countdown ≡ true = ground arith in
      let left : counted w.pwm.force_pwmzero_countdown ≡ length ts = ground arith in
      let rest =
        run_down ts w1 (ap some_freq_updated step ∙ quiet)
          (ap (λ p. length p.values) step ∙ length-written w.pwm all)
          (ap (λ p. p.force_pwmzero_countdown) step ∙ left) (omega arith)
          (rw (ap (λ p. p.armtimeout) step) on.1) in
      (rest.0, rest.1 ∙ written_again w.pwm w1.pwm positive (ap (λ p. p.values) step))

  -- rcio_pwm_force_zero_duty, from no countdown, with 16 values, no frequency to change and the
  -- outputs armed at each call: it and the 49 updates that follow end with the countdown at 0 and
  -- the first 12 outputs at zero, the others as they were.
  pub rcio_pwm_force_zero_duty_ends :
      (t : ℕ) (ts : List ℕ) (w : World D)
      → some_freq_updated w.pwm ≡ false
      → length w.pwm.values ≡ 16
      → w.pwm.force_pwmzero_countdown ≡ 0
      → length ts ≡ 49
      → All (λ s. armed_at k s w.pwm.armtimeout ≡ true) (t ∷ ts)
      → let w' = updates a k ts (rcio_pwm_force_zero_duty a k t w) in
        (w'.pwm.force_pwmzero_countdown ≡ 0)
        × (w'.pwm.values ≡ replicate 12 0 ++ drop 12 w.pwm.values)
  unfolding rcio_pwm_force_zero_duty some_freq_updated updates
  rcio_pwm_force_zero_duty_ends t ts w quiet all none_left enough on =
      let started = record w {
        pwm = record (w.pwm) {
          force_pwmzero_countdown = (w.pwm.force_pwmzero_countdown + 50) % 2 ^ 32;
        };
      } in
      let fifty : started.pwm.force_pwmzero_countdown ≡ 50 =
        ap (λ n. (n + 50) % 2 ^ 32) none_left in
      let done =
        run_down (t ∷ ts) started quiet all (fifty ∙ ap suc (sym enough)) (omega arith) on in
      (done.0, done.1 ∙ rw fifty refl)
