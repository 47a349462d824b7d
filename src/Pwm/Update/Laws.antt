-- ===== src/Pwm/Update/Laws.antt =====
-- What one call of rcio_pwm_update does, armed and not.
use rcio_dkms.Base.{
  ℕ, zero, suc, ◌+◌, ◌-◌, ◌^◌, ◌≤◌, ◌<◌, ◌≡◌, refl, ap, ◌∙◌, ◌⊎◌, Bool, true, false, not, ◌&&◌,
  Option, none, some, ℤ, pos, negsuc, is_neg, List, [], ◌∷◌, ◌++◌, arith, length, set, drop,
  replicate, ltb, if◌then◌else◌, if_then,
}
use rcio_dkms.Base.Int.{to_bool}
use rcio_dkms.Adapter.{Adapter}
use rcio_dkms.Kernel.{Kernel}
use rcio_dkms.Protocol.Regs.{px4io_page_direct_pwm}
use rcio_dkms.Registers.{register_set}
use rcio_dkms.State.{World, Pwm, int_pos}
use rcio_dkms.Pwm.Update.{
  zero_from, rcio_set_zero_values, zero_countdown, arm, some_freq_updated, pending_frequency,
  after_frequency, finish_update, clear_values, rcio_pwm_update_frequency, rcio_pwm_update,
}

zero_from-suc :
    (left i x : ℕ) (values : List ℕ)
    → zero_from left (suc i) (x ∷ values) ≡ x ∷ zero_from left i values
unfolding zero_from
zero_from-suc zero i x values = refl
zero_from-suc (suc left) i x values =
    ap (λ j. zero_from left j (x ∷ set values i 0)) {x = suc i + 1} (omega arith)
    ∙ zero_from-suc left (i + 1) x (set values i 0)

-- The loop over the first `n` outputs puts them to zero and leaves the others.
pub zero_from_lem :
    (n : ℕ) (values : List ℕ)
    → n ≤ length values
    → zero_from n 0 values ≡ replicate n 0 ++ drop n values
unfolding zero_from
zero_from_lem zero values h = refl
zero_from_lem (suc n) [] h = absurd (omega arith)
zero_from_lem (suc n) (x ∷ values) h =
    zero_from-suc n 0 0 values ∙ ap (◌∷◌ 0) (zero_from_lem n values (omega arith))

-- Whether the outputs are armed at the time `t`, for a request that holds until `armtimeout`.
abbrev pub armed_at : Kernel → ℕ → ℕ → Bool
armed_at k t armtimeout = k.time_before t armtimeout && ltb 0 armtimeout

arm-on :
    (k : Kernel) (t : ℕ) (p : Pwm)
    → armed_at k t p.armtimeout ≡ true
    → arm k t p ≡ record p { armed = true }
unfolding arm
arm-on k t p h = if_then _ _ h

to_bool_result : (r : ℤ) (n : ℕ) → (r ≡ pos (suc n)) ⊎ (is_neg r ≡ true) → to_bool r ≡ true
to_bool_result (pos m) n h = ground arith
to_bool_result (negsuc m) n h = refl

-- The `int` of a write, as a `bool`, is true, whether the write has succeeded or failed.
register_set-to_bool :
    {D : Type 0} (a : Adapter D) (d : D) (page : ℕ) (values : List ℕ)
    → to_bool (register_set a d page 0 values 16).0 ≡ true
unfolding register_set
register_set-to_bool a d page values = to_bool_result _ 15 (a.write_result d _ values 16)

finish_true : {D : Type 0} (a : Adapter D) (w : World D) (b : Bool) → (finish_update a w b).0 ≡ true
unfolding finish_update
finish_true a w b = ground (
  arith,
  register_set-to_bool a w.dev px4io_page_direct_pwm
      (zero_countdown (record (w.pwm) { freq_update_noticed = false })).values,
)

after_true :
    {D : Type 0} (a : Adapter D) (o : Option (World D)) (w : World D) (b : Bool)
    → (after_frequency a o w b).0 ≡ true
unfolding after_frequency
after_true a none w b = finish_true a w b
after_true a (some w') w b = refl

-- The values that a call writes where no frequency is to change: the first 12 are zero while the
-- countdown is positive.
abbrev pub written : Pwm → List ℕ
written p =
    if int_pos p.force_pwmzero_countdown then replicate 12 0 ++ drop 12 p.values else p.values

-- The countdown after the call.
abbrev pub counted : ℕ → ℕ
counted n = if int_pos n then n - 1 else 0

pub zero_countdown_lem :
    (p : Pwm)
    → length p.values ≡ 16
    → p.force_pwmzero_countdown < 2 ^ 32
    → zero_countdown p
      ≡ record p { values = written p; force_pwmzero_countdown = counted p.force_pwmzero_countdown }
unfolding zero_countdown rcio_set_zero_values
zero_countdown_lem p all small = ground (arith, zero_from_lem 12 p.values)

module _ {D : Type 0} (a : Adapter D) (k : Kernel) (t : ℕ) (w : World D) where
  -- While the outputs are not armed, a call returns true, sends nothing to the device, and changes
  -- no frequency and no mark of a group.
  pub rcio_pwm_update_disarmed :
      armed_at k t w.pwm.armtimeout ≡ false
      → let (ok, w') = rcio_pwm_update a k t w in
        (ok ≡ true)
        × (w'.dev ≡ w.dev)
        × (w'.pwm.armed ≡ false)
        × (w'.pwm.frequencies ≡ w.pwm.frequencies)
        × (w'.pwm.frequencies_update_required ≡ w.pwm.frequencies_update_required)
  unfolding rcio_pwm_update finish_update arm zero_countdown rcio_set_zero_values
  rcio_pwm_update_disarmed h = ground arith

  -- Armed, with a change of frequency pending that no call has seen yet: the call writes 16 zeros
  -- to the outputs, notes the change, and changes no frequency.
  pub rcio_pwm_update_clears :
      armed_at k t w.pwm.armtimeout ≡ true
      → some_freq_updated w.pwm ≡ true
      → w.pwm.freq_update_noticed ≡ false
      → rcio_pwm_update a k t w ≡ (
        true,
        record w {
          dev = (register_set a w.dev px4io_page_direct_pwm 0 (replicate 16 0) 16).1;
          pwm = record (w.pwm) { armed = true; freq_update_noticed = true };
        },
      )
  unfolding rcio_pwm_update clear_values rcio_pwm_update_frequency
  rcio_pwm_update_clears on some_updated fresh = rw (arm-on k t w.pwm on, some_updated, fresh) refl

  abbrev pub armed_world : World D
  armed_world = record w { pwm = record (w.pwm) { armed = true } }

  -- Armed, where the zeros are out or nothing is pending.
  pub rcio_pwm_update-armed :
      armed_at k t w.pwm.armtimeout ≡ true
      → (some_freq_updated w.pwm && not w.pwm.freq_update_noticed) ≡ false
      → rcio_pwm_update a k t w
        ≡ after_frequency a (pending_frequency a armed_world) armed_world (some_freq_updated w.pwm)
  unfolding rcio_pwm_update
  rcio_pwm_update-armed on quiet = rw (arm-on k t w.pwm on, quiet) refl

  -- Armed, with no frequency to change, 16 values and a countdown of 32 bits: the call writes the
  -- outputs to the device, with the first 12 at zero while the countdown is positive, keeps what it
  -- has written, counts down, and returns true.
  pub rcio_pwm_update_writes :
      armed_at k t w.pwm.armtimeout ≡ true
      → some_freq_updated w.pwm ≡ false
      → pending_frequency a armed_world ≡ none
      → length w.pwm.values ≡ 16
      → w.pwm.force_pwmzero_countdown < 2 ^ 32
      → let (ok, w') = rcio_pwm_update a k t w in
        (ok ≡ true)
        × (w'.dev ≡ (register_set a w.dev px4io_page_direct_pwm 0 (written w.pwm) 16).1)
        × (w'.pwm.values ≡ written w.pwm)
        × (w'.pwm.force_pwmzero_countdown ≡ counted w.pwm.force_pwmzero_countdown)
  rcio_pwm_update_writes on quiet nothing all small =
      rw (rcio_pwm_update-armed on (rw quiet refl), nothing, quiet) finished
    where
      finished :
          let (ok, w') = after_frequency a none armed_world false in
          (ok ≡ true)
          × (w'.dev ≡ (register_set a w.dev px4io_page_direct_pwm 0 (written w.pwm) 16).1)
          × (w'.pwm.values ≡ written w.pwm)
          × (w'.pwm.force_pwmzero_countdown ≡ counted w.pwm.force_pwmzero_countdown)
      finished =
          unfold after_frequency finish_update in
          rw
            (zero_countdown_lem (record (w.pwm) { armed = true; freq_update_noticed = false }) all
              small)
            (register_set-to_bool a w.dev px4io_page_direct_pwm (written w.pwm), refl, refl, refl)

  -- Every call returns true, whether the device has taken what was written or not.
  pub rcio_pwm_update-true : (rcio_pwm_update a k t w).0 ≡ true
  unfolding rcio_pwm_update
  rcio_pwm_update-true = ground (
    arith,
    after_true a (pending_frequency a later) later (some_freq_updated w.pwm),
    finish_true a later (some_freq_updated w.pwm),
  )
    where
      later : World D
      later = record w { pwm = arm k t w.pwm }
