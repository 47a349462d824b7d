-- ===== src/Pwm/Invariant/Steps.antt =====
-- The steps of rcio_pwm_update and the invariant.
use rcio_dkms.Base.{
  ℕ, ◌+◌, ◌%◌, ◌^◌, ◌<◌, ◌≡◌, refl, Bool, true, false, Option, none, some, arith, get_or,
  if◌then◌else◌, length-set, get_or-set, get_or-set_cases, ◌&&◌, not, sym, ◌∙◌,
}
use mathlib.Core.Bool.{false≢true}
use mathlib.Core.Option
use rcio_dkms.Adapter.{Adapter}
use rcio_dkms.Kernel.{Kernel}
use rcio_dkms.State.{World}
use rcio_dkms.Pwm.Invariant.{PwmInv}
use rcio_dkms.Pwm.Update.{
  set_grp, zero_countdown, arm, first_required, rcio_pwm_update_frequency, update_group, update_alt,
  update_default, after_frequency, clear_values, pending_frequency, finish_update, rcio_pwm_update,
  rcio_pwm_force_zero_duty, some_freq_updated,
}
use rcio_dkms.Pwm.Invariant.Values.{first_required_lem, arm-PwmInv, zero_countdown-PwmInv}

abbrev KeepsSome : {D : Type 0} → Option (World D) → Type 0
KeepsSome none = Unit
KeepsSome (some w) = PwmInv w.pwm

if_some :
    {D : Type 0} (b : Bool) (x y : Option (World D))
    → (b ≡ true → KeepsSome x)
    → (b ≡ false → KeepsSome y)
    → KeepsSome (if b then x else y)
if_some true x y hx hy = hx refl
if_some false x y hx hy = hy refl

if_world :
    {D : Type 0} (b : Bool) (x y : Bool × World D)
    → PwmInv x.1.pwm
    → PwmInv y.1.pwm
    → PwmInv (if b then x else y).1.pwm
if_world true x y hx hy = hx
if_world false x y hx hy = hy

module _ {D : Type 0} (a : Adapter D) where
  -- A group that is updated has the frequency asked of it.
  pub set_grp-PwmInv :
      (w : World D) (i : ℕ) → PwmInv w.pwm → PwmInv (rcio_pwm_update_frequency a w (set_grp i)).pwm
  unfolding rcio_pwm_update_frequency
  set_grp-PwmInv w i inv = record {
    values_all = inv.values_all;
    values_words = inv.values_words;
    frequencies_all = length-set w.pwm.frequencies i _ ∙ inv.frequencies_all;
    new_frequencies_all = inv.new_frequencies_all;
    required_all = inv.required_all;
    settled = λ j h. ground (
      arith,
      inv.settled j,
      get_or-set_cases w.pwm.frequencies i j (get_or w.pwm.new_frequencies i 0) 0,
    );
    new_way = inv.new_way;
    old_way = inv.old_way;
  }

  update_group-PwmInv :
      (w : World D) (i : ℕ)
      → i < 4
      → w.pwm.adv_timer_config_supported ≡ true
      → PwmInv w.pwm
      → PwmInv (update_group a w i).pwm
  unfolding update_group
  update_group-PwmInv w i h adv inv = record {
    values_all = inv.values_all;
    values_words = inv.values_words;
    frequencies_all = length-set w.pwm.frequencies i _ ∙ inv.frequencies_all;
    new_frequencies_all = inv.new_frequencies_all;
    required_all = length-set w.pwm.frequencies_update_required i false ∙ inv.required_all;
    settled = λ j e. ground (
      arith,
      inv.settled j,
      inv.frequencies_all,
      get_or-set w.pwm.frequencies i j (get_or w.pwm.new_frequencies i 0) 0,
      get_or-set_cases w.pwm.frequencies_update_required i j false false,
    );
    new_way = inv.new_way;
    old_way = λ e. absurd (false≢true (sym e ∙ adv));
  }

  update_alt-PwmInv :
      (w : World D)
      → w.pwm.adv_timer_config_supported ≡ false
      → PwmInv w.pwm
      → PwmInv (update_alt a w).pwm
  unfolding update_alt
  update_alt-PwmInv w adv inv = record {
    values_all = inv.values_all;
    values_words = inv.values_words;
    frequencies_all = inv.frequencies_all;
    new_frequencies_all = inv.new_frequencies_all;
    required_all = inv.required_all;
    settled = inv.settled;
    new_way = λ e. absurd (false≢true (sym adv ∙ e));
    old_way = inv.old_way;
  }

  update_default-PwmInv :
      (w : World D)
      → w.pwm.adv_timer_config_supported ≡ false
      → PwmInv w.pwm
      → PwmInv (update_default a w).pwm
  unfolding update_default
  update_default-PwmInv w adv inv = record {
    values_all = inv.values_all;
    values_words = inv.values_words;
    frequencies_all = inv.frequencies_all;
    new_frequencies_all = inv.new_frequencies_all;
    required_all = inv.required_all;
    settled = inv.settled;
    new_way = λ e. absurd (false≢true (sym adv ∙ e));
    old_way = inv.old_way;
  }

  finish_update-PwmInv :
      (w : World D) (b : Bool) → PwmInv w.pwm → PwmInv (finish_update a w b).1.pwm
  unfolding finish_update
  finish_update-PwmInv w b inv = if_world _ _ _ kept kept
    where
      kept : PwmInv (zero_countdown (record (w.pwm) { freq_update_noticed = false }))
      kept = zero_countdown-PwmInv (record (w.pwm) { freq_update_noticed = false }) inv

  group-PwmInv :
      (w : World D) (o : Option ℕ)
      → first_required w.pwm.frequencies_update_required 0 ≡ o
      → w.pwm.adv_timer_config_supported ≡ true
      → PwmInv w.pwm
      → KeepsSome (Option.map (update_group a w) o)
  group-PwmInv w none e adv inv = tt
  group-PwmInv w (some i) e adv inv =
      let (m, at, inside, found) = first_required_lem w.pwm.frequencies_update_required 0 e in
      update_group-PwmInv w i (omega (arith, inv.required_all)) adv inv

  pending_frequency-PwmInv : (w : World D) → PwmInv w.pwm → KeepsSome (pending_frequency a w)
  unfolding pending_frequency
  pending_frequency-PwmInv w inv =
      if_some w.pwm.adv_timer_config_supported _ _ (λ adv. group-PwmInv w _ refl adv inv)
        (λ old.
          if_some w.pwm.alt_frequency_updated _ _ (λ _. update_alt-PwmInv w old inv)
            (λ _.
              if_some w.pwm.default_frequency_updated _ none (λ _. update_default-PwmInv w old inv)
                (λ _. tt)))

  after_frequency-PwmInv :
      (o : Option (World D)) (w : World D) (b : Bool)
      → KeepsSome o
      → PwmInv w.pwm
      → PwmInv (after_frequency a o w b).1.pwm
  unfolding after_frequency
  after_frequency-PwmInv none w b h inv = finish_update-PwmInv w b inv
  after_frequency-PwmInv (some w') w b h inv = h

  -- rcio_pwm_update keeps the invariant, on every path.
  pub rcio_pwm_update-PwmInv :
      (k : Kernel) (t : ℕ) (w : World D) → PwmInv w.pwm → PwmInv (rcio_pwm_update a k t w).1.pwm
  unfolding rcio_pwm_update clear_values
  rcio_pwm_update-PwmInv k t w inv =
      if_world w1.pwm.armed
        (if some_updated && not w1.pwm.freq_update_noticed
          then (true, clear_values a w1)
          else later)
        (finish_update a w1 some_updated)
        (if_world (some_updated && not w1.pwm.freq_update_noticed) (true, clear_values a w1) later
          armed
          (after_frequency-PwmInv (pending_frequency a w1) w1 some_updated
            (pending_frequency-PwmInv w1 armed) armed))
        (finish_update-PwmInv w1 some_updated armed)
    where
      some_updated : Bool
      some_updated = some_freq_updated w.pwm

      w1 : World D
      w1 = record w { pwm = arm k t w.pwm }

      later : Bool × World D
      later = after_frequency a (pending_frequency a w1) w1 some_updated

      armed : PwmInv (arm k t w.pwm)
      armed = arm-PwmInv k t w.pwm inv

  pub rcio_pwm_force_zero_duty-PwmInv :
      (k : Kernel) (t : ℕ) (w : World D)
      → PwmInv w.pwm
      → PwmInv (rcio_pwm_force_zero_duty a k t w).pwm
  unfolding rcio_pwm_force_zero_duty
  rcio_pwm_force_zero_duty-PwmInv k t w inv = rcio_pwm_update-PwmInv k t (raised w) inv
    where
      raised : World D → World D
      raised w = record w {
        pwm = record (w.pwm) {
          force_pwmzero_countdown = (w.pwm.force_pwmzero_countdown + 50) % 2 ^ 32;
        };
      }
