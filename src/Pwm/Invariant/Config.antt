-- ===== src/Pwm/Invariant/Config.antt =====
-- rcio_pwm_config and the invariant of the outputs.
use rcio_dkms.Base.{
  ℕ, ◌+◌, ◌/◌, ◌%◌, ◌^◌, ◌<◌, ◌≡◌, refl, Bool, true, false, List, arith, length, get_or, set,
  if◌then◌else◌, length-set, All-set, get_or-set, get_or-set_cases, Bool-cases, inl, inr, sym, ◌∙◌,
}
use mathlib.Core.Bool.{false≢true}
use rcio_dkms.Kernel.{Kernel, ulong}
use rcio_dkms.Protocol.Packet.{IsWord}
use rcio_dkms.State.{Pwm, Gpio}
use rcio_dkms.Pwm.Config.{
  pwm_group_number, config_new_way, config_old_way, config_blocked, rcio_pwm_config,
}
use rcio_dkms.Pwm.Config.Laws.{
  frequency_of, rcio_pwm_config_blocked, rcio_pwm_config-new, rcio_pwm_config-old,
  config_new_way_lem, config_old_way_lem,
}
use rcio_dkms.Pwm.Invariant.{PwmInv, Settled}
use rcio_dkms.Pwm.Invariant.Values.{set_value-PwmInv}

IsWord-if : (b : Bool) (v : ℕ) → IsWord (if b then v % 2 ^ 16 else 0)
IsWord-if true v = omega arith
IsWord-if false v = omega arith

length-if-set {ℓ} :
    {A : Type ℓ} (b : Bool) (xs : List A) (i : ℕ) (v : A)
    → length (if b then set xs i v else xs) ≡ length xs
length-if-set true xs i v = length-set xs i v
length-if-set false xs i v = refl

Settled-if-set :
    (b : Bool) (required : List Bool) (frequencies new_frequencies : List ℕ) (g f : ℕ)
    → g < 4
    → length required ≡ 4
    → length new_frequencies ≡ 4
    → Settled required frequencies new_frequencies
    → Settled
        (if b then set required g true else required)
        frequencies
        (if b then set new_frequencies g f else new_frequencies)
Settled-if-set false required frequencies new_frequencies g f small h h' s = s
Settled-if-set true required frequencies new_frequencies g f small h h' s = λ i e.
    elim (get_or-set_cases new_frequencies g i f 0) [
      | inl (same, _) ↦ absurd (pending i e same)
      | inr kept ↦ s i (ground (arith, get_or-set_cases required g i true false)) ∙ sym kept
    ]
  where
    pending : (i : ℕ) → get_or (set required g true) i false ≡ false → g ≡ i → ⊥
    pending i e same = ground (arith, get_or-set required g i true false)

group_small : (pin : ℕ) → pwm_group_number pin < 4
unfolding pwm_group_number
group_small pin = ground arith

config_new_way-PwmInv :
    (p : Pwm) (pin duty_ns f : ℕ)
    → p.adv_timer_config_supported ≡ true
    → PwmInv p
    → PwmInv (config_new_way p pin duty_ns f)
config_new_way-PwmInv p pin duty_ns f adv inv =
    let (values, frequencies, news, required, timeout, way, alt, def) =
      config_new_way_lem p pin duty_ns f (pwm_group_number pin) refl in
    rw (values, frequencies, news, required, way, alt, def)
      (record {
        values_all = length-set p.values pin _ ∙ inv.values_all;
        values_words =
            All-set IsWord p.values pin _ (IsWord-if _ (duty_ns / 1000)) inv.values_words;
        frequencies_all = inv.frequencies_all;
        new_frequencies_all = length-if-set _ p.new_frequencies _ f ∙ inv.new_frequencies_all;
        required_all = length-if-set _ p.frequencies_update_required _ true ∙ inv.required_all;
        settled =
            Settled-if-set _ p.frequencies_update_required p.frequencies p.new_frequencies _ f
              (group_small pin) inv.required_all inv.new_frequencies_all inv.settled;
        new_way = inv.new_way;
        old_way = λ e. absurd (false≢true (sym e ∙ adv));
      })

config_old_way-PwmInv :
    (p : Pwm) (pin duty_ns f : ℕ)
    → p.adv_timer_config_supported ≡ false
    → PwmInv p
    → PwmInv (config_old_way p pin duty_ns f)
config_old_way-PwmInv p pin duty_ns f old inv =
    let q = config_old_way_lem p pin duty_ns f in
    rw (q.0, q.5, q.6, q.7, q.9)
      (record {
        values_all = length-set p.values pin _ ∙ inv.values_all;
        values_words =
            All-set IsWord p.values pin _ (IsWord-if _ (duty_ns / 1000)) inv.values_words;
        frequencies_all = inv.frequencies_all;
        new_frequencies_all = inv.new_frequencies_all;
        required_all = inv.required_all;
        settled = inv.settled;
        new_way = λ e. absurd (false≢true (sym old ∙ e));
        old_way = inv.old_way;
      })

-- rcio_pwm_config keeps the invariant, whatever it is asked for.
pub rcio_pwm_config-PwmInv :
    (k : Kernel) (t : ℕ) (g : Gpio) (p : Pwm) (pin duty_ns period_ns : ℕ)
    → PwmInv p
    → PwmInv (rcio_pwm_config k t g p pin duty_ns period_ns).1
rcio_pwm_config-PwmInv k t g p pin duty_ns period_ns inv =
    elim (Bool-cases (config_blocked g p pin duty_ns)) [
      | inl stop ↦
          rw (rcio_pwm_config_blocked k t g p pin duty_ns period_ns stop)
            (set_value-PwmInv p pin 0 (omega arith) inv)
      | inr free ↦ elim (Bool-cases p.adv_timer_config_supported) [
        | inl adv ↦
            rw (rcio_pwm_config-new k t g p pin duty_ns period_ns free adv)
              (config_new_way-PwmInv p1 pin duty_ns (frequency_of period_ns) adv inv)
        | inr old ↦
            rw (rcio_pwm_config-old k t g p pin duty_ns period_ns free old)
              (config_old_way-PwmInv p1 pin duty_ns (frequency_of period_ns) old inv)
      ]
    ]
  where
    p1 : Pwm
    p1 = record p { armtimeout = ulong (t + k.hz / 10) }
