-- ===== src/Pwm/Invariant/Values.antt =====
-- Steps of rcio_pwm_update that leave the device alone, and the store of one value.
use rcio_dkms.Base.{
  ℕ, zero, suc, ◌+◌, ◌-◌, ◌%◌, ◌^◌, ◌<◌, ◌≡◌, refl, Bool, true, false, some, List, [], ◌∷◌, arith,
  length, get_or, set, if◌then◌else◌, All, length-set, All-set, ◌∙◌,
}
use rcio_dkms.Kernel.{Kernel}
use rcio_dkms.Protocol.Packet.{IsWord}
use rcio_dkms.State.{Pwm}
use rcio_dkms.Pwm.Invariant.{PwmInv}
use rcio_dkms.Pwm.Update.{zero_from, zero_countdown, rcio_set_zero_values, arm, first_required}

-- A write of a word into `values` keeps the invariant.
pub set_value-PwmInv :
    (p : Pwm) (pin v : ℕ) → IsWord v → PwmInv p → PwmInv (record p { values = set p.values pin v })
set_value-PwmInv p pin v word inv = record {
  values_all = length-set p.values pin v ∙ inv.values_all;
  values_words = All-set IsWord p.values pin v word inv.values_words;
  frequencies_all = inv.frequencies_all;
  new_frequencies_all = inv.new_frequencies_all;
  required_all = inv.required_all;
  settled = inv.settled;
  new_way = inv.new_way;
  old_way = inv.old_way;
}

zero_from_range :
    (left i : ℕ) (values : List ℕ)
    → All IsWord values
    → (length (zero_from left i values) ≡ length values) × All IsWord (zero_from left i values)
unfolding zero_from
zero_from_range zero i values h = (refl, h)
zero_from_range (suc left) i values h =
    let rest : (length (zero_from left (i + 1) (set values i 0)) ≡ length (set values i 0))
        × All IsWord (zero_from left (i + 1) (set values i 0)) =
      zero_from_range left (i + 1) (set values i 0) (All-set IsWord values i 0 (omega arith) h) in
    (rest.0 ∙ length-set values i 0, rest.1)

zero_values-PwmInv : (p : Pwm) → PwmInv p → PwmInv (rcio_set_zero_values p)
unfolding rcio_set_zero_values
zero_values-PwmInv p inv = record {
  values_all = (zero_from_range 12 0 p.values inv.values_words).0 ∙ inv.values_all;
  values_words = (zero_from_range 12 0 p.values inv.values_words).1;
  frequencies_all = inv.frequencies_all;
  new_frequencies_all = inv.new_frequencies_all;
  required_all = inv.required_all;
  settled = inv.settled;
  new_way = inv.new_way;
  old_way = inv.old_way;
}

pub if_PwmInv : (b : Bool) (p q : Pwm) → PwmInv p → PwmInv q → PwmInv (if b then p else q)
if_PwmInv true p q hp hq = hp
if_PwmInv false p q hp hq = hq

pub arm-PwmInv : (k : Kernel) (t : ℕ) (p : Pwm) → PwmInv p → PwmInv (arm k t p)
unfolding arm
arm-PwmInv k t p inv = if_PwmInv _ _ _ inv inv

pub zero_countdown-PwmInv : (p : Pwm) → PwmInv p → PwmInv (zero_countdown p)
unfolding zero_countdown
zero_countdown-PwmInv p inv =
    if_PwmInv _ _ _
      (zero_values-PwmInv
        (record p { force_pwmzero_countdown = (p.force_pwmzero_countdown + 2 ^ 32 - 1) % 2 ^ 32 })
        inv)
      (if_PwmInv _ _ _ inv inv)

-- The first group that is found lies in the array, and its update is pending.
pub first_required_lem :
    (rs : List Bool) (i : ℕ) {j : ℕ}
    → first_required rs i ≡ some j
    → (m : ℕ) × (j ≡ i + m) × (m < length rs) × (get_or rs m false ≡ true)
unfolding first_required
first_required_lem [] i e = cc
first_required_lem (true ∷ rs) i e = (0, ground arith, omega arith, refl)
first_required_lem (false ∷ rs) i e =
    let (m, at, inside, found) = first_required_lem rs (i + 1) e in
    (suc m, omega arith, omega arith, found)
