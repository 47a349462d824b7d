-- ===== src/Protocol/Pins/Laws.antt =====
-- What the bit macros do to each digit of a 16-bit word.
use native.Mathlib.Nat.{div-le_self}
use rcio_dkms.Base.{
  ℕ, zero, suc, ◌-◌, ◌*◌, ◌/◌, ◌%◌, ◌^◌, ◌<◌, ◌≡◌, sym, ap, ◌∙◌, arith, bit_and, bit_or, ◌==◌, leb,
  if◌then◌else◌,
}
use rcio_dkms.Base.Bits.{
  bit, bit-lt, bit-zero, bit-mod, bit-div, bit-bit_and, bit-bit_or, bit_ext, bit_and-lt,
}
use rcio_dkms.Base.Bits.Masks.{bit-power, bit_low_hole}
use rcio_dkms.Protocol.Pins.{set_bit_m, clear_bit_m, get_bit_m}

-- `set_bit_m` sets the one digit, and leaves the others.
pub bit-set_bit_m :
    (p n k : ℕ) → n < 16 → k < 16 → bit (set_bit_m p n) k ≡ (if n == k then 1 else bit p k)
unfolding set_bit_m
bit-set_bit_m p n k hn hk =
    ground
      (arith, bit-mod 16 (bit_or p (2 ^ n)) k, bit-bit_or p (2 ^ n) k, bit-power n k, bit-lt p k)

-- `clear_bit_m` clears the digit and all those below it.
pub bit-clear_bit_m :
    (p n k : ℕ) → n < 16 → k < 16 → bit (clear_bit_m p n) k ≡ (if leb k n then 0 else bit p k)
unfolding clear_bit_m
bit-clear_bit_m p n k hn hk = ground (
  arith,
  bit-mod 16 (bit_and p ((2 ^ 32 - 1 - 1) * 2 ^ n % 2 ^ 32)) k,
  bit-bit_and p ((2 ^ 32 - 1 - 1) * 2 ^ n % 2 ^ 32) k,
  bit_low_hole n k,
  bit-lt p k,
)

bit_and-one : (x : ℕ) → x < 2 ^ 16 → bit_and x 1 ≡ x % 2
bit_and-one x h =
    bit_ext 16 (bit_and x 1) (x % 2) (bit_and-lt 16 x 1 h (omega arith)) (omega arith) digit
  where
    digit : (k : ℕ) → k < 16 → bit (bit_and x 1) k ≡ bit (x % 2) k
    digit zero hk = bit-bit_and x 1 0 ∙ unfold bit in omega arith
    digit (suc k) hk =
        bit-bit_and x 1 (suc k)
        ∙ unfold bit in
          let rest : bit (x % 2 / 2) k ≡ 0 =
            ap (λ (t : ℕ). bit t k) {x = x % 2 / 2} (omega arith) ∙ bit-zero k in
          omega (arith, bit-zero k, rest)

-- `get_bit_m` reads the digit.
pub get_bit_m-bit : (p n : ℕ) → p < 2 ^ 16 → get_bit_m p n ≡ bit p n
unfolding get_bit_m
get_bit_m-bit p n h =
    bit_and-one (p / 2 ^ n) (omega (arith, div-le_self p (2 ^ n))) ∙ sym (bit-div p n)
