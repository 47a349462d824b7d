-- ===== src/Base/Bits/Fields.antt =====
-- Two fields put together by a shift and `|`.
use Prim.Native.Nat.{max}
use Prim.Native.Nat.{ℕ, zero, suc, ◌+◌, ◌*◌, ◌/◌, ◌^◌, ◌<◌, bit_or}
use mathlib.Core.Path.{◌≡◌, sym, ap, ◌∙◌}
use native.Mathlib.Nat.{pow-suc, mul_assoc, add-zero}
use native.Mathlib.Omega.{arith}
use rcio_dkms.Base.Bits.{bit, bit-zero, bit_ext, bit-bit_or, bit_or-lt}

-- The digits of a field at `2 ^ w` and of one below it do not meet.
bit-shift :
    (w high low k : ℕ)
    → low < 2 ^ w
    → max (bit (high * 2 ^ w) k) (bit low k) ≡ bit (high * 2 ^ w + low) k
unfolding bit
bit-shift zero high low k h =
    let none : low ≡ 0 = omega arith in rw (none, bit-zero, add-zero) (omega arith)
bit-shift (suc w) high low zero h = omega (arith, shifted)
  where
    shifted : high * 2 ^ suc w ≡ (high * 2 ^ w) * 2
    shifted = rw (pow-suc 2 w) (sym (mul_assoc high (2 ^ w) 2))
bit-shift (suc w) high low (suc k) h =
    ap (λ (t : ℕ). max (bit t k) (bit (low / 2) k)) {x = high * 2 ^ suc w / 2}
      (omega (arith, shifted))
    ∙ bit-shift w high (low / 2) k (omega (arith, pow-suc 2 w))
    ∙ ap (λ (t : ℕ). bit t k) {x = high * 2 ^ w + low / 2} (omega (arith, shifted))
  where
    shifted : high * 2 ^ suc w ≡ (high * 2 ^ w) * 2
    shifted = rw (pow-suc 2 w) (sym (mul_assoc high (2 ^ w) 2))

-- `high << w | low` is a sum where `low` fits below.
pub bit_or-shift :
    (n w high low : ℕ)
    → low < 2 ^ w
    → high * 2 ^ w + low < 2 ^ n
    → bit_or (high * 2 ^ w) low ≡ high * 2 ^ w + low
bit_or-shift n w high low h fits =
    bit_ext n (bit_or (high * 2 ^ w) low) (high * 2 ^ w + low)
      (bit_or-lt n (high * 2 ^ w) low (omega arith) (omega arith)) fits
      (λ k hk. bit-bit_or (high * 2 ^ w) low k ∙ bit-shift w high low k h)
