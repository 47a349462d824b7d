-- ===== src/Base/Bits/Masks.antt =====
-- The binary digits of the masks that the code writes.
use Prim.Native.Nat.{ℕ, zero, suc, ◌-◌, ◌*◌, ◌/◌, ◌%◌, ◌^◌, ◌≤◌, ◌<◌, bit_and}
use mathlib.Core.Path.{◌≡◌, refl, ap, ◌∙◌}
use mathlib.Core.Bool.{true}
use native.Mathlib.Nat.{pow-suc}
use native.Mathlib.Omega.{arith}
use native.Mathlib.Decide.{dec_lt}
use rcio_dkms.Base.Tests.{◌==◌, leb, ==_iff, if◌then◌else◌, all_below, all_below_sound}
use rcio_dkms.Base.Bits.{bit, bit-lt, bit-zero, bit_ext, bit-bit_and, bit-mod, bit_and-lt}

bit-zero_of_lt : (w x k : ℕ) → x < 2 ^ w → w ≤ k → bit x k ≡ 0
unfolding bit
bit-zero_of_lt zero x k h le = ap (λ (t : ℕ). bit t k) {x = x} (omega arith) ∙ bit-zero k
bit-zero_of_lt (suc w) x zero h le = absurd (omega arith)
bit-zero_of_lt (suc w) x (suc k) h le =
    bit-zero_of_lt w (x / 2) k (omega (arith, pow-suc 2 w)) (omega arith)

ones_table : all_below 8 (λ k. bit 0xff k == 1) ≡ true
unfolding all_below bit
ones_table = refl

-- The low byte of a 16-bit number.
pub bit_and-0xff : (a : ℕ) → a < 2 ^ 16 → bit_and a 0xff ≡ a % 2 ^ 8
bit_and-0xff a h =
    bit_ext 16 (bit_and a 0xff) (a % 2 ^ 8) (bit_and-lt 16 a 0xff h (omega arith)) (omega arith)
      digit
  where
    digit : (k : ℕ) → k < 16 → bit (bit_and a 0xff) k ≡ bit (a % 2 ^ 8) k
    digit k hk = elim (dec_lt k 8) [
      | yes low ↦ omega (
        arith,
        bit-bit_and a 0xff k,
        bit-mod 8 a k low,
        bit-lt a k,
        (==_iff (bit 0xff k) 1).0 (all_below_sound 8 (λ k. bit 0xff k == 1) k ones_table low),
      )
      | no high ↦ omega (
        arith,
        bit-bit_and a 0xff k,
        bit-zero_of_lt 8 0xff k (omega arith) (omega arith),
        bit-zero_of_lt 8 (a % 2 ^ 8) k (omega arith) (omega arith),
      )
    ]

-- The one digit of `1 << n`, and the digits of a mask with that one digit missing.
power_table :
    all_below 16 (λ n. all_below 16 (λ k. bit (2 ^ n) k == (if n == k then 1 else 0))) ≡ true
unfolding all_below bit
power_table = refl

-- `~1 << n`: the digits from `n` down are 0, not the one digit `n` alone.
low_table :
    all_below 16 (λ n.
      all_below 16 (λ k. bit ((2 ^ 32 - 1 - 1) * 2 ^ n % 2 ^ 32) k == (if leb k n then 0 else 1)))
    ≡ true
unfolding all_below bit
low_table = refl

table_sound :
    (f g : ℕ → ℕ → ℕ)
    → all_below 16 (λ n. all_below 16 (λ k. f n k == g n k)) ≡ true
    → (n k : ℕ) → n < 16
    → k < 16
    → f n k ≡ g n k
table_sound f g t n k hn hk = (==_iff (f n k) (g n k)).0 (
    all_below_sound 16 (λ k. f n k == g n k) k
      (all_below_sound 16 (λ n. all_below 16 (λ k. f n k == g n k)) n t hn) hk)

pub bit-power : (n k : ℕ) → n < 16 → k < 16 → bit (2 ^ n) k ≡ (if n == k then 1 else 0)
bit-power = table_sound (λ n k. bit (2 ^ n) k) (λ n k. if n == k then 1 else 0) power_table

pub bit_low_hole :
    (n k : ℕ)
    → n < 16
    → k < 16
    → bit ((2 ^ 32 - 1 - 1) * 2 ^ n % 2 ^ 32) k ≡ (if leb k n then 0 else 1)
bit_low_hole =
    table_sound (λ n k. bit ((2 ^ 32 - 1 - 1) * 2 ^ n % 2 ^ 32) k) (λ n k. if leb k n then 0 else 1)
      low_table
