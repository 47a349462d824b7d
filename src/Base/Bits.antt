-- ===== src/Base/Bits.antt =====
-- The binary digits of a number: what the bitwise operators of C do to each of them, at every
-- width.
pub mod Fields
pub mod Masks
use Prim.Native.Nat.{min, max, digits, differ, bit_and-bitwise, bit_or-bitwise, bit_xor-bitwise}
use Prim.Native.Nat.{ℕ, zero, suc, ◌+◌, ◌-◌, ◌*◌, ◌/◌, ◌%◌, ◌^◌, ◌≤◌, ◌<◌, bit_and, bit_or, bit_xor}
use mathlib.Core.Path.{◌≡◌, refl, sym, ap, ◌∙◌}
use mathlib.Core.Bool.{true}
use native.Mathlib.Nat.{
  le_refl, pow-suc, one-le-pow, div-add-mod, mul-add-mod_self_left, mod-eq_of_lt, mod-lt,
  div-div-eq-div-mul, mul_comm,
}
use native.Mathlib.Omega.{arith}
use native.Mathlib.Decide.{dec_lt}
use rcio_dkms.Base.Tests.{◌==◌, leb, ==_iff, if◌then◌else◌, all_below, all_below_sound}

-- The digit of `x` at weight `2 ^ k`.
unfoldable pub bit : ℕ → ℕ → ℕ
bit x zero = x % 2
bit x (suc k) = bit (x / 2) k

pub bit-lt : (x k : ℕ) → bit x k < 2
unfolding bit
bit-lt x zero = omega arith
bit-lt x (suc k) = bit-lt (x / 2) k

pub bit-zero : (k : ℕ) → bit 0 k ≡ 0
unfolding bit
bit-zero zero = refl
bit-zero (suc k) = bit-zero k

-- Numbers below `2 ^ w` with the same `w` digits are equal.
pub bit_ext : (w x y : ℕ) → x < 2 ^ w → y < 2 ^ w → ((k : ℕ) → k < w → bit x k ≡ bit y k) → x ≡ y
unfolding bit
bit_ext zero x y hx hy h = omega arith
bit_ext (suc w) x y hx hy h = omega (
  arith,
  h 0 (omega arith),
  bit_ext w (x / 2) (y / 2) (omega (arith, pow-suc 2 w)) (omega (arith, pow-suc 2 w))
      (λ k hk. h (suc k) (omega arith)),
)

pub bit-div : (x k : ℕ) → bit x k ≡ x / 2 ^ k % 2
unfolding bit
bit-div x zero = omega arith
bit-div x (suc k) = bit-div (x / 2) k ∙ ap (λ (t : ℕ). t % 2) halves
  where
    halves : x / 2 / 2 ^ k ≡ x / 2 ^ suc k
    halves =
        div-div-eq-div-mul x 2 (2 ^ k)
        ∙ ap (λ (t : ℕ). x / t) (mul_comm 2 (2 ^ k) ∙ sym (pow-suc 2 k))

-- An operation that works digit by digit, `f` on two digits and `z` where the first number has
-- run out, gives `f` of the digits at every place.
module _ (z : ℕ → ℕ) (f : ℕ → ℕ → ℕ) (rest : (b k : ℕ) → bit (z b) k ≡ f 0 (bit b k))
    (small : (x y : ℕ) → x < 2 → y < 2 → f x y < 2) where
  bit-double : (q r k : ℕ) → r < 2 → bit (q * 2 + r) (suc k) ≡ bit q k
  unfolding bit
  bit-double q r k h = ap (λ (t : ℕ). bit t k) (omega arith)

  bit-digits : (n a b k : ℕ) → a ≤ n → bit (digits z f n a b) k ≡ f (bit a k) (bit b k)
  unfolding bit
  bit-digits zero zero b k h = rw bit-zero (rest b k)
  bit-digits zero (suc a) b k h = absurd (omega arith)
  bit-digits (suc n) zero b k h = rw bit-zero (rest b k)
  bit-digits (suc n) (suc a) b zero h =
      omega (arith, small (suc a % 2) (b % 2) (omega arith) (omega arith))
  bit-digits (suc n) (suc a) b (suc k) h =
      bit-double (digits z f n (suc a / 2) (b / 2)) (f (suc a % 2) (b % 2)) k
        (small (suc a % 2) (b % 2) (omega arith) (omega arith))
      ∙ bit-digits n (suc a / 2) (b / 2) k (omega arith)

  digits-lt :
      (keep : (b w : ℕ) → b < 2 ^ w → z b < 2 ^ w) (n a b w : ℕ)
      → a < 2 ^ w
      → b < 2 ^ w
      → digits z f n a b < 2 ^ w
  digits-lt keep zero a b w p q = keep b w q
  digits-lt keep (suc n) zero b w p q = keep b w q
  digits-lt keep (suc n) (suc a) b zero p q = absurd (omega arith)
  digits-lt keep (suc n) (suc a) b (suc w) p q = omega (
    arith,
    pow-suc 2 w,
    digits-lt keep n (suc a / 2) (b / 2) w (omega (arith, pow-suc 2 w))
        (omega (arith, pow-suc 2 w)),
    small (suc a % 2) (b % 2) (omega arith) (omega arith),
  )

pub bit-bit_and : (a b k : ℕ) → bit (bit_and a b) k ≡ min (bit a k) (bit b k)
bit-bit_and a b k = rw bit_and-bitwise (
    bit-digits (λ b. 0) min (λ b k. omega (arith, bit-zero k)) (λ x y p q. omega arith) a a b k
      (le_refl a))

pub bit-bit_or : (a b k : ℕ) → bit (bit_or a b) k ≡ max (bit a k) (bit b k)
bit-bit_or a b k =
    rw bit_or-bitwise
      (bit-digits (λ b. b) max (λ b k. omega arith) (λ x y p q. omega arith) a a b k (le_refl a))

differ-lt : (x y : ℕ) → x < 2 → y < 2 → differ x y < 2
differ-lt zero y p q = q
differ-lt (suc x) zero p q = p
differ-lt (suc x) (suc y) p q = differ-lt x y (omega arith) (omega arith)

pub bit-bit_xor : (a b k : ℕ) → bit (bit_xor a b) k ≡ differ (bit a k) (bit b k)
bit-bit_xor a b k =
    rw bit_xor-bitwise (bit-digits (λ b. b) differ (λ b k. refl) differ-lt a a b k (le_refl a))

mod-double : (p x : ℕ) → 0 < p → (x % (p * 2) % 2 ≡ x % 2) × (x % (p * 2) / 2 ≡ x / 2 % p)
mod-double p x h = (grind (arith, div-add-mod x (p * 2)), sym low)
  where
    halves : x / 2 ≡ p * (x / (p * 2)) + x % (p * 2) / 2
    halves = omega (arith, div-add-mod x (p * 2))

    low : x / 2 % p ≡ x % (p * 2) / 2
    low =
        rw (halves, mul-add-mod_self_left)
          (mod-eq_of_lt (omega (arith, mod-lt x {m = p * 2} (omega arith))))

-- The lowest `w` digits of a number are those of its remainder.
pub bit-mod : (w x k : ℕ) → k < w → bit (x % 2 ^ w) k ≡ bit x k
unfolding bit
bit-mod zero x k h = absurd (omega arith)
bit-mod (suc w) x zero h = rw (pow-suc 2 w) (mod-double (2 ^ w) x (one-le-pow w 2 (omega arith))).0
bit-mod (suc w) x (suc k) h =
    rw (pow-suc 2 w, (mod-double (2 ^ w) x (one-le-pow w 2 (omega arith))).1)
      (bit-mod w (x / 2) k (omega arith))

pub bit_and-lt : (w a b : ℕ) → a < 2 ^ w → b < 2 ^ w → bit_and a b < 2 ^ w
bit_and-lt w a b p q = rw bit_and-bitwise (
    digits-lt (λ b. 0) min (λ b k. omega (arith, bit-zero k)) (λ x y p q. omega arith)
      (λ b w h. omega arith) a a b w p q)

pub bit_xor-lt : (w a b : ℕ) → a < 2 ^ w → b < 2 ^ w → bit_xor a b < 2 ^ w
bit_xor-lt w a b p q =
    rw bit_xor-bitwise (digits-lt (λ b. b) differ (λ b k. refl) differ-lt (λ b w h. h) a a b w p q)

pub bit_or-lt : (w a b : ℕ) → a < 2 ^ w → b < 2 ^ w → bit_or a b < 2 ^ w
bit_or-lt w a b p q = rw bit_or-bitwise (
    digits-lt (λ b. b) max (λ b k. omega (arith, bit-lt b k)) (λ x y p q. omega arith) (λ b w h. h)
      a a b w p q)

differ_cancel : (x y z : ℕ) → x < 2 → y < 2 → z < 2 → differ x y ≡ differ x z → y ≡ z
differ_cancel zero y z p q r h = h
differ_cancel (suc zero) zero zero p q r h = refl
differ_cancel (suc zero) zero (suc z) p q r h = ground arith
differ_cancel (suc zero) (suc y) zero p q r h = ground arith
differ_cancel (suc zero) (suc y) (suc z) p q r h = omega arith
differ_cancel (suc (suc x)) y z p q r h = absurd (omega arith)

differ_comm : (x y : ℕ) → differ x y ≡ differ y x
differ_comm zero zero = refl
differ_comm zero (suc y) = refl
differ_comm (suc x) zero = refl
differ_comm (suc x) (suc y) = differ_comm x y

differ_cancel_right : (x y z : ℕ) → x < 2 → y < 2 → z < 2 → differ y x ≡ differ z x → y ≡ z
differ_cancel_right x y z p q r h =
    differ_cancel x y z p q r (differ_comm x y ∙ h ∙ differ_comm z x)

-- Exclusive or with one number tells any two others apart.
pub bit_xor_cancel : (w a b c : ℕ) → b < 2 ^ w → c < 2 ^ w → bit_xor a b ≡ bit_xor a c → b ≡ c
bit_xor_cancel w a b c p q e = bit_ext w b c p q λ k h.
    differ_cancel (bit a k) (bit b k) (bit c k) (bit-lt a k) (bit-lt b k) (bit-lt c k)
      (sym (bit-bit_xor a b k) ∙ ap (λ (t : ℕ). bit t k) e ∙ bit-bit_xor a c k)

pub bit_xor_cancel_right : (w a b c : ℕ) → b < 2 ^ w → c < 2 ^ w → bit_xor b a ≡ bit_xor c a → b ≡ c
bit_xor_cancel_right w a b c p q e = bit_ext w b c p q λ k h.
    differ_cancel_right (bit a k) (bit b k) (bit c k) (bit-lt a k) (bit-lt b k) (bit-lt c k)
      (sym (bit-bit_xor b a k) ∙ ap (λ (t : ℕ). bit t k) e ∙ bit-bit_xor c a k)
