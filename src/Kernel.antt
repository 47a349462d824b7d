-- ===== src/Kernel.antt =====
-- The kernel's clock, as the driver uses it: HZ, time_before and msecs_to_jiffies. Each reading of
-- `jiffies` is an argument of the function that reads it; a function that reads it twice, with a
-- transfer between, has two, `now` and `later`.
use rcio_dkms.Base.{
  ℕ, ◌+◌, ◌%◌, ◌^◌, ◌≤◌, ◌<◌, ◌≡◌, Bool, true, false, ◌-◌, ap, ◌∙◌, arith, ltb, inl, inr,
  Bool-cases,
}

-- `unsigned long` on the 32-bit ARM that README.md builds for.
abbrev pub ulong : ℕ → ℕ
ulong n = n % 2 ^ 32

pub record Kernel : Type 0 where
  pub hz : ℕ
  pub time_before : ℕ → ℕ → Bool
  pub msecs_to_jiffies : ℕ → ℕ
  -- The values of CONFIG_HZ are from 100 to 1000.
  pub hz_min : 100 ≤ hz
  pub hz_max : hz ≤ 1000
  -- A time is before another that comes less than half the counter's range later, and not before
  -- one that it has reached.
  pub before_later :
      (t d : ℕ) → t < 2 ^ 32 → 1 ≤ d → d < 2 ^ 31 → time_before t (ulong (t + d)) ≡ true
  pub not_before_reached :
      (t d : ℕ) → t < 2 ^ 32 → d < 2 ^ 31 → time_before (ulong (t + d)) t ≡ false

timeout_holds :
    (k : Kernel) (t p e : ℕ)
    → p < 2 ^ 31
    → e < p
    → k.time_before (ulong (t + e)) (ulong (t + p)) ≡ true
timeout_holds k t p e short early =
    ap (λ (x : ℕ). k.time_before (ulong (t + e)) x) {x = ulong (t + p)} (omega arith)
    ∙ k.before_later (ulong (t + e)) (p - e) (omega arith) (omega arith) (omega arith)

timeout_ends :
    (k : Kernel) (t p e : ℕ)
    → p ≤ e
    → e < 2 ^ 31
    → k.time_before (ulong (t + e)) (ulong (t + p)) ≡ false
timeout_ends k t p e late short =
    ap (λ (x : ℕ). k.time_before x (ulong (t + p))) {x = ulong (t + e)} (omega arith)
    ∙ k.not_before_reached (ulong (t + p)) (e - p) (omega arith) (omega arith)

-- A timeout of `p` ticks set at the time `t` holds for the first `p` ticks after it, and no longer.
pub timeout_lem :
    (k : Kernel) (t p e : ℕ)
    → p < 2 ^ 31
    → e < 2 ^ 31
    → k.time_before (ulong (t + e)) (ulong (t + p)) ≡ ltb e p
timeout_lem k t p e hp he = elim (Bool-cases (ltb e p)) [
  | inl early ↦ rw early (timeout_holds k t p e hp (ground arith))
  | inr late ↦ rw late (timeout_ends k t p e (ground arith) he)
]
