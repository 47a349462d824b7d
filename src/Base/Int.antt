-- ===== src/Base/Int.antt =====
-- The `int` that the driver's functions return: a count, or a negative error number.
use Prim.Native.Nat.{ℕ, zero, suc, ◌-◌, ◌%◌, ◌^◌}
use mathlib.Core.Bool.{Bool, true, false}

-- `negsuc n` is -(n + 1).
pub data ℤ : Type 0 where
  pos : ℕ → ℤ
  negsuc : ℕ → ℤ

-- `ret < 0`
abbrev pub is_neg : ℤ → Bool
is_neg (pos n) = false
is_neg (negsuc n) = true

-- The conversion of an `int` to `bool`: false for 0 alone.
abbrev pub to_bool : ℤ → Bool
to_bool (pos n) = elim n [ zero ↦ false | suc m ↦ true ]
to_bool (negsuc n) = true

-- The conversion of an `int` to `uint16_t`, modulo 2 ^ 16.
abbrev pub to_u16 : ℤ → ℕ
to_u16 (pos n) = n % 2 ^ 16
to_u16 (negsuc n) = 2 ^ 16 - 1 - n % 2 ^ 16

-- The negated error numbers of <asm-generic/errno-base.h> and <asm-generic/errno.h>.
abbrev pub eperm : ℤ
eperm = negsuc 0

abbrev pub eio : ℤ
eio = negsuc 4

abbrev pub e2big : ℤ
e2big = negsuc 6

abbrev pub enomem : ℤ
enomem = negsuc 11

abbrev pub ebusy : ℤ
ebusy = negsuc 15

abbrev pub einval : ℤ
einval = negsuc 21

abbrev pub eopnotsupp : ℤ
eopnotsupp = negsuc 94

abbrev pub enotconn : ℤ
enotconn = negsuc 106
