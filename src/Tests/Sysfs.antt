-- ===== src/Tests/Sysfs.antt =====
-- The sysfs texts at concrete inputs.
use rcio_dkms.Base.{
  ℕ, ◌+◌, ◌-◌, ◌≡◌, refl, false, Option, none, some, ℤ, pos, negsuc, List, [], ◌∷◌, arith, ltb, leb,
  ◌==◌, ◌&&◌, if◌then◌else◌,
}
use rcio_dkms.Safety.{Safety}
use rcio_dkms.Sysfs.{Format, heartbeat_enabled_show, codes}

abbrev parse_digit : List ℕ → ℕ → Option ℤ
parse_digit (c ∷ end ∷ []) base =
    if end == 10 && leb b'0' c && ltb (c - b'0') base then some (pos (c - b'0')) else none
parse_digit _ base = none

abbrev digit : ℤ → List ℕ
digit (pos n) = (b'0' + n) ∷ []
digit (negsuc n) = b'-' ∷ (b'1' + n) ∷ []

-- Conversions of one digit.
abbrev pub one_digit : Format
one_digit = record {
  percent_d = digit;
  percent_x = λ n. (b'0' + n) ∷ [];
  kstrtol = parse_digit;
  percent_d_digit = λ n h. refl;
  kstrtol_digit = λ n h. ground arith;
}

abbrev silent : Safety
silent = record { timeout = 30; heartbeat_enabled = false; heartbeat = 7; errors = 0 }

shown_text : heartbeat_enabled_show one_digit silent ≡ (pos 2, codes "0\n")
unfolding heartbeat_enabled_show
shown_text = refl
