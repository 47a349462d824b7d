-- ===== src/Protocol/Crc/Table.antt =====
-- crc8_tab against the division that it tabulates: CRC-8 by the polynomial x^8 + x^2 + x + 1.
use rcio_dkms.Base.{
  ℕ, ◌+◌, ◌*◌, ◌/◌, ◌%◌, ◌^◌, ◌<◌, ◌≡◌, refl, sym, ap, ◌∙◌, true, List, [], ◌∷◌, arith, bit_xor,
  get_or, All, ◌==◌, leb, ==_iff, if◌then◌else◌, all_below, all_below_sound,
}
use rcio_dkms.Base.Bits.{bit_xor-lt}
use rcio_dkms.Protocol.Packet.{IsByte}
use rcio_dkms.Protocol.Crc.{crc8_tab, crc_bytes}

-- One digit of the division: shift left, and subtract the polynomial where a digit falls out.
shift_out : ℕ → ℕ
shift_out c = if leb 128 c then bit_xor (c * 2 % 256) 0x07 else c * 2

pub divide8 : ℕ → ℕ
unfolding shift_out
divide8 c =
    shift_out (shift_out (shift_out (shift_out (shift_out (shift_out (shift_out (shift_out c)))))))

-- The same digit by digit, with no table.
pub crc_divide : ℕ → List ℕ → ℕ
crc_divide c [] = c
crc_divide c (b ∷ bs) = crc_divide (divide8 (bit_xor c b)) bs

-- The division step backwards: the lowest digit tells whether the polynomial was subtracted.
shift_in : ℕ → ℕ
shift_in c = if c % 2 == 1 then (bit_xor c 0x07 + 256) / 2 else c / 2

undivide8 : ℕ → ℕ
unfolding shift_in
undivide8 c =
    shift_in (shift_in (shift_in (shift_in (shift_in (shift_in (shift_in (shift_in c)))))))

divide_table : all_below 256 (λ x. get_or crc8_tab x 0 == divide8 x) ≡ true
unfolding all_below crc8_tab divide8
divide_table = refl

undivide_table : all_below 256 (λ x. undivide8 (get_or crc8_tab x 0) == x) ≡ true
unfolding all_below crc8_tab undivide8
undivide_table = refl

range_table : all_below 256 (λ x. leb (get_or crc8_tab x 0) 255) ≡ true
unfolding all_below crc8_tab
range_table = refl

pub crc8_tab-divide8 : (x : ℕ) → IsByte x → get_or crc8_tab x 0 ≡ divide8 x
crc8_tab-divide8 x h =
    (==_iff (get_or crc8_tab x 0) (divide8 x)).0
      (all_below_sound 256 (λ x. get_or crc8_tab x 0 == divide8 x) x divide_table h)

crc8_tab_left_inverse : (x : ℕ) → IsByte x → undivide8 (get_or crc8_tab x 0) ≡ x
crc8_tab_left_inverse x h =
    (==_iff (undivide8 (get_or crc8_tab x 0)) x).0
      (all_below_sound 256 (λ x. undivide8 (get_or crc8_tab x 0) == x) x undivide_table h)

leb_255 : (n : ℕ) → leb n 255 ≡ true → n < 2 ^ 8
leb_255 n h = ground arith

pub crc8_tab-IsByte : (x : ℕ) → IsByte x → IsByte (get_or crc8_tab x 0)
crc8_tab-IsByte x h =
    leb_255 (get_or crc8_tab x 0)
      (all_below_sound 256 (λ x. leb (get_or crc8_tab x 0) 255) x range_table h)

-- The table has no entry twice.
pub crc8_tab_injective :
    (x y : ℕ) → IsByte x → IsByte y → get_or crc8_tab x 0 ≡ get_or crc8_tab y 0 → x ≡ y
crc8_tab_injective x y hx hy e =
    sym (crc8_tab_left_inverse x hx) ∙ ap undivide8 e ∙ crc8_tab_left_inverse y hy

-- The table-driven loop computes the division digit by digit, on any bytes.
pub crc_bytes-eq-crc_divide :
    (c : ℕ) (bs : List ℕ) → IsByte c → All IsByte bs → crc_bytes c bs ≡ crc_divide c bs
unfolding crc_bytes crc_divide
crc_bytes-eq-crc_divide c [] hc hb = refl
crc_bytes-eq-crc_divide c (b ∷ bs) hc hb =
    let mixed : IsByte (bit_xor c b) = bit_xor-lt 8 c b hc hb.0 in
    crc_bytes-eq-crc_divide (get_or crc8_tab (bit_xor c b) 0) bs
      (crc8_tab-IsByte (bit_xor c b) mixed) hb.1
    ∙ ap (λ (t : ℕ). crc_divide t bs) (crc8_tab-divide8 (bit_xor c b) mixed)
