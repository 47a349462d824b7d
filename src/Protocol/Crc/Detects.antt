-- ===== src/Protocol/Crc/Detects.antt =====
-- What the checksum detects.
use rcio_dkms.Base.{
  ℕ, zero, suc, ◌<◌, ◌≡◌, ◌≢◌, List, [], ◌∷◌, arith, bit_xor, length, get_or, set, All,
}
use rcio_dkms.Base.Bits.{bit_xor-lt, bit_xor_cancel, bit_xor_cancel_right}
use rcio_dkms.Protocol.Packet.{IsByte}
use rcio_dkms.Protocol.Crc.{crc8_tab, crc_bytes}
use rcio_dkms.Protocol.Crc.Table.{crc8_tab-IsByte, crc8_tab_injective}

step-IsByte : (c b : ℕ) → IsByte c → IsByte b → IsByte (get_or crc8_tab (bit_xor c b) 0)
step-IsByte c b hc hb = crc8_tab-IsByte (bit_xor c b) (bit_xor-lt 8 c b hc hb)

pub crc_bytes-IsByte : (c : ℕ) (bs : List ℕ) → IsByte c → All IsByte bs → IsByte (crc_bytes c bs)
unfolding crc_bytes
crc_bytes-IsByte c [] hc hb = hc
crc_bytes-IsByte c (b ∷ bs) hc hb =
    crc_bytes-IsByte (get_or crc8_tab (bit_xor c b) 0) bs (step-IsByte c b hc hb.0) hb.1

-- A difference in the running value is never lost again.
crc_bytes_injective :
    (c d : ℕ) (bs : List ℕ)
    → IsByte c
    → IsByte d
    → All IsByte bs
    → crc_bytes c bs ≡ crc_bytes d bs
    → c ≡ d
unfolding crc_bytes
crc_bytes_injective c d [] hc hd hb e = e
crc_bytes_injective c d (b ∷ bs) hc hd hb e = bit_xor_cancel_right 8 b c d hc hd (
    crc8_tab_injective (bit_xor c b) (bit_xor d b) (bit_xor-lt 8 c b hc hb.0)
      (bit_xor-lt 8 d b hd hb.0)
      (crc_bytes_injective (get_or crc8_tab (bit_xor c b) 0) (get_or crc8_tab (bit_xor d b) 0) bs
        (step-IsByte c b hc hb.0) (step-IsByte d b hd hb.0) hb.1 e))

-- Changing one byte, at any place and to any other value, changes the checksum.
pub crc_bytes-set_ne :
    (c : ℕ) (bs : List ℕ) (i v : ℕ)
    → IsByte c
    → All IsByte bs
    → IsByte v
    → i < length bs
    → v ≢ get_or bs i 0
    → crc_bytes c (set bs i v) ≢ crc_bytes c bs
unfolding crc_bytes
crc_bytes-set_ne c [] i v hc hb hv h ne = absurd (omega arith)
crc_bytes-set_ne c (b ∷ bs) zero v hc hb hv h ne = λ e. ne (
    bit_xor_cancel 8 c v b hv hb.0 (
      crc8_tab_injective (bit_xor c v) (bit_xor c b) (bit_xor-lt 8 c v hc hv)
        (bit_xor-lt 8 c b hc hb.0)
        (crc_bytes_injective (get_or crc8_tab (bit_xor c v) 0) (get_or crc8_tab (bit_xor c b) 0) bs
          (step-IsByte c v hc hv) (step-IsByte c b hc hb.0) hb.1 e)))
crc_bytes-set_ne c (b ∷ bs) (suc i) v hc hb hv h ne =
    crc_bytes-set_ne (get_or crc8_tab (bit_xor c b) 0) bs i v (step-IsByte c b hc hb.0) hb.1 hv
      (omega arith) ne
