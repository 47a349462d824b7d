-- ===== src/Protocol/Packet.antt =====
-- struct IOPacket: its fields, its bytes on the wire (little-endian, packed), and the two parts of
-- `count_code`.
use rcio_dkms.Base.{
  ℕ, zero, suc, ◌+◌, ◌*◌, ◌/◌, ◌%◌, ◌^◌, ◌<◌, ◌≡◌, refl, ap, ap₂, List, [], ◌∷◌, arith, bit_and,
  length, get_or, drop, All, length-drop, All-drop, All-get_or,
}

abbrev pub pkt_max_regs : ℕ
pkt_max_regs = 32

pub record IoPacket : Type 0 where
  pub count_code : ℕ
  pub crc : ℕ
  pub page : ℕ
  pub offset : ℕ
  pub regs : List ℕ

-- sizeof(struct IOPacket)
abbrev pub packet_size : ℕ
packet_size = 68

abbrev pub pkt_code_read : ℕ
pkt_code_read = 0x00

abbrev pub pkt_code_write : ℕ
pkt_code_write = 0x40

abbrev pub pkt_code_success : ℕ
pkt_code_success = 0x00

abbrev pub pkt_code_corrupt : ℕ
pkt_code_corrupt = 0x40

abbrev pub pkt_code_error : ℕ
pkt_code_error = 0x80

abbrev pub pkt_code_mask : ℕ
pkt_code_mask = 0xc0

abbrev pub pkt_count_mask : ℕ
pkt_count_mask = 0x3f

unfoldable pub pkt_count : IoPacket → ℕ
pkt_count p = bit_and p.count_code pkt_count_mask

unfoldable pub pkt_code : IoPacket → ℕ
pkt_code p = bit_and p.count_code pkt_code_mask

-- The registers in memory, low byte first.
unfoldable pub reg_bytes : List ℕ → List ℕ
reg_bytes [] = []
reg_bytes (r ∷ rs) = (r % 256) ∷ (r / 256) ∷ reg_bytes rs

unfoldable pub regs_of : List ℕ → List ℕ
regs_of [] = []
regs_of (lo ∷ []) = []
regs_of (lo ∷ hi ∷ bs) = (lo + 256 * hi) ∷ regs_of bs

-- The packet as the bytes of its memory, and a packet read back from such bytes.
unfoldable pub bytes : IoPacket → List ℕ
unfolding reg_bytes
bytes p = p.count_code ∷ p.crc ∷ p.page ∷ p.offset ∷ reg_bytes p.regs

unfoldable pub of_bytes : List ℕ → IoPacket
unfolding regs_of
of_bytes bs = record {
  count_code = get_or bs 0 0;
  crc = get_or bs 1 0;
  page = get_or bs 2 0;
  offset = get_or bs 3 0;
  regs = regs_of (drop 4 bs);
}

abbrev pub IsByte : ℕ → Type 0
IsByte b = b < 2 ^ 8

abbrev pub IsWord : ℕ → Type 0
IsWord r = r < 2 ^ 16

-- The ranges of the fields' C types.
pub record IsPacket (p : IoPacket) : Type 0 where
  pub count_code_byte : IsByte p.count_code
  pub crc_byte : IsByte p.crc
  pub page_byte : IsByte p.page
  pub offset_byte : IsByte p.offset
  pub regs_words : All IsWord p.regs
  pub regs_all : length p.regs ≡ pkt_max_regs

pub length-reg_bytes : (rs : List ℕ) → length (reg_bytes rs) ≡ 2 * length rs
unfolding reg_bytes
length-reg_bytes [] = omega arith
length-reg_bytes (r ∷ rs) = omega (arith, length-reg_bytes rs)

pub reg_bytes-IsByte : (rs : List ℕ) → All IsWord rs → All IsByte (reg_bytes rs)
unfolding reg_bytes
reg_bytes-IsByte [] h = tt
reg_bytes-IsByte (r ∷ rs) h = (omega arith, (omega arith, reg_bytes-IsByte rs h.1))

pub bytes-IsByte : {p : IoPacket} → IsPacket p → All IsByte (bytes p)
unfolding bytes
bytes-IsByte {p} v = (
  v.count_code_byte,
  (v.crc_byte, (v.page_byte, (v.offset_byte, reg_bytes-IsByte p.regs v.regs_words))),
)

pub length-bytes : {p : IoPacket} → IsPacket p → length (bytes p) ≡ packet_size
unfolding bytes
length-bytes {p} v = omega (arith, length-reg_bytes p.regs, v.regs_all)

regs_of-reg_bytes : (rs : List ℕ) → regs_of (reg_bytes rs) ≡ rs
unfolding regs_of reg_bytes
regs_of-reg_bytes [] = refl
regs_of-reg_bytes (r ∷ rs) = ap₂ ◌∷◌ (omega arith) (regs_of-reg_bytes rs)

-- A packet sent byte by byte is read back as it was, whatever its fields hold.
pub of_bytes-bytes : (p : IoPacket) → of_bytes (bytes p) ≡ p
unfolding of_bytes bytes
of_bytes-bytes p = λ i. record p { regs = regs_of-reg_bytes p.regs i }

pub regs_of_range :
    (n : ℕ) (bs : List ℕ)
    → length bs ≡ 2 * n
    → All IsByte bs
    → (length (regs_of bs) ≡ n) × All IsWord (regs_of bs)
unfolding regs_of
regs_of_range n [] e h = (omega arith, tt)
regs_of_range n (lo ∷ []) e h = absurd (omega arith)
regs_of_range zero (lo ∷ hi ∷ bs) e h = absurd (omega arith)
regs_of_range (suc n) (lo ∷ hi ∷ bs) e h =
    let rest : (length (regs_of bs) ≡ n) × All IsWord (regs_of bs) =
      regs_of_range n bs (omega arith) h.1.1 in
    (omega arith, (omega arith, rest.1))

-- The registers of a packet read from as many bytes as it has.
pub of_bytes_regs :
    (bs : List ℕ)
    → length bs ≡ packet_size
    → All IsByte bs
    → (length (of_bytes bs).regs ≡ pkt_max_regs) × All IsWord (of_bytes bs).regs
unfolding of_bytes
of_bytes_regs bs e h =
    regs_of_range 32 (drop 4 bs) (omega (arith, length-drop 4 bs)) (All-drop IsByte 4 bs h)

pub of_bytes-IsPacket :
    (bs : List ℕ) → length bs ≡ packet_size → All IsByte bs → IsPacket (of_bytes bs)
unfolding of_bytes
of_bytes-IsPacket bs full byte = record {
  count_code_byte = All-get_or IsByte bs 0 0 (omega arith) byte;
  crc_byte = All-get_or IsByte bs 1 0 (omega arith) byte;
  page_byte = All-get_or IsByte bs 2 0 (omega arith) byte;
  offset_byte = All-get_or IsByte bs 3 0 (omega arith) byte;
  regs_words = (of_bytes_regs bs full byte).1;
  regs_all = (of_bytes_regs bs full byte).0;
}

reg_bytes-regs_of :
    (n : ℕ) (bs : List ℕ) → length bs ≡ 2 * n → All IsByte bs → reg_bytes (regs_of bs) ≡ bs
unfolding regs_of reg_bytes
reg_bytes-regs_of n [] e h = refl
reg_bytes-regs_of n (lo ∷ []) e h = absurd (omega arith)
reg_bytes-regs_of zero (lo ∷ hi ∷ bs) e h = absurd (omega arith)
reg_bytes-regs_of (suc n) (lo ∷ hi ∷ bs) e h =
    ap₂ ◌∷◌ (omega (arith, h.0, h.1.0))
      (ap₂ ◌∷◌ (omega (arith, h.0, h.1.0)) (reg_bytes-regs_of n bs (omega arith) h.1.1))

-- Bytes that fill a packet are sent again as they came.
pub bytes-of_bytes :
    (bs : List ℕ) → length bs ≡ packet_size → All IsByte bs → bytes (of_bytes bs) ≡ bs
unfolding bytes of_bytes
bytes-of_bytes [] e h = absurd (omega arith)
bytes-of_bytes (a ∷ []) e h = absurd (omega arith)
bytes-of_bytes (a ∷ b ∷ []) e h = absurd (omega arith)
bytes-of_bytes (a ∷ b ∷ c ∷ []) e h = absurd (omega arith)
bytes-of_bytes (a ∷ b ∷ c ∷ d ∷ bs) e h =
    ap (λ t. a ∷ b ∷ c ∷ d ∷ t) (reg_bytes-regs_of 32 bs (omega arith) h.1.1.1.1)
