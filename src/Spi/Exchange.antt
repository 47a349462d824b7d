-- ===== src/Spi/Exchange.antt =====
-- What one transaction sends, and what comes of a sound reply.
use rcio_dkms.Base.{
  ℕ, ◌+◌, ◌*◌, ◌%◌, ◌^◌, ◌≤◌, ◌<◌, ◌≡◌, ◌≢◌, refl, ◌∙◌, sym, ap, true, false, pos, is_neg, einval,
  if◌then◌else◌, List, [], ◌++◌, arith, bit_and, bit_or, length, take, drop, ◌&&◌, ◌==◌, ==_iff,
  all_below, all_below_sound,
}
use rcio_dkms.Base.Bits.Masks.{bit_and-0xff}
use rcio_dkms.Base.Slices.{take-append}
use rcio_dkms.Protocol.Packet.{
  IoPacket, IsPacket, packet_size, pkt_max_regs, pkt_code_read, pkt_code_write, pkt_code_error,
  pkt_count_mask, pkt_code_mask, pkt_count, pkt_code, bytes, of_bytes, of_bytes-bytes, length-bytes,
}
use rcio_dkms.Protocol.Crc.{crc_bytes, crc_packet}
use rcio_dkms.Spi.{
  Link, wait_complete, seal, crc_matches, write_request, read_request, rcio_spi_read,
  rcio_spi_write,
}
use rcio_dkms.Spi.Bus.{SpiBus}

-- With at most 32 registers to cover, the checksum reads nothing behind the packet.
pub crc_packet_inside :
    (past : List ℕ) {p : IoPacket}
    → IsPacket p
    → pkt_count p ≤ pkt_max_regs
    → crc_packet past p ≡ crc_packet [] p
unfolding crc_packet
crc_packet_inside past {p} v few =
    ap (crc_bytes 0) (take-append n (bytes p) past fits ∙ sym (take-append n (bytes p) [] fits))
  where
    n : ℕ
    n = 4 + 2 * pkt_count p

    fits : n ≤ length (bytes p)
    fits = omega (arith, length-bytes v)

header_table :
    all_below 33 (λ n.
      bit_and (bit_or n pkt_code_write % 2 ^ 8) pkt_count_mask == n
      && bit_and (bit_or n pkt_code_write % 2 ^ 8) pkt_code_mask == pkt_code_write)
    ≡ true
unfolding all_below
header_table = refl

header_parts :
    (n : ℕ)
    → n ≤ pkt_max_regs
    → (bit_and (bit_or n pkt_code_write % 2 ^ 8) pkt_count_mask ≡ n)
      × (bit_and (bit_or n pkt_code_write % 2 ^ 8) pkt_code_mask ≡ pkt_code_write)
header_parts n h = ground (arith, all_below_sound 33 _ n header_table)

pub crc_matches-seal : (past : List ℕ) (p : IoPacket) → crc_matches past (seal past p) ≡ true
unfolding crc_matches seal
crc_matches-seal past p = (==_iff (crc_packet past (record p { crc = 0 })) _).1 refl

-- A sealed write request of at most 32 registers to a 16-bit address carries the count, the write
-- code and the address, and its checksum matches.
pub write_request_header :
    (past : List ℕ) (address : ℕ) (values : List ℕ) (n : ℕ) (p : IoPacket)
    → n ≤ pkt_max_regs
    → address < 2 ^ 16
    → let q = seal past (write_request address values n p) in
      (pkt_count q ≡ n)
      × (pkt_code q ≡ pkt_code_write)
      × (q.page * 2 ^ 8 + q.offset ≡ address)
      × (crc_matches past q ≡ true)
unfolding seal write_request pkt_count pkt_code
write_request_header past address values n p few small = (
  (header_parts n few).0,
  (header_parts n few).1,
  omega (arith, bit_and-0xff address small),
  crc_matches-seal past (write_request address values n p),
)

read_header_table :
    all_below 33 (λ n.
      bit_and (bit_or n pkt_code_read % 2 ^ 8) pkt_count_mask == n
      && bit_and (bit_or n pkt_code_read % 2 ^ 8) pkt_code_mask == pkt_code_read)
    ≡ true
unfolding all_below
read_header_table = refl

read_header_parts :
    (n : ℕ)
    → n ≤ pkt_max_regs
    → (bit_and (bit_or n pkt_code_read % 2 ^ 8) pkt_count_mask ≡ n)
      × (bit_and (bit_or n pkt_code_read % 2 ^ 8) pkt_code_mask ≡ pkt_code_read)
read_header_parts n h = ground (arith, all_below_sound 33 _ n read_header_table)

-- A sealed read request of at most 32 registers at a 16-bit address carries the count, the read
-- code and the address, and its checksum matches.
pub read_request_header :
    (past : List ℕ) (address : ℕ) (n : ℕ) (p : IoPacket)
    → n ≤ pkt_max_regs
    → address < 2 ^ 16
    → let q = seal past (read_request address n p) in
      (pkt_count q ≡ n)
      × (pkt_code q ≡ pkt_code_read)
      × (q.page * 2 ^ 8 + q.offset ≡ address)
      × (crc_matches past q ≡ true)
unfolding seal read_request pkt_count pkt_code
read_request_header past address n p few small = (
  (read_header_parts n few).0,
  (read_header_parts n few).1,
  omega (arith, bit_and-0xff address small),
  crc_matches-seal past (read_request address n p),
)

module _ {D : Type 0} (spi : SpiBus D) (past : List ℕ) where
  -- The bus takes the sealed request `p` and answers with the bytes `reply`.
  pub record Answers (bus : D) (p : IoPacket) (reply : List ℕ) : Type 0 where
    pub sent : is_neg (spi.write bus (bytes p)).0 ≡ false
    pub got : is_neg (spi.read (spi.write bus (bytes p)).1 packet_size).0 ≡ false
    pub answer : (spi.read (spi.write bus (bytes p)).1 packet_size).1 ≡ reply

  pub wait_complete-Answers :
      (l : Link D) (reply : List ℕ)
      → Answers l.bus (seal past l.buffer) reply
      → let (done, l') = wait_complete spi past l in (done ≡ pos 0) × (l'.buffer ≡ of_bytes reply)
  unfolding wait_complete
  wait_complete-Answers l reply ans = ground arith

  -- A sealed reply to a write of at most 32 registers makes it return -EINVAL if it has the error
  -- code, and the count for every other code, that of a corrupt request among them.
  pub rcio_spi_write_reply :
      (l : Link D) (address : ℕ) (values : List ℕ) (n : ℕ) (q : IoPacket)
      → n ≤ pkt_max_regs
      → Answers l.bus (seal past (write_request address values n l.buffer)) (bytes (seal past q))
      → (rcio_spi_write spi past l address values n).0
        ≡ (if pkt_code q == pkt_code_error then einval else pos n)
  unfolding rcio_spi_write
  rcio_spi_write_reply l address values n q few ans = ground (
    arith,
    wait_complete-Answers (record l { buffer = write_request address values n l.buffer })
        (bytes (seal past q)) ans,
    of_bytes-bytes (seal past q),
    crc_matches-seal past q,
    same_code,
  )
    where
      same_code : pkt_code (seal past q) ≡ pkt_code q
      same_code = unfold seal pkt_code in refl

  -- A reply that is sealed, has no error code and the count asked for, at most 32, makes the read
  -- return the count and copy the registers.
  pub rcio_spi_read_reply :
      (l : Link D) (address : ℕ) (values : List ℕ) (n : ℕ) (q : IoPacket)
      → n ≤ pkt_max_regs
      → Answers l.bus (seal past (read_request address n l.buffer)) (bytes (seal past q))
      → pkt_count q ≡ n
      → pkt_code q ≢ pkt_code_error
      → let (result, after, l') = rcio_spi_read spi past l address values n in
        (result ≡ pos n) × (after ≡ take n q.regs ++ drop n values)
  unfolding rcio_spi_read
  rcio_spi_read_reply l address values n q few ans count ok = ground (
    arith,
    wait_complete-Answers (record l { buffer = read_request address n l.buffer })
        (bytes (seal past q)) ans,
    of_bytes-bytes (seal past q),
    crc_matches-seal past q,
    sealed_header,
  )
    where
      sealed_header :
          (pkt_count (seal past q) ≡ pkt_count q)
          × (pkt_code (seal past q) ≡ pkt_code q)
          × ((seal past q).regs ≡ q.regs)
      sealed_header = unfold seal pkt_count pkt_code in (refl, refl, refl)
