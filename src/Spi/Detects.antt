-- ===== src/Spi/Detects.antt =====
-- A reply with one byte changed on the way is refused.
use rcio_dkms.Base.{
  ℕ, zero, suc, ◌+◌, ◌*◌, ◌≤◌, ◌<◌, ◌≡◌, ◌≢◌, refl, sym, ap, ap₂, ◌∙◌, false, eio, List, ◌++◌,
  arith, bit_and, get_or, set, take, get_or-set, length-set, length-append, All, All-append,
  All-take, All-set, ◌==◌,
}
use rcio_dkms.Base.Slices.{
  cells, set_comm, set-append, take-set, get_or-take, get_or-append, lt-length-take,
}
use rcio_dkms.Protocol.Packet.{
  IoPacket, IsPacket, IsByte, pkt_max_regs, packet_size, pkt_count_mask, pkt_count, bytes, of_bytes,
  of_bytes-bytes, bytes-of_bytes, length-bytes, bytes-IsByte,
}
use rcio_dkms.Protocol.Crc.{crc_bytes, crc_packet}
use rcio_dkms.Protocol.Crc.Detects.{crc_bytes-IsByte, crc_bytes-set_ne}
use rcio_dkms.Spi.{
  Link, seal, crc_matches, read_request, write_request, rcio_spi_read, rcio_spi_write,
}
use rcio_dkms.Spi.Bus.{SpiBus}
use rcio_dkms.Spi.Exchange.{Answers, wait_complete-Answers}

==_ne : (a b : ℕ) → a ≢ b → (a == b) ≡ false
==_ne a b h = ground arith

module _ (past : List ℕ) (past_bytes : All IsByte past) {q : IoPacket} (packet : IsPacket q) where
  -- The packet that the checksum is taken of.
  abbrev bare : IoPacket
  bare = record q { crc = 0 }

  bare-IsPacket : IsPacket bare
  bare-IsPacket = record {
    count_code_byte = packet.count_code_byte;
    crc_byte = omega arith;
    page_byte = packet.page_byte;
    offset_byte = packet.offset_byte;
    regs_words = packet.regs_words;
    regs_all = packet.regs_all;
  }

  abbrev sum : ℕ
  sum = crc_packet past bare

  abbrev covered : List ℕ
  covered = take (4 + 2 * pkt_count q) (bytes bare ++ past)

  covered-IsByte : All IsByte covered
  covered-IsByte =
      All-take IsByte (4 + 2 * pkt_count q) _
        (All-append IsByte (bytes bare) past (bytes-IsByte bare-IsPacket) past_bytes)

  sum-covered : sum ≡ crc_bytes 0 covered
  unfolding crc_packet pkt_count
  sum-covered = refl

  sum-IsByte : IsByte sum
  unfolding crc_packet
  sum-IsByte = crc_bytes-IsByte 0 covered (omega arith) covered-IsByte

  pub sealed-IsPacket : IsPacket (seal past q)
  unfolding seal
  sealed-IsPacket = record {
    count_code_byte = packet.count_code_byte;
    crc_byte = sum-IsByte;
    page_byte = packet.page_byte;
    offset_byte = packet.offset_byte;
    regs_words = packet.regs_words;
    regs_all = packet.regs_all;
  }

  -- The checksum's own byte is changed.
  changed_sum :
      (v : ℕ) → v ≢ sum → crc_matches past (of_bytes (set (bytes (seal past q)) 1 v)) ≡ false
  unfolding seal bytes crc_matches
  changed_sum v ne = ap (crc_matches past) (of_bytes-bytes (record q { crc = v })) ∙ ==_ne v sum ne

  module _ (i v : ℕ) (byte : IsByte v) (inside : i < packet_size) where
    abbrev got : IoPacket
    got = of_bytes (set (bytes (seal past q)) i v)

    got_bytes : bytes got ≡ set (bytes (seal past q)) i v
    got_bytes =
        bytes-of_bytes (set (bytes (seal past q)) i v)
          (length-set (bytes (seal past q)) i v ∙ length-bytes sealed-IsPacket)
          (All-set IsByte (bytes (seal past q)) i v byte (bytes-IsByte sealed-IsPacket))

    -- A byte behind the checksum is changed.
    got_bare : 2 ≤ i → bytes (record got { crc = 0 }) ≡ set (bytes bare) i v
    unfolding bytes seal
    got_bare h =
        ap (λ bs. set bs 1 0) got_bytes ∙ set_comm (bytes (seal past q)) i 1 v 0 (λ e. omega arith)

    got_head : 2 ≤ i → (got.count_code ≡ q.count_code) × (got.crc ≡ sum)
    unfolding of_bytes bytes seal
    got_head h =
        (grind (cells, length-bytes sealed-IsPacket), grind (cells, length-bytes sealed-IsPacket))

    got_sum :
        2 ≤ i
        → i < 4 + 2 * pkt_count q
        → crc_packet past (record got { crc = 0 }) ≡ crc_bytes 0 (set covered i v)
    unfolding crc_packet pkt_count
    got_sum h k =
        ap₂ (λ c bs. crc_bytes 0 (take (4 + 2 * bit_and c pkt_count_mask) (bs ++ past)))
          (got_head h).0 (got_bare h)
        ∙ ap (λ bs. crc_bytes 0 (take (4 + 2 * pkt_count q) bs))
            (sym (set-append (bytes bare) past i v (rw (length-bytes bare-IsPacket) inside)))
        ∙ ap (crc_bytes 0) (take-set (4 + 2 * pkt_count q) (bytes bare ++ past) i v)

    covered_entry :
        2 ≤ i → i < 4 + 2 * pkt_count q → get_or covered i 0 ≡ get_or (bytes (seal past q)) i 0
    unfolding seal bytes
    covered_entry h k =
        get_or-take (4 + 2 * pkt_count q) (bytes bare ++ past) i 0 k
        ∙ get_or-append (bytes bare) past i 0 (rw (length-bytes bare-IsPacket) inside)
        ∙ ground (arith, get_or-set (bytes bare) 1 i sum 0, length-bytes bare-IsPacket)

    changed_byte :
        2 ≤ i
        → i < 4 + 2 * pkt_count q
        → v ≢ get_or (bytes (seal past q)) i 0
        → crc_matches past got ≡ false
    unfolding crc_matches
    changed_byte h k ne = ==_ne got.crc _ λ e.
        crc_bytes-set_ne 0 covered i v (omega arith) covered-IsByte byte
          (lt-length-take (4 + 2 * pkt_count q) (bytes bare ++ past) i k
            (omega (arith, length-append (bytes bare) past, length-bytes bare-IsPacket)))
          (λ same. ne (same ∙ covered_entry h k))
          (sym (got_sum h k) ∙ sym e ∙ (got_head h).1 ∙ sum-covered)

-- Any one byte of a sealed reply but the first, the count and code, changed among those that the
-- checksum covers: the checksum no longer matches.
crc_matches_changed :
    (past : List ℕ) (q : IoPacket) (i v : ℕ)
    → All IsByte past
    → IsPacket q
    → IsByte v
    → 1 ≤ i
    → i < packet_size
    → i < 4 + 2 * pkt_count q
    → v ≢ get_or (bytes (seal past q)) i 0
    → crc_matches past (of_bytes (set (bytes (seal past q)) i v)) ≡ false
crc_matches_changed past q zero v pb packet byte h inside k ne = absurd (omega arith)
crc_matches_changed past q (suc zero) v pb packet byte h inside k ne =
    changed_sum past pb packet v (unfold seal bytes in ne)
crc_matches_changed past q (suc (suc i)) v pb packet byte h inside k ne =
    changed_byte past pb packet (suc (suc i)) v byte inside (omega arith) k ne

module _ {D : Type 0} (spi : SpiBus D) (past : List ℕ) where
  -- A read of at most 32 registers whose reply is a sealed packet with one byte changed, not the
  -- first and among those that the checksum covers, returns -EIO, and leaves the caller's buffer
  -- alone.
  pub rcio_spi_read_changed :
      (l : Link D) (address : ℕ) (values : List ℕ) (n : ℕ) (q : IoPacket) (i v : ℕ)
      → n ≤ pkt_max_regs
      → All IsByte past
      → IsPacket q
      → IsByte v
      → 1 ≤ i
      → i < packet_size
      → i < 4 + 2 * pkt_count q
      → v ≢ get_or (bytes (seal past q)) i 0
      → Answers spi past l.bus
          (seal past (read_request address n l.buffer))
          (set (bytes (seal past q)) i v)
      → let (result, after, l') = rcio_spi_read spi past l address values n in
        (result ≡ eio) × (after ≡ values)
  unfolding rcio_spi_read
  rcio_spi_read_changed l address values n q i v few pb packet byte h inside k ne ans = ground (
    arith,
    crc_matches_changed past q i v pb packet byte h inside k ne,
    wait_complete-Answers spi past (record l { buffer = read_request address n l.buffer })
        (set (bytes (seal past q)) i v) ans,
  )

  -- A write of at most 32 registers whose reply is a sealed packet with one byte changed, not the
  -- first and among those that the checksum covers, returns -EIO.
  pub rcio_spi_write_changed :
      (l : Link D) (address : ℕ) (values : List ℕ) (n : ℕ) (q : IoPacket) (i v : ℕ)
      → n ≤ pkt_max_regs
      → All IsByte past
      → IsPacket q
      → IsByte v
      → 1 ≤ i
      → i < packet_size
      → i < 4 + 2 * pkt_count q
      → v ≢ get_or (bytes (seal past q)) i 0
      → Answers spi past l.bus
          (seal past (write_request address values n l.buffer))
          (set (bytes (seal past q)) i v)
      → (rcio_spi_write spi past l address values n).0 ≡ eio
  unfolding rcio_spi_write
  rcio_spi_write_changed l address values n q i v few pb packet byte h inside k ne ans = ground (
    arith,
    crc_matches_changed past q i v pb packet byte h inside k ne,
    wait_complete-Answers spi past (record l { buffer = write_request address values n l.buffer })
        (set (bytes (seal past q)) i v) ans,
  )
