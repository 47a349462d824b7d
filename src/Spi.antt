-- ===== src/Spi.antt =====
-- src/rcio_spi.c: one register transaction over the SPI bus. The kernel's spi_write_then_read is
-- the parameter `SpiBus`; `past` is what memory holds behind the packet buffer.
pub mod Bus
pub mod Contract
pub mod Exchange
pub mod Detects
pub mod Buffer
pub mod Probe
pub mod Server
pub mod Threads
use rcio_dkms.Base.{
  ℕ, zero, suc, ◌-◌, ◌+◌, ◌/◌, ◌%◌, ◌^◌, Bool, true, false, ℤ, pos, negsuc, is_neg, einval, eio,
  List, ◌++◌, bit_and, bit_or, take, drop, replicate, ltb, ◌==◌, not, if◌then◌else◌,
}
use rcio_dkms.Protocol.Packet.{
  IoPacket, packet_size, pkt_max_regs, pkt_code_read, pkt_code_write, pkt_code_error, pkt_count,
  pkt_code, bytes, of_bytes,
}
use rcio_dkms.Protocol.Crc.{crc_packet}
use Bus.{SpiBus}

-- The bus behind `state->client`, and the file's static `buffer`.
pub record Link (D : Type 0) : Type 0 where
  pub bus : D
  pub buffer : IoPacket

abbrev pub is_zero : ℤ → Bool
is_zero (pos zero) = true
is_zero (pos (suc n)) = false
is_zero (negsuc n) = false

-- The unused registers of a write.
abbrev pub filler : ℕ
filler = 0x55aa

-- `buffer->crc = 0; buffer->crc = crc_packet(buffer);`
unfoldable pub seal : List ℕ → IoPacket → IoPacket
seal past p = record p { crc = crc_packet past (record p { crc = 0 }) }

-- `crc = buffer->crc; buffer->crc = 0; crc != crc_packet(buffer)`, negated.
unfoldable pub crc_matches : List ℕ → IoPacket → Bool
crc_matches past p = p.crc == crc_packet past (record p { crc = 0 })

-- The fields that rcio_spi_write stores into the buffer.
unfoldable pub write_request : ℕ → List ℕ → ℕ → IoPacket → IoPacket
write_request address values count p = record p {
  count_code = bit_or count pkt_code_write % 2 ^ 8;
  page = address / 2 ^ 8 % 2 ^ 8;
  offset = bit_and address 0xff;
  regs = take count values ++ replicate (pkt_max_regs - count) filler;
}

-- The fields that rcio_spi_read stores; the registers keep what the last reply left there.
unfoldable pub read_request : ℕ → ℕ → IoPacket → IoPacket
read_request address count p = record p {
  count_code = bit_or count pkt_code_read % 2 ^ 8;
  page = address / 2 ^ 8 % 2 ^ 8;
  offset = bit_and address 0xff;
}

-- What the reply to a write means.
unfoldable pub write_status : List ℕ → IoPacket → ℤ
write_status past p =
    if not (crc_matches past p)
    then eio
    else (if pkt_code p == pkt_code_error then einval else pos 0)

-- What the reply to a read of `count` registers means.
unfoldable pub read_status : List ℕ → ℕ → IoPacket → ℤ
read_status past count p =
    if not (crc_matches past p)
    then eio
    else (if pkt_code p == pkt_code_error
        then einval
        else (if pkt_count p == count then pos 0 else eio))

abbrev pub clear_crc : {D : Type 0} → Link D → Link D
clear_crc l = record l { buffer = record (l.buffer) { crc = 0 } }

module _ {D : Type 0} (spi : SpiBus D) (past : List ℕ) where
  unfoldable pub wait_complete : Link D → ℤ × Link D
  wait_complete l =
      let p = seal past l.buffer in
      let (sent, bus1) = spi.write l.bus (bytes p) in
      let (got, reply, bus2) = spi.read bus1 packet_size in
      if is_neg sent
      then (sent, record { bus = bus1; buffer = p })
      else (if is_neg got
          then (got, record { bus = bus2; buffer = p })
          else (pos 0, record { bus = bus2; buffer = of_bytes reply }))

  unfoldable pub rcio_spi_write : Link D → ℕ → List ℕ → ℕ → ℤ × Link D
  unfolding write_request write_status
  rcio_spi_write l address values count =
      let (done, l') =
        wait_complete (record l { buffer = write_request address values count l.buffer }) in
      let status = write_status past l'.buffer in
      if ltb pkt_max_regs count
      then (einval, l)
      else (if is_zero done
          then (if is_zero status then (pos count, clear_crc l') else (status, clear_crc l'))
          else (done, l'))

  -- `values` is the caller's buffer, returned as the call leaves it.
  unfoldable pub rcio_spi_read : Link D → ℕ → List ℕ → ℕ → ℤ × List ℕ × Link D
  unfolding read_request read_status
  rcio_spi_read l address values count =
      let (done, l') = wait_complete (record l { buffer = read_request address count l.buffer }) in
      let status = read_status past count l'.buffer in
      if ltb pkt_max_regs count
      then (einval, values, l)
      else (if is_zero done
          then (if is_zero status
              then (pos count, take count l'.buffer.regs ++ drop count values, clear_crc l')
              else (status, values, clear_crc l'))
          else (done, values, l'))
