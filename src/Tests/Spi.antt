-- ===== src/Tests/Spi.antt =====
-- One transaction at concrete inputs.
use rcio_dkms.Base.{
  ◌<◌, ◌≢◌, ◌+◌, ◌*◌, ◌≡◌, refl, ◌∙◌, pos, eio, einval, if◌then◌else◌, ◌==◌, [], ◌∷◌, arith, set,
  get_or, replicate, length-set, All-set,
}
use rcio_dkms.Protocol.Packet.{
  IoPacket, IsPacket, IsByte, pkt_count, pkt_code, pkt_code_corrupt, pkt_code_error, bytes,
  length-bytes, bytes-IsByte,
}
use rcio_dkms.Protocol.Crc.{crc_bytes}
use rcio_dkms.Protocol.Crc.Table.{crc_divide, crc_bytes-eq-crc_divide}
use rcio_dkms.Spi.{Link, seal, write_request, rcio_spi_read, rcio_spi_write}
use rcio_dkms.Spi.Bus.{SpiBus}
use rcio_dkms.Spi.Exchange.{rcio_spi_write_reply}
use rcio_dkms.Spi.Detects.{sealed-IsPacket, rcio_spi_read_changed}
use rcio_dkms.Tests.{answering}

-- A reply with one register, 7.
abbrev one_register : IoPacket
one_register = record { count_code = 1; crc = 0; page = 0; offset = 0; regs = 7 ∷ replicate 31 0 }

one_register-IsPacket : IsPacket one_register
one_register-IsPacket = record {
  count_code_byte = omega arith;
  crc_byte = omega arith;
  page_byte = omega arith;
  offset_byte = omega arith;
  regs_words = omega arith;
  regs_all = refl;
}

sealed : IsPacket (seal [] one_register)
sealed = sealed-IsPacket [] tt one_register-IsPacket

-- A sealed reply of one register, with the low byte of the register changed to 9.
abbrev noisy : SpiBus Unit
noisy =
    answering (set (bytes (seal [] one_register)) 4 9)
      (length-set (bytes (seal [] one_register)) 4 9 ∙ length-bytes sealed)
      (All-set IsByte (bytes (seal [] one_register)) 4 9 (omega arith) (bytes-IsByte sealed))

abbrev link : Link Unit
link = record { bus = tt; buffer = one_register }

changed_differs : 9 ≢ get_or (bytes (seal [] one_register)) 4 0
unfolding bytes seal
changed_differs = omega arith

in_count : 4 < 4 + 2 * pkt_count one_register
unfolding pkt_count
in_count = omega arith

rcio_spi_read_changed_example :
    ((rcio_spi_read noisy [] link 0 (5 ∷ []) 1).0 ≡ eio)
    × ((rcio_spi_read noisy [] link 0 (5 ∷ []) 1).1 ≡ 5 ∷ [])
rcio_spi_read_changed_example =
    rcio_spi_read_changed noisy [] link 0 (5 ∷ []) 1 one_register 4 9 (omega arith) tt
      one_register-IsPacket (omega arith) (omega arith) (omega arith) in_count changed_differs
      (record { sent = refl; got = refl; answer = refl })

-- The coprocessor says that the request was corrupt.
abbrev corrupt : IoPacket
corrupt = record one_register { count_code = pkt_code_corrupt }

corrupt-IsPacket : IsPacket corrupt
corrupt-IsPacket = record {
  count_code_byte = omega arith;
  crc_byte = omega arith;
  page_byte = omega arith;
  offset_byte = omega arith;
  regs_words = omega arith;
  regs_all = refl;
}

abbrev refusing : SpiBus Unit
refusing =
    answering (bytes (seal [] corrupt)) (length-bytes (sealed-IsPacket [] tt corrupt-IsPacket))
      (bytes-IsByte (sealed-IsPacket [] tt corrupt-IsPacket))

rcio_spi_write_reply_example :
    (rcio_spi_write refusing [] link 0 (5 ∷ []) 1).0
    ≡ (if pkt_code corrupt == pkt_code_error then einval else pos 1)
rcio_spi_write_reply_example =
    rcio_spi_write_reply refusing [] link 0 (5 ∷ []) 1 corrupt (omega arith)
      (record { sent = refl; got = refl; answer = refl })

abbrev request : IoPacket
request = seal [] (write_request 0x3605 (7 ∷ 8 ∷ []) 2 one_register)

crc_bytes-eq-crc_divide_example : crc_bytes 0 (1 ∷ 2 ∷ []) ≡ crc_divide 0 (1 ∷ 2 ∷ [])
crc_bytes-eq-crc_divide_example = crc_bytes-eq-crc_divide 0 (1 ∷ 2 ∷ []) (omega arith) (omega arith)
