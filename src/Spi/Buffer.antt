-- ===== src/Spi/Buffer.antt =====
-- The static buffer of src/rcio_spi.c as a packet, through each call.
use rcio_dkms.Base.{
  ℕ, ◌-◌, ◌^◌, ◌≤◌, ◌<◌, List, arith, length, take, All, All-append, All-take, All-replicate,
}
use rcio_dkms.Base.Bits.Masks.{bit_and-0xff}
use rcio_dkms.Base.Slices.{lengths}
use rcio_dkms.Protocol.Packet.{
  IoPacket, IsPacket, IsWord, IsByte, packet_size, pkt_max_regs, bytes, of_bytes-IsPacket,
}
use rcio_dkms.Spi.{
  Link, filler, clear_crc, seal, write_request, read_request, wait_complete, rcio_spi_read,
  rcio_spi_write,
}
use rcio_dkms.Spi.Bus.{SpiBus}
use rcio_dkms.Spi.Detects.{sealed-IsPacket}
use rcio_dkms.Spi.{clear_crc}

-- The fields of a request are those of a packet.
pub write_request-IsPacket :
    (address : ℕ) (values : List ℕ) (n : ℕ) (p : IoPacket)
    → n ≤ pkt_max_regs
    → n ≤ length values
    → address < 2 ^ 16
    → All IsWord values
    → IsPacket p
    → IsPacket (write_request address values n p)
unfolding write_request
write_request-IsPacket address values n p few enough small words v = record {
  count_code_byte = omega arith;
  crc_byte = v.crc_byte;
  page_byte = omega arith;
  offset_byte = omega (arith, bit_and-0xff address small);
  regs_words =
      All-append IsWord (take n values) _ (All-take IsWord n values words)
        (All-replicate IsWord (pkt_max_regs - n) filler (omega arith));
  regs_all = grind lengths;
}

pub read_request-IsPacket :
    (address : ℕ) (n : ℕ) (p : IoPacket)
    → address < 2 ^ 16
    → IsPacket p
    → IsPacket (read_request address n p)
unfolding read_request
read_request-IsPacket address n p small v = record {
  count_code_byte = omega arith;
  crc_byte = v.crc_byte;
  page_byte = omega arith;
  offset_byte = omega (arith, bit_and-0xff address small);
  regs_words = v.regs_words;
  regs_all = v.regs_all;
}

pub clear_crc-IsPacket :
    {D : Type 0} (l : Link D) → IsPacket l.buffer → IsPacket (clear_crc l).buffer
clear_crc-IsPacket l v = record {
  count_code_byte = v.count_code_byte;
  crc_byte = omega arith;
  page_byte = v.page_byte;
  offset_byte = v.offset_byte;
  regs_words = v.regs_words;
  regs_all = v.regs_all;
}

module _ {D : Type 0} (spi : SpiBus D) (past : List ℕ) (past_bytes : All IsByte past) where
  wait_complete-IsPacket :
      (l : Link D) → IsPacket l.buffer → IsPacket (wait_complete spi past l).1.buffer
  unfolding wait_complete
  wait_complete-IsPacket l v = ground (
    arith,
    sealed-IsPacket past past_bytes v,
    spi.read_full bus1 packet_size,
    spi.read_bytes bus1 packet_size,
    of_bytes-IsPacket (spi.read bus1 packet_size).1,
  )
    where
      bus1 : D
      bus1 = (spi.write l.bus (bytes (seal past l.buffer))).1

  pub rcio_spi_write-IsPacket :
      (l : Link D) (address : ℕ) (values : List ℕ) (n : ℕ)
      → IsPacket l.buffer
      → n ≤ length values
      → address < 2 ^ 16
      → All IsWord values
      → IsPacket (rcio_spi_write spi past l address values n).1.buffer
  unfolding rcio_spi_write
  rcio_spi_write-IsPacket l address values n v enough small words = ground (
    arith,
    write_request-IsPacket address values n l.buffer,
    wait_complete-IsPacket (record l { buffer = write_request address values n l.buffer }),
    clear_crc-IsPacket
        (wait_complete spi past (record l { buffer = write_request address values n l.buffer })).1,
  )

  pub rcio_spi_read-IsPacket :
      (l : Link D) (address : ℕ) (values : List ℕ) (n : ℕ)
      → IsPacket l.buffer
      → address < 2 ^ 16
      → IsPacket (rcio_spi_read spi past l address values n).2.buffer
  unfolding rcio_spi_read
  rcio_spi_read-IsPacket l address values n v small = ground (
    arith,
    read_request-IsPacket address n l.buffer,
    wait_complete-IsPacket (record l { buffer = read_request address n l.buffer }),
    clear_crc-IsPacket
        (wait_complete spi past (record l { buffer = read_request address n l.buffer })).1,
  )
