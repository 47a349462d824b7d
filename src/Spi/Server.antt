-- ===== src/Spi/Server.antt =====
-- A coprocessor that answers by the protocol of src/protocol.h: virtual registers in pages of 255.
-- Some pages are read-only or write-only, some registers are not implemented and some are commands
-- (PX4IO_P_SETUP_FORCE_SAFETY_OFF), so that nothing is asked of a register unless it is one that
-- stores what is written, or one that returns what it stores.
pub mod Array
pub mod Laws
pub mod Runs
use rcio_dkms.Base.{
  ℕ, ◌+◌, ◌-◌, ◌*◌, ◌%◌, ◌^◌, ◌≤◌, ◌<◌, ◌≡◌, ◌≢◌, refl, sym, ap, ap₂, ◌∙◌, Bool, true, false, ◌&&◌,
  pos, is_neg, List, [], ◌∷◌, ◌++◌, arith, bit_and, bit_or, length, get_or, take, drop, replicate,
  tabulate, ltb, leb, if◌then◌else◌, All, All-append, All-take, All-replicate, length-append,
  length-replicate,
}
use rcio_dkms.Base.Bits.Masks.{bit_and-0xff}
use rcio_dkms.Base.Slices.{take-append, length-take, take-take}
use rcio_dkms.Protocol.Packet.{
  IoPacket, IsPacket, IsWord, IsByte, packet_size, pkt_max_regs, pkt_code_read, pkt_code_write,
  pkt_code_error, pkt_count, pkt_code, bytes, of_bytes, of_bytes-bytes,
}
use rcio_dkms.Spi.{
  Link, filler, seal, crc_matches, write_request, read_request, wait_complete, rcio_spi_read,
  rcio_spi_write,
}
use rcio_dkms.Spi.Bus.{SpiBus}
use rcio_dkms.Spi.Exchange.{
  Answers, rcio_spi_read_reply, rcio_spi_write_reply, write_request_header, read_request_header,
}
use rcio_dkms.Spi.Detects.{sealed-IsPacket}

-- The registers, by their 16-bit address.
abbrev pub Registers : Type 0
Registers = ℕ → ℕ

abbrev pub get_registers : Registers → ℕ → ℕ → List ℕ
get_registers m address n = tabulate n (λ i. m (address + i))

abbrev pub put_registers : Registers → ℕ → List ℕ → Registers
put_registers m address values x =
    if leb address x && ltb x (address + length values) then get_or values (x - address) 0 else m x

abbrev pub address_in : IoPacket → ℕ
address_in p = p.page * 2 ^ 8 + p.offset

-- The state of the bus after the request `p` and its reply.
abbrev pub after_exchange : {D : Type 0} → SpiBus D → D → IoPacket → D
after_exchange spi d p = (spi.read (spi.write d (bytes p)).1 packet_size).2

-- The `n` registers from the address on lie in one page of 255 and are all marked by `mark`.
abbrev pub Within : (ℕ → Bool) → ℕ → ℕ → Type 0
Within mark address n = (address % 2 ^ 8 + n ≤ 255) × ((i : ℕ) → i < n → mark (address + i) ≡ true)

-- The registers that store what is written to them are marked by `stores`, those of which a read
-- returns what is stored by `returns`; `registers` is what is stored. Read-only registers,
-- unimplemented ones and commands are not marked. The coprocessor takes every packet; it answers
-- one whose checksum matches by a sealed packet, to a read within the registers that return with
-- what they store, to a write within those that store with the words stored there.
pub record Serves {D : Type 0} (spi : SpiBus D) (past : List ℕ) : Type 0 where
  pub stores : ℕ → Bool
  pub returns : ℕ → Bool
  pub registers : D → Registers
  pub answer : D → IoPacket → IoPacket
  pub exchange :
      (d : D) (p : IoPacket)
      → IsPacket p
      → (is_neg (spi.write d (bytes p)).0 ≡ false)
        × (is_neg (spi.read (spi.write d (bytes p)).1 packet_size).0 ≡ false)
        × ((spi.read (spi.write d (bytes p)).1 packet_size).1 ≡ bytes (seal past (answer d p)))
  pub read_answer :
      (d : D) (p : IoPacket)
      → IsPacket p
      → crc_matches past p ≡ true
      → pkt_code p ≡ pkt_code_read
      → pkt_count p ≤ pkt_max_regs
      → Within returns (address_in p) (pkt_count p)
      → (pkt_count (answer d p) ≡ pkt_count p)
        × (pkt_code (answer d p) ≢ pkt_code_error)
        × (take (pkt_count p) (answer d p).regs
            ≡ get_registers (registers d) (address_in p) (pkt_count p))
        × (registers (after_exchange spi d p) ≡ registers d)
  pub write_answer :
      (d : D) (p : IoPacket)
      → IsPacket p
      → crc_matches past p ≡ true
      → pkt_code p ≡ pkt_code_write
      → pkt_count p ≤ pkt_max_regs
      → Within stores (address_in p) (pkt_count p)
      → (pkt_code (answer d p) ≢ pkt_code_error)
        × (registers (after_exchange spi d p)
            ≡ put_registers (registers d) (address_in p) (take (pkt_count p) p.regs))
