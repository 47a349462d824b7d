-- ===== src/Spi/Server/Laws.antt =====
-- The transactions of src/rcio_spi.c with the coprocessor of Spi.Server.
use rcio_dkms.Base.{
  ℕ, ◌-◌, ◌^◌, ◌≤◌, ◌<◌, ◌≡◌, ◌≢◌, sym, ap, ap₂, ◌∙◌, true, pos, List, ◌++◌, arith, length, take,
  drop, replicate, All,
}
use rcio_dkms.Base.Slices.{take-append, length-take, take-take}
use rcio_dkms.Protocol.Packet.{
  IoPacket, IsPacket, IsWord, IsByte, pkt_max_regs, pkt_code_read, pkt_code_write, pkt_code_error,
  pkt_count, pkt_code, bytes,
}
use rcio_dkms.Spi.{
  Link, filler, seal, crc_matches, write_request, read_request, wait_complete, rcio_spi_read,
  rcio_spi_write,
}
use rcio_dkms.Spi.Bus.{SpiBus}
use rcio_dkms.Spi.Exchange.{
  Answers, rcio_spi_read_reply, rcio_spi_write_reply, write_request_header, read_request_header,
}
use rcio_dkms.Spi.Detects.{sealed-IsPacket}
use rcio_dkms.Spi.Buffer.{write_request-IsPacket, read_request-IsPacket, rcio_spi_write-IsPacket}
use rcio_dkms.Spi.Server.{get_registers, put_registers, address_in, after_exchange, Within, Serves}
use rcio_dkms.Spi.Server.Array.{get_registers-put_registers}

write_request_regs :
    (past : List ℕ) (address : ℕ) (values : List ℕ) (n : ℕ) (p : IoPacket)
    → n ≤ length values
    → take n (seal past (write_request address values n p)).regs ≡ take n values
unfolding seal write_request
write_request_regs past address values n p enough =
    take-append n (take n values) (replicate (pkt_max_regs - n) filler)
      (omega (arith, length-take n values enough))
    ∙ take-take n values

module _ {D : Type 0} (spi : SpiBus D) (past : List ℕ) (past_bytes : All IsByte past) where
  module _ (server : Serves spi past) where
    answers :
        (d : D) (p : IoPacket)
        → IsPacket p
        → Answers spi past d p (bytes (seal past (server.answer d p)))
    answers d p v = record {
      sent = (server.exchange d p v).0;
      got = (server.exchange d p v).1;
      answer = (server.exchange d p v).2;
    }

    rcio_spi_write_bus :
        (l : Link D) (address : ℕ) (values : List ℕ) (n : ℕ)
        → n ≤ pkt_max_regs
        → let p = seal past (write_request address values n l.buffer) in
          IsPacket p
          → (rcio_spi_write spi past l address values n).1.bus ≡ after_exchange spi l.bus p
    unfolding rcio_spi_write wait_complete
    rcio_spi_write_bus l address values n few v =
        ground
          (arith, server.exchange l.bus (seal past (write_request address values n l.buffer)) v)

    rcio_spi_read_bus :
        (l : Link D) (address : ℕ) (values : List ℕ) (n : ℕ)
        → n ≤ pkt_max_regs
        → let p = seal past (read_request address n l.buffer) in
          IsPacket p
          → (rcio_spi_read spi past l address values n).2.bus ≡ after_exchange spi l.bus p
    unfolding rcio_spi_read wait_complete
    rcio_spi_read_bus l address values n few v =
        ground (arith, server.exchange l.bus (seal past (read_request address n l.buffer)) v)

    -- With bytes behind the packet, a coprocessor that answers by the protocol and a packet in the
    -- buffer: a write of `n` words, at most 32 and all in the caller's list, to registers of one
    -- page that store, at a 16-bit address, returns `n` and leaves the stored registers with these
    -- words there and as they were elsewhere.
    pub rcio_spi_write_puts :
        (l : Link D) (address : ℕ) (values : List ℕ) (n : ℕ)
        → IsPacket l.buffer
        → n ≤ pkt_max_regs
        → n ≤ length values
        → address < 2 ^ 16
        → All IsWord values
        → Within server.stores address n
        → let (result, l') = rcio_spi_write spi past l address values n in
          (result ≡ pos n)
          × (server.registers l'.bus
              ≡ put_registers (server.registers l.bus) address (take n values))
    rcio_spi_write_puts l address values n v few enough small words kept = (
      rcio_spi_write_reply spi past l address values n q few (answers l.bus p p-IsPacket)
          ∙ ground (arith, stored),
      ap server.registers (rcio_spi_write_bus l address values n few p-IsPacket)
          ∙ stored.1
          ∙ ap₂ (put_registers (server.registers l.bus)) header.2 (
              ap (λ k. take k p.regs) header.0
              ∙ write_request_regs past address values n l.buffer enough),
    )
      where
        p : IoPacket
        p = seal past (write_request address values n l.buffer)

        q : IoPacket
        q = server.answer l.bus p

        p-IsPacket : IsPacket p
        p-IsPacket =
            sealed-IsPacket past past_bytes
              (write_request-IsPacket address values n l.buffer few enough small words v)

        header :
            (pkt_count p ≡ n)
            × (pkt_code p ≡ pkt_code_write)
            × (address_in p ≡ address)
            × (crc_matches past p ≡ true)
        header = write_request_header past address values n l.buffer few small

        stored :
            (pkt_code q ≢ pkt_code_error)
            × (server.registers (after_exchange spi l.bus p)
                ≡ put_registers (server.registers l.bus) (address_in p) (take (pkt_count p) p.regs))
        stored =
            server.write_answer l.bus p p-IsPacket header.3 header.1 (rw (header.0) few)
              (rw (header.0, header.2) kept)

    -- With bytes behind the packet, a coprocessor that answers by the protocol and a packet in the
    -- buffer: a read of at most 32 registers of one page that return what they store, at a 16-bit
    -- address, returns their number, puts the registers into the caller's list from its start and
    -- leaves the stored registers as they were.
    pub rcio_spi_read_gets :
        (l : Link D) (address : ℕ) (values : List ℕ) (n : ℕ)
        → IsPacket l.buffer
        → n ≤ pkt_max_regs
        → address < 2 ^ 16
        → Within server.returns address n
        → let (result, after, l') = rcio_spi_read spi past l address values n in
          (result ≡ pos n)
          × (after ≡ get_registers (server.registers l.bus) address n ++ drop n values)
          × (server.registers l'.bus ≡ server.registers l.bus)
    rcio_spi_read_gets l address values n v few small given = (
      returned.0,
      returned.1 ∙ ap (λ xs. xs ++ drop n values) got,
      ap server.registers (rcio_spi_read_bus l address values n few p-IsPacket) ∙ found.3,
    )
      where
        p : IoPacket
        p = seal past (read_request address n l.buffer)

        q : IoPacket
        q = server.answer l.bus p

        p-IsPacket : IsPacket p
        p-IsPacket =
            sealed-IsPacket past past_bytes (read_request-IsPacket address n l.buffer small v)

        header :
            (pkt_count p ≡ n)
            × (pkt_code p ≡ pkt_code_read)
            × (address_in p ≡ address)
            × (crc_matches past p ≡ true)
        header = read_request_header past address n l.buffer few small

        found :
            (pkt_count q ≡ pkt_count p)
            × (pkt_code q ≢ pkt_code_error)
            × (take (pkt_count p) q.regs
                ≡ get_registers (server.registers l.bus) (address_in p) (pkt_count p))
            × (server.registers (after_exchange spi l.bus p) ≡ server.registers l.bus)
        found =
            server.read_answer l.bus p p-IsPacket header.3 header.1 (rw (header.0) few)
              (rw (header.0, header.2) given)

        returned :
            ((rcio_spi_read spi past l address values n).0 ≡ pos n)
            × ((rcio_spi_read spi past l address values n).1 ≡ take n q.regs ++ drop n values)
        returned =
            rcio_spi_read_reply spi past l address values n q few (answers l.bus p p-IsPacket)
              (found.0 ∙ header.0) found.1

        got : take n q.regs ≡ get_registers (server.registers l.bus) address n
        got =
            ap (λ k. take k q.regs) (sym header.0)
            ∙ found.2
            ∙ ap₂ (get_registers (server.registers l.bus)) header.2 header.0

    -- With bytes behind the packet, a coprocessor that answers by the protocol and a packet in the
    -- buffer: what a write of `n` words, at most 32 and all in the caller's list, stores in
    -- registers of one page, at a 16-bit address, that store what is written and return what they
    -- store, a read of as many registers at the same address gets back. Both return `n`.
    pub rcio_spi_read-rcio_spi_write :
        (l : Link D) (address : ℕ) (values old : List ℕ) (n : ℕ)
        → IsPacket l.buffer
        → n ≤ pkt_max_regs
        → n ≤ length values
        → address < 2 ^ 16
        → All IsWord values
        → Within server.stores address n
        → Within server.returns address n
        → let (written, l') = rcio_spi_write spi past l address values n in
          let (result, after, l'') = rcio_spi_read spi past l' address old n in
          (written ≡ pos n) × (result ≡ pos n) × (after ≡ take n values ++ drop n old)
    rcio_spi_read-rcio_spi_write l address values old n v few enough small words kept given =
        (stored.0, got.0, got.1 ∙ ap (λ xs. xs ++ drop n old) back)
      where
        l' : Link D
        l' = (rcio_spi_write spi past l address values n).1

        stored :
            ((rcio_spi_write spi past l address values n).0 ≡ pos n)
            × (server.registers l'.bus
                ≡ put_registers (server.registers l.bus) address (take n values))
        stored = rcio_spi_write_puts l address values n v few enough small words kept

        got :
            ((rcio_spi_read spi past l' address old n).0 ≡ pos n)
            × ((rcio_spi_read spi past l' address old n).1
                ≡ get_registers (server.registers l'.bus) address n ++ drop n old)
            × (server.registers (rcio_spi_read spi past l' address old n).2.bus
                ≡ server.registers l'.bus)
        got =
            rcio_spi_read_gets l' address old n
              (rcio_spi_write-IsPacket spi past past_bytes l address values n v enough small words)
              few small given

        back : get_registers (server.registers l'.bus) address n ≡ take n values
        back =
            ap (λ m. get_registers m address n) stored.1
            ∙ get_registers-put_registers (server.registers l.bus) address (take n values) n
                (length-take n values enough)
