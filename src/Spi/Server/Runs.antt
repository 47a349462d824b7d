-- ===== src/Spi/Server/Runs.antt =====
-- Any sequence of transactions, against the same sequence on an array of registers.
use rcio_dkms.Base.{
  ℕ, ◌^◌, ◌≤◌, ◌<◌, ◌≡◌, refl, ap, ap₂, ◌∙◌, ℤ, pos, List, [], ◌∷◌, ◌++◌, length, take, drop, All,
}
use rcio_dkms.Protocol.Packet.{IsPacket, IsWord, IsByte, pkt_max_regs}
use rcio_dkms.Spi.{Link, rcio_spi_read, rcio_spi_write}
use rcio_dkms.Spi.Bus.{SpiBus}
use rcio_dkms.Spi.Buffer.{rcio_spi_write-IsPacket, rcio_spi_read-IsPacket}
use rcio_dkms.Spi.Server.{Registers, get_registers, put_registers, Within, Serves}
use rcio_dkms.Spi.Server.Laws.{rcio_spi_write_puts, rcio_spi_read_gets}

-- A call of the adapter: the address, the caller's list and the count.
pub data Call : Type 0 where
  write_call read_call : (address : ℕ) (values : List ℕ) (n : ℕ) → Call

-- At most 32 registers of one page at a 16-bit address. To be written they store, and what is
-- written are words that the list holds; to be read they return what they store.
abbrev pub Sound : {D : Type 0} {spi : SpiBus D} {past : List ℕ} → Serves spi past → Call → Type 0
Sound server (write_call address values n) =
    (n ≤ pkt_max_regs)
    × (n ≤ length values)
    × (address < 2 ^ 16)
    × All IsWord values
    × Within server.stores address n
Sound server (read_call address values n) =
    (n ≤ pkt_max_regs) × (address < 2 ^ 16) × Within server.returns address n

-- What a call returns: its result, and the caller's list after it.
abbrev pub Reply : Type 0
Reply = ℤ × List ℕ

-- The calls on the array: a write stores, a read copies, and both return the count.
unfoldable pub on_registers : List Call → Registers → List Reply × Registers
on_registers [] m = ([], m)
on_registers (write_call address values n ∷ cs) m =
    let (replies, m') = on_registers cs (put_registers m address (take n values)) in
    ((pos n, values) ∷ replies, m')
on_registers (read_call address values n ∷ cs) m =
    let (replies, m') = on_registers cs m in
    ((pos n, get_registers m address n ++ drop n values) ∷ replies, m')

module _ {D : Type 0} (spi : SpiBus D) (past : List ℕ) where
  -- One call over the bus.
  unfoldable pub on_link : Call → Link D → Reply × Link D
  on_link (write_call address values n) l =
      let (result, l') = rcio_spi_write spi past l address values n in ((result, values), l')
  on_link (read_call address values n) l =
      let (result, after, l') = rcio_spi_read spi past l address values n in ((result, after), l')

  -- The calls over the bus.
  unfoldable pub on_bus : List Call → Link D → List Reply × Link D
  unfolding on_link
  on_bus [] l = ([], l)
  on_bus (c ∷ cs) l =
      let (reply, l1) = on_link c l in let (replies, l2) = on_bus cs l1 in (reply ∷ replies, l2)

  pub on_bus-append :
      (cs : List Call) (c : Call) (l : Link D)
      → let (replies, l') = on_bus cs l in
        let (reply, l'') = on_link c l' in on_bus (cs ++ c ∷ []) l ≡ (replies ++ reply ∷ [], l'')
  unfolding on_bus
  on_bus-append [] c l = refl
  on_bus-append (d ∷ cs) c l =
      ap (λ r. ((on_link d l).0 ∷ r.0, r.1)) (on_bus-append cs c (on_link d l).1)

  -- With bytes behind the packet, a coprocessor that answers by the protocol and a packet in the
  -- buffer: any sequence of calls, each of at most 32 registers of one page that store (to be
  -- written) or return what they store (to be read), returns over the bus what it returns on the
  -- array of registers, and leaves the coprocessor with the array that it leaves.
  pub on_bus-on_registers :
      (past_bytes : All IsByte past) (server : Serves spi past) (cs : List Call) (l : Link D)
      → IsPacket l.buffer
      → All (Sound server) cs
      → let (replies, l') = on_bus cs l in
        let (expected, m) = on_registers cs (server.registers l.bus) in
        (replies ≡ expected) × (server.registers l'.bus ≡ m)
  unfolding on_bus on_registers
  on_bus-on_registers past_bytes server [] l packet sound = (refl, refl)
  on_bus-on_registers past_bytes server (write_call address values n ∷ cs) l packet sound =
      let (few, enough, small, words, kept) = sound.0 in
      let l1 = (rcio_spi_write spi past l address values n).1 in
      let stored =
        rcio_spi_write_puts spi past past_bytes server l address values n packet few enough small
          words kept in
      let rest =
        on_bus-on_registers past_bytes server cs l1
          (rcio_spi_write-IsPacket spi past past_bytes l address values n packet enough small words)
          sound.1 in
      (
        ap₂ (λ r rs. (r, values) ∷ rs) stored.0 (rest.0 ∙ ap (λ m. (on_registers cs m).0) stored.1),
        rest.1 ∙ ap (λ m. (on_registers cs m).1) stored.1,
      )
  on_bus-on_registers past_bytes server (read_call address values n ∷ cs) l packet sound =
      let (few, small, given) = sound.0 in
      let l1 = (rcio_spi_read spi past l address values n).2 in
      let got =
        rcio_spi_read_gets spi past past_bytes server l address values n packet few small given in
      let rest =
        on_bus-on_registers past_bytes server cs l1
          (rcio_spi_read-IsPacket spi past past_bytes l address values n packet small) sound.1 in
      (
        ap₂ (λ r rs. r ∷ rs) (ap₂ (λ r vs. (r, vs)) got.0 got.1)
            (rest.0 ∙ ap (λ m. (on_registers cs m).0) got.2),
        rest.1 ∙ ap (λ m. (on_registers cs m).1) got.2,
      )
