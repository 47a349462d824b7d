-- ===== src/Gpio/Export.antt =====
-- gpio_export_gpio_pin (src/rcio_gpio.c) against the coprocessor's register of exported pins: two
-- pins exported one after the other, and at the same time, register call by register call.
use rcio_dkms.Base.{
  ℕ, ◌+◌, Bool, true, ◌<◌, ◌≡◌, ◌≢◌, ◌∙◌, ap, pos, List, [], ◌∷◌, arith, get_or, All,
}
use rcio_dkms.Base.Bits.{bit}
use rcio_dkms.Protocol.Packet.{IsPacket, IsWord, IsByte}
use rcio_dkms.Protocol.Pins.{set_bit_m}
use rcio_dkms.Protocol.Pins.Laws.{bit-set_bit_m}
use rcio_dkms.Protocol.Regs.{px4io_page_gpio_exported}
use rcio_dkms.Registers.{address_of, register_get, register_set}
use rcio_dkms.Spi.{Link, rcio_spi_read}
use rcio_dkms.Spi.Bus.{SpiBus}
use rcio_dkms.Spi.Buffer.{rcio_spi_read-IsPacket, rcio_spi_write-IsPacket}
use rcio_dkms.Spi.Contract.{spi_adapter}
use rcio_dkms.Spi.Server.{Within, Serves}
use rcio_dkms.Spi.Server.Laws.{rcio_spi_read_gets, rcio_spi_write_puts}
use rcio_dkms.Gpio.Invariant.{set_bit_m-IsWord}
use rcio_dkms.Gpio.Chip.{gpio_export_gpio_pin}

one_register : (mark : ℕ → Bool) → mark 0x1000 ≡ true → Within mark 0x1000 1
one_register mark e = (omega arith, λ i h. rw (unique i h) e)
  where
    unique : (i : ℕ) → i < 1 → 0x1000 + i ≡ 0x1000
    unique i h = omega arith

module _ {D : Type 0} (spi : SpiBus D) (past : List ℕ) (past_bytes : All IsByte past)
    (server : Serves spi past) (kept : server.stores 0x1000 ≡ true)
    (given : server.returns 0x1000 ≡ true) (junk : ℕ) where
  -- The coprocessor's register of exported pins.
  abbrev pub exported : Link D → ℕ
  exported l = server.registers l.bus 0x1000

  -- The two register calls of gpio_export_gpio_pin: the mask that is read, and the write of the
  -- mask with the pin's bit.
  unfoldable pub read_exported : Link D → ℕ × Link D
  unfolding register_get address_of
  read_exported l =
      let (ret, reg, l') =
        register_get (spi_adapter spi past) l px4io_page_gpio_exported 0 (junk ∷ []) 1 in
      (get_or reg 0 0, l')

  unfoldable pub write_exported : ℕ → ℕ → Link D → Link D
  unfolding register_set address_of
  write_exported mask pin l =
      (register_set (spi_adapter spi past) l px4io_page_gpio_exported 0 (set_bit_m mask pin ∷ [])
        1).1

  read_exported_lem :
      (l : Link D)
      → IsPacket l.buffer
      → let (mask, l') = read_exported l in
        (mask ≡ exported l) × (exported l' ≡ exported l) × IsPacket l'.buffer
  unfolding read_exported
  read_exported_lem l packet =
      let got =
        rcio_spi_read_gets spi past past_bytes server l 0x1000 (junk ∷ []) 1 packet (omega arith)
          (omega arith) (one_register server.returns given) in
      (
        ap (λ vs. get_or vs 0 0) got.1,
        ap (λ m. m 0x1000) got.2,
        rcio_spi_read-IsPacket spi past past_bytes l 0x1000 (junk ∷ []) 1 packet (omega arith),
      )

  write_exported_lem :
      (mask pin : ℕ) (l : Link D)
      → IsPacket l.buffer
      → let l' = write_exported mask pin l in
        (exported l' ≡ set_bit_m mask pin) × IsPacket l'.buffer
  unfolding write_exported
  write_exported_lem mask pin l packet = (
    ap (λ m. m 0x1000)
        (rcio_spi_write_puts spi past past_bytes server l 0x1000 (set_bit_m mask pin ∷ []) 1 packet
          (omega arith) (omega arith) (omega arith) words (one_register server.stores kept)).1,
    rcio_spi_write-IsPacket spi past past_bytes l 0x1000 (set_bit_m mask pin ∷ []) 1 packet
        (omega arith) (omega arith) words,
  )
    where
      words : All IsWord (set_bit_m mask pin ∷ [])
      words = (set_bit_m-IsWord pin mask, tt)

  -- The two calls, one after the other, are gpio_export_gpio_pin.
  gpio_export_gpio_pin_calls :
      (l : Link D) (pin : ℕ)
      → IsPacket l.buffer
      → let (mask, l') = read_exported l in
        gpio_export_gpio_pin (spi_adapter spi past) junk l pin ≡ (pos 0, write_exported mask pin l')
  unfolding gpio_export_gpio_pin read_exported write_exported register_get register_set address_of
  gpio_export_gpio_pin_calls l pin packet = ground (
    arith,
    rcio_spi_read_gets spi past past_bytes server l 0x1000 (junk ∷ []) 1 packet (omega arith)
        (omega arith) (one_register server.returns given),
    rcio_spi_write_puts spi past past_bytes server l1 0x1000 (set_bit_m mask pin ∷ []) 1 packet'
        (omega arith) (omega arith) (omega arith) (set_bit_m-IsWord pin mask, tt)
        (one_register server.stores kept),
  )
    where
      mask : ℕ
      mask = get_or (rcio_spi_read spi past l 0x1000 (junk ∷ []) 1).1 0 0

      l1 : Link D
      l1 = (rcio_spi_read spi past l 0x1000 (junk ∷ []) 1).2

      packet' : IsPacket l1.buffer
      packet' =
          rcio_spi_read-IsPacket spi past past_bytes l 0x1000 (junk ∷ []) 1 packet (omega arith)

  export_alone :
      (l : Link D) (pin : ℕ)
      → IsPacket l.buffer
      → let (ret, l') = gpio_export_gpio_pin (spi_adapter spi past) junk l pin in
        (exported l' ≡ set_bit_m (exported l) pin) × IsPacket l'.buffer
  export_alone l pin packet =
      let (mask, l1) = read_exported l in
      let (read, same, packet') = read_exported_lem l packet in
      let (written, packet'') = write_exported_lem mask pin l1 packet' in
      rw (gpio_export_gpio_pin_calls l pin packet)
        (written ∙ ap (λ x. set_bit_m x pin) read, packet'')

  -- The four register calls of two exports at the same time, both reads before both writes.
  unfoldable pub exports_overlap : ℕ → ℕ → Link D → Link D
  unfolding read_exported write_exported
  exports_overlap p q l =
      let (mask, l1) = read_exported l in
      let (mask', l2) = read_exported l1 in write_exported mask' q (write_exported mask p l2)

  overlap_exported :
      (p q : ℕ) (l : Link D)
      → IsPacket l.buffer
      → exported (exports_overlap p q l) ≡ set_bit_m (exported l) q
  unfolding exports_overlap
  overlap_exported p q l packet =
      let (mask, l1) = read_exported l in
      let (read, same, packet1) = read_exported_lem l packet in
      let (mask', l2) = read_exported l1 in
      let (read', same', packet2) = read_exported_lem l1 packet1 in
      let (written, packet3) = write_exported_lem mask p l2 packet2 in
      let (written', packet4) = write_exported_lem mask' q (write_exported mask p l2) packet3 in
      written' ∙ ap (λ x. set_bit_m x q) (read' ∙ same)

  -- With bytes behind the packet, a coprocessor that answers by the protocol, whose register of
  -- exported pins stores what is written and returns what it stores, and a packet in the buffer: of
  -- two pins below 16 that are exported one after the other, both are marked in the coprocessor's
  -- register of exported pins; where both calls read that register before either writes it, the pin
  -- whose call writes first is marked at the end only if it was marked before.
  pub export_lost :
      (l : Link D) (p q : ℕ)
      → IsPacket l.buffer
      → p < 16
      → q < 16
      → p ≢ q
      → let l1 = (gpio_export_gpio_pin (spi_adapter spi past) junk l p).1 in
        let l2 = (gpio_export_gpio_pin (spi_adapter spi past) junk l1 q).1 in
        let l' = exports_overlap p q l in
        (bit (exported l2) p ≡ 1)
        × (bit (exported l2) q ≡ 1)
        × (bit (exported l') q ≡ 1)
        × (bit (exported l') p ≡ bit (exported l) p)
  export_lost l p q packet hp hq other =
      let m = exported l in
      let (one, packet1) = export_alone l p packet in
      let l1 = (gpio_export_gpio_pin (spi_adapter spi past) junk l p).1 in
      let (two, packet2) = export_alone l1 q packet1 in
      rw (two, one, overlap_exported p q l packet)
        (
          ground (arith, bit-set_bit_m (set_bit_m m p) q p hq hp, bit-set_bit_m m p p hp hp),
          ground (arith, bit-set_bit_m (set_bit_m m p) q q hq hq),
          ground (arith, bit-set_bit_m m q q hq hq),
          ground (arith, bit-set_bit_m m q p hq hp),
        )
