-- ===== src/Core/Delivery.antt =====
-- The whole way of the outputs: from rcio_pwm_update through rcio_spi_write to the registers of the
-- coprocessor.
use rcio_dkms.Base.{
  ℕ, ◌*◌, ◌^◌, ◌<◌, ◌≡◌, ap, ◌∙◌, true, false, List, ◌++◌, arith, drop, replicate, All, if_cases,
  All-append, All-replicate, All-drop,
}
use rcio_dkms.Base.Slices.{take_all}
use rcio_dkms.Kernel.{Kernel}
use rcio_dkms.Protocol.Packet.{IsPacket, IsWord, IsByte}
use rcio_dkms.Protocol.Regs.{px4io_page_direct_pwm}
use rcio_dkms.Registers.{address_of, register_set}
use rcio_dkms.Spi.{Link}
use rcio_dkms.Spi.Bus.{SpiBus}
use rcio_dkms.Spi.Contract.{spi_adapter}
use rcio_dkms.Spi.Server.{Within, Serves, get_registers, put_registers}
use rcio_dkms.Spi.Server.Array.{get_registers-put_registers}
use rcio_dkms.Spi.Server.Laws.{rcio_spi_write_puts}
use rcio_dkms.State.{World, Pwm, int_pos}
use rcio_dkms.Pwm.Invariant.{PwmInv}
use rcio_dkms.Pwm.Update.{some_freq_updated, rcio_pwm_update}
use rcio_dkms.Pwm.Update.Countdown.{length-written, nothing_pending}
use rcio_dkms.Pwm.Update.Laws.{armed_at, armed_world, written, rcio_pwm_update_writes}

written-IsWord : (p : Pwm) → All IsWord p.values → All IsWord (written p)
written-IsWord p words =
    if_cases (All IsWord) (int_pos p.force_pwmzero_countdown) (replicate 12 0 ++ drop 12 p.values)
      p.values
      (λ _.
        All-append IsWord (replicate 12 0) (drop 12 p.values)
          (All-replicate IsWord 12 0 (omega arith)) (All-drop IsWord 12 p.values words))
      (λ _. words)

module _ {D : Type 0} (spi : SpiBus D) (past : List ℕ) (past_bytes : All IsByte past)
    (server : Serves spi past) (k : Kernel) where
  -- With bytes behind the packet, a coprocessor that answers by the protocol and stores what is
  -- written to its 16 registers for the outputs, the invariant of the
  -- outputs, a countdown of 32 bits and a packet in the buffer: an armed update with no frequency
  -- to change keeps the outputs that it has written, and leaves them in the coprocessor's registers
  -- for them, the first 12 at zero while the countdown is positive.
  pub rcio_pwm_update_delivers :
      (t : ℕ) (w : World (Link D))
      → Within server.stores (px4io_page_direct_pwm * 2 ^ 8) 16
      → armed_at k t w.pwm.armtimeout ≡ true
      → some_freq_updated w.pwm ≡ false
      → PwmInv w.pwm
      → w.pwm.force_pwmzero_countdown < 2 ^ 32
      → IsPacket w.dev.buffer
      → let w' = (rcio_pwm_update (spi_adapter spi past) k t w).1 in
        (get_registers (server.registers w'.dev.bus) (px4io_page_direct_pwm * 2 ^ 8) 16
          ≡ written w.pwm)
        × (w'.pwm.values ≡ written w.pwm)
  unfolding register_set address_of some_freq_updated
  rcio_pwm_update_delivers t w kept on quiet inv small packet =
      let sent =
        rcio_pwm_update_writes (spi_adapter spi past) k t w on quiet
          (nothing_pending (spi_adapter spi past) k (armed_world (spi_adapter spi past) k t w)
            quiet)
          inv.values_all small in
      let all = length-written w.pwm inv.values_all in
      let stored =
        rcio_spi_write_puts spi past past_bytes server w.dev 0x3600 (written w.pwm) 16 packet
          (omega arith) (omega (arith, all)) (omega arith) (written-IsWord w.pwm inv.values_words)
          kept in
      (
        ap (λ l. get_registers (server.registers l.bus) 0x3600 16) sent.1
            ∙ ap (λ m. get_registers m 0x3600 16) stored.1
            ∙ ap
                (λ vs.
                  get_registers (put_registers (server.registers w.dev.bus) 0x3600 vs) 0x3600 16)
                (take_all (written w.pwm) 16 all)
            ∙ get_registers-put_registers (server.registers w.dev.bus) 0x3600 (written w.pwm) 16
                all,
        sent.2,
      )
