-- ===== src/Spi/Threads/Device.antt =====
-- The threads of Spi/Threads.antt, and the registers behind the bus that they share.
use rcio_dkms.Base.{◌≡◌, List, ℕ, All, ap, sym, ◌∙◌}
use rcio_dkms.Protocol.Packet.{IsPacket, IsByte}
use rcio_dkms.Spi.{Link}
use rcio_dkms.Spi.Bus.{SpiBus}
use rcio_dkms.Spi.Server.{Serves}
use rcio_dkms.Spi.Server.Runs.{Sound, on_registers, on_bus-on_registers}
use rcio_dkms.Spi.Threads.{Threads, Reach}
use rcio_dkms.Spi.Threads.Serial.{calls, replies, Reach-Serial}

module _ {D : Type 0} (spi : SpiBus D) (past : List ℕ) where
  -- With bytes behind the packet, a coprocessor that answers by the protocol and a packet in the
  -- buffer at the start: whatever the interleaving, once calls have returned to the threads, each
  -- of at most 32 registers of one page that store (to be written) or return what they store (to be
  -- read), their replies are those of the same calls on one array of registers, in the order in
  -- which they returned, whether or not a thread holds the lock.
  pub threads_on_registers :
      (past_bytes : All IsByte past) (server : Serves spi past) {l : Link D} {s : Threads D}
      → IsPacket l.buffer
      → Reach spi past l s
      → All (Sound server) (calls s.history)
      → replies s.history ≡ (on_registers (calls s.history) (server.registers l.bus)).0
  threads_on_registers past_bytes server {l} {s} packet r sound =
      sym (ap (λ x. x.0) (Reach-Serial spi past r).ran)
      ∙ (on_bus-on_registers spi past past_bytes server (calls s.history) l packet sound).0
