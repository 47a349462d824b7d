-- ===== src/Spi/Bus.antt =====
-- spi_write_then_read, as src/rcio_spi.c calls it: once to write a packet, once to read one.
use rcio_dkms.Base.{ℕ, ◌≡◌, false, ℤ, is_neg, List, length, All}
use rcio_dkms.Protocol.Packet.{IsByte}

-- A call that succeeds has filled the whole receive buffer, with bytes.
pub record SpiBus (D : Type 0) : Type 0 where
  pub write : D → List ℕ → ℤ × D
  pub read : D → ℕ → ℤ × List ℕ × D
  pub read_full : (d : D) (n : ℕ) → is_neg (read d n).0 ≡ false → length (read d n).1 ≡ n
  pub read_bytes : (d : D) (n : ℕ) → is_neg (read d n).0 ≡ false → All IsByte (read d n).1
