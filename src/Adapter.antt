-- ===== src/Adapter.antt =====
-- struct rcio_adapter (src/rcio.h): the two calls by which the driver reaches the registers of the
-- coprocessor, and what every caller relies on. `Spi.Contract` proves it of src/rcio_spi.c.
use rcio_dkms.Base.{ℕ, ◌≤◌, ◌≡◌, ◌⊎◌, true, ℤ, pos, is_neg, List, length, All}
use rcio_dkms.Protocol.Packet.{IsWord}

-- `read address old n` is given what the caller's buffer holds, and returns what it holds after.
pub record Adapter (D : Type 0) : Type 0 where
  pub read : D → ℕ → List ℕ → ℕ → ℤ × List ℕ × D
  pub write : D → ℕ → List ℕ → ℕ → ℤ × D
  -- A read returns the count, or an error with the buffer as it was.
  pub read_result :
      (d : D) (address : ℕ) (old : List ℕ) (n : ℕ)
      → ((read d address old n).0 ≡ pos n)
        ⊎ ((is_neg (read d address old n).0 ≡ true) × ((read d address old n).1 ≡ old))
  -- The buffer keeps its size, and holds 16-bit registers.
  pub read_length :
      (d : D) (address : ℕ) (old : List ℕ) (n : ℕ)
      → n ≤ length old
      → length (read d address old n).1 ≡ length old
  pub read_words :
      (d : D) (address : ℕ) (old : List ℕ) (n : ℕ)
      → All IsWord old
      → All IsWord (read d address old n).1
  -- A write returns the count, or an error.
  pub write_result :
      (d : D) (address : ℕ) (values : List ℕ) (n : ℕ)
      → ((write d address values n).0 ≡ pos n) ⊎ (is_neg (write d address values n).0 ≡ true)
