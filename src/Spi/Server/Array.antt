-- ===== src/Spi/Server/Array.antt =====
-- The array of registers of Spi.Server, apart from the packets.
use rcio_dkms.Base.{
  ℕ, ◌+◌, ◌-◌, ◌≡◌, ◌∙◌, List, arith, length, get_or, tabulate_ext, tabulate-get_or,
}
use rcio_dkms.Spi.Server.{Registers, get_registers, put_registers}

pub get_registers-put_registers :
    (m : Registers) (address : ℕ) (values : List ℕ) (n : ℕ)
    → length values ≡ n
    → get_registers (put_registers m address values) address n ≡ values
get_registers-put_registers m address values n full =
    tabulate_ext n (λ i. put_registers m address values (address + i)) (λ i. get_or values i 0)
      (λ i h. ground (arith, moved i))
    ∙ tabulate-get_or n values 0 full
  where
    moved : (i : ℕ) → (address + i) - address ≡ i
    moved i = omega arith
