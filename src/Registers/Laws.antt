-- ===== src/Registers/Laws.antt =====
-- Where a register call ends up on the wire, and what a caller may rely on.
use rcio_dkms.Base.{
  ℕ, ◌+◌, ◌*◌, ◌^◌, ◌≡◌, refl, true, List, arith, bit_or, ◌==◌, ==_iff, all_below, all_below_sound,
}
use rcio_dkms.Base.Bits.Masks.{bit_and-0xff}
use rcio_dkms.Protocol.Packet.{IoPacket, IsByte}
use rcio_dkms.Spi.{write_request}
use rcio_dkms.Registers.{address_of}

address_table :
    all_below 256 (λ p. all_below 256 (λ o. bit_or (p * 2 ^ 8) o == p * 2 ^ 8 + o)) ≡ true
unfolding all_below
address_table = refl

address_of_sum :
    (page offset : ℕ) → IsByte page → IsByte offset → address_of page offset ≡ page * 2 ^ 8 + offset
unfolding address_of
address_of_sum page offset hp ho = omega (
  arith,
  (==_iff (bit_or (page * 2 ^ 8) offset) (page * 2 ^ 8 + offset)).0 (
      all_below_sound 256 (λ o. bit_or (page * 2 ^ 8) o == page * 2 ^ 8 + o) offset
        (all_below_sound 256 (λ p. all_below 256 (λ o. bit_or (p * 2 ^ 8) o == p * 2 ^ 8 + o)) page
          address_table hp)
        ho),
)

-- The page and the offset of a register call, both bytes, are those of the packet on the wire.
pub write_request-address_of :
    (page offset : ℕ) (values : List ℕ) (n : ℕ) (p : IoPacket)
    → IsByte page
    → IsByte offset
    → let q = write_request (address_of page offset) values n p in
      (q.page ≡ page) × (q.offset ≡ offset)
unfolding write_request
write_request-address_of page offset values n p hp ho = (
  omega (arith, address_of_sum page offset hp ho),
  omega (
    arith,
    address_of_sum page offset hp ho,
    bit_and-0xff (address_of page offset) (omega (arith, address_of_sum page offset hp ho)),
  ),
)
