-- ===== src/Registers.antt =====
-- The register calls of src/rcio_core.c, on top of an adapter.
pub mod Laws
use rcio_dkms.Base.{
  ℕ, ◌*◌, ◌%◌, ◌^◌, ℤ, is_neg, List, [], ◌∷◌, bit_and, bit_or, get_or, if◌then◌else◌,
}
use rcio_dkms.Adapter.{Adapter}
use rcio_dkms.Protocol.Pins.{not32}

-- `(page << 8) | offset`, as the `u16 address` of the adapter's calls.
unfoldable pub address_of : ℕ → ℕ → ℕ
address_of page offset = bit_or (page * 2 ^ 8) offset % 2 ^ 16

module _ {D : Type 0} (a : Adapter D) where
  unfoldable pub register_set : D → ℕ → ℕ → List ℕ → ℕ → ℤ × D
  register_set d page offset values n = a.write d (address_of page offset) values n

  -- `values` is what the caller's buffer holds; the result has what it holds after.
  unfoldable pub register_get : D → ℕ → ℕ → List ℕ → ℕ → ℤ × List ℕ × D
  register_get d page offset values n = a.read d (address_of page offset) values n

  unfoldable pub register_set_byte : D → ℕ → ℕ → ℕ → ℤ × D
  register_set_byte d page offset value = register_set d page offset (value ∷ []) 1

  -- `u16 reg` is not initialised: `junk` is what it holds.
  unfoldable pub register_get_byte : ℕ → D → ℕ → ℕ → ℕ × D
  register_get_byte junk d page offset =
      let (ret, reg, d') = register_get d page offset (junk ∷ []) 1 in (get_or reg 0 0, d')

  unfoldable pub register_modify : ℕ → D → ℕ → ℕ → ℕ → ℕ → ℤ × D
  register_modify junk d page offset clearbits setbits =
      let (ret, reg, d') = register_get d page offset (junk ∷ []) 1 in
      let value = bit_or (bit_and (get_or reg 0 0) (not32 clearbits) % 2 ^ 16) setbits % 2 ^ 16 in
      if is_neg ret then (ret, d') else register_set_byte d' page offset value
