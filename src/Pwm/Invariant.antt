-- ===== src/Pwm/Invariant.antt =====
-- What holds of the variables of src/rcio_pwm.c between any two calls.
pub mod Values
pub mod Steps
pub mod Config
use rcio_dkms.Base.{
  ℕ, ◌^◌, ◌<◌, ◌≡◌, refl, Bool, true, false, List, arith, length, get_or, All, get_or-replicate,
}
use rcio_dkms.Protocol.Packet.{IsWord}
use rcio_dkms.State.{Pwm, initial_pwm, rcio_pwm_max_channels, rcio_pwm_timer_count}

-- A group whose update is not pending has the frequency that was last asked of it.
abbrev pub Settled : List Bool → List ℕ → List ℕ → Type 0
Settled required frequencies new_frequencies =
    (i : ℕ) → get_or required i false ≡ false → get_or frequencies i 0 ≡ get_or new_frequencies i 0

-- Stated of the variables that it is about, so that it is kept by what changes only others: every
-- array keeps its size, every output its range, and the flags of the old way and those of the new
-- way are not used together.
pub record Outputs (values frequencies new_frequencies : List ℕ) (required : List Bool)
    (advanced alt_updated default_updated : Bool) : Type 0 where
  pub values_all : length values ≡ rcio_pwm_max_channels
  pub values_words : All IsWord values
  pub frequencies_all : length frequencies ≡ rcio_pwm_timer_count
  pub new_frequencies_all : length new_frequencies ≡ rcio_pwm_timer_count
  pub required_all : length required ≡ rcio_pwm_timer_count
  pub settled : Settled required frequencies new_frequencies
  pub new_way : advanced ≡ true → (alt_updated ≡ false) × (default_updated ≡ false)
  pub old_way : advanced ≡ false → (i : ℕ) → get_or required i false ≡ false

abbrev pub PwmInv : Pwm → Type 0
PwmInv p =
    Outputs p.values p.frequencies p.new_frequencies p.frequencies_update_required
      p.adv_timer_config_supported p.alt_frequency_updated p.default_frequency_updated

-- The variables as the module is loaded, whichever way the device supports.
pub initial_pwm-PwmInv :
    (advanced : Bool) → PwmInv (record initial_pwm { adv_timer_config_supported = advanced })
unfolding initial_pwm
initial_pwm-PwmInv advanced = record {
  values_all = refl;
  values_words = omega arith;
  frequencies_all = refl;
  new_frequencies_all = refl;
  required_all = refl;
  settled = λ i h. refl;
  new_way = λ h. (refl, refl);
  old_way = λ h i. get_or-replicate 4 false i;
}
