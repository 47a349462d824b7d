-- ===== src/Pwm/Update/Pins.antt =====
-- An update of the outputs and the variables of the pins.
use rcio_dkms.Base.{ℕ, ◌≡◌, refl, Bool, true, false, Option, none, some, arith, if◌then◌else◌}
use mathlib.Core.Option
use rcio_dkms.Adapter.{Adapter}
use rcio_dkms.Kernel.{Kernel}
use rcio_dkms.State.{World, Gpio}
use rcio_dkms.Pwm.Update.{
  first_required, update_group, update_alt, update_default, arm, some_freq_updated,
  pending_frequency, after_frequency, finish_update, clear_values, rcio_pwm_update_frequency,
  rcio_pwm_update,
}

abbrev SameGpio : {D : Type 0} → Gpio → Option (World D) → Type 0
SameGpio g none = Unit
SameGpio g (some w) = w.gpio ≡ g

after_gpio :
    {D : Type 0} (a : Adapter D) (o : Option (World D)) (w : World D) (b : Bool)
    → SameGpio w.gpio o
    → (after_frequency a o w b).1.gpio ≡ w.gpio
unfolding after_frequency finish_update
after_gpio a none w b h = ground arith
after_gpio a (some w') w b h = h

group_gpio :
    {D : Type 0} (a : Adapter D) (w : World D) (o : Option ℕ)
    → SameGpio w.gpio (Option.map (update_group a w) o)
unfolding update_group rcio_pwm_update_frequency
group_gpio a w none = tt
group_gpio a w (some i) = refl

if_gpio :
    {D : Type 0} (g : Gpio) (b : Bool) (x y : Option (World D))
    → SameGpio g x
    → SameGpio g y
    → SameGpio g (if b then x else y)
if_gpio g true x y hx hy = hx
if_gpio g false x y hx hy = hy

pending_gpio : {D : Type 0} (a : Adapter D) (w : World D) → SameGpio w.gpio (pending_frequency a w)
unfolding pending_frequency update_alt update_default rcio_pwm_update_frequency
pending_gpio a w =
    if_gpio w.gpio w.pwm.adv_timer_config_supported _ _
      (group_gpio a w (first_required w.pwm.frequencies_update_required 0))
      (if_gpio w.gpio w.pwm.alt_frequency_updated _ _ refl
        (if_gpio w.gpio w.pwm.default_frequency_updated _ none refl tt))

-- The pins are not touched by an update of the outputs.
pub rcio_pwm_update-gpio :
    {D : Type 0} (a : Adapter D) (k : Kernel) (t : ℕ) (w : World D)
    → (rcio_pwm_update a k t w).1.gpio ≡ w.gpio
unfolding rcio_pwm_update clear_values rcio_pwm_update_frequency
rcio_pwm_update-gpio {D = D} a k t w = ground (
  arith,
  after_gpio a (pending_frequency a later) later (some_freq_updated w.pwm) (pending_gpio a later),
  after_gpio a none later (some_freq_updated w.pwm) tt,
  finish,
)
  where
    later : World D
    later = record w { pwm = arm k t w.pwm }

    finish : (finish_update a later (some_freq_updated w.pwm)).1.gpio ≡ w.gpio
    finish = unfold after_frequency in after_gpio a none later (some_freq_updated w.pwm) tt
