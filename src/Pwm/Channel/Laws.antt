-- ===== src/Pwm/Channel/Laws.antt =====
-- What the count of the running motors means, when a channel is granted, and what is kept.
use rcio_dkms.Base.{
  ℕ, zero, suc, ◌+◌, ◌%◌, ◌^◌, ◌<◌, ◌≡◌, refl, ◌∙◌, true, false, ℤ, pos, is_neg, List, [], ◌∷◌,
  arith, length, get_or, set, replicate, bit_and, length-replicate, if◌then◌else◌,
}
use rcio_dkms.Adapter.{Adapter}
use rcio_dkms.Protocol.Regs.{px4io_page_direct_pwm, px4io_page_gpio_exported}
use rcio_dkms.Registers.{register_get}
use rcio_dkms.State.{World}
use rcio_dkms.Pwm.Config.{ignores}
use rcio_dkms.Pwm.Update.{rcio_pwm_force_update_pin}
use rcio_dkms.Pwm.Channel.{
  count_spinning, pwm_check_device_motors_running_count, rcio_pwm_disable, rcio_pwm_request,
  rcio_pwm_free,
}
use rcio_dkms.Pwm.Invariant.{PwmInv}
use rcio_dkms.Pwm.Invariant.Values.{set_value-PwmInv}

-- The number of outputs that are not zero.
unfoldable pub nonzero : List ℕ → ℕ
nonzero [] = 0
nonzero (zero ∷ vs) = nonzero vs
nonzero (suc v ∷ vs) = 1 + nonzero vs

nonzero_none : (vs : List ℕ) (i : ℕ) → nonzero vs ≡ 0 → get_or vs i 0 ≡ 0
unfolding nonzero
nonzero_none [] i h = refl
nonzero_none (zero ∷ vs) zero h = refl
nonzero_none (zero ∷ vs) (suc i) h = nonzero_none vs i h
nonzero_none (suc v ∷ vs) i h = absurd (omega arith)

-- The 16-bit counter does not wrap: it counts the outputs that are not zero.
pub count_spinning_lem :
    (vs : List ℕ) (n : ℕ) → n + length vs < 2 ^ 16 → count_spinning vs n ≡ n + nonzero vs
unfolding count_spinning nonzero
count_spinning_lem [] n h = omega arith
count_spinning_lem (zero ∷ vs) n h = ground (arith, count_spinning_lem vs n)
count_spinning_lem (suc v ∷ vs) n h = ground (arith, count_spinning_lem vs ((n + 1) % 2 ^ 16))

module _ {D : Type 0} (a : Adapter D) (junk : ℕ) where
  abbrev pub outputs : D → ℤ × List ℕ × D
  outputs d = register_get a d px4io_page_direct_pwm 0 (replicate 16 junk) 16

  length-outputs : (d : D) → length (outputs d).1 ≡ 16
  unfolding register_get
  length-outputs d =
      a.read_length d _ (replicate 16 junk) 16 (omega (arith, length-replicate 16 junk))
      ∙ length-replicate 16 junk

  -- Of what is read from the device, the count is the number of outputs that are on; a read that
  -- fails gives its error.
  pub pwm_check_device_motors_running_count_lem :
      (d : D)
      → let (ret, values, d') = outputs d in
        pwm_check_device_motors_running_count a junk d
        ≡ (if is_neg ret then ret else pos (nonzero values), d')
  unfolding pwm_check_device_motors_running_count
  pwm_check_device_motors_running_count_lem d =
      ground (arith, count_spinning_lem (outputs d).1 0, length-outputs d)

  -- A request on a pin that is not ignored returns 0 only if the outputs could be read, all of them
  -- are off, and, where the device has GPIO, the pin is not exported to GPIO.
  pub rcio_pwm_request_granted :
      (w : World D) (pin : ℕ)
      → ignores w.gpio.pwm_ignore_writings_mask pin ≡ false
      → (rcio_pwm_request a junk w pin).0 ≡ pos 0
      → let (ret, values, d1) = outputs w.dev in
        (is_neg ret ≡ false)
        × ((i : ℕ) → get_or values i 0 ≡ 0)
        × (w.gpio.gpio_supported ≡ true
            → bit_and
                (get_or (register_get a d1 px4io_page_gpio_exported 0 (junk ∷ []) 1).1 0 0)
                (2 ^ pin)
              ≡ 0)
  unfolding rcio_pwm_request
  rcio_pwm_request_granted w pin used granted = (
    ground (arith, pwm_check_device_motors_running_count_lem w.dev),
    λ i.
        nonzero_none (outputs w.dev).1 i
          (ground (arith, pwm_check_device_motors_running_count_lem w.dev)),
    λ supported. ground (arith, pwm_check_device_motors_running_count_lem w.dev),
  )

  pub rcio_pwm_request-state :
      (w : World D) (pin : ℕ)
      → let w' = (rcio_pwm_request a junk w pin).1 in (w'.pwm ≡ w.pwm) × (w'.gpio ≡ w.gpio)
  unfolding rcio_pwm_request
  rcio_pwm_request-state w pin = ground arith

  pub rcio_pwm_disable-PwmInv :
      (w : World D) (pin : ℕ) → PwmInv w.pwm → PwmInv (rcio_pwm_disable a junk w pin).pwm
  unfolding rcio_pwm_disable rcio_pwm_force_update_pin
  rcio_pwm_disable-PwmInv w pin inv = set_value-PwmInv w.pwm pin 0 (omega arith) inv

  pub free-state :
      (w : World D) (pin : ℕ)
      → let w' = rcio_pwm_free a junk w pin in
        (w'.pwm ≡ record (w.pwm) { values = set w.pwm.values pin 0 }) × (w'.gpio ≡ w.gpio)
  unfolding rcio_pwm_free
  free-state w pin = ground arith

  pub rcio_pwm_free-PwmInv :
      (w : World D) (pin : ℕ) → PwmInv w.pwm → PwmInv (rcio_pwm_free a junk w pin).pwm
  rcio_pwm_free-PwmInv w pin inv =
      rw ((free-state w pin).0) (set_value-PwmInv w.pwm pin 0 (omega arith) inv)
