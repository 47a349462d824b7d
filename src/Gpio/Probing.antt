-- ===== src/Gpio/Probing.antt =====
-- rcio_gpio_probe (src/rcio_gpio.c) and a call of the kernel between gpiochip_add, from which on
-- the kernel may call, and the stores behind it.
use rcio_dkms.Base.{
  ℕ, ◌^◌, ◌<◌, ◌≡◌, refl, ◌∙◌, true, false, ℤ, pos, is_neg, [], ◌∷◌, arith, bit_and, length, get_or,
  replicate, ◌==◌, if◌then◌else◌,
}
use rcio_dkms.Adapter.{Adapter}
use rcio_dkms.Kernel.{Kernel}
use rcio_dkms.Protocol.Pins.{set_bit_m}
use rcio_dkms.Protocol.Regs.{
  px4io_page_setup, px4io_p_setup_features, px4io_p_setup_features_gpio, px4io_page_gpio,
  px4io_page_gpio_exported,
}
use rcio_dkms.Registers.{register_get, register_set}
use rcio_dkms.State.{World, rcio_pwm_max_channels}
use rcio_dkms.Gpio.Pin.{rcio_gpio_force_update}
use rcio_dkms.Gpio.Laws.{rcio_gpio_force_update_lem}
use rcio_dkms.Gpio.Setup.{rcio_gpio_probe}
use rcio_dkms.Gpio.Chip.{gpio_chip_request}
use rcio_dkms.Gpio.Chip.Laws.{pwm_exported, gpio_chip_request_granted}

-- The two writes behind gpiochip_add.
abbrev pub zeros_sent : {D : Type 0} → Adapter D → D → D
zeros_sent a d =
    (register_set a (register_set a d px4io_page_gpio 0 (replicate 16 0) 16).1
      px4io_page_gpio_exported 0 (0 ∷ []) 1).1

module _ {D : Type 0} (a : Adapter D) (junk : ℕ) where
  -- The probe up to gpiochip_add, on a device with GPIO.
  unfoldable pub chip_added : World D → World D
  chip_added w =
      let (ret, reg, d1) =
        register_get a w.dev px4io_page_setup px4io_p_setup_features (junk ∷ []) 1 in
      record w { dev = d1; gpio = record (w.gpio) { gpio_supported = true } }

  -- What the probe does behind gpiochip_add.
  unfoldable pub clear_pins : World D → ℤ × World D
  clear_pins w =
      let w2 =
        (rcio_gpio_force_update a (record w {
          gpio = record (w.gpio) { pin_states = replicate rcio_pwm_max_channels 0 };
        })).1 in
      let (ret', d3) = register_set a w2.dev px4io_page_gpio_exported 0 (0 ∷ []) 1 in
      let w3 = record w2 { dev = d3 } in
      if is_neg ret'
      then (pos 0, w3)
      else (pos 1, record w3 { gpio = record (w3.gpio) { pin_states_updated = 1 } })

  abbrev features : World D → ℕ
  features w =
      get_or (register_get a w.dev px4io_page_setup px4io_p_setup_features (junk ∷ []) 1).1 0 0

  probe_in_two :
      (created added : ℤ) (w : World D)
      → (bit_and (features w) px4io_p_setup_features_gpio == 0) ≡ false
      → is_neg created ≡ false
      → is_neg added ≡ false
      → rcio_gpio_probe a junk created added w ≡ clear_pins (chip_added w)
  unfolding rcio_gpio_probe chip_added clear_pins
  probe_in_two created added w has made taken = rw (has, made, taken) refl

  clear_pins_lem :
      (w : World D)
      → let w' = (clear_pins w).1 in
        (w'.dev ≡ zeros_sent a w.dev)
        × (w'.gpio.pin_states ≡ replicate 16 0)
        × (w'.gpio.pwm_ignore_writings_mask ≡ w.gpio.pwm_ignore_writings_mask)
        × (w'.gpio.gpio_supported ≡ w.gpio.gpio_supported)
  unfolding clear_pins
  clear_pins_lem w = ground (
    arith,
    rcio_gpio_force_update_lem a
        (record w { gpio = record (w.gpio) { pin_states = replicate rcio_pwm_max_channels 0 } }),
  )

  -- On a device with GPIO, with no error of the kernel's calls, and a request of a pin in the array
  -- between gpiochip_add and what the probe does behind it, at time `t`, that returns 0: the probe
  -- is made of the two parts; the request leaves the pin's register as enabled, output and low;
  -- after the probe the registers of all pins are 0 in the driver, and the probe has sent these,
  -- and then that no pin is exported; the pin is still marked as ignored by PWM where PWM had it at
  -- the request.
  pub request_forgotten :
      (k : Kernel) (t : ℕ) (created added : ℤ) (w : World D) (offset : ℕ)
      → (bit_and (features w) px4io_p_setup_features_gpio == 0) ≡ false
      → is_neg created ≡ false
      → is_neg added ≡ false
      → offset < length w.gpio.pin_states
      → (gpio_chip_request a junk k t (chip_added w) offset).0 ≡ pos 0
      → let w1 = (gpio_chip_request a junk k t (chip_added w) offset).1 in
        let w2 = (clear_pins w1).1 in
        (rcio_gpio_probe a junk created added w ≡ clear_pins (chip_added w))
        × (get_or w1.gpio.pin_states offset 0 ≡ 0x8000)
        × (w2.gpio.pin_states ≡ replicate 16 0)
        × (w2.dev ≡ zeros_sent a w1.dev)
        × (w2.gpio.pwm_ignore_writings_mask ≡ (
            if bit_and (get_or (pwm_exported a junk k t (chip_added w)).1 0 0) (2 ^ offset) == 0
            then w.gpio.pwm_ignore_writings_mask
            else set_bit_m w.gpio.pwm_ignore_writings_mask offset))
  unfolding chip_added
  request_forgotten k t created added w offset has made taken inside granted =
      let got = gpio_chip_request_granted a junk k t (chip_added w) offset offset inside granted in
      let after = clear_pins_lem (gpio_chip_request a junk k t (chip_added w) offset).1 in
      (
        probe_in_two created added w has made taken,
        ground (arith, got.2),
        after.1,
        after.0,
        after.2 ∙ got.4,
      )
