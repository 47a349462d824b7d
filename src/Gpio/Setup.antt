-- ===== src/Gpio/Setup.antt =====
-- rcio_gpio_probe and rcio_gpio_remove (src/rcio_gpio.c).
use rcio_dkms.Base.{
  ℕ, Bool, true, false, ℤ, pos, is_neg, eopnotsupp, [], ◌∷◌, bit_and, get_or, replicate, ◌==◌,
  if◌then◌else◌,
}
use rcio_dkms.Adapter.{Adapter}
use rcio_dkms.Protocol.Regs.{
  px4io_page_setup, px4io_p_setup_features, px4io_p_setup_features_gpio, px4io_page_gpio_exported,
}
use rcio_dkms.Registers.{register_get, register_set}
use rcio_dkms.State.{World, rcio_pwm_max_channels}
use rcio_dkms.Gpio.Pin.{rcio_gpio_force_update}

module _ {D : Type 0} (a : Adapter D) (junk : ℕ) where
  -- `created` and `added` are what sysfs_create_group and gpiochip_add return. The function's
  -- `true` and `false` are the integers 1 and 0.
  unfoldable pub rcio_gpio_probe : ℤ → ℤ → World D → ℤ × World D
  rcio_gpio_probe created added w =
      let (ret, reg, d1) =
        register_get a w.dev px4io_page_setup px4io_p_setup_features (junk ∷ []) 1 in
      let w1 = record w { dev = d1; gpio = record (w.gpio) { gpio_supported = true } } in
      let w2 =
        (rcio_gpio_force_update a (record w1 {
          gpio = record (w1.gpio) { pin_states = replicate rcio_pwm_max_channels 0 };
        })).1 in
      let (ret', d3) = register_set a w2.dev px4io_page_gpio_exported 0 (0 ∷ []) 1 in
      let w3 = record w2 { dev = d3 } in
      if bit_and (get_or reg 0 0) px4io_p_setup_features_gpio == 0
      then (eopnotsupp, record w { dev = d1; gpio = record (w.gpio) { gpio_supported = false } })
      else (if is_neg created
          then (pos 0, w1)
          else (if is_neg added
              then (pos 0, w1)
              else (if is_neg ret'
                  then (pos 0, w3)
                  else (pos 1, record w3 { gpio = record (w3.gpio) { pin_states_updated = 1 } }))))

-- Whether the chip is taken from the kernel again.
unfoldable pub rcio_gpio_remove : {D : Type 0} → World D → ℤ × Bool
rcio_gpio_remove w = (pos 1, w.gpio.gpio_supported)
