-- ===== src/Gpio/Chip.antt =====
-- gpio_chip_request and gpio_chip_free (src/rcio_gpio.c): a pin changes hands between PWM and GPIO.
pub mod Laws
use rcio_dkms.Base.{ℕ, ◌%◌, ◌^◌, ℤ, pos, is_neg, [], ◌∷◌, bit_and, get_or, ◌==◌, if◌then◌else◌}
use rcio_dkms.Adapter.{Adapter}
use rcio_dkms.Kernel.{Kernel}
use rcio_dkms.Protocol.Pins.{
  not32, set_bit_m, clear_bit_m, gpio_set_pin_gpio_enable, gpio_set_pin_state_low,
  gpio_set_pin_direction_output,
}
use rcio_dkms.Protocol.Regs.{px4io_page_gpio_exported, px4io_page_pwm_exported}
use rcio_dkms.Registers.{register_get, register_set}
use rcio_dkms.State.{World}
use rcio_dkms.Pwm.Channel.{is_running, pwm_check_device_motors_running_count}
use rcio_dkms.Pwm.Update.{rcio_pwm_force_zero_duty}
use rcio_dkms.Gpio.Pin.{
  on_pin, update_enqueue, pwmignore_do_ignore_pin, pwmignore_do_unignore_pin,
  rcio_gpio_force_update,
}

module _ {D : Type 0} (a : Adapter D) (junk : ℕ) where
  unfoldable pub gpio_unexport_pwm_pin : D → ℕ → ℕ → ℤ × D
  gpio_unexport_pwm_pin d current pin =
      register_set a d px4io_page_pwm_exported 0 ((bit_and current (not32 (2 ^ pin)) % 2 ^ 16) ∷ [])
        1

  unfoldable pub gpio_export_gpio_pin : D → ℕ → ℤ × D
  gpio_export_gpio_pin d pin =
      let (ret, reg, d1) = register_get a d px4io_page_gpio_exported 0 (junk ∷ []) 1 in
      let (ret', d2) =
        register_set a d1 px4io_page_gpio_exported 0 (set_bit_m (get_or reg 0 0) pin ∷ []) 1 in
      if is_neg ret then (ret, d1) else (if is_neg ret' then (ret', d2) else (pos 0, d2))

  unfoldable pub gpio_unexport_gpio_pin : D → ℕ → ℕ → ℤ × D
  gpio_unexport_gpio_pin d exported pin =
      let (ret, d') =
        register_set a d px4io_page_gpio_exported 0 (clear_bit_m exported pin ∷ []) 1 in
      if is_neg ret then (ret, d') else (pos 0, d')

  -- The running motors are stopped before a pin is touched.
  unfoldable pub stop_motors : Kernel → ℕ → ℤ → World D → World D
  stop_motors k jiffies running w =
      if is_running running then rcio_pwm_force_zero_duty a k jiffies w else w

  -- The part of gpio_chip_request that runs once the pin is exported: the pin's register is
  -- enabled, then put to output and low, each time with an update of the device.
  unfoldable pub take_pin : World D → ℕ → World D
  take_pin w offset =
      let enabled = on_pin gpio_set_pin_gpio_enable offset (on_pin (λ _. 0x0000) offset w.gpio) in
      let w1 = (rcio_gpio_force_update a (record w { gpio = enabled })).1 in
      let low =
        on_pin gpio_set_pin_state_low offset
          (on_pin gpio_set_pin_direction_output offset w1.gpio) in
      let w2 = (rcio_gpio_force_update a (record w1 { gpio = low })).1 in
      record w2 { gpio = update_enqueue w2.gpio }

  -- The pin is taken from PWM, if PWM has it.
  unfoldable pub take_from_pwm : World D → ℕ → ℕ → ℤ × World D
  unfolding gpio_unexport_pwm_pin
  take_from_pwm w pwm_exported offset =
      let (ret, d) = gpio_unexport_pwm_pin w.dev pwm_exported offset in
      if bit_and pwm_exported (2 ^ offset) == 0
      then (pos 0, w)
      else (ret, record w { dev = d; gpio = pwmignore_do_ignore_pin offset w.gpio })

  unfoldable pub gpio_chip_request : Kernel → ℕ → World D → ℕ → ℤ × World D
  gpio_chip_request k jiffies w offset =
      let (running, d0) = pwm_check_device_motors_running_count a junk w.dev in
      let w1 = stop_motors k jiffies running (record w { dev = d0 }) in
      let (ret, reg, d2) = register_get a w1.dev px4io_page_pwm_exported 0 (junk ∷ []) 1 in
      let w2 = record w1 { dev = d2 } in
      let (taken, w3) = take_from_pwm w2 (get_or reg 0 0) offset in
      let (exported, d4) = gpio_export_gpio_pin w3.dev offset in
      let w4 = record w3 { dev = d4 } in
      if is_neg running
      then (running, record w { dev = d0 })
      else (if is_neg ret
          then (ret, w2)
          else (if is_neg taken
              then (taken, w3)
              else (if is_neg exported then (exported, w4) else (pos 0, take_pin w4 offset))))

  unfoldable pub gpio_chip_free : Kernel → ℕ → World D → ℕ → World D
  gpio_chip_free k jiffies w offset =
      let (running, d0) = pwm_check_device_motors_running_count a junk w.dev in
      let w1 = stop_motors k jiffies running (record w { dev = d0 }) in
      let (ret, reg, d2) = register_get a w1.dev px4io_page_gpio_exported 0 (junk ∷ []) 1 in
      let w2 = record w1 { dev = d2 } in
      let w3 =
        (rcio_gpio_force_update a
          (record w2 { gpio = on_pin gpio_set_pin_state_low offset w2.gpio })).1 in
      let w4 = (rcio_gpio_force_update a (record w3 { gpio = on_pin (λ _. 0) offset w3.gpio })).1 in
      let d5 = (gpio_unexport_gpio_pin w4.dev (get_or reg 0 0) offset).1 in
      if is_neg running
      then record w { dev = d0 }
      else (if is_neg ret then w2 else record w4 {
        dev = d5;
        gpio = pwmignore_do_unignore_pin offset (update_enqueue w4.gpio);
      })
