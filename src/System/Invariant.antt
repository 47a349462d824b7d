-- ===== src/System/Invariant.antt =====
-- The calls of System.antt and the invariant of the outputs and the pins.
use rcio_dkms.Base.{ℕ, Bool, ℤ, true, false, is_neg, if◌then◌else◌, get_or, pos, [], ◌∷◌, arith}
use rcio_dkms.Adapter.{Adapter}
use rcio_dkms.Kernel.{Kernel}
use rcio_dkms.Protocol.Pins.{
  gpio_set_pin_gpio_enable, gpio_set_pin_state_low, gpio_set_pin_direction_output,
}
use rcio_dkms.State.{World, Gpio}
use rcio_dkms.Pwm.Update.{rcio_pwm_force_zero_duty, rcio_pwm_force_update_pin}
use rcio_dkms.Pwm.Update.Pins.{rcio_pwm_update-gpio}
use rcio_dkms.Pwm.Channel.{
  is_running, rcio_pwm_enable, rcio_pwm_disable, pwm_check_device_motors_running_count,
}
use rcio_dkms.Pwm.Channel.Laws.{
  free-state, rcio_pwm_request-state, rcio_pwm_disable-PwmInv, rcio_pwm_free-PwmInv,
}
use rcio_dkms.Pwm.Invariant.Steps.{rcio_pwm_update-PwmInv, rcio_pwm_force_zero_duty-PwmInv}
use rcio_dkms.Pwm.Invariant.Config.{rcio_pwm_config-PwmInv}
use rcio_dkms.Gpio.Pin.{
  on_pin, update_enqueue, pwmignore_do_unignore_pin, rcio_gpio_force_update, gpio_direction_input,
  gpio_direction_output, reset_store,
}
use rcio_dkms.Registers.{register_get}
use rcio_dkms.Protocol.Regs.{px4io_page_gpio_exported, px4io_page_pwm_exported}
use rcio_dkms.Gpio.Chip.{
  gpio_export_gpio_pin, gpio_unexport_gpio_pin, gpio_chip_request, gpio_chip_free, stop_motors,
  take_pin, take_from_pwm,
}
use rcio_dkms.Gpio.Laws.{rcio_gpio_force_update_lem, rcio_gpio_update-pwm}
use rcio_dkms.Gpio.Invariant.{
  on_pin-GpioInv, set_bit_m-IsWord, clear_bit_m-IsWord, update_enqueue-GpioInv,
  pwmignore_do_ignore_pin-GpioInv, pwmignore_do_unignore_pin-GpioInv, pwmignore_store-GpioInv,
  gpio_chip_set-GpioInv, rcio_gpio_update-GpioInv, reset_store-GpioInv,
  gpio_direction_input-GpioInv, gpio_direction_output-GpioInv,
}
use rcio_dkms.System.{
  WorldInv, Step, Reach, pwm_update, gpio_update, pwm_config, pwm_enable, pwm_disable, pwm_request,
  pwm_free, chip_request, chip_free, chip_set, direction_input, direction_output, store_pwmignore,
  store_reset, here, next,
}

module _ {D : Type 0} (a : Adapter D) (k : Kernel) (junk : ℕ) where
  pub force_update-WorldInv : (w : World D) → WorldInv w → WorldInv (rcio_gpio_force_update a w).1
  force_update-WorldInv w inv = rw (rcio_gpio_force_update_lem a w) inv

  if_WorldInv : (b : Bool) (v w : World D) → WorldInv v → WorldInv w → WorldInv (if b then v else w)
  if_WorldInv true v w hv hw = hv
  if_WorldInv false v w hv hw = hw

  pub if_result :
      (b : Bool) (x y : ℤ × World D) → WorldInv x.1 → WorldInv y.1 → WorldInv (if b then x else y).1
  if_result true x y hx hy = hx
  if_result false x y hx hy = hy

  stop_motors-WorldInv :
      (t : ℕ) (running : ℤ) (w : World D) → WorldInv w → WorldInv (stop_motors a junk k t running w)
  unfolding stop_motors
  stop_motors-WorldInv t running w inv =
      if_WorldInv (is_running running) _ _
        (
          rcio_pwm_force_zero_duty-PwmInv a k t w inv.0,
          unfold rcio_pwm_force_zero_duty in rw (rcio_pwm_update-gpio a k t _) inv.1,
        )
        inv

  take_pin-WorldInv : (offset : ℕ) (w : World D) → WorldInv w → WorldInv (take_pin a junk w offset)
  unfolding take_pin
  take_pin-WorldInv offset w inv = (w2.0, update_enqueue-GpioInv _ w2.1)
    where
      enabled : Gpio
      enabled = on_pin gpio_set_pin_gpio_enable offset (on_pin (λ _. 0x0000) offset w.gpio)

      w1 : WorldInv (rcio_gpio_force_update a (record w { gpio = enabled })).1
      w1 =
          force_update-WorldInv (record w { gpio = enabled })
            (
              inv.0,
              on_pin-GpioInv gpio_set_pin_gpio_enable offset _ (set_bit_m-IsWord 15)
                  (on_pin-GpioInv (λ _. 0x0000) offset w.gpio (λ x. omega arith) inv.1),
            )

      after : World D
      after = (rcio_gpio_force_update a (record w { gpio = enabled })).1

      low : Gpio
      low =
          on_pin gpio_set_pin_state_low offset
            (on_pin gpio_set_pin_direction_output offset after.gpio)

      w2 : WorldInv (rcio_gpio_force_update a (record after { gpio = low })).1
      w2 =
          force_update-WorldInv (record after { gpio = low })
            (
              w1.0,
              on_pin-GpioInv gpio_set_pin_state_low offset _ (clear_bit_m-IsWord 0) (
                  on_pin-GpioInv gpio_set_pin_direction_output offset after.gpio
                    (clear_bit_m-IsWord 14) w1.1),
            )

  take_from_pwm-WorldInv :
      (exported offset : ℕ) (w : World D)
      → WorldInv w
      → WorldInv (take_from_pwm a junk w exported offset).1
  unfolding take_from_pwm
  take_from_pwm-WorldInv exported offset w inv =
      if_result _ (_, w) _ inv (inv.0, pwmignore_do_ignore_pin-GpioInv offset w.gpio inv.1)

  chip_request-WorldInv :
      (t offset : ℕ) (w : World D) → WorldInv w → WorldInv (gpio_chip_request a junk k t w offset).1
  unfolding gpio_chip_request
  chip_request-WorldInv t offset w inv =
      let (running, d0) = pwm_check_device_motors_running_count a junk w.dev in
      let w1 = stop_motors a junk k t running (record w { dev = d0 }) in
      let stopped : WorldInv w1 = stop_motors-WorldInv t running (record w { dev = d0 }) inv in
      let (ret, reg, d2) = register_get a w1.dev px4io_page_pwm_exported 0 (junk ∷ []) 1 in
      let w3 = take_from_pwm a junk (record w1 { dev = d2 }) (get_or reg 0 0) offset in
      let taken : WorldInv w3.1 =
        take_from_pwm-WorldInv (get_or reg 0 0) offset (record w1 { dev = d2 }) stopped in
      let (exported, d4) = gpio_export_gpio_pin a junk w3.1.dev offset in
      if_result (is_neg running) (running, record w { dev = d0 }) _ inv
        (if_result (is_neg ret) (ret, record w1 { dev = d2 }) _ stopped
          (if_result (is_neg w3.0) (w3.0, w3.1) _ taken
            (if_result (is_neg exported) (exported, record (w3.1) { dev = d4 })
              (pos 0, take_pin a junk (record (w3.1) { dev = d4 }) offset) taken
              (take_pin-WorldInv offset (record (w3.1) { dev = d4 }) taken))))

  chip_free-WorldInv :
      (t offset : ℕ) (w : World D) → WorldInv w → WorldInv (gpio_chip_free a junk k t w offset)
  unfolding gpio_chip_free
  chip_free-WorldInv t offset w inv =
      let (running, d0) = pwm_check_device_motors_running_count a junk w.dev in
      let w1 = stop_motors a junk k t running (record w { dev = d0 }) in
      let stopped : WorldInv w1 = stop_motors-WorldInv t running (record w { dev = d0 }) inv in
      let (ret, reg, d2) = register_get a w1.dev px4io_page_gpio_exported 0 (junk ∷ []) 1 in
      let low = record w1 { dev = d2; gpio = on_pin gpio_set_pin_state_low offset w1.gpio } in
      let w3 = (rcio_gpio_force_update a low).1 in
      let put_low : WorldInv w3 = force_update-WorldInv low (
        stopped.0,
        on_pin-GpioInv gpio_set_pin_state_low offset w1.gpio (clear_bit_m-IsWord 0) stopped.1,
      ) in
      let zeroed = record w3 { gpio = on_pin (λ _. 0) offset w3.gpio } in
      let w4 = (rcio_gpio_force_update a zeroed).1 in
      let cleared : WorldInv w4 =
        force_update-WorldInv zeroed
          (put_low.0, on_pin-GpioInv (λ _. 0) offset w3.gpio (λ x. omega arith) put_low.1) in
      let d5 = (gpio_unexport_gpio_pin a junk w4.dev (get_or reg 0 0) offset).1 in
      let freed = record w4 {
        dev = d5;
        gpio = pwmignore_do_unignore_pin offset (update_enqueue w4.gpio);
      } in
      if_WorldInv (is_neg running) (record w { dev = d0 }) _ inv
        (if_WorldInv (is_neg ret) (record w1 { dev = d2 }) freed stopped
          (
            cleared.0,
            pwmignore_do_unignore_pin-GpioInv offset _ (update_enqueue-GpioInv w4.gpio cleared.1),
          ))

  -- Every call keeps the invariant.
  pub Step-WorldInv : {w w' : World D} → Step a k junk w w' → WorldInv w → WorldInv w'
  Step-WorldInv (pwm_update t w) inv =
      (rcio_pwm_update-PwmInv a k t w inv.0, rw (rcio_pwm_update-gpio a k t w) inv.1)
  Step-WorldInv (gpio_update w) inv =
      (rw (rcio_gpio_update-pwm a w) inv.0, rcio_gpio_update-GpioInv a w inv.1)
  Step-WorldInv (pwm_config t pin duty_ns period_ns w) inv =
      (rcio_pwm_config-PwmInv k t w.gpio w.pwm pin duty_ns period_ns inv.0, inv.1)
  Step-WorldInv (pwm_enable w) inv = unfold rcio_pwm_enable in inv
  Step-WorldInv (pwm_disable pin w) inv = (
    rcio_pwm_disable-PwmInv a junk w pin inv.0,
    unfold rcio_pwm_disable rcio_pwm_force_update_pin in inv.1,
  )
  Step-WorldInv (pwm_request pin w) inv =
      rw ((rcio_pwm_request-state a junk w pin).0, (rcio_pwm_request-state a junk w pin).1) inv
  Step-WorldInv (pwm_free pin w) inv =
      (rcio_pwm_free-PwmInv a junk w pin inv.0, rw ((free-state a junk w pin).1) inv.1)
  Step-WorldInv (chip_request t offset w) inv = chip_request-WorldInv t offset w inv
  Step-WorldInv (chip_free t offset w) inv = chip_free-WorldInv t offset w inv
  Step-WorldInv (chip_set offset value w) inv =
      (inv.0, gpio_chip_set-GpioInv offset value w.gpio inv.1)
  Step-WorldInv (direction_input offset w) inv = (
    unfold gpio_direction_input in rw (rcio_gpio_force_update_lem a _) inv.0,
    gpio_direction_input-GpioInv a w offset inv.1,
  )
  Step-WorldInv (direction_output offset value w) inv = (
    unfold gpio_direction_output in rw (rcio_gpio_force_update_lem a _) inv.0,
    gpio_direction_output-GpioInv a w offset value inv.1,
  )
  Step-WorldInv (store_pwmignore parsed count w) inv =
      (inv.0, pwmignore_store-GpioInv parsed count w.gpio inv.1)
  Step-WorldInv (store_reset count w) inv =
      (unfold reset_store in inv.0, reset_store-GpioInv a w count inv.1)

  -- Whatever calls are made, in whatever order, the invariant holds after them.
  pub Reach-WorldInv : {s w : World D} → Reach a k junk s w → WorldInv s → WorldInv w
  Reach-WorldInv here inv = inv
  Reach-WorldInv (next r step) inv = Step-WorldInv step (Reach-WorldInv r inv)
