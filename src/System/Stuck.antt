-- ===== src/System/Stuck.antt =====
-- The calls of System.antt after an rcio_pwm_config that came in the middle of rcio_pwm_probe
-- (src/rcio_pwm.c).
use rcio_dkms.Base.{
  ℕ, ◌+◌, ◌%◌, ◌/◌, ◌^◌, ◌≡◌, ◌≢◌, ◌⊎◌, refl, ap, ◌∙◌, true, false, ◌||◌, ℤ, is_neg, [], ◌∷◌, arith,
  bit_and, get_or, ◌==◌,
}
use rcio_dkms.Adapter.{Adapter}
use rcio_dkms.Kernel.{Kernel}
use rcio_dkms.State.{World}
use rcio_dkms.Protocol.Regs.{px4io_page_gpio_exported, px4io_page_pwm_exported}
use rcio_dkms.Registers.{register_get}
use rcio_dkms.Pwm.Update.{rcio_pwm_update, rcio_pwm_force_zero_duty, rcio_pwm_force_update_pin}
use rcio_dkms.Pwm.Channel.{
  rcio_pwm_enable, rcio_pwm_disable, rcio_pwm_free, pwm_check_device_motors_running_count,
}
use rcio_dkms.Pwm.Channel.Laws.{rcio_pwm_request-state}
use rcio_dkms.Protocol.Regs.{
  px4io_page_setup, px4io_p_setup_features, px4io_p_setup_features_adv_freq_config,
}
use rcio_dkms.Pwm.Setup.{rcio_pwm_probe}
use rcio_dkms.Pwm.Config.{config_blocked, rcio_pwm_config}
use rcio_dkms.Pwm.Probing.{
  Unwritten, features_read, features_read-Stuck, probe_in_two, rcio_pwm_config_marks,
  rcio_pwm_update-Unwritten, Stuck, rcio_pwm_update-Stuck, rcio_pwm_config-Stuck,
}
use rcio_dkms.Protocol.Pins.{gpio_set_pin_state_low}
use rcio_dkms.Gpio.Pin.{
  on_pin, rcio_gpio_force_update, gpio_direction_input, gpio_direction_output, reset_store,
}
use rcio_dkms.Gpio.Laws.{rcio_gpio_force_update_lem, rcio_gpio_update-pwm}
use rcio_dkms.Gpio.Chip.{
  gpio_export_gpio_pin, gpio_chip_request, gpio_chip_free, stop_motors, take_pin, take_from_pwm,
}
use rcio_dkms.System.{
  Step, Reach, pwm_update, gpio_update, pwm_config, pwm_enable, pwm_disable, pwm_request, pwm_free,
  chip_request, chip_free, chip_set, direction_input, direction_output, store_pwmignore,
  store_reset, here, next,
}

module _ {D : Type 0} (a : Adapter D) (k : Kernel) (junk : ℕ) where
  stop_motors-Stuck :
      (t : ℕ) (running : ℤ) (w : World D)
      → Stuck w.pwm
      → Stuck (stop_motors a junk k t running w).pwm
  unfolding stop_motors rcio_pwm_force_zero_duty
  stop_motors-Stuck t running w h = ground (
    arith,
    rcio_pwm_update-Stuck a k t
        (record w {
          pwm = record (w.pwm) {
            force_pwmzero_countdown = (w.pwm.force_pwmzero_countdown + 50) % 2 ^ 32;
          };
        })
        h,
  )

  force_update-pwm : (w : World D) → (rcio_gpio_force_update a w).1.pwm ≡ w.pwm
  force_update-pwm w = ap (λ r. r.1.pwm) (rcio_gpio_force_update_lem a w)

  take_pin-pwm : (offset : ℕ) (w : World D) → (take_pin a junk w offset).pwm ≡ w.pwm
  unfolding take_pin
  take_pin-pwm offset w = force_update-pwm _ ∙ force_update-pwm _

  take_from_pwm-pwm :
      (exported offset : ℕ) (w : World D) → (take_from_pwm a junk w exported offset).1.pwm ≡ w.pwm
  unfolding take_from_pwm
  take_from_pwm-pwm exported offset w = ground arith

  chip_request-Stuck :
      (t offset : ℕ) (w : World D)
      → Stuck w.pwm
      → Stuck (gpio_chip_request a junk k t w offset).1.pwm
  unfolding gpio_chip_request
  chip_request-Stuck t offset w h =
      let (running, d0) = pwm_check_device_motors_running_count a junk w.dev in
      let w1 = stop_motors a junk k t running (record w { dev = d0 }) in
      let (ret, reg, d2) = register_get a w1.dev px4io_page_pwm_exported 0 (junk ∷ []) 1 in
      let w3 = (take_from_pwm a junk (record w1 { dev = d2 }) (get_or reg 0 0) offset).1 in
      let d4 = (gpio_export_gpio_pin a junk w3.dev offset).1 in
      ground (
        arith,
        stop_motors-Stuck t running (record w { dev = d0 }) h,
        take_from_pwm-pwm (get_or reg 0 0) offset (record w1 { dev = d2 }),
        take_pin-pwm offset (record w3 { dev = d4 }),
      )

  chip_free-Stuck :
      (t offset : ℕ) (w : World D) → Stuck w.pwm → Stuck (gpio_chip_free a junk k t w offset).pwm
  unfolding gpio_chip_free
  chip_free-Stuck t offset w h =
      let (running, d0) = pwm_check_device_motors_running_count a junk w.dev in
      let w1 = stop_motors a junk k t running (record w { dev = d0 }) in
      let (ret, reg, d2) = register_get a w1.dev px4io_page_gpio_exported 0 (junk ∷ []) 1 in
      let low = record w1 { dev = d2; gpio = on_pin gpio_set_pin_state_low offset w1.gpio } in
      let w3 = (rcio_gpio_force_update a low).1 in
      ground (
        arith,
        stop_motors-Stuck t running (record w { dev = d0 }) h,
        force_update-pwm low,
        force_update-pwm (record w3 { gpio = on_pin (λ _. 0) offset w3.gpio }),
      )

  Step-Stuck : {w w' : World D} → Step a k junk w w' → Stuck w.pwm → Stuck w'.pwm
  unfolding rcio_pwm_enable rcio_pwm_disable rcio_pwm_force_update_pin rcio_pwm_free
      gpio_direction_input gpio_direction_output reset_store
  Step-Stuck (pwm_update t w) h = rcio_pwm_update-Stuck a k t w h
  Step-Stuck (gpio_update w) h = rw (rcio_gpio_update-pwm a w) h
  Step-Stuck (pwm_config t pin duty_ns period_ns w) h =
      rcio_pwm_config-Stuck a k t w.gpio w.pwm pin duty_ns period_ns h
  Step-Stuck (pwm_enable w) h = h
  Step-Stuck (pwm_disable pin w) h = h
  Step-Stuck (pwm_request pin w) h = rw ((rcio_pwm_request-state a junk w pin).0) h
  Step-Stuck (pwm_free pin w) h = ground arith
  Step-Stuck (chip_request t offset w) h = chip_request-Stuck t offset w h
  Step-Stuck (chip_free t offset w) h = chip_free-Stuck t offset w h
  Step-Stuck (chip_set offset value w) h = h
  Step-Stuck (direction_input offset w) h = rw (rcio_gpio_force_update_lem a _) h
  Step-Stuck (direction_output offset value w) h = rw (rcio_gpio_force_update_lem a _) h
  Step-Stuck (store_pwmignore parsed count w) h = h
  Step-Stuck (store_reset count w) h = h

  Reach-Stuck : {s w : World D} → Reach a k junk s w → Stuck s.pwm → Stuck w.pwm
  Reach-Stuck here h = h
  Reach-Stuck (next r step) h = Step-Stuck step (Reach-Stuck r h)

  -- While the outputs are configured the old way, with the chip allocated and added, a call of
  -- rcio_pwm_config for pin 0 or 4 comes between pwmchip_add and what rcio_pwm_probe does behind
  -- it, is not blocked, has a duty and asks for a frequency other than the one of the first eight
  -- outputs; then the rest of the probe, on a device with the advanced configuration; then, with
  -- the device and the pins in any state, any calls of the kernel and the worker, in any order:
  -- whatever the probe returns, every rcio_pwm_update from there on sends the device nothing, or 16
  -- zeros for the outputs, or one rate of a group, and never the values that are asked for. The
  -- probe is made of the two parts.
  pub outputs_stuck :
      (t pin duty_ns period_ns t' : ℕ) (added : ℤ) (w s : World D) {w' : World D}
      → let w1 = record w { pwm = (rcio_pwm_config k t w.gpio w.pwm pin duty_ns period_ns).1 } in
        is_neg added ≡ false
        → w.pwm.adv_timer_config_supported ≡ false
        → config_blocked w.gpio w.pwm pin duty_ns ≡ false
        → ((pin ≡ 0) ⊎ (pin ≡ 4))
        → duty_ns ≢ 0
        → 1_000_000_000 / period_ns % 2 ^ 16 ≢ w.pwm.alt_frequency
        → (bit_and
              (get_or
                (register_get a w.dev px4io_page_setup px4io_p_setup_features (junk ∷ []) 1).1
                0
                0)
              px4io_p_setup_features_adv_freq_config
            == 0)
          ≡ false
        → s.pwm ≡ (features_read a junk w1).1.pwm
        → Reach a k junk s w'
        → (rcio_pwm_probe a junk true added w ≡ features_read a junk w)
          × Unwritten a k w'.dev (rcio_pwm_update a k t' w').1.dev
  outputs_stuck t pin duty_ns period_ns t' added w s {w'} taken old free control on other new same
        run =
      let p1 = (rcio_pwm_config k t w.gpio w.pwm pin duty_ns period_ns).1 in
      let marked : (p1.alt_frequency_updated || p1.default_frequency_updated) ≡ true =
        rw (rcio_pwm_config_marks k t w.gpio w.pwm pin duty_ns period_ns old free control on other)
          refl in
      let start : Stuck s.pwm =
        rw same (features_read-Stuck a junk (record w { pwm = p1 }) new marked) in
      (
        probe_in_two a junk added w taken,
        rcio_pwm_update-Unwritten a k t' w' (Reach-Stuck run start),
      )
