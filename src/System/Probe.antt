-- ===== src/System/Probe.antt =====
-- The state that the two probes leave, from the variables as the module is loaded with them.
use rcio_dkms.Base.{
  ℕ, zero, suc, ◌+◌, ◌≡◌, refl, Bool, true, false, ℤ, pos, is_neg, eopnotsupp, enotconn, einval, [],
  ◌∷◌, arith, get_or, bit_and, replicate, ◌==◌, if◌then◌else◌,
}
use rcio_dkms.Adapter.{Adapter}
use rcio_dkms.Protocol.Regs.{
  px4io_page_gpio_exported, px4io_page_setup, px4io_p_setup_arming,
  px4io_p_setup_features_adv_freq_config, px4io_p_setup_features, px4io_p_setup_features_gpio,
}
use rcio_dkms.Registers.{register_get, register_set, register_set_byte}
use rcio_dkms.State.{World, initial_pwm, initial_gpio, rcio_pwm_timer_count}
use rcio_dkms.Pwm.Update.{set_grp, rcio_pwm_update_frequency}
use rcio_dkms.Pwm.Setup.{
  rcio_pwm_safety_off, arming_flags, pwm_set_initial_rc_config, rcio_pwm_create_sysfs_handle,
  all_groups_from, old_rates, rcio_hardware_init, rcio_pwm_probe,
}
use rcio_dkms.Pwm.Invariant.{PwmInv, initial_pwm-PwmInv}
use rcio_dkms.Pwm.Invariant.Steps.{set_grp-PwmInv}
use rcio_dkms.Gpio.Pin.{rcio_gpio_force_update}
use rcio_dkms.Gpio.Setup.{rcio_gpio_probe}
use rcio_dkms.Gpio.Invariant.{initial_gpio-GpioInv, cleared_states, set_updated}
use rcio_dkms.System.{WorldInv, Reach}
use rcio_dkms.System.Invariant.{force_update-WorldInv, Reach-WorldInv}
use rcio_dkms.Kernel.{Kernel}

-- The variables as they are loaded, on a device in any state.
abbrev pub loaded : {D : Type 0} → D → World D
loaded d = record { dev = d; pwm = initial_pwm; gpio = initial_gpio }

module _ {D : Type 0} (a : Adapter D) (k : Kernel) (junk : ℕ) where
  all_groups-PwmInv :
      (left i : ℕ) (w : World D) → PwmInv w.pwm → PwmInv (all_groups_from a left i w).pwm
  unfolding all_groups_from
  all_groups-PwmInv zero i w inv = inv
  all_groups-PwmInv (suc left) i w inv =
      all_groups-PwmInv left (i + 1) (rcio_pwm_update_frequency a w (set_grp i))
        (set_grp-PwmInv a w i inv)

  all_groups-gpio : (left i : ℕ) (w : World D) → (all_groups_from a left i w).gpio ≡ w.gpio
  unfolding all_groups_from rcio_pwm_update_frequency
  all_groups-gpio zero i w = refl
  all_groups-gpio (suc left) i w =
      all_groups-gpio left (i + 1) (rcio_pwm_update_frequency a w (set_grp i))

  old_rates-state :
      (w : World D) → let w' = (old_rates a w).1 in (w'.pwm ≡ w.pwm) × (w'.gpio ≡ w.gpio)
  unfolding old_rates
  old_rates-state w = ground arith

  if_result :
      (b : Bool) (x y : ℤ × World D) → WorldInv x.1 → WorldInv y.1 → WorldInv (if b then x else y).1
  if_result true x y hx hy = hx
  if_result false x y hx hy = hy

  hardware_init-WorldInv : (w : World D) → WorldInv w → WorldInv (rcio_hardware_init a w).1
  unfolding rcio_hardware_init
  hardware_init-WorldInv w inv =
      let (r1, d1) = rcio_pwm_safety_off a w.dev in
      let (r2, d2) =
        register_set_byte a d1 px4io_page_setup px4io_p_setup_arming (arming_flags a) in
      let w2 = record w { dev = d2 } in
      let w3 =
        if w.pwm.adv_timer_config_supported
        then (pos 0, all_groups_from a rcio_pwm_timer_count 0 w2)
        else old_rates a w2 in
      let rated : WorldInv w3.1 =
        if_result w.pwm.adv_timer_config_supported
          (pos 0, all_groups_from a rcio_pwm_timer_count 0 w2) (old_rates a w2)
          (all_groups-PwmInv 4 0 w2 inv.0, rw (all_groups-gpio 4 0 w2) inv.1)
          (rw ((old_rates-state w2).0, (old_rates-state w2).1) inv) in
      let (r4, d4) = pwm_set_initial_rc_config a w3.1.dev in
      if_result (is_neg r1) (enotconn, record w { dev = d1 }) _ inv
        (if_result (is_neg r2) (enotconn, w2) _ inv
          (if_result (is_neg w3.0) (w3.0, w3.1) _ rated
            (if_result (is_neg r4) (einval, record (w3.1) { dev = d4 })
              (pos 0, record (w3.1) { dev = d4 }) rated rated)))

  pub pwm_probe-WorldInv :
      (d : D) (kzalloc_ok : Bool) (added : ℤ)
      → WorldInv (rcio_pwm_probe a junk kzalloc_ok added (loaded d)).1
  unfolding rcio_pwm_probe initial_pwm
  pwm_probe-WorldInv d kzalloc_ok added =
      let created = rcio_pwm_create_sysfs_handle kzalloc_ok added in
      let (ret, reg, d1) = register_get a d px4io_page_setup px4io_p_setup_features (junk ∷ []) 1 in
      let supported =
        if bit_and (get_or reg 0 0) px4io_p_setup_features_adv_freq_config == 0
        then false
        else true in
      let ready = record (loaded d) {
        dev = d1;
        pwm = record initial_pwm { adv_timer_config_supported = supported };
      } in
      if_result (is_neg created) (created, loaded d) (rcio_hardware_init a ready)
        (initial_pwm-PwmInv false, initial_gpio-GpioInv)
        (hardware_init-WorldInv ready (initial_pwm-PwmInv supported, initial_gpio-GpioInv))

  pub gpio_probe-WorldInv :
      (created added : ℤ) (w : World D)
      → WorldInv w
      → WorldInv (rcio_gpio_probe a junk created added w).1
  unfolding rcio_gpio_probe
  gpio_probe-WorldInv created added w inv =
      let (ret, reg, d1) =
        register_get a w.dev px4io_page_setup px4io_p_setup_features (junk ∷ []) 1 in
      let w1 = record w { dev = d1; gpio = record (w.gpio) { gpio_supported = true } } in
      let cleared = record w1 { gpio = record (w1.gpio) { pin_states = replicate 16 0 } } in
      let w2 = (rcio_gpio_force_update a cleared).1 in
      let kept : WorldInv w2 =
        force_update-WorldInv a k junk cleared (inv.0, cleared_states w1.gpio inv.1) in
      let (ret', d3) = register_set a w2.dev px4io_page_gpio_exported 0 (0 ∷ []) 1 in
      let w3 = record w2 { dev = d3 } in
      if_result (bit_and (get_or reg 0 0) px4io_p_setup_features_gpio == 0)
        (eopnotsupp, record w { dev = d1; gpio = record (w.gpio) { gpio_supported = false } }) _ inv
        (if_result (is_neg created) (pos 0, w1) _ inv
          (if_result (is_neg added) (pos 0, w1) _ inv
            (if_result (is_neg ret') (pos 0, w3)
              (pos 1, record w3 { gpio = record (w3.gpio) { pin_states_updated = 1 } }) kept
              (kept.0, set_updated w3.gpio 1 (omega arith) kept.1))))

  -- After the two probes of a module just loaded, whatever they return, any calls in any order
  -- leave every output a 16-bit word, every array at its size, the frequency of each group that is
  -- not marked at the one last asked of it, the marks of the two ways apart, and the pins'
  -- registers and the mask 16-bit words.
  pub probed-WorldInv :
      (d : D) (kzalloc_ok : Bool) (added created gpio_added : ℤ) {w : World D}
      → Reach a k junk
          (rcio_gpio_probe a junk created gpio_added
            (rcio_pwm_probe a junk kzalloc_ok added (loaded d)).1).1
          w
      → WorldInv w
  probed-WorldInv d kzalloc_ok added created gpio_added calls =
      Reach-WorldInv a k junk calls
        (gpio_probe-WorldInv created gpio_added _ (pwm_probe-WorldInv d kzalloc_ok added))
