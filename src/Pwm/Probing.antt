-- ===== src/Pwm/Probing.antt =====
-- rcio_pwm_probe (src/rcio_pwm.c) and a call of rcio_pwm_config between pwmchip_add, from which on
-- the kernel may call, and the read of the features behind it.
use rcio_dkms.Base.{
  ℕ, zero, suc, ◌+◌, ◌%◌, ◌/◌, ◌^◌, ◌≡◌, ◌≢◌, ◌⊎◌, inl, inr, refl, Bool, true, false, not, ◌||◌, ℤ,
  is_neg, List, [], ◌∷◌, arith, bit_and, get_or, replicate, ◌==◌, if◌then◌else◌, Option, none, some,
  if_cases,
}
use mathlib.Core.Option.{map as map_option}
use rcio_dkms.Adapter.{Adapter}
use rcio_dkms.Kernel.{Kernel}
use rcio_dkms.Protocol.Regs.{
  px4io_page_setup, px4io_p_setup_arming, px4io_p_setup_features,
  px4io_p_setup_features_adv_freq_config, px4io_page_direct_pwm, px4io_p_setup_pwm_group1_rate,
}
use rcio_dkms.Registers.{register_get, register_set, register_set_byte}
use rcio_dkms.State.{World, Pwm, Gpio}
use rcio_dkms.Pwm.Setup.{
  rcio_pwm_create_sysfs_handle, rcio_pwm_safety_off, arming_flags, rcio_pwm_probe,
  rcio_hardware_init, all_groups_from, old_rates,
}
use rcio_dkms.Pwm.Update.{
  first_required, rcio_pwm_update, rcio_pwm_update_frequency, set_grp, arm, zero_countdown,
  rcio_set_zero_values, finish_update, pending_frequency, after_frequency, clear_values,
  update_group, some_freq_updated, any_required,
}
use rcio_dkms.Pwm.Config.{
  rcio_pwm_config, config_new_way, config_old_way, config_blocked, should_change_freq_new_way,
  should_change_freq_old_way, store_duty, print_freqs_error,
}

-- The outputs are configured the new way, and a rate of the old way is marked.
abbrev pub Stuck : Pwm → Type 0
Stuck p =
    (p.adv_timer_config_supported ≡ true)
    × ((p.alt_frequency_updated || p.default_frequency_updated) ≡ true)

module _ {D : Type 0} (a : Adapter D) (junk : ℕ) where
  -- What the probe does behind pwmchip_add.
  unfoldable pub features_read : World D → ℤ × World D
  features_read w =
      let (ret, reg, d1) =
        register_get a w.dev px4io_page_setup px4io_p_setup_features (junk ∷ []) 1 in
      let supported =
        if bit_and (get_or reg 0 0) px4io_p_setup_features_adv_freq_config == 0
        then false
        else true in
      rcio_hardware_init a
        (record w { dev = d1; pwm = record (w.pwm) { adv_timer_config_supported = supported } })

  pub probe_in_two :
      (added : ℤ) (w : World D)
      → is_neg added ≡ false
      → rcio_pwm_probe a junk true added w ≡ features_read w
  unfolding rcio_pwm_probe features_read rcio_pwm_create_sysfs_handle
  probe_in_two added w taken = rw taken refl

  all_groups-Stuck :
      (left i : ℕ) (w : World D) → Stuck w.pwm → Stuck (all_groups_from a left i w).pwm
  unfolding all_groups_from rcio_pwm_update_frequency
  all_groups-Stuck zero i w h = h
  all_groups-Stuck (suc left) i w h =
      all_groups-Stuck left (i + 1) (rcio_pwm_update_frequency a w (set_grp i)) h

  pub hardware_init-Stuck : (w : World D) → Stuck w.pwm → Stuck (rcio_hardware_init a w).1.pwm
  unfolding rcio_hardware_init old_rates
  hardware_init-Stuck w h =
      let d1 = (rcio_pwm_safety_off a w.dev).1 in
      let d2 = (register_set_byte a d1 px4io_page_setup px4io_p_setup_arming (arming_flags a)).1 in
      ground (arith, all_groups-Stuck 4 0 (record w { dev = d2 }) h)

  -- The features are those of the new way.
  pub features_read-Stuck :
      (w : World D)
      → (bit_and
            (get_or
              (register_get a w.dev px4io_page_setup px4io_p_setup_features (junk ∷ []) 1).1
              0
              0)
            px4io_p_setup_features_adv_freq_config
          == 0)
        ≡ false
      → (w.pwm.alt_frequency_updated || w.pwm.default_frequency_updated) ≡ true
      → Stuck (features_read w).1.pwm
  unfolding features_read
  features_read-Stuck w new marked =
      let (ret, reg, d1) =
        register_get a w.dev px4io_page_setup px4io_p_setup_features (junk ∷ []) 1 in
      rw new (
        hardware_init-Stuck
          (record w { dev = d1; pwm = record (w.pwm) { adv_timer_config_supported = true } })
          (refl, marked))

-- The old way marks the rate of the first eight outputs.
pub rcio_pwm_config_marks :
    (k : Kernel) (t : ℕ) (g : Gpio) (p : Pwm) (pin duty_ns period_ns : ℕ)
    → p.adv_timer_config_supported ≡ false
    → config_blocked g p pin duty_ns ≡ false
    → ((pin ≡ 0) ⊎ (pin ≡ 4))
    → duty_ns ≢ 0
    → 1_000_000_000 / period_ns % 2 ^ 16 ≢ p.alt_frequency
    → (rcio_pwm_config k t g p pin duty_ns period_ns).1.alt_frequency_updated ≡ true
unfolding rcio_pwm_config config_old_way should_change_freq_old_way store_duty
rcio_pwm_config_marks k t g p pin duty_ns period_ns old free control on other = ground arith

module _ {D : Type 0} (a : Adapter D) (k : Kernel) where
  -- The outputs are not written: the device is left alone, or gets zeros, or the rate of a group.
  abbrev pub Unwritten : D → D → Type 0
  Unwritten d d' =
      (d' ≡ d)
      ⊎ (d' ≡ (register_set a d px4io_page_direct_pwm 0 (replicate 16 0) 16).1)
      ⊎ ((i : ℕ) × (rate : ℕ) × (d'
            ≡ (register_set_byte a d px4io_page_setup (px4io_p_setup_pwm_group1_rate + i) rate).1))

  pub rcio_pwm_update-Stuck :
      (t : ℕ) (w : World D) → Stuck w.pwm → Stuck (rcio_pwm_update a k t w).1.pwm
  unfolding rcio_pwm_update arm clear_values rcio_pwm_update_frequency pending_frequency
      after_frequency finish_update update_group zero_countdown rcio_set_zero_values
  rcio_pwm_update-Stuck t w h = ground arith

  pub rcio_pwm_config-Stuck :
      (t : ℕ) (g : Gpio) (p : Pwm) (pin duty_ns period_ns : ℕ)
      → Stuck p
      → Stuck (rcio_pwm_config k t g p pin duty_ns period_ns).1
  unfolding rcio_pwm_config config_new_way should_change_freq_new_way store_duty print_freqs_error
  rcio_pwm_config-Stuck t g p pin duty_ns period_ns h = ground arith

  any_required-true : (rs : List Bool) → any_required rs true ≡ true
  unfolding any_required
  any_required-true [] = refl
  any_required-true (r ∷ rs) = any_required-true rs

  some_updated : (p : Pwm) → Stuck p → some_freq_updated p ≡ true
  unfolding some_freq_updated
  some_updated p h = rw (h.1) (any_required-true p.frequencies_update_required)

  arm-Stuck : (t : ℕ) (p : Pwm) → Stuck p → Stuck (arm k t p)
  unfolding arm
  arm-Stuck t p h = ground arith

  finish-Unwritten : (w : World D) → (finish_update a w true).1.dev ≡ w.dev
  unfolding finish_update
  finish-Unwritten w = ground arith

  after-Unwritten :
      (o : Option ℕ) (w : World D)
      → Unwritten w.dev (after_frequency a (map_option (update_group a w) o) w true).1.dev
  unfolding after_frequency update_group rcio_pwm_update_frequency
  after-Unwritten none w = inl (finish-Unwritten w)
  after-Unwritten (some i) w = inr (inr (i, get_or w.pwm.new_frequencies i 0, refl))

  pending_groups :
      (w : World D)
      → w.pwm.adv_timer_config_supported ≡ true
      → pending_frequency a w
        ≡ map_option (update_group a w) (first_required w.pwm.frequencies_update_required 0)
  unfolding pending_frequency
  pending_groups w new = rw new refl

  pub rcio_pwm_update-Unwritten :
      (t : ℕ) (w : World D) → Stuck w.pwm → Unwritten w.dev (rcio_pwm_update a k t w).1.dev
  unfolding rcio_pwm_update clear_values rcio_pwm_update_frequency
  rcio_pwm_update-Unwritten t w h =
      let w1 = record w { pwm = arm k t w.pwm } in
      rw (some_updated w.pwm h, pending_groups w1 (arm-Stuck t w.pwm h).0)
        (if_cases (λ r. Unwritten w.dev r.1.dev) w1.pwm.armed
          (if not w1.pwm.freq_update_noticed
            then (true, clear_values a w1)
            else after_frequency a
                (map_option (update_group a w1)
                  (first_required w1.pwm.frequencies_update_required 0))
                w1 true)
          (finish_update a w1 true)
          (λ _.
            if_cases (λ r. Unwritten w.dev r.1.dev) (not w1.pwm.freq_update_noticed)
              (true, clear_values a w1)
              (after_frequency a
                (map_option (update_group a w1)
                  (first_required w1.pwm.frequencies_update_required 0))
                w1 true)
              (λ _. inr (inl refl))
              (λ _. after-Unwritten (first_required w1.pwm.frequencies_update_required 0) w1))
          (λ _. inl (finish-Unwritten w1)))
