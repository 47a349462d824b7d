-- ===== src/Pwm/Setup.antt =====
-- rcio_hardware_init and rcio_pwm_probe (src/rcio_pwm.c).
use rcio_dkms.Base.{
  ℕ, zero, suc, ◌+◌, ◌*◌, Bool, true, false, ℤ, pos, is_neg, einval, e2big, enomem, enotconn, List,
  [], ◌∷◌, bit_and, bit_or, get_or, leb, ◌==◌, if◌then◌else◌,
}
use rcio_dkms.Adapter.{Adapter}
use rcio_dkms.Protocol.Regs.{
  px4io_page_setup, px4io_p_setup_features, px4io_p_setup_features_adv_freq_config,
  px4io_p_setup_arming, px4io_p_setup_arming_io_arm_ok, px4io_p_setup_arming_fmu_armed,
  px4io_p_setup_arming_always_pwm_enable, px4io_p_setup_pwm_rates, px4io_p_setup_pwm_altrate,
  px4io_p_setup_pwm_defaultrate, px4io_p_setup_force_safety_off, px4io_force_safety_magic,
  px4io_page_rc_config, px4io_p_rc_config_options_enabled, px4io_p_rc_config_options_reverse,
  px4io_p_rc_config_stride,
}
use rcio_dkms.Registers.{register_get, register_set, register_set_byte}
use rcio_dkms.State.{World, rcio_pwm_max_channels, rcio_pwm_timer_count}
use rcio_dkms.Pwm.Update.{set_grp, rcio_pwm_update_frequency}

pub record PwmOutputRcConfig : Type 0 where
  pub channel : ℕ
  pub rc_min : ℕ
  pub rc_trim : ℕ
  pub rc_max : ℕ
  pub rc_dz : ℕ
  pub rc_assignment : ℕ
  pub rc_reverse : Bool

-- `regs[6]`, in the order of PX4IO_P_RC_CONFIG_MIN to PX4IO_P_RC_CONFIG_OPTIONS.
unfoldable pub rc_config_regs : PwmOutputRcConfig → List ℕ
rc_config_regs c =
    c.rc_min
    ∷ c.rc_trim
    ∷ c.rc_max
    ∷ c.rc_dz
    ∷ c.rc_assignment
    ∷ (if c.rc_reverse
        then bit_or px4io_p_rc_config_options_enabled px4io_p_rc_config_options_reverse
        else px4io_p_rc_config_options_enabled)
    ∷ []

-- The initialiser of `config` names four fields; the others are 0.
unfoldable pub initial_rc_config : ℕ → PwmOutputRcConfig
initial_rc_config channel = record {
  channel = channel;
  rc_min = 900;
  rc_trim = 1500;
  rc_max = 2000;
  rc_dz = 10;
  rc_assignment = 0;
  rc_reverse = false;
}

-- `kzalloc_ok` and `added` are what kzalloc and pwmchip_add return.
unfoldable pub rcio_pwm_create_sysfs_handle : Bool → ℤ → ℤ
rcio_pwm_create_sysfs_handle kzalloc_ok added = if kzalloc_ok then added else enomem

module _ {D : Type 0} (a : Adapter D) where
  unfoldable pub rcio_pwm_safety_off : D → ℤ × D
  rcio_pwm_safety_off d =
      register_set_byte a d px4io_page_setup px4io_p_setup_force_safety_off px4io_force_safety_magic

  unfoldable pub pwm_set_initial_rc_channel_config : D → PwmOutputRcConfig → ℤ × D
  unfolding rc_config_regs
  pwm_set_initial_rc_channel_config d c =
      if leb rcio_pwm_max_channels c.channel
      then (e2big, d)
      else register_set a d px4io_page_rc_config (c.channel * px4io_p_rc_config_stride)
          (rc_config_regs c) px4io_p_rc_config_stride

  -- The loop over the channels from `channel` on, with `left` to go. A failure is only logged.
  unfoldable pub rc_config_from : ℕ → ℕ → D → D
  unfolding pwm_set_initial_rc_channel_config initial_rc_config
  rc_config_from zero channel d = d
  rc_config_from (suc left) channel d =
      rc_config_from left (channel + 1)
        (pwm_set_initial_rc_channel_config d (initial_rc_config channel)).1

  unfoldable pub pwm_set_initial_rc_config : D → ℤ × D
  unfolding rc_config_from
  pwm_set_initial_rc_config d = (pos 0, rc_config_from rcio_pwm_max_channels 0 d)

  -- The new way: all groups, from group `i` with `left` to go.
  unfoldable pub all_groups_from : ℕ → ℕ → World D → World D
  all_groups_from zero i w = w
  all_groups_from (suc left) i w =
      all_groups_from left (i + 1) (rcio_pwm_update_frequency a w (set_grp i))

  -- The old way: the rate map and the two rates. `ratemap` is 0xff.
  unfoldable pub old_rates : World D → ℤ × World D
  old_rates w =
      let (r1, d1) = register_set_byte a w.dev px4io_page_setup px4io_p_setup_pwm_rates 0xff in
      let (r2, d2) =
        register_set_byte a d1 px4io_page_setup px4io_p_setup_pwm_altrate (w.pwm.alt_frequency) in
      let (r3, d3) =
        register_set_byte a d2 px4io_page_setup px4io_p_setup_pwm_defaultrate
          (w.pwm.default_frequency) in
      if is_neg r1
      then (enotconn, record w { dev = d1 })
      else (if is_neg r2
          then (enotconn, record w { dev = d2 })
          else (if is_neg r3
              then (enotconn, record w { dev = d3 })
              else (pos 0, record w { dev = d3 })))

  -- The flags that rcio_hardware_init arms the coprocessor with.
  abbrev pub arming_flags : ℕ
  arming_flags =
      bit_or (bit_or px4io_p_setup_arming_io_arm_ok px4io_p_setup_arming_fmu_armed)
        px4io_p_setup_arming_always_pwm_enable

  unfoldable pub rcio_hardware_init : World D → ℤ × World D
  rcio_hardware_init w =
      let (r1, d1) = rcio_pwm_safety_off w.dev in
      let (r2, d2) = register_set_byte a d1 px4io_page_setup px4io_p_setup_arming arming_flags in
      let w2 = record w { dev = d2 } in
      let (r3, w3) =
        if w.pwm.adv_timer_config_supported
        then (pos 0, all_groups_from rcio_pwm_timer_count 0 w2)
        else old_rates w2 in
      let (r4, d4) = pwm_set_initial_rc_config w3.dev in
      if is_neg r1
      then (enotconn, record w { dev = d1 })
      else (if is_neg r2
          then (enotconn, w2)
          else (if is_neg r3
              then (r3, w3)
              else (if is_neg r4
                  then (einval, record w3 { dev = d4 })
                  else (pos 0, record w3 { dev = d4 }))))

  -- rcio_pwm_probe. `kzalloc_ok` and `added` are what kzalloc and pwmchip_add return; `junk` is
  -- what `setup_features` holds before the read, whose result is not looked at.
  unfoldable pub rcio_pwm_probe : ℕ → Bool → ℤ → World D → ℤ × World D
  rcio_pwm_probe junk kzalloc_ok added w =
      let created = rcio_pwm_create_sysfs_handle kzalloc_ok added in
      let (ret, reg, d1) =
        register_get a w.dev px4io_page_setup px4io_p_setup_features (junk ∷ []) 1 in
      let supported =
        if bit_and (get_or reg 0 0) px4io_p_setup_features_adv_freq_config == 0
        then false
        else true in
      if is_neg created
      then (created, w)
      else rcio_hardware_init
          (record w { dev = d1; pwm = record (w.pwm) { adv_timer_config_supported = supported } })
