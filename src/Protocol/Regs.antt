-- ===== src/Protocol/Regs.antt =====
-- The pages, registers and flags of src/protocol.h that the driver names, under its names.
use rcio_dkms.Base.{ℕ, ◌^◌}

abbrev pub px4io_page_status : ℕ
px4io_page_status = 1

abbrev pub px4io_p_status_flags : ℕ
px4io_p_status_flags = 2

abbrev pub px4io_p_status_flags_rc_ok : ℕ
px4io_p_status_flags_rc_ok = 2 ^ 2

abbrev pub px4io_p_status_flags_rc_ppm : ℕ
px4io_p_status_flags_rc_ppm = 2 ^ 3

abbrev pub px4io_p_status_flags_rc_dsm : ℕ
px4io_p_status_flags_rc_dsm = 2 ^ 4

abbrev pub px4io_p_status_flags_rc_sbus : ℕ
px4io_p_status_flags_rc_sbus = 2 ^ 5

abbrev pub px4io_p_status_flags_rc_st24 : ℕ
px4io_p_status_flags_rc_st24 = 2 ^ 14

abbrev pub px4io_p_status_flags_init_ok : ℕ
px4io_p_status_flags_init_ok = 2 ^ 10

abbrev pub px4io_p_status_alarms_pwm_error : ℕ
px4io_p_status_alarms_pwm_error = 2 ^ 6

abbrev pub px4io_p_status_board_type : ℕ
px4io_p_status_board_type = 10

abbrev pub px4io_page_raw_rc_input : ℕ
px4io_page_raw_rc_input = 4

abbrev pub px4io_p_raw_rc_base : ℕ
px4io_p_raw_rc_base = 6

abbrev pub px4io_page_raw_adc_input : ℕ
px4io_page_raw_adc_input = 6

abbrev pub px4io_page_setup : ℕ
px4io_page_setup = 50

abbrev pub px4io_p_setup_features : ℕ
px4io_p_setup_features = 0

abbrev pub px4io_p_setup_features_gpio : ℕ
px4io_p_setup_features_gpio = 2 ^ 4

abbrev pub px4io_p_setup_features_adv_freq_config : ℕ
px4io_p_setup_features_adv_freq_config = 2 ^ 5

abbrev pub px4io_p_setup_arming : ℕ
px4io_p_setup_arming = 1

abbrev pub px4io_p_setup_arming_io_arm_ok : ℕ
px4io_p_setup_arming_io_arm_ok = 2 ^ 0

abbrev pub px4io_p_setup_arming_fmu_armed : ℕ
px4io_p_setup_arming_fmu_armed = 2 ^ 1

abbrev pub px4io_p_setup_arming_always_pwm_enable : ℕ
px4io_p_setup_arming_always_pwm_enable = 2 ^ 5

abbrev pub px4io_p_setup_pwm_rates : ℕ
px4io_p_setup_pwm_rates = 2

abbrev pub px4io_p_setup_pwm_defaultrate : ℕ
px4io_p_setup_pwm_defaultrate = 3

abbrev pub px4io_p_setup_pwm_altrate : ℕ
px4io_p_setup_pwm_altrate = 4

abbrev pub px4io_p_setup_crc : ℕ
px4io_p_setup_crc = 11

abbrev pub px4io_p_setup_force_safety_off : ℕ
px4io_p_setup_force_safety_off = 12

abbrev pub px4io_force_safety_magic : ℕ
px4io_force_safety_magic = 22027

abbrev pub px4io_p_setup_pwm_group1_rate : ℕ
px4io_p_setup_pwm_group1_rate = 26

abbrev pub px4io_page_rc_config : ℕ
px4io_page_rc_config = 53

abbrev pub px4io_p_rc_config_min : ℕ
px4io_p_rc_config_min = 0

abbrev pub px4io_p_rc_config_center : ℕ
px4io_p_rc_config_center = 1

abbrev pub px4io_p_rc_config_max : ℕ
px4io_p_rc_config_max = 2

abbrev pub px4io_p_rc_config_deadzone : ℕ
px4io_p_rc_config_deadzone = 3

abbrev pub px4io_p_rc_config_assignment : ℕ
px4io_p_rc_config_assignment = 4

abbrev pub px4io_p_rc_config_options : ℕ
px4io_p_rc_config_options = 5

abbrev pub px4io_p_rc_config_options_enabled : ℕ
px4io_p_rc_config_options_enabled = 2 ^ 0

abbrev pub px4io_p_rc_config_options_reverse : ℕ
px4io_p_rc_config_options_reverse = 2 ^ 1

abbrev pub px4io_p_rc_config_stride : ℕ
px4io_p_rc_config_stride = 6

abbrev pub px4io_page_direct_pwm : ℕ
px4io_page_direct_pwm = 54

abbrev pub px4io_page_rcio_heartbeat : ℕ
px4io_page_rcio_heartbeat = 20

abbrev pub px4io_page_pwm_exported : ℕ
px4io_page_pwm_exported = 8

abbrev pub px4io_page_gpio : ℕ
px4io_page_gpio = 15

abbrev pub px4io_page_gpio_exported : ℕ
px4io_page_gpio_exported = 16

abbrev pub px4io_page_git_hash : ℕ
px4io_page_git_hash = 22
