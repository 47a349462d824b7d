-- ===== src/Pwm/Config/Laws.antt =====
-- What rcio_pwm_config stores and what it asks for, on each of its paths.
use rcio_dkms.Base.{
  ℕ, ◌+◌, ◌*◌, ◌/◌, ◌%◌, ◌^◌, ◌<◌, ◌≡◌, refl, Bool, true, false, not, ◌&&◌, ◌||◌, pos, List, arith,
  get_or, set, ltb, leb, ◌==◌, if◌then◌else◌, ◌∙◌, if_then, if_else,
}
use rcio_dkms.Kernel.{Kernel, ulong}
use rcio_dkms.State.{Pwm, Gpio}
use rcio_dkms.Pwm.Config.{
  pwm_group_number, motors_stopped, should_change_freq_new_way, should_change_freq_old_way,
  config_new_way, config_old_way, config_blocked, rcio_pwm_config,
}

-- A pin's group is that of its timer, four pins to each.
pub pwm_group_number-div : (pin : ℕ) → pin < 16 → pwm_group_number pin ≡ pin / 4
unfolding pwm_group_number
pwm_group_number-div pin h = ground arith

-- No output of a group is on.
abbrev pub group_off : List ℕ → ℕ → Bool
group_off values group =
    get_or values (4 * group) 0 == 0
    && get_or values (4 * group + 1) 0 == 0
    && get_or values (4 * group + 2) 0 == 0
    && get_or values (4 * group + 3) 0 == 0

-- The loop over the group's pins finds the motors stopped exactly when no output of it is on.
motors_stopped-group_off :
    (values : List ℕ) (group : ℕ)
    → motors_stopped values 4 (group * 4) true ≡ group_off values group
unfolding motors_stopped
motors_stopped-group_off values group = ground arith

abbrev pub frequency_of : ℕ → ℕ
frequency_of period_ns = 1_000_000_000 / period_ns % 2 ^ 16

-- Whether a request for the frequency `f` on a pin changes that of its group.
abbrev pub changes_group : Pwm → ℕ → ℕ → Bool
changes_group p pin f =
    not (get_or p.frequencies (pin / 4) 0 == f)
    && (pin == pin / 4 * 4 || group_off p.values (pin / 4))

pub config_new_way_lem :
    (p : Pwm) (pin duty_ns f group : ℕ)
    → pwm_group_number pin ≡ group
    → let q = config_new_way p pin duty_ns f in
      let change =
        not (get_or p.frequencies group 0 == f) && (pin == group * 4 || group_off p.values group) in
      (q.values
        ≡ set p.values pin
            (if get_or p.frequencies group 0 == f then duty_ns / 1000 % 2 ^ 16 else 0))
      × (q.frequencies ≡ p.frequencies)
      × (q.new_frequencies ≡ (if change then set p.new_frequencies group f else p.new_frequencies))
      × (q.frequencies_update_required ≡ (
          if change
          then set p.frequencies_update_required group true
          else p.frequencies_update_required))
      × (q.armtimeout ≡ p.armtimeout)
      × (q.adv_timer_config_supported ≡ p.adv_timer_config_supported)
      × (q.alt_frequency_updated ≡ p.alt_frequency_updated)
      × (q.default_frequency_updated ≡ p.default_frequency_updated)
unfolding config_new_way should_change_freq_new_way
config_new_way_lem p pin duty_ns f group e = ground (arith, motors_stopped-group_off p.values group)

-- Whether a request for the frequency `f` on a pin changes the rate of its half, the old way.
abbrev pub changes_rate : Pwm → ℕ → ℕ → ℕ → Bool
changes_rate p pin f duty_ns =
    not (duty_ns == 0)
    && (if ltb pin 8
        then not (f == p.alt_frequency) && (pin == 0 || pin == 4)
        else not (f == p.default_frequency) && (pin == 8 || pin == 12))

pub config_old_way_lem :
    (p : Pwm) (pin duty_ns f : ℕ)
    → let q = config_old_way p pin duty_ns f in
      let change = changes_rate p pin f duty_ns in
      (q.values
        ≡ set p.values pin (
            if f == (if ltb pin 8 then q.alt_frequency else q.default_frequency)
            then duty_ns / 1000 % 2 ^ 16
            else 0))
      × (q.alt_frequency ≡ (if change && ltb pin 8 then f else p.alt_frequency))
      × (q.alt_frequency_updated ≡ ((change && ltb pin 8) || p.alt_frequency_updated))
      × (q.default_frequency ≡ (if change && leb 8 pin then f else p.default_frequency))
      × (q.default_frequency_updated ≡ ((change && leb 8 pin) || p.default_frequency_updated))
      × (q.frequencies ≡ p.frequencies)
      × (q.new_frequencies ≡ p.new_frequencies)
      × (q.frequencies_update_required ≡ p.frequencies_update_required)
      × (q.armtimeout ≡ p.armtimeout)
      × (q.adv_timer_config_supported ≡ p.adv_timer_config_supported)
unfolding config_old_way should_change_freq_old_way
config_old_way_lem p pin duty_ns f = ground arith

module _ (k : Kernel) (jiffies : ℕ) (g : Gpio) (p : Pwm) (pin duty_ns period_ns : ℕ) where
  -- A request that is blocked, on an ignored pin with a duty or on one of the first 12 pins while
  -- the outputs are forced to zero, returns 0, puts the pin to zero and changes nothing else.
  pub rcio_pwm_config_blocked :
      config_blocked g p pin duty_ns ≡ true
      → rcio_pwm_config k jiffies g p pin duty_ns period_ns
        ≡ (pos 0, record p { values = set p.values pin 0 })
  unfolding rcio_pwm_config
  rcio_pwm_config_blocked h = if_then _ _ h

  abbrev pub timed : Pwm
  timed = record p { armtimeout = ulong (jiffies + k.hz / 10) }

  pub rcio_pwm_config-new :
      config_blocked g p pin duty_ns ≡ false
      → p.adv_timer_config_supported ≡ true
      → rcio_pwm_config k jiffies g p pin duty_ns period_ns
        ≡ (pos 0, config_new_way timed pin duty_ns (frequency_of period_ns))
  unfolding rcio_pwm_config
  rcio_pwm_config-new free adv = if_else _ _ free ∙ if_then _ _ adv

  pub rcio_pwm_config-old :
      config_blocked g p pin duty_ns ≡ false
      → p.adv_timer_config_supported ≡ false
      → rcio_pwm_config k jiffies g p pin duty_ns period_ns
        ≡ (pos 0, config_old_way timed pin duty_ns (frequency_of period_ns))
  unfolding rcio_pwm_config
  rcio_pwm_config-old free old = if_else _ _ free ∙ if_else _ _ old

  -- The new way, on a pin below 16 and a request that is not dropped: the pin gets the duty if its
  -- group runs at the requested frequency already, and 0 otherwise; the frequencies in use stay; a
  -- change of the group's frequency is asked for exactly when it differs and the pin is the group's
  -- first or no output of the group is on; and the arming timeout is a tenth of a second on.
  pub rcio_pwm_config_new_way :
      pin < 16
      → config_blocked g p pin duty_ns ≡ false
      → p.adv_timer_config_supported ≡ true
      → let (ret, q) = rcio_pwm_config k jiffies g p pin duty_ns period_ns in
        let f = frequency_of period_ns in
        let group = pin / 4 in
        (ret ≡ pos 0)
        × (q.values
            ≡ set p.values pin
                (if get_or p.frequencies group 0 == f then duty_ns / 1000 % 2 ^ 16 else 0))
        × (q.frequencies ≡ p.frequencies)
        × (q.new_frequencies
            ≡ (if changes_group p pin f then set p.new_frequencies group f else p.new_frequencies))
        × (q.frequencies_update_required ≡ (
            if changes_group p pin f
            then set p.frequencies_update_required group true
            else p.frequencies_update_required))
        × (q.armtimeout ≡ ulong (jiffies + k.hz / 10))
  rcio_pwm_config_new_way small free adv =
      let q =
        config_new_way_lem timed pin duty_ns (frequency_of period_ns) (pin / 4)
          (pwm_group_number-div pin small) in
      rw (rcio_pwm_config-new free adv) (refl, q.0, q.1, q.2, q.3, q.4)
