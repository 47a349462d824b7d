-- ===== src/Pwm/Config/Safe.antt =====
-- What rcio_pwm_config (src/rcio_pwm.c) never does, on any path: put a pin out at a rate that is
-- not the one asked for, touch another pin, or change a rate without marking it for the device.
use rcio_dkms.Base.{
  ℕ, ◌/◌, ◌%◌, ◌^◌, ◌<◌, ◌≡◌, ◌≢◌, ◌⊎◌, inl, inr, refl, ap, ◌∙◌, List, true, false, arith, length,
  get_or, get_or-set, set, ltb, ◌==◌, if◌then◌else◌, pos,
}
use rcio_dkms.Kernel.{Kernel}
use rcio_dkms.State.{Pwm, Gpio}
use rcio_dkms.Pwm.Config.{
  should_change_freq_new_way, config_new_way, config_old_way, config_blocked, rcio_pwm_config,
}
use rcio_dkms.Pwm.Config.Laws.{
  frequency_of, group_off, pwm_group_number-div, config_new_way_lem, config_old_way_lem, timed,
  rcio_pwm_config_blocked, rcio_pwm_config-new, rcio_pwm_config-old,
}

-- The rate at which the driver takes a pin to run: that of its group, or of its half.
abbrev pub rate_of : Pwm → ℕ → ℕ
rate_of p pin =
    if p.adv_timer_config_supported
    then get_or p.frequencies (pin / 4) 0
    else (if ltb pin 8 then p.alt_frequency else p.default_frequency)

-- What a request on `pin` for `f` leaves of `p`.
pub record Safe (p : Pwm) (pin duty_ns f : ℕ) (q : Pwm) : Type 0 where
  pub on_rate :
      get_or q.values pin 0 ≢ 0
      → (get_or q.values pin 0 ≡ duty_ns / 1000 % 2 ^ 16) × (rate_of q pin ≡ f)
  pub others : (j : ℕ) → j ≢ pin → get_or q.values j 0 ≡ get_or p.values j 0
  pub in_use : q.frequencies ≡ p.frequencies
  pub alt_marked : (q.alt_frequency ≡ p.alt_frequency) ⊎ (q.alt_frequency_updated ≡ true)
  pub default_marked :
      (q.default_frequency ≡ p.default_frequency) ⊎ (q.default_frequency_updated ≡ true)
  pub group_marked :
      ((q.new_frequencies ≡ p.new_frequencies)
        × (q.frequencies_update_required ≡ p.frequencies_update_required))
      ⊎ ((q.new_frequencies ≡ set p.new_frequencies (pin / 4) f)
          × (q.frequencies_update_required ≡ set p.frequencies_update_required (pin / 4) true)
          × (get_or p.frequencies (pin / 4) 0 ≢ f)
          × ((pin % 4 ≡ 0) ⊎ (group_off p.values (pin / 4) ≡ true)))

-- The values after a store at `pin`.
stored :
    (values : List ℕ) (pin v : ℕ) {after : List ℕ}
    → after ≡ set values pin v
    → length values ≡ 16
    → pin < 16
    → (j : ℕ) → get_or after j 0 ≡ (if pin == j then v else get_or values j 0)
stored values pin v e all small j =
    ap (λ l. get_or l j 0) e ∙ get_or-set values pin j v 0 (omega (arith, all))

new_way_rates :
    (p : Pwm) (pin duty_ns f : ℕ)
    → let q = config_new_way p pin duty_ns f in
      (q.alt_frequency ≡ p.alt_frequency) × (q.default_frequency ≡ p.default_frequency)
unfolding config_new_way should_change_freq_new_way
new_way_rates p pin duty_ns f = ground arith

module _ (k : Kernel) (jiffies : ℕ) (g : Gpio) (p : Pwm) (pin duty_ns period_ns : ℕ) where
  blocked-Safe :
      (f : ℕ)
      → length p.values ≡ 16
      → pin < 16
      → Safe p pin duty_ns f (record p { values = set p.values pin 0 })
  blocked-Safe f all small = record {
    on_rate = ground (arith, get_or-set p.values pin pin 0 0);
    others = λ j other. ground (arith, get_or-set p.values pin j 0 0);
    in_use = ground arith;
    alt_marked = ground arith;
    default_marked = ground arith;
    group_marked = inl (refl, refl);
  }

  new_way-Safe :
      length p.values ≡ 16
      → pin < 16
      → p.adv_timer_config_supported ≡ true
      → Safe p pin duty_ns (frequency_of period_ns) (
          config_new_way
            (timed k jiffies g p pin duty_ns period_ns)
            pin
            duty_ns
            (frequency_of period_ns))
  new_way-Safe all small adv =
      let f = frequency_of period_ns in
      let p' = timed k jiffies g p pin duty_ns period_ns in
      let q = config_new_way_lem p' pin duty_ns f (pin / 4) (pwm_group_number-div pin small) in
      record {
        on_rate = ground (arith, q.1, q.5, stored p.values pin _ q.0 all small pin);
        others = λ j other. ground (arith, stored p.values pin _ q.0 all small j);
        in_use = q.1;
        alt_marked = inl (new_way_rates p' pin duty_ns f).0;
        default_marked = inl (new_way_rates p' pin duty_ns f).1;
        group_marked = ground (arith, q.2, q.3);
      }

  old_way-Safe :
      length p.values ≡ 16
      → pin < 16
      → p.adv_timer_config_supported ≡ false
      → Safe p pin duty_ns (frequency_of period_ns) (
          config_old_way
            (timed k jiffies g p pin duty_ns period_ns)
            pin
            duty_ns
            (frequency_of period_ns))
  old_way-Safe all small old =
      let f = frequency_of period_ns in
      let q = config_old_way_lem (timed k jiffies g p pin duty_ns period_ns) pin duty_ns f in
      record {
        on_rate = ground (arith, q.9, stored p.values pin _ q.0 all small pin);
        others = λ j other. ground (arith, stored p.values pin _ q.0 all small j);
        in_use = q.5;
        alt_marked = ground (arith, q.1, q.2);
        default_marked = ground (arith, q.3, q.4);
        group_marked = inl (q.6, q.7);
      }

  -- On a pin below 16, with 16 values, on every path rcio_pwm_config returns 0. An output that is
  -- not 0 after it is the duty asked for, in us as 16 bits, on a request that is not blocked, and
  -- the rate at which the driver takes the pin to run is then the one asked for. The other outputs
  -- and the groups' frequencies in use stay. A default or alternative rate that changes is marked
  -- for the device; of the frequencies that are asked of the groups and their marks either all
  -- stay, or the pin's group is asked for the frequency and marked, which was not the one in use,
  -- and the pin is the first of the group or no output of the group was on.
  pub rcio_pwm_config-Safe :
      length p.values ≡ 16
      → pin < 16
      → let (ret, q) = rcio_pwm_config k jiffies g p pin duty_ns period_ns in
        (ret ≡ pos 0)
        × (get_or q.values pin 0 ≢ 0 → config_blocked g p pin duty_ns ≡ false)
        × Safe p pin duty_ns (frequency_of period_ns) q
  rcio_pwm_config-Safe all small = elim decided [
    | inl blocked ↦ rw (rcio_pwm_config_blocked k jiffies g p pin duty_ns period_ns blocked) (
      refl,
      ground (arith, get_or-set p.values pin pin 0 0),
      blocked-Safe (frequency_of period_ns) all small,
    )
    | inr (inl (free, adv)) ↦
        rw (rcio_pwm_config-new k jiffies g p pin duty_ns period_ns free adv)
          (refl, λ on. free, new_way-Safe all small adv)
    | inr (inr (free, old)) ↦
        rw (rcio_pwm_config-old k jiffies g p pin duty_ns period_ns free old)
          (refl, λ on. free, old_way-Safe all small old)
  ]
    where
      decided :
          (config_blocked g p pin duty_ns ≡ true)
          ⊎ (((config_blocked g p pin duty_ns ≡ false) × (p.adv_timer_config_supported ≡ true))
              ⊎ ((config_blocked g p pin duty_ns ≡ false) × (p.adv_timer_config_supported ≡ false)))
      decided = ground arith
