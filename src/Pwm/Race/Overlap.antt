-- ===== src/Pwm/Race/Overlap.antt =====
-- The runs of Pwm/Race.antt: the worker alone, a request alone, and a request between the worker's
-- accesses.
use rcio_dkms.Base.{
  ℕ, ◌+◌, ◌/◌, ◌%◌, ◌<◌, ◌≡◌, ◌≢◌, refl, ap, ◌∙◌, true, false, some, List, arith, length, get_or,
  set, get_or-set, if_then, length-set, ◌==◌,
}
use rcio_dkms.Adapter.{Adapter}
use rcio_dkms.Kernel.{Kernel, ulong}
use rcio_dkms.Protocol.Regs.{px4io_page_setup, px4io_p_setup_pwm_group1_rate}
use rcio_dkms.Registers.{register_set_byte}
use rcio_dkms.State.{World, Pwm}
use rcio_dkms.Pwm.Config.{
  should_change_freq_new_way, should_change_duty_new_way, store_duty, pwm_group_number,
  config_blocked, config_new_way, rcio_pwm_config,
}
use rcio_dkms.Pwm.Config.Laws.{frequency_of, pwm_group_number-div, rcio_pwm_config-new}
use rcio_dkms.Pwm.Update.{
  first_required, pending_frequency, after_frequency, update_group, rcio_pwm_update_frequency,
  rcio_pwm_update,
}
use rcio_dkms.Pwm.Update.Laws.{armed_at, armed_world, rcio_pwm_update-armed}
use rcio_dkms.Pwm.Race.{
  at_rest, send_group, record_group, mark_group, store_group, put_off, put_duty, test, send, note,
  unmark, decide, store, mark, put, Reach, here, next,
}

get_or-set_same :
    {A : Type 0} (xs : List A) (i : ℕ) (v d : A) → i < length xs → get_or (set xs i v) i d ≡ v
get_or-set_same xs i v d h =
    get_or-set xs i i v d h ∙ if_then {b = i == i} v (get_or xs i d) (ground arith)

change_keeps :
    (p : Pwm) (pin i f : ℕ)
    → (should_change_freq_new_way p pin i f).0 ≡ true
    → should_change_freq_new_way p pin i f ≡ (true, p)
unfolding should_change_freq_new_way
change_keeps p pin i f change = ground arith

change_untimed :
    (p : Pwm) (pin i f armtimeout : ℕ)
    → (should_change_freq_new_way (record p { armtimeout = armtimeout }) pin i f).0
      ≡ (should_change_freq_new_way p pin i f).0
unfolding should_change_freq_new_way
change_untimed p pin i f armtimeout = ground arith

config_change :
    (p : Pwm) (pin duty_ns f : ℕ)
    → (should_change_freq_new_way p pin (pwm_group_number pin) f).0 ≡ true
    → let i = pwm_group_number pin in
      config_new_way p pin duty_ns f
      ≡ store_duty (should_change_duty_new_way p i f) pin duty_ns (record p {
        new_frequencies = set p.new_frequencies i f;
        frequencies_update_required = set p.frequencies_update_required i true;
      })
unfolding config_new_way should_change_duty_new_way
config_change p pin duty_ns f change = rw (change_keeps p pin (pwm_group_number pin) f change) refl

module _ {D : Type 0} (a : Adapter D) (k : Kernel) where
  -- The worker's accesses, with no request between them, are a call of rcio_pwm_update.
  update_group_alone :
      (jiffies : ℕ) (w : World D) (i : ℕ)
      → armed_at k jiffies w.pwm.armtimeout ≡ true
      → w.pwm.freq_update_noticed ≡ true
      → w.pwm.adv_timer_config_supported ≡ true
      → first_required w.pwm.frequencies_update_required 0 ≡ some i
      → Reach a k (at_rest w) (at_rest (rcio_pwm_update a k jiffies w).1)
  update_group_alone jiffies w i on noticed adv waiting =
      let updated : (rcio_pwm_update a k jiffies w).1
          ≡ update_group a (armed_world a k jiffies w) i =
        ap (λ r. r.1) (rcio_pwm_update-armed a k jiffies w on (ground arith))
        ∙ (unfold pending_frequency after_frequency in rw (adv, waiting) refl) in
      rw updated (
        unfold update_group rcio_pwm_update_frequency send_group record_group mark_group in
        (next
          (next (next (next here (test jiffies i refl on noticed adv waiting)) (send refl))
            (note refl))
          (unmark refl)))

  -- A caller's accesses, with no step of the worker between them, are a call of rcio_pwm_config.
  request_alone :
      (jiffies : ℕ) (w : World D) (pin duty_ns period_ns : ℕ)
      → config_blocked w.gpio w.pwm pin duty_ns ≡ false
      → w.pwm.adv_timer_config_supported ≡ true
      → (should_change_freq_new_way w.pwm pin (pwm_group_number pin) (frequency_of period_ns)).0
        ≡ true
      → Reach a k (at_rest w) (
          at_rest
            (record w { pwm = (rcio_pwm_config k jiffies w.gpio w.pwm pin duty_ns period_ns).1 }))
  request_alone jiffies w pin duty_ns period_ns free adv change = rw (e) (
      next
        (next
          (next (next here (decide jiffies pin duty_ns period_ns refl free adv change))
            (store refl))
          (mark refl))
        (put refl))
    where
      i : ℕ
      i = pwm_group_number pin

      f : ℕ
      f = frequency_of period_ns

      e :
          record w { pwm = (rcio_pwm_config k jiffies w.gpio w.pwm pin duty_ns period_ns).1 }
          ≡ put_duty (mark_group (store_group (put_off k jiffies w) i f) i true) pin duty_ns f
      e = rw (rcio_pwm_config-new k jiffies w.gpio w.pwm pin duty_ns period_ns free adv) (
          unfold put_duty mark_group store_group put_off should_change_duty_new_way in
          ap (λ p. record w { pwm = p })
            (config_change (record (w.pwm) { armtimeout = ulong (jiffies + k.hz / 10) }) pin duty_ns
              f (change_untimed w.pwm pin i f _ ∙ change)))

  -- What is left where a request comes between the worker's write and its note.
  unfoldable pub overlapped : ℕ → World D → (pin duty_ns f : ℕ) → World D
  unfolding send_group store_group mark_group record_group put_off put_duty store_duty
  overlapped asked_at w pin duty_ns f =
      let i = pwm_group_number pin in
      let w1 = put_off k asked_at (send_group a k w i) in
      let w2 = put_duty (mark_group (store_group w1 i f) i true) pin duty_ns f in
      mark_group (record_group w2 i) i false

  decided_change :
      (w : World D) (pin f : ℕ)
      → pin < 16
      → pin % 4 ≡ 0
      → get_or w.pwm.frequencies (pwm_group_number pin) 0 ≢ f
      → (should_change_freq_new_way w.pwm pin (pwm_group_number pin) f).0 ≡ true
  unfolding should_change_freq_new_way
  decided_change w pin f inside control other = ground (arith, pwm_group_number-div pin inside)

  taken_for_done :
      (w : World D) (pin i f : ℕ)
      → get_or w.pwm.frequencies i 0 ≡ f
      → ((should_change_freq_new_way w.pwm pin i f).0 ≡ false)
        × (should_change_duty_new_way w.pwm i f ≡ true)
  unfolding should_change_freq_new_way should_change_duty_new_way
  taken_for_done w pin i f same = ground arith

  overlap-Reach :
      (jiffies asked_at : ℕ) (w : World D) (pin duty_ns period_ns : ℕ)
      → pin < 16
      → pin % 4 ≡ 0
      → armed_at k jiffies w.pwm.armtimeout ≡ true
      → w.pwm.freq_update_noticed ≡ true
      → w.pwm.adv_timer_config_supported ≡ true
      → first_required w.pwm.frequencies_update_required 0 ≡ some (pwm_group_number pin)
      → config_blocked w.gpio w.pwm pin duty_ns ≡ false
      → get_or w.pwm.frequencies (pwm_group_number pin) 0 ≢ frequency_of period_ns
      → Reach a k (at_rest w) (
          at_rest
            (overlapped asked_at (armed_world a k jiffies w) pin duty_ns (frequency_of period_ns)))
  unfolding overlapped config_blocked send_group
  overlap-Reach jiffies asked_at w pin duty_ns period_ns inside control on noticed adv waiting free
        other =
      next
        (next
          (next
            (next
              (next
                (next
                  (next
                    (next here (test jiffies (pwm_group_number pin) refl on noticed adv waiting))
                    (send refl))
                  (decide asked_at pin duty_ns period_ns refl free adv (
                    decided_change
                      (send_group a k (armed_world a k jiffies w) (pwm_group_number pin)) pin
                      (frequency_of period_ns) inside control other)))
                (store refl))
              (mark refl))
            (put refl))
          (note refl))
        (unmark refl)

  -- With the outputs armed, the changes noticed, the advanced configuration and 4 groups in each
  -- array, for the control pin of the first group that waits for a change, and a request on it that
  -- is not blocked, for a frequency `f` other than the one in use: there is a run of the worker's
  -- call of rcio_pwm_update and the caller's of rcio_pwm_config, with both at rest at its end, in
  -- which the device has been sent the older request alone, `f` is recorded as in use and the group
  -- is not marked; a later request for `f` on any pin is not taken for a change, and its duty is
  -- taken as safe at `f`.
  pub request_lost :
      (jiffies asked_at : ℕ) (w : World D) (pin duty_ns period_ns : ℕ)
      → pin < 16
      → pin % 4 ≡ 0
      → length w.pwm.frequencies ≡ 4
      → length w.pwm.new_frequencies ≡ 4
      → length w.pwm.frequencies_update_required ≡ 4
      → armed_at k jiffies w.pwm.armtimeout ≡ true
      → w.pwm.freq_update_noticed ≡ true
      → w.pwm.adv_timer_config_supported ≡ true
      → first_required w.pwm.frequencies_update_required 0 ≡ some (pwm_group_number pin)
      → config_blocked w.gpio w.pwm pin duty_ns ≡ false
      → get_or w.pwm.frequencies (pwm_group_number pin) 0 ≢ frequency_of period_ns
      → let i = pwm_group_number pin in
        let f = frequency_of period_ns in
        (t : World D) × Reach a k (at_rest w) (at_rest t)
        × (t.dev
            ≡ (register_set_byte a w.dev px4io_page_setup
                (px4io_p_setup_pwm_group1_rate + i)
                (get_or w.pwm.new_frequencies i 0)).1)
        × (get_or t.pwm.frequencies i 0 ≡ f)
        × (get_or t.pwm.frequencies_update_required i false ≡ false)
        × ((later_pin : ℕ)
            → ((should_change_freq_new_way t.pwm later_pin i f).0 ≡ false)
              × (should_change_duty_new_way t.pwm i f ≡ true))
  unfolding overlapped
  request_lost jiffies asked_at w pin duty_ns period_ns inside control used asked waiting on noticed
        adv first free other =
      let i = pwm_group_number pin in
      let f = frequency_of period_ns in
      (
        overlapped asked_at (armed_world a k jiffies w) pin duty_ns f,
        overlap-Reach jiffies asked_at w pin duty_ns period_ns inside control on noticed adv first
            free other,
        refl,
        in_use,
        get_or-set_same (set w.pwm.frequencies_update_required i true) i false false
            (omega (arith, small, length-set w.pwm.frequencies_update_required i true)),
        λ later_pin.
            taken_for_done (overlapped asked_at (armed_world a k jiffies w) pin duty_ns f) later_pin
              i f in_use,
      )
    where
      small : pwm_group_number pin < 4
      small = omega (arith, pwm_group_number-div pin inside)

      in_use :
          get_or
            (overlapped asked_at
              (armed_world a k jiffies w)
              pin
              duty_ns
              (frequency_of period_ns)).pwm.frequencies
            (pwm_group_number pin)
            0
          ≡ frequency_of period_ns
      in_use =
          let i = pwm_group_number pin in
          let f = frequency_of period_ns in
          get_or-set_same w.pwm.frequencies i (get_or (set w.pwm.new_frequencies i f) i 0) 0
            (omega (arith, small))
          ∙ get_or-set_same w.pwm.new_frequencies i f 0 (omega (arith, small))
