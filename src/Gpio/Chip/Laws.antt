-- ===== src/Gpio/Chip/Laws.antt =====
-- What a pin is like once gpio_chip_request has taken it.
use rcio_dkms.Base.{
  ℕ, ◌+◌, ◌%◌, ◌^◌, ◌<◌, ◌≡◌, ap, ◌∙◌, false, ℤ, pos, is_neg, List, [], ◌∷◌, arith, bit_and, length,
  get_or, set, ◌==◌, if◌then◌else◌, get_or-set,
}
use rcio_dkms.Base.Slices.{cells, set-set_self}
use rcio_dkms.Adapter.{Adapter}
use rcio_dkms.Kernel.{Kernel}
use rcio_dkms.Protocol.Pins.{
  set_bit_m, clear_bit_m, gpio_set_pin_gpio_enable, gpio_set_pin_state_low,
  gpio_set_pin_direction_output,
}
use rcio_dkms.Protocol.Regs.{px4io_page_pwm_exported}
use rcio_dkms.Registers.{register_get}
use rcio_dkms.State.{World, Gpio}
use rcio_dkms.Pwm.Channel.{pwm_check_device_motors_running_count}
use rcio_dkms.Pwm.Update.{rcio_pwm_force_zero_duty}
use rcio_dkms.Pwm.Update.Pins.{rcio_pwm_update-gpio}
use rcio_dkms.Gpio.Pin.{on_pin, update_enqueue, pwmignore_do_ignore_pin, rcio_gpio_force_update}
use rcio_dkms.Gpio.Laws.{rcio_gpio_force_update_lem}
use rcio_dkms.Gpio.Chip.{
  gpio_export_gpio_pin, stop_motors, take_pin, take_from_pwm, gpio_chip_request,
}

-- Two changes of a pin's register are one.
on_pin-on_pin :
    (f g : ℕ → ℕ) (offset : ℕ) (x : Gpio)
    → offset < length x.pin_states
    → on_pin f offset (on_pin g offset x) ≡ on_pin (λ v. f (g v)) offset x
unfolding on_pin
on_pin-on_pin f g offset x inside =
    let v = g (get_or x.pin_states offset 0) in
    let read : get_or (set x.pin_states offset v) offset 0 ≡ v = grind cells in
    ap (λ l. record x { pin_states = l }) (rw read (set-set_self x.pin_states offset v (f v)))

-- The pin's register is put to zero, enabled, made an output and put to low.
taken_pin :
    (offset : ℕ) (x : Gpio)
    → offset < length x.pin_states
    → on_pin gpio_set_pin_state_low offset (
        on_pin gpio_set_pin_direction_output offset
          (on_pin gpio_set_pin_gpio_enable offset (on_pin (λ _. 0x0000) offset x)))
      ≡ on_pin (λ _. 0x8000) offset x
unfolding set_bit_m clear_bit_m
taken_pin offset x inside =
    ap (λ y. on_pin gpio_set_pin_state_low offset (on_pin gpio_set_pin_direction_output offset y))
      (on_pin-on_pin gpio_set_pin_gpio_enable (λ _. 0x0000) offset x inside)
    ∙ ap (on_pin gpio_set_pin_state_low offset)
        (on_pin-on_pin gpio_set_pin_direction_output (λ _. 0x8000) offset x inside)
    ∙ on_pin-on_pin gpio_set_pin_state_low (λ _. 0x8000) offset x inside

-- The mask with the pin's mark, where the pin is exported to PWM.
abbrev marked : ℕ → ℕ → Gpio → Gpio
marked exported offset g = record g {
  pwm_ignore_writings_mask =
      if bit_and exported (2 ^ offset) == 0
      then g.pwm_ignore_writings_mask
      else set_bit_m g.pwm_ignore_writings_mask offset;
}

module _ {D : Type 0} (a : Adapter D) (junk : ℕ) (k : Kernel) where
  stop_motors-gpio :
      (t : ℕ) (running : ℤ) (w : World D) → (stop_motors a junk k t running w).gpio ≡ w.gpio
  unfolding stop_motors rcio_pwm_force_zero_duty
  stop_motors-gpio t running w = ground (
    arith,
    rcio_pwm_update-gpio a k t (record w {
      pwm = record (w.pwm) {
        force_pwmzero_countdown = (w.pwm.force_pwmzero_countdown + 50) % 2 ^ 32;
      };
    }),
  )

  -- The pin is enabled, an output, and low.
  take_pin-gpio :
      (w : World D) (offset : ℕ)
      → offset < length w.gpio.pin_states
      → (take_pin a junk w offset).gpio ≡ update_enqueue (on_pin (λ _. 0x8000) offset w.gpio)
  unfolding take_pin
  take_pin-gpio w offset inside =
      let enabled = on_pin gpio_set_pin_gpio_enable offset (on_pin (λ _. 0x0000) offset w.gpio) in
      let w1 = (rcio_gpio_force_update a (record w { gpio = enabled })).1 in
      let low =
        on_pin gpio_set_pin_state_low offset
          (on_pin gpio_set_pin_direction_output offset w1.gpio) in
      ap (λ r. update_enqueue r.1.gpio) (rcio_gpio_force_update_lem a (record w1 { gpio = low }))
      ∙ ap
          (λ r. update_enqueue (
            on_pin gpio_set_pin_state_low offset
              (on_pin gpio_set_pin_direction_output offset r.1.gpio)))
          (rcio_gpio_force_update_lem a (record w { gpio = enabled }))
      ∙ ap update_enqueue (taken_pin offset w.gpio inside)

  take_from_pwm-gpio :
      (w : World D) (exported offset : ℕ)
      → (take_from_pwm a junk w exported offset).1.gpio ≡ marked exported offset w.gpio
  unfolding take_from_pwm pwmignore_do_ignore_pin
  take_from_pwm-gpio w exported offset = ground arith

  -- The state at the read of the pins that are exported to PWM, and that register.
  abbrev pub stopped : ℕ → World D → World D
  stopped t w =
      let (running, d0) = pwm_check_device_motors_running_count a junk w.dev in
      stop_motors a junk k t running (record w { dev = d0 })

  abbrev pub pwm_exported : ℕ → World D → ℤ × List ℕ × D
  pwm_exported t w = register_get a (stopped t w).dev px4io_page_pwm_exported 0 (junk ∷ []) 1

  abbrev from_pwm : ℕ → World D → ℕ → ℤ × World D
  from_pwm t w offset =
      take_from_pwm a junk (record (stopped t w) { dev = (pwm_exported t w).2 })
        (get_or (pwm_exported t w).1 0 0) offset

  -- The state in which the pin is taken.
  abbrev exported : ℕ → World D → ℕ → ℤ × World D
  exported t w offset =
      let w3 = (from_pwm t w offset).1 in
      let (ret, d4) = gpio_export_gpio_pin a junk w3.dev offset in (ret, record w3 { dev = d4 })

  request_granted :
      (t : ℕ) (w : World D) (offset : ℕ)
      → (gpio_chip_request a junk k t w offset).0 ≡ pos 0
      → (is_neg (pwm_check_device_motors_running_count a junk w.dev).0 ≡ false)
        × (is_neg (pwm_exported t w).0 ≡ false)
        × ((gpio_chip_request a junk k t w offset).1
            ≡ take_pin a junk (exported t w offset).1 offset)
  unfolding gpio_chip_request
  request_granted t w offset granted = ground arith

  -- A request of a pin in the array that returns 0 has read the outputs and the pins exported to
  -- PWM, has put the pin's register to enabled, output and low, has left the other registers, has
  -- asked for an update, and has marked the pin as ignored by PWM where PWM had it.
  pub gpio_chip_request_granted :
      (t : ℕ) (w : World D) (offset : ℕ) (j : ℕ)
      → offset < length w.gpio.pin_states
      → (gpio_chip_request a junk k t w offset).0 ≡ pos 0
      → let w' = (gpio_chip_request a junk k t w offset).1 in
        (is_neg (pwm_check_device_motors_running_count a junk w.dev).0 ≡ false)
        × (is_neg (pwm_exported t w).0 ≡ false)
        × (get_or w'.gpio.pin_states j 0
            ≡ (if offset == j then 0x8000 else get_or w.gpio.pin_states j 0))
        × (w'.gpio.pin_states_updated ≡ (w.gpio.pin_states_updated + 1) % 2 ^ 32)
        × (w'.gpio.pwm_ignore_writings_mask ≡ (
            if bit_and (get_or (pwm_exported t w).1 0 0) (2 ^ offset) == 0
            then w.gpio.pwm_ignore_writings_mask
            else set_bit_m w.gpio.pwm_ignore_writings_mask offset))
  unfolding on_pin update_enqueue
  gpio_chip_request_granted t w offset j inside granted =
      let done = request_granted t w offset granted in
      let reg = get_or (pwm_exported t w).1 0 0 in
      let kept : (exported t w offset).1.gpio ≡ marked reg offset w.gpio =
        take_from_pwm-gpio (record (stopped t w) { dev = (pwm_exported t w).2 }) reg offset
        ∙ ap (marked reg offset) (
            stop_motors-gpio t (pwm_check_device_motors_running_count a junk w.dev).0
              (record w { dev = (pwm_check_device_motors_running_count a junk w.dev).1 })) in
      let after : (gpio_chip_request a junk k t w offset).1.gpio
          ≡ update_enqueue (on_pin (λ _. 0x8000) offset (marked reg offset w.gpio)) =
        ap (λ v. v.gpio) done.2
        ∙ take_pin-gpio (exported t w offset).1 offset (rw kept inside)
        ∙ ap (λ g. update_enqueue (on_pin (λ _. 0x8000) offset g)) kept in
      (
        done.0,
        done.1,
        ap (λ g. get_or g.pin_states j 0) after
            ∙ get_or-set w.gpio.pin_states offset j 0x8000 0 inside,
        ap (λ g. g.pin_states_updated) after,
        ap (λ g. g.pwm_ignore_writings_mask) after,
      )
