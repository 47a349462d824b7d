-- ===== src/Gpio/Pin.antt =====
-- The update of the pins on the device, and the operations on one pin's register (src/rcio_gpio.c).
use rcio_dkms.Base.{
  ℕ, ◌+◌, ◌-◌, ◌%◌, ◌^◌, Bool, true, false, Option, none, some, ℤ, pos, negsuc, einval, [], ◌∷◌,
  get_or, set, replicate, map, ltb, leb, ◌==◌, if◌then◌else◌,
}
use rcio_dkms.Base.Int.{to_u16}
use rcio_dkms.Adapter.{Adapter}
use rcio_dkms.Protocol.Pins.{
  set_bit_m, clear_bit_m, gpio_set_pin_gpio_enable, gpio_set_pin_state_high, gpio_set_pin_state_low,
  gpio_get_pin_state, gpio_get_pin_gpio_enabled, gpio_set_pin_direction_input,
  gpio_set_pin_direction_output, gpio_get_pin_direction,
}
use rcio_dkms.Protocol.Regs.{px4io_page_gpio, px4io_page_gpio_exported}
use rcio_dkms.Registers.{register_get, register_set}
use rcio_dkms.State.{World, Gpio, int_pos, rcio_pwm_max_channels}

-- update_enqueue and update_dequeue, on an `int`.
unfoldable pub update_enqueue : Gpio → Gpio
update_enqueue g = record g { pin_states_updated = (g.pin_states_updated + 1) % 2 ^ 32 }

unfoldable pub update_dequeue : Gpio → Gpio
update_dequeue g = record g { pin_states_updated = (g.pin_states_updated + 2 ^ 32 - 1) % 2 ^ 32 }

-- `F(gpio.pin_states[offset])`, for a macro F that assigns.
unfoldable pub on_pin : (ℕ → ℕ) → ℕ → Gpio → Gpio
on_pin f offset g = record g {
  pin_states = set g.pin_states offset (f (get_or g.pin_states offset 0));
}

unfoldable pub pwmignore_do_ignore_pin : ℕ → Gpio → Gpio
pwmignore_do_ignore_pin pin g = record g {
  pwm_ignore_writings_mask = set_bit_m g.pwm_ignore_writings_mask pin;
}

unfoldable pub pwmignore_do_unignore_pin : ℕ → Gpio → Gpio
pwmignore_do_unignore_pin pin g = record g {
  pwm_ignore_writings_mask = clear_bit_m g.pwm_ignore_writings_mask pin;
}

-- pwmignore_store: `parsed` is what kstrtol makes of the text, `none` for its error.
unfoldable pub pwmignore_store : Option ℤ → ℕ → Gpio → ℤ × Gpio
pwmignore_store none count g = (einval, g)
pwmignore_store (some (negsuc n)) count g = (einval, g)
pwmignore_store (some (pos n)) count g =
    if leb n (2 ^ rcio_pwm_max_channels - 1)
    then (pos count, record g { pwm_ignore_writings_mask = n })
    else (einval, g)

-- `value == 0`, of an `int`
abbrev pub is_zero : ℤ → Bool
is_zero (pos n) = n == 0
is_zero (negsuc n) = false

unfoldable pub gpio_chip_set : ℕ → ℤ → Gpio → Gpio
unfolding on_pin update_enqueue
gpio_chip_set offset value g =
    let g1 = on_pin gpio_set_pin_gpio_enable offset g in
    update_enqueue (
      if is_zero value
      then on_pin gpio_set_pin_state_low offset g1
      else on_pin gpio_set_pin_state_high offset g1)

-- gpio_get_direction: 0 is out, 1 is in.
unfoldable pub gpio_get_direction : Gpio → ℕ → ℕ
gpio_get_direction g offset = gpio_get_pin_direction (get_or g.pin_states offset 0)

-- The loop of reset_store that puts the enabled pins to low.
abbrev pub reset_pin : ℕ → ℕ
reset_pin x = if gpio_get_pin_gpio_enabled x == 0 then x else gpio_set_pin_state_low x

module _ {D : Type 0} (a : Adapter D) where
  -- `uint16_t result = register_set(...); if (result < 0) update_enqueue; return (result >= 0);`
  unfoldable pub rcio_gpio_force_update : World D → Bool × World D
  rcio_gpio_force_update w =
      let (ret, dev') =
        register_set a w.dev px4io_page_gpio 0 w.gpio.pin_states rcio_pwm_max_channels in
      let w' = record w { dev = dev' } in
      let result = to_u16 ret in
      (leb 0 result, if ltb result 0 then record w' { gpio = update_enqueue w'.gpio } else w')

  unfoldable pub rcio_gpio_update : World D → Bool × World D
  rcio_gpio_update w =
      if w.gpio.gpio_supported
      then (if int_pos w.gpio.pin_states_updated
          then rcio_gpio_force_update (record w { gpio = update_dequeue w.gpio })
          else (true, w))
      else (true, w)

  unfoldable pub gpio_direction_input : World D → ℕ → ℤ × World D
  gpio_direction_input w offset = (
    pos 0,
    (rcio_gpio_force_update
        (record w { gpio = on_pin gpio_set_pin_direction_input offset w.gpio })).1,
  )

  -- The value to put out is not looked at.
  unfoldable pub gpio_direction_output : World D → ℕ → ℤ → ℤ × World D
  gpio_direction_output w offset value = (
    pos 0,
    (rcio_gpio_force_update
        (record w { gpio = on_pin gpio_set_pin_direction_output offset w.gpio })).1,
  )

  -- gpio_chip_get: `junk` is what `pin_state` holds before the read.
  unfoldable pub gpio_chip_get : ℕ → D → ℕ → ℕ × D
  gpio_chip_get junk d offset =
      let (ret, reg, d') = register_get a d px4io_page_gpio offset (junk ∷ []) 1 in
      (gpio_get_pin_state (get_or reg 0 0), d')

  -- reset_store, on a text of `count` bytes.
  unfoldable pub reset_store : World D → ℕ → ℤ × World D
  reset_store w count =
      let low = map reset_pin w.gpio.pin_states in
      let d1 = (register_set a w.dev px4io_page_gpio 0 low rcio_pwm_max_channels).1 in
      let d2 = (register_set a d1 px4io_page_gpio_exported 0 (0 ∷ []) 1).1 in
      (
        pos count,
        record w {
          dev = d2;
          gpio = record (w.gpio) { pin_states = replicate rcio_pwm_max_channels 0 };
        },
      )
