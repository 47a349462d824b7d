-- ===== src/Gpio/Laws.antt =====
-- What the operations on one pin do to its register, and to the mask of ignored pins.
use rcio_dkms.Base.{
  ℕ, ◌-◌, ◌^◌, ◌<◌, ◌≡◌, refl, ◌∙◌, ◌⊎◌, inl, inr, true, ◌&&◌, Option, none, some, ℤ, pos, negsuc,
  einval, arith, length, get_or, ltb, leb, ◌==◌, if◌then◌else◌, Bool-cases,
}
use rcio_dkms.Base.Bits.{bit}
use rcio_dkms.Base.Slices.{cells}
use rcio_dkms.Adapter.{Adapter}
use rcio_dkms.Protocol.Pins.{
  set_bit_m, clear_bit_m, gpio_set_pin_direction_input, gpio_set_pin_direction_output,
}
use rcio_dkms.Protocol.Pins.Laws.{bit-set_bit_m, bit-clear_bit_m, get_bit_m-bit}
use rcio_dkms.Protocol.Regs.{px4io_page_gpio}
use rcio_dkms.Registers.{register_set}
use rcio_dkms.State.{World, Gpio}
use rcio_dkms.Gpio.Pin.{
  on_pin, update_dequeue, pwmignore_do_ignore_pin, pwmignore_do_unignore_pin, pwmignore_store,
  gpio_get_direction, rcio_gpio_force_update, rcio_gpio_update, gpio_direction_input,
  gpio_direction_output,
}

-- On pins below 16: to ignore a pin marks it, and leaves the marks of the others; to take the mark
-- back takes with it the marks of all lower pins.
pub pwmignore_do_ignore_pin_lem :
    (g : Gpio) (pin k : ℕ)
    → pin < 16
    → k < 16
    → (bit (pwmignore_do_ignore_pin pin g).pwm_ignore_writings_mask k
        ≡ (if pin == k then 1 else bit g.pwm_ignore_writings_mask k))
      × (bit (pwmignore_do_unignore_pin pin g).pwm_ignore_writings_mask k
          ≡ (if leb k pin then 0 else bit g.pwm_ignore_writings_mask k))
unfolding pwmignore_do_ignore_pin pwmignore_do_unignore_pin
pwmignore_do_ignore_pin_lem g pin k h h' = (
  bit-set_bit_m g.pwm_ignore_writings_mask pin k h h',
  bit-clear_bit_m g.pwm_ignore_writings_mask pin k h h',
)

-- A store to pwmignore takes the numbers of at most 16 bits, and refuses all else unchanged.
pub pwmignore_store_lem :
    (parsed : Option ℤ) (count : ℕ) (g : Gpio)
    → let (ret, g') = pwmignore_store parsed count g in
      ((n : ℕ) × (parsed ≡ some (pos n))
        × (n < 2 ^ 16)
        × (ret ≡ pos count)
        × (g' ≡ record g { pwm_ignore_writings_mask = n }))
      ⊎ ((ret ≡ einval) × (g' ≡ g))
unfolding pwmignore_store
pwmignore_store_lem none count g = inr (refl, refl)
pwmignore_store_lem (some (negsuc n)) count g = inr (refl, refl)
pwmignore_store_lem (some (pos n)) count g = elim (Bool-cases (leb n (2 ^ 16 - 1))) [
  | inl fits ↦ inl (n, refl, ground arith, ground arith, ground arith)
  | inr large ↦ inr (ground arith, ground arith)
]

-- The register of a pin that has been changed.
on_pin_same :
    (f : ℕ → ℕ) (offset : ℕ) (g : Gpio)
    → offset < length g.pin_states
    → get_or (on_pin f offset g).pin_states offset 0 ≡ f (get_or g.pin_states offset 0)
unfolding on_pin
on_pin_same f offset g h = grind cells

module _ {D : Type 0} (a : Adapter D) where
  -- A forced update writes the 16 registers of the pins, reports success and asks for no other
  -- update, also where the write has failed.
  pub rcio_gpio_force_update_lem :
      (w : World D)
      → rcio_gpio_force_update a w
        ≡ (true, record w { dev = (register_set a w.dev px4io_page_gpio 0 w.gpio.pin_states 16).1 })
  unfolding rcio_gpio_force_update
  rcio_gpio_force_update_lem w = ground arith

  -- With an update counter that is not negative: an update with some enqueued, on a device with
  -- GPIO, writes the registers of the pins and takes one from the queue; any other does nothing. It
  -- always reports success.
  pub rcio_gpio_update_lem :
      (w : World D)
      → w.gpio.pin_states_updated < 2 ^ 31
      → rcio_gpio_update a w ≡ (
        true,
        if w.gpio.gpio_supported && ltb 0 w.gpio.pin_states_updated
            then record w {
              dev = (register_set a w.dev px4io_page_gpio 0 w.gpio.pin_states 16).1;
              gpio = record (w.gpio) { pin_states_updated = w.gpio.pin_states_updated - 1 };
            }
            else w,
      )
  unfolding rcio_gpio_update rcio_gpio_force_update update_dequeue
  rcio_gpio_update_lem w small = ground arith

  pub rcio_gpio_update-pwm : (w : World D) → (rcio_gpio_update a w).1.pwm ≡ w.pwm
  unfolding rcio_gpio_update
  rcio_gpio_update-pwm w =
      ground (arith, rcio_gpio_force_update_lem (record w { gpio = update_dequeue w.gpio }))

  -- For a pin in the array whose register is a 16-bit word, the direction that is read back is the
  -- one set: 1 for input, 0 for output. Output also takes digits 0 to 14 of the register, its state
  -- among them, whatever value is to be put out.
  pub gpio_direction_lem :
      (w : World D) (offset k : ℕ) (value : ℤ)
      → offset < length w.gpio.pin_states
      → get_or w.gpio.pin_states offset 0 < 2 ^ 16
      → k < 16
      → (gpio_get_direction (gpio_direction_input a w offset).1.gpio offset ≡ 1)
        × (gpio_get_direction (gpio_direction_output a w offset value).1.gpio offset ≡ 0)
        × (bit (get_or (gpio_direction_output a w offset value).1.gpio.pin_states offset 0) k
            ≡ (if leb k 14 then 0 else bit (get_or w.gpio.pin_states offset 0) k))
  unfolding gpio_direction_input gpio_direction_output gpio_get_direction
  gpio_direction_lem w offset k value inside word small =
      rw
        (
          rcio_gpio_force_update_lem (record w { gpio = input }),
          rcio_gpio_force_update_lem (record w { gpio = output }),
          on_pin_same gpio_set_pin_direction_input offset w.gpio inside,
          on_pin_same gpio_set_pin_direction_output offset w.gpio inside,
        )
        (
          get_bit_m-bit (set_bit_m x 14) 14 (unfold set_bit_m in omega arith)
              ∙ bit-set_bit_m x 14 14 (omega arith) (omega arith),
          get_bit_m-bit (clear_bit_m x 14) 14 (unfold clear_bit_m in omega arith)
              ∙ bit-clear_bit_m x 14 14 (omega arith) (omega arith),
          bit-clear_bit_m x 14 k (omega arith) small,
        )
    where
      x : ℕ
      x = get_or w.gpio.pin_states offset 0

      input : Gpio
      input = on_pin gpio_set_pin_direction_input offset w.gpio

      output : Gpio
      output = on_pin gpio_set_pin_direction_output offset w.gpio
