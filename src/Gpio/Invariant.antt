-- ===== src/Gpio/Invariant.antt =====
-- What holds of the variables of src/rcio_gpio.c between any two calls, and that the operations
-- on one pin keep it.
use rcio_dkms.Base.{
  ℕ, ◌^◌, ◌<◌, ◌≡◌, refl, ◌∙◌, Option, ℤ, List, arith, length, replicate, All, length-set, All-set,
  All-replicate, inl, inr, Bool, true, false, if◌then◌else◌,
}
use rcio_dkms.Adapter.{Adapter}
use rcio_dkms.Protocol.Packet.{IsWord}
use rcio_dkms.Protocol.Pins.{
  set_bit_m, clear_bit_m, gpio_set_pin_gpio_enable, gpio_set_pin_state_low, gpio_set_pin_state_high,
}
use rcio_dkms.State.{World, Gpio, initial_gpio}
use rcio_dkms.Gpio.Pin.{
  on_pin, update_enqueue, update_dequeue, pwmignore_do_ignore_pin, pwmignore_do_unignore_pin,
  pwmignore_store, gpio_chip_set, rcio_gpio_force_update, rcio_gpio_update, gpio_direction_input,
  gpio_direction_output, reset_store, is_zero,
}
use rcio_dkms.Gpio.Laws.{rcio_gpio_force_update_lem, pwmignore_store_lem}

pub record Pins (pin_states : List ℕ) (mask updated : ℕ) : Type 0 where
  pub states_all : length pin_states ≡ 16
  pub states_words : All IsWord pin_states
  pub mask_word : IsWord mask
  pub updated_int : updated < 2 ^ 32

abbrev pub GpioInv : Gpio → Type 0
GpioInv g = Pins g.pin_states g.pwm_ignore_writings_mask g.pin_states_updated

-- The variables of the module as it is loaded satisfy the invariant.
pub initial_gpio-GpioInv : GpioInv initial_gpio
unfolding initial_gpio
initial_gpio-GpioInv = record {
  states_all = refl;
  states_words = omega arith;
  mask_word = omega arith;
  updated_int = omega arith;
}

-- A change of one pin's register to a word.
pub on_pin-GpioInv :
    (f : ℕ → ℕ) (offset : ℕ) (g : Gpio)
    → ((x : ℕ) → IsWord (f x))
    → GpioInv g
    → GpioInv (on_pin f offset g)
unfolding on_pin
on_pin-GpioInv f offset g word inv = record {
  states_all = length-set g.pin_states offset _ ∙ inv.states_all;
  states_words = All-set IsWord g.pin_states offset _ (word _) inv.states_words;
  mask_word = inv.mask_word;
  updated_int = inv.updated_int;
}

pub set_bit_m-IsWord : (n x : ℕ) → IsWord (set_bit_m x n)
unfolding set_bit_m
set_bit_m-IsWord n x = omega arith

pub clear_bit_m-IsWord : (n x : ℕ) → IsWord (clear_bit_m x n)
unfolding clear_bit_m
clear_bit_m-IsWord n x = omega arith

pub cleared_states : (g : Gpio) → GpioInv g → GpioInv (record g { pin_states = replicate 16 0 })
cleared_states g inv = record {
  states_all = refl;
  states_words = All-replicate IsWord 16 0 (omega arith);
  mask_word = inv.mask_word;
  updated_int = inv.updated_int;
}

pub set_mask :
    (g : Gpio) (m : ℕ) → IsWord m → GpioInv g → GpioInv (record g { pwm_ignore_writings_mask = m })
set_mask g m word inv = record {
  states_all = inv.states_all;
  states_words = inv.states_words;
  mask_word = word;
  updated_int = inv.updated_int;
}

pub set_updated :
    (g : Gpio) (n : ℕ) → n < 2 ^ 32 → GpioInv g → GpioInv (record g { pin_states_updated = n })
set_updated g n int inv = record {
  states_all = inv.states_all;
  states_words = inv.states_words;
  mask_word = inv.mask_word;
  updated_int = int;
}

pub update_enqueue-GpioInv : (g : Gpio) → GpioInv g → GpioInv (update_enqueue g)
unfolding update_enqueue
update_enqueue-GpioInv g inv = set_updated g _ (omega arith) inv

pub pwmignore_do_ignore_pin-GpioInv :
    (pin : ℕ) (g : Gpio) → GpioInv g → GpioInv (pwmignore_do_ignore_pin pin g)
unfolding pwmignore_do_ignore_pin
pwmignore_do_ignore_pin-GpioInv pin g inv = set_mask g _ (set_bit_m-IsWord pin _) inv

pub pwmignore_do_unignore_pin-GpioInv :
    (pin : ℕ) (g : Gpio) → GpioInv g → GpioInv (pwmignore_do_unignore_pin pin g)
unfolding pwmignore_do_unignore_pin
pwmignore_do_unignore_pin-GpioInv pin g inv = set_mask g _ (clear_bit_m-IsWord pin _) inv

pub pwmignore_store-GpioInv :
    (parsed : Option ℤ) (count : ℕ) (g : Gpio)
    → GpioInv g
    → GpioInv (pwmignore_store parsed count g).1
pwmignore_store-GpioInv parsed count g inv = elim (pwmignore_store_lem parsed count g) [
  | inl (n, e, fits, ret, same) ↦ rw same (set_mask g n fits inv)
  | inr (ret, same) ↦ rw same inv
]

pub if_GpioInv : (b : Bool) (g h : Gpio) → GpioInv g → GpioInv h → GpioInv (if b then g else h)
if_GpioInv true g h x y = x
if_GpioInv false g h x y = y

if_world :
    {D : Type 0} (b : Bool) (x y : Bool × World D)
    → GpioInv x.1.gpio
    → GpioInv y.1.gpio
    → GpioInv (if b then x else y).1.gpio
if_world true x y hx hy = hx
if_world false x y hx hy = hy

pub gpio_chip_set-GpioInv :
    (offset : ℕ) (value : ℤ) (g : Gpio) → GpioInv g → GpioInv (gpio_chip_set offset value g)
unfolding gpio_chip_set
gpio_chip_set-GpioInv offset value g inv =
    update_enqueue-GpioInv
      (if is_zero value
        then on_pin gpio_set_pin_state_low offset g1
        else on_pin gpio_set_pin_state_high offset g1)
      (if_GpioInv _ _ _ (on_pin-GpioInv _ offset g1 (clear_bit_m-IsWord 0) enabled)
        (on_pin-GpioInv _ offset g1 (set_bit_m-IsWord 0) enabled))
  where
    g1 : Gpio
    g1 = on_pin gpio_set_pin_gpio_enable offset g

    enabled : GpioInv g1
    enabled = on_pin-GpioInv _ offset g (set_bit_m-IsWord 15) inv

module _ {D : Type 0} (a : Adapter D) where
  pub rcio_gpio_force_update-GpioInv :
      (w : World D) → GpioInv w.gpio → GpioInv (rcio_gpio_force_update a w).1.gpio
  rcio_gpio_force_update-GpioInv w inv = rw (rcio_gpio_force_update_lem a w) inv

  pub rcio_gpio_update-GpioInv :
      (w : World D) → GpioInv w.gpio → GpioInv (rcio_gpio_update a w).1.gpio
  unfolding rcio_gpio_update
  rcio_gpio_update-GpioInv w inv =
      if_world w.gpio.gpio_supported _ (true, w)
        (if_world _ (rcio_gpio_force_update a (record w { gpio = update_dequeue w.gpio })) (true, w)
          (rcio_gpio_force_update-GpioInv _
            (unfold update_dequeue in set_updated w.gpio _ (omega arith) inv))
          inv)
        inv

  pub reset_store-GpioInv :
      (w : World D) (count : ℕ) → GpioInv w.gpio → GpioInv (reset_store a w count).1.gpio
  unfolding reset_store
  reset_store-GpioInv w count inv = cleared_states w.gpio inv

  pub gpio_direction_input-GpioInv :
      (w : World D) (offset : ℕ) → GpioInv w.gpio → GpioInv (gpio_direction_input a w offset).1.gpio
  unfolding gpio_direction_input
  gpio_direction_input-GpioInv w offset inv =
      rcio_gpio_force_update-GpioInv _ (on_pin-GpioInv _ offset w.gpio (set_bit_m-IsWord 14) inv)

  pub gpio_direction_output-GpioInv :
      (w : World D) (offset : ℕ) (value : ℤ)
      → GpioInv w.gpio
      → GpioInv (gpio_direction_output a w offset value).1.gpio
  unfolding gpio_direction_output
  gpio_direction_output-GpioInv w offset value inv =
      rcio_gpio_force_update-GpioInv _ (on_pin-GpioInv _ offset w.gpio (clear_bit_m-IsWord 14) inv)
