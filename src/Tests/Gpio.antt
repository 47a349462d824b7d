-- ===== src/Tests/Gpio.antt =====
-- The pins at concrete inputs.
use rcio_dkms.Base.{
  length, length-replicate, All-replicate, inl, ◌+◌, refl, false, is_neg, bit_and, ◌==◌,
  if◌then◌else◌, ℕ, ◌^◌, ◌≡◌, true, pos, ◌∷◌, arith, get_or, replicate,
}
use rcio_dkms.Base.Bits.{bit}
use rcio_dkms.Protocol.Regs.{
  px4io_page_gpio, px4io_page_setup, px4io_p_setup_features, px4io_p_setup_features_gpio,
  px4io_page_pwm_exported,
}
use rcio_dkms.Registers.{address_of, register_get, register_set}
use rcio_dkms.State.{World, Gpio, initial_pwm}
use rcio_dkms.Gpio.Pin.{
  pwmignore_do_ignore_pin, pwmignore_do_unignore_pin, gpio_get_direction, gpio_direction_input,
  gpio_direction_output, rcio_gpio_update,
}
use rcio_dkms.Gpio.Laws.{pwmignore_do_ignore_pin_lem, rcio_gpio_update_lem, gpio_direction_lem}
use rcio_dkms.Pwm.Channel.{pwm_check_device_motors_running_count, count_spinning}
use rcio_dkms.Protocol.Pins.{set_bit_m}
use rcio_dkms.Gpio.Chip.{
  gpio_unexport_pwm_pin, gpio_chip_request, gpio_export_gpio_pin, stop_motors, take_from_pwm,
}
use rcio_dkms.Gpio.Chip.Laws.{pwm_exported, gpio_chip_request_granted}
use rcio_dkms.Gpio.Setup.{rcio_gpio_probe}
use rcio_dkms.Gpio.Probing.{chip_added, clear_pins, zeros_sent, request_forgotten}
use rcio_dkms.Adapter.{Adapter}
use rcio_dkms.Protocol.Packet.{IsWord}
use rcio_dkms.Tests.{clock, quiet}

-- Pins 1 and 3 are ignored by PWM, and one update is enqueued.
abbrev pins : Gpio
pins = record {
  gpio_supported = true;
  pwm_ignore_writings_mask = 0xa;
  pin_states_updated = 1;
  pin_states = 0x8001 ∷ replicate 15 0;
}

abbrev board : World ℕ
board = record { dev = 0; pwm = initial_pwm; gpio = pins }

rcio_gpio_update_example : rcio_gpio_update quiet board ≡ (
  true,
  record board {
    dev = (register_set quiet 0 px4io_page_gpio 0 pins.pin_states 16).1;
    gpio = record pins { pin_states_updated = 0 };
  },
)
rcio_gpio_update_example = rcio_gpio_update_lem quiet board (omega arith)

-- Pin 3 is taken back, and pin 1 with it.
pwmignore_do_ignore_pin_example :
    (bit (pwmignore_do_ignore_pin 3 pins).pwm_ignore_writings_mask 1 ≡ bit 0xa 1)
    × (bit (pwmignore_do_unignore_pin 3 pins).pwm_ignore_writings_mask 1 ≡ 0)
pwmignore_do_ignore_pin_example = pwmignore_do_ignore_pin_lem pins 3 1 (omega arith) (omega arith)

gpio_direction_example :
    (gpio_get_direction (gpio_direction_input quiet board 0).1.gpio 0 ≡ 1)
    × (gpio_get_direction (gpio_direction_output quiet board 0 (pos 1)).1.gpio 0 ≡ 0)
    × (bit (get_or (gpio_direction_output quiet board 0 (pos 1)).1.gpio.pin_states 0 0) 0 ≡ 0)
gpio_direction_example =
    gpio_direction_lem quiet board 0 0 (pos 1) (omega arith) (omega arith) (omega arith)

request_done : (gpio_chip_request quiet 3 clock 10 board 2).0 ≡ pos 0
unfolding gpio_chip_request pwm_check_device_motors_running_count count_spinning stop_motors
    take_from_pwm gpio_export_gpio_pin register_get register_set
request_done = refl

gpio_chip_request_granted_example :
    let w' = (gpio_chip_request quiet 3 clock 10 board 2).1 in
    (is_neg (pwm_check_device_motors_running_count quiet 3 0).0 ≡ false)
    × (is_neg (pwm_exported quiet 3 clock 10 board).0 ≡ false)
    × (get_or w'.gpio.pin_states 2 0 ≡ 0x8000)
    × (w'.gpio.pin_states_updated ≡ 2)
    × (w'.gpio.pwm_ignore_writings_mask ≡ (
        if bit_and (get_or (pwm_exported quiet 3 clock 10 board).1 0 0) (2 ^ 2) == 0
        then 0xa
        else set_bit_m 0xa 2))
gpio_chip_request_granted_example =
    gpio_chip_request_granted quiet 3 clock 10 board 2 2 (omega arith) request_done

-- A device with the features of GPIO and of ignoring PWM; pin 2 is exported to PWM.
abbrev register_at : ℕ → ℕ
register_at address =
    if address == address_of px4io_page_setup px4io_p_setup_features
    then px4io_p_setup_features_gpio
    else (if address == address_of px4io_page_pwm_exported 0 then 4 else 0)

register_at-IsWord : (address : ℕ) → IsWord (register_at address)
register_at-IsWord address = ground arith

abbrev with_gpio : Adapter ℕ
with_gpio = record {
  read = λ d address old n. (pos n, replicate (length old) (register_at address), d);
  write = λ d address values n. (pos n, d + 1);
  read_result = λ d address old n. inl refl;
  read_length = λ d address old n h. length-replicate (length old) (register_at address);
  read_words = λ d address old n h.
      All-replicate IsWord (length old) (register_at address) (register_at-IsWord address);
  write_result = λ d address values n. inl refl;
}

request_between :
    (gpio_chip_request with_gpio 3 clock 10 (chip_added with_gpio 3 board) 2).0 ≡ pos 0
unfolding chip_added gpio_chip_request pwm_check_device_motors_running_count count_spinning
    stop_motors take_from_pwm gpio_unexport_pwm_pin gpio_export_gpio_pin register_get register_set
    address_of
request_between = refl

request_forgotten_example :
    let w1 = (gpio_chip_request with_gpio 3 clock 10 (chip_added with_gpio 3 board) 2).1 in
    let w2 = (clear_pins with_gpio 3 w1).1 in
    (rcio_gpio_probe with_gpio 3 (pos 0) (pos 0) board
      ≡ clear_pins with_gpio 3 (chip_added with_gpio 3 board))
    × (get_or w1.gpio.pin_states 2 0 ≡ 0x8000)
    × (w2.gpio.pin_states ≡ replicate 16 0)
    × (w2.dev ≡ zeros_sent with_gpio w1.dev)
    × (w2.gpio.pwm_ignore_writings_mask ≡ 0xe)
unfolding chip_added pwm_check_device_motors_running_count count_spinning stop_motors register_get
    register_set address_of set_bit_m
request_forgotten_example =
    request_forgotten with_gpio 3 clock 10 (pos 0) (pos 0) board 2 refl refl refl (omega arith)
      request_between
