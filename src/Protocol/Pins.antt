-- ===== src/Protocol/Pins.antt =====
-- The bit macros of src/protocol.h, on a `uint16_t` as the driver uses them: `|` and `&` are done
-- in `int`, of 32 bits, and the assignment keeps the low 16.
pub mod Laws
use rcio_dkms.Base.{ℕ, ◌-◌, ◌*◌, ◌/◌, ◌%◌, ◌^◌, bit_and, bit_or}

-- `~v` on an `int`, as its bit pattern.
abbrev pub not32 : ℕ → ℕ
not32 v = 2 ^ 32 - 1 - v

-- `(p) |= (1 << (n))`
unfoldable pub set_bit_m : ℕ → ℕ → ℕ
set_bit_m p n = bit_or p (2 ^ n) % 2 ^ 16

-- `(p) &= (~(1) << (n))`
unfoldable pub clear_bit_m : ℕ → ℕ → ℕ
clear_bit_m p n = bit_and p (not32 1 * 2 ^ n % 2 ^ 32) % 2 ^ 16

-- `((p >> n) & 1)`
unfoldable pub get_bit_m : ℕ → ℕ → ℕ
get_bit_m p n = bit_and (p / 2 ^ n) 1

abbrev pub gpio_set_pin_gpio_enable : ℕ → ℕ
gpio_set_pin_gpio_enable x = set_bit_m x 15

abbrev pub gpio_get_pin_gpio_enabled : ℕ → ℕ
gpio_get_pin_gpio_enabled x = get_bit_m x 15

abbrev pub gpio_set_pin_state_high : ℕ → ℕ
gpio_set_pin_state_high x = set_bit_m x 0

abbrev pub gpio_set_pin_state_low : ℕ → ℕ
gpio_set_pin_state_low x = clear_bit_m x 0

abbrev pub gpio_get_pin_state : ℕ → ℕ
gpio_get_pin_state x = get_bit_m x 0

abbrev pub gpio_set_pin_direction_input : ℕ → ℕ
gpio_set_pin_direction_input x = set_bit_m x 14

abbrev pub gpio_set_pin_direction_output : ℕ → ℕ
gpio_set_pin_direction_output x = clear_bit_m x 14

abbrev pub gpio_get_pin_direction : ℕ → ℕ
gpio_get_pin_direction x = get_bit_m x 14
