-- ===== src/Gpio.antt =====
-- src/rcio_gpio.c: the pins of the rail as GPIO, and the mask of outputs that PWM must not write.
pub mod Pin
pub mod Chip
pub mod Setup
pub mod Laws
pub mod Invariant
pub mod Probing
pub mod Race
pub mod Export
