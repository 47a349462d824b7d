-- ===== src/Pwm.antt =====
-- src/rcio_pwm.c: the outputs, their frequencies, and the update that the worker thread makes.
pub mod Update
pub mod Config
pub mod Channel
pub mod Setup
pub mod Invariant
pub mod Probing
pub mod Race
