-- ===== src/Core.antt =====
-- src/rcio_core.c: the parts of the driver put together, from rcio_probe to rcio_remove.
pub mod Worker
pub mod Init
pub mod Channels
pub mod Driver
pub mod Start
pub mod Delivery
