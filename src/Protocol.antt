-- ===== src/Protocol.antt =====
-- src/protocol.h: the pages and registers that the driver names, the packet of the serial
-- protocol, its checksum, and the macros on the bits of a pin's register.
pub mod Regs
pub mod Packet
pub mod Crc
pub mod Pins
