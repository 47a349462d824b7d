-- ===== src/Lib.antt =====
-- rcio-dkms: the Linux driver of the RCIO coprocessor of Emlid's Navio2 and Edge boards.
--
-- The driver reaches the coprocessor's 16-bit registers, in pages, by packets over SPI. Its parts
-- and the files that model them:
--
-- * src/protocol.h, the register map, the packet, its checksum and the bit macros: Protocol and
--   below. A packet is a record of its fields; `bytes` and `of_bytes` are its 68 bytes in memory.
--   `past` is what memory holds behind the packet, which crc_packet reads when a reply counts
--   more than 32 registers.
-- * src/rcio_spi.c, one transaction: Spi and below. spi_write_then_read is the parameter SpiBus;
--   a call that succeeds has filled the receive buffer with bytes.
-- * struct rcio_adapter of src/rcio.h: Adapter, a record of the two calls and of what the rest of
--   the driver relies on; Spi.Contract fills it from src/rcio_spi.c.
-- * src/rcio_core.c, the register calls: Registers.
-- * src/rcio_pwm.c, the outputs: Pwm and below. Update has rcio_pwm_update and what it calls,
--   Config rcio_pwm_config, Channel the other operations on a channel, Setup the probe.
-- * Pwm.Race has the worker's change of a group's frequency and a caller of rcio_pwm_config that asks
--   for one, a shared access at a time, each with the tests that lead it there; Pwm.Race.Overlap has
--   runs of the two. Config.Safe has what rcio_pwm_config keeps on every path.
-- * src/rcio_gpio.c, the pins: Gpio and below. Pin has the operations on one pin's register, Chip
--   the request and release of a pin, Setup the probe.
-- * The static variables of the last two files and the device: State. A call takes a World and
--   returns one, with its result where it has one.
-- * src/rcio_adc.c, src/rcio_rcin.c, src/rcio_safety.c and src/rcio_status.c: Adc, Rcin, Safety and
--   Status, each a record of the file's variables with its update and its probe, and Laws below it.
-- * System has all calls that the kernel may make after the probes of the outputs and the pins as a
--   step relation, System.Invariant what the calls keep, and System.Probe the state that these
--   probes leave.
-- * src/rcio_core.c, the life of the module: Core and below. Worker has the rounds of the worker on
--   the state of all parts, Driver the rounds, the calls of System and the stores of the heartbeat
--   as one step relation, Init rcio_init with its error labels, rcio_probe and rcio_remove, and
--   Start the way from the load of the module to any run. What is registered with the kernel is
--   the record Kobjects; what the kernel's calls return is the record Outcomes.
-- * src/rcio_spi.c, the entry points: Spi.Probe.
-- * Spi.Server is the coprocessor's side of the protocol, as an interface: which registers store what
--   is written, which return what they store, what is stored, an answer to each packet, and what the
--   answers to requests within one page of such registers are. Of read-only registers, of those not
--   implemented and of commands it asks nothing. Spi.Server.Runs has
--   sequences of calls, over the bus and on an array; Core.Delivery puts the interface under
--   src/rcio_pwm.c.
-- * Spi.Threads has threads in these calls at the same time, a shared access at a time: the mutex of
--   struct rcio_adapter is `owner`, a thread is the stage that it stands at. Spi.Threads.Serial has
--   them against the calls one after the other, Release the way to the unlock, Device the
--   coprocessor behind them, Types and Widths the widths of what they store.
-- * Gpio.Race has the callers of src/rcio_gpio.c and the worker on `pin_states` and
--   `pin_states_updated`, a shared access at a time: `++` and `--` are a load and a store, an update
--   copies register by register. Programs has a call alone, the modules beside it the invariant.
-- * Gpio.Export has gpio_export_gpio_pin against the coprocessor's register, alone and with another one
--   between its two register calls.
-- * Pwm.Probing and Gpio.Probing have the two probes in two parts, at the call that hands the chip to
--   the kernel, and a call of the kernel between them; System.Stuck the calls after that.
-- * Sysfs has the texts that the sysfs files show. The conversions of sprintf and kstrtol are the
--   parameter Format. Sysfs.Attrs has the tables of attributes, with the kernel's sysfs, which makes
--   files of them, as the parameter Group; Sysfs.Channels has those of the analog inputs and of the
--   receiver, with sscanf as the parameter ScanChannel, and Sysfs.Groups those of the status, the
--   heartbeat and the pins. Core.Channels has the files of a driver that runs.
-- * Kernel has HZ, time_before and msecs_to_jiffies as parameters. A function that reads jiffies
--   takes the time as an argument, and two where it reads them again after a transfer. `ulong` is
--   `unsigned long`, of 32 bits.
--
-- An `int` is Base.Int.ℤ, an `int` counter its 32-bit pattern, a u16 a number below 2 ^ 16, and
-- `unsigned long` has 32 bits, for the 32-bit ARM that the driver is built for. A local variable
-- that the source leaves uninitialised holds the parameter `junk`. Every loop of the source has a
-- fixed bound and is a structural recursion on it, so no fuel is used. A call that the source makes
-- on one branch only is computed by a `let` above the test, and used on that branch only.
--
-- The `errors` of Safety counts the lines of the log that tell of a heartbeat not sent. `fault` of
-- Kobjects is set where pwmchip_remove is called on a null pointer, gpiochip_remove on a chip that is
-- not registered, or kthread_stop where kthread_run gave no thread.
--
-- Not modelled: the log, which changes no state of the driver; delays; the tables of the drivers and
-- of the operations of the two chips; the modes of the sysfs files and the names of their groups. Group makes the files of every table;
-- a group that sysfs_create_group has not made is in Core.Channels. Threads
-- overlap in Spi.Threads, Pwm.Race, Gpio.Race, Gpio.Export, Pwm.Probing and Gpio.Probing; in the
-- other modules a call of the kernel or a round of the worker is one step. There each access takes
-- effect at once and in the order of the program, as for threads on one processor; no reordering by
-- several processors is modelled. Within Gpio.Race an
-- assigning macro on a pin's register is one access, and gpio_chip_request and gpio_chip_free are in
-- it from their first store to a pin on; reset_store, which asks for no update, is not in it, and
-- whether a transfer succeeds, which the source does not look at there, is left open. The
-- registers of src/protocol.h that no function of the driver names are left out.
pub mod Base
pub mod Protocol
pub mod Adapter
pub mod Spi
pub mod Kernel
pub mod Registers
pub mod State
pub mod Pwm
pub mod Gpio
pub mod Adc
pub mod Rcin
pub mod Safety
pub mod Status
pub mod Sysfs
pub mod System
pub mod Core
pub mod Tests
