-- ===== src/Tests.antt =====
-- A clock, a device and a bus to run the driver on, and the theorems at concrete inputs.
pub mod Spi
pub mod Coprocessor
pub mod Server
pub mod Threads
pub mod Sysfs
pub mod Files
pub mod Race
pub mod Overlap
pub mod Export
pub mod Sensors
pub mod Core
pub mod Pwm
pub mod Probing
pub mod Gpio
use rcio_dkms.Base.{
  ℕ, ◌+◌, ◌-◌, ◌%◌, ◌/◌, ◌^◌, ◌≡◌, refl, Bool, pos, einval, inl, List, [], ◌∷◌, arith, length,
  replicate, ltb, leb, ◌==◌, ◌&&◌, if◌then◌else◌, All, length-replicate, All-replicate, is_neg,
  false,
}
use rcio_dkms.Adapter.{Adapter}
use rcio_dkms.Kernel.{Kernel, ulong}
use rcio_dkms.Protocol.Packet.{IsByte, IsWord, packet_size}
use rcio_dkms.Spi.Bus.{SpiBus}

-- time_before, as <linux/jiffies.h> documents it: by the sign of the 32-bit difference.
abbrev pub before : ℕ → ℕ → Bool
before a b = ltb 0 ((b + 2 ^ 32 - a) % 2 ^ 32) && leb ((b + 2 ^ 32 - a) % 2 ^ 32) (2 ^ 31)

abbrev pub clock : Kernel
clock = record {
  hz = 100;
  time_before = before;
  msecs_to_jiffies = λ m. m / 10;
  hz_min = omega arith;
  hz_max = omega arith;
  before_later = λ t d h h' h''. ground arith;
  not_before_reached = λ t d h h'. ground arith;
}

-- A device whose state is the number of writes that it has taken, and whose registers hold `v`.
abbrev pub device : (v : ℕ) → IsWord v → Adapter ℕ
device v word = record {
  read = λ d address old n. (pos n, replicate (length old) v, d);
  write = λ d address values n. (pos n, d + 1);
  read_result = λ d address old n. inl refl;
  read_length = λ d address old n h. length-replicate (length old) v;
  read_words = λ d address old n h. All-replicate IsWord (length old) v word;
  write_result = λ d address values n. inl refl;
}

abbrev pub quiet : Adapter ℕ
quiet = device 0 (omega arith)

-- A bus that answers every packet with the same bytes.
abbrev pub answering :
    (reply : List ℕ) → length reply ≡ packet_size → All IsByte reply → SpiBus Unit
answering reply full words = record {
  write = λ d sent. (pos 0, d);
  read = λ d n. if n == packet_size then (pos 0, reply, d) else (einval, [], d);
  read_full = λ d n h. ground arith;
  read_bytes = λ d n h. ground arith;
}
