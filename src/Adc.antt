-- ===== src/Adc.antt =====
-- src/rcio_adc.c: the measurements of the analog inputs.
pub mod Laws
use rcio_dkms.Base.{
  ℕ, ◌+◌, ◌/◌, Bool, true, false, not, ℤ, pos, negsuc, is_neg, ebusy, List, get_or, replicate, ltb,
  if◌then◌else◌,
}
use rcio_dkms.Adapter.{Adapter}
use rcio_dkms.Kernel.{Kernel, ulong}
use rcio_dkms.Protocol.Regs.{px4io_page_raw_adc_input}
use rcio_dkms.Registers.{register_get}

abbrev pub rcio_adc_max_channels_count : ℕ
rcio_adc_max_channels_count = 8

-- The static variables. `shown` is the place of the NULL in `attrs`: the channels before it are
-- files of the group, if sysfs_create_group has made it.
pub record Adc : Type 0 where
  pub measurements : List ℕ
  pub timeout : ℕ
  pub shown : ℕ
  pub grouped : Bool

unfoldable pub initial_adc : Adc
initial_adc = record {
  measurements = replicate rcio_adc_max_channels_count 0;
  timeout = 0;
  shown = rcio_adc_max_channels_count;
  grouped = false;
}

-- rcio_adc_probe: `created`, the result of sysfs_create_group, is only logged.
unfoldable pub rcio_adc_probe : Kernel → ℕ → ℤ → ℕ → Adc → ℤ × Adc
rcio_adc_probe k now created adc_channels_count s = (
  pos 0,
  record s {
    timeout = ulong (now + k.hz / 50);
    shown = adc_channels_count;
    grouped = not (is_neg created);
  },
)

module _ {D : Type 0} (a : Adapter D) where
  unfoldable pub rcio_adc_update : Kernel → ℕ → ℕ → D → Adc → Bool × Adc × D
  rcio_adc_update k now later d s =
      let (ret, measurements', d') =
        register_get a d px4io_page_raw_adc_input 0 s.measurements rcio_adc_max_channels_count in
      if k.time_before now s.timeout
      then (false, s, d)
      else (if is_neg ret then (false, record s { measurements = measurements' }, d') else (
        true,
        record s { measurements = measurements'; timeout = ulong (later + k.hz / 50) },
        d',
      ))
