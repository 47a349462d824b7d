-- ===== src/Rcin.antt =====
-- src/rcio_rcin.c: the channels of the remote control's receiver.
pub mod Laws
pub mod Update
use rcio_dkms.Base.{
  ℕ, zero, suc, ◌+◌, ◌/◌, Bool, true, false, not, ◌||◌, ℤ, pos, negsuc, is_neg, eio, enotconn, List,
  [], ◌∷◌, bit_and, get_or, set, replicate, ltb, ◌==◌, if◌then◌else◌,
}
use rcio_dkms.Adapter.{Adapter}
use rcio_dkms.Kernel.{Kernel, ulong}
use rcio_dkms.Protocol.Regs.{
  px4io_page_status, px4io_p_status_flags, px4io_p_status_flags_rc_ok, px4io_p_status_flags_rc_ppm,
  px4io_p_status_flags_rc_dsm, px4io_p_status_flags_rc_sbus, px4io_p_status_flags_rc_st24,
  px4io_page_raw_rc_input, px4io_p_raw_rc_base,
}
use rcio_dkms.Registers.{register_get}

abbrev pub rcio_rcin_max_channels : ℕ
rcio_rcin_max_channels = 16

abbrev pub rc_input_max_channels : ℕ
rc_input_max_channels = 18

-- enum RC_INPUT_SOURCE
pub data RcInputSource : Type 0 where
  unknown px4fmu_ppm px4io_ppm px4io_spektrum px4io_sbus px4io_st24 : RcInputSource

-- `struct rc_input_values`: the two fields that the driver writes.
pub record RcInputValues : Type 0 where
  pub input_source : RcInputSource
  pub values : List ℕ

-- The static variables.
pub record Rcin : Type 0 where
  pub measurements : List ℕ
  pub connected : Bool
  pub timeout : ℕ

unfoldable pub initial_rcin : Rcin
initial_rcin = record {
  measurements = replicate rcio_rcin_max_channels 0;
  connected = false;
  timeout = 0;
}

-- `ret == -ENOTCONN`
abbrev pub is_enotconn : ℤ → Bool
is_enotconn (pos n) = false
is_enotconn (negsuc n) = n == 106

-- rcio_rcin_probe: the result of sysfs_create_group is only logged.
unfoldable pub rcio_rcin_probe : Kernel → ℕ → Rcin → ℤ × Rcin
rcio_rcin_probe k now s =
    (pos 0, record s { timeout = ulong (now + k.hz / 100); connected = false })

-- The source by the flags, the first that is set.
unfoldable pub source_of : ℕ → RcInputSource
source_of status =
    if not (bit_and status px4io_p_status_flags_rc_ppm == 0)
    then px4io_ppm
    else (if not (bit_and status px4io_p_status_flags_rc_dsm == 0)
        then px4io_spektrum
        else (if not (bit_and status px4io_p_status_flags_rc_sbus == 0)
            then px4io_sbus
            else (if not (bit_and status px4io_p_status_flags_rc_st24 == 0)
                then px4io_st24
                else unknown)))

-- `report.values[i] > 2500 || report.values[i] < 800`
abbrev pub out_of_range : ℕ → Bool
out_of_range v = ltb 2500 v || ltb v 800

-- The loop that takes the values in range, from channel `i` with `left` to go.
unfoldable pub take_values : ℕ → ℕ → List ℕ → List ℕ → List ℕ
take_values zero i values measurements = measurements
take_values (suc left) i values measurements = take_values left (i + 1) values (
    if out_of_range (get_or values i 0)
    then measurements
    else set measurements i (get_or values i 0))

-- The loop that puts the channels to zero.
unfoldable pub clear_from : ℕ → ℕ → List ℕ → List ℕ
clear_from zero i measurements = measurements
clear_from (suc left) i measurements = clear_from left (i + 1) (set measurements i 0)

-- `junk` is what local variables hold that are not initialised.
module _ {D : Type 0} (a : Adapter D) (junk : ℕ) where
  unfoldable pub rcin_get_raw_values : D → RcInputValues → ℤ × RcInputValues × D
  rcin_get_raw_values d rc_val =
      let (ret, status, d1) =
        register_get a d px4io_page_status px4io_p_status_flags (junk ∷ []) 1 in
      let sourced = record rc_val { input_source = source_of (get_or status 0 0) } in
      let (ret', values', d2) =
        register_get a d1 px4io_page_raw_rc_input px4io_p_raw_rc_base rc_val.values
          rcio_rcin_max_channels in
      let filled = record sourced { values = values' } in
      if is_neg ret
      then (ret, rc_val, d1)
      else (if bit_and (get_or status 0 0) px4io_p_status_flags_rc_ok == 0
          then (enotconn, rc_val, d1)
          else (if is_neg ret' then (eio, filled, d2) else (pos 0, filled, d2)))

  -- `struct rc_input_values report;`
  abbrev pub fresh_report : RcInputValues
  fresh_report = record { input_source = unknown; values = replicate rc_input_max_channels junk }

  unfoldable pub rcio_rcin_update : Kernel → ℕ → ℕ → D → Rcin → Bool × Rcin × D
  rcio_rcin_update k now later d s =
      let (ret, report, d') = rcin_get_raw_values d fresh_report in
      if k.time_before now s.timeout
      then (false, s, d)
      else (if is_enotconn ret
          then (
            true,
            record s {
              connected = false;
              measurements = clear_from rcio_rcin_max_channels 0 s.measurements;
            },
            d',
          )
          else (if is_neg ret then (false, record s { connected = false }, d') else (
            true,
            record s {
              connected = true;
              measurements = take_values rcio_rcin_max_channels 0 report.values s.measurements;
              timeout = ulong (later + k.hz / 100);
            },
            d',
          )))
