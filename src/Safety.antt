-- ===== src/Safety.antt =====
-- src/rcio_safety.c: the heartbeat by which the coprocessor knows that the driver runs.
pub mod Laws
use rcio_dkms.Base.{
  ℕ, ◌+◌, ◌%◌, ◌^◌, Bool, true, false, not, Option, none, some, ℤ, pos, negsuc, is_neg, einval, [],
  ◌∷◌, ltb, if◌then◌else◌,
}
use rcio_dkms.Base.Int.{to_bool}
use rcio_dkms.Adapter.{Adapter}
use rcio_dkms.Kernel.{Kernel, ulong}
use rcio_dkms.Protocol.Regs.{px4io_page_rcio_heartbeat}
use rcio_dkms.Registers.{register_set}

-- `struct rcio_safety`; `errors` counts the lines "Could not do heartbeat" of the log.
pub record Safety : Type 0 where
  pub timeout : ℕ
  pub heartbeat_enabled : Bool
  pub heartbeat : ℕ
  pub errors : ℕ

unfoldable pub initial_safety : Safety
initial_safety = record { timeout = 0; heartbeat_enabled = false; heartbeat = 0; errors = 0 }

-- `heartbeat++; if (heartbeat > 0xFF) heartbeat = 0;`, on a `uint16_t`.
unfoldable pub next_heartbeat : ℕ → ℕ
next_heartbeat n = if ltb 0xff ((n + 1) % 2 ^ 16) then 0 else (n + 1) % 2 ^ 16

-- heartbeat_enabled_store: `parsed` is what kstrtol makes of the text, `none` for its error.
unfoldable pub heartbeat_enabled_store : Option ℤ → ℕ → Safety → ℤ × Safety
heartbeat_enabled_store none count s = (einval, s)
heartbeat_enabled_store (some value) count s =
    (pos count, record s { heartbeat_enabled = to_bool value })

-- rcio_safety_probe: `created` is what sysfs_create_group returns. The function's result is a bool.
unfoldable pub rcio_safety_probe : Kernel → ℕ → ℤ → Safety → Bool × Safety
rcio_safety_probe k now created s =
    let s' = record s { timeout = ulong (now + k.msecs_to_jiffies 20) } in
    if is_neg created
    then (false, s')
    else (true, record s' { heartbeat = 0; heartbeat_enabled = true })

module _ {D : Type 0} (a : Adapter D) where
  unfoldable pub rcio_safety_do_heartbeat : D → Safety → ℤ × Safety × D
  rcio_safety_do_heartbeat d s =
      let (result, d') = register_set a d px4io_page_rcio_heartbeat 0 (s.heartbeat ∷ []) 1 in
      (result, record s { heartbeat = next_heartbeat s.heartbeat }, d')

  -- The heartbeat of an update. `!rcio_safety_do_heartbeat(state)` holds for the result 0.
  unfoldable pub heartbeat_if_enabled : D → Safety → Safety × D
  heartbeat_if_enabled d s =
      let (result, s', d') = rcio_safety_do_heartbeat d s in
      if s.heartbeat_enabled
      then (if not (to_bool result) then (record s' { errors = s'.errors + 1 }, d') else (s', d'))
      else (s, d)

  unfoldable pub rcio_safety_update : Kernel → ℕ → ℕ → D → Safety → Bool × Safety × D
  rcio_safety_update k now later d s =
      let (s', d') = heartbeat_if_enabled d s in
      if k.time_before now s.timeout
      then (false, s, d)
      else (true, record s' { timeout = ulong (later + k.msecs_to_jiffies 200) }, d')
