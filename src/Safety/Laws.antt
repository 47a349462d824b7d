-- ===== src/Safety/Laws.antt =====
-- What an update sends and when, and the range and the order of the heartbeats.
use rcio_dkms.Base.{
  ℕ, ◌+◌, ◌%◌, ◌<◌, ◌≡◌, refl, true, false, Option, ℤ, pos, negsuc, is_neg, ◌⊎◌, [], ◌∷◌, arith,
  if◌then◌else◌,
}
use rcio_dkms.Base.Int.{to_bool}
use rcio_dkms.Adapter.{Adapter}
use rcio_dkms.Kernel.{Kernel, ulong}
use rcio_dkms.Protocol.Regs.{px4io_page_rcio_heartbeat}
use rcio_dkms.Registers.{register_set}
use rcio_dkms.Safety.{
  Safety, initial_safety, next_heartbeat, heartbeat_enabled_store, rcio_safety_probe,
  rcio_safety_do_heartbeat, heartbeat_if_enabled, rcio_safety_update,
}

-- A heartbeat fits a byte.
abbrev pub SafetyInv : Safety → Type 0
SafetyInv s = s.heartbeat < 256

pub initial_safety-SafetyInv : SafetyInv initial_safety
unfolding initial_safety
initial_safety-SafetyInv = omega arith

pub next_heartbeat_lem : (n : ℕ) → n < 256 → next_heartbeat n ≡ (n + 1) % 256
unfolding next_heartbeat
next_heartbeat_lem n h = ground arith

-- The `int` of a write of one register is never 0.
one_written : (r : ℤ) → (r ≡ pos 1) ⊎ (is_neg r ≡ true) → to_bool r ≡ true
one_written (pos n) h = ground arith
one_written (negsuc n) h = refl

module _ {D : Type 0} (a : Adapter D) where
  heartbeat_written :
      (d : D) (s : Safety)
      → to_bool (register_set a d px4io_page_rcio_heartbeat 0 (s.heartbeat ∷ []) 1).0 ≡ true
  unfolding register_set
  heartbeat_written d s = one_written _ (a.write_result d _ (s.heartbeat ∷ []) 1)

  module _ (k : Kernel) (now later : ℕ) (d : D) (s : Safety) where
    -- For a heartbeat below 256: before the timeout nothing is done. From the timeout on, an update
    -- returns true and puts the timeout 200 ms on; an enabled heartbeat is written to its page and
    -- is followed by the next number modulo 256; a disabled one is not written. No error is ever
    -- logged, also where the write has failed.
    pub rcio_safety_update_lem :
        s.heartbeat < 256
        → rcio_safety_update a k now later d s ≡ (
            if k.time_before now s.timeout then (false, s, d) else (
              true,
              record s {
                timeout = ulong (later + k.msecs_to_jiffies 200);
                heartbeat = if s.heartbeat_enabled then (s.heartbeat + 1) % 256 else s.heartbeat;
              },
              if s.heartbeat_enabled
                  then (register_set a d px4io_page_rcio_heartbeat 0 (s.heartbeat ∷ []) 1).1
                  else d,
            ))
    unfolding rcio_safety_update heartbeat_if_enabled rcio_safety_do_heartbeat
    rcio_safety_update_lem small =
        ground (arith, heartbeat_written d s, next_heartbeat_lem s.heartbeat)

    pub rcio_safety_update-SafetyInv :
        SafetyInv s → SafetyInv (rcio_safety_update a k now later d s).1
    rcio_safety_update-SafetyInv small = ground (arith, rcio_safety_update_lem small)

pub heartbeat_enabled_store-SafetyInv :
    (parsed : Option ℤ) (count : ℕ) (s : Safety)
    → SafetyInv s
    → SafetyInv (heartbeat_enabled_store parsed count s).1
unfolding heartbeat_enabled_store
heartbeat_enabled_store-SafetyInv parsed count s small = ground arith

pub rcio_safety_probe-SafetyInv :
    (k : Kernel) (now : ℕ) (created : ℤ) (s : Safety)
    → SafetyInv s
    → SafetyInv (rcio_safety_probe k now created s).1
unfolding rcio_safety_probe
rcio_safety_probe-SafetyInv k now created s small = ground arith
