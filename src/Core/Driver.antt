-- ===== src/Core/Driver.antt =====
-- All that can happen to the driver once rcio_init has returned: rounds of the worker, between them
-- the calls of `System`, and stores to the file of the heartbeat, one at a time.
use rcio_dkms.Base.{ℕ, Option, ℤ}
use rcio_dkms.Adapter.{Adapter}
use rcio_dkms.Kernel.{Kernel}
use rcio_dkms.State.{World}
use rcio_dkms.Safety.{heartbeat_enabled_store}
use rcio_dkms.Safety.Laws.{heartbeat_enabled_store-SafetyInv}
use rcio_dkms.System
use rcio_dkms.System.Invariant.{Step-WorldInv}
use rcio_dkms.Core.Worker.{Driver, Ticks, worker_round}
use rcio_dkms.Core.Worker.Laws.{DriverInv, worker_round-DriverInv}

module _ {D : Type 0} (a : Adapter D) (junk : ℕ) (k : Kernel) where
  pub data Move : Driver D → Driver D → Type 0 where
    round : (t : Ticks) (v : Driver D) → Move v (worker_round a junk k t v)
    call :
        (v : Driver D) {w : World D}
        → System.Step a k junk v.world w
        → Move v (record v { world = w })
    store_heartbeat :
        (parsed : Option ℤ) (count : ℕ) (v : Driver D)
        → Move v (record v { safety = (heartbeat_enabled_store parsed count v.safety).1 })

  pub data Run (start : Driver D) : Driver D → Type 0 where
    begin : Run start start
    then_move : {v v' : Driver D} → Run start v → Move v v' → Run start v'

  Move-DriverInv : {v v' : Driver D} → Move v v' → DriverInv v → DriverInv v'
  Move-DriverInv (round t v) inv = worker_round-DriverInv a junk k t v inv
  Move-DriverInv (call v step) inv = (Step-WorldInv a k junk step inv.0, inv.1, inv.2, inv.3)
  Move-DriverInv (store_heartbeat parsed count v) inv =
      (inv.0, inv.1, inv.2, heartbeat_enabled_store-SafetyInv parsed count v.safety inv.3)

  -- Rounds of the worker, calls and stores, in any order and at any times, keep the invariants of
  -- all parts.
  pub Run-DriverInv : {v v' : Driver D} → Run v v' → DriverInv v → DriverInv v'
  Run-DriverInv begin inv = inv
  Run-DriverInv (then_move run move) inv = Move-DriverInv move (Run-DriverInv run inv)
