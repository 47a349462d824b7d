-- ===== src/Gpio/Race/Drained.antt =====
-- The worker of Gpio/Race.antt on its own, from a request to the end of the update.
use rcio_dkms.Base.{
  ℕ, zero, suc, ◌+◌, ◌-◌, ◌%◌, ◌^◌, ◌≡◌, refl, sym, ◌∙◌, ap, true, Option, none, some, ◌&&◌, ltb,
  length, arith, if_then, if◌then◌else◌,
}
use rcio_dkms.State.{int_pos, rcio_pwm_max_channels}
use rcio_dkms.Gpio.Race.{
  Race, Worker, waiting, found, dequeuing, sending, copied, Step, begin, go_on, test, take_count,
  put_count, send_pin, all_sent,
}
use rcio_dkms.Gpio.Race.Programs.{copies_sent, copies_sent_all}

-- A step of the worker.
abbrev pub ByWorker : {s t : Race} → Step s t → Type 0
ByWorker (begin i job e) = ⊥
ByWorker (go_on i e) = ⊥
ByWorker (test e supported asked) = Unit
ByWorker (take_count e) = Unit
ByWorker (put_count e) = Unit
ByWorker (send_pin e small) = Unit
ByWorker (all_sent e) = Unit

-- A run of `n` steps, all of the worker.
pub data Alone : ℕ → Race → Race → Type 0 where
  stay : {s : Race} → Alone 0 s s
  go : {n : ℕ} {s t u : Race} (step : Step s t) → ByWorker step → Alone n t u → Alone (suc n) s u

-- What the worker does next: nothing, outside its update, with no request or without GPIO.
next_step : Worker → Race → Option Race
next_step waiting s =
    if s.gpio.gpio_supported && int_pos s.gpio.pin_states_updated
    then some (record s { worker = found })
    else none
next_step found s = some (record s { worker = dequeuing s.gpio.pin_states_updated })
next_step (dequeuing n) s = some (record s {
  gpio = record (s.gpio) { pin_states_updated = (n + 2 ^ 32 - 1) % 2 ^ 32 };
  worker = sending 0;
})
next_step (sending pin) s =
    if ltb pin rcio_pwm_max_channels
    then some (record s { sent = copied pin s.gpio s.sent; worker = sending (suc pin) })
    else some (record s { worker = waiting })

ByWorker-next_step : {s t : Race} (step : Step s t) → ByWorker step → next_step s.worker s ≡ some t
unfolding next_step
ByWorker-next_step (begin i job e) by = absurd by
ByWorker-next_step (go_on i e) by = absurd by
ByWorker-next_step {s} (test e supported asked) by = rw (e, supported, asked) refl
ByWorker-next_step {s} (take_count e) by = rw (e) refl
ByWorker-next_step {s} (put_count {n} e) by = rw (e) refl
ByWorker-next_step {s} (send_pin {pin} e small) by =
    rw (e) (if_then {b = ltb pin rcio_pwm_max_channels} _ _ (ground arith))
ByWorker-next_step {s} (all_sent e) by = rw (e) refl

-- The worker has one run of each length.
Alone-unique : {n : ℕ} {s t u : Race} → Alone n s t → Alone n s u → t ≡ u
Alone-unique stay stay = refl
Alone-unique (go {t = now} step by rest) (go {t = now'} step' by' rest') =
    Alone-unique rest (rw (same) rest')
  where
    same : now ≡ now'
    same =
        ap (λ o. elim o [ none ↦ now | some x ↦ x ])
          (sym (ByWorker-next_step step by) ∙ ByWorker-next_step step' by')

-- The registers that are left are sent.
sweep :
    (pin n : ℕ) (s : Race)
    → s.worker ≡ sending pin
    → pin + n ≡ 16
    → Alone (suc n) s (record s { sent = copies_sent pin n s.gpio s.sent; worker = waiting })
unfolding copies_sent
sweep pin zero s e h = go (all_sent (e ∙ ap sending (omega (arith, h)))) tt stay
sweep pin (suc n) s e h = go (send_pin e (omega (arith, h))) tt (
    sweep (suc pin) n (record s { sent = copied pin s.gpio s.sent; worker = sending (suc pin) })
      refl (omega (arith, h)))

-- With 16 pins, on a device with GPIO and with a request in the queue, the worker outside its
-- update: there is a state to which 20 steps of the worker alone lead, and any run of 20 steps of
-- the worker alone leads to it. There one update has come to its end: one request is taken, the
-- calls and the pins are as they were, and every register has been put into a packet as it is,
-- whether or not the transfer succeeds.
pub worker_drains :
    (s : Race)
    → length s.gpio.pin_states ≡ 16
    → length s.sent ≡ 16
    → s.worker ≡ waiting
    → s.gpio.gpio_supported ≡ true
    → int_pos s.gpio.pin_states_updated ≡ true
    → (t : Race) × Alone 20 s t
      × ((u : Race) → Alone 20 s u → t ≡ u)
      × (t.worker ≡ waiting)
      × (t.caller ≡ s.caller)
      × (t.gpio.pin_states ≡ s.gpio.pin_states)
      × (t.gpio.pin_states_updated + 1 ≡ s.gpio.pin_states_updated)
      × (t.sent ≡ t.gpio.pin_states)
worker_drains s all all' e supported asked = (
  record s' { sent = copies_sent 0 16 s'.gpio s.sent; worker = waiting },
  run,
  λ u other. Alone-unique run other,
  refl,
  refl,
  refl,
  ground arith,
  copies_sent_all s'.gpio s.sent all all',
)
  where
    s' : Race
    s' = record s {
      gpio = record (s.gpio) {
        pin_states_updated = (s.gpio.pin_states_updated + 2 ^ 32 - 1) % 2 ^ 32;
      };
      worker = sending 0;
    }

    run : Alone 20 s (record s' { sent = copies_sent 0 16 s'.gpio s.sent; worker = waiting })
    run =
        go (test e supported asked) tt
          (go (take_count refl) tt (go (put_count refl) tt (sweep 0 16 s' refl refl)))
