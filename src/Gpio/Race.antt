-- ===== src/Gpio/Race.antt =====
-- src/rcio_gpio.c as threads run it beside the worker: callers change pin registers and ask for an
-- update, the worker takes requests and sends, one access to a shared variable at a time. Nothing
-- in the source orders these accesses, which are plain loads and stores. The model has them take
-- effect in the order in which they are made, as they do for threads that share one processor;
-- processors that may see them in another order are outside it. So are reset_store, which changes
-- pins and asks for no update, and the result of a transfer, which the source does not look at.
pub mod Programs
pub mod Covered
pub mod Invariant
pub mod Callers
pub mod Consumer
pub mod Delivered
pub mod Drained
use rcio_dkms.Base.{
  ℕ, zero, suc, ◌+◌, ◌-◌, ◌%◌, ◌^◌, ◌<◌, ◌≡◌, true, List, [], ◌∷◌, ◌++◌, ℤ, get_or, set,
  if◌then◌else◌, update,
}
use rcio_dkms.Protocol.Pins.{
  gpio_set_pin_gpio_enable, gpio_set_pin_state_high, gpio_set_pin_state_low,
  gpio_set_pin_direction_input, gpio_set_pin_direction_output,
}
use rcio_dkms.State.{Gpio, int_pos, rcio_pwm_max_channels}
use rcio_dkms.Gpio.Pin.{on_pin, is_zero}

-- One access of a caller: an assigning macro on a pin's register, the copy of a register into the
-- packet that a register_set sends, and the load and the store of `pin_states_updated++`.
pub data Act : Type 0 where
  touch : (f : ℕ → ℕ) (pin : ℕ) → Act
  copy : (pin : ℕ) → Act
  load store : Act

-- The registers from `pin` on, `n` of them.
unfoldable pub copies : (pin n : ℕ) → List Act
copies pin zero = []
copies pin (suc n) = copy pin ∷ copies (suc pin) n

-- rcio_gpio_force_update, whose test of the uint16_t result never holds.
unfoldable pub force_update : List Act
unfolding copies
force_update = copies 0 rcio_pwm_max_channels

abbrev pub enqueue : List Act
enqueue = load ∷ store ∷ []

-- The calls, and what each does to the pins and to the queue.
pub data Job : Type 0 where
  chip_set : (offset : ℕ) (value : ℤ) → Job  -- gpio_chip_set
  direction_input direction_output : (offset : ℕ) → Job
  request_pin : (offset : ℕ) → Job  -- gpio_chip_request, once the pin is exported
  free_pin : (offset : ℕ) → Job  -- gpio_chip_free, once GPIO_EXPORTED is read

-- The ends of gpio_chip_request and gpio_chip_free.
abbrev pub put_low : ℕ → List Act
put_low offset =
    touch gpio_set_pin_direction_output offset ∷ touch gpio_set_pin_state_low offset ∷ force_update
    ++ enqueue

abbrev pub clear : ℕ → List Act
clear offset = touch (λ _. 0) offset ∷ force_update ++ enqueue

unfoldable pub program : Job → List Act
program (chip_set offset value) =
    touch gpio_set_pin_gpio_enable offset
    ∷ touch (if is_zero value then gpio_set_pin_state_low else gpio_set_pin_state_high) offset
    ∷ enqueue
program (direction_input offset) = touch gpio_set_pin_direction_input offset ∷ force_update
program (direction_output offset) = touch gpio_set_pin_direction_output offset ∷ force_update
program (request_pin offset) =
    touch (λ _. 0x0000) offset ∷ touch gpio_set_pin_gpio_enable offset ∷ force_update
    ++ put_low offset
program (free_pin offset) = touch gpio_set_pin_state_low offset ∷ force_update ++ clear offset

-- A caller: the value that its `++` has loaded, and what is left of its call.
pub record Caller : Type 0 where
  pub loaded : ℕ
  pub rest : List Act

-- The worker in rcio_gpio_update: before the test, after it, with the value that `--` has loaded,
-- and at register `pin` of the update.
pub data Worker : Type 0 where
  waiting found : Worker
  dequeuing : (n : ℕ) → Worker
  sending : (pin : ℕ) → Worker

-- The variables; `sent`, the register values last put into a packet for the device, whether or not
-- its transfer succeeds; the number of stores by `pin_states_updated++` since the load of the
-- module; the threads. The copies of two updates, which the mutex of src/rcio_spi.c keeps apart,
-- may mix here.
pub record Race : Type 0 where
  pub gpio : Gpio
  pub sent : List ℕ
  pub enqueued : ℕ
  pub caller : ℕ → Caller
  pub worker : Worker

abbrev pub copied : ℕ → Gpio → List ℕ → List ℕ
copied pin g sent = set sent pin (get_or g.pin_states pin 0)

-- One access of a caller.
unfoldable pub act : Act → ℕ → Gpio → List ℕ → ℕ × Gpio × List ℕ
unfolding on_pin
act (touch f pin) loaded g sent = (loaded, on_pin f pin g, sent)
act (copy pin) loaded g sent = (loaded, g, copied pin g sent)
act load loaded g sent = (g.pin_states_updated, g, sent)
act store loaded g sent = (loaded, record g { pin_states_updated = (loaded + 1) % 2 ^ 32 }, sent)

-- Whether an access is a store of `pin_states_updated++`.
unfoldable pub stores : Act → ℕ
stores store = 1
stores _ = 0

pub data Step (s : Race) : Race → Type 0 where
  begin :
      (i : ℕ) (job : Job)
      → (s.caller i).rest ≡ []
      → Step s (record s { caller = update s.caller i (record { loaded = 0; rest = program job }) })
  go_on :
      (i : ℕ) {a : Act} {rest : List Act}
      → (s.caller i).rest ≡ a ∷ rest
      → Step s (record s {
        gpio = (act a (s.caller i).loaded s.gpio s.sent).1;
        sent = (act a (s.caller i).loaded s.gpio s.sent).2;
        enqueued = s.enqueued + stores a;
        caller =
            update s.caller i
              (record { loaded = (act a (s.caller i).loaded s.gpio s.sent).0; rest = rest });
      })
  test :
      s.worker ≡ waiting
      → s.gpio.gpio_supported ≡ true
      → int_pos s.gpio.pin_states_updated ≡ true
      → Step s (record s { worker = found })
  take_count : s.worker ≡ found → Step s (record s { worker = dequeuing s.gpio.pin_states_updated })
  put_count :
      {n : ℕ}
      → s.worker ≡ dequeuing n
      → Step s (record s {
        gpio = record (s.gpio) { pin_states_updated = (n + 2 ^ 32 - 1) % 2 ^ 32 };
        worker = sending 0;
      })
  send_pin :
      {pin : ℕ}
      → s.worker ≡ sending pin
      → pin < rcio_pwm_max_channels
      → Step s (record s { sent = copied pin s.gpio s.sent; worker = sending (suc pin) })
  all_sent : s.worker ≡ sending rcio_pwm_max_channels → Step s (record s { worker = waiting })

-- What the states reached from `s` are, in any interleaving.
pub data Reach (s : Race) : Race → Type 0 where
  here : Reach s s
  next : {now after : Race} → Reach s now → Step now after → Reach s after

-- rcio_gpio_probe leaves one request, whatever the device has.
abbrev pub probed : Gpio → List ℕ → Race
probed g sent = record {
  gpio = record g { pin_states_updated = 1 };
  sent = sent;
  enqueued = 1;
  caller = λ _. record { loaded = 0; rest = [] };
  worker = waiting;
}
