-- ===== src/Gpio/Race/Consumer.antt =====
-- The steps of the worker in Gpio/Race.antt and its invariant.
use rcio_dkms.Base.{
  ℕ, suc, ◌+◌, ◌-◌, ◌%◌, ◌^◌, ◌≤◌, ◌<◌, ◌≡◌, refl, ◌∙◌, sym, ap, true, false, inl, inr, length-set,
  arith, Bool-cases, ◌==◌,
}
use rcio_dkms.State.{int_pos}
use rcio_dkms.Gpio.Race.{waiting, found, dequeuing, sending, Race, copied}
use rcio_dkms.Gpio.Race.Invariant.{
  will_send, Covered, clean, queued, due, pending, Inv, copied_at, copied_clean,
}

will_send-found : (j : ℕ) → will_send j found ≡ true
unfolding will_send
will_send-found j = refl

will_send-dequeuing : (j n : ℕ) → will_send j (dequeuing n) ≡ true
unfolding will_send
will_send-dequeuing j n = refl

pub will_send-waiting : (j : ℕ) → will_send j waiting ≡ false
unfolding will_send
will_send-waiting j = refl

will_send-from_zero : (j : ℕ) → will_send j (sending 0) ≡ true
unfolding will_send
will_send-from_zero j = ground arith

-- Past register `pin`, the worker is still on its way to the others.
will_send-next :
    (j pin : ℕ)
    → will_send j (sending pin) ≡ true
    → (pin == j) ≡ false
    → will_send j (sending (suc pin)) ≡ true
unfolding will_send
will_send-next j pin h off = ground arith

will_send-last : (j : ℕ) → will_send j (sending 16) ≡ true → 16 ≤ j
unfolding will_send
will_send-last j h = ground arith

pub test-Inv :
    (s : Race)
    → s.worker ≡ waiting
    → int_pos s.gpio.pin_states_updated ≡ true
    → Inv s
    → Inv (record s { worker = found })
test-Inv s e asked inv = record {
  few = inv.few;
  few_loaded = inv.few_loaded;
  taken = λ n h. absurd (ground arith);
  asked = λ h. ground arith;
  flushes = inv.flushes;
  pins_all = inv.pins_all;
  sent_all = inv.sent_all;
  covered = λ j small. due (will_send-found j);
}

pub take_count-Inv :
    (s : Race)
    → s.worker ≡ found
    → Inv s
    → Inv (record s { worker = dequeuing s.gpio.pin_states_updated })
take_count-Inv s e inv = record {
  few = inv.few;
  few_loaded = inv.few_loaded;
  taken = λ n h. ground (arith, inv.asked e, inv.few);
  asked = λ h. absurd (ground arith);
  flushes = inv.flushes;
  pins_all = inv.pins_all;
  sent_all = inv.sent_all;
  covered = λ j small. due (will_send-dequeuing j _);
}

pub put_count-Inv :
    (s : Race) (n : ℕ)
    → s.worker ≡ dequeuing n
    → s.enqueued < 2 ^ 31
    → Inv s
    → Inv (record s {
      gpio = record (s.gpio) { pin_states_updated = (n + 2 ^ 32 - 1) % 2 ^ 32 };
      worker = sending 0;
    })
put_count-Inv s n e bound inv = record {
  few = omega (arith, inv.taken n e);
  few_loaded = inv.few_loaded;
  taken = λ n h. absurd (ground arith);
  asked = λ h. absurd (ground arith);
  flushes = inv.flushes;
  pins_all = inv.pins_all;
  sent_all = inv.sent_all;
  covered = λ j small. due (will_send-from_zero j);
}

pub send_pin-Inv :
    (s : Race) (pin : ℕ)
    → s.worker ≡ sending pin
    → Inv s
    → Inv (record s { sent = copied pin s.gpio s.sent; worker = sending (suc pin) })
send_pin-Inv s pin e inv = record {
  few = inv.few;
  few_loaded = inv.few_loaded;
  taken = λ n h. absurd (ground arith);
  asked = λ h. absurd (ground arith);
  flushes = inv.flushes;
  pins_all = inv.pins_all;
  sent_all = length-set s.sent pin _ ∙ inv.sent_all;
  covered = λ j small. sent_on j small (inv.covered j small);
}
  where
    sent_on :
        (j : ℕ)
        → j < 16
        → Covered s j
        → Covered (record s { sent = copied pin s.gpio s.sent; worker = sending (suc pin) }) j
    sent_on j small (clean h) = clean (copied_clean s.gpio.pin_states s.sent pin j h)
    sent_on j small (queued h) = queued h
    sent_on j small (due h) = elim (Bool-cases (pin == j)) [
      | inl same ↦
          clean (copied_at s.gpio.pin_states s.sent pin j (ground arith) inv.sent_all small)
      | inr off ↦ due (will_send-next j pin (ap (will_send j) (sym e) ∙ h) off)
    ]
    sent_on j small (pending i h) = pending i h

pub all_sent-Inv : (s : Race) → s.worker ≡ sending 16 → Inv s → Inv (record s { worker = waiting })
all_sent-Inv s e inv = record {
  few = inv.few;
  few_loaded = inv.few_loaded;
  taken = λ n h. absurd (ground arith);
  asked = λ h. absurd (ground arith);
  flushes = inv.flushes;
  pins_all = inv.pins_all;
  sent_all = inv.sent_all;
  covered = λ j small. rested j small (inv.covered j small);
}
  where
    rested : (j : ℕ) → j < 16 → Covered s j → Covered (record s { worker = waiting }) j
    rested j small (clean h) = clean h
    rested j small (queued h) = queued h
    rested j small (due h) = absurd (omega (arith, will_send-last j (ap (will_send j) (sym e) ∙ h)))
    rested j small (pending i h) = pending i h
