-- ===== src/Gpio/Race/Delivered.antt =====
-- The runs of Gpio/Race.antt, and what has been sent at the end of one.
use rcio_dkms.Base.{ℕ, ◌^◌, ◌≤◌, ◌<◌, ◌≡◌, refl, ap, false, List, [], get_or, length, arith}
use rcio_dkms.State.{Gpio, int_pos}
use rcio_dkms.Gpio.Race.{
  waiting, Race, Step, begin, go_on, test, take_count, put_count, send_pin, all_sent, Reach, here,
  next, probed,
}
use rcio_dkms.Gpio.Race.Covered.{covers, Flushes, Flushes-program}
use rcio_dkms.Gpio.Race.Invariant.{Covered, clean, queued, due, pending, Inv}
use rcio_dkms.Gpio.Race.Callers.{begin-Inv, act-Inv, covers-none}
use rcio_dkms.Gpio.Race.Consumer.{
  test-Inv, take_count-Inv, put_count-Inv, send_pin-Inv, all_sent-Inv, will_send-waiting,
}

-- The number of stores only grows.
Step-enqueued : {s t : Race} → Step s t → s.enqueued ≤ t.enqueued
Step-enqueued (begin i job e) = omega arith
Step-enqueued (go_on i e) = omega arith
Step-enqueued (test e supported asked) = omega arith
Step-enqueued (take_count e) = omega arith
Step-enqueued (put_count e) = omega arith
Step-enqueued (send_pin e small) = omega arith
Step-enqueued (all_sent e) = omega arith

Step-Inv : {s t : Race} → Step s t → t.enqueued < 2 ^ 31 → Inv s → Inv t
Step-Inv {s} (begin i job e) few inv = begin-Inv s i _ e refl (Flushes-program job) inv
Step-Inv {s} (go_on i {a} {rest} e) few inv = act-Inv s i a rest e few inv
Step-Inv {s} (test e supported asked) few inv = test-Inv s e asked inv
Step-Inv {s} (take_count e) few inv = take_count-Inv s e inv
Step-Inv {s} (put_count {n} e) few inv = put_count-Inv s n e few inv
Step-Inv {s} (send_pin {pin} e small) few inv = send_pin-Inv s pin e inv
Step-Inv {s} (all_sent e) few inv = all_sent-Inv s e inv

Reach-Inv : {s t : Race} → Reach s t → t.enqueued < 2 ^ 31 → Inv s → Inv t
Reach-Inv here few inv = inv
Reach-Inv (next r step) few inv =
    Step-Inv step few (Reach-Inv r (omega (arith, Step-enqueued step)) inv)

probed-Inv :
    (g : Gpio) (sent : List ℕ) → length g.pin_states ≡ 16 → length sent ≡ 16 → Inv (probed g sent)
unfolding Flushes
probed-Inv g sent all all' = record {
  few = omega arith;
  few_loaded = λ i. omega arith;
  taken = λ n h. absurd (ground arith);
  asked = λ h. omega arith;
  flushes = λ i. tt;
  pins_all = all;
  sent_all = all';
  covered = λ j small. queued (omega arith);
}

-- Callers change pins and ask for updates while the worker takes requests and sends, one access to
-- a shared variable at a time, in any interleaving on one processor, from the one request that
-- rcio_gpio_probe leaves; reset_store is not among the calls. With 16 pins, and fewer than 2 ^ 31
-- stores by `pin_states_updated++` so far: whenever every call has returned, the worker is outside
-- rcio_gpio_update and its test would find no request, the value that was last put into a packet
-- for a pin register, whether or not that transfer succeeded, is the value that the register has.
pub no_pin_forgotten :
    (g : Gpio) (sent : List ℕ) {s : Race}
    → length g.pin_states ≡ 16
    → length sent ≡ 16
    → Reach (probed g sent) s
    → s.enqueued < 2 ^ 31
    → ((i : ℕ) → (s.caller i).rest ≡ [])
    → s.worker ≡ waiting
    → int_pos s.gpio.pin_states_updated ≡ false
    → (j : ℕ) → j < 16
    → get_or s.sent j 0 ≡ get_or s.gpio.pin_states j 0
no_pin_forgotten g sent {s} all all' r few returned e none_asked j small =
    settled (inv.covered j small)
  where
    inv : Inv s
    inv = Reach-Inv r few (probed-Inv g sent all all')

    settled : Covered s j → get_or s.sent j 0 ≡ get_or s.gpio.pin_states j 0
    settled (clean h) = h
    settled (queued h) = absurd (ground (arith, inv.few))
    settled (due h) = absurd (ground (arith, will_send-waiting j))
    settled (pending i h) = absurd (ground (arith, ap (covers j) (returned i), covers-none j))
