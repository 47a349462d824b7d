-- ===== src/Tests/Race.antt =====
-- A caller of src/rcio_gpio.c beside the worker, at concrete inputs.
use rcio_dkms.Base.{
  ℕ, zero, suc, ◌+◌, ◌≡◌, refl, ◌∙◌, ap, pos, List, [], arith, replicate, ◌∷◌, get_or, true, update,
  ◌≢◌,
}
use rcio_dkms.State.{Gpio}
use rcio_dkms.Protocol.Pins.{gpio_set_pin_state_high, set_bit_m}
use rcio_dkms.Gpio.Race.{
  waiting, chip_set, touch, program, sending, Race, act, stores, Step, begin, go_on, test,
  take_count, put_count, send_pin, all_sent, Reach, here, next, probed,
}
use rcio_dkms.Gpio.Race.Drained.{Alone, worker_drains}
use rcio_dkms.Gpio.Race.Delivered.{no_pin_forgotten}

abbrev pins : Gpio
pins = record {
  gpio_supported = true;
  pwm_ignore_writings_mask = 0;
  pin_states_updated = 0;
  pin_states = replicate 16 0;
}

-- What the device has is not known.
abbrev unknown : List ℕ
unknown = replicate 16 0xffff

abbrev Reached : Race → Type 0
Reached from = (s : Race) × Reach from s

abbrev turn : {from : Race} (r : Reached from) {t : Race} → Step r.0 t → Reached from
turn r {t} step = (t, next r.1 step)

-- The worker sends the registers that are left.
unfoldable sweep :
    {from : Race} (n pin : ℕ) (r : Reached from)
    → r.0.worker ≡ sending pin
    → pin + n ≡ 16
    → Reached from
sweep zero pin r e h = turn r (all_sent (e ∙ ap sending (omega (arith, h))))
sweep (suc n) pin r e h =
    sweep n (suc pin) (turn r (send_pin e (omega (arith, h)))) refl (omega (arith, h))

-- The worker takes the request of rcio_gpio_probe while thread 0 sets pin 3: its `++` loads the
-- count before the worker stores it, and stores after.
abbrev crossed : Reached (probed pins unknown)
unfolding act stores program
crossed =
    let r0 : Reached (probed pins unknown) = turn (_, here) (begin 0 (chip_set 3 (pos 1)) refl) in
    let r1 : Reached (probed pins unknown) = turn r0 (go_on 0 refl) in
    let r2 : Reached (probed pins unknown) = turn r1 (test refl refl refl) in
    let r3 : Reached (probed pins unknown) = turn r2 (take_count refl) in
    let r4 : Reached (probed pins unknown) = turn r3 (go_on 0 refl) in
    let r5 : Reached (probed pins unknown) = turn r4 (go_on 0 refl) in
    let r6 : Reached (probed pins unknown) = turn r5 (put_count refl) in turn r6 (go_on 0 refl)

-- The worker ends its update, and makes one for each of the two requests that it finds.
unfoldable drained : Reached (probed pins unknown)
unfolding crossed sweep act stores program
drained =
    let r0 : Reached (probed pins unknown) = sweep 16 0 crossed refl refl in
    let r1 : Reached (probed pins unknown) = turn r0 (test refl refl refl) in
    let r2 : Reached (probed pins unknown) = turn r1 (take_count refl) in
    let r3 : Reached (probed pins unknown) = turn r2 (put_count refl) in
    let r4 : Reached (probed pins unknown) = sweep 16 0 r3 refl refl in
    let r5 : Reached (probed pins unknown) = turn r4 (test refl refl refl) in
    let r6 : Reached (probed pins unknown) = turn r5 (take_count refl) in
    let r7 : Reached (probed pins unknown) = turn r6 (put_count refl) in sweep 16 0 r7 refl refl

all_returned : (i : ℕ) → (drained.0.caller i).rest ≡ []
unfolding drained crossed sweep act stores program
all_returned zero = refl
all_returned (suc i) = ground arith

no_pin_forgotten_example : get_or drained.0.sent 3 0 ≡ get_or drained.0.gpio.pin_states 3 0
unfolding drained crossed sweep act stores program
no_pin_forgotten_example =
    no_pin_forgotten pins unknown refl refl drained.1 (omega arith) all_returned refl refl 3
      (omega arith)

-- The two stores of gpio_chip_set seen in the other order, the count before the pin, as a processor
-- may that does not run the caller: the caller is left with the store to pin 3.
abbrev swapped : Race
swapped = record {
  gpio = record pins { pin_states_updated = 1 };
  sent = replicate 16 0;
  enqueued = 1;
  caller =
      update (λ _. record { loaded = 0; rest = [] }) 0
        (record { loaded = 0; rest = touch gpio_set_pin_state_high 3 ∷ [] });
  worker = waiting;
}

unfoldable swapped_end : Reached swapped
unfolding act stores sweep
swapped_end =
    let r0 : Reached swapped = turn (_, here) (test refl refl refl) in
    let r1 : Reached swapped = turn r0 (take_count refl) in
    let r2 : Reached swapped = turn r1 (put_count refl) in
    let r3 : Reached swapped = sweep 16 0 r2 refl refl in turn r3 (go_on 0 refl)

-- All have come to rest, no request is left, and the pin is not what was sent.
swapped_lost :
    ((swapped_end.0.caller 0).rest ≡ [])
    × (swapped_end.0.worker ≡ waiting)
    × (swapped_end.0.gpio.pin_states_updated ≡ 0)
    × (get_or swapped_end.0.sent 3 0 ≢ get_or swapped_end.0.gpio.pin_states 3 0)
unfolding swapped_end act stores sweep set_bit_m
swapped_lost = (refl, refl, refl, omega arith)

abbrev just_probed : Race
just_probed = probed pins unknown

worker_drains_example :
    (t : Race) × Alone 20 just_probed t
    × ((u : Race) → Alone 20 just_probed u → t ≡ u)
    × (t.worker ≡ waiting)
    × (t.caller ≡ just_probed.caller)
    × (t.gpio.pin_states ≡ just_probed.gpio.pin_states)
    × (t.gpio.pin_states_updated + 1 ≡ just_probed.gpio.pin_states_updated)
    × (t.sent ≡ t.gpio.pin_states)
worker_drains_example = worker_drains just_probed refl refl refl refl refl
