-- ===== src/Gpio/Race/Callers.antt =====
-- The accesses of the callers in Gpio/Race.antt and its invariant.
use rcio_dkms.Base.{
  ℕ, ◌+◌, ◌^◌, ◌≤◌, ◌<◌, ◌≡◌, refl, ◌∙◌, ap, false, List, [], ◌∷◌, length, length-set, arith,
  update, if_cases, ◌==◌,
}
use mathlib.Core.Path.{subst}
use rcio_dkms.State.{Gpio}
use rcio_dkms.Gpio.Pin.{on_pin}
use rcio_dkms.Gpio.Race.{Act, touch, copy, load, store, Caller, Race, act, stores}
use rcio_dkms.Gpio.Race.Covered.{covers, Flushes}
use rcio_dkms.Gpio.Race.Invariant.{
  Covered, clean, queued, due, pending, Inv, after_act, act-Covered,
}

act_few :
    (a : Act) (n : ℕ) (g : Gpio) (sent : List ℕ) (m : ℕ)
    → g.pin_states_updated ≤ m
    → n ≤ m
    → let (n', g', sent') = act a n g sent in
      (g'.pin_states_updated ≤ m + stores a) × (n' ≤ m + stores a)
unfolding act stores on_pin
act_few (touch f pin) n g sent m h h' = omega arith
act_few (copy pin) n g sent m h h' = omega arith
act_few load n g sent m h h' = omega arith
act_few store n g sent m h h' = omega arith

-- A request that is there stays.
act_asked :
    (a : Act) (n : ℕ) (g : Gpio) (sent : List ℕ)
    → 1 ≤ g.pin_states_updated
    → n + stores a < 2 ^ 31
    → 1 ≤ (act a n g sent).1.pin_states_updated
unfolding act stores on_pin
act_asked (touch f pin) n g sent h few = h
act_asked (copy pin) n g sent h few = h
act_asked load n g sent h few = h
act_asked store n g sent h few = omega arith

act_all :
    (a : Act) (n : ℕ) (g : Gpio) (sent : List ℕ)
    → let (n', g', sent') = act a n g sent in
      (length g'.pin_states ≡ length g.pin_states) × (length sent' ≡ length sent)
unfolding act on_pin
act_all (touch f pin) n g sent = (length-set g.pin_states pin _, refl)
act_all (copy pin) n g sent = (refl, length-set sent pin _)
act_all load n g sent = (refl, refl)
act_all store n g sent = (refl, refl)

Flushes-tail : (a : Act) (rest : List Act) → Flushes (a ∷ rest) → Flushes rest
unfolding Flushes
Flushes-tail (touch f pin) rest h = h.1
Flushes-tail (copy pin) rest h = h
Flushes-tail load rest h = h
Flushes-tail store rest h = h

-- What holds of every caller holds after an update of one of them.
every {ℓ} :
    (P : Caller → Type ℓ) (f : ℕ → Caller) (i : ℕ) (c : Caller)
    → ((k : ℕ) → P (f k))
    → P c
    → (k : ℕ) → P (update f i c k)
every P f i c all new k = if_cases P (i == k) c (f k) (λ _. new) (λ _. all k)

pub covers-none : (j : ℕ) → covers j [] ≡ false
unfolding covers
covers-none j = refl

pub begin-Inv :
    (s : Race) (i : ℕ) (c : Caller)
    → (s.caller i).rest ≡ []
    → c.loaded ≡ 0
    → Flushes c.rest
    → Inv s
    → Inv (record s { caller = update s.caller i c })
begin-Inv s i c e zero_loaded fl inv = record {
  few = inv.few;
  few_loaded = every (λ c'. c'.loaded ≤ s.enqueued) s.caller i c inv.few_loaded (omega arith);
  taken = inv.taken;
  asked = inv.asked;
  flushes = every (λ c'. Flushes c'.rest) s.caller i c inv.flushes fl;
  pins_all = inv.pins_all;
  sent_all = inv.sent_all;
  covered = λ j small. begun j (inv.covered j small);
}
  where
    nothing_left : (j : ℕ) → covers j (s.caller i).rest ≡ false
    nothing_left j = ap (covers j) e ∙ covers-none j

    begun : (j : ℕ) → Covered s j → Covered (record s { caller = update s.caller i c }) j
    begun j (clean h) = clean h
    begun j (queued h) = queued h
    begun j (due h) = due h
    begun j (pending k h) = pending k (ground (arith, nothing_left j))

pub act-Inv :
    (s : Race) (i : ℕ) (a : Act) (rest : List Act)
    → (s.caller i).rest ≡ a ∷ rest
    → s.enqueued + stores a < 2 ^ 31
    → Inv s
    → Inv (after_act s i a rest)
act-Inv s i a rest e few inv = record {
  few = small.0;
  few_loaded =
      every (λ c'. c'.loaded ≤ s.enqueued + stores a) s.caller i _
        (λ k. omega (arith, inv.few_loaded k)) small.1;
  taken = λ n h. omega (arith, inv.taken n h);
  asked = λ h.
      act_asked a (s.caller i).loaded s.gpio s.sent (inv.asked h) (omega (arith, inv.few_loaded i));
  flushes = every (λ c'. Flushes c'.rest) s.caller i _ inv.flushes (Flushes-tail a rest fl);
  pins_all = (act_all a (s.caller i).loaded s.gpio s.sent).0 ∙ inv.pins_all;
  sent_all = (act_all a (s.caller i).loaded s.gpio s.sent).1 ∙ inv.sent_all;
  covered = λ j inside.
      act-Covered s i j a rest e fl inv.sent_all (omega (arith, inv.few_loaded i)) inside
        (inv.covered j inside);
}
  where
    small :
        let (n', g', sent') = act a (s.caller i).loaded s.gpio s.sent in
        (g'.pin_states_updated ≤ s.enqueued + stores a) × (n' ≤ s.enqueued + stores a)
    small = act_few a (s.caller i).loaded s.gpio s.sent s.enqueued inv.few (inv.few_loaded i)

    fl : Flushes (a ∷ rest)
    fl = subst Flushes e (inv.flushes i)
