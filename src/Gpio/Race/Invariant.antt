-- ===== src/Gpio/Race/Invariant.antt =====
-- What holds in every state that the threads of Gpio/Race.antt reach.
use rcio_dkms.Base.{
  ℕ, ◌+◌, ◌^◌, ◌≤◌, ◌<◌, ◌≡◌, ◌∙◌, sym, ap, Bool, Bool-cases, true, false, leb, ◌==◌, ◌⊎◌, inl, inr,
  List, ◌∷◌, get_or, get_or-set_cases, get_or-set, length, arith, update, update-same, set, ◌||◌,
}
use rcio_dkms.Gpio.Pin.{on_pin}
use rcio_dkms.Gpio.Race.{
  Act, touch, copy, load, store, Caller, Worker, waiting, found, dequeuing, sending, Race, act,
  stores,
}
use rcio_dkms.Gpio.Race.Covered.{covers, Flushes}

-- The worker is on its way to send register `j`.
unfoldable pub will_send : ℕ → Worker → Bool
will_send j waiting = false
will_send j found = true
will_send j (dequeuing n) = true
will_send j (sending pin) = leb pin j

-- Why register `j` is not forgotten.
pub data Covered (s : Race) (j : ℕ) : Type 0 where
  clean : get_or s.sent j 0 ≡ get_or s.gpio.pin_states j 0 → Covered s j
  queued : 1 ≤ s.gpio.pin_states_updated → Covered s j
  due : will_send j s.worker ≡ true → Covered s j
  pending : (i : ℕ) → covers j (s.caller i).rest ≡ true → Covered s j

pub record Inv (s : Race) : Type 0 where
  pub few : s.gpio.pin_states_updated ≤ s.enqueued
  pub few_loaded : (i : ℕ) → (s.caller i).loaded ≤ s.enqueued
  pub taken : (n : ℕ) → s.worker ≡ dequeuing n → (1 ≤ n) × (n ≤ s.enqueued)
  pub asked : s.worker ≡ found → 1 ≤ s.gpio.pin_states_updated
  pub flushes : (i : ℕ) → Flushes (s.caller i).rest
  pub pins_all : length s.gpio.pin_states ≡ 16
  pub sent_all : length s.sent ≡ 16
  pub covered : (j : ℕ) → j < 16 → Covered s j

-- The state after an access of thread `i`.
abbrev pub after_act : Race → ℕ → Act → List Act → Race
after_act s i a rest = record s {
  gpio = (act a (s.caller i).loaded s.gpio s.sent).1;
  sent = (act a (s.caller i).loaded s.gpio s.sent).2;
  enqueued = s.enqueued + stores a;
  caller =
      update s.caller i
        (record { loaded = (act a (s.caller i).loaded s.gpio s.sent).0; rest = rest });
}

module _ (s : Race) (i j : ℕ) (new : Caller) where
  -- A thread other than the one that moves stays as it is.
  other :
      (k : ℕ)
      → covers j (s.caller k).rest ≡ true
      → ((i ≡ k) × (covers j (s.caller i).rest ≡ true))
        ⊎ (covers j (update s.caller i new k).rest ≡ true)
  other k h = ground arith

  mine : covers j new.rest ≡ true → covers j (update s.caller i new i).rest ≡ true
  mine h = ap (λ c. covers j c.rest) (update-same s.caller i new) ∙ h

-- A copied register is the one in `pins`.
pub copied_at :
    (pins sent : List ℕ) (pin j : ℕ)
    → pin ≡ j
    → length sent ≡ 16
    → j < 16
    → get_or (set sent pin (get_or pins pin 0)) j 0 ≡ get_or pins j 0
copied_at pins sent pin j same all small =
    ground (arith, get_or-set sent pin j (get_or pins pin 0) 0 (omega arith))

-- A copy leaves the others as they are.
pub copied_clean :
    (pins sent : List ℕ) (pin j : ℕ)
    → get_or sent j 0 ≡ get_or pins j 0
    → get_or (set sent pin (get_or pins pin 0)) j 0 ≡ get_or pins j 0
copied_clean pins sent pin j h = elim (get_or-set_cases sent pin j (get_or pins pin 0) 0) [
  | inl (same, e) ↦ e ∙ ap (λ x. get_or pins x 0) same
  | inr e ↦ e ∙ h
]

-- What is left of a call after an access, where the access did not settle register `j`.
pub pending_after :
    (s : Race) (i j : ℕ) (a : Act) (rest : List Act)
    → (s.caller i).rest ≡ a ∷ rest
    → (covers j (a ∷ rest) ≡ true → Covered (after_act s i a rest) j)
    → (k : ℕ) → covers j (s.caller k).rest ≡ true
    → Covered (after_act s i a rest) j
pending_after s i j a rest e settle k h = elim (other s i j _ k h) [
  | inl (same, h') ↦ settle (ap (covers j) (sym e) ∙ h')
  | inr h' ↦ pending k h'
]

copy_covers :
    (s : Race) (i j pin : ℕ) (rest : List Act)
    → length s.sent ≡ 16
    → j < 16
    → (pin == j || covers j rest) ≡ true
    → Covered (after_act s i (copy pin) rest) j
unfolding act
copy_covers s i j pin rest all small h = elim (Bool-cases (pin == j)) [
  | inl here ↦ clean (copied_at s.gpio.pin_states s.sent pin j (ground arith) all small)
  | inr away ↦ pending i (mine s i j _ (ground arith))
]

-- An access of a caller keeps every register covered.
pub act-Covered :
    (s : Race) (i j : ℕ) (a : Act) (rest : List Act)
    → (s.caller i).rest ≡ a ∷ rest
    → Flushes (a ∷ rest)
    → length s.sent ≡ 16
    → (s.caller i).loaded + stores a < 2 ^ 31
    → j < 16
    → Covered s j
    → Covered (after_act s i a rest) j
unfolding act stores on_pin Flushes covers
act-Covered s i j (touch f pin) rest e fl all few small (clean h) =
    elim (get_or-set_cases s.gpio.pin_states pin j (f (get_or s.gpio.pin_states pin 0)) 0) [
      | inl (here, _) ↦ pending i (mine s i j _ (ground arith))
      | inr same ↦ clean (h ∙ sym same)
    ]
act-Covered s i j (touch f pin) rest e fl all few small (queued h) = queued h
act-Covered s i j (touch f pin) rest e fl all few small (due h) = due h
act-Covered s i j (touch f pin) rest e fl all few small (pending k h) =
    pending_after s i j (touch f pin) rest e (λ h'. pending i (mine s i j _ h')) k h
act-Covered s i j (copy pin) rest e fl all few small (clean h) =
    clean (copied_clean s.gpio.pin_states s.sent pin j h)
act-Covered s i j (copy pin) rest e fl all few small (queued h) = queued h
act-Covered s i j (copy pin) rest e fl all few small (due h) = due h
act-Covered s i j (copy pin) rest e fl all few small (pending k h) =
    pending_after s i j (copy pin) rest e (λ h'. copy_covers s i j pin rest all small h') k h
act-Covered s i j load rest e fl all few small (clean h) = clean h
act-Covered s i j load rest e fl all few small (queued h) = queued h
act-Covered s i j load rest e fl all few small (due h) = due h
act-Covered s i j load rest e fl all few small (pending k h) =
    pending_after s i j load rest e (λ h'. pending i (mine s i j _ h')) k h
act-Covered s i j store rest e fl all few small cov = queued (omega arith)
