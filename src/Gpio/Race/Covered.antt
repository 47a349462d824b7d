-- ===== src/Gpio/Race/Covered.antt =====
-- Which pins the rest of a call of Gpio/Race.antt sends, or asks the worker to send.
use rcio_dkms.Base.{
  ℕ, zero, suc, ◌+◌, ◌≤◌, ◌<◌, ◌≡◌, refl, Bool, true, false, ◌||◌, ◌==◌, List, [], ◌∷◌, ◌++◌, arith,
}
use rcio_dkms.Gpio.Race.{
  Act, touch, copy, load, store, copies, force_update, enqueue, put_low, clear, Job, chip_set,
  direction_input, direction_output, request_pin, free_pin, program,
}

-- The rest of a call sends pin `j`, or asks the worker to.
unfoldable pub covers : ℕ → List Act → Bool
covers j [] = false
covers j (touch f pin ∷ rest) = covers j rest
covers j (copy pin ∷ rest) = pin == j || covers j rest
covers j (load ∷ rest) = covers j rest
covers j (store ∷ rest) = true

-- After each change of a pin the call covers it.
unfoldable pub Flushes : List Act → Type 0
unfolding covers
Flushes [] = Unit
Flushes (touch f pin ∷ rest) = (pin < 16 → covers pin rest ≡ true) × Flushes rest
Flushes (_ ∷ rest) = Flushes rest

covers-append_left : (j : ℕ) (xs ys : List Act) → covers j xs ≡ true → covers j (xs ++ ys) ≡ true
unfolding covers
covers-append_left j [] ys h = absurd (ground arith)
covers-append_left j (touch f pin ∷ xs) ys h = covers-append_left j xs ys h
covers-append_left j (copy pin ∷ xs) ys h = ground (arith, covers-append_left j xs ys)
covers-append_left j (load ∷ xs) ys h = covers-append_left j xs ys h
covers-append_left j (store ∷ xs) ys h = refl

covers-copies : (j pin n : ℕ) → pin ≤ j → j < pin + n → covers j (copies pin n) ≡ true
unfolding covers copies
covers-copies j pin zero h h' = absurd (omega arith)
covers-copies j pin (suc n) h h' = ground (arith, covers-copies j (suc pin) n)

Flushes-copies : (pin n : ℕ) (ys : List Act) → Flushes ys → Flushes (copies pin n ++ ys)
unfolding Flushes copies
Flushes-copies pin zero ys h = h
Flushes-copies pin (suc n) ys h = Flushes-copies (suc pin) n ys h

covers-force_update : (j : ℕ) → j < 16 → covers j force_update ≡ true
unfolding force_update
covers-force_update j h = covers-copies j 0 16 (omega arith) (omega arith)

in_update : (j : ℕ) (ys : List Act) → j < 16 → covers j (force_update ++ ys) ≡ true
in_update j ys h = covers-append_left j force_update ys (covers-force_update j h)

Flushes-force_update : Flushes force_update
unfolding Flushes force_update copies
Flushes-force_update = tt

Flushes-update : (ys : List Act) → Flushes ys → Flushes (force_update ++ ys)
unfolding force_update
Flushes-update ys h = Flushes-copies 0 16 ys h

-- Every call covers its changes.
pub Flushes-program : (job : Job) → Flushes (program job)
unfolding program Flushes covers
Flushes-program (chip_set offset value) = (λ _. refl, (λ _. refl, tt))
Flushes-program (direction_input offset) = (covers-force_update offset, Flushes-force_update)
Flushes-program (direction_output offset) = (covers-force_update offset, Flushes-force_update)
Flushes-program (request_pin offset) = (
  in_update offset (put_low offset),
  (
    in_update offset (put_low offset),
    Flushes-update (put_low offset)
        (in_update offset enqueue, (in_update offset enqueue, Flushes-update enqueue tt)),
  ),
)
Flushes-program (free_pin offset) = (
  in_update offset (clear offset),
  Flushes-update (clear offset) (in_update offset enqueue, Flushes-update enqueue tt),
)
