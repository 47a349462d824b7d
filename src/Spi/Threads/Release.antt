-- ===== src/Spi/Threads/Release.antt =====
-- The way of the holder of the lock of Spi/Threads.antt to the unlock.
use rcio_dkms.Base.{
  ℕ, zero, suc, ◌≤◌, ◌<◌, ◌≡◌, refl, none, some, List, [], ◌∷◌, ◌++◌, arith, true, update,
  update-same,
}
use rcio_dkms.Spi.{Link}
use rcio_dkms.Spi.Bus.{SpiBus}
use rcio_dkms.Spi.Server.Runs.{Call, Reply}
use rcio_dkms.Spi.Threads.{
  Stage, locked, filled, sealed, awaiting, answered, leaving, Pc, idle, entered, inside, send,
  advance, Threads, Step, work, unlock, Reach,
}
use rcio_dkms.Spi.Threads.Serial.{is_inside, Reach-Serial}

module _ {D : Type 0} (spi : SpiBus D) (past : List ℕ) where
  -- At most `n` steps, all of thread `i`.
  pub data Alone (i : ℕ) : ℕ → Threads D → Threads D → Type 0 where
    stay : {n : ℕ} {s : Threads D} → Alone i n s s
    go : {n : ℕ} {s t u : Threads D} → Step spi past i s t → Alone i n t u → Alone i (suc n) s u

  -- Thread `i` returns from its call within `n` steps of its own, and the lock is free.
  pub record Releases (i : ℕ) (c : Call) (n : ℕ) (s : Threads D) : Type 0 where
    pub after : Threads D
    pub reply : Reply
    pub steps : Alone i n s after
    pub free : after.owner ≡ none
    pub logged : after.history ≡ s.history ++ record { thread = i; call = c; reply = reply } ∷ []

  -- The stages that are left, the unlock included.
  abbrev pub left : Stage → ℕ
  left locked = 6
  left filled = 5
  left sealed = 4
  left awaiting = 3
  left (answered done) = 2
  left (leaving reply) = 1

  abbrev next_of : Threads D → ℕ → Call → Stage → Threads D
  next_of s i c st = record s {
    link = (advance spi past c st s.link).1;
    pc = update s.pc i (inside c (advance spi past c st s.link).0);
  }

  one_more :
      (s : Threads D) (i : ℕ) (c : Call) (st : Stage) (n : ℕ)
      → s.pc i ≡ inside c st
      → Releases i c n (next_of s i c st)
      → Releases i c (suc n) s
  one_more s i c st n e rest = record {
    after = rest.after;
    reply = rest.reply;
    steps = go (work e) rest.steps;
    free = rest.free;
    logged = rest.logged;
  }

  left-positive : (st : Stage) → 1 ≤ left st
  left-positive locked = omega arith
  left-positive filled = omega arith
  left-positive sealed = omega arith
  left-positive awaiting = omega arith
  left-positive (answered done) = omega arith
  left-positive (leaving reply) = omega arith

  -- The holder's next stage has fewer stages left.
  left-advance :
      (c : Call) (st : Stage) (l : Link D)
      → 2 ≤ left st
      → left (advance spi past c st l).0 < left st
  unfolding advance send
  left-advance c locked l h = omega arith
  left-advance c filled l h = omega arith
  left-advance c sealed l h = ground arith
  left-advance c awaiting l h = omega arith
  left-advance c (answered done) l h = omega arith
  left-advance c (leaving reply) l h = absurd (omega arith)

  from_stage :
      (n : ℕ) (s : Threads D) (i : ℕ) (c : Call) (st : Stage)
      → s.pc i ≡ inside c st
      → left st ≤ n
      → Releases i c n s
  from_stage zero s i c st e h = absurd (omega (arith, left-positive st))
  from_stage (suc n) s i c (leaving reply) e h = record {
    after = record s {
      owner = none;
      pc = update s.pc i idle;
      history = s.history ++ record { thread = i; call = c; reply = reply } ∷ [];
    };
    reply = reply;
    steps = go (unlock e) stay;
    free = refl;
    logged = refl;
  }
  from_stage (suc n) s i c st e h = one_more s i c st n e (
      from_stage n (next_of s i c st) i c (advance spi past c st s.link).0 (update-same s.pc i _)
        (omega (arith, left-advance c st s.link (omega arith))))

  inside_of : (p : Pc) → is_inside p ≡ true → (c : Call) × (st : Stage) × (p ≡ inside c st)
  inside_of idle h = absurd (ground arith)
  inside_of (entered call) h = absurd (ground arith)
  inside_of (inside c st) h = (c, st, refl)

  left-le : (st : Stage) → left st ≤ 6
  left-le locked = omega arith
  left-le filled = omega arith
  left-le sealed = omega arith
  left-le awaiting = omega arith
  left-le (answered done) = omega arith
  left-le (leaving reply) = omega arith

  -- The lock is not kept: if thread `i` owns it in a reachable state, at most six steps of that
  -- thread alone end its call with a reply and leave the lock free, whatever the bus answers.
  pub lock_released :
      {l : Link D} {s : Threads D} (i : ℕ)
      → Reach spi past l s
      → s.owner ≡ some i
      → (c : Call) × (reply : Reply) × (t : Threads D) × Alone i 6 s t
        × (t.owner ≡ none)
        × (t.history ≡ s.history ++ record { thread = i; call = c; reply = reply } ∷ [])
  lock_released {s} i r e =
      let (c, st, at) = inside_of (s.pc i) ((Reach-Serial spi past r).owned i e) in
      let run = from_stage 6 s i c st at (left-le st) in
      (c, run.reply, run.after, run.steps, run.free, run.logged)
