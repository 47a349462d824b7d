-- ===== src/Spi/Threads/Serial.antt =====
-- The threads of Spi/Threads.antt against the same calls one after the other.
use rcio_dkms.Base.{
  ℕ, ◌≡◌, refl, sym, ap, ◌∙◌, Bool, true, false, none, some, List, [], ◌∷◌, ◌++◌, map, arith,
  update-cases, ltb, einval, is_neg, if◌then◌else◌,
}
use rcio_dkms.Spi.{Link, rcio_spi_read, rcio_spi_write, wait_complete}
use mathlib.Core.List.{map-append}
use rcio_dkms.Protocol.Packet.{pkt_max_regs, bytes}
use rcio_dkms.Spi.Bus.{SpiBus}
use rcio_dkms.Spi.Server.Runs.{Call, write_call, read_call, Reply, on_link, on_bus, on_bus-append}
use rcio_dkms.Spi.Threads.{
  Stage, locked, filled, sealed, awaiting, answered, leaving, Pc, inside, fill, put_crc, conclude,
  send, receive, advance, Returned, Threads, Step, enter, refuse, lock, work, unlock, Reach, start,
  later, count_of, values_of,
}

-- The calls that have returned, and their replies, in the order in which they returned.
abbrev pub calls : List Returned → List Call
calls h = map (λ r. r.call) h

abbrev pub replies : List Returned → List Reply
replies h = map (λ r. r.reply) h

abbrev pub is_inside : Pc → Bool
is_inside (inside c st) = true
is_inside _ = false

module _ {D : Type 0} (spi : SpiBus D) (past : List ℕ) where
  -- What the call will return, and the link after it, if the holder runs on alone.
  unfoldable from_awaiting : Call → Link D → Reply × Link D
  from_awaiting c l = let (done, l') = receive spi l in conclude past c done l'

  unfoldable from_sealed : Call → Link D → Reply × Link D
  unfolding from_awaiting
  from_sealed c l =
      let (sent, bus1) = spi.write l.bus (bytes l.buffer) in
      let l' = record l { bus = bus1 } in
      if is_neg sent then conclude past c sent l' else from_awaiting c l'

  unfoldable pub finish : Call → Stage → Link D → Reply × Link D
  unfolding from_awaiting from_sealed
  finish c (leaving reply) l = (reply, l)
  finish c (answered done) l = conclude past c done l
  finish c awaiting l = from_awaiting c l
  finish c sealed l = from_sealed c l
  finish c filled l = from_sealed c (put_crc past l)
  finish c locked l = from_sealed c (put_crc past (fill c l))

  -- A step of the holder leaves that as it is.
  finish-advance :
      (c : Call) (st : Stage) (l : Link D)
      → let (st', l') = advance spi past c st l in finish c st' l' ≡ finish c st l
  unfolding finish from_sealed advance send
  finish-advance c locked l = refl
  finish-advance c filled l = refl
  finish-advance c sealed l = ground arith
  finish-advance c awaiting l = refl
  finish-advance c (answered done) l = refl
  finish-advance c (leaving reply) l = refl

  finish-locked :
      (c : Call) (l : Link D)
      → ltb pkt_max_regs (count_of c) ≡ false
      → finish c locked l ≡ on_link spi past c l
  unfolding finish send receive conclude on_link rcio_spi_write rcio_spi_read wait_complete fill
      put_crc count_of
  finish-locked (write_call address values n) l few = ground arith
  finish-locked (read_call address values n) l few = ground arith

  refused :
      (c : Call) (l : Link D)
      → ltb pkt_max_regs (count_of c) ≡ true
      → on_link spi past c l ≡ ((einval, values_of c), l)
  unfolding on_link rcio_spi_write rcio_spi_read count_of values_of
  refused (write_call address values n) l many = ground arith
  refused (read_call address values n) l many = ground arith

  -- The state, as a serial run of the calls that have returned leaves it, with the call of the
  -- holder under way.
  pub record Serial (l : Link D) (s : Threads D) : Type 0 where
    pub base : Link D
    pub ran : on_bus spi past (calls s.history) l ≡ (replies s.history, base)
    pub resting : s.owner ≡ none → s.link ≡ base
    pub holding :
        (i : ℕ) (c : Call) (st : Stage)
        → s.pc i ≡ inside c st
        → (s.owner ≡ some i) × (finish c st s.link ≡ on_link spi past c base)
    pub owned : (i : ℕ) → s.owner ≡ some i → is_inside (s.pc i) ≡ true

  ran-append :
      (l base after : Link D) (h : List Returned) (r : Returned)
      → on_bus spi past (calls h) l ≡ (replies h, base)
      → on_link spi past r.call base ≡ (r.reply, after)
      → on_bus spi past (calls (h ++ r ∷ [])) l ≡ (replies (h ++ r ∷ []), after)
  ran-append l base after h r before now = rw (
    map-append (λ x. x.call) h (r ∷ []),
    map-append (λ x. x.reply) h (r ∷ []),
    on_bus-append spi past (calls h) r.call l,
    before,
    now,
  )

  Step-Serial :
      {l : Link D} {i : ℕ} {s t : Threads D} → Step spi past i s t → Serial l s → Serial l t
  unfolding finish
  Step-Serial {l} {i} {s} (enter c₀ e) inv = record {
    base = inv.base;
    ran = inv.ran;
    resting = inv.resting;
    holding = λ j c st q. ground (arith, update-cases s.pc i j q, inv.holding j c st);
    owned = λ j q. ground (arith, inv.owned j q);
  }
  Step-Serial {l} {i} {s} (refuse {c} e many) inv = record {
    base = inv.base;
    ran = ran-append l inv.base inv.base s.history _ inv.ran (refused c inv.base many);
    resting = inv.resting;
    holding = λ j d st q. ground (arith, update-cases s.pc i j q, inv.holding j d st);
    owned = λ j q. ground (arith, inv.owned j q);
  }
  Step-Serial {l} {i} {s} (lock {c} e few free) inv = record {
    base = inv.base;
    ran = inv.ran;
    resting = λ q. absurd (ground arith);
    holding = λ j d st q. ground (
      arith,
      update-cases s.pc i j q,
      inv.holding j d st,
      inv.resting free,
      finish-locked c inv.base few,
    );
    owned = λ j q. ground arith;
  }
  Step-Serial {l} {i} {s} (work {c} {st} e) inv = record {
    base = inv.base;
    ran = inv.ran;
    resting = λ q. absurd (ground (arith, inv.holding i c st e));
    holding = λ j d st' q. ground (
      arith,
      update-cases s.pc i j q,
      inv.holding i c st e,
      inv.holding j d st',
      finish-advance c st s.link,
    );
    owned = λ j q. ground (arith, inv.owned j q);
  }
  Step-Serial {l} {i} {s} (unlock {c} {reply} e) inv = record {
    base = s.link;
    ran =
        ran-append l inv.base s.link s.history _ inv.ran
          (sym (inv.holding i c (leaving reply) e).1);
    resting = λ q. refl;
    holding = λ j d st' q.
        ground
          (arith, update-cases s.pc i j q, inv.holding i c (leaving reply) e, inv.holding j d st');
    owned = λ j q. absurd (ground arith);
  }

  pub Reach-Serial : {l : Link D} {s : Threads D} → Reach spi past l s → Serial l s
  unfolding on_bus
  Reach-Serial {l} start = record {
    base = l;
    ran = refl;
    resting = λ _. refl;
    holding = λ i c st q. absurd (ground arith);
    owned = λ i q. absurd (ground arith);
  }
  Reach-Serial (later r step) = Step-Serial step (Reach-Serial r)

  -- Two threads never hold the lock together.
  pub mutual_exclusion :
      {l : Link D} {s : Threads D} (i j : ℕ) {c d : Call} {st st' : Stage}
      → Reach spi past l s
      → s.pc i ≡ inside c st
      → s.pc j ≡ inside d st'
      → i ≡ j
  mutual_exclusion i j {c} {d} {st} {st'} r p q =
      let inv = Reach-Serial r in ground (arith, inv.holding i c st p, inv.holding j d st' q)

  -- While nobody holds the lock, the calls that have returned have the replies, and have left
  -- the bus and the buffer, that the same calls have one after the other.
  pub serial :
      {l : Link D} {s : Threads D}
      → Reach spi past l s
      → s.owner ≡ none
      → on_bus spi past (calls s.history) l ≡ (replies s.history, s.link)
  serial {s} r free =
      let inv = Reach-Serial r in
      inv.ran ∙ ap (λ b. (replies s.history, b)) (sym (inv.resting free))
