-- ===== src/Spi/Threads/Types.antt =====
-- The widths of what the threads of Spi/Threads.antt store: the buffer's fields and the callers'
-- lists.
use mathlib.Core.Path.{subst}
use rcio_dkms.Base.{
  ℕ, ◌^◌, ◌≤◌, ◌<◌, ◌≡◌, sym, Bool-cases, inl, inr, is_neg, List, [], ◌∷◌, ◌++◌, arith, length,
  take, drop, All, All-append, All-take, All-drop, update, update-same, ◌==◌, if_cases, ℤ, if_else,
}
use rcio_dkms.Protocol.Packet.{
  IsPacket, IsWord, IsByte, packet_size, pkt_max_regs, bytes, of_bytes-IsPacket,
}
use rcio_dkms.Spi.{Link, clear_crc}
use rcio_dkms.Spi.Bus.{SpiBus}
use rcio_dkms.Spi.Buffer.{write_request-IsPacket, read_request-IsPacket, clear_crc-IsPacket}
use rcio_dkms.Spi.Detects.{sealed-IsPacket}
use rcio_dkms.Spi.Server.Runs.{Call, write_call, read_call}
use rcio_dkms.Spi.Threads.{
  Stage, locked, filled, sealed, awaiting, answered, leaving, Pc, idle, entered, inside, fill,
  put_crc, conclude, send, receive, advance, Threads, Step, enter, refuse, lock, work, unlock,
  count_of, values_of,
}

-- What the C types say of a call: a 16-bit address, words in the caller's list, and as many of them
-- as are to be written.
unfoldable pub Typed : Call → Type 0
Typed (write_call address values n) = (n ≤ length values) × (address < 2 ^ 16) × All IsWord values
Typed (read_call address values n) = (address < 2 ^ 16) × All IsWord values

unfoldable pub TypedPc : Pc → Type 0
TypedPc idle = Unit
TypedPc (entered c) = Typed c
TypedPc (inside c st) = Typed c

-- The calls under way and those that have returned.
pub record TypedCalls {D : Type 0} (s : Threads D) : Type 0 where
  pub under_way : (i : ℕ) → TypedPc (s.pc i)
  pub returned : All (λ r. Typed r.call) s.history

fill-IsPacket :
    {D : Type 0} (c : Call) (l : Link D)
    → Typed c
    → count_of c ≤ pkt_max_regs
    → IsPacket l.buffer
    → IsPacket (fill c l).buffer
unfolding fill count_of Typed
fill-IsPacket (write_call address values n) l (enough, small, words) few v =
    write_request-IsPacket address values n l.buffer few enough small words v
fill-IsPacket (read_call address values n) l (small, words) few v =
    read_request-IsPacket address n l.buffer small v

pub values_of-Typed : (c : Call) → Typed c → All IsWord (values_of c)
unfolding Typed values_of
values_of-Typed (write_call address values n) (enough, small, words) = words
values_of-Typed (read_call address values n) (small, words) = words

conclude-IsPacket :
    {D : Type 0} (past : List ℕ) (c : Call) (done : ℤ) (l : Link D)
    → IsPacket l.buffer
    → IsPacket (conclude past c done l).1.buffer
unfolding conclude
conclude-IsPacket past (write_call address values n) done l v = ground (arith, cleared)
  where
    cleared : IsPacket (clear_crc l).buffer
    cleared = clear_crc-IsPacket l v
conclude-IsPacket past (read_call address values n) done l v = ground (arith, cleared)
  where
    cleared : IsPacket (clear_crc l).buffer
    cleared = clear_crc-IsPacket l v

conclude-words :
    {D : Type 0} (past : List ℕ) (c : Call) (done : ℤ) (l : Link D)
    → Typed c
    → IsPacket l.buffer
    → All IsWord (conclude past c done l).0.1
unfolding conclude Typed
conclude-words past (write_call address values n) done l (enough, small, words) v = ground arith
conclude-words past (read_call address values n) done l (small, words) v = ground (arith, copied)
  where
    copied : All IsWord (take n l.buffer.regs ++ drop n values)
    copied =
        All-append IsWord (take n l.buffer.regs) (drop n values)
          (All-take IsWord n l.buffer.regs v.regs_words) (All-drop IsWord n values words)

-- What one thread's stage says: at most 32 registers, and a reply of words.
unfoldable pub Held : Call → Stage → Type 0
Held c (leaving reply) = (count_of c ≤ pkt_max_regs) × All IsWord reply.1
Held c _ = count_of c ≤ pkt_max_regs

-- The widths in a state: of the buffer, of the stages, and of what has been returned.
pub record Widths {D : Type 0} (s : Threads D) : Type 0 where
  pub packet : IsPacket s.link.buffer
  pub held : (i : ℕ) (c : Call) (st : Stage) → s.pc i ≡ inside c st → Held c st
  pub words : All (λ r. All IsWord r.reply.1) s.history

module _ {D : Type 0} (spi : SpiBus D) (past : List ℕ) (past_bytes : All IsByte past) where
  receive-IsPacket : (l : Link D) → IsPacket l.buffer → IsPacket (receive spi l).1.buffer
  unfolding receive
  receive-IsPacket l v = ground (
    arith,
    spi.read_full l.bus packet_size,
    spi.read_bytes l.bus packet_size,
    of_bytes-IsPacket (spi.read l.bus packet_size).1,
  )

  pub advance-types :
      (c : Call) (st : Stage) (l : Link D)
      → Typed c
      → Held c st
      → IsPacket l.buffer
      → let (st', l') = advance spi past c st l in Held c st' × IsPacket l'.buffer
  unfolding advance Held put_crc send
  advance-types c locked l t h v = (h, fill-IsPacket c l t h v)
  advance-types c filled l t h v = (h, sealed-IsPacket past past_bytes v)
  advance-types c sealed l t h v =
      (if_cases (Held c) (is_neg (spi.write l.bus (bytes l.buffer)).0) _ _ (λ _. h) (λ _. h), v)
  advance-types c awaiting l t h v = (h, receive-IsPacket l v)
  advance-types c (answered done) l t h v =
      ((h, conclude-words past c done l t v), conclude-IsPacket past c done l v)
  advance-types c (leaving reply) l t h v = (h, v)

  -- A thread's part, before a step that has set the part of thread `i` to `p`.
  before :
      (f : ℕ → Pc) (i : ℕ) (p : Pc)
      → TypedPc (f i)
      → ((k : ℕ) → TypedPc (update f i p k))
      → (k : ℕ) → TypedPc (f k)
  before f i p old all k = elim (Bool-cases (i == k)) [
    | inl same ↦ subst (λ x. TypedPc (f x)) (ground arith) old
    | inr other ↦ subst TypedPc (if_else p (f k) other) (all k)
  ]

  at_step : (f : ℕ → Pc) (i : ℕ) (p : Pc) → ((k : ℕ) → TypedPc (update f i p k)) → TypedPc p
  at_step f i p all = subst TypedPc (update-same f i p) (all i)

  All-last :
      {A : Type 0} (P : A → Type 0) (xs : List A) (x : A) → All P (xs ++ x ∷ []) → All P xs × P x
  All-last P [] x h = (tt, h.0)
  All-last P (y ∷ xs) x h = let rest = All-last P xs x h.1 in ((h.0, rest.0), rest.1)

  -- Calls are not forgotten: if all are typed after a step, all were before it.
  pub Step-TypedCalls :
      {i : ℕ} {s t : Threads D} → Step spi past i s t → TypedCalls t → TypedCalls s
  unfolding TypedPc
  Step-TypedCalls {i} {s} (enter c e) h = record {
    under_way = before s.pc i (entered c) (subst TypedPc (sym e) tt) h.under_way;
    returned = h.returned;
  }
  Step-TypedCalls {i} {s} (refuse {c} e many) h =
      let all = All-last (λ r. Typed r.call) s.history _ h.returned in
      record {
        under_way = before s.pc i idle (subst TypedPc (sym e) all.1) h.under_way;
        returned = all.0;
      }
  Step-TypedCalls {i} {s} (lock {c} e few free) h = record {
    under_way =
        before s.pc i (inside c locked)
          (subst TypedPc (sym e) (at_step s.pc i (inside c locked) h.under_way)) h.under_way;
    returned = h.returned;
  }
  Step-TypedCalls {i} {s} (work {c} {st} e) h =
      let p = inside c (advance spi past c st s.link).0 in
      record {
        under_way =
            before s.pc i p (subst TypedPc (sym e) (at_step s.pc i p h.under_way)) h.under_way;
        returned = h.returned;
      }
  Step-TypedCalls {i} {s} (unlock {c} {reply} e) h =
      let all = All-last (λ r. Typed r.call) s.history _ h.returned in
      record {
        under_way = before s.pc i idle (subst TypedPc (sym e) all.1) h.under_way;
        returned = all.0;
      }
