-- ===== src/Spi/Threads/Widths.antt =====
-- The runs of Spi/Threads.antt, and the widths of Spi/Threads/Types.antt.
use mathlib.Core.Path.{subst}
use rcio_dkms.Base.{
  ℕ, ◌≤◌, ◌≡◌, false, ltb, inl, inr, List, arith, All, All-append, update, update-cases,
}
use rcio_dkms.Protocol.Packet.{IsPacket, IsWord, IsByte, pkt_max_regs}
use rcio_dkms.Spi.{Link}
use rcio_dkms.Spi.Bus.{SpiBus}
use rcio_dkms.Spi.Server.Runs.{Call}
use rcio_dkms.Spi.Threads.{
  Stage, locked, leaving, Pc, idle, entered, inside, advance, Threads, Step, enter, refuse, lock,
  work, unlock, Reach, start, later, count_of,
}
use rcio_dkms.Spi.Threads.Types.{
  TypedPc, TypedCalls, Held, Widths, advance-types, Step-TypedCalls, values_of-Typed,
}

-- The same of a thread wherever it stands.
unfoldable HeldPc : Pc → Type 0
HeldPc idle = Unit
HeldPc (entered c) = Unit
HeldPc (inside c st) = Held c st

few_of : (c : Call) → ltb pkt_max_regs (count_of c) ≡ false → count_of c ≤ pkt_max_regs
few_of c h = ground arith

module _ {D : Type 0} (spi : SpiBus D) (past : List ℕ) (past_bytes : All IsByte past) where
  -- After a step of thread `i`, its stage is the new one and the others are as they were.
  part_after :
      (s : Threads D) (i : ℕ) (p : Pc)
      → ((j : ℕ) (c : Call) (st : Stage) → s.pc j ≡ inside c st → Held c st)
      → ((c : Call) (st : Stage) → p ≡ inside c st → Held c st)
      → (j : ℕ) (c : Call) (st : Stage) → update s.pc i p j ≡ inside c st
      → Held c st
  part_after s i p old new j c st h = elim (update-cases s.pc i j h) [
    | inl (_, e) ↦ new c st e
    | inr (_, e) ↦ old j c st e
  ]

  Step-Widths : {i : ℕ} {s t : Threads D} → Step spi past i s t → TypedCalls s → Widths s → Widths t
  unfolding Held HeldPc TypedPc
  Step-Widths {i} {s} (enter c₀ e) typed w = record {
    packet = w.packet;
    held = part_after s i (entered c₀) w.held (λ c st e'. absurd (ground arith));
    words = w.words;
  }
  Step-Widths {i} {s} (refuse {c = c₀} e many) typed w = record {
    packet = w.packet;
    held = part_after s i idle w.held (λ c st e'. absurd (ground arith));
    words =
        All-append (λ r. All IsWord r.reply.1) s.history _ w.words
          (values_of-Typed c₀ (subst TypedPc e (typed.under_way i)), tt);
  }
  Step-Widths {i} {s} (lock {c = c₀} e few free) typed w = record {
    packet = w.packet;
    held =
        part_after s i (inside c₀ locked) w.held
          (λ c st e'. subst (λ p. HeldPc p) e' (few_of c₀ few));
    words = w.words;
  }
  Step-Widths {i} {s} (work {c = c₀} {st = st₀} e) typed w =
      let moved =
        advance-types spi past past_bytes c₀ st₀ s.link (subst TypedPc e (typed.under_way i))
          (w.held i c₀ st₀ e) w.packet in
      record {
        packet = moved.1;
        held =
            part_after s i (inside c₀ (advance spi past c₀ st₀ s.link).0) w.held
              (λ c st e'. subst (λ p. HeldPc p) e' moved.0);
        words = w.words;
      }
  Step-Widths {i} {s} (unlock {c = c₀} {reply} e) typed w = record {
    packet = w.packet;
    held = part_after s i idle w.held (λ c st e'. absurd (ground arith));
    words =
        All-append (λ r. All IsWord r.reply.1) s.history _ w.words
          ((w.held i c₀ (leaving reply) e).1, tt);
  }

  Reach-Widths :
      {l : Link D} {s : Threads D}
      → IsPacket l.buffer
      → Reach spi past l s
      → TypedCalls s
      → Widths s
  Reach-Widths packet start typed = record {
    packet = packet;
    held = λ i c st e. absurd (ground arith);
    words = tt;
  }
  Reach-Widths packet (later r step) typed =
      let before = Step-TypedCalls spi past past_bytes step typed in
      Step-Widths step before (Reach-Widths packet r before)

  -- With bytes behind the packet and a packet in the buffer at the start: in every interleaving of
  -- calls that pass 16-bit addresses, lists of words and, to write, as many as they count, the
  -- buffer stays a packet, each field within the width of its C type, and every list that a call
  -- has returned is one of words, whatever the bus answers.
  pub buffer-IsPacket :
      {l : Link D} {s : Threads D}
      → IsPacket l.buffer
      → Reach spi past l s
      → TypedCalls s
      → IsPacket s.link.buffer × All (λ r. All IsWord r.reply.1) s.history
  buffer-IsPacket packet r typed = let w = Reach-Widths packet r typed in (w.packet, w.words)
