-- ===== src/Spi/Threads.antt =====
-- rcio_spi_read and rcio_spi_write (src/rcio_spi.c) as threads run them, a shared access at a time:
-- the mutex `state->lock` around the file's one packet buffer.
pub mod Serial
pub mod Release
pub mod Device
pub mod Types
pub mod Widths
use rcio_dkms.Base.{
  ℕ, ◌-◌, ◌≡◌, Bool, true, false, ℤ, pos, is_neg, einval, Option, none, some, List, [], ◌∷◌, ◌++◌,
  take, drop, ltb, if◌then◌else◌, update,
}
use rcio_dkms.Protocol.Packet.{packet_size, pkt_max_regs, bytes, of_bytes}
use rcio_dkms.Spi.{
  Link, is_zero, seal, write_request, read_request, write_status, read_status, clear_crc,
}
use rcio_dkms.Spi.Bus.{SpiBus}
use rcio_dkms.Spi.Server.Runs.{Call, write_call, read_call, Reply}

-- The `count` of a call, and the caller's list.
unfoldable pub count_of : Call → ℕ
count_of (write_call address values n) = n
count_of (read_call address values n) = n

unfoldable pub values_of : Call → List ℕ
values_of (write_call address values n) = values
values_of (read_call address values n) = values

-- Where the holder of the lock stands.
pub data Stage : Type 0 where
  locked filled sealed awaiting : Stage
  answered : (done : ℤ) → Stage  -- what wait_complete returned
  leaving : (reply : Reply) → Stage  -- before mutex_unlock

-- Where a thread stands: outside the driver, before the test of `count`, or with the lock.
pub data Pc : Type 0 where
  idle : Pc
  entered : (call : Call) → Pc
  inside : (call : Call) (stage : Stage) → Pc

-- The stores of the request into the buffer.
unfoldable pub fill : {D : Type 0} → Call → Link D → Link D
unfolding write_request read_request
fill (write_call address values n) l = record l { buffer = write_request address values n l.buffer }
fill (read_call address values n) l = record l { buffer = read_request address n l.buffer }

-- The checksum of the request.
unfoldable pub put_crc : {D : Type 0} → List ℕ → Link D → Link D
put_crc past l = record l { buffer = seal past l.buffer }

-- What the call returns once wait_complete has returned `done`, with the reply read from the
-- buffer.
unfoldable pub conclude : {D : Type 0} → List ℕ → Call → ℤ → Link D → Reply × Link D
unfolding write_status read_status
conclude past (write_call address values n) done l =
    let status = write_status past l.buffer in
    if is_zero done
    then (if is_zero status
        then ((pos n, values), clear_crc l)
        else ((status, values), clear_crc l))
    else ((done, values), l)
conclude past (read_call address values n) done l =
    let status = read_status past n l.buffer in
    if is_zero done
    then (if is_zero status
        then ((pos n, take n l.buffer.regs ++ drop n values), clear_crc l)
        else ((status, values), clear_crc l))
    else ((done, values), l)

module _ {D : Type 0} (spi : SpiBus D) where
  -- The first spi_write_then_read, and where the holder stands after it.
  unfoldable pub send : Link D → Stage × Link D
  send l =
      let (sent, bus1) = spi.write l.bus (bytes l.buffer) in
      (if is_neg sent then answered sent else awaiting, record l { bus = bus1 })

  -- The second one, which fills the buffer.
  unfoldable pub receive : Link D → ℤ × Link D
  receive l =
      let (got, reply, bus2) = spi.read l.bus packet_size in
      if is_neg got
      then (got, record l { bus = bus2 })
      else (pos 0, record { bus = bus2; buffer = of_bytes reply })

  -- The next step of the holder. The unlock is not one of these: it is a step of the system.
  unfoldable pub advance : List ℕ → Call → Stage → Link D → Stage × Link D
  advance past c locked l = (filled, fill c l)
  advance past c filled l = (sealed, put_crc past l)
  advance past c sealed l = send l
  advance past c awaiting l = let (done, l') = receive l in (answered done, l')
  advance past c (answered done) l = let (reply, l') = conclude past c done l in (leaving reply, l')
  advance past c (leaving reply) l = (leaving reply, l)

-- A call that has returned to its thread.
pub record Returned : Type 0 where
  pub thread : ℕ
  pub call : Call
  pub reply : Reply

-- The bus and the buffer, the owner of `state->lock`, the threads, and what has returned so far.
pub record Threads (D : Type 0) : Type 0 where
  pub link : Link D
  pub owner : Option ℕ
  pub pc : ℕ → Pc
  pub history : List Returned

abbrev pub init : {D : Type 0} → Link D → Threads D
init l = record { link = l; owner = none; pc = λ _. idle; history = [] }

module _ {D : Type 0} (spi : SpiBus D) (past : List ℕ) where
  -- One step of thread `i`. `refuse` is the return of -EINVAL, which comes before the lock.
  pub data Step (i : ℕ) (s : Threads D) : Threads D → Type 0 where
    enter : (c : Call) → s.pc i ≡ idle → Step i s (record s { pc = update s.pc i (entered c) })
    refuse :
        {c : Call}
        → s.pc i ≡ entered c
        → ltb pkt_max_regs (count_of c) ≡ true
        → Step i s (record s {
          pc = update s.pc i idle;
          history =
              s.history ++ record { thread = i; call = c; reply = (einval, values_of c) } ∷ [];
        })
    lock :
        {c : Call}
        → s.pc i ≡ entered c
        → ltb pkt_max_regs (count_of c) ≡ false
        → s.owner ≡ none
        → Step i s (record s { owner = some i; pc = update s.pc i (inside c locked) })
    work :
        {c : Call} {st : Stage}
        → s.pc i ≡ inside c st
        → Step i s (record s {
          link = (advance spi past c st s.link).1;
          pc = update s.pc i (inside c (advance spi past c st s.link).0);
        })
    unlock :
        {c : Call} {reply : Reply}
        → s.pc i ≡ inside c (leaving reply)
        → Step i s (record s {
          owner = none;
          pc = update s.pc i idle;
          history = s.history ++ record { thread = i; call = c; reply = reply } ∷ [];
        })

  -- The states that the threads reach, in any interleaving, from a link `l` at rest.
  pub data Reach (l : Link D) : Threads D → Type 0 where
    start : Reach l (init l)
    later : {i : ℕ} {s t : Threads D} → Reach l s → Step i s t → Reach l t
