-- ===== src/Tests/Threads.antt =====
-- Two threads at the transactions of src/rcio_spi.c, at concrete inputs.
use rcio_dkms.Base.{ℕ, ◌≡◌, refl, pos, none, [], ◌∷◌, ◌++◌, arith}
use rcio_dkms.Spi.Server.Runs.{Call, write_call, read_call, Reply, on_bus, on_registers}
use rcio_dkms.Spi.Threads.{
  Threads, Pc, idle, entered, inside, Reach, start, later, Step, enter, refuse, lock, work, unlock,
  advance, send, count_of,
}
use rcio_dkms.Spi.Threads.Serial.{calls, replies, serial}
use rcio_dkms.Spi.Threads.Release.{Alone, lock_released}
use rcio_dkms.Spi.Threads.Device.{threads_on_registers}
use rcio_dkms.Protocol.Packet.{IsPacket, IsWord}
use rcio_dkms.Spi.Threads.Types.{Typed, TypedPc, TypedCalls}
use rcio_dkms.Spi.Threads.Widths.{buffer-IsPacket}
use rcio_dkms.Base.{All, zero, suc}
use rcio_dkms.Tests.Coprocessor.{Coprocessor, coprocessor, server, blank-IsPacket, link}

-- Thread 0 writes two registers, thread 1 reads them, and thread 2 asks for too many.
abbrev writes : Call
writes = write_call 0x3605 (7 ∷ 8 ∷ []) 2

abbrev reads : Call
reads = read_call 0x3605 (1 ∷ 2 ∷ 3 ∷ []) 2

abbrev too_many : Call
too_many = read_call 0x3605 [] 33

abbrev Reached : Type 0
Reached = (s : Threads Coprocessor) × Reach coprocessor [] link s

-- One more step of thread `i`.
abbrev turn :
    (i : ℕ) {t : Threads Coprocessor} (r : Reached) → Step coprocessor [] i r.0 t → Reached
turn i {t} r step = (t, later r.1 step)

abbrev both_entered : Reached
both_entered =
    let r0 : Reached = turn 0 (_, start) (enter writes refl) in turn 1 r0 (enter reads refl)

-- Thread 0 has the lock and has filled the buffer.
abbrev contended : Reached
unfolding advance count_of
contended = let r1 : Reached = turn 0 both_entered (lock refl refl refl) in turn 0 r1 (work refl)

-- Thread 0 has returned, then thread 1.
abbrev finished : Reached
unfolding contended advance send count_of
finished =
    let r1 : Reached = turn 0 contended (work refl) in
    let r2 : Reached = turn 0 r1 (work refl) in
    let r3 : Reached = turn 0 r2 (work refl) in
    let r4 : Reached = turn 0 r3 (work refl) in
    let r5 : Reached = turn 0 r4 (unlock refl) in
    let r6 : Reached = turn 1 r5 (lock refl refl refl) in
    let r7 : Reached = turn 1 r6 (work refl) in
    let r8 : Reached = turn 1 r7 (work refl) in
    let r9 : Reached = turn 1 r8 (work refl) in
    let r10 : Reached = turn 1 r9 (work refl) in
    let r11 : Reached = turn 1 r10 (work refl) in turn 1 r11 (unlock refl)

-- Then thread 2 has been refused.
abbrev refused : Reached
unfolding finished count_of
refused = let r1 : Reached = turn 2 finished (enter too_many refl) in turn 2 r1 (refuse refl refl)

serial_example :
    on_bus coprocessor [] (calls refused.0.history) link
    ≡ (replies refused.0.history, refused.0.link)
unfolding refused
serial_example = serial coprocessor [] refused.1 refl

lock_released_example :
    (c : Call) × (reply : Reply) × (t : Threads Coprocessor) × Alone coprocessor [] 0 6 contended.0
      t
    × (t.owner ≡ none)
    × (t.history ≡ contended.0.history ++ record { thread = 0; call = c; reply = reply } ∷ [])
unfolding contended
lock_released_example = lock_released coprocessor [] 0 contended.1 refl

threads_on_registers_example :
    replies finished.0.history ≡ (pos 2, 7 ∷ 8 ∷ []) ∷ (pos 2, 7 ∷ 8 ∷ 3 ∷ []) ∷ []
unfolding on_registers finished
threads_on_registers_example =
    threads_on_registers coprocessor [] tt server blank-IsPacket finished.1 (
      (omega arith, omega arith, omega arith, omega arith, (omega arith, λ i h. ground arith)),
      ((omega arith, omega arith, (omega arith, λ i h. ground arith)), tt),
    )

all_idle : (i : ℕ) → finished.0.pc i ≡ idle
unfolding finished contended
all_idle zero = refl
all_idle (suc zero) = refl
all_idle (suc (suc i)) = ground arith

idle_typed : (p : Pc) → p ≡ idle → TypedPc p
unfolding TypedPc
idle_typed idle e = tt
idle_typed (entered c) e = absurd (ground arith)
idle_typed (inside c st) e = absurd (ground arith)

finished_typed : TypedCalls finished.0
unfolding finished contended Typed
finished_typed = record {
  under_way = λ i. idle_typed (finished.0.pc i) (all_idle i);
  returned = ((omega arith, omega arith, omega arith), ((omega arith, omega arith), tt));
}

buffer-IsPacket_example :
    IsPacket finished.0.link.buffer × All (λ r. All IsWord r.reply.1) finished.0.history
buffer-IsPacket_example = buffer-IsPacket coprocessor [] tt blank-IsPacket finished.1 finished_typed
