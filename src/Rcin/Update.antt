-- ===== src/Rcin/Update.antt =====
-- What an update takes from the receiver, and what it leaves when there is no signal.
use rcio_dkms.Base.{
  ℕ, ◌+◌, ◌/◌, ◌<◌, ◌≡◌, refl, sym, ap, ◌∙◌, Bool, true, false, not, ◌&&◌, inl, inr, ℤ, pos, is_neg,
  eio, enotconn, ◌&&◌, ◌||◌, List, [], ◌∷◌, arith, bit_and, length, get_or, replicate, ◌==◌,
  if◌then◌else◌, Bool-cases, get_or_past, get_or_ext, get_or-replicate,
}
use rcio_dkms.Adapter.{Adapter}
use rcio_dkms.Kernel.{Kernel, ulong}
use rcio_dkms.Protocol.Regs.{
  px4io_page_status, px4io_p_status_flags, px4io_p_status_flags_rc_ok, px4io_page_raw_rc_input,
  px4io_p_raw_rc_base,
}
use rcio_dkms.Registers.{register_get}
use rcio_dkms.Rcin.{
  Rcin, out_of_range, clear_from, source_of, rcin_get_raw_values, fresh_report, rcio_rcin_update,
}
use rcio_dkms.Rcin.Laws.{take_values_lem, clear_from_lem, length-clear_from}

module _ {D : Type 0} (a : Adapter D) (junk : ℕ) (k : Kernel) (now later : ℕ) (d : D)
    (s : Rcin) where
  -- An update that is not due returns false and changes nothing.
  pub rcio_rcin_update_early :
      k.time_before now s.timeout ≡ true → rcio_rcin_update a junk k now later d s ≡ (false, s, d)
  unfolding rcio_rcin_update
  rcio_rcin_update_early early = rw early refl

  -- The two reads of an update.
  abbrev pub status_read : ℤ × List ℕ × D
  status_read = register_get a d px4io_page_status px4io_p_status_flags (junk ∷ []) 1

  abbrev pub raw_read : ℤ × List ℕ × D
  raw_read =
      register_get a status_read.2 px4io_page_raw_rc_input px4io_p_raw_rc_base (replicate 18 junk)
        16

  -- The receiver has a signal.
  abbrev pub has_signal : Bool
  has_signal = not (bit_and (get_or status_read.1 0 0) px4io_p_status_flags_rc_ok == 0)

  signal_values :
      is_neg status_read.0 ≡ false
      → has_signal ≡ true
      → is_neg raw_read.0 ≡ false
      → rcin_get_raw_values a junk d (fresh_report a junk) ≡ (
        pos 0,
        record { input_source = source_of (get_or status_read.1 0 0); values = raw_read.1 },
        raw_read.2,
      )
  unfolding rcin_get_raw_values
  signal_values status_done signal raw_done = ground arith

  no_signal_values :
      is_neg status_read.0 ≡ false
      → has_signal ≡ false
      → rcin_get_raw_values a junk d (fresh_report a junk)
        ≡ (enotconn, fresh_report a junk, status_read.2)
  unfolding rcin_get_raw_values
  no_signal_values status_done no_signal = ground arith

  cleared : length s.measurements ≡ 16 → clear_from 16 0 s.measurements ≡ replicate 16 0
  cleared all =
      get_or_ext 0 (clear_from 16 0 s.measurements) (replicate 16 0)
        (length-clear_from 16 0 s.measurements ∙ all)
        (λ i. zero_entry i ∙ sym (get_or-replicate 16 0 i))
    where
      zero_entry : (i : ℕ) → get_or (clear_from 16 0 s.measurements) i 0 ≡ 0
      zero_entry i =
          ground (arith, clear_from_lem 16 0 s.measurements i, get_or_past s.measurements i 0)

  -- Due, with a signal and both reads done: each of the 16 channels takes the value read if it is
  -- from 800 to 2500, and keeps the one it had otherwise; the receiver is connected, the timeout is
  -- a hundredth of a second on, and the result is true.
  rcio_rcin_update_signal :
      (j : ℕ)
      → j < 16
      → k.time_before now s.timeout ≡ false
      → is_neg status_read.0 ≡ false
      → has_signal ≡ true
      → is_neg raw_read.0 ≡ false
      → length s.measurements ≡ 16
      → let (updated, s', d') = rcio_rcin_update a junk k now later d s in
        (updated ≡ true)
        × (s'.connected ≡ true)
        × (s'.timeout ≡ ulong (later + k.hz / 100))
        × (get_or s'.measurements j 0 ≡ (
            if out_of_range (get_or raw_read.1 j 0)
            then get_or s.measurements j 0
            else get_or raw_read.1 j 0))
  unfolding rcio_rcin_update
  rcio_rcin_update_signal j few due status_done signal raw_done all =
      rw (due, signal_values status_done signal raw_done)
        (refl, refl, refl, ground (arith, take_values_lem 16 0 raw_read.1 s.measurements j))

  -- Due, without a signal: all channels are put to 0, the receiver is not connected, the timeout
  -- stays, and the result is true.
  rcio_rcin_update_no_signal :
      k.time_before now s.timeout ≡ false
      → is_neg status_read.0 ≡ false
      → has_signal ≡ false
      → length s.measurements ≡ 16
      → rcio_rcin_update a junk k now later d s
        ≡ (true, record s { connected = false; measurements = replicate 16 0 }, status_read.2)
  unfolding rcio_rcin_update
  rcio_rcin_update_no_signal due status_done no_signal all =
      rw (due, no_signal_values status_done no_signal, cleared all) refl

  failed_values :
      is_neg status_read.0 ≡ false
      → has_signal ≡ true
      → is_neg raw_read.0 ≡ true
      → (rcin_get_raw_values a junk d (fresh_report a junk)).0 ≡ eio
  unfolding rcin_get_raw_values
  failed_values status_done signal raw_failed = ground arith

  -- Due, with a signal that cannot be read: nothing but the connection is lost.
  rcio_rcin_update_failed :
      k.time_before now s.timeout ≡ false
      → is_neg status_read.0 ≡ false
      → has_signal ≡ true
      → is_neg raw_read.0 ≡ true
      → let (updated, s', d') = rcio_rcin_update a junk k now later d s in
        (updated ≡ false) × (s' ≡ record s { connected = false })
  unfolding rcio_rcin_update
  rcio_rcin_update_failed due status_done signal raw_failed =
      rw (due, failed_values status_done signal raw_failed) (refl, refl)

  -- Due, with the flags read and 16 channels: the receiver is connected, and the timeout put a
  -- hundredth of a second on, only if there is a signal that can be read; the result is true also
  -- if there is no signal. Each of the 16 channels is 0 without a signal; with one that can be read
  -- it takes the value read, if this is from 800 to 2500, and in all other cases it is as it was.
  pub rcio_rcin_update_lem :
      (j : ℕ)
      → j < 16
      → k.time_before now s.timeout ≡ false
      → is_neg status_read.0 ≡ false
      → length s.measurements ≡ 16
      → let (updated, s', d') = rcio_rcin_update a junk k now later d s in
        let readable = has_signal && not (is_neg raw_read.0) in
        (updated ≡ (readable || not has_signal))
        × (s'.connected ≡ readable)
        × (s'.timeout ≡ (if readable then ulong (later + k.hz / 100) else s.timeout))
        × (get_or s'.measurements j 0 ≡ (
            if not has_signal
            then 0
            else (if readable && not (out_of_range (get_or raw_read.1 j 0))
                then get_or raw_read.1 j 0
                else get_or s.measurements j 0)))
  rcio_rcin_update_lem j few due status_done all = elim (Bool-cases has_signal) [
    | inl signal ↦ elim (Bool-cases (is_neg raw_read.0)) [
      | inl failed ↦
          let lost = rcio_rcin_update_failed due status_done signal failed in
          ground (
            arith,
            lost.0,
            ap (λ r. r.connected) lost.1,
            ap (λ r. r.timeout) lost.1,
            ap (λ r. get_or r.measurements j 0) lost.1,
          )
      | inr done ↦
          let got = rcio_rcin_update_signal j few due status_done signal done all in
          ground (arith, got.0, got.1, got.2, got.3)
    ]
    | inr none ↦
        rw (rcio_rcin_update_no_signal due status_done none all, none)
          (refl, refl, refl, get_or-replicate 16 0 j)
  ]
