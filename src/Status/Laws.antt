-- ===== src/Status/Laws.antt =====
-- What an update makes of the registers that it reads.
use rcio_dkms.Base.{
  ℕ, ◌+◌, ◌*◌, ◌/◌, ◌%◌, ◌^◌, ◌≡◌, ap, ◌∙◌, true, false, not, ℤ, is_neg, List, [], ◌∷◌, arith,
  bit_and, bit_or, get_or, ◌==◌, if◌then◌else◌, All, All-get_or,
}
use rcio_dkms.Base.Bits.Fields.{bit_or-shift}
use rcio_dkms.Adapter.{Adapter}
use rcio_dkms.Kernel.{Kernel, ulong}
use rcio_dkms.Protocol.Packet.{IsWord}
use rcio_dkms.Protocol.Regs.{
  px4io_page_status, px4io_p_status_flags, px4io_p_status_flags_init_ok,
  px4io_p_status_alarms_pwm_error, px4io_page_setup, px4io_p_setup_crc,
}
use rcio_dkms.Registers.{address_of, register_get}
use rcio_dkms.Status.{
  Status, handle_status, handle_alarms, rcio_status_request_crc, rcio_status_update,
}

-- The two registers of the checksum are its high and its low half.
halves :
    (high low : ℕ)
    → IsWord high
    → IsWord low
    → bit_or (high * 2 ^ 16 % 2 ^ 32) low ≡ high * 2 ^ 16 + low
halves high low hh hl =
    ap (λ (t : ℕ). bit_or t low) {x = high * 2 ^ 16 % 2 ^ 32} (omega arith)
    ∙ bit_or-shift 32 16 high low hl (omega arith)

module _ {D : Type 0} (a : Adapter D) (junk : ℕ) (d : D) (s : Status) where
  abbrev pub crc_read : ℤ × List ℕ × D
  crc_read = register_get a d px4io_page_setup px4io_p_setup_crc (junk ∷ junk ∷ []) 2

  pub rcio_status_request_crc_lem :
      IsWord junk
      → rcio_status_request_crc a junk d s ≡ (
          if is_neg crc_read.0 then (false, s, crc_read.2) else (
            true,
            record s { crc = get_or crc_read.1 1 0 * 2 ^ 16 + get_or crc_read.1 0 0 },
            crc_read.2,
          ))
  unfolding rcio_status_request_crc
  rcio_status_request_crc_lem word = ground (
    arith,
    halves (get_or crc_read.1 1 0) (get_or crc_read.1 0 0)
        (All-get_or IsWord crc_read.1 1 0 (omega arith) words)
        (All-get_or IsWord crc_read.1 0 0 (omega arith) words),
  )
    where
      words : All IsWord crc_read.1
      words =
          unfold register_get in
          a.read_words d (address_of px4io_page_setup px4io_p_setup_crc) (junk ∷ junk ∷ []) 2
            (word, (word, tt))

-- The parts of an update.
module _ {D : Type 0} (a : Adapter D) (junk : ℕ) (k : Kernel) (now later : ℕ) (d : D)
    (s : Status) where
  abbrev pub flags_read : ℤ × List ℕ × D
  flags_read =
      register_get a d px4io_page_status px4io_p_status_flags
        (junk ∷ junk ∷ junk ∷ junk ∷ junk ∷ junk ∷ []) 6

  -- For local variables that hold words before they are assigned: an update that is not due changes
  -- nothing. One whose read of the flags fails says that the coprocessor is not alive, and changes
  -- nothing else. Any other says that it is alive, takes `init_ok` and `pwm_ok` from the flags and
  -- the alarms and the checksum from its two registers, if these can be read, and puts the timeout
  -- a fifth of a second on.
  pub rcio_status_update_lem :
      IsWord junk
      → let (ret, regs, d1) = flags_read in
        let crc = crc_read a junk d1 s in
        rcio_status_update a junk k now later d s ≡ (
          if k.time_before now s.timeout
          then (false, s, d)
          else (if is_neg ret then (false, record s { alive = false }, d1) else (
            true,
            record s {
              alive = true;
              init_ok = not (bit_and (get_or regs 0 0) px4io_p_status_flags_init_ok == 0);
              pwm_ok = bit_and (get_or regs 1 0) px4io_p_status_alarms_pwm_error == 0;
              crc = if is_neg crc.0 then s.crc else get_or crc.1 1 0 * 2 ^ 16 + get_or crc.1 0 0;
              timeout = ulong (later + k.hz / 5);
            },
            crc.2,
          )))
  unfolding rcio_status_update handle_status handle_alarms
  rcio_status_update_lem word =
      ground (arith, rcio_status_request_crc_lem a junk flags_read.2 s word)
