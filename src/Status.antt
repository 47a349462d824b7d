-- ===== src/Status.antt =====
-- src/rcio_status.c: the state of the coprocessor as it is read from it.
pub mod Laws
use rcio_dkms.Base.{
  ℕ, zero, suc, ◌+◌, ◌*◌, ◌/◌, ◌%◌, ◌^◌, Bool, true, false, not, Option, none, some, ℤ, is_neg,
  List, [], ◌∷◌, bit_and, bit_or, get_or, replicate, ltb, ◌==◌, if◌then◌else◌,
}
use rcio_dkms.Adapter.{Adapter}
use rcio_dkms.Kernel.{Kernel, ulong}
use rcio_dkms.Protocol.Regs.{
  px4io_page_status, px4io_p_status_flags, px4io_p_status_flags_init_ok,
  px4io_p_status_alarms_pwm_error, px4io_p_status_board_type, px4io_page_setup, px4io_p_setup_crc,
  px4io_page_git_hash,
}
use rcio_dkms.Registers.{register_get}

-- board_type_t
abbrev pub navio2 : ℕ
navio2 = 0

abbrev pub edge : ℕ
edge = 1

abbrev pub new_board1 : ℕ
new_board1 = 2

abbrev pub new_board2 : ℕ
new_board2 = 3

abbrev pub unknown_board : ℕ
unknown_board = 4

-- `struct rcio_status`, with `board_type` of `struct rcio_state`, which is the one that is used.
-- `git_hash`, of 20 bytes, is held as the ten registers that it is read as.
pub record Status : Type 0 where
  pub timeout : ℕ
  pub crc : ℕ
  pub init_ok : Bool
  pub pwm_ok : Bool
  pub alive : Bool
  pub git_hash : List ℕ
  pub board_type : ℕ

unfoldable pub initial_status : Status
initial_status = record {
  timeout = 0;
  crc = 0;
  init_ok = false;
  pwm_ok = false;
  alive = false;
  git_hash = replicate 10 0;
  board_type = navio2;
}

unfoldable pub handle_status : ℕ → Status → Status
handle_status st s =
    if not (bit_and st px4io_p_status_flags_init_ok == 0)
    then record s { init_ok = true }
    else record s { init_ok = false }

unfoldable pub handle_alarms : ℕ → Status → Status
handle_alarms alarms s =
    if not (bit_and alarms px4io_p_status_alarms_pwm_error == 0)
    then record s { pwm_ok = false }
    else record s { pwm_ok = true }

-- board_name_show: the entry of `board_names` that is printed, `none` where there is no such entry.
unfoldable pub board_name : Status → Option ℕ
board_name s = if ltb unknown_board s.board_type then none else some s.board_type

-- `junk` is what local variables hold that are not initialised.
module _ {D : Type 0} (a : Adapter D) (junk : ℕ) where
  -- `status.crc = regs[1] << 16 | regs[0];`, in `int`, as the bits of an `unsigned long`.
  unfoldable pub rcio_status_request_crc : D → Status → Bool × Status × D
  rcio_status_request_crc d s =
      let (ret, regs, d') =
        register_get a d px4io_page_setup px4io_p_setup_crc (junk ∷ junk ∷ []) 2 in
      if is_neg ret then (false, s, d') else (
        true,
        record s { crc = bit_or (get_or regs 1 0 * 2 ^ 16 % 2 ^ 32) (get_or regs 0 0) },
        d',
      )

  unfoldable pub rcio_status_request_board_type : D → Status → Bool × Status × D
  rcio_status_request_board_type d s =
      let (ret, reg, d') =
        register_get a d px4io_page_status px4io_p_status_board_type (junk ∷ []) 1 in
      if is_neg ret then (false, s, d') else (true, record s { board_type = get_or reg 0 0 }, d')

  unfoldable pub rcio_status_request_git_hash : D → Status → Bool × Status × D
  rcio_status_request_git_hash d s =
      let (ret, git_hash', d') = register_get a d px4io_page_git_hash 0 s.git_hash 5 in
      (not (is_neg ret), record s { git_hash = git_hash' }, d')

  unfoldable pub rcio_status_update : Kernel → ℕ → ℕ → D → Status → Bool × Status × D
  rcio_status_update k now later d s =
      let (ret, regs, d1) =
        register_get a d px4io_page_status px4io_p_status_flags
          (junk ∷ junk ∷ junk ∷ junk ∷ junk ∷ junk ∷ []) 6 in
      let (crc_read, s2, d2) = rcio_status_request_crc d1 s in
      let s3 =
        handle_alarms (get_or regs 1 0)
          (handle_status (get_or regs 0 0) (record s2 { alive = true })) in
      if k.time_before now s.timeout
      then (false, s, d)
      else (if is_neg ret
          then (false, record s { alive = false }, d1)
          else (true, record s3 { timeout = ulong (later + k.hz / 5) }, d2))

  -- rcio_status_probe: `created` is what sysfs_create_group returns. The reads may fail.
  unfoldable pub rcio_status_probe : Kernel → ℕ → ℤ → D → Status → Bool × Status × D
  rcio_status_probe k now created d s =
      let s0 = record s { timeout = ulong (now + k.hz / 50) } in
      let (crc_read, s1, d1) = rcio_status_request_crc d (record s0 { init_ok = false }) in
      let (type_read, s2, d2) = rcio_status_request_board_type d1 s1 in
      let (hash_read, s3, d3) = rcio_status_request_git_hash d2 s2 in
      if is_neg created then (false, s0, d) else (true, s3, d3)
