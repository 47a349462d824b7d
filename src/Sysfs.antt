-- ===== src/Sysfs.antt =====
-- The show functions of the sysfs files, in src/rcio_status.c, src/rcio_safety.c, src/rcio_rcin.c
-- and src/rcio_gpio.c: the text that a reader gets. The conversions of the kernel's sprintf and
-- kstrtol are the parameter `Format`. A text is a list of bytes.
pub mod Attrs
pub mod Channels
pub mod Groups
pub mod Laws
use Prim.Native.Char.{code}
use Prim.Native.String.{String}
use rcio_dkms.Base.{
  ℕ, ◌+◌, ◌<◌, ◌≡◌, Bool, Option, none, some, ℤ, pos, List, [], ◌∷◌, ◌++◌, length, get_or, map,
  if◌then◌else◌, ◌==◌,
}
use mathlib.Core.Option.{map as map_option}
use rcio_dkms.Adapter.{Adapter}
use rcio_dkms.Protocol.Regs.{
  px4io_page_gpio_exported, px4io_page_pwm_exported, px4io_page_setup, px4io_p_setup_features,
}
use rcio_dkms.Registers.{register_get}
use rcio_dkms.State.{Gpio}
use rcio_dkms.Safety.{Safety}
use rcio_dkms.Status.{Status, navio2, edge, new_board1, new_board2, board_name}
use rcio_dkms.Rcin.{Rcin}
use rcio_dkms.Pwm.Channel.{pwm_check_device_motors_running_count}

-- The code points of a text, which are its bytes, since it is ASCII.
abbrev pub codes : String → List ℕ
codes String.[] = []
codes (String.◌∷◌ c s) = code c ∷ codes s

abbrev pub newline : List ℕ
newline = 10 ∷ []

-- `%d`, `%x` (and `%lx`), and kstrtol, `none` for its error.
pub record Format : Type 0 where
  pub percent_d : ℤ → List ℕ
  pub percent_x : ℕ → List ℕ
  pub kstrtol : List ℕ → ℕ → Option ℤ
  -- A number below ten is its digit, and kstrtol takes a digit with a newline behind it.
  pub percent_d_digit : (n : ℕ) → n < 10 → percent_d (pos n) ≡ (b'0' + n) ∷ []
  pub kstrtol_digit : (n : ℕ) → n < 10 → kstrtol ((b'0' + n) ∷ newline) 10 ≡ some (pos n)

-- `sprintf(buf, ...)`: the count and the text.
abbrev pub Shown : Type 0
Shown = ℤ × List ℕ

abbrev pub sprintf : List ℕ → Shown
sprintf text = (pos (length text), text)

-- `flag? 1: 0`
abbrev pub one_or_zero : Bool → ℤ
one_or_zero b = if b then pos 1 else pos 0

-- board_names
abbrev pub board_names : ℕ → List ℕ
board_names n =
    if n == navio2
    then codes "navio2"
    else (if n == edge
        then codes "edge"
        else (if n == new_board1
            then codes "new_board1"
            else (if n == new_board2 then codes "new_board2" else codes "unknown board")))

-- `none` where `board_type` is no index of `board_names`.
unfoldable pub board_name_show : Status → Option Shown
board_name_show s = map_option (λ n. sprintf (board_names n ++ newline)) (board_name s)

module _ (fmt : Format) where
  unfoldable pub init_ok_show : Status → Shown
  init_ok_show s = sprintf (fmt.percent_d (one_or_zero s.init_ok) ++ newline)

  unfoldable pub pwm_ok_show : Status → Shown
  pwm_ok_show s = sprintf (fmt.percent_d (one_or_zero s.pwm_ok) ++ newline)

  unfoldable pub alive_show : Status → Shown
  alive_show s = sprintf (fmt.percent_d (one_or_zero s.alive) ++ newline)

  unfoldable pub crc_show : Status → Shown
  crc_show s = sprintf (codes "0x" ++ fmt.percent_x s.crc ++ newline)

  unfoldable pub heartbeat_enabled_show : Safety → Shown
  heartbeat_enabled_show s = sprintf (fmt.percent_d (one_or_zero s.heartbeat_enabled) ++ newline)

  unfoldable pub connected_show : Rcin → Shown
  connected_show s = sprintf (fmt.percent_d (one_or_zero s.connected) ++ newline)

  unfoldable pub pwmignore_show : Gpio → Shown
  pwmignore_show g = sprintf (
      codes "0x"
      ++ fmt.percent_x g.pwm_ignore_writings_mask
      ++ newline
      ++ codes
          "This is the mask where each bit shows whether pwm writings to this channel will be ignored"
      ++ newline)

  -- status_show: `junk` is what the local variables hold. The results of the reads are not looked
  -- at.
  module _ {D : Type 0} (a : Adapter D) (junk : ℕ) where
    unfoldable pub status_show : D → Shown × D
    status_show d =
        let (r1, pwm_exported, d1) = register_get a d px4io_page_pwm_exported 0 (junk ∷ []) 1 in
        let (r2, gpio_exported, d2) = register_get a d1 px4io_page_gpio_exported 0 (junk ∷ []) 1 in
        let (r3, setup_features, d3) =
          register_get a d2 px4io_page_setup px4io_p_setup_features (junk ∷ []) 1 in
        let (running, d4) = pwm_check_device_motors_running_count a junk d3 in
        (
          sprintf (
              codes "pwm exported: 0x"
              ++ fmt.percent_x (get_or pwm_exported 0 0)
              ++ codes ", gpio exported: 0x"
              ++ fmt.percent_x (get_or gpio_exported 0 0)
              ++ codes ", pwm running: "
              ++ fmt.percent_d running
              ++ codes "."
              ++ newline
              ++ codes "Features: 0x"
              ++ fmt.percent_x (get_or setup_features 0 0)
              ++ newline),
          d4,
        )

unfoldable pub reset_show : Shown
reset_show = sprintf (codes "Write everything here to clear all GPIO pins" ++ newline)
