-- ===== src/Core/Channels.antt =====
-- The files of the analog inputs of a driver that runs: their count comes from the type of the
-- board.
use Prim.Native.String.{String}
use rcio_dkms.Base.{ℕ, ◌≡◌, Option, none, not, ℤ, pos, is_neg, arith, if◌then◌else◌, ◌==◌}
use rcio_dkms.Adapter.{Adapter}
use rcio_dkms.Kernel.{Kernel}
use rcio_dkms.Adc.{Adc}
use rcio_dkms.Status.{navio2, edge, Status}
use rcio_dkms.Core.Worker.{Driver}
use rcio_dkms.Core.Init.{Outcomes, Module, errout_pwm, errout_gpio, init_gpio}
use rcio_dkms.Sysfs.{Format, Shown}
use rcio_dkms.Sysfs.Attrs.{Group, read_file}
use rcio_dkms.Sysfs.Channels.{adc_attrs}

-- The analog inputs by the type of the board: 8 of EDGE, 6 of NAVIO2, none of another type.
unfoldable pub channels_of_board : ℕ → ℕ
channels_of_board board = if board == edge then 8 else (if board == navio2 then 6 else 0)

-- The driver shows the channels of its type of board, in a group if sysfs has made one.
abbrev pub ByBoard : {D : Type 0} → Outcomes → Driver D → Type 0
ByBoard o v =
    (v.adc.shown ≡ channels_of_board v.status.board_type)
    × (v.adc.grouped ≡ not (is_neg o.adc_created))

abbrev Known : {D : Type 0} → Outcomes → ℤ × Module D → Type 0
Known o r = r.0 ≡ pos 0 → ByBoard o r.1.driver

-- A read of a file of the group of rcio_adc.c, which is not there if sysfs has not made the group.
unfoldable pub read_adc_file : Group Adc → Format → String → Adc → Option (Option Shown × Adc)
read_adc_file g fmt name s = if s.grouped then read_file g (adc_attrs fmt s) name s else none

module _ {D : Type 0} (a : Adapter D) (junk : ℕ) (k : Kernel) (o : Outcomes) where
  init_gpio-ByBoard :
      (m : Module D) → ByBoard o m.driver → ByBoard o (init_gpio a junk k o m).1.driver
  unfolding init_gpio errout_gpio errout_pwm
  init_gpio-ByBoard m h = ground arith
