-- ===== src/Tests/Probing.antt =====
-- Calls in the middle of the probe of the outputs, at concrete inputs.
use rcio_dkms.Base.{ℕ, ◌≡◌, refl, inl, true, false, pos, arith}
use rcio_dkms.Adapter.{Adapter}
use rcio_dkms.Protocol.Regs.{px4io_p_setup_features_adv_freq_config}
use rcio_dkms.Registers.{register_get}
use rcio_dkms.State.{World, initial_pwm, initial_gpio}
use rcio_dkms.Pwm.Config.{ignores, config_blocked, rcio_pwm_config}
use rcio_dkms.Pwm.Setup.{rcio_pwm_probe}
use rcio_dkms.Pwm.Update.{rcio_pwm_update}
use rcio_dkms.Pwm.Probing.{Unwritten, features_read}
use rcio_dkms.System.{here, next, pwm_update}
use rcio_dkms.System.Stuck.{outputs_stuck}
use rcio_dkms.Tests.{clock, device}

-- Every register holds the flag of the advanced configuration.
abbrev advanced : Adapter ℕ
advanced = device px4io_p_setup_features_adv_freq_config (omega arith)

abbrev fresh : World ℕ
fresh = record { dev = 0; pwm = initial_pwm; gpio = initial_gpio }

-- 1 ms at 400 Hz on pin 0, between the two parts of the probe.
abbrev between : World ℕ
between = record fresh {
  pwm = (rcio_pwm_config clock 5 fresh.gpio fresh.pwm 0 1_000_000 2_500_000).1;
}

abbrev probed : World ℕ
probed = (features_read advanced 3 between).1

abbrev updated : World ℕ
updated = (rcio_pwm_update advanced clock 6 probed).1

free : config_blocked fresh.gpio fresh.pwm 0 1_000_000 ≡ false
unfolding config_blocked ignores initial_gpio initial_pwm
free = refl

outputs_stuck_example :
    (rcio_pwm_probe advanced 3 true (pos 0) fresh ≡ features_read advanced 3 fresh)
    × Unwritten advanced clock updated.dev (rcio_pwm_update advanced clock 7 updated).1.dev
unfolding initial_pwm register_get
outputs_stuck_example =
    outputs_stuck advanced clock 3 5 0 1_000_000 2_500_000 7 (pos 0) fresh probed refl refl free
      (inl refl) (omega arith) (omega arith) refl refl (next here (pwm_update 6 probed))
