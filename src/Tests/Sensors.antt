-- ===== src/Tests/Sensors.antt =====
-- The updates of the heartbeat, the analog inputs, the receiver and the status at concrete inputs.
use rcio_dkms.Base.{
  ℕ, ◌+◌, ◌*◌, ◌^◌, ◌≡◌, refl, true, false, not, arith, bit_and, get_or, replicate, ◌==◌,
}
use rcio_dkms.Adapter.{Adapter}
use rcio_dkms.Protocol.Regs.{px4io_p_status_flags_init_ok, px4io_p_status_alarms_pwm_error}
use rcio_dkms.Registers.{register_get, register_set}
use rcio_dkms.Safety.{Safety, rcio_safety_update}
use rcio_dkms.Safety.Laws.{rcio_safety_update_lem}
use rcio_dkms.Adc.{Adc, rcio_adc_update}
use rcio_dkms.Adc.Laws.{rcio_adc_update_paces}
use rcio_dkms.Rcin.{Rcin, initial_rcin, rcio_rcin_update}
use rcio_dkms.Rcin.Laws.{RcinInv, initial_rcin-RcinInv, rcio_rcin_update-RcinInv}
use rcio_dkms.Rcin.Update.{rcio_rcin_update_lem}
use rcio_dkms.Status.{Status, rcio_status_update}
use rcio_dkms.Status.Laws.{rcio_status_update_lem}
use rcio_dkms.Tests.{clock, quiet, device}

-- The last heartbeat before the number starts again.
abbrev beating : Safety
beating = record { timeout = 10; heartbeat_enabled = true; heartbeat = 255; errors = 0 }

rcio_safety_update_example :
    rcio_safety_update quiet clock 12 13 0 beating
    ≡ (true, record beating { timeout = 33; heartbeat = 0 }, 1)
unfolding register_set
rcio_safety_update_example = rcio_safety_update_lem quiet clock 12 13 0 beating (omega arith)

-- Every register holds 1500, a word with the flag of a signal.
abbrev receiving : Adapter ℕ
receiving = device 1500 (omega arith)

abbrev measured : Adc
measured = record { measurements = replicate 8 0; timeout = 10; shown = 6; grouped = true }

rcio_adc_update_paces_example :
    let (updated, s', after) = rcio_adc_update receiving clock 12 13 0 measured in
    (updated ≡ true)
    × (s'.measurements ≡ replicate 8 1500)
    × (rcio_adc_update receiving clock 14 15 0 s' ≡ (false, s', 0))
unfolding register_get
rcio_adc_update_paces_example =
    rcio_adc_update_paces receiving clock 12 13 0 measured 1 15 0 refl refl (omega arith)

abbrev listening : Rcin
listening = record { measurements = replicate 16 0; connected = false; timeout = 10 }

rcio_rcin_update-RcinInv_example :
    RcinInv (rcio_rcin_update receiving 3 clock 12 13 0 initial_rcin).1
rcio_rcin_update-RcinInv_example =
    rcio_rcin_update-RcinInv receiving 3 clock 12 13 0 initial_rcin initial_rcin-RcinInv

rcio_rcin_update_example :
    let (updated, s', d') = rcio_rcin_update receiving 3 clock 12 13 0 listening in
    (updated ≡ true)
    × (s'.connected ≡ true)
    × (s'.timeout ≡ 14)
    × (get_or s'.measurements 5 0 ≡ 1500)
unfolding register_get
rcio_rcin_update_example =
    rcio_rcin_update_lem receiving 3 clock 12 13 0 listening 5 (omega arith) refl refl refl

abbrev running : Status
running = record {
  timeout = 10;
  crc = 0;
  init_ok = false;
  pwm_ok = false;
  alive = false;
  git_hash = replicate 10 0;
  board_type = 1;
}

rcio_status_update_example : rcio_status_update receiving 3 clock 12 13 0 running ≡ (
  true,
  record running {
    alive = true;
    init_ok = not (bit_and 1500 px4io_p_status_flags_init_ok == 0);
    pwm_ok = bit_and 1500 px4io_p_status_alarms_pwm_error == 0;
    crc = 1500 * 2 ^ 16 + 1500;
    timeout = 33;
  },
  0,
)
unfolding register_get
rcio_status_update_example = rcio_status_update_lem receiving 3 clock 12 13 0 running (omega arith)
