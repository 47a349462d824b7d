-- ===== src/Core/Worker/Laws.antt =====
-- What a round of the worker of src/rcio_core.c keeps and counts.
use rcio_dkms.Base.{ℕ, ◌≡◌, arith}
use rcio_dkms.Adapter.{Adapter}
use rcio_dkms.Kernel.{Kernel}
use rcio_dkms.Adc.{rcio_adc_update}
use rcio_dkms.Adc.Laws.{AdcInv, rcio_adc_update-AdcInv}
use rcio_dkms.Gpio.Pin.{rcio_gpio_update}
use rcio_dkms.Gpio.Laws.{rcio_gpio_update-pwm}
use rcio_dkms.Gpio.Invariant.{rcio_gpio_update-GpioInv}
use rcio_dkms.Pwm.Update.{rcio_pwm_update}
use rcio_dkms.Pwm.Update.Laws.{rcio_pwm_update-true}
use rcio_dkms.Pwm.Update.Pins.{rcio_pwm_update-gpio}
use rcio_dkms.Pwm.Invariant.Steps.{rcio_pwm_update-PwmInv}
use rcio_dkms.Rcin.{rcio_rcin_update}
use rcio_dkms.Rcin.Laws.{RcinInv, rcio_rcin_update-RcinInv}
use rcio_dkms.Safety.Laws.{SafetyInv, rcio_safety_update-SafetyInv}
use rcio_dkms.Status.{rcio_status_update}
use rcio_dkms.System.{WorldInv}
use rcio_dkms.Core.Worker.{Driver, Ticks, worker_round}

-- The invariants of all parts.
abbrev pub DriverInv : {D : Type 0} → Driver D → Type 0
DriverInv v = WorldInv v.world × AdcInv v.adc × RcinInv v.rcin × SafetyInv v.safety

module _ {D : Type 0} (a : Adapter D) (junk : ℕ) (k : Kernel) where
  -- A round keeps the invariants of all parts.
  pub worker_round-DriverInv :
      (t : Ticks) (v : Driver D) → DriverInv v → DriverInv (worker_round a junk k t v)
  unfolding worker_round
  worker_round-DriverInv t v inv =
      let w1 = (rcio_pwm_update a k t.pwm v.world).1 in
      let (adc_updated, adc', d2) = rcio_adc_update a k t.adc t.adc_later w1.dev v.adc in
      let (rcin_updated, rcin', d3) = rcio_rcin_update a junk k t.rcin t.rcin_later d2 v.rcin in
      let w2 = record w1 { dev = d3 } in
      let w4 = (rcio_gpio_update a w2).1 in
      let (status_updated, status', d5) =
        rcio_status_update a junk k t.status t.status_later w4.dev v.status in
      (
        (
          rw (rcio_gpio_update-pwm a w2) (rcio_pwm_update-PwmInv a k t.pwm v.world inv.0.0),
          rcio_gpio_update-GpioInv a w2 (rw (rcio_pwm_update-gpio a k t.pwm v.world) inv.0.1),
        ),
        rcio_adc_update-AdcInv a k t.adc t.adc_later w1.dev v.adc inv.1,
        rcio_rcin_update-RcinInv a junk k t.rcin t.rcin_later d2 v.rcin inv.2,
        rcio_safety_update-SafetyInv a k t.safety t.safety_later d5 v.safety inv.3,
      )

  -- After every round the counter of failures is 0, whatever the device does: the update of the
  -- outputs, which always reports success, resets it.
  pub worker_round_fail_counter :
      (t : Ticks) (v : Driver D) → (worker_round a junk k t v).fail_counter ≡ 0
  unfolding worker_round
  worker_round_fail_counter t v = ground (arith, rcio_pwm_update-true a k t.pwm v.world)
