-- ===== src/Core/Worker.antt =====
-- The worker thread of src/rcio_core.c, on the state of all parts.
pub mod Laws
use rcio_dkms.Base.{ℕ, ◌+◌, ◌%◌, ◌^◌, Bool, ◌||◌, List, [], ◌∷◌, if◌then◌else◌}
use rcio_dkms.Adapter.{Adapter}
use rcio_dkms.Kernel.{Kernel}
use rcio_dkms.State.{World}
use rcio_dkms.Adc.{Adc, rcio_adc_update}
use rcio_dkms.Gpio.Pin.{rcio_gpio_update}
use rcio_dkms.Pwm.Update.{rcio_pwm_update}
use rcio_dkms.Rcin.{Rcin, rcio_rcin_update}
use rcio_dkms.Safety.{Safety, rcio_safety_update}
use rcio_dkms.Status.{Status, rcio_status_update}

-- The static variables of every file, and the worker's `fail_counter`, an `int` as its 32 bits.
pub record Driver (D : Type 0) : Type 0 where
  pub world : World D
  pub adc : Adc
  pub rcin : Rcin
  pub status : Status
  pub safety : Safety
  pub fail_counter : ℕ

-- What the updates of one round read from `jiffies`.
pub record Ticks : Type 0 where
  pub pwm : ℕ
  pub adc : ℕ
  pub adc_later : ℕ
  pub rcin : ℕ
  pub rcin_later : ℕ
  pub status : ℕ
  pub status_later : ℕ
  pub safety : ℕ
  pub safety_later : ℕ

module _ {D : Type 0} (a : Adapter D) (junk : ℕ) (k : Kernel) where
  -- One round of the loop.
  unfoldable pub worker_round : Ticks → Driver D → Driver D
  worker_round t v =
      let (pwm_updated, w1) = rcio_pwm_update a k t.pwm v.world in
      let (adc_updated, adc', d2) = rcio_adc_update a k t.adc t.adc_later w1.dev v.adc in
      let (rcin_updated, rcin', d3) = rcio_rcin_update a junk k t.rcin t.rcin_later d2 v.rcin in
      let (gpio_updated, w4) = rcio_gpio_update a (record w1 { dev = d3 }) in
      let (status_updated, status', d5) =
        rcio_status_update a junk k t.status t.status_later w4.dev v.status in
      let (safety_updated, safety', d6) =
        rcio_safety_update a k t.safety t.safety_later d5 v.safety in
      record {
        world = record w4 { dev = d6 };
        adc = adc';
        rcin = rcin';
        status = status';
        safety = safety';
        fail_counter =
            if pwm_updated || adc_updated || rcin_updated || gpio_updated
            then 0
            else (v.fail_counter + 1) % 2 ^ 32;
      }

  -- The loop, until the thread is told to stop.
  unfoldable pub worker : List Ticks → Driver D → Driver D
  unfolding worker_round
  worker [] v = v
  worker (t ∷ ts) v = worker ts (worker_round t v)
