-- ===== src/Core/Init/Remove.antt =====
-- rcio_remove (src/rcio_core.c) after rcio_init.
use rcio_dkms.Base.{ℕ, ◌≡◌, false, not, ◌&&◌, ◌||◌, ℤ, pos, is_neg, arith}
use rcio_dkms.Adapter.{Adapter}
use rcio_dkms.Kernel.{Kernel}
use rcio_dkms.Gpio.Setup.{rcio_gpio_remove}
use rcio_dkms.Core.Worker.{Driver}
use rcio_dkms.Core.Init.{
  nothing_registered, Outcomes, Module, rcio_pwm_remove, gpio_remove, rcio_init, rcio_remove,
  stop_worker,
}
use rcio_dkms.Core.Init.Laws.{rcio_init-Settles}

-- From a module with nothing registered, with the PWM chip taken back by the kernel: after an
-- rcio_init that has returned 0, whatever the driver has done since, as long as its support of GPIO
-- is what it was, rcio_remove returns 1 and leaves nothing registered. It faults exactly if the
-- thread of the worker had not been started, or GPIO is supported and the GPIO chip had not been
-- registered: both are taken back without a test.
pub rcio_remove_undoes :
    {D : Type 0} (a : Adapter D) (junk : ℕ) (k : Kernel) (o : Outcomes) (m : Module D)
    (v : Driver D) (removed : ℤ)
    → m.kobjects ≡ nothing_registered
    → (rcio_init a junk k o m).0 ≡ pos 0
    → v.world.gpio.gpio_supported ≡ (rcio_init a junk k o m).1.driver.world.gpio.gpio_supported
    → is_neg removed ≡ false
    → let started = (rcio_init a junk k o m).1 in
      let (ret, m') = rcio_remove removed (record started { driver = v }) in
      (ret ≡ pos 1)
      × (m'.kobjects ≡ record nothing_registered {
        fault =
            not started.kobjects.worker
            || started.driver.world.gpio.gpio_supported && not started.kobjects.gpio_chip;
      })
unfolding rcio_remove stop_worker rcio_pwm_remove gpio_remove rcio_gpio_remove
rcio_remove_undoes a junk k o m v removed e ok same taken =
    ground (arith, rcio_init-Settles a junk k o m e)

-- rcio_remove returns 1 in every case: an error of pwmchip_remove, by which the chip stays
-- registered, is lost.
pub rcio_remove_result :
    {D : Type 0} (removed : ℤ) (m : Module D)
    → let (ret, m') = rcio_remove removed m in
      (ret ≡ pos 1)
      × (m'.kobjects.pwm_chip
          ≡ (m.kobjects.pwm_chip && not (m.kobjects.pwm_pointer && not (is_neg removed))))
      × (m'.kobjects.worker ≡ false)
      × (m'.kobjects.object ≡ false)
unfolding rcio_remove stop_worker rcio_pwm_remove gpio_remove rcio_gpio_remove
rcio_remove_result removed m = ground arith
