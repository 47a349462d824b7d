-- ===== src/Core/Init/Faults.antt =====
-- The error paths of rcio_init (src/rcio_core.c).
use rcio_dkms.Base.{ℕ, ◌≡◌, true, false, is_neg, eio, arith}
use rcio_dkms.Adapter.{Adapter}
use rcio_dkms.Kernel.{Kernel}
use rcio_dkms.Adc.{rcio_adc_probe}
use rcio_dkms.Pwm.Setup.{rcio_pwm_probe}
use rcio_dkms.Core.Init.{
  nothing_registered, Outcomes, Module, rcio_pwm_remove, gpio_remove, set_counts, errout_pwm,
  errout_gpio, errout_safety, init_pwm, init_adc, after_status, rcio_init,
}

module _ {D : Type 0} (a : Adapter D) (junk : ℕ) (k : Kernel) (o : Outcomes) where
  -- The state in which rcio_init probes the outputs.
  abbrev pub before_pwm : Module D → Module D
  before_pwm m = (set_counts (after_status a junk k o m).1)

  -- From a module with nothing registered, if the object is created, the status probe succeeds, the
  -- chip is allocated and the kernel takes it, but the hardware cannot be initialised, rcio_init
  -- returns -EIO and removes the object, but leaves the PWM chip registered.
  pub rcio_init_leaves_chip :
      (m : Module D)
      → m.kobjects ≡ nothing_registered
      → o.object_created ≡ true
      → (after_status a junk k o m).0 ≡ true
      → o.kzalloc_ok ≡ true
      → is_neg o.pwmchip_added ≡ false
      → is_neg (rcio_pwm_probe a junk o.kzalloc_ok o.pwmchip_added (before_pwm m).driver.world).0
        ≡ true
      → let (ret, m') = rcio_init a junk k o m in
        (ret ≡ eio) × (m'.kobjects.object ≡ false) × (m'.kobjects.pwm_chip ≡ true)
  unfolding rcio_init init_adc rcio_adc_probe init_pwm errout_pwm
  rcio_init_leaves_chip m e made started alloc added failed = ground arith

  -- From a module with nothing registered, if the object is created and the status probe fails, the
  -- error path calls pwmchip_remove on a null pointer.
  pub rcio_init_faults :
      (m : Module D)
      → m.kobjects ≡ nothing_registered
      → o.object_created ≡ true
      → (after_status a junk k o m).0 ≡ false
      → (rcio_init a junk k o m).1.kobjects.fault ≡ true
  unfolding rcio_init after_status errout_safety errout_gpio errout_pwm gpio_remove rcio_pwm_remove
  rcio_init_faults m e made started = ground arith
