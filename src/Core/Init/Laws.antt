-- ===== src/Core/Init/Laws.antt =====
-- What is registered after rcio_init and rcio_probe (src/rcio_core.c), on every path.
use rcio_dkms.Base.{
  ℕ, ◌≡◌, ap, ◌∙◌, ◌⊎◌, Bool, true, false, not, ◌&&◌, ℤ, pos, is_neg, einval, ebusy, eopnotsupp,
  arith, if_cases, if◌then◌else◌,
}
use rcio_dkms.Adapter.{Adapter}
use rcio_dkms.Kernel.{Kernel}
use rcio_dkms.State.{World}
use rcio_dkms.Adc.{rcio_adc_probe}
use rcio_dkms.Gpio.Setup.{rcio_gpio_probe, rcio_gpio_remove}
use rcio_dkms.Pwm.Setup.{rcio_pwm_probe, rcio_pwm_create_sysfs_handle}
use rcio_dkms.Rcin.{rcio_rcin_probe}
use rcio_dkms.Safety.{rcio_safety_probe}
use rcio_dkms.Core.Init.{
  Kobjects, nothing_registered, Outcomes, Module, rcio_pwm_remove, gpio_remove, set_counts,
  errout_pwm, errout_gpio, errout_safety, init_gpio, init_safety, init_pwm, init_adc, after_status,
  rcio_init, rcio_probe,
}

-- The object and the PWM chip are there, the worker where its thread has started, and a GPIO chip
-- only where GPIO is supported.
pub record Registered (started gpio_supported : Bool) (r : Kobjects) : Type 0 where
  pub object : r.object ≡ true
  pub pwm_pointer : r.pwm_pointer ≡ true
  pub pwm_chip : r.pwm_chip ≡ true
  pub worker : r.worker ≡ started
  pub fault : r.fault ≡ false
  pub gpio_chip : (gpio_supported ≡ true) ⊎ (r.gpio_chip ≡ false)

-- No object, no worker and no GPIO chip is left.
pub record Withdrawn (r : Kobjects) : Type 0 where
  pub object : r.object ≡ false
  pub worker : r.worker ≡ false
  pub gpio_chip : r.gpio_chip ≡ false

abbrev pub Settles : {D : Type 0} → Outcomes → ℤ × Module D → Type 0
Settles o r =
    ((r.0 ≡ pos 0) × Registered o.thread_started r.1.driver.world.gpio.gpio_supported r.1.kobjects)
    ⊎ ((is_neg r.0 ≡ true) × Withdrawn r.1.kobjects)

abbrev with_object : Kobjects
with_object = record nothing_registered { object = true }

abbrev with_pwm : Kobjects
with_pwm = record with_object { pwm_pointer = true; pwm_chip = true }

rcio_gpio_probe_result :
    {D : Type 0} (a : Adapter D) (junk : ℕ) (created added : ℤ) (w : World D)
    → ((rcio_gpio_probe a junk created added w).0 ≡ eopnotsupp)
      ⊎ (is_neg (rcio_gpio_probe a junk created added w).0 ≡ false)
unfolding rcio_gpio_probe
rcio_gpio_probe_result a junk created added w = ground arith

module _ {D : Type 0} (a : Adapter D) (junk : ℕ) (k : Kernel) (o : Outcomes) where
  errout_safety-Settles :
      (m : Module D)
      → m.kobjects.worker ≡ false
      → m.kobjects.gpio_chip ≡ false
      → Settles o (errout_safety o m)
  unfolding errout_safety errout_gpio errout_pwm gpio_remove rcio_gpio_remove rcio_pwm_remove
  errout_safety-Settles m idle no_gpio = ground arith

  errout_pwm-Settles :
      (m : Module D)
      → m.kobjects.worker ≡ false
      → m.kobjects.gpio_chip ≡ false
      → Settles o (errout_pwm o m)
  unfolding errout_pwm
  errout_pwm-Settles m idle no_gpio = ground arith

  init_gpio-Settles : (m : Module D) → m.kobjects ≡ with_pwm → Settles o (init_gpio a junk k o m)
  unfolding init_gpio
  init_gpio-Settles m e =
      ground (arith, rcio_gpio_probe_result a junk o.gpio_created o.gpiochip_added m.driver.world)

  init_safety-Settles :
      (m : Module D) → m.kobjects ≡ with_pwm → Settles o (init_safety a junk k o m)
  unfolding init_safety rcio_rcin_probe
  init_safety-Settles m e =
      let rcin' = (rcio_rcin_probe k o.rcin_now m.driver.rcin).1 in
      let (ok, safety') = rcio_safety_probe k o.safety_now o.safety_created m.driver.safety in
      let m2 = record m { driver = record (m.driver) { rcin = rcin'; safety = safety' } } in
      if_cases (Settles o) ok (init_gpio a junk k o m2) (errout_safety o m2)
        (λ _. init_gpio-Settles m2 e)
        (λ _. errout_safety-Settles m2 (ap (λ r. r.worker) e) (ap (λ r. r.gpio_chip) e))

  -- A probe that does not fail has a chip that the kernel has taken.
  chip_taken :
      (w : World D)
      → is_neg (rcio_pwm_probe a junk o.kzalloc_ok o.pwmchip_added w).0 ≡ false
      → (o.kzalloc_ok ≡ true) × (is_neg o.pwmchip_added ≡ false)
  unfolding rcio_pwm_probe rcio_pwm_create_sysfs_handle
  chip_taken w h = ground arith

  init_pwm-Settles : (m : Module D) → m.kobjects ≡ with_object → Settles o (init_pwm a junk k o m)
  unfolding init_pwm
  init_pwm-Settles m e =
      if_cases (Settles o) (is_neg probed.0) (errout_pwm o m') (init_safety a junk k o m')
        (λ failed. errout_pwm-Settles m' (ap (λ r. r.worker) e) (ap (λ r. r.gpio_chip) e))
        (λ done.
          let taken = chip_taken m.driver.world done in
          init_safety-Settles m' (λ i. record (e i) {
            pwm_pointer = taken.0 i;
            pwm_chip = taken.0 i && not (taken.1 i);
          }))
    where
      probed : ℤ × World D
      probed = rcio_pwm_probe a junk o.kzalloc_ok o.pwmchip_added m.driver.world

      m' : Module D
      m' = record m {
        driver = record (m.driver) { world = probed.1 };
        kobjects = record (m.kobjects) {
          pwm_pointer = o.kzalloc_ok;
          pwm_chip = o.kzalloc_ok && not (is_neg o.pwmchip_added);
        };
      }

  init_adc-Settles : (m : Module D) → m.kobjects ≡ with_object → Settles o (init_adc a junk k o m)
  unfolding init_adc rcio_adc_probe
  init_adc-Settles m e =
      init_pwm-Settles
        (record m {
          driver = record (m.driver) {
            adc = (rcio_adc_probe k o.adc_now o.adc_created m.adc_channels_count m.driver.adc).1;
          };
        })
        e

  set_counts-kobjects : (m : Module D) → (set_counts m).kobjects ≡ m.kobjects
  unfolding set_counts
  set_counts-kobjects m = ground arith

  -- From a module with nothing registered, rcio_init either returns 0 with the object and the PWM
  -- chip registered, the worker exactly if kthread_run has started its thread, a GPIO chip only
  -- where GPIO is supported, and no fault; or it returns an error with no object, no worker and no
  -- GPIO chip registered.
  pub rcio_init-Settles :
      (m : Module D) → m.kobjects ≡ nothing_registered → Settles o (rcio_init a junk k o m)
  unfolding rcio_init after_status
  rcio_init-Settles m e =
      let started = after_status a junk k o m in
      let made : record (m.kobjects) { object = true } ≡ with_object =
        λ i. record (e i) { object = true } in
      if_cases (Settles o) o.object_created
        (if started.0
          then init_adc a junk k o (set_counts started.1)
          else errout_safety o started.1)
        (einval, m)
        (λ _.
          if_cases (Settles o) started.0 (init_adc a junk k o (set_counts started.1))
            (errout_safety o started.1)
            (λ _. init_adc-Settles (set_counts started.1) (set_counts-kobjects started.1 ∙ made))
            (λ _. errout_safety-Settles started.1 (ap (λ r. r.worker) e) (ap (λ r. r.gpio_chip) e)))
        (λ _. ground arith)

  -- rcio_probe returns 0 or -EBUSY: every error of rcio_init becomes the same.
  pub rcio_probe_result :
      (m : Module D) → ((rcio_probe a junk k o m).0 ≡ pos 0) ⊎ ((rcio_probe a junk k o m).0 ≡ ebusy)
  unfolding rcio_probe
  rcio_probe_result m = ground arith

  -- From a module with nothing registered, rcio_probe either returns 0 with what rcio_init
  -- registers, or -EBUSY with no object, no worker and no GPIO chip.
  pub rcio_probe-Settles :
      (m : Module D) → m.kobjects ≡ nothing_registered → Settles o (rcio_probe a junk k o m)
  unfolding rcio_probe
  rcio_probe-Settles m e = ground (arith, rcio_init-Settles m e)
