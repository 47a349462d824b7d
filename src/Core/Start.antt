-- ===== src/Core/Start.antt =====
-- From the load of the module through rcio_init to any run of the driver.
use rcio_dkms.Base.{
  ℕ, ◌≡◌, refl, false, not, ◌&&◌, ℤ, pos, is_neg, einval, arith, if_cases, if◌then◌else◌,
}
use rcio_dkms.Adapter.{Adapter}
use rcio_dkms.Kernel.{Kernel}
use rcio_dkms.State.{World, initial_pwm}
use rcio_dkms.System.Probe.{loaded, pwm_probe-WorldInv, gpio_probe-WorldInv}
use rcio_dkms.Adc.{initial_adc, rcio_adc_probe}
use rcio_dkms.Pwm.Invariant.{initial_pwm-PwmInv}
use rcio_dkms.Gpio.Invariant.{initial_gpio-GpioInv}
use rcio_dkms.Adc.Laws.{initial_adc-AdcInv}
use rcio_dkms.Gpio.Setup.{rcio_gpio_probe}
use rcio_dkms.Pwm.Setup.{rcio_pwm_probe}
use rcio_dkms.Rcin.{initial_rcin, rcio_rcin_probe}
use rcio_dkms.Rcin.Laws.{initial_rcin-RcinInv}
use rcio_dkms.Safety.{initial_safety, rcio_safety_probe}
use rcio_dkms.Safety.Laws.{initial_safety-SafetyInv, rcio_safety_probe-SafetyInv}
use rcio_dkms.Status.{initial_status}
use rcio_dkms.Core.Worker.{Driver}
use rcio_dkms.Core.Worker.Laws.{DriverInv}
use rcio_dkms.Core.Driver.{Run, Run-DriverInv}
use rcio_dkms.Core.Init.{
  Outcomes, Module, nothing_registered, set_counts, errout_pwm, errout_gpio, errout_safety,
  is_eopnotsupp, init_gpio, init_safety, init_pwm, init_adc, after_status, rcio_init,
}

-- The variables of every file as the module is loaded, on a device in any state.
abbrev pub loaded_driver : {D : Type 0} → D → Driver D
loaded_driver d = record {
  world = loaded d;
  adc = initial_adc;
  rcin = initial_rcin;
  status = initial_status;
  safety = initial_safety;
  fail_counter = 0;
}

abbrev pub loaded_module : {D : Type 0} → D → Module D
loaded_module d = record {
  driver = loaded_driver d;
  kobjects = nothing_registered;
  adc_channels_count = 0;
  pwm_channels_count = 0;
}

abbrev Keeps : {D : Type 0} → ℤ × Module D → Type 0
Keeps r = DriverInv r.1.driver

errout_pwm-driver :
    {D : Type 0} (o : Outcomes) (m : Module D) → (errout_pwm o m).1.driver ≡ m.driver
unfolding errout_pwm
errout_pwm-driver o m = refl

errout_gpio-driver :
    {D : Type 0} (o : Outcomes) (m : Module D) → (errout_gpio o m).1.driver ≡ m.driver
unfolding errout_gpio errout_pwm
errout_gpio-driver o m = refl

errout_safety-driver :
    {D : Type 0} (o : Outcomes) (m : Module D) → (errout_safety o m).1.driver ≡ m.driver
unfolding errout_safety errout_gpio errout_pwm
errout_safety-driver o m = refl

module _ {D : Type 0} (a : Adapter D) (junk : ℕ) (k : Kernel) (o : Outcomes) where
  init_gpio-DriverInv : (m : Module D) → DriverInv m.driver → Keeps (init_gpio a junk k o m)
  unfolding init_gpio
  init_gpio-DriverInv m inv =
      let kept =
        gpio_probe-WorldInv a k junk o.gpio_created o.gpiochip_added m.driver.world inv.0 in
      if_cases Keeps (is_neg probed.0 && not (is_eopnotsupp probed.0)) (errout_gpio o m')
        (pos 0, record m' { kobjects = record (m'.kobjects) { worker = o.thread_started } })
        (λ _. rw (errout_gpio-driver o m') (kept, inv.1, inv.2, inv.3))
        (λ _. (kept, inv.1, inv.2, inv.3))
    where
      probed : ℤ × World D
      probed = rcio_gpio_probe a junk o.gpio_created o.gpiochip_added m.driver.world

      m' : Module D
      m' = record m {
        driver = record (m.driver) { world = probed.1 };
        kobjects = record (m.kobjects) {
          gpio_chip =
              probed.1.gpio.gpio_supported
              && not (is_neg o.gpio_created)
              && not (is_neg o.gpiochip_added);
        };
      }

  init_safety-DriverInv : (m : Module D) → DriverInv m.driver → Keeps (init_safety a junk k o m)
  unfolding init_safety rcio_rcin_probe
  init_safety-DriverInv m inv =
      let rcin' = (rcio_rcin_probe k o.rcin_now m.driver.rcin).1 in
      let (ok, safety') = rcio_safety_probe k o.safety_now o.safety_created m.driver.safety in
      let m2 = record m { driver = record (m.driver) { rcin = rcin'; safety = safety' } } in
      let inv2 : DriverInv m2.driver = (
        inv.0,
        inv.1,
        inv.2,
        rcio_safety_probe-SafetyInv k o.safety_now o.safety_created m.driver.safety inv.3,
      ) in
      if_cases Keeps ok (init_gpio a junk k o m2) (errout_safety o m2)
        (λ _. init_gpio-DriverInv m2 inv2) (λ _. rw (errout_safety-driver o m2) inv2)

  -- The outputs are probed on the variables as they are loaded.
  init_pwm-DriverInv :
      (m : Module D) (d : D)
      → m.driver.world ≡ loaded d
      → DriverInv m.driver
      → Keeps (init_pwm a junk k o m)
  unfolding init_pwm
  init_pwm-DriverInv m d fresh inv =
      if_cases Keeps (is_neg probed.0) (errout_pwm o m') (init_safety a junk k o m')
        (λ _. rw (errout_pwm-driver o m') inv') (λ _. init_safety-DriverInv m' inv')
    where
      probed : ℤ × World D
      probed = rcio_pwm_probe a junk o.kzalloc_ok o.pwmchip_added m.driver.world

      m' : Module D
      m' = record m {
        driver = record (m.driver) { world = probed.1 };
        kobjects = record (m.kobjects) {
          pwm_pointer = o.kzalloc_ok;
          pwm_chip = o.kzalloc_ok && not (is_neg o.pwmchip_added);
        };
      }

      inv' : DriverInv m'.driver
      inv' = (
        rw fresh (pwm_probe-WorldInv a k junk d o.kzalloc_ok o.pwmchip_added),
        inv.1,
        inv.2,
        inv.3,
      )

  set_counts-driver : (m : Module D) → (set_counts m).driver ≡ m.driver
  unfolding set_counts
  set_counts-driver m = ground arith

  init_adc-DriverInv :
      (m : Module D) (d : D)
      → m.driver.world ≡ loaded d
      → DriverInv m.driver
      → Keeps (init_adc a junk k o m)
  unfolding init_adc rcio_adc_probe
  init_adc-DriverInv m d fresh inv =
      init_pwm-DriverInv
        (record m {
          driver = record (m.driver) {
            adc = (rcio_adc_probe k o.adc_now o.adc_created m.adc_channels_count m.driver.adc).1;
          };
        })
        d fresh inv

  loaded_driver-DriverInv : (d : D) → DriverInv (loaded_driver d)
  unfolding initial_pwm
  loaded_driver-DriverInv d = (
    (initial_pwm-PwmInv false, initial_gpio-GpioInv),
    initial_adc-AdcInv,
    initial_rcin-RcinInv,
    initial_safety-SafetyInv,
  )

  after_status-DriverInv : (d : D) → Keeps (pos 0, (after_status a junk k o (loaded_module d)).1)
  unfolding after_status
  after_status-DriverInv d = loaded_driver-DriverInv d

  after_status-loaded :
      (d : D)
      → let w = (after_status a junk k o (loaded_module d)).1.driver.world in w ≡ loaded w.dev
  unfolding after_status
  after_status-loaded d = refl

  rcio_init-DriverInv : (d : D) → Keeps (rcio_init a junk k o (loaded_module d))
  unfolding rcio_init
  rcio_init-DriverInv d =
      let (ok, m1) = after_status a junk k o (loaded_module d) in
      let inv1 : DriverInv m1.driver = after_status-DriverInv d in
      if_cases Keeps o.object_created
        (if ok then init_adc a junk k o (set_counts m1) else errout_safety o m1)
        (einval, loaded_module d)
        (λ _.
          if_cases Keeps ok (init_adc a junk k o (set_counts m1)) (errout_safety o m1)
            (λ _.
              init_adc-DriverInv (set_counts m1) m1.driver.world.dev
                (rw (set_counts-driver m1) (after_status-loaded d))
                (rw (set_counts-driver m1) inv1))
            (λ _. rw (errout_safety-driver o m1) inv1))
        (λ _. loaded_driver-DriverInv d)

  -- From a module just loaded, whatever rcio_init returns, any run of rounds of the worker, calls
  -- and stores keeps the invariants of all parts.
  pub started-DriverInv :
      (d : D) {v : Driver D}
      → Run a junk k (rcio_init a junk k o (loaded_module d)).1.driver v
      → DriverInv v
  started-DriverInv d run = Run-DriverInv a junk k run (rcio_init-DriverInv d)
