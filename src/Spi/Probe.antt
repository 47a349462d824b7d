-- ===== src/Spi/Probe.antt =====
-- rcio_spi_probe and rcio_spi_remove (src/rcio_spi.c): the driver's entry points, and the life of
-- the packet buffer.
use rcio_dkms.Base.{
  ℕ, ◌≡◌, ◌⊎◌, Bool, true, false, ℤ, pos, is_neg, enomem, ebusy, arith, if◌then◌else◌,
}
use rcio_dkms.Adapter.{Adapter}
use rcio_dkms.Kernel.{Kernel}
use rcio_dkms.Core.Init.{
  Module, Outcomes, nothing_registered, rcio_probe, rcio_remove, after_status,
}
use rcio_dkms.Core.Init.Faults.{before_pwm, rcio_init_leaves_chip}
use rcio_dkms.Core.Init.Laws.{Registered, Withdrawn, rcio_probe-Settles}
use rcio_dkms.Pwm.Setup.{rcio_pwm_probe}

-- The module, and whether `buffer` is allocated.
pub record Device (D : Type 0) : Type 0 where
  pub core : Module D
  pub buffer : Bool

-- rcio_spi_remove: `removed` is what pwmchip_remove returns.
unfoldable pub rcio_spi_remove : {D : Type 0} → ℤ → Device D → ℤ × Device D
rcio_spi_remove removed s =
    let (ret, m) = rcio_remove removed s.core in
    if is_neg ret then (ret, record s { core = m }) else (ret, record { core = m; buffer = false })

module _ {D : Type 0} (a : Adapter D) (junk : ℕ) (k : Kernel) (o : Outcomes) where
  -- `setup` and `kmalloc_ok` are what spi_setup and kmalloc return.
  unfoldable pub rcio_spi_probe : ℤ → Bool → Device D → ℤ × Device D
  rcio_spi_probe setup kmalloc_ok s =
      let (ret, m) = rcio_probe a junk k o s.core in
      if is_neg setup
      then (setup, s)
      else (if kmalloc_ok
          then (if is_neg ret
              then (ret, record { core = m; buffer = false })
              else (pos 0, record { core = m; buffer = true }))
          else (enomem, record s { buffer = false }))

  -- From a device with nothing registered or allocated, rcio_spi_probe returns 0 with the buffer
  -- and the driver in place, or an error with no buffer, no object, no worker and no GPIO chip.
  pub rcio_spi_probe_result :
      (setup : ℤ) (kmalloc_ok : Bool) (s : Device D)
      → s.core.kobjects ≡ nothing_registered
      → s.buffer ≡ false
      → let (ret, s') = rcio_spi_probe setup kmalloc_ok s in
        ((ret ≡ pos 0)
          × (s'.buffer ≡ true)
          × Registered o.thread_started s'.core.driver.world.gpio.gpio_supported s'.core.kobjects)
        ⊎ ((is_neg ret ≡ true) × (s'.buffer ≡ false) × Withdrawn s'.core.kobjects)
  unfolding rcio_spi_probe
  rcio_spi_probe_result setup kmalloc_ok s e empty =
      ground (arith, rcio_probe-Settles a junk k o s.core e)

  -- With nothing registered, if the SPI device is set up, the buffer and the chip are allocated,
  -- the object is created, the status probe succeeds and the kernel takes the PWM chip, but the
  -- hardware cannot be initialised, rcio_spi_probe returns -EBUSY and frees the buffer while the
  -- PWM chip, whose operations use it, stays registered.
  pub rcio_spi_probe_leaves_chip :
      (setup : ℤ) (s : Device D)
      → is_neg setup ≡ false
      → s.core.kobjects ≡ nothing_registered
      → o.object_created ≡ true
      → (after_status a junk k o s.core).0 ≡ true
      → o.kzalloc_ok ≡ true
      → is_neg o.pwmchip_added ≡ false
      → is_neg
          (rcio_pwm_probe a junk o.kzalloc_ok o.pwmchip_added
            (before_pwm a junk k o s.core).driver.world).0
        ≡ true
      → let (ret, s') = rcio_spi_probe setup true s in
        (ret ≡ ebusy) × (s'.buffer ≡ false) × (s'.core.kobjects.pwm_chip ≡ true)
  unfolding rcio_spi_probe rcio_probe
  rcio_spi_probe_leaves_chip setup s ok e made started alloc added failed =
      ground (arith, rcio_init_leaves_chip a junk k o s.core e made started alloc added failed)
