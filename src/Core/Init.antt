-- ===== src/Core/Init.antt =====
-- rcio_init, rcio_probe and rcio_remove (src/rcio_core.c), with what they register with the kernel.
pub mod Laws
pub mod Faults
pub mod Remove
use rcio_dkms.Base.{
  ℕ, Bool, true, false, not, ◌&&◌, ◌||◌, ℤ, pos, negsuc, is_neg, einval, eio, ebusy, eopnotsupp,
  ◌==◌, if◌then◌else◌,
}
use rcio_dkms.Adapter.{Adapter}
use rcio_dkms.Kernel.{Kernel}
use rcio_dkms.State.{World}
use rcio_dkms.Adc.{rcio_adc_probe}
use rcio_dkms.Gpio.Setup.{rcio_gpio_probe, rcio_gpio_remove}
use rcio_dkms.Pwm.Setup.{rcio_pwm_probe}
use rcio_dkms.Rcin.{rcio_rcin_probe}
use rcio_dkms.Safety.{rcio_safety_probe}
use rcio_dkms.Status.{rcio_status_probe, navio2, edge}
use rcio_dkms.Core.Worker.{Driver}

-- What is registered with the kernel or allocated. `pwm_pointer` tells whether the variable `pwm`
-- points to a chip, `worker`, whether the thread of the worker runs; `fault`, that pwmchip_remove
-- was called where `pwm` does not point to a chip, gpiochip_remove on a chip that is not
-- registered, or kthread_stop where kthread_run gave no thread.
pub record Kobjects : Type 0 where
  pub object : Bool
  pub pwm_pointer : Bool
  pub pwm_chip : Bool
  pub gpio_chip : Bool
  pub worker : Bool
  pub fault : Bool

abbrev pub nothing_registered : Kobjects
nothing_registered = record {
  object = false;
  pwm_pointer = false;
  pwm_chip = false;
  gpio_chip = false;
  worker = false;
  fault = false;
}

-- What the calls of the kernel return, and the reading of `jiffies` by each probe.
pub record Outcomes : Type 0 where
  pub object_created : Bool
  pub status_created : ℤ
  pub kzalloc_ok : Bool
  pub pwmchip_added : ℤ
  pub adc_created : ℤ
  pub safety_created : ℤ
  pub gpio_created : ℤ
  pub gpiochip_added : ℤ
  pub thread_started : Bool
  pub pwmchip_removed : ℤ
  pub status_now : ℕ
  pub adc_now : ℕ
  pub rcin_now : ℕ
  pub safety_now : ℕ

-- The state of the module: `adc_channels_count` and `pwm_channels_count` are of `rcio_state`.
pub record Module (D : Type 0) : Type 0 where
  pub driver : Driver D
  pub kobjects : Kobjects
  pub adc_channels_count : ℕ
  pub pwm_channels_count : ℕ

-- rcio_pwm_remove
unfoldable pub rcio_pwm_remove : ℤ → Kobjects → ℤ × Kobjects
rcio_pwm_remove removed r =
    if r.pwm_pointer
    then (if is_neg removed
        then (removed, r)
        else (pos 0, record r { pwm_chip = false; pwm_pointer = false }))
    else (removed, record r { fault = true })

-- rcio_gpio_remove calls gpiochip_remove where GPIO is supported, registered or not.
unfoldable pub gpio_remove : {D : Type 0} → World D → Kobjects → ℤ × Kobjects
unfolding rcio_gpio_remove
gpio_remove w r =
    let (ret, taken_back) = rcio_gpio_remove w in
    (
      ret,
      if taken_back
          then (if r.gpio_chip then record r { gpio_chip = false } else record r { fault = true })
          else r,
    )

abbrev pub navio2_adc_channels_count : ℕ
navio2_adc_channels_count = 6

abbrev pub navio2_pwm_channels_count : ℕ
navio2_pwm_channels_count = 14

abbrev pub edge_adc_channels_count : ℕ
edge_adc_channels_count = 8

abbrev pub edge_pwm_channels_count : ℕ
edge_pwm_channels_count = 16

-- The counts of channels by the type of the board.
unfoldable pub set_counts : {D : Type 0} → Module D → Module D
set_counts m =
    if m.driver.status.board_type == edge
    then record m {
      adc_channels_count = edge_adc_channels_count;
      pwm_channels_count = edge_pwm_channels_count;
    }
    else (if m.driver.status.board_type == navio2
        then record m {
          adc_channels_count = navio2_adc_channels_count;
          pwm_channels_count = navio2_pwm_channels_count;
        }
        else m)

-- The labels errout_safety, errout_rcin and errout_status; errout_gpio; errout_pwm and errout_adc.
module _ {D : Type 0} (o : Outcomes) where
  unfoldable pub errout_pwm : Module D → ℤ × Module D
  errout_pwm m = (eio, record m { kobjects = record (m.kobjects) { object = false } })

  unfoldable pub errout_gpio : Module D → ℤ × Module D
  unfolding errout_pwm
  errout_gpio m = errout_pwm (record m { kobjects = (gpio_remove m.driver.world m.kobjects).1 })

  unfoldable pub errout_safety : Module D → ℤ × Module D
  unfolding errout_gpio
  errout_safety m =
      errout_gpio (record m { kobjects = (rcio_pwm_remove o.pwmchip_removed m.kobjects).1 })

-- `ret != -EOPNOTSUPP`, negated.
abbrev pub is_eopnotsupp : ℤ → Bool
is_eopnotsupp (pos n) = false
is_eopnotsupp (negsuc n) = n == 94

module _ {D : Type 0} (a : Adapter D) (junk : ℕ) (k : Kernel) (o : Outcomes) where
  -- rcio_gpio_probe, and the start of the worker: the result of kthread_run is not tested.
  unfoldable pub init_gpio : Module D → ℤ × Module D
  init_gpio m =
      let (ret, w) = rcio_gpio_probe a junk o.gpio_created o.gpiochip_added m.driver.world in
      let added =
        w.gpio.gpio_supported && not (is_neg o.gpio_created) && not (is_neg o.gpiochip_added) in
      let m' = record m {
        driver = record (m.driver) { world = w };
        kobjects = record (m.kobjects) { gpio_chip = added };
      } in
      if is_neg ret && not (is_eopnotsupp ret)
      then errout_gpio o m'
      else (pos 0, record m' { kobjects = record (m'.kobjects) { worker = o.thread_started } })

  -- rcio_rcin_probe and rcio_safety_probe.
  unfoldable pub init_safety : Module D → ℤ × Module D
  init_safety m =
      let (ret, rcin') = rcio_rcin_probe k o.rcin_now m.driver.rcin in
      let m1 = record m { driver = record (m.driver) { rcin = rcin' } } in
      let (ok, safety') = rcio_safety_probe k o.safety_now o.safety_created m.driver.safety in
      let m2 = record m1 { driver = record (m1.driver) { safety = safety' } } in
      if is_neg ret then errout_safety o m1 else (if ok then init_gpio m2 else errout_safety o m2)

  -- rcio_pwm_probe: the chip stays with the kernel once pwmchip_add has taken it.
  unfoldable pub init_pwm : Module D → ℤ × Module D
  init_pwm m =
      let (ret, w) = rcio_pwm_probe a junk o.kzalloc_ok o.pwmchip_added m.driver.world in
      let m' = record m {
        driver = record (m.driver) { world = w };
        kobjects = record (m.kobjects) {
          pwm_pointer = o.kzalloc_ok;
          pwm_chip = o.kzalloc_ok && not (is_neg o.pwmchip_added);
        };
      } in
      if is_neg ret then errout_pwm o m' else init_safety m'

  -- rcio_adc_probe, with the count of the board.
  unfoldable pub init_adc : Module D → ℤ × Module D
  init_adc m =
      let (ret, adc') =
        rcio_adc_probe k o.adc_now o.adc_created m.adc_channels_count m.driver.adc in
      let m' = record m { driver = record (m.driver) { adc = adc' } } in
      if is_neg ret then errout_pwm o m' else init_pwm m'

  -- rcio_status_probe, behind the creation of the object.
  unfoldable pub after_status : Module D → Bool × Module D
  after_status m =
      let (ok, status', d1) =
        rcio_status_probe a junk k o.status_now o.status_created m.driver.world.dev
          m.driver.status in
      (
        ok,
        record m {
          driver = record (m.driver) {
            world = record (m.driver.world) { dev = d1 };
            status = status';
          };
          kobjects = record (m.kobjects) { object = true };
        },
      )

  unfoldable pub rcio_init : Module D → ℤ × Module D
  rcio_init m =
      let (ok, m1) = after_status m in
      if o.object_created
      then (if ok then init_adc (set_counts m1) else errout_safety o m1)
      else (einval, m)

  unfoldable pub rcio_probe : Module D → ℤ × Module D
  rcio_probe m = let (ret, m') = rcio_init m in if is_neg ret then (ebusy, m') else (pos 0, m')

-- kthread_stop(task)
unfoldable pub stop_worker : Kobjects → Kobjects
stop_worker r = if r.worker then record r { worker = false } else record r { fault = true }

-- rcio_remove and rcio_stop: the result of rcio_pwm_remove is overwritten.
unfoldable pub rcio_remove : {D : Type 0} → ℤ → Module D → ℤ × Module D
unfolding stop_worker
rcio_remove removed m =
    let r1 = stop_worker m.kobjects in
    let r2 = (rcio_pwm_remove removed r1).1 in
    let (ret, r3) = gpio_remove m.driver.world r2 in
    (ret, record m { kobjects = record r3 { object = false } })
