-- ===== src/Tests/Core.antt =====
-- The life of the module at concrete inputs.
use rcio_dkms.Base.{
  ℕ, ◌≡◌, refl, not, ◌&&◌, ◌||◌, inl, inr, true, false, pos, is_neg, eio, ebusy, some, List, ◌++◌,
  arith, length, replicate, length-replicate, All-replicate,
}
use rcio_dkms.Adapter.{Adapter}
use rcio_dkms.Protocol.Packet.{IsWord}
use rcio_dkms.Registers.{register_get, register_set, register_set_byte}
use rcio_dkms.State.{World, initial_pwm, initial_gpio}
use rcio_dkms.Pwm.Setup.{
  rcio_pwm_probe, rcio_pwm_create_sysfs_handle, rcio_hardware_init, rcio_pwm_safety_off, old_rates,
  pwm_set_initial_rc_config, pwm_set_initial_rc_channel_config, rc_config_from,
}
use rcio_dkms.Pwm.Update.{rcio_pwm_force_zero_duty, some_freq_updated}
use rcio_dkms.Pwm.Update.Laws.{armed_at}
use rcio_dkms.Pwm.Update.Progress.{updates}
use rcio_dkms.Pwm.Update.Countdown.{rcio_pwm_force_zero_duty_ends}
use rcio_dkms.Status.{
  initial_status, rcio_status_probe, rcio_status_request_crc, rcio_status_request_board_type,
  rcio_status_request_git_hash,
}
use rcio_dkms.Adc.{initial_adc, rcio_adc_probe}
use rcio_dkms.Rcin.{initial_rcin, rcio_rcin_probe}
use rcio_dkms.Gpio.Setup.{rcio_gpio_probe, rcio_gpio_remove}
use rcio_dkms.Gpio.Pin.{rcio_gpio_force_update}
use rcio_dkms.Core.Worker.{Driver, Ticks, worker_round}
use rcio_dkms.Core.Worker.Laws.{DriverInv, worker_round_fail_counter}
use rcio_dkms.Core.Driver.{begin, then_move, round, store_heartbeat}
use rcio_dkms.Core.Init.{
  Outcomes, nothing_registered, after_status, rcio_init, rcio_remove, gpio_remove, rcio_pwm_remove,
  stop_worker, set_counts, init_adc, init_pwm, init_safety, init_gpio,
}
use rcio_dkms.Core.Init.Faults.{before_pwm, rcio_init_faults}
use rcio_dkms.Core.Init.Remove.{rcio_remove_undoes}
use rcio_dkms.Core.Init.Laws.{Settles, rcio_init-Settles}
use rcio_dkms.Core.Start.{loaded_driver, loaded_module, started-DriverInv}
use rcio_dkms.Safety.{initial_safety, rcio_safety_probe, heartbeat_enabled_store}
use rcio_dkms.Spi.Probe.{Device, rcio_spi_probe, rcio_spi_probe_leaves_chip}
use rcio_dkms.System.Probe.{loaded}
use rcio_dkms.Tests.{clock, quiet}

-- Every call of the kernel succeeds.
abbrev pub smooth : Outcomes
smooth = record {
  object_created = true;
  status_created = pos 0;
  kzalloc_ok = true;
  pwmchip_added = pos 0;
  adc_created = pos 0;
  safety_created = pos 0;
  gpio_created = pos 0;
  gpiochip_added = pos 0;
  thread_started = true;
  pwmchip_removed = pos 0;
  status_now = 1;
  adc_now = 2;
  rcin_now = 3;
  safety_now = 4;
}

-- The group of the status cannot be created.
abbrev no_status : Outcomes
no_status = record smooth { status_created = eio }

abbrev ticks : Ticks
ticks = record {
  pwm = 10;
  adc = 11;
  adc_later = 12;
  rcin = 13;
  rcin_later = 14;
  status = 15;
  status_later = 16;
  safety = 17;
  safety_later = 18;
}

abbrev pub started : Driver ℕ
started = (rcio_init quiet 3 clock smooth (loaded_module 0)).1.driver

abbrev after_round : Driver ℕ
after_round = worker_round quiet 3 clock ticks started

started-DriverInv_example : DriverInv (record after_round {
  safety = (heartbeat_enabled_store (some (pos 0)) 1 after_round.safety).1;
})
started-DriverInv_example = started-DriverInv quiet 3 clock smooth 0 (
    then_move (then_move begin (round ticks started))
      (store_heartbeat (some (pos 0)) 1 after_round))

rcio_init-Settles_example : Settles smooth (rcio_init quiet 3 clock smooth (loaded_module 0))
rcio_init-Settles_example = rcio_init-Settles quiet 3 clock smooth (loaded_module 0) refl

rcio_init_faults_example :
    (rcio_init quiet 3 clock no_status (loaded_module 0)).1.kobjects.fault ≡ true
unfolding after_status rcio_status_probe
rcio_init_faults_example = rcio_init_faults quiet 3 clock no_status (loaded_module 0) refl refl refl

worker_round_fail_counter_example :
    (worker_round quiet 3 clock ticks (record (loaded_driver 0) { fail_counter = 7 })).fail_counter
    ≡ 0
worker_round_fail_counter_example =
    worker_round_fail_counter quiet 3 clock ticks (record (loaded_driver 0) { fail_counter = 7 })

pub init_done : (rcio_init quiet 3 clock smooth (loaded_module 0)).0 ≡ pos 0
unfolding rcio_init after_status rcio_status_probe rcio_status_request_crc
    rcio_status_request_board_type rcio_status_request_git_hash set_counts init_adc rcio_adc_probe
    init_pwm rcio_pwm_probe rcio_pwm_create_sysfs_handle rcio_hardware_init rcio_pwm_safety_off
    old_rates pwm_set_initial_rc_config rc_config_from pwm_set_initial_rc_channel_config init_safety
    rcio_rcin_probe rcio_safety_probe init_gpio rcio_gpio_probe register_set register_set_byte
    register_get initial_pwm initial_gpio initial_status initial_safety initial_adc initial_rcin
    rcio_gpio_force_update
init_done = refl

-- A device that has GPIO, and on it a kernel that does not take the GPIO chip.
abbrev with_gpio : Adapter ℕ
with_gpio = record {
  read = λ d address old n. (pos n, replicate (length old) 0xffff, d);
  write = λ d address values n. (pos n, d);
  read_result = λ d address old n. inl refl;
  read_length = λ d address old n h. length-replicate (length old) 0xffff;
  read_words = λ d address old n h. All-replicate IsWord (length old) 0xffff (omega arith);
  write_result = λ d address values n. inl refl;
}

abbrev chip_refused : Outcomes
chip_refused = record smooth { gpiochip_added = eio }

gpio_done :
    let (ret, m) = rcio_init with_gpio 3 clock smooth (loaded_module 0) in
    (ret ≡ pos 0)
    × (m.driver.world.gpio.gpio_supported ≡ true)
    × (m.kobjects.gpio_chip ≡ true)
    × (m.kobjects.worker ≡ true)
unfolding rcio_init after_status rcio_status_probe rcio_status_request_crc
    rcio_status_request_board_type rcio_status_request_git_hash set_counts init_adc rcio_adc_probe
    init_pwm rcio_pwm_probe rcio_pwm_create_sysfs_handle rcio_hardware_init rcio_pwm_safety_off
    old_rates pwm_set_initial_rc_config rc_config_from pwm_set_initial_rc_channel_config init_safety
    rcio_rcin_probe rcio_safety_probe init_gpio rcio_gpio_probe register_set register_set_byte
    register_get initial_pwm initial_gpio initial_status initial_safety initial_adc initial_rcin
    rcio_gpio_force_update
gpio_done = (refl, refl, refl, refl)

-- Without the GPIO chip, rcio_init returns 0 and rcio_remove faults.
remove_faults :
    let (ret, m) = rcio_init with_gpio 3 clock chip_refused (loaded_module 0) in
    (ret ≡ pos 0) × ((rcio_remove (pos 0) m).1.kobjects.fault ≡ true)
unfolding rcio_init after_status rcio_status_probe rcio_status_request_crc
    rcio_status_request_board_type rcio_status_request_git_hash set_counts init_adc rcio_adc_probe
    init_pwm rcio_pwm_probe rcio_pwm_create_sysfs_handle rcio_hardware_init rcio_pwm_safety_off
    old_rates pwm_set_initial_rc_config rc_config_from pwm_set_initial_rc_channel_config init_safety
    rcio_rcin_probe rcio_safety_probe init_gpio rcio_gpio_probe register_set register_set_byte
    register_get initial_pwm initial_gpio initial_status initial_safety initial_adc initial_rcin
    rcio_gpio_force_update rcio_remove gpio_remove rcio_gpio_remove rcio_pwm_remove stop_worker
remove_faults = (refl, refl)

-- With the GPIO chip and the worker: no fault.
rcio_remove_undoes_example :
    let m = (rcio_init with_gpio 3 clock smooth (loaded_module 0)).1 in
    let (ret, m') = rcio_remove (pos 0) (record m { driver = m.driver }) in
    (ret ≡ pos 1)
    × (m'.kobjects ≡ record nothing_registered {
      fault =
          not m.kobjects.worker || m.driver.world.gpio.gpio_supported && not m.kobjects.gpio_chip;
    })
rcio_remove_undoes_example =
    let m = (rcio_init with_gpio 3 clock smooth (loaded_module 0)).1 in
    rcio_remove_undoes with_gpio 3 clock smooth (loaded_module 0) m.driver (pos 0) refl gpio_done.0
      refl refl

-- A device whose registers can be read but not written.
abbrev read_only : Adapter ℕ
read_only = record {
  read = λ d address old n. (pos n, replicate (length old) 0, d);
  write = λ d address values n. (eio, d);
  read_result = λ d address old n. inl refl;
  read_length = λ d address old n h. length-replicate (length old) 0;
  read_words = λ d address old n h. All-replicate IsWord (length old) 0 (omega arith);
  write_result = λ d address values n. inr refl;
}

made : (after_status read_only 3 clock smooth (loaded_module 0)).0 ≡ true
unfolding after_status rcio_status_probe
made = refl

refused : (w : World ℕ) → is_neg (rcio_pwm_probe read_only 3 true (pos 0) w).0 ≡ true
unfolding rcio_pwm_probe rcio_pwm_create_sysfs_handle rcio_hardware_init rcio_pwm_safety_off
    register_set_byte register_set register_get
refused w = refl

abbrev plugged : Device ℕ
plugged = record { core = loaded_module 0; buffer = false }

rcio_spi_probe_leaves_chip_example :
    let (ret, s') = rcio_spi_probe read_only 3 clock smooth (pos 0) true plugged in
    (ret ≡ ebusy) × (s'.buffer ≡ false) × (s'.core.kobjects.pwm_chip ≡ true)
rcio_spi_probe_leaves_chip_example =
    rcio_spi_probe_leaves_chip read_only 3 clock smooth (pos 0) plugged refl refl refl made refl
      refl (refused (before_pwm read_only 3 clock smooth (loaded_module 0)).driver.world)

-- Outputs at 1500 that are forced to zero.
abbrev resting : World ℕ
resting = loaded 0

abbrev spinning : World ℕ
spinning = record resting {
  pwm = record (resting.pwm) { values = replicate 16 1500; armtimeout = 1000 };
}

no_change : some_freq_updated spinning.pwm ≡ false
unfolding some_freq_updated initial_pwm
no_change = refl

-- The times of 49 calls.
abbrev often : List ℕ
often = replicate 49 20

rcio_pwm_force_zero_duty_ends_example :
    let w' = updates quiet clock often (rcio_pwm_force_zero_duty quiet clock 10 spinning) in
    (w'.pwm.force_pwmzero_countdown ≡ 0) × (w'.pwm.values ≡ replicate 12 0 ++ replicate 4 1500)
unfolding initial_pwm
rcio_pwm_force_zero_duty_ends_example =
    rcio_pwm_force_zero_duty_ends quiet clock 10 often spinning no_change refl refl refl
      (refl, All-replicate (λ s. armed_at clock s 1000 ≡ true) 49 20 refl)
