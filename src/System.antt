-- ===== src/System.antt =====
-- The outputs and the pins together: what the kernel may call once both are probed, in any order
-- and at any time, and what holds after any number of calls. The worker of src/rcio_core.c
-- calls the two updates; the PWM, GPIO and sysfs cores of the kernel call the rest. Each call is
-- one step; calls that overlap in time are in Spi.Threads, Pwm.Race, Gpio.Race and Gpio.Export.
pub mod Invariant
pub mod Probe
pub mod Stuck
use rcio_dkms.Base.{
  ℕ, ◌<◌, ◌^◌, ◌≤◌, Bool, Option, ℤ, List, inl, inr, Bool-cases, true, false, is_neg, if◌then◌else◌,
  get_or, pos, [], ◌∷◌, ◌≡◌, arith,
}
use rcio_dkms.Adapter.{Adapter}
use rcio_dkms.Kernel.{Kernel}
use rcio_dkms.Protocol.Pins.{
  gpio_set_pin_gpio_enable, gpio_set_pin_state_low, gpio_set_pin_direction_output,
}
use rcio_dkms.State.{World, Pwm, Gpio}
use rcio_dkms.Pwm.Update.{rcio_pwm_update, rcio_pwm_force_zero_duty, rcio_pwm_force_update_pin}
use rcio_dkms.Pwm.Update.Pins.{rcio_pwm_update-gpio}
use rcio_dkms.Pwm.Config.{rcio_pwm_config}
use rcio_dkms.Pwm.Channel.{
  is_running, rcio_pwm_enable, rcio_pwm_disable, rcio_pwm_request, rcio_pwm_free,
  pwm_check_device_motors_running_count,
}
use rcio_dkms.Pwm.Channel.Laws.{
  free-state, rcio_pwm_request-state, rcio_pwm_disable-PwmInv, rcio_pwm_free-PwmInv,
}
use rcio_dkms.Pwm.Invariant.{PwmInv}
use rcio_dkms.Pwm.Invariant.Steps.{rcio_pwm_update-PwmInv, rcio_pwm_force_zero_duty-PwmInv}
use rcio_dkms.Pwm.Invariant.Config.{rcio_pwm_config-PwmInv}
use rcio_dkms.Gpio.Pin.{
  on_pin, update_enqueue, pwmignore_do_ignore_pin, pwmignore_do_unignore_pin, pwmignore_store,
  gpio_chip_set, rcio_gpio_force_update, rcio_gpio_update, gpio_direction_input,
  gpio_direction_output, reset_store,
}
use rcio_dkms.Registers.{register_get}
use rcio_dkms.Protocol.Regs.{px4io_page_gpio_exported, px4io_page_pwm_exported}
use rcio_dkms.Gpio.Chip.{
  gpio_export_gpio_pin, gpio_unexport_gpio_pin, gpio_chip_request, gpio_chip_free, stop_motors,
  take_pin, take_from_pwm,
}
use rcio_dkms.Gpio.Laws.{rcio_gpio_force_update_lem, rcio_gpio_update-pwm}
use rcio_dkms.Gpio.Invariant.{
  GpioInv, on_pin-GpioInv, set_bit_m-IsWord, clear_bit_m-IsWord, update_enqueue-GpioInv,
  pwmignore_do_ignore_pin-GpioInv, pwmignore_do_unignore_pin-GpioInv, pwmignore_store-GpioInv,
  gpio_chip_set-GpioInv, rcio_gpio_force_update-GpioInv, rcio_gpio_update-GpioInv,
  reset_store-GpioInv, gpio_direction_input-GpioInv, gpio_direction_output-GpioInv,
}

abbrev pub WorldInv : {D : Type 0} → World D → Type 0
WorldInv w = PwmInv w.pwm × GpioInv w.gpio

module _ {D : Type 0} (a : Adapter D) (k : Kernel) (junk : ℕ) where
  -- One call, with the arguments and the time that the kernel chooses.
  pub data Step : World D → World D → Type 0 where
    pwm_update : (t : ℕ) (w : World D) → Step w (rcio_pwm_update a k t w).1
    gpio_update : (w : World D) → Step w (rcio_gpio_update a w).1
    pwm_config :
        (t pin duty_ns period_ns : ℕ) (w : World D)
        → Step w (record w { pwm = (rcio_pwm_config k t w.gpio w.pwm pin duty_ns period_ns).1 })
    pwm_enable : (w : World D) → Step w (record w { pwm = (rcio_pwm_enable w.pwm).1 })
    pwm_disable : (pin : ℕ) (w : World D) → Step w (rcio_pwm_disable a junk w pin)
    pwm_request : (pin : ℕ) (w : World D) → Step w (rcio_pwm_request a junk w pin).1
    pwm_free : (pin : ℕ) (w : World D) → Step w (rcio_pwm_free a junk w pin)
    chip_request : (t offset : ℕ) (w : World D) → Step w (gpio_chip_request a junk k t w offset).1
    chip_free : (t offset : ℕ) (w : World D) → Step w (gpio_chip_free a junk k t w offset)
    chip_set :
        (offset : ℕ) (value : ℤ) (w : World D)
        → Step w (record w { gpio = gpio_chip_set offset value w.gpio })
    direction_input : (offset : ℕ) (w : World D) → Step w (gpio_direction_input a w offset).1
    direction_output :
        (offset : ℕ) (value : ℤ) (w : World D) → Step w (gpio_direction_output a w offset value).1
    store_pwmignore :
        (parsed : Option ℤ) (count : ℕ) (w : World D)
        → Step w (record w { gpio = (pwmignore_store parsed count w.gpio).1 })
    store_reset : (count : ℕ) (w : World D) → Step w (reset_store a w count).1

  pub data Reach (s : World D) : World D → Type 0 where
    here : Reach s s
    next : {now after : World D} → Reach s now → Step now after → Reach s after
