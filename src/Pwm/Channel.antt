-- ===== src/Pwm/Channel.antt =====
-- The other operations on a channel (src/rcio_pwm.c): enable, disable, request, free.
pub mod Laws
use rcio_dkms.Base.{
  ℕ, ◌+◌, ◌%◌, ◌^◌, Bool, true, false, ℤ, pos, negsuc, is_neg, eperm, List, [], ◌∷◌, bit_and,
  bit_or, get_or, set, replicate, ltb, ◌==◌, if◌then◌else◌,
}
use rcio_dkms.Adapter.{Adapter}
use rcio_dkms.Protocol.Pins.{not32}
use rcio_dkms.Protocol.Regs.{
  px4io_page_direct_pwm, px4io_page_gpio_exported, px4io_page_pwm_exported,
}
use rcio_dkms.Registers.{register_get, register_set}
use rcio_dkms.State.{World, Pwm, rcio_pwm_max_channels}
use rcio_dkms.Pwm.Config.{ignores}
use rcio_dkms.Pwm.Update.{rcio_pwm_force_update_pin}

-- The loop that counts the values that are not zero, in a `uint16_t`.
unfoldable pub count_spinning : List ℕ → ℕ → ℕ
count_spinning [] n = n
count_spinning (v ∷ vs) n = count_spinning vs (if v == 0 then n else (n + 1) % 2 ^ 16)

-- `running > 0`
abbrev pub is_running : ℤ → Bool
is_running (pos n) = ltb 0 n
is_running (negsuc n) = false

unfoldable pub rcio_pwm_enable : Pwm → ℤ × Pwm
rcio_pwm_enable p = (pos 0, record p { armed = true })

-- `junk` is what the local variables that are not initialised hold.
module _ {D : Type 0} (a : Adapter D) (junk : ℕ) where
  unfoldable pub rcio_pwm_disable : World D → ℕ → World D
  rcio_pwm_disable w pin =
      let w' =
        (rcio_pwm_force_update_pin a
          (record w { pwm = record (w.pwm) { values = set w.pwm.values pin 0 } }) pin).1 in
      record w' { pwm = record (w'.pwm) { armed = false } }

  unfoldable pub pwm_check_device_motors_running_count : D → ℤ × D
  unfolding count_spinning
  pwm_check_device_motors_running_count d =
      let (ret, pwm_values, d') =
        register_get a d px4io_page_direct_pwm 0 (replicate rcio_pwm_max_channels junk)
          rcio_pwm_max_channels in
      if is_neg ret then (ret, d') else (pos (count_spinning pwm_values 0), d')

  -- The end of rcio_pwm_request: the pin is added to the exported ones. The result of the read is
  -- not looked at.
  unfoldable pub export_pwm_pin : D → ℕ → ℤ × D
  export_pwm_pin d pin =
      let (ret, reg, d') = register_get a d px4io_page_pwm_exported 0 (junk ∷ []) 1 in
      let pwm_exported = bit_or (get_or reg 0 0) (2 ^ pin) % 2 ^ 16 in
      let (ret', d'') = register_set a d' px4io_page_pwm_exported 0 (pwm_exported ∷ []) 1 in
      if is_neg ret' then (ret', d'') else (pos 0, d'')

  unfoldable pub rcio_pwm_request : World D → ℕ → ℤ × World D
  unfolding pwm_check_device_motors_running_count export_pwm_pin
  rcio_pwm_request w pin =
      let (running, d1) = pwm_check_device_motors_running_count w.dev in
      let (ret, reg, d2) = register_get a d1 px4io_page_gpio_exported 0 (junk ∷ []) 1 in
      let (ret', d3) = export_pwm_pin d2 pin in
      if ignores w.gpio.pwm_ignore_writings_mask pin
      then (pos 0, record w { dev = d1 })
      else (if is_neg running
          then (running, record w { dev = d1 })
          else (if is_running running
              then (eperm, record w { dev = d1 })
              else (if w.gpio.gpio_supported
                  then (if is_neg ret
                      then (ret, record w { dev = d2 })
                      else (if bit_and (get_or reg 0 0) (2 ^ pin) == 0
                          then (ret', record w { dev = d3 })
                          else (eperm, record w { dev = d2 })))
                  else (pos 0, record w { dev = d1 }))))

  unfoldable pub rcio_pwm_free : World D → ℕ → World D
  rcio_pwm_free w pin =
      let w' = record w { pwm = record (w.pwm) { values = set w.pwm.values pin 0 } } in
      let (ret, reg, d1) = register_get a w'.dev px4io_page_pwm_exported 0 (junk ∷ []) 1 in
      let pwm_exported = bit_and (get_or reg 0 0) (not32 (2 ^ pin)) % 2 ^ 16 in
      let d2 = (register_set a d1 px4io_page_pwm_exported 0 (pwm_exported ∷ []) 1).1 in
      if ignores w.gpio.pwm_ignore_writings_mask pin
      then w'
      else (if w.gpio.gpio_supported
          then (if is_neg ret then record w' { dev = d1 } else record w' { dev = d2 })
          else w')
