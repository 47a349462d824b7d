-- ===== src/Sysfs/Groups/Writes.antt =====
-- What a write through sysfs reaches.
use Prim.Native.String.{String}
use text.Mathlib.Text.{◌==◌}
use text.Mathlib.TextEquality.{eq_iff}
use rcio_dkms.Base.Int.{to_bool}
use rcio_dkms.Registers.{register_set}
use rcio_dkms.Protocol.Regs.{px4io_page_gpio, px4io_page_gpio_exported}
use rcio_dkms.Base.{
  replicate, map, negsuc, einval, ltb, ◌^◌, ℕ, ◌≡◌, refl, Option, none, some, ℤ, pos, List, [], ◌∷◌,
  length, arith, if◌then◌else◌,
}
use rcio_dkms.Adapter.{Adapter}
use rcio_dkms.State.{World}
use rcio_dkms.Adc.{Adc}
use rcio_dkms.Rcin.{Rcin}
use rcio_dkms.Status.{Status}
use rcio_dkms.Safety.{Safety, heartbeat_enabled_store}
use rcio_dkms.Gpio.Pin.{reset_pin, reset_store, pwmignore_store}
use rcio_dkms.Sysfs.{Format}
use rcio_dkms.Sysfs.Attrs.{Group, write_file, find, file-eq-find}
use rcio_dkms.Sysfs.Channels.{ScanChannel, adc_attrs, rcin_attrs}
use rcio_dkms.Sysfs.Channels.Analog.{adc_writes}
use rcio_dkms.Sysfs.Channels.Receiver.{rcin_writes}
use rcio_dkms.Sysfs.Groups.{status_attrs, safety_attrs, gpio_attrs}

module _ (fmt : Format) (name : String) (text : List ℕ) where
  status_writes :
      (g : Group Status) (s : Status) → write_file g (status_attrs fmt) name text s ≡ none
  unfolding write_file status_attrs find
  status_writes g s = ground (arith, file-eq-find g (status_attrs fmt) name refl refl)

  -- What a write to the group of the heartbeat gives.
  abbrev pub heartbeat_written : Option ℤ → Safety → ℤ × Safety
  heartbeat_written none s = (einval, s)
  heartbeat_written (some value) s =
      (pos (length text), record s { heartbeat_enabled = to_bool value })

  heartbeat_written_lem :
      (parsed : Option ℤ) (s : Safety)
      → heartbeat_enabled_store parsed (length text) s ≡ heartbeat_written parsed s
  unfolding heartbeat_enabled_store
  heartbeat_written_lem none s = refl
  heartbeat_written_lem (some value) s = refl

  safety_writes :
      (g : Group Safety) (s : Safety)
      → write_file g (safety_attrs fmt) name text s ≡ (
          if "heartbeat_enabled" == name
          then some (heartbeat_written (fmt.kstrtol text 10) s)
          else none)
  unfolding write_file safety_attrs find
  safety_writes g s = ground (
    arith,
    heartbeat_written_lem (fmt.kstrtol text 10) s,
    file-eq-find g (safety_attrs fmt) name refl refl,
  )

  module _ {D : Type 0} where
    abbrev pub mask_written : Option ℤ → World D → ℤ × World D
    mask_written (some (pos n)) w =
        if ltb n (2 ^ 16)
        then (
          pos (length text),
          record w { gpio = record (w.gpio) { pwm_ignore_writings_mask = n } },
        )
        else (einval, w)
    mask_written _ w = (einval, w)

    mask_written_lem :
        (parsed : Option ℤ) (w : World D)
        → (let (ret, gpio') = pwmignore_store parsed (length text) w.gpio in
            (ret, record w { gpio = gpio' }))
          ≡ mask_written parsed w
    unfolding pwmignore_store
    mask_written_lem none w = refl
    mask_written_lem (some (negsuc n)) w = refl
    mask_written_lem (some (pos n)) w = ground arith

  module _ {D : Type 0} (a : Adapter D) (junk : ℕ) where
    gpio_writes :
        (g : Group (World D)) (w : World D)
        → write_file g (gpio_attrs fmt a junk) name text w ≡ (
            if "reset" == name
            then some (reset_store a w (length text))
            else (if "pwmignore" == name
                then some (mask_written (fmt.kstrtol text 16) w)
                else none))
    unfolding write_file gpio_attrs find
    gpio_writes g w = ground (
      arith,
      mask_written_lem (fmt.kstrtol text 16) w,
      file-eq-find g (gpio_attrs fmt a junk) name refl refl,
      eq_iff "status" name,
      eq_iff "status" "reset",
      eq_iff "status" "pwmignore",
      eq_iff "reset" name,
      eq_iff "pwmignore" name,
    )

    -- A write of `text` to the file `name`, where the kernel makes the files of the five tables: no
    -- file of the analog inputs, of the receiver and of the status takes it. Of the group of the
    -- heartbeat, heartbeat_enabled does: a number, read in base 10, sets the flag to whether it is
    -- not 0, and all else is refused with -EINVAL and changes nothing. Of the group of the pins,
    -- pwmignore takes a number below 2 ^ 16, read in base 16, as the mask, and refuses all else
    -- with -EINVAL unchanged; reset takes every text, puts all pin registers of the driver to 0 and
    -- changes nothing else but the device, to which it sends first the registers with the enabled
    -- pins low, and then that no pin is exported. No other name takes a write.
    pub sysfs_writes :
        (scan : ScanChannel) (inputs : Group Adc) (receiver : Group Rcin) (status : Group Status)
        (safety : Group Safety) (pins : Group (World D)) (adc : Adc) (rcin : Rcin) (st : Status)
        (s : Safety) (w : World D)
        → let low = map reset_pin w.gpio.pin_states in
          let d1 = (register_set a w.dev px4io_page_gpio 0 low 16).1 in
          let d2 = (register_set a d1 px4io_page_gpio_exported 0 (0 ∷ []) 1).1 in
          (write_file inputs (adc_attrs fmt adc) name text adc ≡ none)
          × (write_file receiver (rcin_attrs fmt scan junk) name text rcin ≡ none)
          × (write_file status (status_attrs fmt) name text st ≡ none)
          × (write_file safety (safety_attrs fmt) name text s ≡ (
              if "heartbeat_enabled" == name
              then some (heartbeat_written (fmt.kstrtol text 10) s)
              else none))
          × (write_file pins (gpio_attrs fmt a junk) name text w ≡ (
              if "reset" == name
              then some (
                pos (length text),
                record w { dev = d2; gpio = record (w.gpio) { pin_states = replicate 16 0 } },
              )
              else (if "pwmignore" == name
                  then some (mask_written (fmt.kstrtol text 16) w)
                  else none)))
    unfolding reset_store
    sysfs_writes scan inputs receiver status safety pins adc rcin st s w = (
      adc_writes inputs fmt name text adc,
      rcin_writes fmt scan junk receiver name text rcin,
      status_writes status st,
      safety_writes safety s,
      gpio_writes pins w,
    )
