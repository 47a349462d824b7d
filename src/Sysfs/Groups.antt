-- ===== src/Sysfs/Groups.antt =====
-- The tables of attributes of src/rcio_status.c, src/rcio_safety.c and src/rcio_gpio.c: the name,
-- the show function and the store function of each file.
pub mod Writes
use Prim.Native.String.{String}
use rcio_dkms.Base.{ℕ, Option, none, some, ℤ, List, [], ◌∷◌, length}
use rcio_dkms.Adapter.{Adapter}
use rcio_dkms.State.{World}
use rcio_dkms.Status.{Status}
use rcio_dkms.Safety.{Safety, heartbeat_enabled_store}
use rcio_dkms.Gpio.Pin.{reset_store, pwmignore_store}
use rcio_dkms.Sysfs.{
  Format, Shown, init_ok_show, pwm_ok_show, alive_show, crc_show, board_name_show,
  heartbeat_enabled_show, status_show, reset_show, pwmignore_show,
}
use rcio_dkms.Sysfs.Attrs.{Attribute, Attrs}

-- `__ATTR(name, S_IRUGO, show, NULL)` and `__ATTR_RO(name)`, of a show function that changes
-- nothing.
abbrev pub read_only : {S : Type 0} → String → (S → Option Shown) → Attribute S
read_only name show = record { name = name; show = λ file s. (show s, s); store = none }

module _ (fmt : Format) where
  unfoldable pub status_attrs : Attrs Status
  status_attrs =
      some (read_only "init_ok" (λ s. some (init_ok_show fmt s)))
      ∷ some (read_only "pwm_ok" (λ s. some (pwm_ok_show fmt s)))
      ∷ some (read_only "alive" (λ s. some (alive_show fmt s)))
      ∷ some (read_only "crc" (λ s. some (crc_show fmt s)))
      ∷ some (read_only "board_name" board_name_show)
      ∷ none
      ∷ []

  -- `__ATTR_RW(heartbeat_enabled)`
  abbrev pub heartbeat_enabled_attribute : Attribute Safety
  heartbeat_enabled_attribute = record {
    name = "heartbeat_enabled";
    show = λ file s. (some (heartbeat_enabled_show fmt s), s);
    store = some (λ text s. heartbeat_enabled_store (fmt.kstrtol text 10) (length text) s);
  }

  unfoldable pub safety_attrs : Attrs Safety
  safety_attrs = some heartbeat_enabled_attribute ∷ none ∷ []

  module _ {D : Type 0} (a : Adapter D) (junk : ℕ) where
    -- `__ATTR_RO(status)`: the show function reads from the device.
    abbrev pub status_attribute : Attribute (World D)
    status_attribute = record {
      name = "status";
      show = λ file w.
          let (shown, dev') = status_show fmt a junk w.dev in (some shown, record w { dev = dev' });
      store = none;
    }

    -- `__ATTR_RW(reset)`
    abbrev pub reset_attribute : Attribute (World D)
    reset_attribute = record {
      name = "reset";
      show = λ file w. (some reset_show, w);
      store = some (λ text w. reset_store a w (length text));
    }

    -- `__ATTR_RW(pwmignore)`
    abbrev pub pwmignore_attribute : Attribute (World D)
    pwmignore_attribute = record {
      name = "pwmignore";
      show = λ file w. (some (pwmignore_show fmt w.gpio), w);
      store = some (λ text w.
          let (ret, gpio') = pwmignore_store (fmt.kstrtol text 16) (length text) w.gpio in
          (ret, record w { gpio = gpio' }));
    }

    unfoldable pub gpio_attrs : Attrs (World D)
    gpio_attrs = some status_attribute ∷ some reset_attribute ∷ some pwmignore_attribute ∷ none ∷ []
