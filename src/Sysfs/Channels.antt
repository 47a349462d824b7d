-- ===== src/Sysfs/Channels.antt =====
-- The files of the channels, in src/rcio_adc.c and src/rcio_rcin.c: the tables of attributes and
-- the two functions channel_show, which tell the channel by the name of the file.
pub mod Tables
pub mod Analog
pub mod Receiver
use Prim.Native.String.{String}
use text.Mathlib.Text.{◌==◌}
use rcio_dkms.Base.{
  ℕ, ◌+◌, ◌<◌, ◌≡◌, Bool, Option, none, some, ℤ, pos, negsuc, is_neg, eio, ebusy, List, [], ◌∷◌,
  ◌++◌, get_or, map, set, if◌then◌else◌,
}
use rcio_dkms.Adc.{Adc}
use rcio_dkms.Rcin.{Rcin}
use rcio_dkms.Sysfs.{Format, Shown, sprintf, newline, connected_show}
use rcio_dkms.Sysfs.Attrs.{Attribute, Attrs}

-- An error of a show function, without a text.
abbrev pub failed : ℤ → Shown
failed error = (error, [])

-- The names of the attributes of rcio_adc.c, in the order of `attrs`.
abbrev pub adc_names : List String
adc_names = "ch0" ∷ "ch1" ∷ "ch2" ∷ "ch3" ∷ "ch4" ∷ "ch5" ∷ "ch6" ∷ "ch7" ∷ []

-- `channel` after the comparisons of channel_show, from -1.
unfoldable pub channel_of : String → Adc → ℤ
channel_of name s =
    let value = λ (n : ℕ). pos (get_or s.measurements n 0) in
    if name == "ch0"
    then value 0
    else (if name == "ch1"
        then value 1
        else (if name == "ch2"
            then value 2
            else (if name == "ch3"
                then value 3
                else (if name == "ch4"
                    then value 4
                    else (if name == "ch5"
                        then value 5
                        else (if name == "ch6"
                            then value 6
                            else (if name == "ch7" then value 7 else negsuc 0)))))))

-- The names of the channels of rcio_rcin.c, in the order of `attrs`.
abbrev pub rcin_names : List String
rcin_names =
    "ch0" ∷ "ch1" ∷ "ch2" ∷ "ch3" ∷ "ch4" ∷ "ch5" ∷ "ch6" ∷ "ch7" ∷ "ch8" ∷ "ch9" ∷ "ch10" ∷ "ch11"
    ∷ "ch12" ∷ "ch13" ∷ "ch14" ∷ "ch15" ∷ []

-- `sscanf(text, "ch%d", &channel)`: the result, and the number where one is stored. The number of
-- a channel's name is read.
pub record ScanChannel : Type 0 where
  pub sscanf : String → ℤ × Option ℕ
  pub sscanf_name : (i : ℕ) → i < 16 → sscanf (get_or rcin_names i "") ≡ (pos 1, some i)

-- `channel`, which is not initialised, after sscanf.
abbrev pub scanned : ℕ → Option ℕ → ℕ
scanned junk none = junk
scanned junk (some n) = n

module _ (fmt : Format) where
  unfoldable pub adc_channel_show : String → Adc → Shown
  unfolding channel_of
  adc_channel_show name s =
      if is_neg (channel_of name s)
      then failed ebusy
      else sprintf (fmt.percent_d (channel_of name s) ++ newline)

  -- `__ATTR(ch<n>, S_IRUGO, channel_show, NULL)`
  abbrev pub adc_channel_attribute : String → Attribute Adc
  adc_channel_attribute channel = record {
    name = channel;
    show = λ name s. (some (adc_channel_show name s), s);
    store = none;
  }

  -- `attrs` of rcio_adc.c after rcio_adc_probe, which puts a NULL at the count of channels.
  unfoldable pub adc_attrs : Adc → Attrs Adc
  adc_attrs s =
      set (map (λ name. some (adc_channel_attribute name)) adc_names ++ none ∷ []) s.shown none

  -- `__ATTR_RO(connected)`
  abbrev pub connected_attribute : Attribute Rcin
  connected_attribute = record {
    name = "connected";
    show = λ name s. (some (connected_show fmt s), s);
    store = none;
  }

module _ (fmt : Format) (scan : ScanChannel) (junk : ℕ) where
  -- The value is a `u16` and not below 0.
  unfoldable pub rcin_channel_show : String → Rcin → Shown
  rcin_channel_show name s =
      let (ret, stored) = scan.sscanf name in
      let value = get_or s.measurements (scanned junk stored) 0 in
      if is_neg ret then failed eio else sprintf (fmt.percent_d (pos value) ++ newline)

  -- RCIN_CHANNEL_ATTR
  abbrev pub rcin_channel_attr : String → Attribute Rcin
  rcin_channel_attr channel = record {
    name = channel;
    show = λ name s. (some (rcin_channel_show name s), s);
    store = none;
  }

  -- `attrs` of rcio_rcin.c.
  unfoldable pub rcin_attrs : Attrs Rcin
  rcin_attrs =
      map (λ name. some (rcin_channel_attr name)) rcin_names
      ++ some (connected_attribute fmt) ∷ none ∷ []
