-- ===== src/Sysfs/Channels/Analog.antt =====
-- The files of the analog inputs (src/rcio_adc.c).
use Prim.Native.String.{String}
use text.Mathlib.Text.{◌==◌}
use text.Mathlib.TextEquality.{eq_iff}
use rcio_dkms.Base.{
  ℕ, ◌≡◌, refl, Option, none, some, ℤ, pos, negsuc, List, ◌++◌, get_or, ltb, arith, if◌then◌else◌,
}
use rcio_dkms.Adc.{Adc}
use rcio_dkms.Sysfs.{Format, sprintf, newline}
use rcio_dkms.Sysfs.Attrs.{Group, read_file, write_file}
use rcio_dkms.Sysfs.Channels.{
  adc_names, channel_of, adc_channel_show, adc_channel_attribute, adc_attrs,
}
use rcio_dkms.Sysfs.Channels.Tables.{position, differ, file-cut_table}

-- The two orders of a comparison.
==_sym : (s t : String) → (s == t) ≡ (t == s)
==_sym s t = ground (arith, eq_iff s t, eq_iff t s)

-- What channel_show finds, by the place of the name in the table.
channel_at : Option ℕ → Adc → ℤ
channel_at none s = negsuc 0
channel_at (some i) s = pos (get_or s.measurements i 0)

channel_of-position :
    (name : String) (s : Adc) → channel_of name s ≡ channel_at (position name adc_names) s
unfolding channel_of channel_at position
channel_of-position name s = ground (
  arith,
  ==_sym name "ch0",
  ==_sym name "ch1",
  ==_sym name "ch2",
  ==_sym name "ch3",
  ==_sym name "ch4",
  ==_sym name "ch5",
  ==_sym name "ch6",
  ==_sym name "ch7",
)

module _ (g : Group Adc) (fmt : Format) where
  -- The files of a table with the NULL at place `n`.
  pub adc_files :
      (name : String) (s : Adc) (n : ℕ)
      → s.shown ≡ n
      → read_file g (adc_attrs fmt s) name s ≡ elim (position name adc_names) [
        | none ↦ none
        | some i ↦
            if ltb i n
            then some
                (some (sprintf (fmt.percent_d (pos (get_or s.measurements i 0)) ++ newline)), s)
            else none
      ]
  unfolding read_file adc_attrs adc_channel_show channel_at differ position
  adc_files name s n e = ground (
    arith,
    e,
    channel_of-position name s,
    file-cut_table (adc_channel_attribute fmt) (λ x. refl) g adc_names s.shown name refl,
  )

  -- No file takes a write.
  pub adc_writes :
      (name : String) (text : List ℕ) (s : Adc) → write_file g (adc_attrs fmt s) name text s ≡ none
  unfolding write_file adc_attrs differ position
  adc_writes name text s =
      ground (
        arith,
        file-cut_table (adc_channel_attribute fmt) (λ x. refl) g adc_names s.shown name refl,
      )
