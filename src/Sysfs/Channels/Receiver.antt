-- ===== src/Sysfs/Channels/Receiver.antt =====
-- The files of the receiver (src/rcio_rcin.c).
use Prim.Native.String.{String}
use text.Mathlib.Text.{◌==◌}
use text.Mathlib.TextEquality.{eq_iff}
use rcio_dkms.Base.{
  ℕ, ◌≡◌, refl, sym, ap, inl, inr, Bool-cases, ◌∙◌, false, Option, none, some, pos, List, [], ◌∷◌,
  ◌++◌, get_or, arith, if◌then◌else◌,
}
use rcio_dkms.Rcin.{Rcin}
use rcio_dkms.Sysfs.{Format, sprintf, newline, connected_show}
use rcio_dkms.Sysfs.Attrs.{Attribute, Group, read_file, write_file}
use rcio_dkms.Sysfs.Channels.{
  rcin_names, ScanChannel, rcin_channel_show, rcin_channel_attr, connected_attribute, rcin_attrs,
}
use rcio_dkms.Sysfs.Channels.Tables.{
  position, differ, position-append, position-some, is_below, cut_table, file-cut_table,
}

none-ne-some : (i : ℕ) → ◌≡◌ {A = Option ℕ} none (some i) → ⊥
none-ne-some i h = ground arith

abbrev file_names : List String
file_names = rcin_names ++ "connected" ∷ []

module _ (fmt : Format) (scan : ScanChannel) (junk : ℕ) where
  abbrev attribute_of : String → Attribute Rcin
  attribute_of name = record {
    name = name;
    show =
        if name == "connected"
        then (connected_attribute fmt).show
        else (rcin_channel_attr fmt scan junk name).show;
    store = none;
  }

  table_of_names : rcin_attrs fmt scan junk ≡ cut_table attribute_of file_names 17
  unfolding rcin_attrs
  table_of_names = refl

  -- The file connected is none of the channels.
  not_connected :
      (name : String) (i : ℕ) → position name rcin_names ≡ some i → (name == "connected") ≡ false
  unfolding position
  not_connected name i e = elim (Bool-cases (name == "connected")) [
    | inl same ↦
        let alone : position "connected" rcin_names ≡ none = refl in
        absurd (
          none-ne-some i (
            sym alone
            ∙ ap (λ x. position x rcin_names) (sym ((eq_iff name "connected").0 same))
            ∙ e))
    | inr other ↦ other
  ]

  rcin_channel_show_lem :
      (name : String) (s : Rcin) (i : ℕ)
      → position name rcin_names ≡ some i
      → rcin_channel_show fmt scan junk name s
        ≡ sprintf (fmt.percent_d (pos (get_or s.measurements i 0)) ++ newline)
  unfolding rcin_channel_show
  rcin_channel_show_lem name s i e =
      let at = position-some name rcin_names i e in
      rw (ap scan.sscanf (sym at.1) ∙ scan.sscanf_name i at.0) refl

  module _ (g : Group Rcin) where
    file_of_name :
        (name : String)
        → g.file (rcin_attrs fmt scan junk) name
          ≡ (if is_below 17 (position name file_names) then some (attribute_of name) else none)
    unfolding differ position
    file_of_name name =
        rw table_of_names (file-cut_table attribute_of (λ x. refl) g file_names 17 name refl)

    show_of_name :
        (name : String) (s : Rcin) (o : Option ℕ)
        → position name rcin_names ≡ o
        → read_file g (rcin_attrs fmt scan junk) name s ≡ elim o [
          | none ↦ if name == "connected" then some (some (connected_show fmt s), s) else none
          | some i ↦
              some (some (sprintf (fmt.percent_d (pos (get_or s.measurements i 0)) ++ newline)), s)
        ]
    unfolding read_file
    show_of_name name s none e = ground (
      arith,
      e,
      eq_iff name "connected",
      eq_iff "connected" name,
      file_of_name name,
      position-append name rcin_names "connected",
    )
    show_of_name name s (some i) e = ground (
      arith,
      e,
      (position-some name rcin_names i e).0,
      not_connected name i e,
      rcin_channel_show_lem name s i e,
      file_of_name name,
      position-append name rcin_names "connected",
    )

    -- Where the kernel makes the files of the table, the group of the receiver has the files ch0 to
    -- ch15 and connected, and no other. A read of the file at place `i` gives the decimal text of
    -- measurement `i` with a newline, one of connected the text of its flag; neither changes
    -- anything.
    pub rcin_files :
        (name : String) (s : Rcin)
        → read_file g (rcin_attrs fmt scan junk) name s ≡ elim (position name rcin_names) [
          | none ↦ if name == "connected" then some (some (connected_show fmt s), s) else none
          | some i ↦
              some (some (sprintf (fmt.percent_d (pos (get_or s.measurements i 0)) ++ newline)), s)
        ]
    rcin_files name s = show_of_name name s (position name rcin_names) refl

    -- No file takes a write.
    pub rcin_writes :
        (name : String) (text : List ℕ) (s : Rcin)
        → write_file g (rcin_attrs fmt scan junk) name text s ≡ none
    unfolding write_file
    rcin_writes name text s = ground (arith, file_of_name name)
