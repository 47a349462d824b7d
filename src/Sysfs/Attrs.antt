-- ===== src/Sysfs/Attrs.antt =====
-- The tables of attributes that the drivers hand to sysfs: `struct kobj_attribute`, `struct
-- attribute *attrs[]`. The kernel's sysfs, which makes files of such a table, is the parameter
-- `Group`.
use Prim.Native.String.{String}
use text.Mathlib.Text.{◌==◌}
use rcio_dkms.Base.{
  ℕ, ◌≡◌, Bool, true, false, not, ◌&&◌, ◌||◌, Option, none, some, ℤ, List, [], ◌∷◌, arith,
  if◌then◌else◌,
}
use rcio_dkms.Sysfs.{Shown}

-- An attribute over the state `S`: `show` is handed the name that is read, `store` the text that is
-- written, and is `none` where the macro puts NULL. A text that is `none` is one that C does not
-- define.
pub record Attribute (S : Type 0) : Type 0 where
  pub name : String
  pub show : String → S → Option Shown × S
  pub store : Option (List ℕ → S → ℤ × S)

-- `struct attribute *attrs[]`: `none` is NULL.
abbrev pub Attrs : Type 0 → Type 0
Attrs S = List (Option (Attribute S))

module _ {S : Type 0} where
  -- Whether an attribute before the NULL has the name.
  abbrev pub named : String → Attrs S → Bool
  named name [] = false
  named name (none ∷ attrs) = false
  named name (some x ∷ attrs) = x.name == name || named name attrs

  -- No two attributes before the NULL have one name.
  abbrev pub distinct : Attrs S → Bool
  distinct [] = true
  distinct (none ∷ attrs) = true
  distinct (some x ∷ attrs) = not (named x.name attrs) && distinct attrs

  -- The array has a NULL.
  abbrev pub terminated : Attrs S → Bool
  terminated [] = false
  terminated (none ∷ attrs) = true
  terminated (some x ∷ attrs) = terminated attrs

  -- The first attribute before the NULL that has the name.
  unfoldable pub find : String → Attrs S → Option (Attribute S)
  find name [] = none
  find name (none ∷ attrs) = none
  find name (some x ∷ attrs) = if x.name == name then some x else find name attrs

-- sysfs_create_group and the opening of a file in the group that it makes. The array is
-- NULL-terminated, and each attribute before the NULL is a file of its name.
pub record Group (S : Type 0) : Type 0 where
  pub file : Attrs S → String → Option (Attribute S)
  pub file_null : (attrs : Attrs S) (name : String) → file (none ∷ attrs) name ≡ none
  pub file_first :
      (x : Attribute S) (attrs : Attrs S) (name : String)
      → named x.name attrs ≡ false
      → file (some x ∷ attrs) name ≡ (if x.name == name then some x else file attrs name)

module _ {S : Type 0} (g : Group S) where
  -- A read of the file, `none` where there is no such file.
  unfoldable pub read_file : Attrs S → String → S → Option (Option Shown × S)
  read_file attrs name s = elim (g.file attrs name) [ none ↦ none | some x ↦ some (x.show name s) ]

  -- A write of `text` to the file, `none` where there is no such file or it has no `store`.
  unfoldable pub write_file : Attrs S → String → List ℕ → S → Option (ℤ × S)
  write_file attrs name text s = elim (g.file attrs name) [
    | none ↦ none
    | some x ↦ elim x.store [ none ↦ none | some store ↦ some (store text s) ]
  ]

  -- Of an array that has a NULL and no name twice, sysfs makes the files that a search finds.
  pub file-eq-find :
      (attrs : Attrs S) (name : String)
      → terminated attrs ≡ true
      → distinct attrs ≡ true
      → g.file attrs name ≡ find name attrs
  unfolding find
  file-eq-find [] name ends h = cc ends
  file-eq-find (none ∷ attrs) name ends h = g.file_null attrs name
  file-eq-find (some x ∷ attrs) name ends h =
      ground (arith, g.file_first x attrs name, file-eq-find attrs name)
