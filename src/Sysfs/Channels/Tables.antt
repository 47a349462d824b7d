-- ===== src/Sysfs/Channels/Tables.antt =====
-- Files of a table of attributes that is made of a list of names.
use Prim.Native.String.{String}
use text.Mathlib.Text.{◌==◌}
use text.Mathlib.TextEquality.{eq_iff}
use mathlib.Core.Option.{map as map_option}
use rcio_dkms.Base.{
  ℕ, zero, suc, ◌<◌, ◌≡◌, length, get_or, inl, inr, Bool-cases, refl, Bool, true, false, ◌&&◌,
  Option, none, some, List, [], ◌∷◌, ◌++◌, map, set, ltb, arith, if◌then◌else◌,
}
use rcio_dkms.Sysfs.Attrs.{Attribute, Attrs, Group, named}

-- The place of a name in a list of names.
unfoldable pub position : String → List String → Option ℕ
position name [] = none
position name (x ∷ xs) = if x == name then some 0 else map_option suc (position name xs)

abbrev pub is_below : ℕ → Option ℕ → Bool
is_below n none = false
is_below n (some i) = ltb i n

abbrev is_none : Option ℕ → Bool
is_none none = true
is_none (some i) = false

-- No name stands twice.
unfoldable pub differ : List String → Bool
differ [] = true
differ (x ∷ xs) = is_none (position x xs) && differ xs

suc_found :
    (o : Option ℕ) (i : ℕ) → map_option suc o ≡ some i → (j : ℕ) × (o ≡ some j) × (i ≡ suc j)
suc_found none i h = absurd (ground arith)
suc_found (some j) i h = (j, refl, ground arith)

-- What stands at the place of a name is the name.
pub position-some :
    (name : String) (names : List String) (i : ℕ)
    → position name names ≡ some i
    → (i < length names) × (get_or names i "" ≡ name)
unfolding position
position-some name [] i h = absurd (ground arith)
position-some name (x ∷ xs) i h = elim (Bool-cases (x == name)) [
  | inl e ↦ let at : i ≡ 0 = ground arith in rw at (omega arith, (eq_iff x name).0 e)
  | inr e ↦
      let found = suc_found (position name xs) i (ground arith) in
      let rest = position-some name xs found.0 found.1 in
      rw (found.2) (omega (arith, rest.0), rest.1)
]

pub position-append :
    (name : String) (xs : List String) (y : String)
    → position name (xs ++ y ∷ []) ≡ elim (position name xs) [
      | none ↦ if y == name then some (length xs) else none
      | some i ↦ some i
    ]
unfolding position
position-append name [] y = refl
position-append name (x ∷ xs) y = ground (arith, position-append name xs y)

is_below-suc : (n : ℕ) (o : Option ℕ) → is_below (suc n) (map_option suc o) ≡ is_below n o
is_below-suc n none = refl
is_below-suc n (some i) = ground arith

is_below-zero : (o : Option ℕ) → is_below 0 o ≡ false
is_below-zero none = refl
is_below-zero (some i) = ground arith

is_below-none : (n : ℕ) (o : Option ℕ) → is_none o ≡ true → is_below n o ≡ false
is_below-none n none h = refl
is_below-none n (some i) h = ground arith

module _ {S : Type 0} (attr : String → Attribute S) where
  -- The table of the names, with a NULL at place `n` and one behind the last.
  abbrev pub cut_table : List String → ℕ → Attrs S
  cut_table names n = set (map (λ x. some (attr x)) names ++ none ∷ []) n none

module _ {S : Type 0} (attr : String → Attribute S)
    (attr_name : (x : String) → (attr x).name ≡ x) where
  named-cut_table :
      (names : List String) (n : ℕ) (name : String)
      → named name (cut_table attr names n) ≡ is_below n (position name names)
  unfolding position
  named-cut_table [] zero name = refl
  named-cut_table [] (suc n) name = refl
  named-cut_table (x ∷ xs) zero name = ground (arith, is_below-zero (position name (x ∷ xs)))
  named-cut_table (x ∷ xs) (suc n) name =
      ground (arith, attr_name x, named-cut_table xs n name, is_below-suc n (position name xs))

  -- The files of the table: the names before the place `n`.
  pub file-cut_table :
      (g : Group S) (names : List String) (n : ℕ) (name : String)
      → differ names ≡ true
      → g.file (cut_table attr names n) name
        ≡ (if is_below n (position name names) then some (attr name) else none)
  unfolding position differ
  file-cut_table g [] zero name h = g.file_null [] name
  file-cut_table g [] (suc n) name h = g.file_null [] name
  file-cut_table g (x ∷ xs) zero name h = ground (
    arith,
    is_below-zero (position name (x ∷ xs)),
    g.file_null (map (λ y. some (attr y)) xs ++ none ∷ []) name,
  )
  file-cut_table g (x ∷ xs) (suc n) name h = ground (
    arith,
    attr_name x,
    eq_iff x name,
    g.file_first (attr x) (cut_table attr xs n) name,
    named-cut_table xs n (attr x).name,
    is_below-none n (position x xs),
    is_below-suc n (position name xs),
    file-cut_table g xs n name,
  )
