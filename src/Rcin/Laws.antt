-- ===== src/Rcin/Laws.antt =====
-- The two loops over the channels, and the range that every channel keeps.
use rcio_dkms.Base.{
  ℕ, zero, suc, ◌+◌, ◌≤◌, ◌≡◌, refl, ◌∙◌, not, ◌&&◌, ◌⊎◌, inl, inr, ◌&&◌, List, arith, length,
  get_or, set, ltb, leb, if◌then◌else◌, All, All-set, length-set, Bool-cases,
}
use rcio_dkms.Base.Slices.{cells}
use rcio_dkms.Adapter.{Adapter}
use rcio_dkms.Kernel.{Kernel}
use rcio_dkms.Rcin.{
  Rcin, initial_rcin, out_of_range, take_values, clear_from, rcin_get_raw_values, fresh_report,
  rcio_rcin_update,
}

-- Channel `j` after the loop, from channel `i` with `left` to go.
pub take_values_lem :
    (left i : ℕ) (values measurements : List ℕ) (j : ℕ)
    → i + left ≤ length measurements
    → get_or (take_values left i values measurements) j 0 ≡ (
        if leb i j && ltb j (i + left) && not (out_of_range (get_or values j 0))
        then get_or values j 0
        else get_or measurements j 0)
unfolding take_values
take_values_lem zero i values measurements j h = ground arith
take_values_lem (suc left) i values measurements j h = grind (
  cells,
  take_values_lem left (i + 1) values
      (if out_of_range (get_or values i 0)
        then measurements
        else set measurements i (get_or values i 0))
      j,
)

pub clear_from_lem :
    (left i : ℕ) (measurements : List ℕ) (j : ℕ)
    → i + left ≤ length measurements
    → get_or (clear_from left i measurements) j 0
      ≡ (if leb i j && ltb j (i + left) then 0 else get_or measurements j 0)
unfolding clear_from
clear_from_lem zero i measurements j h = ground arith
clear_from_lem (suc left) i measurements j h =
    grind (cells, clear_from_lem left (i + 1) (set measurements i 0) j)

pub length-clear_from :
    (left i : ℕ) (measurements : List ℕ)
    → length (clear_from left i measurements) ≡ length measurements
unfolding clear_from
length-clear_from zero i measurements = refl
length-clear_from (suc left) i measurements =
    length-clear_from left (i + 1) (set measurements i 0) ∙ length-set measurements i 0

-- No signal, or a pulse of a length that a receiver gives.
abbrev pub IsPulse : ℕ → Type 0
IsPulse v = (v ≡ 0) ⊎ ((800 ≤ v) × (v ≤ 2500))

pub record Channels (measurements : List ℕ) : Type 0 where
  pub all : length measurements ≡ 16
  pub pulses : All IsPulse measurements

abbrev pub RcinInv : Rcin → Type 0
RcinInv s = Channels s.measurements

pub initial_rcin-RcinInv : RcinInv initial_rcin
unfolding initial_rcin
initial_rcin-RcinInv = record { all = refl; pulses = ground arith }

set-Channels :
    (measurements : List ℕ) (i v : ℕ)
    → IsPulse v
    → Channels measurements
    → Channels (set measurements i v)
set-Channels measurements i v p c = record {
  all = length-set measurements i v ∙ c.all;
  pulses = All-set IsPulse measurements i v p c.pulses;
}

-- One round of the loop.
accept-Channels :
    (measurements : List ℕ) (i v : ℕ)
    → Channels measurements
    → Channels (if out_of_range v then measurements else set measurements i v)
accept-Channels measurements i v c = elim (Bool-cases (out_of_range v)) [
  | inl out ↦ rw out c
  | inr in_range ↦ rw in_range (set-Channels measurements i v (inr (ground arith, ground arith)) c)
]

take_values-Channels :
    (left i : ℕ) (values measurements : List ℕ)
    → Channels measurements
    → Channels (take_values left i values measurements)
unfolding take_values
take_values-Channels zero i values measurements c = c
take_values-Channels (suc left) i values measurements c =
    take_values-Channels left (i + 1) values
      (if out_of_range (get_or values i 0)
        then measurements
        else set measurements i (get_or values i 0))
      (accept-Channels measurements i (get_or values i 0) c)

clear_from-Channels :
    (left i : ℕ) (measurements : List ℕ)
    → Channels measurements
    → Channels (clear_from left i measurements)
unfolding clear_from
clear_from-Channels zero i measurements c = c
clear_from-Channels (suc left) i measurements c =
    clear_from-Channels left (i + 1) (set measurements i 0)
      (set-Channels measurements i 0 (inl refl) c)

module _ {D : Type 0} (a : Adapter D) (junk : ℕ) (k : Kernel) (now later : ℕ) (d : D)
    (s : Rcin) where
  -- An update keeps every channel at 0 or at a pulse of 800 to 2500 us, whatever the device sends.
  pub rcio_rcin_update-RcinInv : RcinInv s → RcinInv (rcio_rcin_update a junk k now later d s).1
  unfolding rcio_rcin_update
  rcio_rcin_update-RcinInv inv =
      let report = (rcin_get_raw_values a junk d (fresh_report a junk)).1 in
      let taken = take_values-Channels 16 0 report.values s.measurements inv in
      let cleared = clear_from-Channels 16 0 s.measurements inv in
      ground (arith, taken.all, taken.pulses, cleared.all, cleared.pulses)
