-- ===== src/VectorClock/Entries.antt =====
-- Facts about the lists of entries: what `get` finds, and what `set` changes.
use archerdb.Base.{
  ℕ, ◌<◌, ◌≡◌, refl, inl, inr, Bool, true, false, ◌||◌, List, [], ◌∷◌, arith, ◌==◌, if◌then◌else◌,
  Bool-cases,
}
use archerdb.VectorClock.{VectorClockEntry, get_in, set_in}

abbrev pub contains : ℕ → List VectorClockEntry → Bool
contains r [] = false
contains r (e ∷ es) = (e.region_id == r) || contains r es

-- No region has two entries.
abbrev pub IsUnique : List VectorClockEntry → Type 0
IsUnique [] = Unit
IsUnique (e ∷ es) = (contains e.region_id es ≡ false) × IsUnique es

pub get_in_absent : (r : ℕ) (es : List VectorClockEntry) → contains r es ≡ false → get_in es r ≡ 0
unfolding get_in
get_in_absent r [] h = refl
get_in_absent r (e ∷ es) h = ground (arith, get_in_absent r es)

pub get_in-set_in :
    (es : List VectorClockEntry) (k v r : ℕ)
    → get_in (set_in es k v) r ≡ (if k == r then v else get_in es r)
unfolding get_in set_in
get_in-set_in [] k v r = refl
get_in-set_in (e ∷ es) k v r = ground (arith, get_in-set_in es k v r)

contains-set_in :
    (es : List VectorClockEntry) (k v r : ℕ)
    → contains r (set_in es k v) ≡ (k == r) || contains r es
unfolding set_in
contains-set_in [] k v r = refl
contains-set_in (e ∷ es) k v r = ground (arith, contains-set_in es k v r)

pub set_in-IsUnique :
    (es : List VectorClockEntry) (k v : ℕ) → IsUnique es → IsUnique (set_in es k v)
unfolding set_in
set_in-IsUnique [] k v h = (refl, tt)
set_in-IsUnique (e ∷ es) k v h =
    ground (arith, set_in-IsUnique es k v h.1, contains-set_in es k v e.region_id)

abbrev pub any_entry : (ℕ → ℕ → Bool) → List VectorClockEntry → Bool
any_entry p [] = false
any_entry p (e ∷ es) = p e.region_id e.timestamp || any_entry p es

-- An entry that passes a test is what `get` finds at its region.
pub record Found (p : ℕ → ℕ → Bool) (es : List VectorClockEntry) : Type 0 where
  pub region : ℕ
  pub listed : contains region es ≡ true
  pub passes : p region (get_in es region) ≡ true

Found-head :
    (p : ℕ → ℕ → Bool) (e : VectorClockEntry) (es : List VectorClockEntry)
    → p e.region_id e.timestamp ≡ true
    → Found p (e ∷ es)
unfolding get_in
Found-head p e es h = record { region = e.region_id; listed = ground arith; passes = ground arith }

Found-tail :
    (p : ℕ → ℕ → Bool) (e : VectorClockEntry) (es : List VectorClockEntry)
    → contains e.region_id es ≡ false
    → Found p es
    → Found p (e ∷ es)
unfolding get_in
Found-tail p e es fresh f = record {
  region = f.region;
  listed = ground (arith, f.listed);
  passes = ground (arith, f.listed, f.passes);
}

pub any_entry-Found :
    (p : ℕ → ℕ → Bool) (es : List VectorClockEntry)
    → IsUnique es
    → any_entry p es ≡ true
    → Found p es
any_entry-Found p [] u h = cc
any_entry-Found p (e ∷ es) u h = elim (Bool-cases (p e.region_id e.timestamp)) [
  | inl here ↦ Found-head p e es here
  | inr later ↦ Found-tail p e es u.0 (any_entry-Found p es u.1 (ground arith))
]

-- A region with a positive timestamp has an entry.
pub any_entry_of_get_in :
    (p : ℕ → ℕ → Bool) (es : List VectorClockEntry) (r : ℕ)
    → 0 < get_in es r
    → p r (get_in es r) ≡ true
    → any_entry p es ≡ true
unfolding get_in
any_entry_of_get_in p [] r pos h = absurd (omega arith)
any_entry_of_get_in p (e ∷ es) r pos h = ground (arith, any_entry_of_get_in p es r)
