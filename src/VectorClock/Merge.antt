-- ===== src/VectorClock/Merge.antt =====
-- `merge` takes the larger timestamp at every region, and `increment` moves a clock forward.
use archerdb.Base.{ℕ, ◌+◌, ◌≤◌, max, ◌≡◌, List, [], ◌∷◌, arith, ◌==◌, if◌then◌else◌}
use archerdb.VectorClock.{
  VectorClockEntry, VectorClock, less_than, equal, get_in, get, set, increment, merge_entry,
  merge_entries, merge, compare,
}
use archerdb.VectorClock.Entries.{IsUnique, get_in_absent, get_in-set_in, set_in-IsUnique}
use archerdb.VectorClock.Order.{compare-less_than_iff, compare-equal_iff}

get-merge_entry :
    (now : ℕ) (e : VectorClockEntry) (c : VectorClock) (r : ℕ)
    → get (merge_entry now e c) r
      ≡ (if e.region_id == r then max (get c r) e.timestamp else get c r)
unfolding merge_entry get set
get-merge_entry now e c r = ground (arith, get_in-set_in c.entries e.region_id e.timestamp r)

merge_entry-IsUnique :
    (now : ℕ) (e : VectorClockEntry) (c : VectorClock)
    → IsUnique c.entries
    → IsUnique (merge_entry now e c).entries
unfolding merge_entry set
merge_entry-IsUnique now e c u = ground (arith, set_in-IsUnique c.entries e.region_id e.timestamp u)

merge_entries-IsUnique :
    (clock : ℕ → ℕ) (i : ℕ) (es : List VectorClockEntry) (c : VectorClock)
    → IsUnique c.entries
    → IsUnique (merge_entries clock i es c).entries
unfolding merge_entries
merge_entries-IsUnique clock i [] c u = u
merge_entries-IsUnique clock i (e ∷ es) c u =
    merge_entries-IsUnique clock (i + 1) es (merge_entry (clock i) e c)
      (merge_entry-IsUnique (clock i) e c u)

get-merge_entries :
    (clock : ℕ → ℕ) (i : ℕ) (es : List VectorClockEntry) (c : VectorClock) (r : ℕ)
    → IsUnique es
    → get (merge_entries clock i es c) r ≡ max (get c r) (get_in es r)
unfolding merge_entries get_in
get-merge_entries clock i [] c r u = omega arith
get-merge_entries clock i (e ∷ es) c r u = ground (
  arith,
  get-merge_entries clock (i + 1) es (merge_entry (clock i) e c) r u.1,
  get-merge_entry (clock i) e c r,
  get_in_absent r es,
)

entries-merge :
    (clock : ℕ → ℕ) (other c : VectorClock)
    → (merge clock other c).entries ≡ (merge_entries clock 0 other.entries c).entries
unfolding merge
entries-merge clock other c = ground arith

-- Merging a clock that lists no region twice gives, at every region, the larger of the two
-- timestamps; it keeps the merging clock free of repeated regions, and its wall time is not before
-- the other clock's.
pub merge_lem :
    (clock : ℕ → ℕ) (other c : VectorClock)
    → IsUnique other.entries
    → IsUnique c.entries
    → ((r : ℕ) → get (merge clock other c) r ≡ max (get c r) (get other r))
      × IsUnique (merge clock other c).entries
      × (other.wall_time_ns ≤ (merge clock other c).wall_time_ns)
unfolding merge get
merge_lem clock other c uo uc =
    let w = merge_entries clock 0 other.entries c in
    let u = merge_entries-IsUnique clock 0 other.entries c uc in
    (
      λ r. ground (arith, get-merge_entries clock 0 other.entries c r uo),
      ground (arith, u),
      ground arith,
    )

-- Merging two clocks either way round gives clocks that compare as equal, if neither lists a region
-- twice.
pub merge_comm :
    (clock clock' : ℕ → ℕ) (a b : VectorClock)
    → IsUnique a.entries
    → IsUnique b.entries
    → compare (merge clock b a) (merge clock' a b) ≡ equal
merge_comm clock clock' a b ua ub =
    let (at, u, _) = merge_lem clock b a ub ua in
    let (at', u', _) = merge_lem clock' a b ua ub in
    (compare-equal_iff (merge clock b a) (merge clock' a b) (u, u')).1
      (λ r. omega (arith, at r, at' r))

-- A local write moves a clock that lists no region twice strictly forward, and returns the new
-- timestamp of its region.
pub increment_lem :
    (now region : ℕ) (c : VectorClock)
    → IsUnique c.entries
    → (compare c (increment now region c).0 ≡ less_than)
      × (get (increment now region c).0 region ≡ (increment now region c).1)
      × IsUnique (increment now region c).0.entries
unfolding increment set get
increment_lem now region c u =
    let c' = (increment now region c).0 in
    let u' = set_in-IsUnique c.entries region (get c region + 1) u in
    let moved = get_in-set_in c.entries region (get c region + 1) in
    (
      (compare-less_than_iff c c' (u, u')).1 (
        λ r. ground (arith, moved r),
        record { region = region; smaller = ground (arith, moved region) },
      ),
      ground (arith, moved region),
      u',
    )
