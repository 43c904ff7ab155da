-- ===== src/VectorClock.antt =====
-- Vector clocks of active-active replication (src/clients/python/src/archerdb/types.py,
-- `VectorClock`). Region ids and timestamps are natural numbers. A method that reads the wall clock
-- takes the reading; `merge` takes one for each entry that it visits, by the entry's position.
mod Entries
pub mod Order
pub mod Merge
mod Tests
use archerdb.Base.{ℕ, ◌+◌, Bool, true, false, List, [], ◌∷◌, ltb, ◌==◌, if◌then◌else◌}

pub record VectorClockEntry : Type 0 where
  pub region_id : ℕ
  pub timestamp : ℕ

pub record VectorClock : Type 0 where
  pub entries : List VectorClockEntry
  pub wall_time_ns : ℕ

pub data VectorClockComparison : Type 0 where
  less_than greater_than equal concurrent : VectorClockComparison

-- the loop of `get`
unfoldable pub get_in : List VectorClockEntry → ℕ → ℕ
get_in [] region_id = 0
get_in (entry ∷ entries) region_id =
    if entry.region_id == region_id then entry.timestamp else get_in entries region_id

unfoldable pub get : VectorClock → ℕ → ℕ
unfolding get_in
get c region_id = get_in c.entries region_id

-- the loop of `set`: the first entry of the region is overwritten, or a new one is appended
unfoldable pub set_in : List VectorClockEntry → ℕ → ℕ → List VectorClockEntry
set_in [] region_id timestamp = record { region_id = region_id; timestamp = timestamp } ∷ []
set_in (entry ∷ entries) region_id timestamp =
    if entry.region_id == region_id
    then record entry { timestamp = timestamp } ∷ entries
    else entry ∷ set_in entries region_id timestamp

unfoldable pub set : ℕ → ℕ → ℕ → VectorClock → VectorClock
unfolding set_in
set now region_id timestamp c = record {
  entries = set_in c.entries region_id timestamp;
  wall_time_ns = now;
}

unfoldable pub increment : ℕ → ℕ → VectorClock → VectorClock × ℕ
unfolding set get
increment now region_id c = let new_ts = get c region_id + 1 in (set now region_id new_ts c, new_ts)

-- the body of the loop of `merge`
unfoldable pub merge_entry : ℕ → VectorClockEntry → VectorClock → VectorClock
unfolding set get
merge_entry now entry c =
    if ltb (get c entry.region_id) entry.timestamp
    then set now entry.region_id entry.timestamp c
    else c

unfoldable pub merge_entries : (ℕ → ℕ) → ℕ → List VectorClockEntry → VectorClock → VectorClock
unfolding merge_entry
merge_entries clock i [] c = c
merge_entries clock i (entry ∷ entries) c =
    merge_entries clock (i + 1) entries (merge_entry (clock i) entry c)

unfoldable pub merge : (ℕ → ℕ) → VectorClock → VectorClock → VectorClock
unfolding merge_entries
merge clock other c =
    let merged = merge_entries clock 0 other.entries c in
    if ltb merged.wall_time_ns other.wall_time_ns
    then record merged { wall_time_ns = other.wall_time_ns }
    else merged

-- the locals `self_less` and `self_greater` of `compare`
pub record Seen : Type 0 where
  pub less : Bool
  pub greater : Bool

unfoldable pub observe : ℕ → ℕ → Seen → Seen
observe mine theirs s =
    if ltb mine theirs
    then record s { less = true }
    else if ltb theirs mine
    then record s { greater = true }
    else s

-- the loop over the entries of `self`, and the loop over those of `other`
unfoldable pub observe_self : List VectorClockEntry → VectorClock → Seen → Seen
unfolding observe get
observe_self [] other s = s
observe_self (entry ∷ entries) other s =
    observe_self entries other (observe entry.timestamp (get other entry.region_id) s)

unfoldable pub observe_other : List VectorClockEntry → VectorClock → Seen → Seen
unfolding observe get
observe_other [] self s = s
observe_other (entry ∷ entries) self s =
    observe_other entries self (observe (get self entry.region_id) entry.timestamp s)

unfoldable pub seen : VectorClock → VectorClock → Seen
unfolding observe_self observe_other
seen self other =
    observe_other other.entries self
      (observe_self self.entries other (record { less = false; greater = false }))

unfoldable pub verdict : Bool → Bool → VectorClockComparison
verdict true true = concurrent
verdict true false = less_than
verdict false true = greater_than
verdict false false = equal

unfoldable pub compare : VectorClock → VectorClock → VectorClockComparison
unfolding seen verdict
compare self other = let s = seen self other in verdict s.less s.greater

unfoldable pub is_concurrent : VectorClock → VectorClock → Bool
unfolding compare
is_concurrent self other = elim (compare self other) [ concurrent ↦ true | _ ↦ false ]
