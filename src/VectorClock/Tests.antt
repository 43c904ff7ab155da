-- ===== src/VectorClock/Tests.antt =====
-- Tests of the vector clocks, and their theorems at concrete clocks.
use archerdb.Base.{ℕ, ◌+◌, ◌≤◌, max, ◌≡◌, ◌↔◌, refl, true, [], ◌∷◌}
use archerdb.VectorClock.{VectorClock, less_than, concurrent, get, merge, compare, is_concurrent}
use archerdb.VectorClock.Entries.{IsUnique}
use archerdb.VectorClock.Order.{AtMost, Behind, compare-less_than_iff}
use archerdb.VectorClock.Merge.{merge_lem}

abbrev east : VectorClock
east = record {
  entries = record { region_id = 1; timestamp = 3 } ∷ record { region_id = 2; timestamp = 1 } ∷ [];
  wall_time_ns = 700;
}

abbrev west : VectorClock
west = record {
  entries = record { region_id = 2; timestamp = 4 } ∷ record { region_id = 1; timestamp = 2 } ∷ [];
  wall_time_ns = 900;
}

abbrev later : VectorClock
later = record {
  entries = record { region_id = 1; timestamp = 3 } ∷ record { region_id = 2; timestamp = 2 } ∷ [];
  wall_time_ns = 800;
}

abbrev latest : VectorClock
latest = record {
  entries = record { region_id = 2; timestamp = 5 } ∷ record { region_id = 1; timestamp = 3 } ∷ [];
  wall_time_ns = 800;
}

east-west : compare east west ≡ concurrent
unfolding compare
east-west = refl

east-later : compare east later ≡ less_than
unfolding compare
east-later = refl

later-latest : compare later latest ≡ less_than
unfolding compare
later-latest = refl

conflict : is_concurrent west east ≡ true
unfolding is_concurrent
conflict = refl

merged : get (merge (λ i. 1000 + i) west east) 2 ≡ 4
unfolding merge get
merged = refl

east-IsUnique : IsUnique east.entries
east-IsUnique = (refl, (refl, tt))

west-IsUnique : IsUnique west.entries
west-IsUnique = (refl, (refl, tt))

later-IsUnique : IsUnique later.entries
later-IsUnique = (refl, (refl, tt))

latest-IsUnique : IsUnique latest.entries
latest-IsUnique = (refl, (refl, tt))

compare-less_than_iff_example :
    (compare east later ≡ less_than) ↔ (AtMost east later × Behind east later)
compare-less_than_iff_example = compare-less_than_iff east later (east-IsUnique, later-IsUnique)

merge_lem_example :
    ((r : ℕ) → get (merge (λ i. 1000 + i) west east) r ≡ max (get east r) (get west r))
    × IsUnique (merge (λ i. 1000 + i) west east).entries
    × (900 ≤ (merge (λ i. 1000 + i) west east).wall_time_ns)
merge_lem_example = merge_lem (λ i. 1000 + i) west east west-IsUnique east-IsUnique
