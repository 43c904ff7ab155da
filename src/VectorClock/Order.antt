-- ===== src/VectorClock/Order.antt =====
-- `compare` decides the causal order: the order of the clocks, region by region.
use archerdb.Base.{
  ℕ, ◌≤◌, ◌<◌, ◌≡◌, ◌↔◌, inl, inr, Bool, true, false, ◌||◌, List, [], ◌∷◌, arith, ltb, lt→ltb,
  ltb→lt, Bool-cases,
}
use archerdb.VectorClock.{
  VectorClockEntry, VectorClock, less_than, greater_than, equal, concurrent, get, Seen, observe,
  observe_self, observe_other, seen, compare,
}
use archerdb.VectorClock.Entries.{IsUnique, any_entry, any_entry-Found, any_entry_of_get_in}

-- Some region's timestamp in the first clock is smaller than in the second.
pub record Behind (a b : VectorClock) : Type 0 where
  pub region : ℕ
  pub smaller : get a region < get b region

-- At every region the first clock's timestamp is at most the second's.
abbrev pub AtMost : VectorClock → VectorClock → Type 0
AtMost a b = (r : ℕ) → get a r ≤ get b r

-- some entry of the clock's list is below, or above, what the other clock has at its region
abbrev below : List VectorClockEntry → VectorClock → Bool
below es c = any_entry (λ r t. ltb t (get c r)) es

abbrev above : List VectorClockEntry → VectorClock → Bool
above es c = any_entry (λ r t. ltb (get c r) t) es

flags-observe_self :
    (es : List VectorClockEntry) (c : VectorClock) (s : Seen)
    → ((observe_self es c s).less ≡ s.less || below es c)
      × ((observe_self es c s).greater ≡ s.greater || above es c)
unfolding observe_self
flags-observe_self [] c s = ground arith
flags-observe_self (e ∷ es) c s =
    ground (arith, flags-observe_self es c (observe e.timestamp (get c e.region_id) s))

flags-observe_other :
    (es : List VectorClockEntry) (c : VectorClock) (s : Seen)
    → ((observe_other es c s).less ≡ s.less || above es c)
      × ((observe_other es c s).greater ≡ s.greater || below es c)
unfolding observe_other
flags-observe_other [] c s = ground arith
flags-observe_other (e ∷ es) c s =
    ground (arith, flags-observe_other es c (observe (get c e.region_id) e.timestamp s))

flags-seen :
    (a b : VectorClock)
    → ((seen a b).less ≡ below a.entries b || above b.entries a)
      × ((seen a b).greater ≡ above a.entries b || below b.entries a)
unfolding seen
flags-seen a b =
    let start : Seen = record { less = false; greater = false } in
    ground (
      arith,
      flags-observe_self a.entries b start,
      flags-observe_other b.entries a (observe_self a.entries b start),
    )

greater-seen : (a b : VectorClock) → (seen a b).greater ≡ (seen b a).less
greater-seen a b = ground (arith, flags-seen a b, flags-seen b a)

-- Each clock lists no region twice.
abbrev pub AreUnique : VectorClock → VectorClock → Type 0
AreUnique a b = IsUnique a.entries × IsUnique b.entries

Behind-of_less : (a b : VectorClock) → AreUnique a b → (seen a b).less ≡ true → Behind a b
unfolding get
Behind-of_less a b u h = elim (Bool-cases (below a.entries b)) [
  | inl mine ↦
      let f = any_entry-Found (λ r t. ltb t (get b r)) a.entries u.0 mine in
      record { region = f.region; smaller = ltb→lt _ _ f.passes }
  | inr other ↦
      let f =
        any_entry-Found (λ r t. ltb (get a r) t) b.entries u.1 (ground (arith, flags-seen a b)) in
      record { region = f.region; smaller = ltb→lt _ _ f.passes }
]

less_of_lt : (a b : VectorClock) (r : ℕ) → get a r < get b r → (seen a b).less ≡ true
unfolding get
less_of_lt a b r h = ground (
  arith,
  flags-seen a b,
  any_entry_of_get_in (λ r t. ltb (get a r) t) b.entries r (omega arith) (lt→ltb _ _ h),
)

AtMost-of_less : (a b : VectorClock) → (seen a b).less ≡ false → AtMost b a
AtMost-of_less a b h r = elim (Bool-cases (ltb (get a r) (get b r))) [
  | inl behind ↦ cc (less_of_lt a b r (ltb→lt _ _ behind), h)
  | inr ahead ↦ ground arith
]

not_less_of_AtMost : (a b : VectorClock) → AreUnique a b → AtMost b a → (seen a b).less ≡ false
not_less_of_AtMost a b u le = elim (Bool-cases (seen a b).less) [
  | inl less ↦ let w = Behind-of_less a b u less in absurd (omega (arith, le w.region, w.smaller))
  | inr no_less ↦ no_less
]

-- Comparing the other way round turns the answer round.
pub compare-flip :
    (a b : VectorClock)
    → compare b a ≡ (elim (compare a b) [
      | less_than ↦ greater_than
      | greater_than ↦ less_than
      | equal ↦ equal
      | concurrent ↦ concurrent
    ])
unfolding compare
compare-flip a b = ground (arith, greater-seen a b, greater-seen b a)

-- For clocks that list no region twice, the answer is less-than exactly when the first clock is at
-- most the second at every region and smaller at some region.
pub compare-less_than_iff :
    (a b : VectorClock) → AreUnique a b → (compare a b ≡ less_than) ↔ (AtMost a b × Behind a b)
unfolding compare
compare-less_than_iff a b u = (
  λ h. (AtMost-of_less b a (ground (arith, greater-seen a b)), Behind-of_less a b u (ground arith)),
  λ (le, w). ground (
    arith,
    greater-seen a b,
    not_less_of_AtMost b a (u.1, u.0) le,
    less_of_lt a b w.region w.smaller,
  ),
)

-- For clocks that list no region twice, the answer is equal exactly when the two clocks have the
-- same timestamp at every region.
pub compare-equal_iff :
    (a b : VectorClock) → AreUnique a b → (compare a b ≡ equal) ↔ ((r : ℕ) → get a r ≡ get b r)
unfolding compare
compare-equal_iff a b u = (
  λ h r. omega (
    arith,
    AtMost-of_less a b (ground arith) r,
    AtMost-of_less b a (ground (arith, greater-seen a b)) r,
  ),
  λ same. ground (
    arith,
    greater-seen a b,
    not_less_of_AtMost a b u (λ r. omega (arith, same r)),
    not_less_of_AtMost b a (u.1, u.0) (λ r. omega (arith, same r)),
  ),
)

-- For clocks that list no region twice, the answer is concurrent exactly when each clock is smaller
-- than the other at some region.
pub compare-concurrent_iff :
    (a b : VectorClock) → AreUnique a b → (compare a b ≡ concurrent) ↔ (Behind a b × Behind b a)
unfolding compare
compare-concurrent_iff a b u = (
  λ h. (
    Behind-of_less a b u (ground arith),
    Behind-of_less b a (u.1, u.0) (ground (arith, greater-seen a b)),
  ),
  λ (w, v). ground (
    arith,
    greater-seen a b,
    less_of_lt a b w.region w.smaller,
    less_of_lt b a v.region v.smaller,
  ),
)

-- Happened-before is transitive on clocks that list no region twice.
pub compare_trans :
    (a b c : VectorClock)
    → IsUnique a.entries
    → IsUnique b.entries
    → IsUnique c.entries
    → compare a b ≡ less_than
    → compare b c ≡ less_than
    → compare a c ≡ less_than
compare_trans a b c ua ub uc h k =
    let (le, w) = (compare-less_than_iff a b (ua, ub)).0 h in
    let (le', _) = (compare-less_than_iff b c (ub, uc)).0 k in
    (compare-less_than_iff a c (ua, uc)).1 (
      λ r. omega (arith, le r, le' r),
      record { region = w.region; smaller = omega (arith, w.smaller, le' w.region) },
    )
