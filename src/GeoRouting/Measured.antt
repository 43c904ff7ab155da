-- ===== src/GeoRouting/Measured.antt =====
-- The lists that the selector goes through: the filter of usable regions, the regions with an
-- average round trip, and the distances.
use archerdb.Base.{
  ℕ, suc, ◌≡◌, refl, sym, length, inl, inr, Bool, true, false, List, [], ◌∷◌, Option, none, some,
  All, All-map, ap, Bool-cases, Option-cases, if_elim, arith,
}
use mathlib.Core.Option.{some-injective}
use archerdb.Base.Text.{find}
use archerdb.GeoRouting.{
  RegionInfo, RegionLocation, RegionLatencyStats, LatencyProber, Average, average_of,
  get_average_rtt,
}
use archerdb.GeoRouting.Selector.{keep, average_in, with_average, measured, distances}
use archerdb.GeoRouting.Least.{IsMeasured}

module _ (test : RegionInfo → Bool) where
  pub keep-All :
      (P : RegionInfo → Type 0) (xs : List RegionInfo)
      → All P xs
      → All (λ x. P x × (test x ≡ true)) (keep test xs)
  keep-All P [] h = tt
  keep-All P (x ∷ xs) h = elim (Bool-cases (test x)) [
    | inl passes ↦ rw passes ((h.0, passes), keep-All P xs h.1)
    | inr fails ↦ rw fails (keep-All P xs h.1)
  ]

  pub keep-none : (xs : List RegionInfo) → keep test xs ≡ [] → All (λ x. test x ≡ false) xs
  keep-none [] h = tt
  keep-none (x ∷ xs) h =
      if_elim (λ kept. kept ≡ [] → All (λ y. test y ≡ false) (x ∷ xs)) (test x) (λ passes e. cc)
        (λ fails e. (fails, keep-none xs e)) h

abbrev counted : Option Average → ℕ
counted none = 0
counted (some a) = a.count

average_of-IsMeasured : (xs : List ℕ) (a : Average) → average_of xs ≡ some a → IsMeasured a
average_of-IsMeasured [] a h = ground arith
average_of-IsMeasured (x ∷ xs) a h =
    let e : suc (length xs) ≡ a.count = ap counted h in omega (arith, e)

All-unit : {A : Type 0} (xs : List A) → All {0, 0} (λ x. Unit) xs
All-unit [] = tt
All-unit (x ∷ xs) = (tt, All-unit xs)

module _ (prober : LatencyProber) where
  -- the average round trip of a region, where it has samples
  abbrev pub rtt_of : RegionInfo → Option Average
  rtt_of r = average_in (find r.name prober.stats)

  average_in-IsMeasured :
      (known : Option RegionLatencyStats) (a : Average) → average_in known ≡ some a → IsMeasured a
  unfolding get_average_rtt
  average_in-IsMeasured none a h = ground arith
  average_in-IsMeasured (some stats) a h = average_of-IsMeasured stats.samples a h

  -- each pair is a region and its average
  pub measured-All :
      (P : RegionInfo → Type 0) (xs : List RegionInfo)
      → All P xs
      → All (λ p. P p.0 × (rtt_of p.0 ≡ some p.1)) (measured prober xs)
  unfolding measured
  measured-All P [] h = tt
  measured-All P (r ∷ rs) h = elim (Option-cases (rtt_of r)) [
    | inl no_samples ↦ rw no_samples (measured-All P rs h.1)
    | inr (a, e) ↦ rw e ((h.0, e), measured-All P rs h.1)
  ]

  pub measured-IsMeasured : (xs : List RegionInfo) → All (λ p. IsMeasured p.1) (measured prober xs)
  measured-IsMeasured xs =
      All-map (λ p. Unit × (rtt_of p.0 ≡ some p.1)) (λ p. IsMeasured p.1) (measured prober xs)
        (λ p known. average_in-IsMeasured (find p.0.name prober.stats) p.1 known.1)
        (measured-All (λ r. Unit) xs (All-unit xs))

  with_average-each :
      (Q : Average → Type 0) (T : Type 0) (r : RegionInfo) (known : Option Average)
      (rest : List (RegionInfo × Average))
      → (All (λ p. Q p.1) rest → T)
      → All (λ p. Q p.1) (with_average r known rest)
      → ((b : Average) → known ≡ some b → Q b) × T
  with_average-each Q T r none rest f h = (λ b e. ground arith, f h)
  with_average-each Q T r (some a) rest f h = (λ b e. rw (sym (some-injective a b e)) h.0, f h.1)

  -- what holds of the averages in the list holds of every region that has one
  pub measured-each :
      (Q : Average → Type 0) (xs : List RegionInfo)
      → All (λ p. Q p.1) (measured prober xs)
      → All (λ r. (b : Average) → rtt_of r ≡ some b → Q b) xs
  unfolding measured
  measured-each Q [] h = tt
  measured-each Q (r ∷ rs) h =
      with_average-each Q (All (λ x. (b : Average) → rtt_of x ≡ some b → Q b) rs) r (rtt_of r)
        (measured prober rs) (measured-each Q rs) h

module _ (distance : RegionLocation → RegionLocation → ℕ) (here : RegionLocation) where
  pub distances-All :
      (P : RegionInfo → Type 0) (xs : List RegionInfo)
      → All P xs
      → All (λ p. P p.0 × (p.1 ≡ distance here p.0.location)) (distances distance here xs)
  distances-All P [] h = tt
  distances-All P (r ∷ rs) h = ((h.0, refl), distances-All P rs h.1)

  pub distances-each :
      (Q : ℕ → Type 0) (xs : List RegionInfo)
      → All (λ p. Q p.1) (distances distance here xs)
      → All (λ r. Q (distance here r.location)) xs
  distances-each Q [] h = tt
  distances-each Q (r ∷ rs) h = (h.0, distances-each Q rs h.1)
