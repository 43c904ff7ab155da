-- ===== src/GeoRouting/Choice.antt =====
-- What the selector chooses.
use archerdb.Base.{
  ℕ, ◌≡◌, refl, sym, ap, ◌∙◌, ◌⊎◌, inl, inr, true, false, List, [], ◌∷◌, Option, none, some, All,
  Some, All-listed, All-at, All-map, Bool-cases, true≢false, arith,
}
use mathlib.Core.Option.{some-injective}
use archerdb.Base.Text.{same_text, same_text→eq, same_text_refl, truthy, listed_in}
use archerdb.GeoRouting.{RegionInfo, RegionLocation}
use archerdb.GeoRouting.Selector.{
  RegionSelector, is_usable, is_region_healthy, keep, find_named, preferred_in, select_by_latency,
  preferred_or_fastest, select_among, select, chosen,
}
use archerdb.GeoRouting.Measured.{keep-All, keep-none}
use archerdb.GeoRouting.Rank.{
  Ranked, IsPreferred, Reason, preferred, by_rank, Chosen, latency-Ranked,
}

-- The preferred region is looked for by its name.
pub find_named-cases :
    (name : List ℕ) (xs : List RegionInfo)
    → ((find_named name xs ≡ none) × All (λ r. same_text r.name name ≡ false) xs)
      ⊎ ((r : RegionInfo) × (find_named name xs ≡ some r) × Some (λ x. x ≡ r) xs × (r.name ≡ name))
find_named-cases name [] = inl (refl, tt)
find_named-cases name (x ∷ xs) = elim (Bool-cases (same_text x.name name)) [
  | inl same ↦ inr (x, rw same refl, inl refl, same_text→eq x.name name same)
  | inr other ↦ elim (find_named-cases name xs) [
    | inl (e, others) ↦ inl (rw other e, (other, others))
    | inr (r, e, listed, named) ↦ inr (r, rw other e, inr listed, named)
  ]
]

All-every : {P : RegionInfo → Type 0} → ((r : RegionInfo) → P r) → (xs : List RegionInfo) → All P xs
All-every f [] = tt
All-every f (x ∷ xs) = (f x, All-every f xs)

module _ (distance : RegionLocation → RegionLocation → ℕ) (s : RegionSelector)
    (usable : List RegionInfo) where
  Ranked-Chosen :
      (r : Option RegionInfo)
      → All (λ x. IsPreferred distance s usable x → ⊥) usable
      → Ranked distance s usable r
      → Chosen distance s usable (chosen r s).1
  Ranked-Chosen none others h = h
  Ranked-Chosen (some r) others h = (h.0, by_rank others h.1)

  otherwise-Chosen :
      All (λ r. IsPreferred distance s usable r → ⊥) usable
      → Chosen distance s usable (preferred_or_fastest distance none s usable).1
  otherwise-Chosen others =
      Ranked-Chosen (select_by_latency distance s usable) others (latency-Ranked distance s usable)

  preferred-Chosen :
      (name : Option (List ℕ))
      → s.config.preferred_region ≡ name
      → Chosen distance s usable
          (preferred_or_fastest distance (preferred_in name usable) s usable).1
  preferred-Chosen none e = otherwise-Chosen (All-every (λ r p. let k = sym e ∙ p.0 in cc) usable)
  preferred-Chosen (some []) e = otherwise-Chosen (
      All-every (λ r p. true≢false (sym p.1 ∙ ap truthy (some-injective r.name [] (sym p.0 ∙ e))))
        usable)
  preferred-Chosen (some (c ∷ cs)) e = elim (find_named-cases (c ∷ cs) usable) [
    | inl (missing, others) ↦ rw missing (
        otherwise-Chosen (
          All-map _ _ usable
            (λ r other p. true≢false (
              sym (same_text_refl (c ∷ cs))
              ∙ ap (λ n. same_text n (c ∷ cs)) (some-injective (c ∷ cs) r.name (sym e ∙ p.0))
              ∙ other))
            others))
    | inr (r, found, listed, named) ↦
        rw found (listed, preferred (e ∙ ap some (sym named), rw named refl))
  ]

module _ (distance : RegionLocation → RegionLocation → ℕ) (regions : List RegionInfo)
    (exclude : List (List ℕ)) (s : RegionSelector) where
  abbrev pub usable_of : List RegionInfo
  usable_of = keep (is_usable s.prober exclude) regions

  -- What the selector may answer: a region that was offered, that discovery and the probes call
  -- healthy and that is not excluded, with the reason for it; or no region, where there is none.
  abbrev pub IsAnswer : Option RegionInfo → Type 0
  IsAnswer none = All (λ r. is_usable s.prober exclude r ≡ false) regions
  IsAnswer (some r) =
      Some (λ x. x ≡ r) regions
      × (r.healthy ≡ true)
      × (listed_in r.name exclude ≡ false)
      × (is_region_healthy s.prober r.name ≡ true)
      × Reason distance s usable_of r

  usable-parts :
      (r : RegionInfo)
      → is_usable s.prober exclude r ≡ true
      → (r.healthy ≡ true)
        × (listed_in r.name exclude ≡ false)
        × (is_region_healthy s.prober r.name ≡ true)
  unfolding is_usable
  usable-parts r h = ground arith

  answer : (r : Option RegionInfo) → Chosen distance s usable_of r → IsAnswer r
  answer none h = keep-none (is_usable s.prober exclude) regions h
  answer (some r) h =
      let facts =
        All-at (λ x. Some (λ y. y ≡ x) regions × (is_usable s.prober exclude x ≡ true)) r usable_of
          (keep-All (is_usable s.prober exclude) (λ x. Some (λ y. y ≡ x) regions) regions
            (All-listed regions))
          h.0 in
      let parts = usable-parts r facts.1 in (facts.0, parts.0, parts.1, parts.2, h.1)

  among : (xs : List RegionInfo) → Chosen distance s xs (select_among distance s xs).1
  among [] = refl
  among (x ∷ xs) = preferred-Chosen distance s (x ∷ xs) s.config.preferred_region refl

  -- The selector answers no region just where none is usable. A region that it answers is one of
  -- those offered, healthy for discovery and for the probes, not excluded, and there is a reason for
  -- it among the usable ones: it is the preferred one, or none has a lower average round trip, or
  -- nothing was measured and none is nearer, or the client's place is unknown too and it is first.
  pub select-IsAnswer : IsAnswer (select distance regions exclude s).1
  unfolding select
  select-IsAnswer = answer (select_among distance s usable_of).1 (among usable_of)
