-- ===== src/Native/Missing.antt =====
-- The positions of the ids that a server has no event for.
use archerdb.Base.{
  ℕ, ◌+◌, ◌≤◌, ◌<◌, ◌≡◌, ◌≢◌, refl, ◌∙◌, inl, inr, false, List, [], ◌∷◌, Option, none, some,
  Option-cases, length, ==_ne, ==_refl, arith, All,
}
use archerdb.Types.{GeoEvent}
use archerdb.Query.{is_in}
use archerdb.Query.Lookup.{is_missing, events_of, Marks, IsReply}
use archerdb.Native.Layout.{IsStored}

module _ (found : ℕ → Option GeoEvent) where
  abbrev pub with_position : ℕ → Option GeoEvent → List ℕ → List ℕ
  with_position i none indices = i ∷ indices
  with_position i (some e) indices = indices

  -- the positions, from `i` on, of the ids that have no event
  abbrev pub missing : ℕ → List ℕ → List ℕ
  missing i [] = []
  missing i (id ∷ ids) = with_position i (found id) (missing (i + 1) ids)

  is_in-other :
      (i k : ℕ) (o : Option GeoEvent) (indices : List ℕ)
      → i ≢ k
      → is_in k (with_position i o indices) ≡ is_in k indices
  is_in-other i k none indices ne = rw (==_ne i k ne) refl
  is_in-other i k (some e) indices ne = refl

  is_in-own :
      (i : ℕ) (o : Option GeoEvent) (indices : List ℕ)
      → is_in i indices ≡ false
      → is_in i (with_position i o indices) ≡ is_missing found o
  is_in-own i none indices h = rw (==_refl i) refl
  is_in-own i (some e) indices h = h

  is_in-missing_before : (i k : ℕ) (ids : List ℕ) → k < i → is_in k (missing i ids) ≡ false
  is_in-missing_before i k [] h = refl
  is_in-missing_before i k (id ∷ ids) h =
      is_in-other i k (found id) (missing (i + 1) ids) (λ e. absurd (omega (arith, e, h)))
      ∙ is_in-missing_before (i + 1) k ids (omega (arith, h))

  -- indices that agree with the positions from `i` on
  Marks-missing :
      (i : ℕ) (ids not_found : List ℕ)
      → ((k : ℕ) → i ≤ k → is_in k not_found ≡ is_in k (missing i ids))
      → Marks found i ids not_found
  Marks-missing i [] not_found agree = tt
  Marks-missing i (id ∷ ids) not_found agree =
      let rest = missing (i + 1) ids in
      (
        agree i (omega arith)
            ∙ is_in-own i (found id) rest (is_in-missing_before (i + 1) i ids (omega arith)),
        Marks-missing (i + 1) ids not_found (λ k h.
            agree k (omega (arith, h))
            ∙ is_in-other i k (found id) rest (λ e. absurd (omega (arith, e, h)))),
      )

  pub missing-IsReply :
      (ids : List ℕ)
      → IsReply found ids
          (record { not_found_indices = missing 0 ids; events = events_of found ids })
  missing-IsReply ids = record {
    marked = Marks-missing 0 ids (missing 0 ids) (λ k h. refl);
    found_events = refl;
  }

  pub counts :
      (i : ℕ) (ids : List ℕ) → length (events_of found ids) + length (missing i ids) ≡ length ids
  counts i [] = refl
  counts i (id ∷ ids) = elim (Option-cases (found id)) [
    | inl e ↦ rw e (omega (arith, counts (i + 1) ids))
    | inr (x, e) ↦ rw e (omega (arith, counts (i + 1) ids))
  ]

  -- the positions fit 16 bits
  pub missing-small :
      (i : ℕ) (ids : List ℕ) → i + length ids ≤ 65_536 → All (λ k. k < 65_536) (missing i ids)
  missing-small i [] h = tt
  missing-small i (id ∷ ids) h =
      let rest = missing-small (i + 1) ids (omega (arith, h)) in
      elim (Option-cases (found id)) [
        | inl e ↦ rw e (omega (arith, h), rest)
        | inr (x, e) ↦ rw e rest
      ]

  -- what the server holds can be sent
  abbrev pub Holds : Type 0
  Holds = (id : ℕ) (e : GeoEvent) → found id ≡ some e → IsStored e

  pub events_of-IsStored : Holds → (ids : List ℕ) → All IsStored (events_of found ids)
  events_of-IsStored holds [] = tt
  events_of-IsStored holds (id ∷ ids) = elim (Option-cases (found id)) [
    | inl e ↦ rw e (events_of-IsStored holds ids)
    | inr (x, e) ↦ rw e (holds id x e, events_of-IsStored holds ids)
  ]
