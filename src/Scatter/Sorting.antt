-- ===== src/Scatter/Sorting.antt =====
-- The stable sort by timestamp, newest first, and the cut.
use archerdb.Base.{
  Some, All-map, ℕ, zero, suc, ◌≤◌, ◌<◌, ◌≢◌, sym, ◌⊎◌, inl, inr, List, [], ◌∷◌, All, arith, leb,
  leb→le, leb→gt, if_elim, take,
}
use archerdb.Types.{GeoEvent}
use archerdb.Scatter.{place, newest_first}
use archerdb.Scatter.Dedup.{Distinct}

abbrev pub Descending : List GeoEvent → Type 0
Descending [] = Unit
Descending (x ∷ xs) = All (λ y. y.timestamp ≤ x.timestamp) xs × Descending xs

place-All :
    (P : GeoEvent → Type 0) (event : GeoEvent) (xs : List GeoEvent)
    → P event
    → All P xs
    → All P (place event xs)
unfolding place
place-All P event [] p h = (p, tt)
place-All P event (x ∷ xs) p h =
    if_elim (All P) (leb x.timestamp event.timestamp) (λ t. (p, h))
      (λ t. (h.0, place-All P event xs p h.1))

place-Some-new :
    (P : GeoEvent → Type 0) (event : GeoEvent) (xs : List GeoEvent)
    → P event
    → Some P (place event xs)
unfolding place
place-Some-new P event [] p = inl p
place-Some-new P event (x ∷ xs) p =
    if_elim (Some P) (leb x.timestamp event.timestamp) (λ t. inl p)
      (λ t. inr (place-Some-new P event xs p))

place-Some-old :
    (P : GeoEvent → Type 0) (event : GeoEvent) (xs : List GeoEvent)
    → Some P xs
    → Some P (place event xs)
unfolding place
place-Some-old P event [] h = absurd h
place-Some-old P event (x ∷ xs) h =
    if_elim (Some P) (leb x.timestamp event.timestamp) (λ t. inr h)
      (λ t. elim h [ inl p ↦ inl p | inr q ↦ inr (place-Some-old P event xs q) ])

place-Distinct :
    (event : GeoEvent) (xs : List GeoEvent)
    → All (λ y. y.entity_id ≢ event.entity_id) xs
    → Distinct xs
    → Distinct (place event xs)
unfolding place
place-Distinct event [] h d = (tt, tt)
place-Distinct event (x ∷ xs) h d =
    if_elim Distinct (leb x.timestamp event.timestamp) (λ t. (h, d))
      (λ t. (
        place-All (λ y. y.entity_id ≢ x.entity_id) event xs (λ e. h.0 (sym e)) d.0,
        place-Distinct event xs h.1 d.1,
      ))

place-Descending :
    (event : GeoEvent) (xs : List GeoEvent) → Descending xs → Descending (place event xs)
unfolding place
place-Descending event [] d = (tt, tt)
place-Descending event (x ∷ xs) d =
    if_elim Descending (leb x.timestamp event.timestamp)
      (λ t.
        let le : x.timestamp ≤ event.timestamp = leb→le _ _ t in
        ((le, All-map (λ y. y.timestamp ≤ x.timestamp) _ xs (λ y h. omega arith) d.0), d))
      (λ t.
        let lt : event.timestamp < x.timestamp = leb→gt _ _ t in
        (
          place-All (λ y. y.timestamp ≤ x.timestamp) event xs (omega arith) d.0,
          place-Descending event xs d.1,
        ))

pub newest_first-All :
    (P : GeoEvent → Type 0) (xs : List GeoEvent) → All P xs → All P (newest_first xs)
unfolding newest_first
newest_first-All P [] h = tt
newest_first-All P (x ∷ xs) h = place-All P x (newest_first xs) h.0 (newest_first-All P xs h.1)

pub newest_first-Some :
    (P : GeoEvent → Type 0) (xs : List GeoEvent) → Some P xs → Some P (newest_first xs)
unfolding newest_first
newest_first-Some P [] h = h
newest_first-Some P (x ∷ xs) (inl p) = place-Some-new P x (newest_first xs) p
newest_first-Some P (x ∷ xs) (inr h) =
    place-Some-old P x (newest_first xs) (newest_first-Some P xs h)

pub newest_first-Distinct : (xs : List GeoEvent) → Distinct xs → Distinct (newest_first xs)
unfolding newest_first
newest_first-Distinct [] d = tt
newest_first-Distinct (x ∷ xs) d =
    place-Distinct x (newest_first xs) (newest_first-All (λ y. y.entity_id ≢ x.entity_id) xs d.0)
      (newest_first-Distinct xs d.1)

pub newest_first-Descending : (xs : List GeoEvent) → Descending (newest_first xs)
unfolding newest_first
newest_first-Descending [] = tt
newest_first-Descending (x ∷ xs) = place-Descending x (newest_first xs) (newest_first-Descending xs)

pub take-All : (P : GeoEvent → Type 0) (n : ℕ) (xs : List GeoEvent) → All P xs → All P (take n xs)
take-All P zero xs h = tt
take-All P (suc n) [] h = tt
take-All P (suc n) (x ∷ xs) h = (h.0, take-All P n xs h.1)

pub take-Distinct : (n : ℕ) (xs : List GeoEvent) → Distinct xs → Distinct (take n xs)
take-Distinct zero xs d = tt
take-Distinct (suc n) [] d = tt
take-Distinct (suc n) (x ∷ xs) d = (take-All _ n xs d.0, take-Distinct n xs d.1)

pub take-Descending : (n : ℕ) (xs : List GeoEvent) → Descending xs → Descending (take n xs)
take-Descending zero xs d = tt
take-Descending (suc n) [] d = tt
take-Descending (suc n) (x ∷ xs) d = (take-All _ n xs d.0, take-Descending n xs d.1)

older_head :
    (P : GeoEvent → Type 0) (t : ℕ) (x : GeoEvent) (xs : List GeoEvent)
    → All (λ y. y.timestamp ≤ x.timestamp) xs
    → Some (λ e. P e × t ≤ e.timestamp) xs
    → t ≤ x.timestamp
older_head P t x [] below h = absurd h
older_head P t x (y ∷ xs) below (inl p) = let l = below.0 in let m = p.1 in omega arith
older_head P t x (y ∷ xs) below (inr h) = older_head P t x xs below.1 h

-- What is found in the list is found before the cut, or no event before the cut is older than it.
pub take-Some :
    (P : GeoEvent → Type 0) (t n : ℕ) (xs : List GeoEvent)
    → Descending xs
    → Some (λ e. P e × t ≤ e.timestamp) xs
    → Some P (take n xs) ⊎ All (λ e. t ≤ e.timestamp) (take n xs)
take-Some P t zero xs d h = inr tt
take-Some P t (suc n) [] d h = inr tt
take-Some P t (suc n) (x ∷ xs) d (inl p) = inl (inl p.0)
take-Some P t (suc n) (x ∷ xs) d (inr h) = elim (take-Some P t n xs d.1 h) [
  | inl found ↦ inl (inr found)
  | inr older ↦ inr (older_head P t x xs d.0 h, older)
]
