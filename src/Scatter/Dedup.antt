-- ===== src/Scatter/Dedup.antt =====
-- The dictionary of the newest event of each entity.
use archerdb.Base.{
  ℕ, ◌≤◌, ◌<◌, ◌≡◌, ◌≢◌, refl, ◌∙◌, sym, inl, inr, false, List, [], ◌∷◌, ◌++◌, All, All-append,
  All-map, Some, Some-append_left, Some-append_right, Some-none, arith, ltb, ◌==◌, ==_iff,
  true≢false, if_elim, ltb→lt, ltb→ge,
}
use mathlib.Core.List.{append_assoc, append-nil}
use archerdb.Types.{GeoEvent}
use archerdb.Scatter.{note, note_all}

-- No two events have one entity.
abbrev pub Distinct : List GeoEvent → Type 0
Distinct [] = Unit
Distinct (x ∷ xs) = All (λ y. y.entity_id ≢ x.entity_id) xs × Distinct xs

-- The event is one of these, and none of the same entity is newer.
pub record IsNewest (input : List GeoEvent) (event : GeoEvent) : Type 0 where
  pub occurs : Some (λ x. x ≡ event) input
  pub newest : All (λ x. x.entity_id ≡ event.entity_id → x.timestamp ≤ event.timestamp) input

pub record Covers (input seen : List GeoEvent) : Type 0 where
  pub once : Distinct seen
  pub latest : All (IsNewest input) seen
  pub complete : All (λ x. Some (λ e. e.entity_id ≡ x.entity_id) seen) input

module _ (event : GeoEvent) where
  note_fresh :
      (k : ℕ) (seen : List GeoEvent)
      → event.entity_id ≢ k
      → All (λ y. y.entity_id ≢ k) seen
      → All (λ y. y.entity_id ≢ k) (note seen event)
  unfolding note
  note_fresh k [] ne h = (ne, tt)
  note_fresh k (x ∷ seen) ne h =
      if_elim (All (λ (y : GeoEvent). y.entity_id ≢ k)) (x.entity_id == event.entity_id)
        (λ same. (
          if_elim (λ (y : GeoEvent). y.entity_id ≢ k) (ltb x.timestamp event.timestamp) (λ t. ne)
              (λ t. h.0),
          h.1,
        ))
        (λ differ. (h.0, note_fresh k seen ne h.1))

  different :
      (x : GeoEvent) → (x.entity_id == event.entity_id) ≡ false → event.entity_id ≢ x.entity_id
  different x differ e = true≢false (sym ((==_iff _ _).1 (sym e)) ∙ differ)

  note-Distinct : (seen : List GeoEvent) → Distinct seen → Distinct (note seen event)
  unfolding note
  note-Distinct [] d = (tt, tt)
  note-Distinct (x ∷ seen) d =
      if_elim Distinct (x.entity_id == event.entity_id)
        (λ same.
          if_elim (λ (e : GeoEvent). Distinct (e ∷ seen)) (ltb x.timestamp event.timestamp)
            (λ t. (
              All-map _ _ seen
                  (λ y ne e. ne (e ∙ sym ((==_iff x.entity_id event.entity_id).0 same))) d.0,
              d.1,
            ))
            (λ t. d))
        (λ differ. (note_fresh x.entity_id seen (different x differ) d.0, note-Distinct seen d.1))

  keep_others :
      (Q R : GeoEvent → Type 0) (seen : List GeoEvent)
      → ((x : GeoEvent)
          → Q x
          → (x.entity_id ≡ event.entity_id → event.timestamp ≤ x.timestamp)
          → R x)
      → All (λ x. x.entity_id ≢ event.entity_id) seen
      → All Q seen
      → All R seen
  keep_others Q R [] keep ne q = tt
  keep_others Q R (x ∷ seen) keep ne q =
      (keep x q.0 (λ e. absurd (ne.0 e)), keep_others Q R seen keep ne.1 q.1)

  -- What holds of each old event that is kept and of the new one holds of all.
  note-All :
      (Q R : GeoEvent → Type 0) (seen : List GeoEvent)
      → ((x : GeoEvent)
          → Q x
          → (x.entity_id ≡ event.entity_id → event.timestamp ≤ x.timestamp)
          → R x)
      → ((x : GeoEvent)
          → Q x
          → x.entity_id ≡ event.entity_id
          → x.timestamp < event.timestamp
          → R event)
      → (All (λ x. x.entity_id ≢ event.entity_id) seen → R event)
      → Distinct seen
      → All Q seen
      → All R (note seen event)
  unfolding note
  note-All Q R [] keep newer new d q = (new tt, tt)
  note-All Q R (x ∷ seen) keep newer new d q =
      if_elim (All R) (x.entity_id == event.entity_id)
        (λ same.
          let eq : x.entity_id ≡ event.entity_id = (==_iff x.entity_id event.entity_id).0 same in
          (
            if_elim R (ltb x.timestamp event.timestamp) (λ t. newer x q.0 eq (ltb→lt _ _ t))
                (λ t. keep x q.0 (λ e. ltb→ge _ _ t)),
            keep_others Q R seen keep (All-map _ _ seen (λ y ne e. ne (e ∙ sym eq)) d.0) q.1,
          ))
        (λ differ.
          let ne : x.entity_id ≢ event.entity_id = λ e. different x differ (sym e) in
          (
            keep x q.0 (λ e. absurd (ne e)),
            note-All Q R seen keep newer (λ others. new (ne, others)) d.1 q.1,
          ))

  -- the entities stay, and that of the new event is among them
  note-stays :
      (k : ℕ) (seen : List GeoEvent)
      → Some (λ e. e.entity_id ≡ k) seen
      → Some (λ e. e.entity_id ≡ k) (note seen event)
  unfolding note
  note-stays k [] h = absurd h
  note-stays k (x ∷ seen) h =
      if_elim (Some (λ (e : GeoEvent). e.entity_id ≡ k)) (x.entity_id == event.entity_id)
        (λ same.
          let eq : x.entity_id ≡ event.entity_id = (==_iff x.entity_id event.entity_id).0 same in
          elim h [
            | inl here ↦ inl (
                if_elim (λ (e : GeoEvent). e.entity_id ≡ k) (ltb x.timestamp event.timestamp)
                  (λ t. sym eq ∙ here) (λ t. here))
            | inr there ↦ inr there
          ])
        (λ differ. elim h [ inl here ↦ inl here | inr there ↦ inr (note-stays k seen there) ])

  note-present :
      (seen : List GeoEvent) → Some (λ e. e.entity_id ≡ event.entity_id) (note seen event)
  unfolding note
  note-present [] = inl refl
  note-present (x ∷ seen) =
      if_elim (Some (λ (e : GeoEvent). e.entity_id ≡ event.entity_id))
        (x.entity_id == event.entity_id)
        (λ same. inl (
          if_elim (λ (e : GeoEvent). e.entity_id ≡ event.entity_id)
            (ltb x.timestamp event.timestamp) (λ t. refl)
            (λ t. (==_iff x.entity_id event.entity_id).0 same)))
        (λ differ. inr (note-present seen))

  -- an event of another entity in the dictionary is no event of this one
  absent :
      (input seen : List GeoEvent)
      → All (λ x. Some (λ e. e.entity_id ≡ x.entity_id) seen) input
      → All (λ x. x.entity_id ≢ event.entity_id) seen
      → All (λ x. x.entity_id ≢ event.entity_id) input
  absent input seen complete others =
      All-map _ _ input
        (λ x h e.
          Some-none (λ y. y.entity_id ≡ x.entity_id) seen
            (All-map _ _ seen (λ y ne same. ne (same ∙ e)) others) h)
        complete

  note-Covers :
      (input seen : List GeoEvent)
      → Covers input seen
      → Covers (input ++ event ∷ []) (note seen event)
  note-Covers input seen c = record {
    once = note-Distinct seen c.once;
    latest =
        note-All (IsNewest input) (IsNewest (input ++ event ∷ [])) seen
          (λ x q older. record {
            occurs = Some-append_left _ input (event ∷ []) q.occurs;
            newest = All-append _ input (event ∷ []) q.newest ((λ e. older (sym e)), tt);
          })
          (λ x q same newer. record {
            occurs = Some-append_right _ input (event ∷ []) (inl refl);
            newest =
                All-append _ input (event ∷ [])
                  (All-map _ _ input (λ y le e. let l = le (e ∙ sym same) in omega arith) q.newest)
                  ((λ e. omega arith), tt);
          })
          (λ others. record {
            occurs = Some-append_right _ input (event ∷ []) (inl refl);
            newest =
                All-append _ input (event ∷ [])
                  (All-map _ _ input (λ y ne e. absurd (ne e))
                    (absent input seen c.complete others))
                  ((λ e. omega arith), tt);
          })
          c.once c.latest;
    complete =
        All-append _ input (event ∷ [])
          (All-map _ _ input (λ x h. note-stays x.entity_id seen h) c.complete)
          (note-present seen, tt);
  }

pub note_all-Covers :
    (events input seen : List GeoEvent)
    → Covers input seen
    → Covers (input ++ events) (note_all seen events)
unfolding note_all
note_all-Covers [] input seen c = rw (append-nil input) c
note_all-Covers (event ∷ events) input seen c = rw (sym (append_assoc input (event ∷ []) events)) (
    note_all-Covers events (input ++ event ∷ []) (note seen event) (note-Covers event input seen c))
