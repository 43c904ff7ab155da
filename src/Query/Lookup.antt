-- ===== src/Query/Lookup.antt =====
-- What the batch lookup returns, for a reply that keeps to the server's contract.
use archerdb.Base.{
  ℕ, ◌+◌, ◌≤◌, ◌≡◌, ◌≢◌, refl, sym, ap, ◌∙◌, inl, inr, Bool, true, false, List, [], ◌∷◌, Option,
  none, some, Result, ok, and_then, length, le→ltb, ◌==◌, ==_iff, ==_refl, ==_ne, if◌then◌else◌,
  Bool-cases, arith, All, true≢false,
}
use archerdb.Types.{GeoEvent}
use archerdb.Errors.{Error}
use archerdb.Query.{BatchReply, lookup, store, is_in, take_event, fill, get_latest_batch}

module _ {V : Type 0} where
  lookup-store_same : (key : ℕ) (v : V) (d : List (ℕ × V)) → lookup key (store key v d) ≡ some v
  lookup-store_same key v [] = rw (==_refl key) refl
  lookup-store_same key v ((k, w) ∷ d) = elim (Bool-cases (k == key)) [
    | inl same ↦ rw (same, same) refl
    | inr other ↦ rw (other, other) (lookup-store_same key v d)
  ]

  lookup-store_other :
      (key other : ℕ) (v : V) (d : List (ℕ × V))
      → key ≢ other
      → lookup other (store key v d) ≡ lookup other d
  lookup-store_other key other v [] ne = rw (==_ne key other ne) refl
  lookup-store_other key other v ((k, w) ∷ d) ne = elim (Bool-cases (k == key)) [
    | inl same ↦
        let apart = ==_ne k other (λ e. ne (sym ((==_iff k key).0 same) ∙ e)) in
        rw (same, apart) refl
    | inr differ ↦
        rw differ (ap (λ r. if k == other then some w else r) (lookup-store_other key other v d ne))
  ]

module _ (found : ℕ → Option GeoEvent) where
  abbrev pub is_missing : Option GeoEvent → Bool
  is_missing none = true
  is_missing (some e) = false

  abbrev pub with_event : Option GeoEvent → List GeoEvent → List GeoEvent
  with_event none events = events
  with_event (some e) events = e ∷ events

  -- the events of the ids that have one, in the order of the ids
  abbrev pub events_of : List ℕ → List GeoEvent
  events_of [] = []
  events_of (id ∷ ids) = with_event (found id) (events_of ids)

  -- From position `i` on, the not-found indices are the positions of the ids without an event.
  abbrev pub Marks : ℕ → List ℕ → List ℕ → Type 0
  Marks i [] not_found = Unit
  Marks i (id ∷ ids) not_found =
      (is_in i not_found ≡ is_missing (found id)) × Marks (i + 1) ids not_found

  -- The reply of a server that holds these events: one event for each id that has one, in the order
  -- of the ids, and the positions of the others.
  pub record IsReply (ids : List ℕ) (reply : BatchReply) : Type 0 where
    pub marked : Marks 0 ids reply.not_found_indices
    pub found_events : reply.events ≡ events_of ids

  take_event-found :
      (o : Option GeoEvent) (rest : List GeoEvent)
      → take_event (is_missing o) (with_event o rest) ≡ (o, rest)
  take_event-found none rest = refl
  take_event-found (some e) rest = refl

  filled : List ℕ → List (ℕ × Option GeoEvent) → List (ℕ × Option GeoEvent)
  filled [] d = d
  filled (id ∷ ids) d = filled ids (store id (found id) d)

  fill-filled :
      (ids : List ℕ) (i : ℕ) (not_found : List ℕ) (d : List (ℕ × Option GeoEvent))
      → Marks i ids not_found
      → fill ids i not_found (events_of ids) d ≡ filled ids d
  unfolding fill filled
  fill-filled [] i not_found d marks = refl
  fill-filled (id ∷ ids) i not_found d marks =
      let taken =
        ap (λ b. take_event b (with_event (found id) (events_of ids))) marks.0
        ∙ take_event-found (found id) (events_of ids) in
      ap (λ t. fill ids (i + 1) not_found t.1 (store id t.0 d)) taken
      ∙ fill-filled ids (i + 1) not_found (store id (found id) d) marks.1

  stored_again :
      (x id : ℕ) (d : List (ℕ × Option GeoEvent))
      → lookup id d ≡ some (found id)
      → lookup id (store x (found x) d) ≡ some (found id)
  stored_again x id d h = elim (Bool-cases (x == id)) [
    | inl same ↦
        ap (λ y. lookup id (store y (found y) d)) ((==_iff x id).0 same)
        ∙ lookup-store_same id (found id) d
    | inr differ ↦
        lookup-store_other x id (found x) d (λ e. true≢false (sym ((==_iff x id).1 e) ∙ differ)) ∙ h
  ]

  -- what is stored stays, as every later entry of an id is the same
  filled-kept :
      (ids : List ℕ) (id : ℕ) (d : List (ℕ × Option GeoEvent))
      → lookup id d ≡ some (found id)
      → lookup id (filled ids d) ≡ some (found id)
  unfolding filled
  filled-kept [] id d h = h
  filled-kept (x ∷ ids) id d h = filled-kept ids id (store x (found x) d) (stored_again x id d h)

  filled-each :
      (ids : List ℕ) (d : List (ℕ × Option GeoEvent))
      → All (λ id. lookup id (filled ids d) ≡ some (found id)) ids
  unfolding filled
  filled-each [] d = tt
  filled-each (x ∷ ids) d = (
    filled-kept ids x (store x (found x) d) (lookup-store_same x (found x) d),
    filled-each ids (store x (found x) d),
  )

  filled-other :
      (ids : List ℕ) (k : ℕ) (d : List (ℕ × Option GeoEvent))
      → All (λ id. id ≢ k) ids
      → lookup k (filled ids d) ≡ lookup k d
  unfolding filled
  filled-other [] k d apart = refl
  filled-other (x ∷ ids) k d apart =
      filled-other ids k (store x (found x) d) apart.1 ∙ lookup-store_other x k (found x) d apart.0

  -- The dictionary has the event that the server holds for each id, or `None` where it holds none,
  -- and no other ids.
  pub record IsLatest (ids : List ℕ) (results : List (ℕ × Option GeoEvent)) : Type 0 where
    pub each : All (λ id. lookup id results ≡ some (found id)) ids
    pub no_other : (k : ℕ) → All (λ id. id ≢ k) ids → lookup k results ≡ none

  -- When an open client looks up at least one and at most 10,000 ids, ids that repeat included, and
  -- the server replies with one event for each position of an id that it holds, in their order, and
  -- the other positions as not found, the dictionary gives for every id exactly what the server
  -- holds, and has no other ids.
  pub get_latest_batch-IsLatest :
      (submit : List ℕ → Result Error BatchReply) (reply : BatchReply) (ids : List ℕ)
      → 1 ≤ length ids
      → length ids ≤ 10_000
      → submit ids ≡ ok reply
      → IsReply ids reply
      → (results : List (ℕ × Option GeoEvent)) × get_latest_batch false submit ids ≡ ok results
        × IsLatest ids results
  unfolding get_latest_batch
  get_latest_batch-IsLatest submit reply [] some_id few answered good = absurd (omega arith)
  get_latest_batch-IsLatest submit reply (x ∷ xs) some_id few answered good =
      let ids = x ∷ xs in
      (
        filled ids [],
        rw (le→ltb 10_000 (length ids) few) (
            ap (λ r. and_then r (λ a. ok (fill ids 0 a.not_found_indices a.events []))) answered
            ∙ ap (λ events. ok (fill ids 0 reply.not_found_indices events [])) good.found_events
            ∙ ap ok (fill-filled ids 0 reply.not_found_indices [] good.marked)),
        record { each = filled-each ids []; no_other = λ k apart. filled-other ids k [] apart },
      )
