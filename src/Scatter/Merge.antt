-- ===== src/Scatter/Merge.antt =====
-- What `merge_results` and the executor give.
use archerdb.Base.{
  ℕ, ◌≤◌, ◌<◌, ◌+◌, ◌≡◌, ◌≢◌, refl, ◌∙◌, sym, ◌⊎◌, inl, inr, Bool, true, false, ◌&&◌, List, [], ◌∷◌,
  ◌++◌, ok, err, length, length-take, All, All-map, Some, arith, ltb, leb, if_elim, true≢false,
  if◌then◌else◌, take,
}
use archerdb.Errors.{Error}
use archerdb.Types.{GeoEvent, QueryResult}
use archerdb.Scatter.{
  ScatterGatherResult, Merging, nothing_merged, newest_first, merge_from, cut, merge_results,
  Completion, gather, execute_sync,
}
use archerdb.Scatter.Dedup.{Distinct, IsNewest, Covers, note_all-Covers}
use archerdb.Scatter.Sorting.{
  Descending, newest_first-All, newest_first-Some, newest_first-Distinct, newest_first-Descending,
  take-All, take-Distinct, take-Descending, take-Some,
}
use mathlib.Core.List.{append_assoc, append-nil}

-- All events of the results, in the order of the loops.
abbrev pub all_events : List QueryResult → List GeoEvent
all_events [] = []
all_events (result ∷ results) = result.events ++ all_events results

-- There is a limit, and just as many events.
abbrev pub IsFull : ℕ → List GeoEvent → Type 0
IsFull limit events = (limit ≢ 0) × (length events ≡ limit)

pub record Merged (results : List QueryResult) (limit : ℕ) (r : ScatterGatherResult) : Type 0 where
  pub newest : All (IsNewest (all_events results)) r.events
  pub once : Distinct r.events
  pub ordered : Descending r.events
  pub bounded : limit ≢ 0 → length r.events ≤ limit
  -- an entity is missing only if the limit is used up, by events that are not older
  pub ranked :
      All
        (λ x.
          Some (λ e. e.entity_id ≡ x.entity_id) r.events
          ⊎ (IsFull limit r.events × All (λ e. x.timestamp ≤ e.timestamp) r.events))
        (all_events results)
  pub complete :
      r.has_more ≡ false
      → All (λ x. Some (λ e. e.entity_id ≡ x.entity_id) r.events) (all_events results)
  pub exhausted : r.has_more ≡ false → All (λ q. q.has_more ≡ false) results
  -- there is more only if the limit is used up or a shard has more
  pub more : r.has_more ≡ true → IsFull limit r.events ⊎ Some (λ q. q.has_more ≡ true) results

neither : (b c : Bool) → (if b then true else c) ≡ false → b ≡ false × c ≡ false
neither true c h = ground arith
neither false c h = (refl, h)

All-all : {A : Type 0} {P : A → Type 0} → ((x : A) → P x) → (xs : List A) → All P xs
All-all f [] = tt
All-all f (x ∷ xs) = (f x, All-all f xs)

All-both :
    {A : Type 0} (P Q : A → Type 0) (xs : List A) → All P xs → All Q xs → All (λ x. P x × Q x) xs
All-both P Q [] h k = tt
All-both P Q (x ∷ xs) h k = ((h.0, k.0), All-both P Q xs h.1 k.1)

All-swap :
    {A : Type 0} (R : A → A → Type 0) (xs ys : List A)
    → All (λ x. All (λ y. R x y) ys) xs
    → All (λ y. All (λ x. R x y) xs) ys
All-swap R [] ys h = All-all (λ y. tt) ys
All-swap R (x ∷ xs) ys h =
    All-both (λ y. R x y) (λ y. All (λ x. R x y) xs) ys h.0 (All-swap R xs ys h.1)

Some-with :
    {A : Type 0} (P Q : A → Type 0) (xs : List A)
    → Some P xs
    → All (λ x. P x → Q x) xs
    → Some (λ x. P x × Q x) xs
Some-with P Q [] h k = h
Some-with P Q (x ∷ xs) (inl p) k = inl (p, k.0 p)
Some-with P Q (x ∷ xs) (inr h) k = inr (Some-with P Q xs h k.1)

merge_from-Covers :
    (results : List QueryResult) (i : ℕ) (input : List GeoEvent) (m : Merging)
    → Covers input m.seen
    → Covers (input ++ all_events results) (merge_from i results m).seen
unfolding merge_from
merge_from-Covers [] i input m c = rw (append-nil input) c
merge_from-Covers (result ∷ results) i input m c =
    rw (sym (append_assoc input result.events (all_events results))) (
      merge_from-Covers results (i + 1) (input ++ result.events) _
        (note_all-Covers result.events input m.seen c))

merge_from-has_more :
    (results : List QueryResult) (i : ℕ) (m : Merging)
    → (merge_from i results m).has_more ≡ false
    → m.has_more ≡ false × All (λ q. q.has_more ≡ false) results
unfolding merge_from
merge_from-has_more [] i m h = (h, tt)
merge_from-has_more (result ∷ results) i m h =
    let rest = merge_from-has_more results (i + 1) _ h in
    let parts = neither result.has_more m.has_more rest.0 in (parts.1, (parts.0, rest.1))

merge_from-more :
    (results : List QueryResult) (i : ℕ) (m : Merging)
    → (merge_from i results m).has_more ≡ true
    → (m.has_more ≡ true) ⊎ Some (λ q. q.has_more ≡ true) results
unfolding merge_from
merge_from-more [] i m h = inl h
merge_from-more (result ∷ results) i m h = elim (merge_from-more results (i + 1) _ h) [
  | inl before ↦ either result.has_more m.has_more before
  | inr later ↦ inr (inr later)
]
  where
    either :
        (b c : Bool)
        → (if b then true else c) ≡ true
        → (c ≡ true) ⊎ ((b ≡ true) ⊎ Some (λ q. q.has_more ≡ true) results)
    either true c set = inr (inl refl)
    either false c set = inl set

-- for each event of the input its entity's newest event is in the dictionary
found :
    (input seen : List GeoEvent)
    → Covers input seen
    → All (λ x. Some (λ e. (e.entity_id ≡ x.entity_id) × (x.timestamp ≤ e.timestamp)) seen) input
found input seen c =
    let above : All (λ x. All (λ e. x.entity_id ≡ e.entity_id → x.timestamp ≤ e.timestamp) seen)
        input =
      All-swap (λ e x. x.entity_id ≡ e.entity_id → x.timestamp ≤ e.timestamp) seen input
        (All-map _ _ seen (λ e n. n.newest) c.latest) in
    All-map _ _ input
      (λ x h.
        Some-with (λ e. e.entity_id ≡ x.entity_id) (λ e. x.timestamp ≤ e.timestamp) seen h.0
          (All-map _ _ seen (λ e le same. le (sym same)) h.1))
      (All-both _ _ input c.complete above)

over : (limit n : ℕ) → (ltb 0 limit && ltb limit n) ≡ false → limit ≢ 0 → n ≤ limit
over limit n h ne = ground arith

over_limit : (limit n : ℕ) → (ltb 0 limit && ltb limit n) ≡ true → (limit ≢ 0) × (limit < n)
over_limit limit n h = ground arith

take-IsFull :
    (limit : ℕ) (xs : List GeoEvent)
    → (ltb 0 limit && ltb limit (length xs)) ≡ true
    → IsFull limit (take limit xs)
take-IsFull limit xs too_many =
    let (some_limit, more) = over_limit limit (length xs) too_many in
    (some_limit, omega (arith, length-take limit xs))

cut-Merged :
    (results : List QueryResult) (limit : ℕ) (m : Merging)
    → Covers (all_events results) m.seen
    → (m.has_more ≡ false → All (λ q. q.has_more ≡ false) results)
    → (m.has_more ≡ true → Some (λ q. q.has_more ≡ true) results)
    → Merged results limit (cut limit (newest_first m.seen) m)
cut-Merged results limit m c none_more some_more =
    let xs = newest_first m.seen in
    let input = all_events results in
    if_elim (Merged results limit) (ltb 0 limit && ltb limit (length (newest_first m.seen)))
      (λ too_many. record {
        newest = take-All _ limit xs (newest_first-All _ m.seen c.latest);
        once = take-Distinct limit xs (newest_first-Distinct m.seen c.once);
        ordered = take-Descending limit xs (newest_first-Descending m.seen);
        bounded = λ ne. omega (arith, length-take limit xs);
        ranked =
            All-map _ _ input
              (λ x h.
                elim (take-Some (λ e. e.entity_id ≡ x.entity_id) x.timestamp limit xs
                  (newest_first-Descending m.seen) (newest_first-Some _ m.seen h)) [
                    | inl kept ↦ inl kept
                    | inr older ↦ inr (take-IsFull limit xs too_many, older)
                  ])
              (found input m.seen c);
        complete = λ h. absurd (true≢false h);
        exhausted = λ h. absurd (true≢false h);
        more = λ h. inl (take-IsFull limit xs too_many);
      })
      (λ all_fit.
        let entities : All (λ x. Some (λ e. e.entity_id ≡ x.entity_id) xs) input =
          All-map _ _ input (λ x h. newest_first-Some _ m.seen h) c.complete in
        record {
          newest = newest_first-All _ m.seen c.latest;
          once = newest_first-Distinct m.seen c.once;
          ordered = newest_first-Descending m.seen;
          bounded = over limit (length xs) all_fit;
          ranked = All-map _ _ input (λ x h. inl h) entities;
          complete = λ h. entities;
          exhausted = none_more;
          more = λ h. inr (some_more h);
        })

-- `merge_results` gives, from the newest to the oldest, one event for each entity, which is one of
-- the shards' events and has the greatest timestamp of its entity. With a limit that is not 0 there
-- are at most that many. An entity is missing only when there are exactly as many events as the limit
-- allows, none of the entity's events is then newer than one of them, and `has_more` is set; it is
-- also set when it is for a shard, and it is set for no other reason than a limit that is used up or
-- a shard that has more.
pub merge_results-Merged :
    (results : List QueryResult) (limit : ℕ) → Merged results limit (merge_results results limit)
unfolding merge_results
merge_results-Merged results limit =
    cut-Merged results limit (merge_from 0 results nothing_merged)
      (merge_from-Covers results 0 [] nothing_merged
        (record { once = tt; latest = tt; complete = tt }))
      (λ h. (merge_from-has_more results 0 nothing_merged h).1)
      (λ h. elim (merge_from-more results 0 nothing_merged h) [
        | inl set ↦ absurd (true≢false (sym set))
        | inr found ↦ found
      ])

-- under other partial failures
pub relabelled :
    {results : List QueryResult} {limit : ℕ} {r : ScatterGatherResult}
    → Merged results limit r
    → (failures : List (ℕ × Error))
    → Merged results limit (record r { partial_failures = failures })
relabelled m failures = record {
  newest = m.newest;
  once = m.once;
  ordered = m.ordered;
  bounded = m.bounded;
  ranked = m.ranked;
  complete = m.complete;
  exhausted = m.exhausted;
  more = m.more;
}

-- The answers and the errors of the shards, in the order of completion.
abbrev pub answers : List Completion → List QueryResult
answers [] = []
answers ((shard_id, ok result) ∷ completions) = result ∷ answers completions
answers ((shard_id, err e) ∷ completions) = answers completions

abbrev pub errors : List Completion → List (ℕ × Error)
errors [] = []
errors ((shard_id, ok result) ∷ completions) = errors completions
errors ((shard_id, err e) ∷ completions) = (shard_id, e) ∷ errors completions

gather_lem :
    (completions : List Completion) (results : List QueryResult) (failures : List (ℕ × Error))
    → gather true completions results failures
      ≡ ok (results ++ answers completions, failures ++ errors completions)
unfolding gather
gather_lem [] results failures = rw (append-nil results, append-nil failures) refl
gather_lem ((shard_id, ok result) ∷ completions) results failures =
    gather_lem completions (results ++ result ∷ []) failures
    ∙ rw (append_assoc results (result ∷ []) (answers completions)) refl
gather_lem ((shard_id, err e) ∷ completions) results failures =
    gather_lem completions results (failures ++ (shard_id, e) ∷ [])
    ∙ rw (append_assoc failures ((shard_id, e) ∷ []) (errors completions)) refl

-- When partial results are allowed and each of at least one primary has answered or failed within
-- the timeout, `execute_sync` returns the merge of the answers, in which the failures are those of
-- the shards that failed.
pub execute_sync-Merged :
    (primaries : List (List ℕ)) (completions : List Completion) (limit : ℕ)
    → 1 ≤ length primaries
    → length primaries ≤ length completions
    → (r : ScatterGatherResult) × execute_sync primaries true completions limit ≡ ok r
      × Merged (answers completions) limit r
      × r.partial_failures ≡ errors completions
unfolding execute_sync
execute_sync-Merged [] completions limit some_primary all_done = absurd (omega arith)
execute_sync-Merged (p ∷ primaries) completions limit some_primary all_done =
    let in_time : leb (length (p ∷ primaries)) (length completions) ≡ true = ground arith in
    (
      record (merge_results (answers completions) limit) { partial_failures = errors completions },
      rw (in_time, gather_lem completions [] []) refl,
      relabelled (merge_results-Merged (answers completions) limit) (errors completions),
      refl,
    )
