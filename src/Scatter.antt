-- ===== src/Scatter.antt =====
-- Queries to all shards (src/clients/python/src/archerdb/topology.py: `merge_results`,
-- `ScatterGatherExecutor.execute_sync`). The dictionary `seen` is the list of its values in the
-- order of insertion, each under its own entity id, and `sorted` is a stable insertion sort. What
-- the threads do is an argument: the shards' answers in the order in which they complete. The
-- executor waits until every shard has answered or the time is over, so a list of completions that
-- is shorter than the list of primaries stands for the timeout.
pub mod Dedup
mod Sorting
pub mod Merge
pub mod Async
mod Tests
use archerdb.Base.{
  ℕ, zero, suc, ◌+◌, Bool, true, false, ◌&&◌, ◌||◌, List, [], ◌∷◌, ◌++◌, Result, ok, err, length,
  take, ltb, leb, ◌==◌, if◌then◌else◌,
}
use archerdb.Errors.{Error, timeout_error}
use archerdb.Types.{GeoEvent, QueryResult}

pub record ScatterGatherResult : Type 0 where
  pub events : List GeoEvent
  pub shard_results : List (ℕ × ℕ)
  pub partial_failures : List (ℕ × Error)
  pub has_more : Bool

-- `existing = seen.get(id)`; the event is stored when there is none or it is newer
unfoldable pub note : List GeoEvent → GeoEvent → List GeoEvent
note [] event = event ∷ []
note (existing ∷ seen) event =
    let rest = note seen event in
    if existing.entity_id == event.entity_id
    then (if ltb existing.timestamp event.timestamp then event else existing) ∷ seen
    else existing ∷ rest

unfoldable pub note_all : List GeoEvent → List GeoEvent → List GeoEvent
unfolding note
note_all seen [] = seen
note_all seen (event ∷ events) = note_all (note seen event) events

-- `sorted(..., key=lambda e: e.timestamp, reverse=True)`
unfoldable pub place : GeoEvent → List GeoEvent → List GeoEvent
place event [] = event ∷ []
place event (other ∷ others) =
    let rest = place event others in
    if leb other.timestamp event.timestamp then event ∷ other ∷ others else other ∷ rest

unfoldable pub newest_first : List GeoEvent → List GeoEvent
unfolding place
newest_first [] = []
newest_first (event ∷ events) = place event (newest_first events)

-- the loop over the results, from position `i` on
pub record Merging : Type 0 where
  pub seen : List GeoEvent
  pub shard_results : List (ℕ × ℕ)
  pub has_more : Bool

unfoldable pub merge_from : ℕ → List QueryResult → Merging → Merging
unfolding note_all
merge_from i [] m = m
merge_from i (result ∷ results) m = merge_from (i + 1) results (record {
  seen = note_all m.seen result.events;
  shard_results = m.shard_results ++ (i, length result.events) ∷ [];
  has_more = if result.has_more then true else m.has_more;
})

abbrev pub cut : ℕ → List GeoEvent → Merging → ScatterGatherResult
cut limit events m =
    if ltb 0 limit && ltb limit (length events)
    then record {
      events = take limit events;
      shard_results = m.shard_results;
      partial_failures = [];
      has_more = true;
    }
    else record {
      events = events;
      shard_results = m.shard_results;
      partial_failures = [];
      has_more = m.has_more;
    }

abbrev pub nothing_merged : Merging
nothing_merged = record { seen = []; shard_results = []; has_more = false }

unfoldable pub merge_results : List QueryResult → ℕ → ScatterGatherResult
unfolding merge_from newest_first
merge_results results limit =
    let m = merge_from 0 results nothing_merged in cut limit (newest_first m.seen) m

-- A shard's number and its answer.
abbrev pub Completion : Type 0
Completion = ℕ × Result Error QueryResult

-- the loop over `as_completed`, with the results and the failures so far
unfoldable pub gather :
    Bool
    → List Completion
    → List QueryResult
    → List (ℕ × Error)
    → Result Error (List QueryResult × List (ℕ × Error))
gather allow_partial_results [] results failures = ok (results, failures)
gather allow_partial_results ((shard_id, ok result) ∷ completions) results failures =
    gather allow_partial_results completions (results ++ result ∷ []) failures
gather allow_partial_results ((shard_id, err e) ∷ completions) results failures =
    let rest = gather allow_partial_results completions results (failures ++ (shard_id, e) ∷ []) in
    if allow_partial_results then rest else err e

abbrev pub gathered :
    ℕ → Bool → Result Error (List QueryResult × List (ℕ × Error)) → Result Error ScatterGatherResult
gathered limit in_time (err e) = err e
gathered limit false (ok (results, failures)) = err timeout_error
gathered limit true (ok (results, failures)) =
    ok (record (merge_results results limit) { partial_failures = failures })

abbrev pub nothing_found : ScatterGatherResult
nothing_found = record { events = []; shard_results = []; partial_failures = []; has_more = false }

unfoldable pub execute_sync :
    List (List ℕ) → Bool → List Completion → ℕ → Result Error ScatterGatherResult
unfolding gather merge_results
execute_sync [] allow_partial_results completions limit = ok nothing_found
execute_sync (p ∷ primaries) allow_partial_results completions limit =
    gathered limit (leb (length (p ∷ primaries)) (length completions))
      (gather allow_partial_results completions [] [])
