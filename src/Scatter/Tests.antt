-- ===== src/Scatter/Tests.antt =====
-- A query to three shards, and the theorems at concrete inputs.
use archerdb.Base.{
  ℕ, ◌≡◌, refl, true, false, none, List, [], ◌∷◌, ok, err, arith, ◌==◌, if◌then◌else◌,
}
use archerdb.Base.Int.{pos}
use archerdb.Errors.{connection_error}
use archerdb.Types.{GeoEvent, QueryResult}
use archerdb.Scatter.{
  ScatterGatherResult, note, note_all, place, newest_first, merge_from, merge_results, Completion,
  gather, execute_sync,
}
use archerdb.Scatter.Async.{
  Task, finished, raised, pending, create_tasks, execute_async, NoneRaised, Answers,
  execute_async-Answers,
}
use archerdb.Scatter.Merge.{Merged, merge_results-Merged, answers, errors, execute_sync-Merged}

abbrev event_of : ℕ → ℕ → GeoEvent
event_of entity_id timestamp = record {
  id = 0;
  entity_id = entity_id;
  correlation_id = 0;
  user_data = 0;
  lat_nano = pos 0;
  lon_nano = pos 0;
  group_id = 1;
  timestamp = timestamp;
  altitude_mm = pos 0;
  velocity_mms = 0;
  ttl_seconds = 0;
  accuracy_mm = 0;
  heading_cdeg = pos 0;
  flags = 0;
}

abbrev results : List QueryResult
results =
    record { events = event_of 1 10 ∷ event_of 2 20 ∷ []; has_more = false; cursor = none }
    ∷ record { events = event_of 2 25 ∷ event_of 3 5 ∷ []; has_more = false; cursor = none }
    ∷ []

merged : merge_results results 2 ≡ record {
  events = event_of 2 25 ∷ event_of 1 10 ∷ [];
  shard_results = (0, 2) ∷ (1, 2) ∷ [];
  partial_failures = [];
  has_more = true;
}
unfolding merge_results merge_from note_all note newest_first place
merged = refl

merge_results-Merged_example : Merged results 2 (merge_results results 2)
merge_results-Merged_example = merge_results-Merged results 2

-- the second shard fails first, then the third answers before the first
abbrev completions : List Completion
completions =
    (1, err connection_error)
    ∷ (
      2,
      ok (record { events = event_of 2 25 ∷ event_of 3 5 ∷ []; has_more = false; cursor = none }),
    )
    ∷ (
      0,
      ok (record { events = event_of 1 10 ∷ event_of 2 20 ∷ []; has_more = false; cursor = none }),
    )
    ∷ []

abbrev primaries : List (List ℕ)
primaries = (97 ∷ []) ∷ (98 ∷ []) ∷ (99 ∷ []) ∷ []

-- the counts stand under the positions of the completions, not under the shards 2 and 0
executed :
    execute_sync primaries true completions 0
    ≡ ok (record {
      events = event_of 2 25 ∷ event_of 1 10 ∷ event_of 3 5 ∷ [];
      shard_results = (0, 2) ∷ (1, 2) ∷ [];
      partial_failures = (1, connection_error) ∷ [];
      has_more = false;
    })
unfolding execute_sync gather merge_results merge_from note_all note newest_first place
executed = refl

execute_sync-Merged_example :
    (r : ScatterGatherResult) × execute_sync primaries true completions 0 ≡ ok r
    × Merged (answers completions) 0 r
    × r.partial_failures ≡ errors completions
execute_sync-Merged_example =
    execute_sync-Merged primaries completions 0 (omega arith) (omega arith)

-- the first shard answers, the second raises, the third is pending
abbrev one_answer : QueryResult
one_answer = record { events = event_of 2 25 ∷ []; has_more = false; cursor = none }

abbrev tasks_of : ℕ → List ℕ → Task
tasks_of i primary =
    if i == 0 then finished one_answer else if i == 1 then raised connection_error else pending

abbrev slow_tasks : ℕ → List ℕ → Task
slow_tasks i primary = if i == 0 then finished one_answer else pending

execute_async-Answers_example :
    (r : ScatterGatherResult) × execute_async primaries true tasks_of 0 ≡ ok r
    × Answers (create_tasks tasks_of 0 primaries) 0 r
execute_async-Answers_example = execute_async-Answers primaries tasks_of 0 (omega arith)

slow_tasks-NoneRaised : NoneRaised (create_tasks slow_tasks 0 primaries)
unfolding create_tasks
slow_tasks-NoneRaised = tt
