-- ===== src/Scatter/Async.antt =====
-- The asynchronous executor (src/clients/python/src/archerdb/topology.py,
-- `ScatterGatherExecutor.execute_async`). What `asyncio.wait` leaves behind is an argument: for each
-- shard, by its number and its primary, whether its task has finished, raised, or is pending when
-- the timeout is over.
use archerdb.Base.{
  ℕ, suc, ◌+◌, ◌≤◌, ◌<◌, ◌≡◌, refl, ap, ◌∙◌, Bool, true, false, List, [], ◌∷◌, ◌++◌, Result, ok,
  err, and_then, length, arith, leb, if◌then◌else◌,
}
use archerdb.Errors.{Error, timeout_error}
use archerdb.Types.{QueryResult}
use archerdb.Scatter.{
  ScatterGatherResult, merge_results, nothing_found, Completion, gather, execute_sync,
}
use archerdb.Scatter.Merge.{Merged, merge_results-Merged, relabelled}
use mathlib.Core.List.{append_assoc, append-nil}

pub data Task : Type 0 where
  finished : QueryResult → Task
  raised : Error → Task
  pending : Task

-- one task for each primary
unfoldable pub create_tasks : (ℕ → List ℕ → Task) → ℕ → List (List ℕ) → List Task
create_tasks run i [] = []
create_tasks run i (primary ∷ primaries) = run i primary ∷ create_tasks run (i + 1) primaries

-- `for i, task in enumerate(tasks)`, with the results and the failures so far
unfoldable pub collect :
    Bool
    → ℕ
    → List Task
    → List QueryResult
    → List (ℕ × Error)
    → Result Error (List QueryResult × List (ℕ × Error))
collect allow_partial_results i [] results failures = ok (results, failures)
collect allow_partial_results i (finished result ∷ tasks) results failures =
    collect allow_partial_results (i + 1) tasks (results ++ result ∷ []) failures
collect allow_partial_results i (raised e ∷ tasks) results failures =
    let rest = collect allow_partial_results (i + 1) tasks results (failures ++ (i, e) ∷ []) in
    if allow_partial_results then rest else err e
collect allow_partial_results i (pending ∷ tasks) results failures =
    collect allow_partial_results (i + 1) tasks results (failures ++ (i, timeout_error) ∷ [])

abbrev pub merged_with : ℕ → List QueryResult × List (ℕ × Error) → ScatterGatherResult
merged_with limit (results, failures) = record (merge_results results limit) {
  partial_failures = failures;
}

unfoldable pub execute_async :
    List (List ℕ) → Bool → (ℕ → List ℕ → Task) → ℕ → Result Error ScatterGatherResult
unfolding create_tasks collect
execute_async [] allow_partial_results run limit = ok nothing_found
execute_async (p ∷ primaries) allow_partial_results run limit =
    and_then (collect allow_partial_results 0 (create_tasks run 0 (p ∷ primaries)) [] [])
      (λ collected. ok (merged_with limit collected))

-- The results of the tasks that finished, and the error of each other task under its shard's number.
abbrev pub results_of : List Task → List QueryResult
results_of [] = []
results_of (finished result ∷ tasks) = result ∷ results_of tasks
results_of (raised e ∷ tasks) = results_of tasks
results_of (pending ∷ tasks) = results_of tasks

abbrev pub failures_from : ℕ → List Task → List (ℕ × Error)
failures_from i [] = []
failures_from i (finished result ∷ tasks) = failures_from (i + 1) tasks
failures_from i (raised e ∷ tasks) = (i, e) ∷ failures_from (i + 1) tasks
failures_from i (pending ∷ tasks) = (i, timeout_error) ∷ failures_from (i + 1) tasks

-- No task raised.
abbrev pub NoneRaised : List Task → Type 0
NoneRaised [] = Unit
NoneRaised (finished result ∷ tasks) = NoneRaised tasks
NoneRaised (raised e ∷ tasks) = ⊥
NoneRaised (pending ∷ tasks) = NoneRaised tasks

-- Partial results are allowed, or nothing raised.
abbrev MayGoOn : Bool → List Task → Type 0
MayGoOn true tasks = Unit
MayGoOn false tasks = NoneRaised tasks

next_finished :
    (allow : Bool) (r : QueryResult) (tasks : List Task)
    → MayGoOn allow (finished r ∷ tasks)
    → MayGoOn allow tasks
next_finished true r tasks h = tt
next_finished false r tasks h = h

next_pending :
    (allow : Bool) (tasks : List Task) → MayGoOn allow (pending ∷ tasks) → MayGoOn allow tasks
next_pending true tasks h = tt
next_pending false tasks h = h

collect_lem :
    (allow : Bool) (i : ℕ) (tasks : List Task) (results : List QueryResult)
    (failures : List (ℕ × Error))
    → MayGoOn allow tasks
    → collect allow i tasks results failures
      ≡ ok (results ++ results_of tasks, failures ++ failures_from i tasks)
unfolding collect
collect_lem allow i [] results failures h = rw (append-nil results, append-nil failures) refl
collect_lem allow i (finished r ∷ tasks) results failures h =
    collect_lem allow (i + 1) tasks (results ++ r ∷ []) failures (next_finished allow r tasks h)
    ∙ rw (append_assoc results (r ∷ []) (results_of tasks)) refl
collect_lem true i (raised e ∷ tasks) results failures h =
    collect_lem true (i + 1) tasks results (failures ++ (i, e) ∷ []) tt
    ∙ rw (append_assoc failures ((i, e) ∷ []) (failures_from (i + 1) tasks)) refl
collect_lem false i (raised e ∷ tasks) results failures h = absurd h
collect_lem allow i (pending ∷ tasks) results failures h =
    collect_lem allow (i + 1) tasks results (failures ++ (i, timeout_error) ∷ [])
      (next_pending allow tasks h)
    ∙ rw (append_assoc failures ((i, timeout_error) ∷ []) (failures_from (i + 1) tasks)) refl

-- What a call returns that goes through: the merge of the finished tasks' results, with the other
-- tasks under the partial failures.
pub record Answers (tasks : List Task) (limit : ℕ) (r : ScatterGatherResult) : Type 0 where
  pub merged : Merged (results_of tasks) limit r
  pub failures : r.partial_failures ≡ failures_from 0 tasks

answered :
    (allow : Bool) (primaries : List (List ℕ)) (run : ℕ → List ℕ → Task) (limit : ℕ)
    → 1 ≤ length primaries
    → MayGoOn allow (create_tasks run 0 primaries)
    → (r : ScatterGatherResult) × execute_async primaries allow run limit ≡ ok r
      × Answers (create_tasks run 0 primaries) limit r
unfolding execute_async
answered allow [] run limit some_primary h = absurd (omega arith)
answered allow (p ∷ primaries) run limit some_primary h =
    let tasks = create_tasks run 0 (p ∷ primaries) in
    (
      merged_with limit (results_of tasks, failures_from 0 tasks),
      rw (collect_lem allow 0 tasks [] [] h) refl,
      record {
        merged = relabelled (merge_results-Merged (results_of tasks) limit) (failures_from 0 tasks);
        failures = refl;
      },
    )

-- When partial results are allowed and there is a primary, `execute_async` always returns: the merge
-- of the results of the tasks that finished, and under the partial failures, by shard number, the
-- error of each task that raised and a timeout for each that is pending.
pub execute_async-Answers :
    (primaries : List (List ℕ)) (run : ℕ → List ℕ → Task) (limit : ℕ)
    → 1 ≤ length primaries
    → (r : ScatterGatherResult) × execute_async primaries true run limit ≡ ok r
      × Answers (create_tasks run 0 primaries) limit r
execute_async-Answers primaries run limit some_primary =
    answered true primaries run limit some_primary tt

-- The answers of shards, as completions of the synchronous executor.
abbrev pub completed : List (ℕ × QueryResult) → List Completion
completed [] = []
completed ((shard_id, result) ∷ answers) = (shard_id, ok result) ∷ completed answers

gather-completed :
    (allow : Bool) (answers : List (ℕ × QueryResult)) (results : List QueryResult)
    → (more : List QueryResult) × gather allow (completed answers) results [] ≡ ok (more, [])
unfolding gather
gather-completed allow [] results = (results, refl)
gather-completed allow ((shard_id, r) ∷ answers) results =
    gather-completed allow answers (results ++ r ∷ [])

length-completed : (answers : List (ℕ × QueryResult)) → length (completed answers) ≡ length answers
length-completed [] = refl
length-completed ((shard_id, r) ∷ answers) = ap suc (length-completed answers)

sync_timeout :
    (primaries : List (List ℕ)) (allow : Bool) (answers : List (ℕ × QueryResult)) (limit : ℕ)
    → length answers < length primaries
    → execute_sync primaries allow (completed answers) limit ≡ err timeout_error
unfolding execute_sync
sync_timeout [] allow answers limit few = absurd (omega arith)
sync_timeout (p ∷ primaries) allow answers limit few =
    let count = length-completed answers in
    let late : leb (length (p ∷ primaries)) (length (completed answers)) ≡ false = ground arith in
    let (more, gathered_all) = gather-completed allow answers [] in rw (late, gathered_all) refl

-- The two executors treat a timeout differently. Where there is a primary and no task raised,
-- `execute_async` returns the merge of the tasks that finished, with the pending ones under the
-- partial failures, although partial results are not allowed. Where fewer shards have answered than
-- there are primaries, and none with an error, `execute_sync` raises the timeout, although partial
-- results may be allowed.
pub timeouts_differ :
    (primaries : List (List ℕ)) (run : ℕ → List ℕ → Task) (allow : Bool)
    (answers : List (ℕ × QueryResult)) (limit : ℕ)
    → 1 ≤ length primaries
    → NoneRaised (create_tasks run 0 primaries)
    → length answers < length primaries
    → ((r : ScatterGatherResult) × execute_async primaries false run limit ≡ ok r
        × Answers (create_tasks run 0 primaries) limit r)
      × (execute_sync primaries allow (completed answers) limit ≡ err timeout_error)
timeouts_differ primaries run allow answers limit some_primary none_raised few = (
  answered false primaries run limit some_primary none_raised,
  sync_timeout primaries allow answers limit few,
)
