-- ===== src/Chunks/Tests.antt =====
-- Runs of `split_batch` and `_submit_multi_batch`, and the theorems at concrete inputs.
use archerdb.Base.{
  ℕ, ◌+◌, ◌≡◌, refl, List, [], ◌∷◌, Option, none, some, Result, ok, err, length, arith, ◌==◌,
  if◌then◌else◌,
}
use archerdb.Errors.{Error, client_error, cluster_unavailable}
use archerdb.Types.{GeoOperation, insert_events, BatchError, insert_geo_events_error}
use archerdb.Chunks.{range, split_batch, offset_batch_errors, submit_chunks, submit_multi_batch}
use archerdb.Chunks.Submit.{judged, submit_multi_batch-judged}

abbrev items : List ℕ
items = 5 ∷ 7 ∷ 5 ∷ 0 ∷ 7 ∷ []

split_in_twos : split_batch items 2 ≡ ok ((5 ∷ 7 ∷ []) ∷ (5 ∷ 0 ∷ []) ∷ (7 ∷ []) ∷ [])
unfolding split_batch range
split_in_twos = refl

-- a cluster that rejects each 7 with code 9, and counts the requests
abbrev judge : ℕ → Option ℕ
judge x = if x == 7 then some 9 else none

abbrev counting : ℕ → GeoOperation → List ℕ → Result Error (List BatchError) × ℕ
counting n op xs = (ok (judged judge 0 xs), n + 1)

submitted :
    submit_multi_batch counting insert_events items 2 0
    ≡ (ok (insert_geo_events_error 1 9 ∷ insert_geo_events_error 4 9 ∷ []), 3)
unfolding submit_multi_batch submit_chunks range offset_batch_errors
submitted = refl

submit_multi_batch-judged_example :
    (submit_multi_batch counting insert_events items 2 0).0 ≡ ok (judged judge 0 items)
submit_multi_batch-judged_example =
    submit_multi_batch-judged judge counting insert_events items 2 0 (λ n xs. refl) (omega arith)

-- a cluster that is unavailable for a request of one item
abbrev answer : GeoOperation → List ℕ → Result Error (List BatchError)
answer op chunk = if length chunk == 1 then err (client_error cluster_unavailable) else ok []
