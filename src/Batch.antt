-- ===== src/Batch.antt =====
-- Batches of events and of deletions (src/clients/python/src/archerdb/client.py: `GeoEventBatch`,
-- `DeleteEntityBatch`, `insert_event`, `delete_entities`; the asynchronous classes differ in
-- awaiting only). A call that raises leaves its batch as it was, so `add` returns the new batch or
-- the error. `_submit_batch` is an argument: what it answers to an operation and its items, and, for
-- events, what it changes of a state that the cluster keeps.
pub mod Add
pub mod History
pub mod Delete
mod Tests
use archerdb.Base.{
  ℕ, ◌+◌, Bool, true, false, not, ◌&&◌, List, [], ◌∷◌, ◌++◌, Result, ok, err, and_then, length, leb,
  ◌==◌, if◌then◌else◌,
}
use archerdb.Base.Text.{same_text}
use archerdb.Base.Int.{ℤ, pos, negsuc, ◌+ℤ◌, leb_ℤ}
use archerdb.Errors.{
  Error, client_error, codes, batch_too_large, invalid_entity_id, invalid_coordinates,
}
use archerdb.Types.{
  GeoEvent, GeoOperation, insert_events, upsert_events, delete_entities_operation, BatchError,
  insert_geo_events_error, delete_entities_error, unknown_error, DeleteResult, batch_size_max,
}

-- `operation` is the text that the constructor was given
pub record GeoEventBatch : Type 0 where
  pub operation : List ℕ
  pub events : List GeoEvent

abbrev pub create_batch : GeoEventBatch
create_batch = record { operation = codes "insert"; events = [] }

-- `low <= value <= high`
abbrev pub within : ℤ → ℤ → ℤ → Bool
within low value high = leb_ℤ low value && leb_ℤ value high

unfoldable pub validate_event : GeoEvent → Result Error GeoEvent
validate_event event =
    if event.entity_id == 0
    then err (client_error invalid_entity_id)
    else if not (within (negsuc 89_999_999_999) event.lat_nano (pos 90_000_000_000))
    then err (client_error invalid_coordinates)
    else if not (within (negsuc 179_999_999_999) event.lon_nano (pos 180_000_000_000))
    then err (client_error invalid_coordinates)
    else if not (within (pos 0) event.heading_cdeg (pos 36_000))
    then err (client_error invalid_coordinates)
    else ok event

unfoldable pub count : GeoEventBatch → ℕ
count batch = length batch.events

unfoldable pub is_full : GeoEventBatch → Bool
is_full batch = leb batch_size_max (length batch.events)

unfoldable pub clear : GeoEventBatch → GeoEventBatch
clear batch = record batch { events = [] }

unfoldable pub add : GeoEventBatch → GeoEvent → Result Error GeoEventBatch
add batch event =
    if leb batch_size_max (length batch.events)
    then err (client_error batch_too_large)
    else and_then (validate_event event)
        (λ checked. ok (record batch { events = batch.events ++ checked ∷ [] }))

abbrev pub Submit : Type 0 → Type 0
Submit A = GeoOperation → List A → Result Error (List BatchError)

-- `_submit_batch` of events on what holds their cluster's state: the state after it, and the answer
abbrev pub SubmitEvents : Type 0 → Type 0
SubmitEvents W = W → GeoOperation → List GeoEvent → W × Result Error (List BatchError)

-- the answer, and the batch after it: emptied when the answer came, kept when an exception was raised
abbrev pub committed :
    {W : Type 0}
    → GeoEventBatch
    → W × Result Error (List BatchError)
    → W × Result Error (List BatchError) × GeoEventBatch
committed batch (w, ok errors) = (w, ok errors, record batch { events = [] })
committed batch (w, err e) = (w, err e, batch)

module _ {W : Type 0} (submit : SubmitEvents W) where
  abbrev pub commit_events :
      W → GeoEventBatch → List GeoEvent → W × Result Error (List BatchError) × GeoEventBatch
  commit_events w batch [] = (w, ok [], batch)
  commit_events w batch (event ∷ events) =
      let op =
        if same_text batch.operation (codes "insert") then insert_events else upsert_events in
      committed batch (submit w op (event ∷ events))

  unfoldable pub commit : W → GeoEventBatch → W × Result Error (List BatchError) × GeoEventBatch
  commit w batch = commit_events w batch batch.events

  -- `insert_event`, once the event is in its batch or was refused
  abbrev pub inserted : W → Result Error GeoEventBatch → W × Result Error (List BatchError)
  inserted w (err e) = (w, err e)
  inserted w (ok batch) = let after = commit w batch in (after.0, after.1)

  unfoldable pub insert_event : W → GeoEvent → W × Result Error (List BatchError)
  unfolding add commit
  insert_event w event = inserted w (add create_batch event)

-- the ids of a `DeleteEntityBatch`
unfoldable pub add_id : List ℕ → ℕ → Result Error (List ℕ)
add_id ids entity_id =
    if leb batch_size_max (length ids)
    then err (client_error batch_too_large)
    else if entity_id == 0
    then err (client_error invalid_entity_id)
    else ok (ids ++ entity_id ∷ [])

-- the loop of `commit` over the results, from the counts so far
unfoldable pub tally : List BatchError → DeleteResult → DeleteResult
tally [] counts = counts
tally (delete_entities_error index code ∷ results) counts = tally results (
    if code == 3
    then record {
      deleted_count = counts.deleted_count +ℤ negsuc 0;
      not_found_count = counts.not_found_count + 1;
    }
    else if not (code == 0)
    then record counts { deleted_count = counts.deleted_count +ℤ negsuc 0 }
    else counts)
tally (insert_geo_events_error index code ∷ results) counts = tally results counts
tally (unknown_error code ∷ results) counts = tally results counts

abbrev pub tallied : List ℕ → Result Error (List BatchError) → Result Error DeleteResult × List ℕ
tallied ids (ok results) =
    (ok (tally results (record { deleted_count = pos (length ids); not_found_count = 0 })), [])
tallied ids (err e) = (err e, ids)

unfoldable pub commit_ids : Submit ℕ → List ℕ → Result Error DeleteResult × List ℕ
commit_ids submit [] = (ok (record { deleted_count = pos 0; not_found_count = 0 }), [])
commit_ids submit (i ∷ ids) = tallied (i ∷ ids) (submit delete_entities_operation (i ∷ ids))

-- `for entity_id in entity_ids: batch.add(entity_id)`
unfoldable pub add_ids : List ℕ → List ℕ → Result Error (List ℕ)
unfolding add_id
add_ids batch [] = ok batch
add_ids batch (i ∷ ids) = and_then (add_id batch i) (λ next. add_ids next ids)

unfoldable pub delete_entities : Submit ℕ → List ℕ → Result Error DeleteResult
unfolding add_ids commit_ids
delete_entities submit ids = and_then (add_ids [] ids) (λ batch. (commit_ids submit batch).0)
