-- ===== src/Query.antt =====
-- The queries of the client (src/clients/python/src/archerdb/client.py, `GeoClientSync`:
-- `get_latest_by_uuid`, `get_latest_batch`, `query_latest`, `query_radius`, `query_polygon`). What a
-- request gives in the end, retries included, is an argument. The conversion of degrees and metres,
-- which makes the filters of the last two, is not modelled: they get their filter.
pub mod Lookup
pub mod Paging
mod Tests
use archerdb.Base.{
  ℕ, zero, suc, ◌+◌, Bool, true, false, List, [], ◌∷◌, Option, none, some, Result, ok, err,
  and_then, length, ltb, ◌==◌, if◌then◌else◌,
}
use archerdb.Types.{GeoEvent, QueryResult}
use archerdb.Errors.{Error, client_error, client_closed, batch_too_large, query_result_too_large}

abbrev pub query_limit_max : ℕ
query_limit_max = 81_000

-- `_ensure_connected`
abbrev pub if_open : {A : Type 0} → Bool → Result Error A → Result Error A
if_open closed rest = if closed then err (client_error client_closed) else rest

abbrev pub first_event : List GeoEvent → Option GeoEvent
first_event [] = none
first_event (e ∷ events) = some e

unfoldable pub get_latest_by_uuid :
    Bool → (ℕ → Result Error (List GeoEvent)) → ℕ → Result Error (Option GeoEvent)
get_latest_by_uuid closed submit entity_id =
    if_open closed (and_then (submit entity_id) (λ events. ok (first_event events)))

-- `QueryUuidBatchResult`
pub record BatchReply : Type 0 where
  pub not_found_indices : List ℕ
  pub events : List GeoEvent

-- a dictionary under numbers
module _ {V : Type 0} where
  abbrev pub lookup : ℕ → List (ℕ × V) → Option V
  lookup key [] = none
  lookup key ((k, v) ∷ d) = if k == key then some v else lookup key d

  abbrev pub store : ℕ → V → List (ℕ × V) → List (ℕ × V)
  store key v [] = (key, v) ∷ []
  store key v ((k, w) ∷ d) = if k == key then (k, v) ∷ d else (k, w) ∷ store key v d

-- `i in not_found_set`
abbrev pub is_in : ℕ → List ℕ → Bool
is_in i [] = false
is_in i (j ∷ js) = if j == i then true else is_in i js

-- the event for an id, and the events that are left: the next one, unless the id was not found
abbrev pub take_event : Bool → List GeoEvent → Option GeoEvent × List GeoEvent
take_event true events = (none, events)
take_event false [] = (none, [])
take_event false (e ∷ events) = (some e, events)

-- `for i, entity_id in enumerate(entity_ids)`, with the events from `event_idx` on
unfoldable pub fill :
    List ℕ → ℕ → List ℕ → List GeoEvent → List (ℕ × Option GeoEvent) → List (ℕ × Option GeoEvent)
fill [] i not_found events results = results
fill (entity_id ∷ entity_ids) i not_found events results =
    let (event, left) = take_event (is_in i not_found) events in
    fill entity_ids (i + 1) not_found left (store entity_id event results)

abbrev pub latest_of :
    (List ℕ → Result Error BatchReply) → List ℕ → Result Error (List (ℕ × Option GeoEvent))
latest_of submit [] = ok []
latest_of submit (e ∷ entity_ids) =
    if ltb 10_000 (length (e ∷ entity_ids))
    then err (client_error batch_too_large)
    else and_then (submit (e ∷ entity_ids))
        (λ reply. ok (fill (e ∷ entity_ids) 0 reply.not_found_indices reply.events []))

unfoldable pub get_latest_batch :
    Bool → (List ℕ → Result Error BatchReply) → List ℕ → Result Error (List (ℕ × Option GeoEvent))
unfolding fill
get_latest_batch closed submit entity_ids = if_open closed (latest_of submit entity_ids)

-- `events[-1].timestamp if events else None`
abbrev pub last_timestamp : List GeoEvent → Option ℕ
last_timestamp [] = none
last_timestamp (e ∷ []) = some e.timestamp
last_timestamp (e ∷ f ∷ events) = last_timestamp (f ∷ events)

-- the end that `query_latest`, `query_radius` and `query_polygon` share
unfoldable pub answer_query : ℕ → Result Error (List GeoEvent) → Result Error QueryResult
answer_query limit reply =
    if ltb query_limit_max limit
    then err (client_error query_result_too_large)
    else and_then reply (λ events. ok (record {
      events = events;
      has_more = length events == limit;
      cursor = last_timestamp events;
    }))

pub record QueryLatestFilter : Type 0 where
  pub limit : ℕ
  pub group_id : ℕ
  pub cursor_timestamp : ℕ

unfoldable pub query_latest :
    Bool
    → (QueryLatestFilter → Result Error (List GeoEvent))
    → QueryLatestFilter
    → Result Error QueryResult
unfolding answer_query
query_latest closed submit filter = if_open closed (answer_query filter.limit (submit filter))
