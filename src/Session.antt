-- ===== src/Session.antt =====
-- The client over its low-level client (src/clients/python/src/archerdb/client.py, `GeoClientSync`):
-- opening and closing, and one attempt of each request.
pub mod Evicted
pub mod Retried
mod Tests
use archerdb.Base.{
  ℕ, Bool, true, false, not, ◌||◌, List, [], ◌∷◌, Option, none, some, Result, ok, err, and_then,
  map, if◌then◌else◌,
}
use archerdb.Types.{GeoEvent, BatchError, insert_geo_events_error, delete_entities_error}
use archerdb.Errors.{Error, client_error, client_closed, connection_failed, other, codes}
use archerdb.Query.{QueryLatestFilter}
use archerdb.Native.{
  NativeClient, new_client, connect, begin_disconnect, end_disconnect, clear_inflight,
}
use archerdb.Native.Inflight.{Call, run}
use archerdb.Native.Writes.{NativeSubmit, insert_events, upsert_events, delete_entities}
use archerdb.Native.Reads.{query_uuid, query_radius, query_latest, query_polygon}
use archerdb.Wire.Filters.{QueryRadiusFilter, QueryPolygonFilter}

pub record GeoClientSync : Type 0 where
  pub closed : Bool
  pub native : NativeClient

-- `__init__` and `_connect`, with whether there is an address and whether the library connects
unfoldable pub open_client : Bool → Bool → Result Error GeoClientSync
unfolding connect
open_client has_address success =
    if not has_address
    then err (other (codes "At least one replica address is required"))
    else if (connect success new_client).1
    then ok (record { closed = false; native = (connect success new_client).0 })
    else err (client_error connection_failed)

abbrev pub cleared : NativeClient × Bool → NativeClient
cleared (s, false) = s
cleared (s, true) = clear_inflight s

-- `NativeClient.disconnect`, with what other threads and the library do while it waits
abbrev pub disconnected : List Call → NativeClient → Option (List ℕ) → NativeClient
disconnected calls s none = s
disconnected calls s (some pending) = cleared (end_disconnect pending (run calls s))

unfoldable pub close : List Call → GeoClientSync → GeoClientSync
unfolding begin_disconnect end_disconnect clear_inflight run
close calls c = if c.closed then c else record c {
  closed = true;
  native = disconnected calls c.native (begin_disconnect c.native);
}

-- a request of the low-level client: what it does to it, and its outcome
abbrev pub NativeRequest : Type 0 → Type 0
NativeRequest A = NativeClient → NativeClient × Result Error A

-- `if not self._native.is_connected(): self._native.connect()`, with whether that succeeds, and with
-- what other threads and the library do between the test and the next step
unfoldable pub reconnected : Bool → List Call → NativeClient → NativeClient
unfolding connect run
reconnected success meanwhile s =
    if not s.connected then (connect success (run meanwhile s)).0 else run meanwhile s

-- What other threads and the library do to the low-level client during an attempt: before the test
-- of the connection, behind it, and before `submit` takes the lock; and whether another thread closes
-- the client.
pub record Others : Type 0 where
  pub before_test : List Call
  pub behind_test : List Call
  pub before_submit : List Call
  pub closes : Bool

-- the low-level client when `submit` takes the lock
abbrev pub reached : Bool → Others → NativeClient → NativeClient
reached success others s =
    run others.before_submit (reconnected success others.behind_test (run others.before_test s))

module _ {A : Type 0} where
  -- the first lines of `submit`
  unfoldable pub submit_request : NativeRequest A → NativeClient → NativeClient × Result Error A
  submit_request request s =
      if not s.connected || not s.has_client
      then (s, err (other (codes "Client not connected")))
      else request s

  abbrev pub with_native :
      GeoClientSync → NativeClient × Result Error A → GeoClientSync × Result Error A
  with_native c (native, outcome) = (record c { native = native }, outcome)

  -- an attempt of `_submit_batch`, `_submit_query` or `_submit_batch_uuid_query`
  unfoldable pub data_attempt :
      Bool → Others → NativeRequest A → GeoClientSync → GeoClientSync × Result Error A
  unfolding submit_request reconnected run
  data_attempt success others request c =
      if c.closed
      then (c, err (client_error client_closed))
      else with_native (record c { closed = others.closes })
          (submit_request request (reached success others c.native))

  -- an attempt of `ping`, `get_status`, `cleanup_expired`, `set_ttl`, `extend_ttl`, `clear_ttl` or
  -- `get_topology`, with the test of the method before its retry loop
  unfoldable pub admin_attempt : NativeRequest A → GeoClientSync → GeoClientSync × Result Error A
  unfolding submit_request
  admin_attempt request c =
      if c.closed
      then (c, err (client_error client_closed))
      else with_native c (submit_request request c.native)

-- the operation and the items of `_submit_batch`
pub data BatchRequest : Type 0 where
  insertion upsertion : List GeoEvent → BatchRequest
  deletion : List ℕ → BatchRequest

abbrev pub insert_error : ℕ × ℕ → BatchError
insert_error (idx, code) = insert_geo_events_error idx code

abbrev pub delete_error : ℕ × ℕ → BatchError
delete_error (idx, code) = delete_entities_error idx code

abbrev pub errors_with :
    (ℕ × ℕ → BatchError) → Result Error (List (ℕ × ℕ)) → Result Error (List BatchError)
errors_with make r = and_then r (λ errors. ok (map make errors))

-- what `_submit_batch` makes of the operation
unfoldable pub submit_batch : NativeSubmit → (ℕ → ℕ) → BatchRequest → Result Error (List BatchError)
unfolding insert_events upsert_events delete_entities
submit_batch submit clock (insertion events) =
    errors_with insert_error (insert_events submit clock events)
submit_batch submit clock (upsertion events) =
    errors_with insert_error (upsert_events submit clock events)
submit_batch submit clock (deletion ids) = errors_with delete_error (delete_entities submit ids)

-- the operation and the filter of `_submit_query`
pub data QueryRequest : Type 0 where
  by_uuid : ℕ → QueryRequest
  by_radius : QueryRadiusFilter → QueryRequest
  by_latest : QueryLatestFilter → QueryRequest
  by_polygon : QueryPolygonFilter → QueryRequest

unfoldable pub submit_query : NativeSubmit → QueryRequest → Result Error (List GeoEvent)
unfolding query_uuid query_radius query_latest query_polygon
submit_query submit (by_uuid entity_id) = query_uuid submit entity_id
submit_query submit (by_radius filter) = query_radius submit filter
submit_query submit (by_latest filter) = query_latest submit filter
submit_query submit (by_polygon filter) = query_polygon submit filter
