-- ===== src/Native/Reads.antt =====
-- The queries of the low-level client (src/clients/python/src/archerdb/_native.py, `query_uuid`,
-- `query_uuid_batch`, `query_radius`, `query_latest`, `query_polygon`).
use archerdb.Base.{
  ℕ, zero, suc, ◌+◌, ◌*◌, ◌/◌, not, ◌||◌, ◌&&◌, List, [], ◌∷◌, ◌++◌, Result, ok, err, and_then,
  length, ltb, leb, ◌==◌, if◌then◌else◌, slice, drop,
}
use archerdb.Base.Int.{pos}
use archerdb.Types.{GeoEvent}
use archerdb.Errors.{Error, other, codes}
use archerdb.Wire.{WireError, little}
use archerdb.Wire.Filters.{
  QueryRadiusFilter, QueryPolygonFilter, query_radius_filter_to_wire, query_polygon_filter_to_wire,
}
use archerdb.Wire.Struct.{struct_bytes}
use archerdb.Wire.Event.{wire_to_geo_event}
use archerdb.Query.{BatchReply, QueryLatestFilter}
use archerdb.Native.{NativeClientResult}
use archerdb.Native.Writes.{NativeSubmit, is_ok_status, bytes_of, has_bytes, ids_bytes, decimal}

-- `query_uuid` behind the submit: the first byte of the reply is its status
unfoldable pub judge_uuid : NativeClientResult → Result Error (List GeoEvent)
judge_uuid result =
    let bytes = bytes_of result.payload in
    let status = little (slice bytes 0 1) in
    if not (is_ok_status result.status)
    then ok []
    else if ltb result.data_size 16 || not (has_bytes result.payload)
    then ok []
    else if status == 0
    then if ltb result.data_size (16 + 128)
      then ok []
      else ok (wire_to_geo_event (slice bytes 16 (16 + 128)) ∷ [])
    else if status == 200
    then ok []
    else if status == 210
    then err (other (codes "[210] Entity has expired due to TTL"))
    else err (
        other (
          codes "["
          ++ decimal (pos status)
          ++ codes "] Query UUID failed with status "
          ++ decimal (pos status)))

-- the not-found indices from this offset on; one that lies behind the data is left out
unfoldable pub read_indices : ℕ → ℕ → List ℕ → ℕ → List ℕ
read_indices zero size bytes offset = []
read_indices (suc n) size bytes offset =
    let fits = leb (offset + 2) size in
    let rest = read_indices n size bytes (if fits then offset + 2 else offset) in
    if fits then little (slice bytes offset (offset + 2)) ∷ rest else rest

unfoldable pub read_found : ℕ → ℕ → List ℕ → ℕ → List GeoEvent
read_found zero size bytes offset = []
read_found (suc n) size bytes offset =
    let fits = leb (offset + 128) size in
    let rest = read_found n size bytes (if fits then offset + 128 else offset) in
    if fits then wire_to_geo_event (slice bytes offset (offset + 128)) ∷ rest else rest

-- where the events begin: behind the header and room for all indices, in multiples of 16 bytes
abbrev pub events_offset : ℕ → ℕ → ℕ
events_offset found_count not_found_count =
    (16 + (found_count + not_found_count) * 2 + 15) / 16 * 16

-- `list(range(count))`
abbrev pub range_from : ℕ → ℕ → List ℕ
range_from i zero = []
range_from i (suc n) = i ∷ range_from (i + 1) n

abbrev pub all_missing : ℕ → BatchReply
all_missing count = record { not_found_indices = range_from 0 count; events = [] }

abbrev pub parse_batch : NativeClientResult → BatchReply
parse_batch result =
    let bytes = bytes_of result.payload in
    let found_count = little (slice bytes 0 4) in
    let not_found_count = little (slice bytes 4 8) in
    record {
      not_found_indices = read_indices not_found_count result.data_size bytes 16;
      events =
          read_found found_count result.data_size bytes (events_offset found_count not_found_count);
    }

-- `query_uuid_batch` behind the submit, for this many ids
unfoldable pub judge_batch : ℕ → NativeClientResult → BatchReply
unfolding read_indices read_found
judge_batch count result =
    if not (is_ok_status result.status)
    then all_missing count
    else if ltb result.data_size 16 || not (has_bytes result.payload)
    then all_missing count
    else parse_batch result

-- the events of a reply, from number `i` on
unfoldable pub read_events : ℕ → List ℕ → ℕ → List GeoEvent
read_events zero event_data i = []
read_events (suc n) event_data i =
    wire_to_geo_event (slice event_data (i * 128) ((i + 1) * 128))
    ∷ read_events n event_data (i + 1)

-- `query_radius`, `query_latest` and `query_polygon` behind the submit
unfoldable pub judge_events : NativeClientResult → List GeoEvent
unfolding read_events
judge_events result =
    let event_data = drop 16 (bytes_of result.payload) in
    if not (is_ok_status result.status)
    then []
    else if ltb 16 result.data_size && has_bytes result.payload
    then read_events (length event_data / 128) event_data 0
    else []

-- `query_latest_filter_to_wire`
abbrev pub query_latest_filter_to_wire : QueryLatestFilter → List ℕ
query_latest_filter_to_wire filter =
    struct_bytes (4 ∷ 4 ∷ 8 ∷ 8 ∷ 104 ∷ [])
      (filter.limit ∷ 0 ∷ filter.group_id ∷ filter.cursor_timestamp ∷ [])

-- the exception of packing a filter
abbrev pub or_error : {A : Type 0} → Result WireError A → Result Error A
or_error (ok a) = ok a
or_error (err e) = err (other (codes "argument out of range"))

module _ (submit : NativeSubmit) where
  -- an id above 128 bits loses what is above
  unfoldable pub query_uuid : ℕ → Result Error (List GeoEvent)
  unfolding judge_uuid
  query_uuid entity_id =
      and_then (submit 149 (struct_bytes (16 ∷ 16 ∷ []) (entity_id ∷ []))) judge_uuid

  unfoldable pub query_uuid_batch : List ℕ → Result Error BatchReply
  unfolding judge_batch ids_bytes
  query_uuid_batch [] = ok (all_missing 0)
  query_uuid_batch (entity_id ∷ entity_ids) =
      let entity_ids' = entity_id ∷ entity_ids in
      and_then (ids_bytes entity_ids') (λ entity_bytes.
        and_then (submit 156 (struct_bytes (4 ∷ 12 ∷ []) (length entity_ids' ∷ []) ++ entity_bytes))
          (λ result. ok (judge_batch (length entity_ids') result)))

  -- the operation's code and the bytes of its filter
  unfoldable pub query_events : ℕ → List ℕ → Result Error (List GeoEvent)
  unfolding judge_events
  query_events operation bytes =
      and_then (submit operation bytes) (λ result. ok (judge_events result))

  unfoldable pub query_latest : QueryLatestFilter → Result Error (List GeoEvent)
  unfolding query_events
  query_latest filter = query_events 154 (query_latest_filter_to_wire filter)

  unfoldable pub query_radius : QueryRadiusFilter → Result Error (List GeoEvent)
  unfolding query_events query_radius_filter_to_wire
  query_radius filter = query_events 150 (query_radius_filter_to_wire filter)

  -- with the `struct.error` of a number that does not fit
  unfoldable pub query_polygon : QueryPolygonFilter → Result Error (List GeoEvent)
  unfolding query_events query_polygon_filter_to_wire
  query_polygon filter =
      and_then (or_error (query_polygon_filter_to_wire filter)) (query_events 151)
