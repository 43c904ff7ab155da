-- ===== src/Native/ReplyTests.antt =====
-- The requests of the low-level client at concrete servers.
use archerdb.Base.{
  ℕ, ◌+◌, ◌≤◌, ◌<◌, ◌^◌, ◌≡◌, refl, sym, false, List, [], ◌∷◌, ◌++◌, Option, none, some, ok, slice,
  All, ◌==◌, if◌then◌else◌, if_elim, arith,
}
use archerdb.Base.Int.{pos, negsuc}
use mathlib.Core.Option.{some-injective}
use archerdb.Types.{GeoEvent}
use archerdb.Wire.{little}
use archerdb.Wire.Bytes.{zeros}
use archerdb.Wire.Event.{
  IsSendable, sent_id, wire_to_geo_event, geo_event_to_wire, wire_to_geo_event-geo_event_to_wire,
}
use archerdb.Query.{get_latest_batch}
use archerdb.Query.Lookup.{events_of, IsLatest}
use archerdb.Query.Paging.{pages}
use archerdb.Native.{failed_with}
use archerdb.Native.Writes.{NativeSubmit, insert_events, upsert_events, delete_entities}
use archerdb.Native.Reads.{query_uuid_batch, query_latest}
use archerdb.Native.Layout.{IsStored, answered, events_bytes}
use archerdb.Native.Missing.{missing, Holds}
use archerdb.Native.Lookup.{batch_bytes, get_latest_batch-answered, failed_lookup-IsLatest}
use archerdb.Native.Queries.{pages_served}
use archerdb.Native.Outcomes.{
  entries_bytes, reported, last_insert_result, reserved_field, last_delete_result, entity_not_found,
  writes_reported,
}

-- an event in the south-west, below the sea
abbrev event_at : ℕ → GeoEvent
event_at time = record {
  id = 70 + time;
  entity_id = 5;
  correlation_id = 0;
  user_data = 0;
  lat_nano = negsuc 33_000_000_000;
  lon_nano = negsuc 70_000_000_000;
  group_id = 1;
  timestamp = time;
  altitude_mm = negsuc 4;
  velocity_mms = 12;
  ttl_seconds = 0;
  accuracy_mm = 3;
  heading_cdeg = pos 35_999;
  flags = 0;
}

event_at-IsSendable : (time : ℕ) → time ≤ 1_000 → IsSendable (event_at time)
event_at-IsSendable time early = record {
  id_fits = omega (arith, early);
  entity_fits = omega arith;
  correlation_fits = omega arith;
  user_data_fits = omega arith;
  lat_fits = omega arith;
  lon_fits = omega arith;
  group_fits = omega arith;
  timestamp_fits = omega (arith, early);
  altitude_fits = omega arith;
  velocity_fits = omega arith;
  ttl_fits = omega arith;
  accuracy_fits = omega arith;
  heading_fits = omega arith;
  flags_fit = omega arith;
}

event_at-IsStored : (time : ℕ) → time ≤ 1_000 → IsStored (event_at time)
event_at-IsStored time early = (λ e. absurd (omega (arith, e)), event_at-IsSendable time early)

wire_to_geo_event-geo_event_to_wire_example :
    wire_to_geo_event (geo_event_to_wire 99 (event_at 100) ++ (1 ∷ []))
    ≡ record (event_at 100) { id = sent_id 99 (event_at 100) }
wire_to_geo_event-geo_event_to_wire_example =
    wire_to_geo_event-geo_event_to_wire 99 (event_at 100) (1 ∷ [])
      (event_at-IsSendable 100 (omega arith))

-- the server holds an event of the entity 5 only
abbrev held : ℕ → Option GeoEvent
held entity = if entity == 5 then some (event_at 100) else none

held-Holds : Holds held
held-Holds id e =
    if_elim (λ o. o ≡ some e → IsStored e) (id == 5)
      (λ five h. rw (sym (some-injective (event_at 100) e h)) (event_at-IsStored 100 (omega arith)))
      (λ other h. cc)

abbrev ids : List ℕ
ids = 5 ∷ 6 ∷ 5 ∷ []

ids-small : All (λ id. id < 2 ^ 128) ids
ids-small = (omega arith, (omega arith, (omega arith, tt)))

abbrev lookup_server : NativeSubmit
lookup_server operation bytes =
    ok (answered (batch_bytes (events_of held ids) (missing held 0 ids)))

get_latest_batch-answered_example :
    (results : List (ℕ × Option GeoEvent)) × get_latest_batch false
        (query_uuid_batch lookup_server)
        ids
      ≡ ok results
    × IsLatest held ids results
get_latest_batch-answered_example =
    get_latest_batch-answered held lookup_server ids held-Holds (omega arith) (omega arith)
      ids-small refl

-- every request times out
abbrev silent : NativeSubmit
silent operation bytes = ok (failed_with (negsuc 1))

failed_lookup-IsLatest_example :
    (results : List (ℕ × Option GeoEvent)) × get_latest_batch false (query_uuid_batch silent) ids
      ≡ ok results
    × IsLatest (λ id. none) ids results
failed_lookup-IsLatest_example =
    failed_lookup-IsLatest silent (failed_with (negsuc 1)) ids (omega arith) (omega arith) ids-small
      refl refl

-- The server has two events and gives one at a time.
abbrev page_at : ℕ → List GeoEvent
page_at cursor =
    if cursor == 0 then event_at 100 ∷ [] else if cursor == 100 then event_at 200 ∷ [] else []

abbrev page_server : NativeSubmit
page_server operation bytes =
    ok (answered (zeros 16 ++ events_bytes (page_at (little (slice bytes 16 24)))))

pages_served_example :
    pages (query_latest page_server) 1 1 3 0 ≡ ok (event_at 100 ∷ event_at 200 ∷ [])
pages_served_example =
    pages_served page_server 1 1 3 (event_at 100 ∷ event_at 200 ∷ [])
      (event_at-IsStored 100 (omega arith), (event_at-IsStored 200 (omega arith), tt)) (omega arith)
      (omega arith) (record { header = zeros 16; long = refl; reply = refl })
      (
        record { header = zeros 16; long = refl; reply = refl },
        (record { header = zeros 16; long = refl; reply = refl }, tt),
      )
      (omega arith)

-- The first item exists, the second is done, and the third has a code that the client does not know.
abbrev entries : List (ℕ × ℕ)
entries = (0, 13) ∷ (1, 0) ∷ (2, 99) ∷ []

abbrev write_server : NativeSubmit
write_server operation bytes = ok (answered (entries_bytes entries))

abbrev three_events : List GeoEvent
three_events = event_at 100 ∷ event_at 200 ∷ event_at 300 ∷ []

unknown_code : reported last_insert_result reserved_field entries ≡ (0, 13) ∷ (2, 4) ∷ []
unknown_code = refl

writes_reported_example :
    (insert_events write_server (λ i. 9 + i) three_events
      ≡ ok (reported last_insert_result reserved_field entries))
    × (upsert_events write_server (λ i. 9 + i) three_events
        ≡ ok (reported last_insert_result reserved_field entries))
    × (delete_entities write_server ids ≡ ok (reported last_delete_result entity_not_found entries))
writes_reported_example =
    writes_reported write_server (λ i. 9 + i) three_events ids entries (omega arith) (omega arith)
      ids-small
      ((omega arith, omega arith), ((omega arith, omega arith), ((omega arith, omega arith), tt)))
      refl refl refl
