-- ===== src/Query/Tests.antt =====
-- A lookup of ids that repeat, and pages of the latest events.
use archerdb.Base.{
  ℕ, ◌≡◌, refl, true, false, List, [], ◌∷◌, none, some, Result, ok, take, ◌==◌, if◌then◌else◌,
}
use archerdb.Base.Int.{pos}
use archerdb.Types.{GeoEvent}
use archerdb.Errors.{Error}
use archerdb.Query.{BatchReply, get_latest_batch, query_latest, QueryLatestFilter}

abbrev event_of : ℕ → GeoEvent
event_of entity = record {
  id = 0;
  entity_id = entity;
  correlation_id = 0;
  user_data = 0;
  lat_nano = pos 0;
  lon_nano = pos 0;
  group_id = 0;
  timestamp = 100;
  altitude_mm = pos 0;
  velocity_mms = 0;
  ttl_seconds = 0;
  accuracy_mm = 0;
  heading_cdeg = pos 0;
  flags = 0;
}

-- the id in the middle has no event
abbrev reply : BatchReply
reply = record { not_found_indices = 1 ∷ []; events = event_of 5 ∷ event_of 5 ∷ [] }

repeated_ids :
    get_latest_batch false (λ ids. ok reply) (5 ∷ 6 ∷ 5 ∷ [])
    ≡ ok ((5, some (event_of 5)) ∷ (6, none) ∷ [])
unfolding get_latest_batch
repeated_ids = refl

a_full_page :
    query_latest false
      (λ filter. ok (event_of 5 ∷ []))
      (record { limit = 1; group_id = 0; cursor_timestamp = 0 })
    ≡ ok (record { events = event_of 5 ∷ []; has_more = true; cursor = some 100 })
unfolding query_latest
a_full_page = refl

abbrev event_at : ℕ → GeoEvent
event_at time = record (event_of 5) { timestamp = time }

-- three events, the newest first
abbrev stored : List GeoEvent
stored = event_at 300 ∷ event_at 200 ∷ event_at 100 ∷ []

-- the events behind the one with this timestamp
abbrev behind : ℕ → List GeoEvent → List GeoEvent
behind cursor [] = []
behind cursor (e ∷ events) = if e.timestamp == cursor then events else behind cursor events

abbrev server : QueryLatestFilter → Result Error (List GeoEvent)
server filter = ok (
    take filter.limit
      (if filter.cursor_timestamp == 0 then stored else behind filter.cursor_timestamp stored))

last_page :
    query_latest false server (record { limit = 2; group_id = 0; cursor_timestamp = 200 })
    ≡ ok (record { events = event_at 100 ∷ []; has_more = false; cursor = some 100 })
unfolding query_latest
last_page = refl
