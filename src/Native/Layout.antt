-- ===== src/Native/Layout.antt =====
-- The layout of the replies that hold events, and what the client reads from it.
use archerdb.Base.{
  ℕ, ◌+◌, ◌*◌, ◌≤◌, ◌<◌, ◌≡◌, ◌≢◌, refl, sym, ap, ◌∙◌, List, [], ◌∷◌, ◌++◌, some, length,
  length-append, drop, slice, ==_ne, le→leb, arith, All,
}
use archerdb.Base.Int.{pos}
use mathlib.Core.List.{append_assoc, append-nil}
use archerdb.Types.{GeoEvent}
use archerdb.Wire.{little, le_bytes}
use archerdb.Wire.Bytes.{length-le_bytes, little-le_bytes, after_field, slice_field}
use archerdb.Wire.Event.{
  wire_to_geo_event, geo_event_to_wire, IsSendable, sent_id, length-geo_event_to_wire,
  wire_to_geo_event-geo_event_to_wire,
}
use archerdb.Native.{NativeClientResult}
use archerdb.Native.Reads.{read_indices, read_found, read_events}

-- An event that a server holds: it has an id, and its fields hold its numbers.
abbrev pub IsStored : GeoEvent → Type 0
IsStored e = (e.id ≢ 0) × IsSendable e

-- The result of a request that the server answered with these bytes.
abbrev pub answered : List ℕ → NativeClientResult
answered bytes = record { status = pos 0; data_size = length bytes; payload = some bytes }

abbrev pub event_bytes : GeoEvent → List ℕ
event_bytes e = geo_event_to_wire 0 e

abbrev pub events_bytes : List GeoEvent → List ℕ
events_bytes [] = []
events_bytes (e ∷ events) = event_bytes e ++ events_bytes events

abbrev pub indices_bytes : List ℕ → List ℕ
indices_bytes [] = []
indices_bytes (i ∷ indices) = le_bytes 2 i ++ indices_bytes indices

pub wire_to_geo_event-event_bytes :
    (e : GeoEvent) → IsStored e → wire_to_geo_event (event_bytes e) ≡ e
wire_to_geo_event-event_bytes e h =
    let own : sent_id 0 e ≡ e.id = rw (==_ne e.id 0 h.0) refl in
    ap wire_to_geo_event (sym (append-nil (event_bytes e)))
    ∙ wire_to_geo_event-geo_event_to_wire 0 e [] h.1
    ∙ ap (λ n. record e { id = n }) own

pub length-events_bytes :
    (events : List GeoEvent) → length (events_bytes events) ≡ length events * 128
length-events_bytes [] = refl
length-events_bytes (e ∷ events) = omega (
  arith,
  length-append (event_bytes e) (events_bytes events),
  length-geo_event_to_wire 0 e,
  length-events_bytes events,
)

pub length-indices_bytes : (indices : List ℕ) → length (indices_bytes indices) ≡ length indices * 2
length-indices_bytes [] = refl
length-indices_bytes (i ∷ indices) = omega (arith, length-indices_bytes indices)

pub read_indices-indices_bytes :
    (indices : List ℕ) (size o : ℕ) (bytes rest : List ℕ)
    → drop o bytes ≡ indices_bytes indices ++ rest
    → All (λ i. i < 65_536) indices
    → o + length indices * 2 ≤ size
    → read_indices (length indices) size bytes o ≡ indices
unfolding read_indices
read_indices-indices_bytes [] size o bytes rest at small room = refl
read_indices-indices_bytes (i ∷ indices) size o bytes rest at small room =
    let fits = le→leb (o + 2) size (omega (arith, room)) in
    let head =
      slice_field o 2 bytes (le_bytes 2 i) (indices_bytes indices ++ rest) at
        (length-le_bytes 2 i) in
    let behind =
      after_field o 2 bytes (le_bytes 2 i) (indices_bytes indices ++ rest) at
        (length-le_bytes 2 i) in
    rw fits (
      ap (λ b. little b ∷ read_indices (length indices) size bytes (o + 2)) head
      ∙ ap (λ n. n ∷ read_indices (length indices) size bytes (o + 2)) (little-le_bytes 2 i small.0)
      ∙ ap (◌∷◌ i) (
          read_indices-indices_bytes indices size (o + 2) bytes rest behind small.1
            (omega (arith, room))))

pub read_found-events_bytes :
    (events : List GeoEvent) (size o : ℕ) (bytes rest : List ℕ)
    → drop o bytes ≡ events_bytes events ++ rest
    → All IsStored events
    → o + length events * 128 ≤ size
    → read_found (length events) size bytes o ≡ events
unfolding read_found
read_found-events_bytes [] size o bytes rest at good room = refl
read_found-events_bytes (e ∷ events) size o bytes rest at good room =
    let fits = le→leb (o + 128) size (omega (arith, room)) in
    let at_event = at ∙ append_assoc (event_bytes e) (events_bytes events) rest in
    let long = length-geo_event_to_wire 0 e in
    let head =
      slice_field o 128 bytes (event_bytes e) (events_bytes events ++ rest) at_event long in
    let behind =
      after_field o 128 bytes (event_bytes e) (events_bytes events ++ rest) at_event long in
    rw fits (
      ap (λ b. wire_to_geo_event b ∷ read_found (length events) size bytes (o + 128)) head
      ∙ ap (λ x. x ∷ read_found (length events) size bytes (o + 128))
          (wire_to_geo_event-event_bytes e good.0)
      ∙ ap (◌∷◌ e) (
          read_found-events_bytes events size (o + 128) bytes rest behind good.1
            (omega (arith, room))))

pub read_events-events_bytes :
    (events : List GeoEvent) (i : ℕ) (bytes : List ℕ)
    → drop (i * 128) bytes ≡ events_bytes events
    → All IsStored events
    → read_events (length events) bytes i ≡ events
unfolding read_events
read_events-events_bytes [] i bytes at good = refl
read_events-events_bytes (e ∷ events) i bytes at good =
    let o = i * 128 in
    let long = length-geo_event_to_wire 0 e in
    let head = slice_field o 128 bytes (event_bytes e) (events_bytes events) at long in
    let behind = after_field o 128 bytes (event_bytes e) (events_bytes events) at long in
    ap (λ stop. wire_to_geo_event (slice bytes o stop) ∷ read_events (length events) bytes (i + 1))
      {x = (i + 1) * 128} {y = o + 128} (omega arith)
    ∙ ap (λ b. wire_to_geo_event b ∷ read_events (length events) bytes (i + 1)) head
    ∙ ap (λ x. x ∷ read_events (length events) bytes (i + 1))
        (wire_to_geo_event-event_bytes e good.0)
    ∙ ap (◌∷◌ e) (
        read_events-events_bytes events (i + 1) bytes
          (ap (λ n. drop n bytes) {x = (i + 1) * 128} {y = o + 128} (omega arith) ∙ behind) good.1)
