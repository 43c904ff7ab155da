-- ===== src/Native/Lookup.antt =====
-- The batch lookup from the application down to the bytes of the server's reply, and the queries.
use archerdb.Base.{
  ℕ, ◌+◌, ◌-◌, ◌*◌, ◌%◌, ◌^◌, ◌≤◌, ◌<◌, ◌≡◌, refl, sym, ap, ◌∙◌, true, false, List, [], ◌∷◌, ◌++◌,
  Option, none, some, not, ◌||◌, if◌then◌else◌, ok, and_then, length, length-append, drop, slice,
  lt→ltb, le→ltb, arith, All,
}
use mathlib.Core.List.{append-nil}
use archerdb.Types.{GeoEvent}
use archerdb.Wire.{little, le_bytes}
use archerdb.Wire.Bytes.{
  length-le_bytes, little-le_bytes, after_field, slice_field, zeros, length-zeros,
}
use archerdb.Wire.Struct.{struct_bytes}
use archerdb.Query.{BatchReply, get_latest_batch}
use archerdb.Query.Lookup.{events_of, IsLatest, get_latest_batch-IsLatest}
use archerdb.Native.{NativeClientResult}
use archerdb.Native.Writes.{NativeSubmit, has_bytes, is_ok_status, ids_bytes}
use archerdb.Native.Reads.{
  read_indices, read_found, events_offset, parse_batch, judge_batch, all_missing, range_from,
  query_uuid_batch,
}
use archerdb.Native.Layout.{
  IsStored, answered, events_bytes, indices_bytes, length-events_bytes, length-indices_bytes,
  read_indices-indices_bytes, read_found-events_bytes,
}
use archerdb.Native.Missing.{
  missing, missing-IsReply, counts, missing-small, Holds, events_of-IsStored,
}

-- The bytes that ask for these ids: their number, 12 zeros, and 16 bytes for each.
abbrev pub ids_layout : List ℕ → List ℕ
ids_layout [] = []
ids_layout (id ∷ ids) = le_bytes 16 id ++ ids_layout ids

abbrev pub request_bytes : List ℕ → List ℕ
request_bytes ids = le_bytes 4 (length ids) ++ (zeros 12 ++ ids_layout ids)

-- the zeros between the indices and the events
abbrev pub padding : ℕ → ℕ → ℕ
padding f m = f * 2 + (16 - (f + m) * 2 % 16) % 16

-- The bytes of a server's reply: the number of events and of not-found indices, eight zeros, the
-- indices, room for an index of each of the events, zeros up to a multiple of 16 bytes, and the
-- events.
unfoldable pub batch_bytes : List GeoEvent → List ℕ → List ℕ
batch_bytes events indices =
    le_bytes 4 (length events)
    ++ (le_bytes 4 (length indices)
        ++ (zeros 8
            ++ (indices_bytes indices
                ++ (zeros (padding (length events) (length indices)) ++ events_bytes events))))

length-batch_bytes :
    (events : List GeoEvent) (indices : List ℕ)
    → length (batch_bytes events indices)
      ≡ events_offset (length events) (length indices) + length events * 128
unfolding batch_bytes
length-batch_bytes events indices =
    let pad = zeros (padding (length events) (length indices)) in
    omega (
      arith,
      length-append (indices_bytes indices) (pad ++ events_bytes events),
      length-append pad (events_bytes events),
      length-zeros (padding (length events) (length indices)),
      length-indices_bytes indices,
      length-events_bytes events,
    )

-- what `parse_batch` reads once it has the counts
abbrev parsed : ℕ → ℕ → List ℕ → BatchReply
parsed f m bytes = record {
  not_found_indices = read_indices m (length bytes) bytes 16;
  events = read_found f (length bytes) bytes (events_offset f m);
}

parse_batch-batch_bytes :
    (events : List GeoEvent) (indices bytes : List ℕ)
    → bytes ≡ batch_bytes events indices
    → All IsStored events
    → All (λ i. i < 65_536) indices
    → length events < 256 ^ 4
    → length indices < 256 ^ 4
    → parse_batch (answered bytes) ≡ record { not_found_indices = indices; events = events }
unfolding batch_bytes
parse_batch-batch_bytes events indices bytes whole good small few few' =
    let f = length events in
    let m = length indices in
    let n = padding f m in
    let pad = zeros n in
    let behind_indices = pad ++ events_bytes events in
    let behind_zeros = indices_bytes indices ++ behind_indices in
    let behind_counts = zeros 8 ++ behind_zeros in
    let behind_found = le_bytes 4 m ++ behind_counts in
    let at4 = after_field 0 4 bytes (le_bytes 4 f) behind_found whole (length-le_bytes 4 f) in
    let at8 = after_field 4 4 bytes (le_bytes 4 m) behind_counts at4 (length-le_bytes 4 m) in
    let at16 = after_field 8 8 bytes (zeros 8) behind_zeros at8 (length-zeros 8) in
    let at_pad =
      after_field 16 (m * 2) bytes (indices_bytes indices) behind_indices at16
        (length-indices_bytes indices) in
    let at_end =
      after_field (16 + m * 2) n bytes pad (events_bytes events) at_pad (length-zeros n) in
    let at_events =
      ap (λ o. drop o bytes) {x = events_offset f m} {y = 16 + m * 2 + n} (omega arith)
      ∙ at_end
      ∙ sym (append-nil (events_bytes events)) in
    let size = ap length whole ∙ length-batch_bytes events indices in
    let found_count =
      ap little (slice_field 0 4 bytes (le_bytes 4 f) behind_found whole (length-le_bytes 4 f))
      ∙ little-le_bytes 4 f few in
    let not_found_count =
      ap little (slice_field 4 4 bytes (le_bytes 4 m) behind_counts at4 (length-le_bytes 4 m))
      ∙ little-le_bytes 4 m few' in
    ap (λ k. parsed k (little (slice bytes 4 8)) bytes) found_count
    ∙ ap (λ k. parsed f k bytes) not_found_count
    ∙ ap
        (λ is. record {
          not_found_indices = is;
          events = read_found f (length bytes) bytes (events_offset f m);
        })
        (read_indices-indices_bytes indices (length bytes) 16 bytes behind_indices at16 small
          (omega (arith, size)))
    ∙ ap (λ es. record { not_found_indices = indices; events = es })
        (read_found-events_bytes events (length bytes) (events_offset f m) bytes [] at_events good
          (omega (arith, size)))

pub ids_bytes-ids_layout :
    (ids : List ℕ) → All (λ id. id < 2 ^ 128) ids → ids_bytes ids ≡ ok (ids_layout ids)
unfolding ids_bytes
ids_bytes-ids_layout [] fit = refl
ids_bytes-ids_layout (id ∷ ids) fit =
    rw (lt→ltb id (2 ^ 128) fit.0)
      (ap (λ r. and_then r (λ rest. ok (le_bytes 16 id ++ rest))) (ids_bytes-ids_layout ids fit.1))

has_bytes-batch_bytes :
    (events : List GeoEvent) (indices : List ℕ)
    → has_bytes (some (batch_bytes events indices)) ≡ true
unfolding batch_bytes
has_bytes-batch_bytes events indices = refl

judged :
    (ids : List ℕ) (events : List GeoEvent) (indices : List ℕ)
    → All IsStored events
    → All (λ i. i < 65_536) indices
    → length events < 256 ^ 4
    → length indices < 256 ^ 4
    → judge_batch (length ids) (answered (batch_bytes events indices))
      ≡ record { not_found_indices = indices; events = events }
unfolding judge_batch
judged ids events indices good small few few' =
    let bytes = batch_bytes events indices in
    let reply = parse_batch (answered bytes) in
    let missed = all_missing (length ids) in
    let long = le→ltb (length bytes) 16 (omega (arith, length-batch_bytes events indices)) in
    ap (λ short. if short || not (has_bytes (some bytes)) then missed else reply) long
    ∙ ap (λ there. if not there then missed else reply) (has_bytes-batch_bytes events indices)
    ∙ parse_batch-batch_bytes events indices bytes refl good small few few'

-- the request as it is sent, and what is made of the result
query_uuid_batch-sent :
    (submit : NativeSubmit) (ids : List ℕ) (result : NativeClientResult)
    → 1 ≤ length ids
    → All (λ id. id < 2 ^ 128) ids
    → submit 156 (request_bytes ids) ≡ ok result
    → query_uuid_batch submit ids ≡ ok (judge_batch (length ids) result)
unfolding query_uuid_batch
query_uuid_batch-sent submit [] result some_id fit answer = absurd (omega arith)
query_uuid_batch-sent submit (id ∷ ids) result some_id fit answer =
    let count = length (id ∷ ids) in
    ap
      (λ r. and_then r (λ bytes.
        and_then (submit 156 (struct_bytes (4 ∷ 12 ∷ []) (count ∷ []) ++ bytes))
          (λ result. ok (judge_batch count result))))
      (ids_bytes-ids_layout (id ∷ ids) fit)
    ∙ ap (λ r. and_then r (λ result. ok (judge_batch count result))) answer

judge_batch-failed :
    (count : ℕ) (result : NativeClientResult)
    → is_ok_status result.status ≡ false
    → judge_batch count result ≡ all_missing count
unfolding judge_batch
judge_batch-failed count result failed = rw failed refl

-- When an open client looks up at least one and at most 10,000 ids of 128 bits, and the server gets
-- the bytes of that request and answers with the bytes of what it holds for them, the dictionary
-- gives for every id exactly what the server holds, and has no other ids.
pub get_latest_batch-answered :
    (found : ℕ → Option GeoEvent) (submit : NativeSubmit) (ids : List ℕ)
    → Holds found
    → 1 ≤ length ids
    → length ids ≤ 10_000
    → All (λ id. id < 2 ^ 128) ids
    → submit 156 (request_bytes ids)
      ≡ ok (answered (batch_bytes (events_of found ids) (missing found 0 ids)))
    → (results : List (ℕ × Option GeoEvent)) × get_latest_batch false (query_uuid_batch submit) ids
        ≡ ok results
      × IsLatest found ids results
get_latest_batch-answered found submit ids holds some_id few fit answer =
    let events = events_of found ids in
    let indices = missing found 0 ids in
    let total = counts found 0 ids in
    let reply =
      query_uuid_batch-sent submit ids (answered (batch_bytes events indices)) some_id fit answer
      ∙ ap ok (
          judged ids events indices (events_of-IsStored found holds ids)
            (missing-small found 0 ids (omega (arith, few))) (omega (arith, total, few))
            (omega (arith, total, few))) in
    get_latest_batch-IsLatest found (query_uuid_batch submit)
      (record { not_found_indices = indices; events = events }) ids some_id few reply
      (missing-IsReply found ids)

all_missing-missing :
    (i : ℕ) (ids : List ℕ) → range_from i (length ids) ≡ missing (λ id. none) i ids
all_missing-missing i [] = refl
all_missing-missing i (id ∷ ids) = ap (◌∷◌ i) (all_missing-missing (i + 1) ids)

events_of-none : (ids : List ℕ) → events_of (λ id. none) ids ≡ []
events_of-none [] = refl
events_of-none (id ∷ ids) = events_of-none ids

-- Whatever the server holds: when the batch lookup of at least one and at most 10,000 ids of 128 bits
-- fails, with any status but OK (a timeout, a lost connection, an error of the server), no error is
-- raised, and the dictionary has `None` for every id, as it has when none of them exists.
pub failed_lookup-IsLatest :
    (submit : NativeSubmit) (result : NativeClientResult) (ids : List ℕ)
    → 1 ≤ length ids
    → length ids ≤ 10_000
    → All (λ id. id < 2 ^ 128) ids
    → submit 156 (request_bytes ids) ≡ ok result
    → is_ok_status result.status ≡ false
    → (results : List (ℕ × Option GeoEvent)) × get_latest_batch false (query_uuid_batch submit) ids
        ≡ ok results
      × IsLatest (λ id. none) ids results
failed_lookup-IsLatest submit result ids some_id few fit answer failed =
    get_latest_batch-IsLatest (λ id. none) (query_uuid_batch submit) (all_missing (length ids)) ids
      some_id few
      (query_uuid_batch-sent submit ids result some_id fit answer
        ∙ ap ok (judge_batch-failed (length ids) result failed))
      (record {
        marked = rw (all_missing-missing 0 ids) (missing-IsReply (λ id. none) ids).marked;
        found_events = sym (events_of-none ids);
      })
