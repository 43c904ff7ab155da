-- ===== src/Native/Outcomes.antt =====
-- What a write reports: the errors of its reply.
use archerdb.Base.{
  ℕ, zero, suc, ◌≢◌, leb, ◌+◌, ◌*◌, ◌/◌, ◌^◌, ◌≤◌, ◌<◌, ◌≡◌, refl, ap, ◌∙◌, true, false, ◌&&◌, List,
  [], ◌∷◌, ◌++◌, ok, err, and_then, length, drop, slice, ◌==◌, lt→ltb, if◌then◌else◌, arith, All,
}
use archerdb.Base.Int.{negsuc}
use archerdb.Types.{GeoEvent}
use archerdb.Errors.{codes}
use archerdb.Wire.{little, le_bytes}
use archerdb.Wire.Bytes.{length-le_bytes, little-le_bytes, after_field, slice_field}
use archerdb.Native.{failed_with}
use archerdb.Native.Writes.{
  NativeSubmit, insert_code, delete_code, read_errors, write_errors, judge_write, status_error,
  wire_events, insert_events, upsert_events, delete_entities,
}
use archerdb.Native.Layout.{answered}
use archerdb.Native.Lookup.{ids_layout, ids_bytes-ids_layout}

-- The bytes of a reply: an index and a code of 4 bytes each.
abbrev pub entries_bytes : List (ℕ × ℕ) → List ℕ
entries_bytes [] = []
entries_bytes ((idx, code) ∷ entries) = le_bytes 4 idx ++ (le_bytes 4 code ++ entries_bytes entries)

abbrev pub FitsEntry : ℕ × ℕ → Type 0
FitsEntry entry = (entry.0 < 256 ^ 4) × (entry.1 < 256 ^ 4)

-- The results of a write: OK is 0, the last member of `InsertGeoEventResult` is 17, its
-- RESERVED_FIELD is 4; the last member of `DeleteEntityResult` is 5, its ENTITY_NOT_FOUND is 3.
abbrev pub last_insert_result : ℕ
last_insert_result = 17

abbrev pub reserved_field : ℕ
reserved_field = 4

abbrev pub last_delete_result : ℕ
last_delete_result = 5

abbrev pub entity_not_found : ℕ
entity_not_found = 3

-- The entries that are not OK: a code up to the last one stands for itself, any other for `unknown`.
abbrev pub reported : ℕ → ℕ → List (ℕ × ℕ) → List (ℕ × ℕ)
reported last unknown [] = []
reported last unknown ((idx, zero) ∷ entries) = reported last unknown entries
reported last unknown ((idx, suc code) ∷ entries) =
    (idx, if leb (suc code) last then suc code else unknown) ∷ reported last unknown entries

-- the entries whose code does not read as 0, with what their code reads as
abbrev read_with : (ℕ → ℕ) → List (ℕ × ℕ) → List (ℕ × ℕ)
read_with known [] = []
read_with known ((idx, code) ∷ entries) =
    if known code == 0 then read_with known entries else (idx, known code) ∷ read_with known entries

-- for an enumeration from 0 to the last code, in which 0 is not what an unknown code reads as
read_with-reported :
    (last unknown : ℕ)
    → unknown ≢ 0
    → (entries : List (ℕ × ℕ))
    → read_with (λ code. if leb code last then code else unknown) entries
      ≡ reported last unknown entries
read_with-reported last unknown known [] = refl
read_with-reported last unknown known ((idx, zero) ∷ entries) =
    let rest = read_with (λ code. if leb code last then code else unknown) entries in
    let read = if leb 0 last then 0 else unknown in
    let fine : (read == 0) ≡ true = ground arith in
    ap (λ b. if b then rest else (idx, read) ∷ rest) fine
    ∙ read_with-reported last unknown known entries
read_with-reported last unknown known ((idx, suc code) ∷ entries) =
    let rest = read_with (λ code. if leb code last then code else unknown) entries in
    let read = if leb (suc code) last then suc code else unknown in
    let told : (read == 0) ≡ false = ground arith in
    ap (λ b. if b then rest else (idx, read) ∷ rest) told
    ∙ ap (◌∷◌ (idx, read)) (read_with-reported last unknown known entries)

length-entries_bytes :
    (entries : List (ℕ × ℕ)) → length (entries_bytes entries) ≡ length entries * 8
length-entries_bytes [] = refl
length-entries_bytes ((idx, code) ∷ entries) = omega (arith, length-entries_bytes entries)

-- an entry as `read_errors` keeps it
abbrev kept : ℕ → ℕ → List (ℕ × ℕ) → List (ℕ × ℕ)
kept idx code rest = if code == 0 then rest else (idx, code) ∷ rest

read_errors-read_with :
    (known : ℕ → ℕ) (entries : List (ℕ × ℕ)) (i : ℕ) (bytes : List ℕ)
    → drop (i * 8) bytes ≡ entries_bytes entries
    → All FitsEntry entries
    → read_errors known (length entries) bytes i ≡ read_with known entries
unfolding read_errors
read_errors-read_with known [] i bytes at fit = refl
read_errors-read_with known ((idx, code) ∷ entries) i bytes at fit =
    let o = i * 8 in
    let behind_code = entries_bytes entries in
    let behind_idx = le_bytes 4 code ++ behind_code in
    let at_code = after_field o 4 bytes (le_bytes 4 idx) behind_idx at (length-le_bytes 4 idx) in
    let at_next =
      after_field (o + 4) 4 bytes (le_bytes 4 code) behind_code at_code (length-le_bytes 4 code) in
    let idx_read =
      ap little (slice_field o 4 bytes (le_bytes 4 idx) behind_idx at (length-le_bytes 4 idx))
      ∙ little-le_bytes 4 idx fit.0.0 in
    let code_read =
      ap (λ stop. little (slice bytes (o + 4) stop)) {x = o + 8} {y = o + 4 + 4} (omega arith)
      ∙ ap little (
          slice_field (o + 4) 4 bytes (le_bytes 4 code) behind_code at_code
            (length-le_bytes 4 code))
      ∙ little-le_bytes 4 code fit.0.1 in
    let rest = read_errors known (length entries) bytes (i + 1) in
    ap (λ n. kept n (known (little (slice bytes (o + 4) (o + 8)))) rest) idx_read
    ∙ ap (λ n. kept idx (known n) rest) code_read
    ∙ ap (kept idx (known code)) (
        read_errors-read_with known entries (i + 1) bytes
          (ap (λ n. drop n bytes) {x = (i + 1) * 8} {y = o + 4 + 4} (omega arith) ∙ at_next) fit.1)

write_errors-read_with :
    (known : ℕ → ℕ) (entries : List (ℕ × ℕ))
    → All FitsEntry entries
    → write_errors known (answered (entries_bytes entries)) ≡ read_with known entries
unfolding write_errors
write_errors-read_with known [] fit = refl
write_errors-read_with known ((idx, code) ∷ entries) fit =
    let whole = (idx, code) ∷ entries in
    let bytes = entries_bytes whole in
    let long = length-entries_bytes whole in
    let some_bytes = lt→ltb 0 (length bytes) (omega (arith, long)) in
    let read = read_errors known (length bytes / 8) bytes 0 in
    ap (λ b. if b && true then read else []) some_bytes
    ∙ ap (λ n. read_errors known n bytes 0) {x = length bytes / 8} {y = length whole}
        (omega (arith, long))
    ∙ read_errors-read_with known whole 0 bytes refl fit

judge_write-read_with :
    (name : List ℕ) (known : ℕ → ℕ) (entries : List (ℕ × ℕ))
    → All FitsEntry entries
    → judge_write name known (answered (entries_bytes entries)) ≡ ok (read_with known entries)
unfolding judge_write
judge_write-read_with name known entries fit = ap ok (write_errors-read_with known entries fit)

insert_judged :
    (name : List ℕ) (entries : List (ℕ × ℕ))
    → All FitsEntry entries
    → judge_write name insert_code (answered (entries_bytes entries))
      ≡ ok (reported last_insert_result reserved_field entries)
insert_judged name entries fit =
    judge_write-read_with name insert_code entries fit
    ∙ ap ok (read_with-reported last_insert_result reserved_field (λ e. omega (arith, e)) entries)

delete_judged :
    (name : List ℕ) (entries : List (ℕ × ℕ))
    → All FitsEntry entries
    → judge_write name delete_code (answered (entries_bytes entries))
      ≡ ok (reported last_delete_result entity_not_found entries)
delete_judged name entries fit =
    judge_write-read_with name delete_code entries fit
    ∙ ap ok (read_with-reported last_delete_result entity_not_found (λ e. omega (arith, e)) entries)

-- an insertion that is answered, and one that is not
pub insertion_reported :
    (submit : NativeSubmit) (clock : ℕ → ℕ) (events : List GeoEvent) (entries : List (ℕ × ℕ))
    → 1 ≤ length events
    → All FitsEntry entries
    → submit 146 (wire_events clock 0 events) ≡ ok (answered (entries_bytes entries))
    → insert_events submit clock events ≡ ok (reported last_insert_result reserved_field entries)
unfolding insert_events
insertion_reported submit clock [] entries some_event fit inserted = absurd (omega arith)
insertion_reported submit clock (e ∷ events) entries some_event fit inserted =
    ap (λ r. and_then r (judge_write (codes "insert_events") insert_code)) inserted
    ∙ insert_judged (codes "insert_events") entries fit

pub insertion_failed :
    (submit : NativeSubmit) (clock : ℕ → ℕ) (events : List GeoEvent) (n : ℕ)
    → 1 ≤ length events
    → submit 146 (wire_events clock 0 events) ≡ ok (failed_with (negsuc n))
    → insert_events submit clock events
      ≡ err (status_error (codes "insert_events") (codes ": connection/timeout") (negsuc n))
unfolding insert_events judge_write
insertion_failed submit clock [] n some_event failed = absurd (omega arith)
insertion_failed submit clock (e ∷ events) n some_event failed =
    ap (λ r. and_then r (judge_write (codes "insert_events") insert_code)) failed

-- Insertion, upsertion and deletion of at least one item: when the server answers the bytes of the
-- items with the bytes of these entries, the write gives the entries in their order, each under its
-- index, without those of code 0, and without any other loss: a code up to the last one that the
-- client knows, 17 for an event and 5 for an id, stands for itself, and one above it for 4, which is
-- RESERVED_FIELD, or for 3, which is ENTITY_NOT_FOUND.
pub writes_reported :
    (submit : NativeSubmit) (clock : ℕ → ℕ) (events : List GeoEvent) (ids : List ℕ)
    (entries : List (ℕ × ℕ))
    → 1 ≤ length events
    → 1 ≤ length ids
    → All (λ id. id < 2 ^ 128) ids
    → All FitsEntry entries
    → submit 146 (wire_events clock 0 events) ≡ ok (answered (entries_bytes entries))
    → submit 147 (wire_events clock 0 events) ≡ ok (answered (entries_bytes entries))
    → submit 148 (ids_layout ids) ≡ ok (answered (entries_bytes entries))
    → (insert_events submit clock events ≡ ok (reported last_insert_result reserved_field entries))
      × (upsert_events submit clock events
          ≡ ok (reported last_insert_result reserved_field entries))
      × (delete_entities submit ids ≡ ok (reported last_delete_result entity_not_found entries))
unfolding upsert_events delete_entities
writes_reported submit clock [] ids entries some_event some_id small fit inserted upserted deleted =
    absurd (omega arith)
writes_reported submit clock (e ∷ events) [] entries some_event some_id small fit inserted upserted
      deleted =
    absurd (omega arith)
writes_reported submit clock (e ∷ events) (id ∷ ids) entries some_event some_id small fit inserted
      upserted deleted =
    (
      insertion_reported submit clock (e ∷ events) entries some_event fit inserted,
      ap (λ r. and_then r (judge_write (codes "upsert_events") insert_code)) upserted
          ∙ insert_judged (codes "upsert_events") entries fit,
      ap
            (λ r. and_then r (λ bytes.
              and_then (submit 148 bytes) (judge_write (codes "delete_entities") delete_code)))
            (ids_bytes-ids_layout (id ∷ ids) small)
          ∙ ap (λ r. and_then r (judge_write (codes "delete_entities") delete_code)) deleted
          ∙ delete_judged (codes "delete_entities") entries fit,
    )
