-- ===== src/Native/Queries.antt =====
-- The latest events, page by page, from a caller's loop down to the bytes of the server's replies.
use archerdb.Base.{
  ℕ, zero, suc, ◌/◌, ◌≤◌, ◌<◌, ◌≡◌, refl, ap, ◌∙◌, true, false, ◌&&◌, List, [], ◌∷◌, ◌++◌, some, ok,
  and_then, length, length-append, drop, take, All-take, lt→ltb, le→ltb, if◌then◌else◌, arith, All,
}
use archerdb.Types.{GeoEvent}
use archerdb.Wire.{le_bytes}
use archerdb.Wire.Bytes.{drop-append_length, zeros}
use archerdb.Query.{query_limit_max}
use archerdb.Query.Paging.{filter_from, pages, Continues, pages_from, pages_complete}
use archerdb.Native.{NativeClientResult}
use archerdb.Native.Writes.{NativeSubmit, has_bytes, is_ok_status}
use archerdb.Native.Reads.{read_events, judge_events, query_events, query_latest}
use archerdb.Native.Layout.{
  IsStored, events_bytes, length-events_bytes, read_events-events_bytes, answered,
}

-- what is read behind a header of 16 bytes
read_behind :
    (header : List ℕ) (events : List GeoEvent)
    → length header ≡ 16
    → All IsStored events
    → read_events
        (length (drop 16 (header ++ events_bytes events)) / 128)
        (drop 16 (header ++ events_bytes events))
        0
      ≡ events
read_behind header events long good =
    let behind = drop-append_length 16 header (events_bytes events) long in
    let count : length (drop 16 (header ++ events_bytes events)) / 128 ≡ length events =
      omega (arith, ap length behind, length-events_bytes events) in
    ap (λ n. read_events n (drop 16 (header ++ events_bytes events)) 0) count
    ∙ read_events-events_bytes events 0 (drop 16 (header ++ events_bytes events)) behind good

has_bytes-append :
    (header rest : List ℕ) → length header ≡ 16 → has_bytes (some (header ++ rest)) ≡ true
has_bytes-append [] rest long = absurd (omega (arith, long))
has_bytes-append (b ∷ header) rest long = refl

-- the events of a reply of 16 bytes of header and the events
judge_events-events_bytes :
    (header : List ℕ) (events : List GeoEvent)
    → length header ≡ 16
    → All IsStored events
    → judge_events (answered (header ++ events_bytes events)) ≡ events
unfolding judge_events
judge_events-events_bytes header [] long good =
    let short =
      le→ltb 16 (length (header ++ [])) (omega (arith, long, length-append {A = ℕ} header [])) in
    rw short refl
judge_events-events_bytes header (e ∷ events) long good =
    let bytes = header ++ events_bytes (e ∷ events) in
    let enough = lt→ltb 16 (length bytes) (
      omega (
        arith,
        long,
        length-append header (events_bytes (e ∷ events)),
        length-events_bytes (e ∷ events),
      )) in
    let found = read_events (length (drop 16 bytes) / 128) (drop 16 bytes) 0 in
    ap (λ b. if b && has_bytes (some bytes) then found else []) enough
    ∙ ap (λ b. if b then found else []) (has_bytes-append header (events_bytes (e ∷ events)) long)
    ∙ read_behind header (e ∷ events) long good

take-none : (n : ℕ) → [] ≡ take {A = GeoEvent} n []
take-none zero = refl
take-none (suc n) = refl

judge_events-failed :
    (result : NativeClientResult) → is_ok_status result.status ≡ false → judge_events result ≡ []
unfolding judge_events
judge_events-failed result failed = rw failed refl

module _ (submit : NativeSubmit) (group_id limit : ℕ) where
  -- The bytes that ask for a page: the limit, four zeros, the group, the cursor, and 104 zeros.
  abbrev pub page_request : ℕ → List ℕ
  page_request cursor =
      le_bytes 4 limit ++ (zeros 4 ++ (le_bytes 8 group_id ++ (le_bytes 8 cursor ++ zeros 104)))

  -- The server answers the request for a page from this cursor on with these events.
  pub record Serves (cursor : ℕ) (events : List GeoEvent) : Type 0 where
    pub header : List ℕ
    pub long : length header ≡ 16
    pub reply : submit 154 (page_request cursor) ≡ ok (answered (header ++ events_bytes events))

  served :
      (cursor : ℕ) (events : List GeoEvent)
      → All IsStored events
      → Serves cursor events
      → query_latest submit (filter_from (query_latest submit) group_id limit cursor) ≡ ok events
  unfolding query_latest query_events
  served cursor events good s =
      ap (λ r. and_then r (λ result. ok (judge_events result))) s.reply
      ∙ ap ok (judge_events-events_bytes s.header events s.long good)

  -- The server answers each event's timestamp with the page of the events behind it.
  abbrev pub ServesOn : List GeoEvent → Type 0
  ServesOn [] = Unit
  ServesOn (e ∷ events) = Serves e.timestamp (take limit events) × ServesOn events

  ServesOn-Continues :
      (events : List GeoEvent)
      → All IsStored events
      → ServesOn events
      → Continues (query_latest submit) group_id limit events
  ServesOn-Continues [] good h = tt
  ServesOn-Continues (e ∷ events) good h = (
    served e.timestamp (take limit events) (All-take IsStored limit events good.1) h.0,
    ServesOn-Continues events good.1 h.1,
  )

  -- When the server answers the bytes of the first request with the bytes of the first events, and
  -- those of each cursor with the events behind the event that has it as its timestamp, a caller that
  -- follows the cursors of pages of at least one and at most 81,000 events gets every event once and
  -- in order, each as the server holds it.
  pub pages_served :
      (fuel : ℕ) (events : List GeoEvent)
      → All IsStored events
      → 1 ≤ limit
      → limit ≤ query_limit_max
      → Serves 0 (take limit events)
      → ServesOn events
      → length events < fuel
      → pages (query_latest submit) group_id limit fuel 0 ≡ ok events
  pages_served fuel events good some_limit small first rest enough =
      pages_complete (query_latest submit) group_id limit fuel events some_limit small
        (served 0 (take limit events) (All-take IsStored limit events good) first)
        (ServesOn-Continues events good rest) enough

  failed_query :
      (cursor : ℕ) (result : NativeClientResult)
      → submit 154 (page_request cursor) ≡ ok result
      → is_ok_status result.status ≡ false
      → query_latest submit (filter_from (query_latest submit) group_id limit cursor) ≡ ok []
  unfolding query_latest query_events
  failed_query cursor result reply failed =
      ap (λ r. and_then r (λ x. ok (judge_events x))) reply
      ∙ ap ok (judge_events-failed result failed)

  -- When the request for a page fails, with any status but OK, no error is raised: the caller's loop
  -- over pages of at least one and at most 81,000 events ends there, as it does behind the last page.
  pub failed_page-ends :
      (fuel cursor : ℕ) (result : NativeClientResult)
      → 1 ≤ limit
      → limit ≤ query_limit_max
      → submit 154 (page_request cursor) ≡ ok result
      → is_ok_status result.status ≡ false
      → pages (query_latest submit) group_id limit (suc fuel) cursor ≡ ok []
  failed_page-ends fuel cursor result some_limit small reply failed =
      pages_from (query_latest submit) group_id limit (suc fuel) cursor [] some_limit small
        (failed_query cursor result reply failed ∙ ap ok (take-none limit)) tt (omega arith)
