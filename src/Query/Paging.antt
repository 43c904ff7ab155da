-- ===== src/Query/Paging.antt =====
-- A caller's loop over the pages of `query_latest`, as the documentation of its cursor tells: the
-- next page is asked for with the last event's timestamp, until no more are announced.
use archerdb.Base.{
  ℕ, zero, suc, ◌≤◌, ◌<◌, ◌≡◌, ◌≢◌, refl, sym, ap, ◌∙◌, inl, inr, Bool, true, false, List, [], ◌∷◌,
  ◌++◌, Option, none, some, Result, ok, err, and_then, length, length-drop, length-take, take, drop,
  take-append-drop, le→ltb, ◌==◌, ==_iff, arith, true≢false, Bool-cases,
}
use archerdb.Types.{GeoEvent}
use archerdb.Errors.{Error, other}
use archerdb.Query.{QueryLatestFilter, query_latest, last_timestamp, query_limit_max}

module _ (submit : QueryLatestFilter → Result Error (List GeoEvent)) (group_id limit : ℕ) where
  abbrev pub filter_from : ℕ → QueryLatestFilter
  filter_from cursor = record { limit = limit; group_id = group_id; cursor_timestamp = cursor }

  abbrev pub continue_with :
      (ℕ → Result Error (List GeoEvent))
      → Bool
      → Option ℕ
      → List GeoEvent
      → Result Error (List GeoEvent)
  continue_with next false cursor events = ok events
  continue_with next true none events = ok events
  continue_with next true (some cursor) events =
      and_then (next cursor) (λ rest. ok (events ++ rest))

  -- the pages from a cursor on, at most `fuel` of them; a caller that needs more gives up
  pub pages : ℕ → ℕ → Result Error (List GeoEvent)
  pages zero cursor = err (other [])
  pages (suc fuel) cursor =
      and_then (query_latest false submit (filter_from cursor))
        (λ page. continue_with (pages fuel) page.has_more page.cursor page.events)

  -- The server answers each cursor with the events behind the one that has that timestamp.
  abbrev pub Continues : List GeoEvent → Type 0
  Continues [] = Unit
  Continues (e ∷ events) =
      (submit (filter_from e.timestamp) ≡ ok (take limit events)) × Continues events

  Continues-drop : (n : ℕ) (events : List GeoEvent) → Continues events → Continues (drop n events)
  Continues-drop zero events h = h
  Continues-drop (suc n) [] h = h
  Continues-drop (suc n) (e ∷ events) h = Continues-drop n events h.1

  -- the cursor of a full page, and the answer to it
  next_page :
      (n : ℕ) (events : List GeoEvent)
      → 1 ≤ n
      → n ≤ length events
      → Continues events
      → (c : ℕ) × (last_timestamp (take n events) ≡ some c)
        × (submit (filter_from c) ≡ ok (take limit (drop n events)))
  next_page zero events some_n enough h = absurd (omega arith)
  next_page (suc n) [] some_n enough h = absurd (omega arith)
  next_page (suc zero) (e ∷ events) some_n enough h = (e.timestamp, refl, h.0)
  next_page (suc (suc n)) (e ∷ []) some_n enough h = absurd (omega arith)
  next_page (suc (suc n)) (e ∷ f ∷ events) some_n enough h =
      next_page (suc n) (f ∷ events) (omega arith) (omega arith) h.1

  page_read :
      (cursor : ℕ) (events : List GeoEvent)
      → limit ≤ query_limit_max
      → submit (filter_from cursor) ≡ ok events
      → query_latest false submit (filter_from cursor)
        ≡ ok (record {
          events = events;
          has_more = length events == limit;
          cursor = last_timestamp events;
        })
  unfolding query_latest
  page_read cursor events small answered = rw (le→ltb query_limit_max limit small) (
      ap
        (λ r. and_then r (λ found. ok (record {
          events = found;
          has_more = length found == limit;
          cursor = last_timestamp found;
        })))
        answered)

  take_short : (n : ℕ) (events : List GeoEvent) → length events < n → take n events ≡ events
  take_short zero events h = absurd (omega arith)
  take_short (suc n) [] h = refl
  take_short (suc n) (e ∷ events) h = ap (◌∷◌ e) (take_short n events (omega arith))

  pub pages_from :
      (fuel cursor : ℕ) (events : List GeoEvent)
      → 1 ≤ limit
      → limit ≤ query_limit_max
      → submit (filter_from cursor) ≡ ok (take limit events)
      → Continues events
      → length events < fuel
      → pages fuel cursor ≡ ok events
  unfolding pages
  pages_from zero cursor events some_limit small answered h enough = absurd (omega arith)
  pages_from (suc fuel) cursor events some_limit small answered h enough =
      ap
        (λ r. and_then r (λ page. continue_with (pages fuel) page.has_more page.cursor page.events))
        (page_read cursor (take limit events) small answered)
      ∙ elim (Bool-cases (length (take limit events) == limit)) [
        | inl full ↦
            let filled = (==_iff (length (take limit events)) limit).0 full in
            let (c, last, next) =
              next_page limit events some_limit (omega (arith, filled, length-take limit events))
                h in
            ap
              (λ b.
                continue_with (pages fuel) b (last_timestamp (take limit events))
                  (take limit events))
              full
            ∙ ap (λ o. continue_with (pages fuel) true o (take limit events)) last
            ∙ ap (λ r. and_then r (λ rest. ok (take limit events ++ rest)))
                (pages_from fuel c (drop limit events) some_limit small next
                  (Continues-drop limit events h)
                  (omega (
                    arith,
                    filled,
                    enough,
                    some_limit,
                    length-take limit events,
                    length-drop limit events,
                  )))
            ∙ ap ok (take-append-drop limit events)
        | inr short ↦
            let partial : length (take limit events) ≢ limit =
              λ e. true≢false (sym ((==_iff (length (take limit events)) limit).1 e) ∙ short) in
            ap
              (λ b.
                continue_with (pages fuel) b (last_timestamp (take limit events))
                  (take limit events))
              short
            ∙ ap ok (take_short limit events (omega (arith, partial, length-take limit events)))
      ]

  -- When the server answers the first request with the first events, and each cursor with those
  -- behind the event that has it as its timestamp, a caller that follows the cursors of pages of at
  -- least one and at most 81,000 events gets every event once and in order, and stops after at most
  -- one page more than there are events.
  pub pages_complete :
      (fuel : ℕ) (events : List GeoEvent)
      → 1 ≤ limit
      → limit ≤ query_limit_max
      → submit (filter_from 0) ≡ ok (take limit events)
      → Continues events
      → length events < fuel
      → pages fuel 0 ≡ ok events
  pages_complete fuel events some_limit small answered h enough =
      pages_from fuel 0 events some_limit small answered h enough
