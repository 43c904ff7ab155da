-- ===== src/Batch/History.antt =====
-- A history of calls on one `GeoEventBatch`, with the events it accepted and those that left it.
use archerdb.Base.{
  ◌≤◌, ◌≡◌, refl, ap, ◌∙◌, sym, List, [], ◌∷◌, ◌++◌, Result, ok, err, length, length-append, All,
  All-append, arith, if◌then◌else◌,
}
use archerdb.Errors.{Error, codes}
use archerdb.Types.{
  GeoEvent, BatchError, GeoOperation, insert_events, upsert_events, batch_size_max,
}
use archerdb.Batch.{
  GeoEventBatch, create_batch, add, commit, clear, commit_events, committed, SubmitEvents,
}
use archerdb.Base.Text.{same_text}
use archerdb.Batch.Add.{ValidEvent, Added, full, zero_id, bad_coordinates, appended, add_lem}
use mathlib.Core.List.{append_assoc, append-nil}

-- What the cluster answers to an operation and the events that it receives.
abbrev pub Answer : Type 0
Answer = GeoOperation → List GeoEvent → Result Error (List BatchError)

-- A call; a commit comes with what the cluster answers to each request.
pub data Call : Type 0 where
  adding : GeoEvent → Call
  clearing : Call
  committing : Answer → Call

-- The events accepted so far, those that the cluster has received in a request that it answered, with
-- those that a `clear` dropped, and the batch.
pub record Ledger : Type 0 where
  pub accepted : List GeoEvent
  pub gone : List GeoEvent
  pub batch : GeoEventBatch

abbrev pub no_calls : Ledger
no_calls = record { accepted = []; gone = []; batch = create_batch }

-- The submission to a cluster that notes the events of every request that it answers.
abbrev noted : List GeoEvent → List GeoEvent → Result Error (List BatchError) → List GeoEvent
noted gone events (ok errors) = gone ++ events
noted gone events (err e) = gone

abbrev pub noting : Answer → SubmitEvents (List GeoEvent)
noting answer gone op events = (noted gone events (answer op events), answer op events)

abbrev pub after_add : GeoEvent → Ledger → Result Error GeoEventBatch → Ledger
after_add event l (ok batch) = record l { accepted = l.accepted ++ event ∷ []; batch = batch }
after_add event l (err e) = l

abbrev pub after_commit :
    Ledger → List GeoEvent × Result Error (List BatchError) × GeoEventBatch → Ledger
after_commit l (gone, reply, batch) = record l { gone = gone; batch = batch }

unfoldable pub perform : Call → Ledger → Ledger
unfolding add clear commit
perform (adding event) l = after_add event l (add l.batch event)
perform clearing l = record l { gone = l.gone ++ l.batch.events; batch = clear l.batch }
perform (committing answer) l = after_commit l (commit (noting answer) l.gone l.batch)

unfoldable pub perform_all : List Call → Ledger → Ledger
unfolding perform
perform_all [] l = l
perform_all (call ∷ calls) l = perform_all calls (perform call l)

pub record Balanced (l : Ledger) : Type 0 where
  pub kept : l.accepted ≡ l.gone ++ l.batch.events
  pub valid : All ValidEvent l.batch.events
  pub bounded : length l.batch.events ≤ batch_size_max

empty-Balanced : (l : Ledger) → l.accepted ≡ l.gone → l.batch.events ≡ [] → Balanced l
empty-Balanced l same none_left = record {
  kept = rw (none_left) (same ∙ sym (append-nil l.gone));
  valid = rw none_left tt;
  bounded = rw none_left (omega arith);
}

add-Balanced :
    (event : GeoEvent) (l : Ledger) (r : Result Error GeoEventBatch)
    → Added l.batch event r
    → Balanced l
    → Balanced (after_add event l r)
add-Balanced event l _ (full h) inv = inv
add-Balanced event l _ (zero_id h z) inv = inv
add-Balanced event l _ (bad_coordinates h z c) inv = inv
add-Balanced event l _ (appended room good) inv = record {
  kept = ap (λ es. es ++ event ∷ []) inv.kept ∙ append_assoc l.gone l.batch.events (event ∷ []);
  valid = All-append ValidEvent l.batch.events (event ∷ []) inv.valid (good, tt);
  bounded = omega (arith, length-append l.batch.events (event ∷ []));
}

-- a commit of some events, by the answer
answered-Balanced :
    (l : Ledger) (events : List GeoEvent) (reply : Result Error (List BatchError))
    → l.batch.events ≡ events
    → Balanced l
    → Balanced (after_commit l (committed l.batch (noted l.gone events reply, reply)))
answered-Balanced l events (ok errors) same inv =
    empty-Balanced (record l { gone = l.gone ++ events; batch = record l.batch { events = [] } })
      (inv.kept ∙ ap (◌++◌ l.gone) same) refl
answered-Balanced l events (err e) same inv = inv

commit-Balanced :
    (answer : Answer) (l : Ledger) (events : List GeoEvent)
    → l.batch.events ≡ events
    → Balanced l
    → Balanced (after_commit l (commit_events (noting answer) l.gone l.batch events))
commit-Balanced answer l [] none_left inv = inv
commit-Balanced answer l (event ∷ events) same inv =
    let op =
      if same_text l.batch.operation (codes "insert") then insert_events else upsert_events in
    answered-Balanced l (event ∷ events) (answer op (event ∷ events)) same inv

perform-Balanced : (call : Call) (l : Ledger) → Balanced l → Balanced (perform call l)
unfolding perform commit clear
perform-Balanced (adding event) l inv = add-Balanced event l _ (add_lem l.batch event) inv
perform-Balanced clearing l inv =
    empty-Balanced
      (record l { gone = l.gone ++ l.batch.events; batch = record l.batch { events = [] } })
      inv.kept refl
perform-Balanced (committing answer) l inv = commit-Balanced answer l l.batch.events refl inv

-- After any calls that start from a balanced ledger, an empty batch among them, the accepted events
-- are, in their order, those that the cluster received from a successful commit or a `clear` dropped
-- and then those in the batch: each is received once, and a failed commit loses none. Every event in the batch is valid, and the batch holds
-- at most `BATCH_SIZE_MAX`.
pub perform_all-Balanced :
    (calls : List Call) (l : Ledger) → Balanced l → Balanced (perform_all calls l)
unfolding perform_all
perform_all-Balanced [] l inv = inv
perform_all-Balanced (call ∷ calls) l inv =
    perform_all-Balanced calls (perform call l) (perform-Balanced call l inv)
