-- ===== src/Chunks.antt =====
-- Cutting a batch into chunks (src/clients/python/src/archerdb/client.py: `split_batch`,
-- `_submit_multi_batch_sync`, `_offset_batch_errors`; the asynchronous variant differs in awaiting
-- only). `submit_fn` is an argument, with a state of its own that it may change. A batch of n items
-- has at most n chunks, which is the fuel of `range`.
pub mod Split
pub mod Submit
mod Tests
use archerdb.Base.{
  ℕ, zero, suc, ◌+◌, List, [], ◌∷◌, ◌++◌, map, Result, ok, err, length, slice, ltb, ◌==◌,
  if◌then◌else◌,
}
use archerdb.Errors.{Error, other, codes}
use archerdb.Types.{
  GeoOperation, BatchError, insert_geo_events_error, delete_entities_error, unknown_error,
}

-- `range(start, stop, step)`
unfoldable pub range : ℕ → ℕ → ℕ → ℕ → List ℕ
range zero start stop step = []
range (suc fuel) start stop step =
    let rest = range fuel (start + step) stop step in if ltb start stop then start ∷ rest else []

abbrev pub offsets : ℕ → ℕ → List ℕ
offsets stop step = range stop 0 stop step

unfoldable pub split_batch {ℓ} : {A : Type ℓ} → List A → ℕ → Result Error (List (List A))
unfolding range
split_batch items zero = err (other (codes "chunk_size must be greater than 0"))
split_batch items (suc n) =
    ok (map (λ i. slice items i (i + suc n)) (offsets (length items) (suc n)))

abbrev pub offset_error : ℕ → BatchError → BatchError
offset_error offset (insert_geo_events_error index code) =
    insert_geo_events_error (index + offset) code
offset_error offset (delete_entities_error index code) = delete_entities_error (index + offset) code
offset_error offset (unknown_error code) = unknown_error code

unfoldable pub offset_batch_errors : List BatchError → ℕ → List BatchError
offset_batch_errors errors offset = if offset == 0 then errors else map (offset_error offset) errors

module _ {κ} {State : Type κ} where
  abbrev pub extended :
      List BatchError
      → Result Error (List BatchError) × State
      → Result Error (List BatchError) × State
  extended errors (ok more, st) = (ok (errors ++ more), st)
  extended errors (err e, st) = (err e, st)

  abbrev pub after_chunk :
      ℕ
      → Result Error (List BatchError) × State
      → (State → Result Error (List BatchError) × State)
      → Result Error (List BatchError) × State
  after_chunk offset (ok errors, st) next = extended (offset_batch_errors errors offset) (next st)
  after_chunk offset (err e, st) next = (err e, st)

module _ {ℓ κ} {A : Type ℓ} {State : Type κ}
    (submit_fn : State → GeoOperation → List A → Result Error (List BatchError) × State)
    (operation : GeoOperation) where
  -- the loop over the offsets
  unfoldable pub submit_chunks :
      List A → ℕ → List ℕ → State → Result Error (List BatchError) × State
  submit_chunks batch size [] st = (ok [], st)
  submit_chunks batch size (offset ∷ rest) st =
      after_chunk offset (submit_fn st operation (slice batch offset (offset + size)))
        (λ next. submit_chunks batch size rest next)

  unfoldable pub submit_multi_batch : List A → ℕ → State → Result Error (List BatchError) × State
  unfolding submit_chunks range
  submit_multi_batch [] size st = (ok [], st)
  submit_multi_batch (x ∷ xs) zero st =
      (err (other (codes "batch_size must be greater than 0")), st)
  submit_multi_batch (x ∷ xs) (suc n) st =
      submit_chunks (x ∷ xs) (suc n) (offsets (length (x ∷ xs)) (suc n)) st
