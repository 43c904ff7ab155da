-- ===== src/Batch/Delete.antt =====
-- What `delete_entities` reports.
use archerdb.Base.{
  ℕ, suc, ◌≤◌, ◌<◌, ◌+◌, ◌≡◌, ◌≢◌, refl, ap, ◌∙◌, sym, Bool, false, List, [], ◌∷◌, ◌++◌, ok, err,
  length, length-append, All, arith, leb, ◌==◌, not, if◌then◌else◌, ==_iff, Bool-cases, inl, inr,
}
use archerdb.Base.Int.{pos, negsuc, ◌+ℤ◌, sub_ℕ}
use archerdb.Errors.{client_error, invalid_entity_id}
use archerdb.Types.{
  delete_entities_operation, BatchError, insert_geo_events_error, delete_entities_error,
  unknown_error, DeleteResult, batch_size_max,
}
use archerdb.Batch.{add_id, add_ids, tally, commit_ids, delete_entities, Submit, tallied}
use mathlib.Core.List.{append_assoc, append-nil}

-- The results that report a deletion with a code that the test accepts.
abbrev pub reported : (ℕ → Bool) → List BatchError → ℕ
reported test [] = 0
reported test (delete_entities_error index code ∷ results) =
    if test code then suc (reported test results) else reported test results
reported test (insert_geo_events_error index code ∷ results) = reported test results
reported test (unknown_error code ∷ results) = reported test results

abbrev pub failures : List BatchError → ℕ
failures results = reported (λ code. not (code == 0)) results

abbrev pub missing : List BatchError → ℕ
missing results = reported (λ code. code == 3) results

abbrev counts : ℕ → ℕ → ℕ → DeleteResult
counts total failed not_found = record {
  deleted_count = sub_ℕ total failed;
  not_found_count = not_found;
}

one_less : (a b : ℕ) → sub_ℕ a b +ℤ negsuc 0 ≡ sub_ℕ a (b + 1)
unfolding ◌+ℤ◌
one_less a b = ground arith

minus_none : (a : ℕ) → sub_ℕ a 0 ≡ pos a
minus_none a = ground arith

counts_ext : (a : ℕ) {b c d e : ℕ} → b ≡ d → c ≡ e → counts a b c ≡ counts a d e
counts_ext a p q = rw (p, q)

tally_lem :
    (results : List BatchError) (total failed not_found : ℕ)
    → tally results (counts total failed not_found)
      ≡ counts total (failed + failures results) (not_found + missing results)
unfolding tally
tally_lem [] total failed not_found = counts_ext total (omega arith) (omega arith)
tally_lem (delete_entities_error index code ∷ results) total failed not_found =
    elim (Bool-cases (code == 3)) [
      | inl three ↦
          let is_three : code ≡ 3 = (==_iff code 3).0 three in
          rw (is_three, one_less total failed)
            (tally_lem results total (failed + 1) (not_found + 1)
              ∙ counts_ext total (omega arith) (omega arith))
      | inr other_code ↦ elim (Bool-cases (code == 0)) [
        | inl zero_code ↦ rw (other_code, zero_code) (tally_lem results total failed not_found)
        | inr failing ↦
            rw (other_code, failing, one_less total failed)
              (tally_lem results total (failed + 1) not_found
                ∙ counts_ext total (omega arith) (omega arith))
      ]
    ]
tally_lem (insert_geo_events_error index code ∷ results) total failed not_found =
    tally_lem results total failed not_found
tally_lem (unknown_error code ∷ results) total failed not_found =
    tally_lem results total failed not_found

add_id-ok :
    (batch : List ℕ) (i : ℕ)
    → i ≢ 0
    → length batch < batch_size_max
    → add_id batch i ≡ ok (batch ++ i ∷ [])
unfolding add_id
add_id-ok batch i h k = ground arith

add_ids-ok :
    (batch ids : List ℕ)
    → All (λ i. i ≢ 0) ids
    → length batch + length ids ≤ batch_size_max
    → add_ids batch ids ≡ ok (batch ++ ids)
unfolding add_ids
add_ids-ok batch [] h k = ap ok (sym (append-nil batch))
add_ids-ok batch (i ∷ ids) h k = rw (add_id-ok batch i h.0 (omega arith)) (
    add_ids-ok (batch ++ i ∷ []) ids h.1 (omega (arith, length-append batch (i ∷ [])))
    ∙ ap ok (append_assoc batch (i ∷ []) ids))

add_ids-zero :
    (batch before after : List ℕ)
    → All (λ i. i ≢ 0) before
    → length batch + length before < batch_size_max
    → add_ids batch (before ++ 0 ∷ after) ≡ err (client_error invalid_entity_id)
unfolding add_ids add_id
add_ids-zero batch [] after h k =
    let room : leb batch_size_max (length batch) ≡ false = ground arith in rw room refl
add_ids-zero batch (i ∷ before) after h k =
    rw (add_id-ok batch i h.0 (omega arith)) (
      add_ids-zero (batch ++ i ∷ []) before after h.1 (omega (arith, length-append batch (i ∷ []))))

-- The counts that a deletion of these ids has when the cluster gives these results.
abbrev pub deletion : List ℕ → List BatchError → DeleteResult
deletion ids results = record {
  deleted_count = sub_ℕ (length ids) (failures results);
  not_found_count = missing results;
}

-- For one to `BATCH_SIZE_MAX` ids, none of them zero, `delete_entities` submits the ids as they
-- stand in one request; when the cluster gives a list of results, the deleted count is the number of
-- ids less the results whose code is not OK, and the not-found count the results with that code.
pub delete_entities_counts :
    (submit : Submit ℕ) (ids : List ℕ) (results : List BatchError)
    → 1 ≤ length ids
    → length ids ≤ batch_size_max
    → All (λ i. i ≢ 0) ids
    → submit delete_entities_operation ids ≡ ok results
    → delete_entities submit ids ≡ ok (deletion ids results)
unfolding delete_entities commit_ids
delete_entities_counts submit [] results some_id bound good answer = absurd (omega arith)
delete_entities_counts submit (i ∷ ids) results some_id bound good answer =
    rw (add_ids-ok [] (i ∷ ids) good (omega arith)) (
      ap (λ r. (tallied (i ∷ ids) r).0) answer
      ∙ ap ok (
          ap (λ d. tally results (record { deleted_count = d; not_found_count = 0 }))
            (sym (minus_none (length (i ∷ ids))))
          ∙ tally_lem results (length (i ∷ ids)) 0 0
          ∙ counts_ext (length (i ∷ ids)) (omega arith) (omega arith)))

-- When the first `BATCH_SIZE_MAX` ids contain a zero, `delete_entities` raises `InvalidEntityId`,
-- and so it does whatever the cluster would answer.
pub delete_entities_zero :
    (submit : Submit ℕ) (before after : List ℕ)
    → All (λ i. i ≢ 0) before
    → length before < batch_size_max
    → delete_entities submit (before ++ 0 ∷ after) ≡ err (client_error invalid_entity_id)
unfolding delete_entities
delete_entities_zero submit before after good bound =
    rw (add_ids-zero [] before after good (omega arith)) refl
