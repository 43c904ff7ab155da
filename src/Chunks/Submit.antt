-- ===== src/Chunks/Submit.antt =====
-- `_submit_multi_batch` against one request with the whole batch, and the requests it sends.
use archerdb.Base.{
  ℕ, zero, suc, ◌≤◌, ◌+◌, ◌-◌, ◌≡◌, refl, ap, ◌∙◌, sym, List, [], ◌∷◌, ◌++◌, map, Bool, true, false,
  Option, none, some, Result, ok, err, is_ok, length, drop, slice, drop-length, length-take,
  length-drop, arith, ltb, if_elim, ltb→ge, leb, leb→le, leb→gt, ◌==◌, if◌then◌else◌, ==_iff,
}
use archerdb.Errors.{Error}
use archerdb.Types.{GeoOperation, BatchError, insert_geo_events_error}
use archerdb.Chunks.{
  range, offsets, split_batch, offset_error, offset_batch_errors, extended, after_chunk,
  submit_chunks, submit_multi_batch,
}
use archerdb.Chunks.Split.{chunk_at_lem}
use mathlib.Core.List.{append_assoc, append-nil}

-- What a cluster reports that judges each item by itself: the codes of the rejected items, each
-- with its position, counted from `start`.
module _ {ℓ} {A : Type ℓ} (judge : A → Option ℕ) where
  abbrev pub reports : Option ℕ → ℕ → List BatchError
  reports none position = []
  reports (some code) position = insert_geo_events_error position code ∷ []

  abbrev pub judged : ℕ → List A → List BatchError
  judged start [] = []
  judged start (x ∷ xs) = reports (judge x) start ++ judged (start + 1) xs

  shift_report :
      (r : Option ℕ) (start offset : ℕ) (rest : List BatchError)
      → map (offset_error offset) (reports r start ++ rest)
        ≡ reports r (start + offset) ++ map (offset_error offset) rest
  shift_report none start offset rest = refl
  shift_report (some code) start offset rest = refl

  offset_judged :
      (xs : List A) (start offset : ℕ)
      → map (offset_error offset) (judged start xs) ≡ judged (start + offset) xs
  offset_judged [] start offset = refl
  offset_judged (x ∷ xs) start offset =
      let moved : start + 1 + offset ≡ start + offset + 1 = omega arith in
      shift_report (judge x) start offset (judged (start + 1) xs)
      ∙ ap (λ es. reports (judge x) (start + offset) ++ es)
          (offset_judged xs (start + 1) offset ∙ ap (λ n. judged n xs) moved)

  shifted : (offset : ℕ) (xs : List A) → offset_batch_errors (judged 0 xs) offset ≡ judged offset xs
  unfolding offset_batch_errors
  shifted offset xs =
      if_elim (λ es. es ≡ judged offset xs) (offset == 0)
        (λ h. ap (λ n. judged n xs) (sym ((==_iff offset 0).0 h)))
        (λ h.
          let from_zero : 0 + offset ≡ offset = omega arith in
          offset_judged xs 0 offset ∙ ap (λ n. judged n xs) from_zero)

  judged-append :
      (xs ys : List A) (start : ℕ)
      → judged start (xs ++ ys) ≡ judged start xs ++ judged (start + length xs) ys
  judged-append [] ys start =
      let same : start ≡ start + 0 = omega arith in ap (λ n. judged n ys) same
  judged-append (x ∷ xs) ys start =
      let same : start + 1 + length xs ≡ start + suc (length xs) = omega arith in
      ap (λ es. reports (judge x) start ++ es)
        (judged-append xs ys (start + 1) ∙ ap (λ n. judged (start + 1) xs ++ judged n ys) same)
      ∙ sym (append_assoc (reports (judge x) start) (judged (start + 1) xs) _)

  tail_judged :
      (batch : List A) (size start : ℕ) (test : Bool)
      → leb (start + size) (length batch) ≡ test
      → judged (start + length (slice batch start (start + size))) (drop (start + size) batch)
        ≡ judged (start + size) (drop (start + size) batch)
  tail_judged batch size start true h =
      let inside : start + size ≤ length batch = leb→le _ _ h in
      let same : start + length (slice batch start (start + size)) ≡ start + size =
        omega
          (arith, length-take (start + size - start) (drop start batch), length-drop start batch) in
      ap (λ n. judged n (drop (start + size) batch)) same
  tail_judged batch size start false h =
      rw (drop-length (start + size) batch (omega (arith, leb→gt _ _ h))) refl

  judged_on :
      (batch : List A) (size : ℕ)
      → 1 ≤ size
      → (start : ℕ)
      → judged start (slice batch start (start + size))
          ++ judged (start + size) (drop (start + size) batch)
        ≡ judged start (drop start batch)
  judged_on batch size positive start =
      ap (λ es. judged start (slice batch start (start + size)) ++ es)
        (sym (tail_judged batch size start _ refl))
      ∙ sym (judged-append (slice batch start (start + size)) (drop (start + size) batch) start)
      ∙ ap (λ xs. judged start xs) (chunk_at_lem batch size positive start)

  module _ {κ} {State : Type κ}
      (submit_fn : State → GeoOperation → List A → Result Error (List BatchError) × State)
      (op : GeoOperation)
      (judges : (st : State) (xs : List A) → (submit_fn st op xs).0 ≡ ok (judged 0 xs)) where
    after_judged :
        (offset : ℕ) (xs : List A) (more : List BatchError)
        (reply : Result Error (List BatchError) × State)
        (next : State → Result Error (List BatchError) × State)
        → reply.0 ≡ ok (judged 0 xs)
        → ((st : State) → (next st).0 ≡ ok more)
        → (after_chunk offset reply next).0 ≡ ok (judged offset xs ++ more)
    unfolding offset_batch_errors
    after_judged offset xs more reply next answer rest =
        rw (answer, rest reply.1, shifted offset xs) refl

    submit_judged :
        (batch : List A) (size : ℕ)
        → 1 ≤ size
        → (fuel start : ℕ) (st : State) → length batch ≤ start + fuel
        → (submit_chunks submit_fn op batch size (range fuel start (length batch) size) st).0
          ≡ ok (judged start (drop start batch))
    unfolding range submit_chunks
    submit_judged batch size positive zero start st h =
        ap (λ xs. ok (judged start xs)) (sym (drop-length start batch (omega arith)))
    submit_judged batch size positive (suc fuel) start st h =
        if_elim
          (λ is.
            (submit_chunks submit_fn op batch size is st).0 ≡ ok (judged start (drop start batch)))
          (ltb start (length batch))
          (λ more.
            after_judged start (slice batch start (start + size))
              (judged (start + size) (drop (start + size) batch))
              (submit_fn st op (slice batch start (start + size)))
              (λ next.
                submit_chunks submit_fn op batch size
                  (range fuel (start + size) (length batch) size) next)
              (judges st (slice batch start (start + size)))
              (λ next. submit_judged batch size positive fuel (start + size) next (omega arith))
            ∙ ap ok (judged_on batch size positive start))
          (λ done.
            ap (λ xs. ok (judged start xs)) (sym (drop-length start batch (ltb→ge _ _ done))))

  -- When the cluster judges each item by itself, `_submit_multi_batch` with any positive batch size
  -- returns what one request with the whole batch would: each rejected item once, at its index in
  -- the whole batch.
  pub submit_multi_batch-judged {κ} :
      {State : Type κ}
      (submit_fn : State → GeoOperation → List A → Result Error (List BatchError) × State)
      (op : GeoOperation) (batch : List A) (size : ℕ) (st : State)
      → ((st : State) (xs : List A) → (submit_fn st op xs).0 ≡ ok (judged 0 xs))
      → 1 ≤ size
      → (submit_multi_batch submit_fn op batch size st).0 ≡ ok (judged 0 batch)
  unfolding submit_multi_batch
  submit_multi_batch-judged submit_fn op [] size st judges positive = refl
  submit_multi_batch-judged submit_fn op (x ∷ xs) zero st judges positive = absurd (omega arith)
  submit_multi_batch-judged submit_fn op (x ∷ xs) (suc n) st judges positive =
      submit_judged submit_fn op judges (x ∷ xs) (suc n) (omega arith) (length (x ∷ xs)) 0 st
        (omega arith)

abbrev value_of {ℓ} : {A : Type ℓ} → Result Error (List A) → List A
value_of (ok xs) = xs
value_of (err e) = []

module _ {κ} {State : Type κ} where
  extended_state :
      (errors : List BatchError) (reply : Result Error (List BatchError) × State)
      → (extended errors reply).1 ≡ reply.1
  extended_state errors (ok more, st) = refl
  extended_state errors (err e, st) = refl

sent_one {ℓ} :
    {A : Type ℓ} (r : Result Error (List BatchError)) (offset : ℕ) (chunk : List A)
    (log rest : List (List A))
    (next : List (List A) → Result Error (List BatchError) × List (List A))
    → (next (log ++ chunk ∷ [])).1 ≡ (log ++ chunk ∷ []) ++ rest
    → (after_chunk offset (r, log ++ chunk ∷ []) next).1
      ≡ log ++ chunk ∷ (if is_ok r then rest else [])
sent_one (ok errors) offset chunk log rest next h =
    extended_state (offset_batch_errors errors offset) (next (log ++ chunk ∷ []))
    ∙ h
    ∙ append_assoc log (chunk ∷ []) rest
sent_one (err e) offset chunk log rest next h = refl

-- A cluster that writes each request down, and answers it by `answer`.
module _ {ℓ} {A : Type ℓ} (answer : GeoOperation → List A → Result Error (List BatchError)) where
  abbrev pub logged :
      List (List A) → GeoOperation → List A → Result Error (List BatchError) × List (List A)
  logged log op chunk = (answer op chunk, log ++ chunk ∷ [])

  -- the requests up to the first that fails
  abbrev pub until_error : GeoOperation → List (List A) → List (List A)
  until_error op [] = []
  until_error op (chunk ∷ chunks) =
      let rest = until_error op chunks in chunk ∷ (if is_ok (answer op chunk) then rest else [])

  sent_chunks :
      (op : GeoOperation) (batch : List A) (size : ℕ) (is : List ℕ) (log : List (List A))
      → (submit_chunks logged op batch size is log).1
        ≡ log ++ until_error op (map (λ i. slice batch i (i + size)) is)
  unfolding submit_chunks
  sent_chunks op batch size [] log = sym (append-nil log)
  sent_chunks op batch size (i ∷ is) log =
      let chunk = slice batch i (i + size) in
      sent_one (answer op chunk) i chunk log _ (λ next. submit_chunks logged op batch size is next)
        (sent_chunks op batch size is (log ++ chunk ∷ []))

  -- `_submit_multi_batch` sends the chunks of `split_batch`, in their order and each in a request of
  -- its own, up to the first request that fails.
  pub submit_multi_batch-split_batch :
      (op : GeoOperation) (batch : List A) (size : ℕ) (log chunks : List (List A))
      → split_batch batch size ≡ ok chunks
      → (submit_multi_batch logged op batch size log).1 ≡ log ++ until_error op chunks
  unfolding submit_multi_batch split_batch
  submit_multi_batch-split_batch op [] zero log chunks h = ground arith
  submit_multi_batch-split_batch op [] (suc n) log chunks h =
      sym (append-nil log) ∙ ap (λ cs. log ++ until_error op (value_of cs)) h
  submit_multi_batch-split_batch op (x ∷ xs) zero log chunks h = ground arith
  submit_multi_batch-split_batch op (x ∷ xs) (suc n) log chunks h =
      sent_chunks op (x ∷ xs) (suc n) (offsets (length (x ∷ xs)) (suc n)) log
      ∙ ap (λ cs. log ++ until_error op (value_of cs)) h
