-- ===== src/Errors/Lookup.antt =====
-- The ranges of the error codes against the tables.
use archerdb.Base.{
  ℕ, ◌≤◌, ◌≡◌, ◌≢◌, refl, sym, ap, ◌∙◌, inl, inr, Bool, false, ◌&&◌, List, [], ◌∷◌, ◌++◌, Option,
  none, some, leb, ◌==◌, ==_ne, if◌then◌else◌, All, Bool-cases, arith,
}
use archerdb.Errors.Registry.{
  is_multi_region_error, is_sharding_error, is_encryption_error, of_code, by_range, or_false,
  is_retryable, error_message, multi_region_error_messages, sharding_error_messages,
  encryption_error_messages, multi_region_error_retryable, sharding_error_retryable,
  encryption_error_retryable,
}

module _ {V : Type 0} where
  -- The keys of a table lie in a range.
  abbrev pub Within : ℕ → ℕ → List (ℕ × V) → Type 0
  Within least greatest rows = All (λ row. (least ≤ row.0) × (row.0 ≤ greatest)) rows

  abbrev or_else : Option V → Option V → Option V
  or_else none other = other
  or_else (some v) other = some v

  of_code-append :
      (code : ℕ) (rows more : List (ℕ × V))
      → of_code code (rows ++ more) ≡ or_else (of_code code rows) (of_code code more)
  of_code-append code [] more = refl
  of_code-append code ((k, v) ∷ rows) more = elim (Bool-cases (k == code)) [
    | inl same ↦ rw same refl
    | inr other ↦ rw other (of_code-append code rows more)
  ]

  of_code-outside :
      (code least greatest : ℕ) (rows : List (ℕ × V))
      → (leb least code && leb code greatest) ≡ false
      → Within least greatest rows
      → of_code code rows ≡ none
  of_code-outside code least greatest [] out within = refl
  of_code-outside code least greatest ((k, v) ∷ rows) out within =
      rw (==_ne k code (outside k within.0)) (of_code-outside code least greatest rows out within.1)
    where
      outside : (k : ℕ) → (least ≤ k) × (k ≤ greatest) → k ≢ code
      outside k h e = ground (arith, out, h.0, h.1, e)

  or_else-none : (o : Option V) → or_else o none ≡ o
  or_else-none none = refl
  or_else-none (some v) = refl

  -- the ranges of the three enumerations do not meet
  by_range-all :
      (code : ℕ) (multi_region sharding encryption : List (ℕ × V))
      → Within 213 218 multi_region
      → Within 220 224 sharding
      → Within 410 414 encryption
      → by_range code multi_region sharding encryption
        ≡ of_code code (multi_region ++ (sharding ++ encryption))
  by_range-all code multi_region sharding encryption in_multi in_sharding in_encryption =
      let m = of_code code multi_region in
      let s = of_code code sharding in
      let e = of_code code encryption in
      let not_m = λ (out : is_multi_region_error code ≡ false).
        of_code-outside code 213 218 multi_region out in_multi in
      let not_s = λ (out : is_sharding_error code ≡ false).
        of_code-outside code 220 224 sharding out in_sharding in
      let not_e = λ (out : is_encryption_error code ≡ false).
        of_code-outside code 410 414 encryption out in_encryption in
      let whole : of_code code (multi_region ++ (sharding ++ encryption))
          ≡ or_else m (or_else s e) =
        of_code-append code multi_region (sharding ++ encryption)
        ∙ ap (or_else m) (of_code-append code sharding encryption) in
      let from_third = λ (c : Bool). if c then e else none in
      let from_second = λ (b : Bool). if b then s else from_third (is_encryption_error code) in
      let pick = λ (a : Bool). if a then m else from_second (is_sharding_error code) in
      elim (Bool-cases (is_multi_region_error code)) [
        | inl first ↦
            ap pick first
            ∙ sym (
                whole
                ∙ cc (not_s (ground (arith, first)), not_e (ground (arith, first)), or_else-none m))
        | inr no_first ↦ elim (Bool-cases (is_sharding_error code)) [
          | inl second ↦
              ap pick no_first
              ∙ ap from_second second
              ∙ sym (whole ∙ cc (not_m no_first, not_e (ground (arith, second)), or_else-none s))
          | inr no_second ↦ elim (Bool-cases (is_encryption_error code)) [
            | inl third ↦
                ap pick no_first
                ∙ ap from_second no_second
                ∙ ap from_third third
                ∙ sym (whole ∙ cc (not_m no_first, not_s no_second))
            | inr no_third ↦
                ap pick no_first
                ∙ ap from_second no_second
                ∙ ap from_third no_third
                ∙ sym (whole ∙ cc (not_m no_first, not_s no_second, not_e no_third))
          ]
        ]
      ]

-- For every code, the message is the one of the three tables together, and an error is retried just
-- when they say so: no range hides a code of another enumeration, and none leaves one out.
pub error_message-all :
    (code : ℕ)
    → (error_message code
        ≡ of_code code
            (multi_region_error_messages ++ (sharding_error_messages ++ encryption_error_messages)))
      × (is_retryable code
          ≡ or_false (
              of_code code (
                multi_region_error_retryable
                ++ (sharding_error_retryable ++ encryption_error_retryable))))
unfolding error_message is_retryable multi_region_error_messages sharding_error_messages
    encryption_error_messages multi_region_error_retryable sharding_error_retryable
    encryption_error_retryable
error_message-all code = (
  by_range-all code multi_region_error_messages sharding_error_messages encryption_error_messages
      (
        (omega arith, omega arith),
        (
          (omega arith, omega arith),
          (
            (omega arith, omega arith),
            (
              (omega arith, omega arith),
              ((omega arith, omega arith), ((omega arith, omega arith), tt)),
            ),
          ),
        ),
      )
      (
        (omega arith, omega arith),
        (
          (omega arith, omega arith),
          (
            (omega arith, omega arith),
            ((omega arith, omega arith), ((omega arith, omega arith), tt)),
          ),
        ),
      )
      (
        (omega arith, omega arith),
        (
          (omega arith, omega arith),
          (
            (omega arith, omega arith),
            ((omega arith, omega arith), ((omega arith, omega arith), tt)),
          ),
        ),
      ),
  ap or_false (
      by_range-all code multi_region_error_retryable sharding_error_retryable
        encryption_error_retryable
        (
          (omega arith, omega arith),
          (
            (omega arith, omega arith),
            (
              (omega arith, omega arith),
              (
                (omega arith, omega arith),
                ((omega arith, omega arith), ((omega arith, omega arith), tt)),
              ),
            ),
          ),
        )
        (
          (omega arith, omega arith),
          (
            (omega arith, omega arith),
            (
              (omega arith, omega arith),
              ((omega arith, omega arith), ((omega arith, omega arith), tt)),
            ),
          ),
        )
        (
          (omega arith, omega arith),
          (
            (omega arith, omega arith),
            (
              (omega arith, omega arith),
              ((omega arith, omega arith), ((omega arith, omega arith), tt)),
            ),
          ),
        )),
)
