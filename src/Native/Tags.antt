-- ===== src/Native/Tags.antt =====
-- When the search for a tag ends.
use archerdb.Base.{
  ℕ, zero, suc, ◌+◌, ◌-◌, ◌%◌, ◌≤◌, ◌<◌, ◌≡◌, ◌≢◌, refl, sym, ap, ◌∙◌, inl, inr, true, false, List,
  [], ◌∷◌, none, some, All, length, arith, ==_iff, ◌==◌, if_elim, true≢false, Option-cases,
}
use mathlib.Core.Option.{some-injective}
use archerdb.Native.{wrapped, in_use, free_tag, without}

abbrev pub IsTag : ℕ → Type 0
IsTag t = (1 ≤ t) × (t ≤ 65_535)

pub wrapped-IsTag : (n : ℕ) → IsTag (wrapped n)
wrapped-IsTag n =
    let low = n % 65_536 in
    if_elim IsTag (low == 0) (λ zero_low. (omega arith, omega arith))
      (λ some_low.
        let ne : low ≢ 0 = λ e. true≢false (sym ((==_iff low 0).1 e) ∙ some_low) in
        (omega (arith, ne), omega arith))

-- the tag that the search tests `k` rounds after `t`
abbrev tested_at : ℕ → ℕ → ℕ
tested_at t k = 1 + (t - 1 + k) % 65_535

wrapped-tested_at : (t k : ℕ) → wrapped (tested_at t k + 1) ≡ tested_at t (k + 1)
wrapped-tested_at t k =
    let low = (tested_at t k + 1) % 65_536 in
    if_elim (λ n. n ≡ tested_at t (k + 1)) (low == 0)
      (λ zero_low. omega (arith, (==_iff low 0).0 zero_low))
      (λ some_low.
        let ne : low ≢ 0 = λ e. true≢false (sym ((==_iff low 0).1 e) ∙ some_low) in
        omega (arith, ne))

-- the first `n` tags that the search tests
tested : ℕ → ℕ → List ℕ
tested zero t = []
tested (suc n) t = t ∷ tested n (wrapped (t + 1))

-- the search does not come back to a tag within 65,535 rounds
tested_later :
    (n t k : ℕ) → IsTag t → 1 ≤ k → k + n ≤ 65_535 → All (λ x. x ≢ t) (tested n (tested_at t k))
unfolding tested
tested_later zero t k tag some_round few = tt
tested_later (suc n) t k tag some_round few = (
  (λ e. absurd (omega (arith, e, tag.0, tag.1, some_round, few))),
  rw (wrapped-tested_at t k) (tested_later n t (k + 1) tag (omega arith) (omega (arith, few))),
)

abbrev pub Distinct : List ℕ → Type 0
Distinct [] = Unit
Distinct (x ∷ xs) = All (λ y. y ≢ x) xs × Distinct xs

tested-Distinct : (n t : ℕ) → IsTag t → n ≤ 65_535 → Distinct (tested n t)
unfolding tested
tested-Distinct zero t tag few = tt
tested-Distinct (suc n) t tag few =
    let next : wrapped (t + 1) ≡ tested_at t 1 =
      ap (λ k. wrapped (k + 1)) {x = t} {y = tested_at t 0} (omega (arith, tag.0, tag.1))
      ∙ wrapped-tested_at t 0 in
    (
      rw next (tested_later n t 1 tag (omega arith) (omega (arith, few))),
      tested-Distinct n (wrapped (t + 1)) (wrapped-IsTag (t + 1)) (omega (arith, few)),
    )

length-tested : (n t : ℕ) → length (tested n t) ≡ n
unfolding tested
length-tested zero t = refl
length-tested (suc n) t = ap suc (length-tested n (wrapped (t + 1)))

abbrev pub IsUsed : List (ℕ × ℕ) → ℕ → Type 0
IsUsed inflight t = in_use t inflight ≡ true

-- a search that fails tested only tags in use
free_tag-none :
    (n t : ℕ) (inflight : List (ℕ × ℕ))
    → free_tag n t inflight ≡ none
    → All (IsUsed inflight) (tested n t)
unfolding free_tag tested
free_tag-none zero t inflight h = tt
free_tag-none (suc n) t inflight h =
    if_elim (λ found. found ≡ none → All (IsUsed inflight) (tested (suc n) t)) (in_use t inflight)
      (λ used e. (used, free_tag-none n (wrapped (t + 1)) inflight e)) (λ unused e. cc) h

-- taking one tag away leaves the others
in_use-without :
    (t x : ℕ) (inflight : List (ℕ × ℕ)) → x ≢ t → IsUsed inflight x → IsUsed (without t inflight) x
in_use-without t x [] ne h = h
in_use-without t x ((u, addr) ∷ inflight) ne h = ground (arith, in_use-without t x inflight ne)

length-without :
    (t : ℕ) (inflight : List (ℕ × ℕ))
    → IsUsed inflight t
    → suc (length (without t inflight)) ≡ length inflight
length-without t [] h = absurd (true≢false (sym h))
length-without t ((u, addr) ∷ inflight) h = ground (arith, length-without t inflight)

IsUsed-without :
    (t : ℕ) (ts : List ℕ) (inflight : List (ℕ × ℕ))
    → All (λ x. x ≢ t) ts
    → All (IsUsed inflight) ts
    → All (IsUsed (without t inflight)) ts
IsUsed-without t [] inflight ne h = tt
IsUsed-without t (x ∷ ts) inflight ne h =
    (in_use-without t x inflight ne.0 h.0, IsUsed-without t ts inflight ne.1 h.1)

-- Different tags in use are no more than the requests in flight.
Distinct-length :
    (ts : List ℕ) (inflight : List (ℕ × ℕ))
    → Distinct ts
    → All (IsUsed inflight) ts
    → length ts ≤ length inflight
Distinct-length [] inflight d h = omega arith
Distinct-length (t ∷ ts) inflight d h =
    let fewer =
      Distinct-length ts (without t inflight) d.1 (IsUsed-without t ts inflight d.0 h.1) in
    omega (arith, fewer, length-without t inflight h.0)

-- a tag that the search returns is one it may return
pub free_tag-some :
    (n t tag : ℕ) (inflight : List (ℕ × ℕ))
    → IsTag t
    → free_tag n t inflight ≡ some tag
    → IsTag tag × (in_use tag inflight ≡ false)
unfolding free_tag
free_tag-some zero t tag inflight h e = cc
free_tag-some (suc n) t tag inflight h e =
    if_elim (λ found. found ≡ some tag → IsTag tag × (in_use tag inflight ≡ false))
      (in_use t inflight)
      (λ used e'. free_tag-some n (wrapped (t + 1)) tag inflight (wrapped-IsTag (t + 1)) e')
      (λ unused e'. rw (sym (some-injective t tag e')) (h, unused)) e

-- The loop that looks for a tag ends, within 65,535 rounds, when fewer requests than that are in
-- flight; the tag it finds fits 16 bits, is not 0 and is not in use.
pub free_tag-IsFree :
    (t : ℕ) (inflight : List (ℕ × ℕ))
    → IsTag t
    → length inflight < 65_535
    → (tag : ℕ) × (free_tag 65_535 t inflight ≡ some tag)
      × IsTag tag
      × (in_use tag inflight ≡ false)
free_tag-IsFree t inflight h few = elim (Option-cases (free_tag 65_535 t inflight)) [
  | inl e ↦ absurd (
      omega (
        arith,
        few,
        length-tested 65_535 t,
        Distinct-length (tested 65_535 t) inflight (tested-Distinct 65_535 t h (omega arith))
            (free_tag-none 65_535 t inflight e),
      ))
  | inr (tag, e) ↦ let free = free_tag-some 65_535 t tag inflight h e in (tag, e, free.0, free.1)
]

-- When all tags are in use, the loop never ends.
pub free_tag-exhausted :
    (fuel t : ℕ) (inflight : List (ℕ × ℕ))
    → ((x : ℕ) → IsTag x → in_use x inflight ≡ true)
    → IsTag t
    → free_tag fuel t inflight ≡ none
unfolding free_tag
free_tag-exhausted zero t inflight all h = refl
free_tag-exhausted (suc fuel) t inflight all h =
    rw (all t h) (free_tag-exhausted fuel (wrapped (t + 1)) inflight all (wrapped-IsTag (t + 1)))
