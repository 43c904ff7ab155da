-- ===== src/Base/Text.antt =====
-- Texts as lists of code points, and dictionaries under texts: a list of pairs in the order in which
-- the keys were first stored.
use Prim.Native.Nat.{ℕ}
use mathlib.Core.Path.{◌≡◌, refl}
use mathlib.Core.Logic.{inl, inr}
use mathlib.Core.Bool.{Bool, true, false, ◌&&◌}
use mathlib.Core.Option.{Option, none, some}
use mathlib.Core.List.{List, [], ◌∷◌}
use native.Mathlib.Omega.{arith}
use archerdb.Base.Tests.{◌==◌, if◌then◌else◌, Bool-cases}

abbrev pub same_text : List ℕ → List ℕ → Bool
same_text [] [] = true
same_text [] (d ∷ ds) = false
same_text (c ∷ cs) [] = false
same_text (c ∷ cs) (d ∷ ds) = (c == d) && same_text cs ds

pub same_text_refl : (s : List ℕ) → same_text s s ≡ true
same_text_refl [] = refl
same_text_refl (c ∷ s) = ground (arith, same_text_refl s)

pub same_text→eq : (s t : List ℕ) → same_text s t ≡ true → s ≡ t
same_text→eq [] [] h = refl
same_text→eq [] (d ∷ t) h = ground arith
same_text→eq (c ∷ s) [] h = ground arith
same_text→eq (c ∷ s) (d ∷ t) h = ground (arith, same_text→eq s t)

-- The truth value of a text: whether it is not empty.
abbrev pub truthy : List ℕ → Bool
truthy [] = false
truthy (c ∷ cs) = true

-- `name in names`
abbrev pub listed_in : List ℕ → List (List ℕ) → Bool
listed_in name [] = false
listed_in name (x ∷ xs) = if same_text x name then true else listed_in name xs

module _ {ℓ} {V : Type ℓ} where
  abbrev pub find : List ℕ → List (List ℕ × V) → Option V
  find key [] = none
  find key ((k, v) ∷ d) = if same_text k key then some v else find key d

  abbrev pub assign : List ℕ → V → List (List ℕ × V) → List (List ℕ × V)
  assign key v [] = (key, v) ∷ []
  assign key v ((k, w) ∷ d) = if same_text k key then (k, v) ∷ d else (k, w) ∷ assign key v d

  pub find-assign_self :
      (key : List ℕ) (v : V) (d : List (List ℕ × V)) → find key (assign key v d) ≡ some v
  find-assign_self key v [] = rw (same_text_refl key)
  find-assign_self key v ((k, w) ∷ d) = elim (Bool-cases (same_text k key)) [
    | inl same ↦ rw (same, same)
    | inr other ↦ rw (other, other) (find-assign_self key v d)
  ]
