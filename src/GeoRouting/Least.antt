-- ===== src/GeoRouting/Least.antt =====
-- What the first element behind `sort(key=...)` is, for the keys of the selector: a region whose key
-- no other region's key is below.
use archerdb.Base.{
  ℕ, ◌*◌, ◌≤◌, ◌<◌, ◌≡◌, refl, inl, inr, Bool, true, false, List, [], ◌∷◌, All, Some, Bool-cases,
  ltb, ltb→lt, ltb→ge, le→ltb, arith,
}
use archerdb.GeoRouting.{Average, lower}
use archerdb.GeoRouting.Selector.{least}

module _ {A : Type 0} {K : Type 0} (less : K → K → Bool) (Good : K → Type 0) where
  -- The element with this key is one of the list, and no key of the list is below its key.
  pub record IsLeast (xs : List (A × K)) (a : A) : Type 0 where
    pub key : K
    pub good : Good key
    pub listed : Some (λ p. p ≡ (a, key)) xs
    pub lowest : All (λ p. less p.1 key ≡ false) xs

module _ {A : Type 0} {K : Type 0} (less : K → K → Bool) (Good : K → Type 0)
    (weaken : (x y : K) → Good x → Good y → less x y ≡ true → less y x ≡ false)
    (trans : (x y z : K)
      → Good x
      → Good y
      → Good z
      → less y x ≡ false
      → less z y ≡ false
      → less z x ≡ false) where
  -- a candidate that gave way to a lower one, and one that stays
  replaced :
      (a : A) (k : K) (b : A) (l : K) (xs : List (A × K)) (c : A)
      → Good k
      → Good l
      → less l k ≡ true
      → IsLeast less Good ((b, l) ∷ xs) c
      → IsLeast less Good ((a, k) ∷ (b, l) ∷ xs) c
  replaced a k b l xs c g g' below h = record {
    key = h.key;
    good = h.good;
    listed = inr h.listed;
    lowest = (trans h.key l k h.good g' g h.lowest.0 (weaken l k g' g below), h.lowest);
  }

  kept_first :
      (a : A) (k : K) (b : A) (l : K) (xs : List (A × K)) (c : A)
      → Good k
      → Good l
      → less l k ≡ false
      → IsLeast less Good ((a, k) ∷ xs) c
      → IsLeast less Good ((a, k) ∷ (b, l) ∷ xs) c
  kept_first a k b l xs c g g' above h = record {
    key = h.key;
    good = h.good;
    listed = elim h.listed [ inl here ↦ inl here | inr there ↦ inr (inr there) ];
    lowest = (h.lowest.0, (trans h.key k l h.good g g' h.lowest.0 above, h.lowest.1));
  }

  pub least-IsLeast :
      (a : A) (k : K) (xs : List (A × K))
      → Good k
      → All (λ p. Good p.1) xs
      → IsLeast less Good ((a, k) ∷ xs) (least less (a, k) xs)
  unfolding least
  least-IsLeast a k [] g gs = record {
    key = k;
    good = g;
    listed = inl refl;
    lowest =
        (elim (Bool-cases (less k k)) [ inl below ↦ weaken k k g g below | inr same ↦ same ], tt);
  }
  least-IsLeast a k ((b, l) ∷ xs) g gs = elim (Bool-cases (less l k)) [
    | inl below ↦
        rw below
          (replaced a k b l xs (least less (b, l) xs) g gs.0 below (least-IsLeast b l xs gs.0 gs.1))
    | inr above ↦
        rw above
          (kept_first a k b l xs (least less (a, k) xs) g gs.0 above (least-IsLeast a k xs g gs.1))
  ]

-- An average of at least one sample.
abbrev pub IsMeasured : Average → Type 0
IsMeasured a = 0 < a.count

mul_le : (a b c : ℕ) → a ≤ b → a * c ≤ b * c
mul_le a b c h = grind arith

cancel : (a b c : ℕ) → 0 < c → a * c ≤ b * c → a ≤ b
cancel a b c pos h = grind arith

cross : (at ac bt bc ct cc : ℕ) → 0 < bc → at * bc ≤ bt * ac → bt * cc ≤ ct * bc → at * cc ≤ ct * ac
cross at ac bt bc ct cc pos h k =
    let first = mul_le (at * bc) (bt * ac) cc h in
    let second = mul_le (bt * cc) (ct * bc) ac k in
    cancel (at * cc) (ct * ac) bc pos (grind (arith, first, second))

pub lower_weaken : (a b : Average) → lower a b ≡ true → lower b a ≡ false
lower_weaken a b h =
    let below = ltb→lt (a.total * b.count) (b.total * a.count) h in
    le→ltb (b.total * a.count) (a.total * b.count) (omega (arith, below))

pub lower_trans :
    (a b c : Average) → IsMeasured b → lower b a ≡ false → lower c b ≡ false → lower c a ≡ false
lower_trans a b c pos h k =
    let first = ltb→ge (b.total * a.count) (a.total * b.count) h in
    let second = ltb→ge (c.total * b.count) (b.total * c.count) k in
    le→ltb (c.total * a.count) (a.total * c.count)
      (cross a.total a.count b.total b.count c.total c.count pos first second)

-- The order of the averages that were measured, and the one of the distances.
pub least_average :
    {A : Type 0} (a : A) (k : Average) (xs : List (A × Average))
    → IsMeasured k
    → All (λ p. IsMeasured p.1) xs
    → IsLeast lower IsMeasured ((a, k) ∷ xs) (least lower (a, k) xs)
least_average a k xs g gs =
    least-IsLeast lower IsMeasured (λ x y _ _. lower_weaken x y)
      (λ x y z _ g' _. lower_trans x y z g') a k xs g gs

ltb_weaken : (x y : ℕ) → ltb x y ≡ true → ltb y x ≡ false
ltb_weaken x y h = ground arith

ltb_trans : (x y z : ℕ) → ltb y x ≡ false → ltb z y ≡ false → ltb z x ≡ false
ltb_trans x y z h k = ground arith

All-anything : {A : Type 0} (xs : List (A × ℕ)) → All {0, 0} (λ p. Unit) xs
All-anything [] = tt
All-anything (x ∷ xs) = (tt, All-anything xs)

pub least_distance :
    {A : Type 0} (a : A) (k : ℕ) (xs : List (A × ℕ))
    → IsLeast ltb (λ n. Unit) ((a, k) ∷ xs) (least ltb (a, k) xs)
least_distance a k xs =
    least-IsLeast ltb (λ n. Unit) (λ x y _ _. ltb_weaken x y) (λ x y z _ _ _. ltb_trans x y z) a k
      xs tt (All-anything xs)
