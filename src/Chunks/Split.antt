-- ===== src/Chunks/Split.antt =====
-- The chunks of `split_batch`.
use archerdb.Base.{
  ℕ, zero, suc, ◌≤◌, ◌<◌, ◌+◌, ◌-◌, ◌≡◌, refl, ap, ◌∙◌, sym, List, ◌++◌, map, ok, length, drop,
  slice, concat, take-append-drop, drop-add, drop-length, length-take, length-drop, All, arith, ltb,
  if_elim, ltb→lt, ltb→ge,
}
use archerdb.Chunks.{range, offsets, split_batch}

module _ {ℓ} {A : Type ℓ} (items : List A) (size : ℕ) (positive : 1 ≤ size) where
  abbrev pub chunk_at : ℕ → List A
  chunk_at i = slice items i (i + size)

  pub chunk_at_lem : (i : ℕ) → chunk_at i ++ drop (i + size) items ≡ drop i items
  chunk_at_lem i =
      let width : i + size - i ≡ size = omega arith in
      rw (width, drop-add i size items) (take-append-drop size (drop i items))

  -- from an offset on, the chunks join to the rest of the items
  range_covers :
      (fuel start : ℕ)
      → length items ≤ start + fuel
      → concat (map chunk_at (range fuel start (length items) size)) ≡ drop start items
  unfolding range
  range_covers zero start h = sym (drop-length start items (omega arith))
  range_covers (suc fuel) start h =
      if_elim (λ is. concat (map chunk_at is) ≡ drop start items) (ltb start (length items))
        (λ more.
          ap (λ rest. chunk_at start ++ rest) (range_covers fuel (start + size) (omega arith))
          ∙ chunk_at_lem start)
        (λ done. sym (drop-length start items (ltb→ge _ _ done)))

  -- a chunk is never empty and has at most `size` items
  abbrev pub Fits : List A → Type 0
  Fits chunk = 1 ≤ length chunk × length chunk ≤ size

  pub chunk-Fits : (i : ℕ) → i < length items → Fits (chunk_at i)
  chunk-Fits i h =
      let taken = length-take (i + size - i) (drop i items) in
      let dropped = length-drop i items in
      (omega (arith, taken, dropped), omega (arith, taken, dropped))

  range-Fits : (fuel start : ℕ) → All Fits (map chunk_at (range fuel start (length items) size))
  unfolding range
  range-Fits zero start = tt
  range-Fits (suc fuel) start =
      if_elim (λ is. All Fits (map chunk_at is)) (ltb start (length items))
        (λ more. (chunk-Fits start (ltb→lt _ _ more), range-Fits fuel (start + size))) (λ done. tt)

-- For a positive chunk size `split_batch` gives a list of chunks, whatever the items; joined in
-- their order the chunks are the items, and each has at least one and at most `chunk_size` items.
pub split_batch_lem {ℓ} :
    {A : Type ℓ} (items : List A) (size : ℕ)
    → 1 ≤ size
    → (chunks : List (List A)) × split_batch items size ≡ ok chunks
      × concat chunks ≡ items
      × All (λ chunk. 1 ≤ length chunk × length chunk ≤ size) chunks
unfolding split_batch
split_batch_lem items zero positive = absurd (omega arith)
split_batch_lem items (suc n) positive = (
  map (chunk_at items (suc n) positive) (offsets (length items) (suc n)),
  refl,
  range_covers items (suc n) positive (length items) 0 (omega arith),
  range-Fits items (suc n) positive (length items) 0,
)
