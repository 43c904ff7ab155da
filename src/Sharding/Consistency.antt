-- ===== src/Sharding/Consistency.antt =====
-- Adding shards moves an entity only to a new shard: the hash is consistent.
use Prim.Native.Nat.{bit_and}
use archerdb.Base.{
  ℕ, zero, suc, ◌^◌, ◌≤◌, ◌<◌, ◌≡◌, some, arith, ltb, ltb→lt, lt→ltb, Bool-cases, ◌⊎◌, inl, inr,
}
use archerdb.Sharding.{
  mask64, lcg, divisor, jump_loop, jump_hash, compute_shard_key, get_shard_for_entity,
}
use archerdb.Sharding.Bounds.{Advances, divisor-lcg}

module _ (next_jump : ℕ → ℕ → ℕ) (advances : Advances next_jump) where
  -- what the loop returns is not below a bound that `b` and `j` have passed
  loop-ge :
      (fuel n b j k bound : ℕ) {r : ℕ}
      → n ≤ 2 ^ 53
      → bound ≤ b
      → bound ≤ j
      → jump_loop next_jump fuel n b j k ≡ some r
      → bound ≤ r
  unfolding jump_loop
  loop-ge zero n b j k bound big hb hj e = cc
  loop-ge (suc fuel) n b j k bound big hb hj e = elim (Bool-cases (ltb j n)) [
    | inl more ↦
        let j-lt = ltb→lt j n more in
        let (pos, small) = divisor-lcg k in
        let next = advances j (divisor (lcg k)) (omega arith) pos small in
        loop-ge fuel n j (next_jump j (divisor (lcg k))) (lcg k) bound big hj (omega arith)
          (rw more at e)
    | inr done ↦ ground arith
  ]

  -- two loops from one state: the one with more buckets ends alike, or in one of the new buckets
  loop-grow :
      (fuel fuel' n m b j k : ℕ) {r r' : ℕ}
      → n ≤ m
      → m ≤ 2 ^ 53
      → jump_loop next_jump fuel n b j k ≡ some r
      → jump_loop next_jump fuel' m b j k ≡ some r'
      → (r' ≡ r) ⊎ (n ≤ r')
  unfolding jump_loop
  loop-grow zero fuel' n m b j k le big e e' = cc
  loop-grow (suc fuel) zero n m b j k le big e e' = cc
  loop-grow (suc fuel) (suc fuel') n m b j k le big e e' = elim (Bool-cases (ltb j n)) [
    | inl more ↦
        loop-grow fuel fuel' n m j (next_jump j (divisor (lcg k))) (lcg k) le big (rw more at e)
          (rw (lt→ltb j m (omega (arith, ltb→lt j n more))) at e')
    | inr done ↦ elim (Bool-cases (ltb j m)) [
      | inl more ↦
          let j-lt = ltb→lt j m more in
          let (pos, small) = divisor-lcg k in
          let next = advances j (divisor (lcg k)) (omega arith) pos small in
          let past : n ≤ j = ground arith in
          inr (
            loop-ge fuel' m j (next_jump j (divisor (lcg k))) (lcg k) n big past (omega arith)
              (rw more at e'))
      | inr done' ↦ inl (ground arith)
    ]
  ]

  -- If the floating-point jump advances, then going from `n` buckets to `m`, no fewer, a key stays in
  -- its bucket or moves to one of the new buckets.
  pub jump_hash-consistent :
      (key n m : ℕ) {r r' : ℕ}
      → 0 < n
      → n ≤ m
      → m ≤ 2 ^ 53
      → jump_hash next_jump key n ≡ some r
      → jump_hash next_jump key m ≡ some r'
      → (r' ≡ r) ⊎ (n ≤ r')
  unfolding jump_hash
  jump_hash-consistent key zero m pos le big e e' = absurd (omega arith)
  jump_hash-consistent key (suc n) zero pos le big e e' = absurd (omega arith)
  jump_hash-consistent key (suc n) (suc m) pos le big e e' =
      loop-grow (suc (suc n)) (suc (suc m)) (suc n) (suc m) 0 0 (bit_and key mask64) le big e e'

  -- If the floating-point jump advances, then resharding from `n` shards to `m`, no fewer, leaves an
  -- entity on its shard or moves it to one of the new shards.
  pub get_shard_for_entity-consistent :
      (entity_id n m : ℕ) {r r' : ℕ}
      → 0 < n
      → n ≤ m
      → m ≤ 2 ^ 53
      → get_shard_for_entity next_jump entity_id n ≡ some r
      → get_shard_for_entity next_jump entity_id m ≡ some r'
      → (r' ≡ r) ⊎ (n ≤ r')
  unfolding get_shard_for_entity
  get_shard_for_entity-consistent entity_id n m pos le big e e' =
      jump_hash-consistent (compute_shard_key entity_id) n m pos le big e e'
