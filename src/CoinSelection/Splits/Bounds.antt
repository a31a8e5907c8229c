-- ===== src/CoinSelection/Splits/Bounds.antt =====
-- The outputs of `generateSplitsForShard` (ghost-shard-sdk/src/coinSelection.ts): their sum, their
-- number and their size.
use Prim.Native.Nat.{max}
use ghost_shard_protocol.Prelude.{
  if◌then◌else◌, ℕ, zero, suc, ◌+◌, ◌≤◌, ◌<◌, ◌≡◌, List, [], ◌∷◌, All, length, arith, Bool-cases,
  inl, inr, leb, ◌==◌, ◌||◌,
}
use ghost_shard_protocol.Prelude.Int.{
  ℤ, pos, negsuc, sum, ◌-ℤ◌, ◌*ℤ◌, ◌≤ℤ◌, ◌<ℤ◌, int_laws, ltb_ℤ, leb_ℤ, percent_bounds,
}
use ghost_shard_protocol.Random.{Rng, draw, draw-le, draw-lt, top_word}
use ghost_shard_protocol.CoinSelection.Splits.{chunk_of, split_loop, generate_splits}

sum_single : (x : ℤ) → sum (x ∷ []) ≡ x
unfolding sum
sum_single x = omega int_laws

le-mul : (d : ℤ) (k : ℕ) → pos 0 ≤ℤ d → d ≤ℤ d *ℤ suc k
unfolding ◌*ℤ◌
le-mul (pos d) k h = grind arith
le-mul (negsuc d) k h = absurd (omega arith)

-- A chunk is never less than the dust, and fits what may be drawn.
chunk_of_bounds :
    (dust m : ℤ) (w : ℕ)
    → pos 0 ≤ℤ dust
    → dust <ℤ m
    → w ≤ 100
    → (dust ≤ℤ chunk_of dust m w) × (chunk_of dust m w ≤ℤ m)
unfolding chunk_of
chunk_of_bounds dust m w p h b =
    let share = percent_bounds m w (omega arith) b in ground (arith, share)

module _ (rng : Rng) where
  split_loop-sum :
      (dust : ℤ) (k : ℕ) (remaining : ℤ) (n : ℕ)
      → sum (split_loop rng dust k remaining n).0 ≡ remaining
  unfolding split_loop sum
  split_loop-sum dust zero remaining n = omega int_laws
  split_loop-sum dust (suc k) remaining n =
      let max_safe_draw = remaining -ℤ dust *ℤ suc k in
      let chunk = chunk_of dust max_safe_draw (draw rng n 50 + 25) in
      elim (Bool-cases (leb_ℤ max_safe_draw dust)) [
        | inl e ↦ rw e (omega int_laws)
        | inr e ↦ rw e (rw (split_loop-sum dust k (remaining -ℤ chunk) (n + 1)) (omega int_laws))
      ]

  split_loop-ge :
      (dust : ℤ) (k : ℕ) (remaining : ℤ) (n : ℕ)
      → pos 0 ≤ℤ dust
      → dust ≤ℤ remaining
      → All (λ x. dust ≤ℤ x) (split_loop rng dust k remaining n).0
  unfolding split_loop
  split_loop-ge dust zero remaining n p h = (h, tt)
  split_loop-ge dust (suc k) remaining n p h =
      let m = remaining -ℤ dust *ℤ suc k in
      let w = draw rng n 50 + 25 in
      elim (Bool-cases (leb_ℤ m dust)) [
        | inl e ↦ rw e (h, tt)
        | inr e ↦
            let over : dust <ℤ m = ground arith in
            let (low, high) = chunk_of_bounds dust m w p over (omega (arith, draw-le rng n 50)) in
            rw e (
              low,
              split_loop-ge dust k (remaining -ℤ chunk_of dust m w) (n + 1) p
                  (omega (int_laws, le-mul dust k p, high)),
            )
      ]

  length-split_loop-le :
      (dust : ℤ) (k : ℕ) (remaining : ℤ) (n : ℕ)
      → length (split_loop rng dust k remaining n).0 ≤ k + 1
  unfolding split_loop
  length-split_loop-le dust zero remaining n = omega arith
  length-split_loop-le dust (suc k) remaining n =
      let m = remaining -ℤ dust *ℤ suc k in
      let chunk = chunk_of dust m (draw rng n 50 + 25) in
      elim (Bool-cases (leb_ℤ m dust)) [
        | inl e ↦ rw e (omega arith)
        | inr e ↦ rw e (omega (arith, length-split_loop-le dust k (remaining -ℤ chunk) (n + 1)))
      ]

  -- The ways out of `generateSplitsForShard`: nothing, the whole amount, or the loop.
  generate_splits_cases :
      (P : List ℤ → Type 0) (pool_amount : ℤ) (max_outputs : ℕ) (dust : ℤ) (n : ℕ)
      → (pool_amount ≤ℤ pos 0 → P [])
      → (pos 0 <ℤ pool_amount → P (pool_amount ∷ []))
      → (pos 0 <ℤ pool_amount
          → dust *ℤ 2 ≤ℤ pool_amount
          → 1 < max_outputs
          → (k : ℕ) → k ≡ draw rng n max_outputs
          → P (split_loop rng dust k pool_amount (n + 1)).0)
      → P (generate_splits rng pool_amount max_outputs dust n).0
  unfolding generate_splits
  generate_splits_cases P pool_amount max_outputs dust n nothing whole loop =
      elim (Bool-cases (leb_ℤ pool_amount (pos 0))) [
        | inl e ↦ rw e (nothing (ground arith))
        | inr e ↦
            let positive : pos 0 <ℤ pool_amount = ground arith in
            rw e (elim (Bool-cases (ltb_ℤ pool_amount (dust *ℤ 2) || leb max_outputs 1)) [
              | inl e' ↦ rw e' (whole positive)
              | inr e' ↦ rw e' (elim (Bool-cases ((draw rng n max_outputs + 1) == 1)) [
                | inl one ↦ rw one (whole positive)
                | inr more ↦ rw more (loop positive (ground arith) (ground arith) _ (omega arith))
              ])
            ])
      ]

  -- The outputs of a shard add up to the amount, and there are none for an amount of zero or less.
  pub sum-generate_splits :
      (pool_amount : ℤ) (max_outputs : ℕ) (dust : ℤ) (n : ℕ)
      → sum (generate_splits rng pool_amount max_outputs dust n).0
        ≡ (if leb_ℤ pool_amount (pos 0) then pos 0 else pool_amount)
  unfolding sum
  sum-generate_splits pool_amount max_outputs dust n =
      generate_splits_cases
        (λ xs. sum xs ≡ (if leb_ℤ pool_amount (pos 0) then pos 0 else pool_amount)) pool_amount
        max_outputs dust n (λ h. ground arith) (λ h. ground (arith, sum_single pool_amount))
        (λ h _ _ k _. ground (arith, split_loop-sum dust k pool_amount (n + 1)))

  -- No output is below the dust threshold, if the amount is at least twice the threshold and the
  -- threshold is not negative.
  pub generate_splits-ge :
      (pool_amount : ℤ) (max_outputs : ℕ) (dust : ℤ) (n : ℕ)
      → pos 0 ≤ℤ dust
      → dust *ℤ 2 ≤ℤ pool_amount
      → All (λ x. dust ≤ℤ x) (generate_splits rng pool_amount max_outputs dust n).0
  generate_splits-ge pool_amount max_outputs dust n p h =
      let enough : dust ≤ℤ pool_amount = omega (arith, le-mul dust 1 p) in
      generate_splits_cases (All (λ x. dust ≤ℤ x)) pool_amount max_outputs dust n (λ _. tt)
        (λ _. (enough, tt)) (λ _ _ _ k _. split_loop-ge dust k pool_amount (n + 1) p enough)

  -- If the first random word is not the largest one, there are at most `maxOutputs` outputs, or
  -- one if that is less.
  pub length-generate_splits-le :
      (pool_amount : ℤ) (max_outputs : ℕ) (dust : ℤ) (n : ℕ)
      → rng.word n < top_word
      → max_outputs ≤ top_word
      → length (generate_splits rng pool_amount max_outputs dust n).0 ≤ max 1 max_outputs
  length-generate_splits-le pool_amount max_outputs dust n below small =
      generate_splits_cases (λ xs. length xs ≤ max 1 max_outputs) pool_amount max_outputs dust n
        (λ _. omega arith) (λ _. omega arith)
        (λ _ _ two k e. omega (
          arith,
          length-split_loop-le dust k pool_amount (n + 1),
          draw-lt rng n max_outputs below (omega arith) small,
        ))
