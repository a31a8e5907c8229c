-- ===== src/CoinSelection/Splits.antt =====
-- `generateSplitsForShard`: one amount cut into a random number of outputs.
pub mod Bounds
use ghost_shard_protocol.Prelude.{
  ℕ, zero, suc, ◌+◌, ◌-◌, ◌||◌, List, [], ◌∷◌, leb, ◌==◌, if◌then◌else◌,
}
use ghost_shard_protocol.Prelude.Int.{ℤ, pos, ◌-ℤ◌, ◌*ℤ◌, ◌/ℤ◌, ltb_ℤ, leb_ℤ}
use ghost_shard_protocol.Random.{Rng, draw}

-- The share of `maxSafeDraw` that a round takes, and never less than the dust.
unfoldable pub chunk_of : ℤ → ℤ → ℕ → ℤ
chunk_of dust max_safe_draw percentage =
    let chunk = max_safe_draw *ℤ percentage /ℤ 100 in if ltb_ℤ chunk dust then dust else chunk

-- The loop, with the rounds left, `numOutputs - 1 - i`; and the last output.
unfoldable pub split_loop : Rng → ℤ → ℕ → ℤ → ℕ → List ℤ × ℕ
split_loop rng dust zero remaining n = (remaining ∷ [], n)
split_loop rng dust (suc k) remaining n =
    let max_safe_draw = remaining -ℤ dust *ℤ suc k in
    let chunk = chunk_of dust max_safe_draw (draw rng n 50 + 25) in
    let rest = split_loop rng dust k (remaining -ℤ chunk) (n + 1) in
    if leb_ℤ max_safe_draw dust then (remaining ∷ [], n) else (chunk ∷ rest.0, rest.1)

unfoldable pub generate_splits : Rng → ℤ → ℕ → ℤ → ℕ → List ℤ × ℕ
generate_splits rng pool_amount max_outputs dust n =
    if leb_ℤ pool_amount (pos 0)
    then ([], n)
    else if ltb_ℤ pool_amount (dust *ℤ 2) || leb max_outputs 1
    then (pool_amount ∷ [], n)
    else let num_outputs = draw rng n max_outputs + 1 in
      if num_outputs == 1
      then (pool_amount ∷ [], n + 1)
      else split_loop rng dust (num_outputs - 1) pool_amount (n + 1)
