-- ===== src/CoinSelection/Metrics.antt =====
-- `calculateCompressionMetrics`: how many further shards a transfer sweeps up, and into how many
-- outputs the change of a shard is cut.
use Prim.Native.Nat.{max}
use ghost_shard_protocol.Prelude.{
  ℕ, zero, suc, ◌+◌, ◌-◌, ◌*◌, ◌≤◌, ◌<◌, ◌≡◌, arith, ltb, leb, if◌then◌else◌,
}
use ghost_shard_protocol.Random.{Rng, draw, draw-le}

pub record CompressionTargetResult : Type 0 where
  pub extra_shards_to_compress : ℕ
  pub change_target_pool_size : ℕ

-- The largest m up to `k` with (2 * m)² ≤ n.
unfoldable pub half_sqrt_below : ℕ → ℕ → ℕ
half_sqrt_below zero n = 0
half_sqrt_below (suc k) n =
    let rest = half_sqrt_below k n in if leb (4 * (suc k * suc k)) n then suc k else rest

-- `Math.floor(Math.sqrt(n) * 0.5)`
unfoldable pub half_sqrt : ℕ → ℕ
unfolding half_sqrt_below
half_sqrt n = half_sqrt_below n n

unfoldable pub min_extra_of : ℕ → ℕ
min_extra_of size =
    if ltb 500 size then 8 else if ltb 100 size then 5 else max 1 (half_sqrt size - 1)

unfoldable pub max_extra_of : ℕ → ℕ
max_extra_of size = if ltb 500 size then 15 else if ltb 100 size then 10 else half_sqrt size + 2

unfoldable pub change_pool_of : Rng → ℕ → ℕ → ℕ
change_pool_of rng size n =
    if ltb 500 size
    then draw rng n 3 + 3
    else if ltb 100 size
    then draw rng n 3 + 2
    else draw rng n 2 + 2

-- Two words are drawn for a wallet of more than three shards. (`maxExtra - minExtra + 1` is never
-- below zero.)
unfoldable pub calculate_compression_metrics : Rng → ℕ → ℕ → CompressionTargetResult × ℕ
calculate_compression_metrics rng size n =
    if leb size 3
    then (record { extra_shards_to_compress = 0; change_target_pool_size = 2 }, n)
    else (
      record {
        extra_shards_to_compress =
            draw rng n (max_extra_of size - min_extra_of size + 1) + min_extra_of size;
        change_target_pool_size = change_pool_of rng size (n + 1);
      },
      n + 2,
    )

half_sqrt_below-sq-le : (k n : ℕ) → 4 * (half_sqrt_below k n * half_sqrt_below k n) ≤ n
unfolding half_sqrt_below
half_sqrt_below-sq-le zero n = omega arith
half_sqrt_below-sq-le (suc k) n = ground (arith, half_sqrt_below-sq-le k n)

-- A wallet of up to 100 shards has a half root of at most 5.
half_sqrt-le : (n : ℕ) → n ≤ 100 → half_sqrt n ≤ 5
unfolding half_sqrt
half_sqrt-le n h = let sq = half_sqrt_below-sq-le n n in grind (arith, sq)

extra_range :
    (size : ℕ)
    → (1 ≤ min_extra_of size) × (min_extra_of size ≤ max_extra_of size) × (max_extra_of size ≤ 15)
unfolding min_extra_of max_extra_of
extra_range size = ground (arith, half_sqrt-le size)

change_pool_of_range :
    (rng : Rng) (size n : ℕ) → (2 ≤ change_pool_of rng size n) × (change_pool_of rng size n ≤ 6)
unfolding change_pool_of
change_pool_of_range rng size n = ground (arith, draw-le rng n 3, draw-le rng n 2)

-- A wallet of up to three shards is not compressed. Above that, 1 to 16 further shards are swept
-- and the change of a shard is cut into 2 to 6 outputs at most.
pub calculate_compression_metrics_bounds :
    (rng : Rng) (size n : ℕ)
    → let m = (calculate_compression_metrics rng size n).0 in
      (size ≤ 3 → m.extra_shards_to_compress ≡ 0)
      × (3 < size → 1 ≤ m.extra_shards_to_compress)
      × (m.extra_shards_to_compress ≤ 16)
      × (2 ≤ m.change_target_pool_size)
      × (m.change_target_pool_size ≤ 6)
unfolding calculate_compression_metrics
calculate_compression_metrics_bounds rng size n =
    let k = max_extra_of size - min_extra_of size + 1 in
    ground (arith, extra_range size, change_pool_of_range rng size (n + 1), draw-le rng n k)

-- For a wallet of more than three shards, 1 to 16 further shards are swept up, and the change of a
-- shard is cut into 2 to 6 outputs at most.
pub calculate_compression_metrics-range :
    (rng : Rng) (size n : ℕ)
    → 3 < size
    → let m = (calculate_compression_metrics rng size n).0 in
      (1 ≤ m.extra_shards_to_compress)
      × (m.extra_shards_to_compress ≤ 16)
      × (2 ≤ m.change_target_pool_size)
      × (m.change_target_pool_size ≤ 6)
calculate_compression_metrics-range rng size n large =
    let (few, more, most, low, high) = calculate_compression_metrics_bounds rng size n in
    (more large, most, low, high)
