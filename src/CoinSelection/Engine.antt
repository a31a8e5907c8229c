-- ===== src/CoinSelection/Engine.antt =====
-- `runSelectionEngine`: shuffle the wallet, gather shards until they cover the amount, sweep up
-- some more, allot the amount, and cut each shard's payment and change into outputs.
pub mod Gathering
pub mod Exactness
pub mod Wallet
pub mod Overpayment
use ghost_shard_protocol.Prelude.{
  Result, ok, err, or_raise, ◌>>=◌, ◌>>◌, ℕ, zero, suc, ◌+◌, List, [], ◌∷◌, map, Option, some,
  length, if◌then◌else◌, ◌++◌,
}
use ghost_shard_protocol.Prelude.Int.{ℤ, pos, ◌+ℤ◌, ◌-ℤ◌, ltb_ℤ}
use ghost_shard_protocol.Types.{Shard, AssetType}
use ghost_shard_protocol.Random.{Rng, shuffle}
use ghost_shard_protocol.CoinSelection.Errors.{type_error, insufficient, Error}
use ghost_shard_protocol.CoinSelection.Metrics.{calculate_compression_metrics}
use ghost_shard_protocol.CoinSelection.Splits.{generate_splits}
use ghost_shard_protocol.CoinSelection.Allocation.{PoolItem, with_ceilings, allocate}

-- `Required<SelectionOpts>`
pub record SelectionOpts : Type 0 where
  pub max_splits_per_side : ℕ
  pub min_dust_threshold : ℤ

pub record MultiSplitSelectionResult : Type 0 where
  pub shards : List Shard
  pub total_selected : ℤ
  pub payment_splits_by_shard : List (List ℤ)
  pub change_splits_by_shard : List (List ℤ)
  pub min_dust_threshold : ℤ

-- The items gathered, their capacity and the array behind the cursor.
pub record Gathered : Type 0 where
  pub selected : List PoolItem
  pub capacity : ℤ
  pub left : List (Option PoolItem)

abbrev pub push_front : PoolItem → Gathered → Gathered
push_front x g = record g { selected = x ∷ g.selected }

-- 1. The loop that gathers the primary pool. An entry that is `undefined` makes it throw.
unfoldable pub gather_primary : ℤ → List (Option PoolItem) → ℤ → Result Error Gathered
gather_primary amount [] capacity = ok (record { selected = []; capacity = capacity; left = [] })
gather_primary amount (o ∷ rest) capacity =
    let more = or_raise o type_error >>= λ x.
    gather_primary amount rest (capacity +ℤ x.balance) >>= λ g. ok (push_front x g) in
    if ltb_ℤ capacity amount
    then more
    else ok (record { selected = []; capacity = capacity; left = o ∷ rest })

-- 2. The loop that gathers the compression extras, with the number still to sweep up.
unfoldable pub gather_extras : ℕ → List (Option PoolItem) → ℤ → Result Error Gathered
gather_extras zero rest capacity = ok (record { selected = []; capacity = capacity; left = rest })
gather_extras (suc k) [] capacity = ok (record { selected = []; capacity = capacity; left = [] })
gather_extras (suc k) (o ∷ rest) capacity = or_raise o type_error >>= λ x.
    gather_extras k rest (capacity +ℤ x.balance) >>= λ g. ok (push_front x g)

-- 5. The last loop: the payment outputs and the change outputs of each shard in turn.
unfoldable pub split_all :
    Rng → SelectionOpts → ℕ → List PoolItem → List ℤ → ℕ → List (List ℤ × List ℤ)
split_all rng opts pool_size [] targets n = []
split_all rng opts pool_size (x ∷ xs) [] n = []
split_all rng opts pool_size (x ∷ xs) (target ∷ targets) n =
    let (payment, n₁) =
      generate_splits rng target opts.max_splits_per_side opts.min_dust_threshold n in
    let (change, n₂) =
      generate_splits rng (x.balance -ℤ target) pool_size opts.min_dust_threshold n₁ in
    (payment, change) ∷ split_all rng opts pool_size xs targets n₂

-- The result: the selected shards, and the outputs of each.
unfoldable pub assemble :
    Rng → SelectionOpts → ℤ → ℕ → List PoolItem → List ℤ → ℕ → MultiSplitSelectionResult
assemble rng opts amount pool_size pool targets n =
    let outputs = split_all rng opts pool_size pool targets n in
    record {
      shards = map (λ x. x.shard) pool;
      total_selected = amount;
      payment_splits_by_shard = map (λ o. o.0) outputs;
      change_splits_by_shard = map (λ o. o.1) outputs;
      min_dust_threshold = opts.min_dust_threshold;
    }

-- Everything behind the shuffle, on the shuffled array.
unfoldable pub select_from :
    Rng
    → List (Option PoolItem)
    → ℤ
    → SelectionOpts
    → AssetType
    → ℕ
    → Result Error MultiSplitSelectionResult
select_from rng shuffled amount opts asset n = do
  primary ← gather_primary amount shuffled (pos 0)
  if ltb_ℤ primary.capacity amount then err (insufficient asset) else ok tt
  let (metrics, n₁) = calculate_compression_metrics rng (length shuffled) n
  extras ← gather_extras metrics.extra_shards_to_compress primary.left primary.capacity
  let selected_pool = primary.selected ++ extras.selected
  (targets, n₂) ←
      allocate rng asset opts.min_dust_threshold (with_ceilings selected_pool).0 amount n₁
  ok (assemble rng opts amount metrics.change_target_pool_size selected_pool targets n₂)

unfoldable pub run_selection_engine :
    Rng → List PoolItem → ℤ → SelectionOpts → AssetType → ℕ → Result Error MultiSplitSelectionResult
unfolding select_from
run_selection_engine rng with_balance amount opts asset n =
    let (shuffled, n') = shuffle rng (map some with_balance) n in
    select_from rng shuffled amount opts asset n'
