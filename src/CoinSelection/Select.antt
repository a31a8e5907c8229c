-- ===== src/CoinSelection/Select.antt =====
-- `selectCoins` and its three branches. An option left out takes its default; the model does not
-- tell a property that is `undefined` from one that is not there.
pub mod Laws
use ghost_shard_protocol.Prelude.{
  Result, ok, err, ℕ, Bool, true, false, ◌&&◌, List, [], ◌∷◌, map, Option, none, some, any, find,
  filter, or_else, if◌then◌else◌,
}
use ghost_shard_protocol.Prelude.Int.{ℤ, pos, negsuc, ltb_ℤ, eq_ℤ}
use ghost_shard_protocol.Types.{
  Shard, AssetType, AssetBalance, native_balance, erc20_balance, erc721_balance, balance_of,
  TransferRequest,
}
use ghost_shard_protocol.Types.Hex.{HexString}
use ghost_shard_protocol.Viem.{AddressEq}
use ghost_shard_protocol.Random.{Rng}
use ghost_shard_protocol.CoinSelection.Errors.{token_required, not_found, invalid_address, Error}
use ghost_shard_protocol.CoinSelection.Allocation.{PoolItem}
use ghost_shard_protocol.CoinSelection.Engine.{
  SelectionOpts, MultiSplitSelectionResult, run_selection_engine,
}

-- `opts: SelectionOpts = {}`
pub record PartialOpts : Type 0 where
  pub max_splits_per_side : Option ℕ
  pub min_dust_threshold : Option ℤ

-- `{ maxSplitsPerSide: 3, minDustThreshold: 10000n, ...opts }`
abbrev pub with_defaults : PartialOpts → SelectionOpts
with_defaults o = record {
  max_splits_per_side = or_else o.max_splits_per_side 3;
  min_dust_threshold = or_else o.min_dust_threshold (pos 10000);
}

-- The balance of the first asset that passes the test, or 0, and only where it is positive.
abbrev pub item_of : (AssetBalance → Bool) → Shard → PoolItem
item_of p s = record {
  shard = s;
  balance = elim (find p s.assets) [ none ↦ pos 0 | some a ↦ balance_of a ];
}

abbrev pub with_balance : (AssetBalance → Bool) → List Shard → List PoolItem
with_balance p shards = filter (λ x. ltb_ℤ (pos 0) x.balance) (map (item_of p) shards)

abbrev pub is_native : AssetBalance → Bool
is_native (native_balance b) = true
is_native _ = false

abbrev pub is_any_erc20 : AssetBalance → Bool
is_any_erc20 (erc20_balance t b) = true
is_any_erc20 _ = false

-- `tokenIds.includes(tokenId)`
abbrev pub includes : List ℤ → ℤ → Bool
includes ids id = any (λ x. eq_ℤ x id) ids

module _ (v : AddressEq) where
  abbrev pub is_erc20 : HexString → AssetBalance → Bool
  is_erc20 token (erc20_balance t b) = v.is_address_equal t token
  is_erc20 token _ = false

  abbrev pub holds_nft : HexString → ℤ → AssetBalance → Bool
  holds_nft token id (erc721_balance t b ids) = v.is_address_equal t token && includes ids id
  holds_nft token id _ = false

  unfoldable pub select_native :
      Rng → List Shard → ℤ → SelectionOpts → ℕ → Result Error MultiSplitSelectionResult
  select_native rng shards amount opts n =
      run_selection_engine rng (with_balance is_native shards) amount opts AssetType.native n

  -- Without a token address `isAddressEqual` throws at the first ERC20 asset that it meets.
  unfoldable pub select_erc20 :
      Rng
      → List Shard
      → Option HexString
      → ℤ
      → SelectionOpts
      → ℕ
      → Result Error MultiSplitSelectionResult
  select_erc20 rng shards none amount opts n =
      if any (λ s. any is_any_erc20 s.assets) shards
      then err invalid_address
      else run_selection_engine rng [] amount opts AssetType.erc20 n
  select_erc20 rng shards (some token) amount opts n =
      run_selection_engine rng (with_balance (is_erc20 token) shards) amount opts AssetType.erc20 n

  abbrev pub nft_result : Shard → ℤ → MultiSplitSelectionResult
  nft_result shard id = record {
    shards = shard ∷ [];
    total_selected = pos 1;
    payment_splits_by_shard = (id ∷ []) ∷ [];
    change_splits_by_shard = [] ∷ [];
    min_dust_threshold = pos 0;
  }

  -- `!tokenAddress` holds of an empty string too.
  unfoldable pub select_erc721 :
      List Shard → Option HexString → Option ℤ → Result Error MultiSplitSelectionResult
  select_erc721 shards none id = err token_required
  select_erc721 shards (some []) id = err token_required
  select_erc721 shards (some (c ∷ token)) none = err token_required
  select_erc721 shards (some (c ∷ token)) (some id) =
      elim (find (λ s. any (holds_nft (c ∷ token) id) s.assets) shards) [
        | none ↦ err (not_found (c ∷ token) id)
        | some shard ↦ ok (nft_result shard id)
      ]

  -- The branches of the `switch`.
  abbrev pub branch :
      Rng
      → List Shard
      → ℤ
      → Option HexString
      → Option ℤ
      → SelectionOpts
      → ℕ
      → AssetType
      → Result Error MultiSplitSelectionResult
  branch rng shards amount token id options n AssetType.native =
      select_native rng shards amount options n
  branch rng shards amount token id options n AssetType.erc20 =
      select_erc20 rng shards token amount options n
  branch rng shards amount token id options n AssetType.erc721 = select_erc721 shards token id

  unfoldable pub select_coins :
      Rng → List Shard → TransferRequest → PartialOpts → ℕ → Result Error MultiSplitSelectionResult
  unfolding select_native select_erc20 select_erc721
  select_coins rng shards request opts n =
      branch rng shards (or_else request.amount (pos 0)) request.token_address request.token_id
        (with_defaults opts) n request.asset_type
