-- ===== src/Client.antt =====
-- The parts of the class `GhostClient` (ghost-shard-sdk/src/index.ts) that work on the wallet's store:
-- the selection for a transaction, what is recorded of a prepared one, and of its end. Storage and
-- events are not modelled.
pub mod Change
pub mod Spendable
pub mod Spent
mod Examples
use ghost_shard_protocol.Prelude.{
  ℕ, Bool, true, false, List, [], ◌∷◌, Option, none, some, or_else, Result, any, filter,
  if◌then◌else◌, ltb, length,
}
use ghost_shard_protocol.Prelude.Int.{ℤ, pos, ltb_ℤ}
use ghost_shard_protocol.Types.{
  Shard, AssetType, AssetBalance, native_balance, erc20_balance, erc721_balance, TransferRequest,
}
use ghost_shard_protocol.Types.Hex.{HexString}
use ghost_shard_protocol.Viem.{AddressEq}
use ghost_shard_protocol.Random.{Rng}
use ghost_shard_protocol.CoinSelection.Errors.{Error}
use ghost_shard_protocol.CoinSelection.Engine.{MultiSplitSelectionResult}
use ghost_shard_protocol.CoinSelection.Select.{select_coins, PartialOpts}
use ghost_shard_protocol.ShardStore.{
  ShardStore, get_unspent_for_asset, mark_pending, remove_many, confirm_failed, add, get, get_all,
}

-- An entry of `changeShards` of a prepared transaction.
pub record ChangeOutput : Type 0 where
  pub address : HexString
  pub ephemeral_pub_key : HexString
  pub amount : ℤ

-- What `confirmPrepared` reads of a `PreparedTransfer`; no change shards is an empty list.
pub record PreparedTransfer : Type 0 where
  pub shard_addresses : List HexString
  pub change_shards : List ChangeOutput

-- The asset of a change shard. (`request.tokenAddress!` is taken to be there.)
unfoldable pub change_asset : TransferRequest → ChangeOutput → AssetBalance
change_asset request out = elim request.asset_type [
  | AssetType.erc721 ↦ erc721_balance (or_else request.token_address []) (pos 0) []
  | AssetType.erc20 ↦ erc20_balance (or_else request.token_address []) out.amount
  | AssetType.native ↦ native_balance out.amount
]

unfoldable pub change_shard : TransferRequest → ChangeOutput → Shard
change_shard request out = record {
  address = out.address;
  ephemeral_pub_key = out.ephemeral_pub_key;
  spent = false;
  pending = false;
  assets = change_asset request out ∷ [];
}

-- `tokenAddress` and `tokenId` of the selection in `buildTransaction`.
abbrev pub token_for : TransferRequest → Option HexString
token_for request = elim request.asset_type [ AssetType.native ↦ none | _ ↦ request.token_address ]

abbrev pub id_for : TransferRequest → Option ℤ
id_for request = elim request.asset_type [ AssetType.erc721 ↦ request.token_id | _ ↦ none ]

-- The filter of `getShards`.
abbrev pub has_balance : AssetBalance → Bool
has_balance (native_balance b) = ltb_ℤ (pos 0) b
has_balance (erc20_balance t b) = ltb_ℤ (pos 0) b
has_balance (erc721_balance t b ids) = ltb 0 (length ids)

unfoldable pub get_shards : Bool → ShardStore → List Shard
get_shards include_zero_balances st =
    if include_zero_balances
    then get_all st
    else filter (λ s. any has_balance s.assets) (get_all st)

module _ (v : AddressEq) where
  -- The selection of `buildTransaction` and `buildPrivateTransaction`.
  unfoldable pub select_for :
      Rng → TransferRequest → ShardStore → ℕ → Result Error MultiSplitSelectionResult
  select_for rng request st n =
      select_coins v rng
        (get_unspent_for_asset v request.asset_type (token_for request) (id_for request) st) request
        (record { max_splits_per_side = none; min_dust_threshold = none }) n

  -- The loop of `confirmPrepared`.
  unfoldable pub add_change : TransferRequest → List ChangeOutput → ShardStore → ShardStore
  add_change request [] st = st
  add_change request (out ∷ outs) st = add_change request outs (add v (change_shard request out) st)

  unfoldable pub confirm_prepared : PreparedTransfer → TransferRequest → ShardStore → ShardStore
  confirm_prepared tx request st =
      add_change request tx.change_shards (mark_pending v tx.shard_addresses st)

  -- The end of a relayed transaction, in `relayTransfer`'s `wait`.
  unfoldable pub finish : Bool → PreparedTransfer → ShardStore → ShardStore
  finish true tx st = remove_many v tx.shard_addresses st
  finish false tx st = confirm_failed v tx.shard_addresses none st

  -- The loop of `processAnnouncements` over the shards that were found.
  unfoldable pub add_discovered : List Shard → ShardStore → ShardStore
  add_discovered [] st = st
  add_discovered (s ∷ found) st =
      let fresh = record s { spent = false; pending = false } in
      add_discovered found (elim (get v s.address st) [ none ↦ add v fresh st | some _ ↦ st ])
