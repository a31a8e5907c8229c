-- ===== src/ShardStore.antt =====
-- The wallet's store of shards: the class `ShardStore` of ghost-shard-sdk/src/shard.ts. A store is a
-- value, and a method that changes it gives the new one. The methods copy the shards that they take
-- in and most of those that they give out, so a caller's later writes do not reach the store; the
-- model does not follow writes to the shards that `getUnspent` gives out, which are not copied.
pub mod Copies
pub mod Lookup
pub mod Distinct
pub mod Pending
pub mod Refinement
pub mod Balance
mod Examples
use ghost_shard_protocol.Prelude.{
  Bool, true, false, not, ◌&&◌, List, [], ◌∷◌, ◌++◌, map, Option, none, some, any, filter, find,
  length, if◌then◌else◌,
}
use ghost_shard_protocol.Prelude.Int.{ℤ, pos, ◌+ℤ◌}
use ghost_shard_protocol.Types.{
  Shard, AssetType, AssetBalance, native_balance, erc20_balance, erc721_balance,
}
use ghost_shard_protocol.Types.Hex.{HexString}
use ghost_shard_protocol.Viem.{AddressEq}
use ghost_shard_protocol.CoinSelection.Select.{includes}

pub record ShardStore : Type 0 where
  pub shards : List Shard
  pub last_synced_block : Option ℤ

-- `Nft` and `PersistedState` of ghost-shard-sdk/src/types.ts
pub record Nft : Type 0 where
  pub shard_address : HexString
  pub token_address : HexString
  pub token_id : ℤ

pub record PersistedState : Type 0 where
  pub shards : List Shard
  pub last_synced_block : Option ℤ

abbrev pub new_store : ShardStore
new_store = record { shards = []; last_synced_block = none }

abbrev pub set_last_synced_block : ℤ → ShardStore → ShardStore
set_last_synced_block n st = record st { last_synced_block = some n }

-- The copy of one asset, its list of token ids included.
abbrev pub clone_asset : AssetBalance → AssetBalance
clone_asset (native_balance b) = native_balance b
clone_asset (erc20_balance t b) = erc20_balance t b
clone_asset (erc721_balance t b ids) = erc721_balance t b (map (λ i. i) ids)

unfoldable pub clone_shard : Shard → Shard
clone_shard s = record s { assets = map clone_asset s.assets }

unfoldable pub get_unspent : ShardStore → List Shard
get_unspent st = filter (λ s. not s.spent && not s.pending) st.shards

-- The inner loops of `getNFTs`.
abbrev pub nfts_of_asset : HexString → AssetBalance → List Nft
nfts_of_asset a (erc721_balance t b ids) =
    map (λ i. record { shard_address = a; token_address = t; token_id = i }) ids
nfts_of_asset a _ = []

abbrev pub nfts_of_assets : HexString → List AssetBalance → List Nft
nfts_of_assets a [] = []
nfts_of_assets a (x ∷ xs) = nfts_of_asset a x ++ nfts_of_assets a xs

abbrev pub nfts_of : List Shard → List Nft
nfts_of [] = []
nfts_of (s ∷ ss) = nfts_of_assets s.address s.assets ++ nfts_of ss

unfoldable pub get_nfts : ShardStore → List Nft
unfolding get_unspent
get_nfts st = nfts_of (get_unspent st)

abbrev pub get_all : ShardStore → List Shard
get_all st = map clone_shard st.shards

unfoldable pub export_state : ShardStore → PersistedState
export_state st = record { shards = get_all st; last_synced_block = st.last_synced_block }

unfoldable pub import_state : PersistedState → ShardStore
import_state p = record {
  shards = map clone_shard p.shards;
  last_synced_block = p.last_synced_block;
}

module _ (v : AddressEq) where
  unfoldable pub has_address : List HexString → HexString → Bool
  has_address addresses target = any (λ a. v.is_address_equal a target) addresses

  unfoldable pub add : Shard → ShardStore → ShardStore
  add shard st =
      if any (λ s. v.is_address_equal s.address shard.address) st.shards
      then st
      else record st { shards = st.shards ++ record (clone_shard shard) { pending = false } ∷ [] }

  unfoldable pub add_many : List Shard → ShardStore → ShardStore
  add_many [] st = st
  add_many (s ∷ ss) st = add_many ss (add s st)

  -- `tokenAddress && isAddressEqual(a.tokenAddress, tokenAddress)`: an empty string is no address.
  abbrev pub is_given_token : Option HexString → HexString → Bool
  is_given_token none t = false
  is_given_token (some []) t = false
  is_given_token (some (c ∷ cs)) t = v.is_address_equal t (c ∷ cs)

  -- `tokenId === undefined || a.tokenIds.includes(tokenId)`
  abbrev pub holds_id : Option ℤ → List ℤ → Bool
  holds_id none ids = true
  holds_id (some id) ids = includes ids id

  -- The test of `getUnspentForAsset` on an asset.
  abbrev pub is_asked_for : AssetType → Option HexString → Option ℤ → AssetBalance → Bool
  is_asked_for AssetType.native token id (native_balance b) = true
  is_asked_for AssetType.erc20 token id (erc20_balance t b) = is_given_token token t
  is_asked_for AssetType.erc721 token id (erc721_balance t b ids) =
      is_given_token token t && holds_id id ids
  is_asked_for _ token id _ = false

  unfoldable pub get_unspent_for_asset :
      AssetType → Option HexString → Option ℤ → ShardStore → List Shard
  get_unspent_for_asset type token id st =
      filter (λ s. any (is_asked_for type token id) s.assets) (get_unspent st)

  -- `!tokenAddress || isAddressEqual(a.tokenAddress, tokenAddress)`
  abbrev pub is_token_or_any : Option HexString → HexString → Bool
  is_token_or_any none t = true
  is_token_or_any (some []) t = true
  is_token_or_any (some (c ∷ cs)) t = v.is_address_equal t (c ∷ cs)

  -- The test of `getBalanceForAsset` on an asset.
  abbrev pub is_counted : AssetType → Option HexString → AssetBalance → Bool
  is_counted AssetType.native token (native_balance b) = true
  is_counted AssetType.erc20 token (erc20_balance t b) = is_token_or_any token t
  is_counted AssetType.erc721 token (erc721_balance t b ids) = is_token_or_any token t
  is_counted _ token _ = false

  -- A balance, or the number of the token ids.
  abbrev pub amount_in : AssetBalance → ℤ
  amount_in (native_balance b) = b
  amount_in (erc20_balance t b) = b
  amount_in (erc721_balance t b ids) = pos (length ids)

  -- The two calls of `reduce`, with what they have added up.
  unfoldable pub sum_assets : ℤ → List AssetBalance → ℤ
  sum_assets acc [] = acc
  sum_assets acc (a ∷ assets) = sum_assets (acc +ℤ amount_in a) assets

  unfoldable pub sum_shards : AssetType → Option HexString → ℤ → List Shard → ℤ
  sum_shards type token acc [] = acc
  sum_shards type token acc (s ∷ ss) =
      sum_shards type token (acc +ℤ sum_assets (pos 0) (filter (is_counted type token) s.assets)) ss

  unfoldable pub get_balance_for_asset : AssetType → Option HexString → ShardStore → ℤ
  unfolding get_unspent_for_asset sum_shards
  get_balance_for_asset type token st =
      sum_shards type token (pos 0) (get_unspent_for_asset type token none st)

  unfoldable pub get : HexString → ShardStore → Option Shard
  get address st = elim (find (λ s. v.is_address_equal s.address address) st.shards) [
    | none ↦ none
    | some s ↦ some (clone_shard s)
  ]

  -- The loop that writes `pending` to the shards with one of the addresses.
  unfoldable pub set_pending : Bool → List HexString → List Shard → List Shard
  set_pending b addresses [] = []
  set_pending b addresses (s ∷ ss) =
      (if has_address addresses s.address then record s { pending = b } else s)
      ∷ set_pending b addresses ss

  unfoldable pub mark_pending : List HexString → ShardStore → ShardStore
  unfolding set_pending
  mark_pending addresses st = record st { shards = set_pending true addresses st.shards }

  unfoldable pub remove_many : List HexString → ShardStore → ShardStore
  remove_many addresses st = record st {
    shards = filter (λ s. not (has_address addresses s.address)) st.shards;
  }

  -- The second step of `confirmFailed`; an empty change address counts as none.
  abbrev pub drop_change : Option HexString → List Shard → List Shard
  drop_change none ss = ss
  drop_change (some []) ss = ss
  drop_change (some (c ∷ cs)) ss = filter (λ s. not (v.is_address_equal s.address (c ∷ cs))) ss

  unfoldable pub confirm_failed : List HexString → Option HexString → ShardStore → ShardStore
  unfolding set_pending
  confirm_failed addresses change st = record st {
    shards = drop_change change (set_pending false addresses st.shards);
  }
