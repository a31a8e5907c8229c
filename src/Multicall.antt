-- ===== src/Multicall.antt =====
-- The batch of calls that verifies balances: ghost-shard-sdk/src/multicall.ts. The encoding of a call
-- by viem is given. The two arrays of the result get their entries together, so the model has one
-- list of pairs; the two arrays that are taken have the same length, and are one list, too.
pub mod Correlation
mod Examples
use ghost_shard_protocol.Prelude.{ℕ, suc, Bool, true, List, [], ◌∷◌, ◌++◌, Option, none, some}
use ghost_shard_protocol.Prelude.Int.{ℤ}
use ghost_shard_protocol.Types.{
  AssetType, AssetBalance, native_balance, erc20_balance, erc721_balance,
}
use ghost_shard_protocol.Types.Hex.{HexString}

pub record Multicall3Call : Type 0 where
  pub target : HexString
  pub allow_failure : Bool
  pub call_data : HexString

pub record BalanceCall : Type 0 where
  pub shard_index : ℕ
  pub asset_index : ℕ
  pub asset_type : AssetType
  pub token_address : Option HexString
  pub token_id : Option ℤ
  pub token_id_index : Option ℕ

-- `encodeFunctionData` for the three functions, and the address of Multicall3.
pub record CallEncoding : Type 0 where
  pub multicall3_address : HexString
  pub get_eth_balance : HexString → HexString
  pub balance_of : HexString → HexString
  pub owner_of : ℤ → HexString

abbrev pub Batch : Type 0
Batch = List (Multicall3Call × BalanceCall)

module _ (enc : CallEncoding) where
  -- The loop over the token ids, from an index.
  unfoldable pub token_calls : HexString → ℕ → ℕ → ℕ → List ℤ → Batch
  token_calls token si ai ti [] = []
  token_calls token si ai ti (id ∷ ids) =
      (
        record { target = token; allow_failure = true; call_data = enc.owner_of id },
        record {
          shard_index = si;
          asset_index = ai;
          asset_type = AssetType.erc721;
          token_address = some token;
          token_id = some id;
          token_id_index = some ti;
        },
      )
      ∷ token_calls token si ai (suc ti) ids

  -- The body of the inner loop; an empty token address counts as none.
  unfoldable pub asset_calls : HexString → ℕ → ℕ → AssetBalance → Batch
  unfolding token_calls
  asset_calls addr si ai (native_balance b) =
      (
        record {
          target = enc.multicall3_address;
          allow_failure = true;
          call_data = enc.get_eth_balance addr;
        },
        record {
          shard_index = si;
          asset_index = ai;
          asset_type = AssetType.native;
          token_address = none;
          token_id = none;
          token_id_index = none;
        },
      )
      ∷ []
  asset_calls addr si ai (erc20_balance [] b) = []
  asset_calls addr si ai (erc20_balance (c ∷ cs) b) =
      (
        record { target = c ∷ cs; allow_failure = true; call_data = enc.balance_of addr },
        record {
          shard_index = si;
          asset_index = ai;
          asset_type = AssetType.erc20;
          token_address = some (c ∷ cs);
          token_id = none;
          token_id_index = none;
        },
      )
      ∷ []
  asset_calls addr si ai (erc721_balance [] b ids) = []
  asset_calls addr si ai (erc721_balance (c ∷ cs) b ids) = token_calls (c ∷ cs) si ai 0 ids

  -- The inner loop, and the outer loop, each from an index.
  unfoldable pub assets_calls : HexString → ℕ → ℕ → List AssetBalance → Batch
  assets_calls addr si ai [] = []
  assets_calls addr si ai (a ∷ assets) =
      asset_calls addr si ai a ++ assets_calls addr si (suc ai) assets

  unfoldable pub shards_calls : ℕ → List (HexString × List AssetBalance) → Batch
  shards_calls si [] = []
  shards_calls si ((addr, assets) ∷ shards) =
      assets_calls addr si 0 assets ++ shards_calls (suc si) shards

  unfoldable pub build_balance_verification_batch : List (HexString × List AssetBalance) → Batch
  unfolding shards_calls
  build_balance_verification_batch shards = shards_calls 0 shards
