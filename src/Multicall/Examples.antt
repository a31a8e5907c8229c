-- ===== src/Multicall/Examples.antt =====
-- Runs of the batch, and its theorem at a concrete input.
use ghost_shard_protocol.Prelude.{◌≡◌, refl, List, [], ◌∷◌, All, length}
use ghost_shard_protocol.Prelude.Int.{pos, negsuc}
use ghost_shard_protocol.Types.{AssetBalance, native_balance, erc20_balance, erc721_balance}
use ghost_shard_protocol.Types.Hex.{HexString, hex}
use ghost_shard_protocol.Multicall.{
  CallEncoding, build_balance_verification_batch, shards_calls, assets_calls, asset_calls,
  token_calls,
}
use ghost_shard_protocol.Multicall.Correlation.{About, build_balance_verification_batch-About}

-- A stand-in for the encoding: one digit for the function, and the argument.
abbrev encoding : CallEncoding
encoding = record {
  multicall3_address = hex "0xca11";
  get_eth_balance = λ a. 1 ∷ a;
  balance_of = λ a. 2 ∷ a;
  owner_of = λ id. elim id [ pos n ↦ 3 ∷ n ∷ [] | negsuc n ↦ 4 ∷ n ∷ [] ];
}

abbrev holdings : List (HexString × List AssetBalance)
holdings =
    (hex "0xa1", native_balance (pos 5) ∷ [])
    ∷ (
      hex "0xb2",
      erc20_balance (hex "0xabc") (pos 7)
          ∷ erc721_balance (hex "0xdef") (pos 2) (pos 8 ∷ pos 9 ∷ [])
          ∷ [],
    )
    ∷ []

four_calls : length (build_balance_verification_batch encoding holdings) ≡ 4
unfolding build_balance_verification_batch shards_calls assets_calls asset_calls token_calls
four_calls = refl

build_balance_verification_batch-About_example :
    All (About encoding 0 holdings) (build_balance_verification_batch encoding holdings)
build_balance_verification_batch-About_example =
    build_balance_verification_batch-About encoding holdings
