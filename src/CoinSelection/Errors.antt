-- ===== src/CoinSelection/Errors.antt =====
-- What ghost-shard-sdk/src/coinSelection.ts throws.
use ghost_shard_protocol.Prelude.Int.{ℤ}
use ghost_shard_protocol.Types.{AssetType}
use ghost_shard_protocol.Types.Hex.{HexString}

pub data Error : Type 0 where
  -- `Insufficient ${assetName} balance`
  insufficient : AssetType → Error
  -- `tokenAddress and tokenId required for ERC721 selection`
  token_required : Error
  -- `No shard found holding ERC721 ${tokenAddress} tokenId ${tokenId}`
  not_found : HexString → ℤ → Error
  -- A property of `undefined` is read.
  type_error : Error
  -- viem's error for an address that is not given.
  invalid_address : Error
