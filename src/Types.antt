-- ===== src/Types.antt =====
-- The data types of the SDK (ghost-shard-sdk/src/types.ts). A `bigint` is an integer, a hex string
-- the list of its character codes, an optional property an `Option`.
pub mod Hex
pub mod Maps
pub mod Errors
pub mod Bytes
use ghost_shard_protocol.Prelude.{ℕ, Bool, List, Option}
use ghost_shard_protocol.Prelude.Int.{ℤ}
use Hex.{HexString}

pub data AssetType : Type 0 where
  native erc20 erc721 : AssetType

-- `AssetBalance`, the union of `NativeBalance`, `ERC20Balance` and `ERC721Balance`:
-- the balance; the token and the balance; the token, the balance and the token ids.
pub data AssetBalance : Type 0 where
  native_balance : ℤ → AssetBalance
  erc20_balance : HexString → ℤ → AssetBalance
  erc721_balance : HexString → ℤ → List ℤ → AssetBalance

-- The discriminant `a.type`.
abbrev pub type_of : AssetBalance → AssetType
type_of (native_balance b) = native
type_of (erc20_balance t b) = erc20
type_of (erc721_balance t b ids) = erc721

-- `a.balance`
abbrev pub balance_of : AssetBalance → ℤ
balance_of (native_balance b) = b
balance_of (erc20_balance t b) = b
balance_of (erc721_balance t b ids) = b

pub record Shard : Type 0 where
  pub address : HexString
  pub ephemeral_pub_key : HexString
  pub spent : Bool
  pub pending : Bool
  pub assets : List AssetBalance

-- The recipient is what tells a `TransferRequest` (`to`) from a `PrivateTransferRequest`
-- (`metaAddress`).
pub data Recipient : Type 0 where
  to_address : HexString → Recipient
  to_meta_address : HexString → Recipient

pub record TransferRequest : Type 0 where
  pub asset_type : AssetType
  pub recipient : Recipient
  pub amount : Option ℤ
  pub token_address : Option HexString
  pub token_id : Option ℤ
