-- ===== src/Transfer.antt =====
-- The preparation of transfers, ghost-shard-sdk/src/transaction.ts: what `prepareTransfer` and
-- `preparePrivateTransfer` share, then the functions (Public, Private). The cryptographic
-- libraries are parameters; a state is passed along that holds the arrays and the map that the
-- functions fill, and how many random words and random byte strings have been used.
pub mod Loops
pub mod Public
pub mod Private
pub mod Deposit
pub mod Conservation
pub mod Announced
mod Examples
use ghost_shard_protocol.Prelude.{
  ℕ, zero, suc, ◌+◌, ◌-◌, ◌%◌, Bool, true, false, List, [], ◌∷◌, ◌++◌, map, Option, none, some,
  Result, ok, err, or_raise, ◌>>=◌, any, length, get_elem?, if◌then◌else◌, or_else,
}
use ghost_shard_protocol.Prelude.Int.{ℤ, pos, leb_ℤ, sum}
use ghost_shard_protocol.Types.{AssetType, native, erc20, erc721, Shard}
use ghost_shard_protocol.Types.Bytes.{Bytes}
use ghost_shard_protocol.Types.Errors.{Thrown, by_library, undefined_entry}
use ghost_shard_protocol.Types.Hex.{HexString, hex, hex_eq}
use ghost_shard_protocol.Types.Maps.{Map, map_get, map_set}
use ghost_shard_protocol.Viem.{Codec}
use ghost_shard_protocol.Noble.{Curve, Hashes, Cipher}
use ghost_shard_protocol.Random.{Rng, draw, shuffle}
use ghost_shard_protocol.Keys.{
  KeySet, compute_shared_secret, get_new_deposit_address,
  derive_shard_private_key_from_announcement,
}
use ghost_shard_protocol.Announce.{pack_metadata, zero_address, AssetInfo}
use ghost_shard_protocol.GasEngine.{Authorization, TransferCommand}
use ghost_shard_protocol.Client.{ChangeOutput}
use ghost_shard_protocol.Transaction.{fuse}

-- `Announcement` of types.ts
pub record Announcement : Type 0 where
  pub scheme_id : ℤ
  pub stealth_address : HexString
  pub ephemeral_pub_key : HexString
  pub metadata : HexString

-- What is signed for a command: the arguments of `encodeAbiParameters`.
pub record CommandData : Type 0 where
  pub chain_id : ℕ
  pub router : HexString
  pub shard : HexString
  pub asset_type : ℕ
  pub token : HexString
  pub to : HexString
  pub value : ℤ
  pub announcements : List Announcement

-- The signing functions of viem and noble. A function that throws gives `none`.
pub record Signing : Type 0 where
  pub hash_authorization : ℕ → HexString → ℕ → HexString
  -- `secp256k1.sign`: `r`, `s` and `recovery`
  pub sign : Bytes → Bytes → Option (ℕ × ℕ × Option ℕ)
  -- `numberToHex(n, { size: 32 })` and `toHex(bytes, { size: 32 })`
  pub number_to_hex : ℕ → HexString
  pub to_hex : Bytes → HexString
  pub encode_command : CommandData → Option HexString
  -- `keccak256` of a hex string
  pub keccak256 : HexString → HexString
  -- `privateKeyToAccount(key).signMessage({ message: { raw } })`
  pub sign_message : HexString → HexString → Option HexString

abbrev pub shard_implementation : HexString
shard_implementation = hex "0x295549A545E41af6cbCe09AbF012de172AC321AE"

abbrev pub ghost_router_address : HexString
ghost_router_address = hex "0x6f67E047D1Fe5de0b62b187c28dB1cf1F4f560fb"

-- `assetTypeInt`
abbrev pub asset_type_int : AssetType → ℕ
asset_type_int native = 0
asset_type_int erc20 = 1
asset_type_int erc721 = 2

-- An entry of `freshChangePool`.
pub record PoolEntry : Type 0 where
  pub stealth_address : HexString
  pub ephemeral_pub_key : HexString
  pub private_key : Bytes

-- The local variables that the loops of a preparation fill, the words used of the random source and
-- the byte strings used of `randomBytes`. The commands may hold `undefined`, which `shuffle` can
-- leave.
pub record Build : Type 0 where
  pub authorizations : List Authorization
  pub commands : List (Option TransferCommand)
  pub announcements : List Announcement
  pub private_key_map : Map HexString
  pub change_shards : List ChangeOutput
  pub words : ℕ
  pub randoms : ℕ

abbrev pub empty_build : ℕ → ℕ → Build
empty_build words randoms = record {
  authorizations = [];
  commands = [];
  announcements = [];
  private_key_map = [];
  change_shards = [];
  words = words;
  randoms = randoms;
}

-- The whole result, `PreparedTransfer` of types.ts.
pub record Prepared : Type 0 where
  pub authorizations : List Authorization
  pub commands : List TransferCommand
  pub announcements : List Announcement
  pub change_shards : List ChangeOutput
  pub shard_addresses : List HexString
  pub change_amount : ℤ

-- What the loops read of the request: `request.type`, `assetTypeInt` and `tokenTarget`.
abbrev pub token_target : Option HexString → HexString
token_target token = or_else token zero_address

abbrev pub asset_info : AssetType → HexString → ℤ → AssetInfo
asset_info kind token amt = record {
  asset_type = kind;
  token_address = some token;
  amount = some (elim kind [ erc721 ↦ pos 0 | native ↦ amt | erc20 ↦ amt ]);
  token_id = some (elim kind [ erc721 ↦ amt | native ↦ pos 0 | erc20 ↦ pos 0 ]);
}

-- All entries, if none is `undefined`.
unfoldable pub defined {ℓ} : {A : Type ℓ} → List (Option A) → Option (List A)
defined [] = some []
defined (none ∷ xs) = none
defined (some x ∷ xs) = elim (defined xs) [ none ↦ none | some ys ↦ some (x ∷ ys) ]

unfoldable pub tracked : HexString → List Announcement → Bool
tracked address announcements = any (λ ann. hex_eq ann.stealth_address address) announcements

-- The libraries that a preparation calls.
pub record Libraries : Type 1 where
  pub codec : Codec
  pub hashes : Hashes
  pub curve : Curve
  pub cipher : Cipher
  pub signing : Signing
  pub rng : Rng
  -- The n-th value of `randomBytes(32)`.
  pub random_bytes : ℕ → Bytes

module _ (l : Libraries) where
  unfoldable pub sign_authorization : Bytes → HexString → ℕ → ℕ → Result Thrown Authorization
  sign_authorization shard_private_key implementation_address chain_id nonce = do
    hash ←
        or_raise
          (l.codec.hex_to_bytes
            (l.signing.hash_authorization chain_id implementation_address nonce))
          by_library
    (r, s, recovery) ← or_raise (l.signing.sign hash shard_private_key) by_library
    ok (record {
      target_address = implementation_address;
      chain_id = chain_id;
      nonce = nonce;
      y_parity = or_else recovery 0 % 2;
      r = l.signing.number_to_hex r;
      s = l.signing.number_to_hex s;
    })

  unfoldable pub sign_transfer_command :
      HexString
      → HexString
      → HexString
      → ℕ
      → HexString
      → HexString
      → ℤ
      → ℕ
      → List Announcement
      → Result Thrown HexString
  sign_transfer_command shard_private_key router shard asset_type token to value chain_id
        announcements =
      do
        encoded ←
            or_raise
              (l.signing.encode_command (record {
                chain_id = chain_id;
                router = router;
                shard = shard;
                asset_type = asset_type;
                token = token;
                to = to;
                value = value;
                announcements = announcements;
              }))
              by_library
        or_raise (l.signing.sign_message shard_private_key (l.signing.keccak256 encoded)) by_library

  -- `metadata` of an announcement for an amount, with the secret shared with the target.
  unfoldable pub announcement_of :
      AssetType → HexString → Bytes → HexString → HexString → ℤ → Result Thrown Announcement
  announcement_of kind token shared_secret address ephemeral_pub_key amt = do
    meta_bytes ←
        pack_metadata l.codec l.hashes l.cipher shared_secret (some (asset_info kind token amt))
          none []
    ok (record {
      scheme_id = pos 1;
      stealth_address = address;
      ephemeral_pub_key = ephemeral_pub_key;
      metadata = l.codec.bytes_to_hex meta_bytes;
    })

  -- The loop that fills `freshChangePool`, with the entries left to make, and the map of keys.
  unfoldable pub change_pool_loop :
      KeySet → ℕ → ℕ → Map HexString → Result Thrown (List PoolEntry × Map HexString)
  change_pool_loop keys zero randoms private_key_map = ok ([], private_key_map)
  change_pool_loop keys (suc count) randoms private_key_map = do
    fresh_addr ← get_new_deposit_address l.hashes l.curve l.codec (l.random_bytes randoms) keys
    key ←
        derive_shard_private_key_from_announcement l.hashes l.curve l.codec
          keys.spending_private_key keys.viewing_private_key fresh_addr.ephemeral_pub_key
    (pool, private_key_map') ←
        change_pool_loop keys count (randoms + 1)
          (map_set fresh_addr.stealth_address (l.signing.to_hex key) private_key_map)
    ok (
      record {
        stealth_address = fresh_addr.stealth_address;
        ephemeral_pub_key = fresh_addr.ephemeral_pub_key;
        private_key = key;
      }
          ∷ pool,
      private_key_map',
    )

  -- `changePoolSize` and the pool, the state with the keys of the pool.
  unfoldable pub make_change_pool : KeySet → Build → Result Thrown (List PoolEntry × Build)
  make_change_pool keys b = do
    let change_pool_size = draw l.rng b.words (4 - 1 + 1) + 1
    (pool, private_key_map) ← change_pool_loop keys change_pool_size b.randoms b.private_key_map
    ok (
      pool,
      record b {
        private_key_map = private_key_map;
        words = b.words + 1;
        randoms = b.randoms + change_pool_size;
      },
    )
