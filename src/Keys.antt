-- ===== src/Keys.antt =====
-- The keys of the SDK: ghost-shard-sdk/src/keys.ts, and the stealth addresses of
-- ghost-shard-sdk/src/stealth.ts, which are generated from them. Keys are bytes; the curve and the hashes
-- are parameters. What `randomBytes` gives is an argument.
pub mod Numbers
pub mod Normal
pub mod Ownership
mod Examples
use ghost_shard_protocol.Prelude.{
  take, drop, ℕ, zero, suc, ◌+◌, ◌%◌, ◌/◌, [], ◌∷◌, Option, true, false, Result, ok, err, or_raise,
  ◌>>=◌, ◌*◌, if◌then◌else◌,
}
use ghost_shard_protocol.Types.Bytes.{Bytes, slice}
use ghost_shard_protocol.Types.Errors.{Thrown, by_library, no_typed_data, no_valid_key}
use ghost_shard_protocol.Types.Hex.{HexString, hex}
use ghost_shard_protocol.Viem.{Codec}
use ghost_shard_protocol.Noble.{Curve, Hashes, in_range}

-- `KeySet` of types.ts
pub record KeySet : Type 0 where
  pub spending_private_key : Bytes
  pub spending_public_key : Bytes
  pub viewing_private_key : Bytes
  pub viewing_public_key : Bytes
  pub db_encryption_key : Bytes

-- `StealthAddressResult` of types.ts
pub record StealthAddressResult : Type 0 where
  pub stealth_address : HexString
  pub ephemeral_pub_key : HexString
  pub shared_secret : HexString

unfoldable pub bytes_loop : ℕ → Bytes → ℕ
bytes_loop result [] = result
bytes_loop result (b ∷ bytes) = bytes_loop (result * 256 + b) bytes

unfoldable pub bytes_to_bigint : Bytes → ℕ
unfolding bytes_loop
bytes_to_bigint bytes = bytes_loop 0 bytes

-- The loop, with the places left to fill and those filled already.
unfoldable pub bigint_loop : ℕ → ℕ → Bytes → Bytes
bigint_loop zero n filled = filled
bigint_loop (suc i) n filled = bigint_loop i (n / 256) (n % 256 ∷ filled)

unfoldable pub bigint_to_bytes : ℕ → ℕ → Bytes
unfolding bigint_loop
bigint_to_bytes n length = bigint_loop length n []

-- What `signTypedData` is asked to sign: the fields of the domain, and the account of the message.
pub record TypedData : Type 0 where
  pub name : HexString
  pub version : HexString
  pub chain_id : ℕ
  pub verifying_contract : HexString
  pub account : HexString

-- A signer may have no `signTypedData`; the function may throw.
pub record GhostIdentitySigner : Type 0 where
  pub address : HexString
  pub sign_typed_data : Option (TypedData → Option HexString)

abbrev pub identity_of : HexString → ℕ → TypedData
identity_of account chain_id = record {
  name = hex "GhostShard";
  version = hex "1";
  chain_id = chain_id;
  verifying_contract = hex "0x0000000000000000000000000000000000000000";
  account = account;
}

module _ (v : Codec) (h : Hashes) where
  unfoldable pub entropy_from_eip712 : GhostIdentitySigner → ℕ → Result Thrown (Bytes × HexString)
  entropy_from_eip712 signer chain_id = do
    sign ← or_raise signer.sign_typed_data no_typed_data
    signature ← or_raise (sign (identity_of signer.address chain_id)) by_library
    sig_bytes ← or_raise (v.hex_to_bytes signature) by_library
    ok (h.keccak_256 sig_bytes, signer.address)

module _ (h : Hashes) (c : Curve) where
  -- The loop of `normalizePrivateKey`, with the rounds left.
  unfoldable pub normalize_loop : ℕ → Bytes → Result Thrown Bytes
  normalize_loop zero candidate = err no_valid_key
  normalize_loop (suc rounds) candidate =
      let rest = normalize_loop rounds (h.keccak_256 candidate) in
      if in_range c.order (bytes_to_bigint candidate) then ok candidate else rest

  unfoldable pub normalize_private_key : Bytes → Result Thrown Bytes
  unfolding normalize_loop
  normalize_private_key key = normalize_loop 100 key

  unfoldable pub derive_keys : Bytes → Result Thrown KeySet
  derive_keys root_seed = do
    spending ← normalize_private_key (h.hkdf root_seed [] (hex "ghost-shard-spending-key") 32)
    viewing ← normalize_private_key (h.hkdf root_seed [] (hex "ghost-shard-viewing-key") 32)
    spending_public ← or_raise (c.get_public_key spending true) by_library
    viewing_public ← or_raise (c.get_public_key viewing true) by_library
    ok (record {
      spending_private_key = spending;
      spending_public_key = spending_public;
      viewing_private_key = viewing;
      viewing_public_key = viewing_public;
      db_encryption_key = h.hkdf root_seed [] (hex "ghost-shard-db-encryption-key") 32;
    })

  unfoldable pub compute_shared_secret : Bytes → Bytes → Result Thrown Bytes
  compute_shared_secret private_key public_key = do
    shared_point ← or_raise (c.get_shared_secret private_key public_key false) by_library
    ok (h.keccak_256 (slice 1 33 shared_point))

  unfoldable pub derive_shard_private_key : Bytes → Bytes → Bytes
  derive_shard_private_key spending_private_key shared_secret =
      bigint_to_bytes
        ((bytes_to_bigint spending_private_key + bytes_to_bigint shared_secret) % c.order) 32

  unfoldable pub derive_stealth_public_key : Bytes → Bytes → Result Thrown Bytes
  derive_stealth_public_key spending_public_key shared_secret = do
    spending_point ← or_raise (c.from_hex spending_public_key) by_library
    hash_point ← or_raise (c.multiply c.base (bytes_to_bigint shared_secret)) by_library
    or_raise (c.to_bytes (c.add spending_point hash_point) false) by_library

  module _ (v : Codec) where
    unfoldable pub point_to_ethereum_address : Bytes → HexString
    point_to_ethereum_address point = v.bytes_to_hex (drop 12 (h.keccak_256 (drop 1 point)))

    unfoldable pub compute_stealth_address : Bytes → Bytes → Result Thrown HexString
    compute_stealth_address spending_public_key shared_secret = do
      stealth_pub_key ← derive_stealth_public_key spending_public_key shared_secret
      ok (point_to_ethereum_address stealth_pub_key)

    -- The private and the public key, with the bytes that `randomBytes(32)` gives.
    unfoldable pub generate_ephemeral_keypair : Bytes → Result Thrown (Bytes × Bytes)
    generate_ephemeral_keypair random = do
      public_key ← or_raise (c.get_public_key random true) by_library
      ok (random, public_key)

    unfoldable pub get_new_deposit_address : Bytes → KeySet → Result Thrown StealthAddressResult
    get_new_deposit_address random keys = do
      (ephemeral_priv_key, ephemeral_pub_key) ← generate_ephemeral_keypair random
      shared_secret ← compute_shared_secret ephemeral_priv_key keys.viewing_public_key
      stealth_address ← compute_stealth_address keys.spending_public_key shared_secret
      ok (record {
        stealth_address = stealth_address;
        ephemeral_pub_key = v.bytes_to_hex ephemeral_pub_key;
        shared_secret = v.bytes_to_hex shared_secret;
      })

    -- `deriveShardPrivateKeyFromAnnouncement` of transaction.ts
    unfoldable pub derive_shard_private_key_from_announcement :
        Bytes → Bytes → HexString → Result Thrown Bytes
    derive_shard_private_key_from_announcement spending viewing ephemeral_pub_key = do
      ephemeral ← or_raise (v.hex_to_bytes ephemeral_pub_key) by_library
      shared_secret ← compute_shared_secret viewing ephemeral
      ok (derive_shard_private_key spending shared_secret)
