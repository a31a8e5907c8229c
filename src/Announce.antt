-- ===== src/Announce.antt =====
-- Announcements, ghost-shard-sdk/src/announce.ts: the metadata of an announcement, 54 bytes for the asset
-- and then what the sender says, encrypted; and the reading of that last part. The
-- initialization vector that `getRandomValues` gives is an argument.
pub mod Layout
use ghost_shard_protocol.Prelude.{
  take, drop, ℕ, zero, suc, Bool, true, false, ◌&&◌, [], ◌∷◌, ◌++◌, Option, none, some, Result, ok,
  err, or_raise, ◌>>=◌, ltb, leb, length, if◌then◌else◌, or_else, ◌+◌,
}
use ghost_shard_protocol.Prelude.Int.{ℤ, pos}
use ghost_shard_protocol.Types.{AssetType, native, erc20, erc721}
use ghost_shard_protocol.Types.Bytes.{Bytes, slice, zeros, set_bytes, head_or, same_head}
use ghost_shard_protocol.Types.Errors.{Thrown, by_library}
use ghost_shard_protocol.Types.Hex.{HexString, hex}
use ghost_shard_protocol.Viem.{Codec}
use ghost_shard_protocol.Noble.{Hashes, Cipher}

-- `assetInfo`, the argument of `packMetadata`
pub record AssetInfo : Type 0 where
  pub asset_type : AssetType
  pub token_address : Option HexString
  pub amount : Option ℤ
  pub token_id : Option ℤ

abbrev pub zero_address : HexString
zero_address = hex "0x0000000000000000000000000000000000000000"

-- `assetTypeMap`
abbrev pub code_of : AssetType → ℕ
code_of native = 0
code_of erc20 = 1
code_of erc721 = 2

unfoldable pub identifier_of : AssetInfo → ℤ
identifier_of info = elim info.asset_type [
  | erc721 ↦ or_else info.token_id (pos 0)
  | native ↦ or_else info.amount (pos 0)
  | erc20 ↦ or_else info.amount (pos 0)
]

module _ (h : Hashes) where
  unfoldable pub derive_metadata_key : Bytes → Bytes
  derive_metadata_key shared_secret =
      h.hkdf shared_secret (zeros 32) (hex "ghost-shard-metadata") 32

module _ (v : Codec) where
  unfoldable pub token_bytes : AssetInfo → Result Thrown Bytes
  token_bytes info = elim info.asset_type [
    | native ↦ ok (zeros 20)
    | erc20 ↦ or_raise (v.hex_to_bytes (or_else info.token_address zero_address)) by_library
    | erc721 ↦ or_raise (v.hex_to_bytes (or_else info.token_address zero_address)) by_library
  ]

  -- The 54 bytes for an asset.
  unfoldable pub pack_header : Bytes → AssetInfo → Result Thrown Bytes
  unfolding token_bytes identifier_of
  pack_header shared_secret info = do
    token ← token_bytes info
    identifier ← or_raise (v.number_to_bytes (identifier_of info) 32) by_library
    with_token ←
        or_raise (set_bytes (head_or 0 shared_secret ∷ code_of info.asset_type ∷ zeros 52) 2 token)
          by_library
    or_raise (set_bytes with_token 22 identifier) by_library

  module _ (h : Hashes) (a : Cipher) where
    -- What follows the header: nothing where there is no text or an empty one.
    unfoldable pub sender_part : Bytes → Option a.Text → Bytes → Bytes
    sender_part shared_secret none iv = []
    sender_part shared_secret (some text) iv =
        if ltb 0 (a.text_length text)
        then iv ++ a.encrypt (derive_metadata_key h shared_secret) iv (a.encode_text text)
        else []

    unfoldable pub pack_metadata :
        Bytes → Option AssetInfo → Option a.Text → Bytes → Result Thrown Bytes
    unfolding pack_header sender_part
    pack_metadata shared_secret none sender_info iv = ok (head_or 0 shared_secret ∷ [])
    pack_metadata shared_secret (some info) sender_info iv = do
      metadata ← pack_header shared_secret info
      ok (metadata ++ sender_part shared_secret sender_info iv)

    unfoldable pub header_offset : Bytes → Bytes → ℕ
    header_offset encrypted shared_secret =
        if ltb 54 (length encrypted) && same_head encrypted shared_secret then 54 else 0

    unfoldable pub decrypt_metadata_payload : Bytes → Bytes → Result Thrown a.Text
    unfolding header_offset
    decrypt_metadata_payload encrypted shared_secret = do
      let iv_offset = header_offset encrypted shared_secret
      let iv = slice iv_offset (iv_offset + 12) encrypted
      let ciphertext = drop (iv_offset + 12) encrypted
      plaintext ←
          or_raise (a.decrypt (derive_metadata_key h shared_secret) iv ciphertext) by_library
      ok (a.decode_text plaintext)

-- `AnnounceOpts` and `AnnounceTransaction`
pub record AnnounceOpts (a : Cipher) : Type 0 where
  pub shared_secret : Option HexString
  pub asset_info : Option AssetInfo
  pub sender_info : Option a.Text

pub record AnnounceTransaction : Type 0 where
  pub to : HexString
  pub data_hex : HexString

-- `encodeFunctionData` of `announce` is given.
module _ (v : Codec) (h : Hashes) (a : Cipher)
    (encode_announce : ℕ → HexString → HexString → HexString → HexString) where
  -- An empty string is no secret.
  unfoldable pub metadata_hex : AnnounceOpts a → Bytes → Result Thrown HexString
  metadata_hex opts iv = elim opts.shared_secret [
    | none ↦ ok (hex "0x")
    | some secret ↦ elim secret [
      | [] ↦ ok (hex "0x")
      | ◌∷◌ x xs ↦ do
        secret_bytes ← or_raise (v.hex_to_bytes (x ∷ xs)) by_library
        metadata ← pack_metadata v h a secret_bytes opts.asset_info opts.sender_info iv
        ok (if ltb 0 (length metadata) then v.bytes_to_hex metadata else hex "0x")
    ]
  ]

  unfoldable pub prepare_announce_transfer :
      HexString
      → HexString
      → HexString
      → ℕ
      → Option (AnnounceOpts a)
      → Bytes
      → Result Thrown AnnounceTransaction
  unfolding metadata_hex
  prepare_announce_transfer stealth_address ephemeral_pub_key announcer_address scheme_id opts iv =
      do
        metadata ← elim opts [ none ↦ ok (hex "0x") | some given ↦ metadata_hex given iv ]
        ok (record {
          to = announcer_address;
          data_hex = encode_announce scheme_id stealth_address ephemeral_pub_key metadata;
        })
