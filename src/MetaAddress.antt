-- ===== src/MetaAddress.antt =====
-- Meta addresses, ghost-shard-sdk/src/metaAddress.ts, and the stealth addresses that
-- ghost-shard-sdk/src/stealth.ts generates for one. A string is the list of its character codes.
pub mod RoundTrip
mod Examples
use ghost_shard_protocol.Prelude.{
  ℕ, zero, suc, Bool, true, false, ◌&&◌, ◌||◌, List, [], ◌∷◌, ◌++◌, Option, none, some, Result, ok,
  err, or_raise, ◌>>=◌, ◌==◌, leb, length, if◌then◌else◌, not,
}
use ghost_shard_protocol.Types.Bytes.{head_or, set_head, Bytes, slice, zeros, set_bytes}
use ghost_shard_protocol.Types.Errors.{
  Thrown, by_library, bad_public_keys, bad_prefix, bad_length, bad_scheme, bad_points,
}
use ghost_shard_protocol.Types.Hex.{HexString, hex}
use ghost_shard_protocol.Viem.{Codec}
use ghost_shard_protocol.Noble.{Curve, Hashes}
use ghost_shard_protocol.Keys.{
  StealthAddressResult, generate_ephemeral_keypair, compute_shared_secret, compute_stealth_address,
}

-- `META_ADDRESS_PREFIX` and `STANDARD_SCHEME_ID`
abbrev pub meta_address_prefix : HexString
meta_address_prefix = hex "st:eth:"

abbrev pub standard_scheme_id : ℕ
standard_scheme_id = 1

-- The two public keys, and what `decodeMetaAddress` gives.
pub record PublicKeys : Type 0 where
  pub spending_public_key : Bytes
  pub viewing_public_key : Bytes

pub record DecodedMetaAddress : Type 0 where
  pub scheme_id : ℕ
  pub spending_public_key : Bytes
  pub viewing_public_key : Bytes

-- What stands after the prefix in a string that starts with it.
unfoldable pub after : HexString → HexString → Option HexString
after [] s = some s
after (c ∷ prefix) [] = none
after (c ∷ prefix) (d ∷ s) = if c == d then after prefix s else none

module _ (v : Codec) where
  unfoldable pub encode_meta_address : PublicKeys → Result Thrown HexString
  encode_meta_address keys =
      if not (length keys.spending_public_key == 33) || not (length keys.viewing_public_key == 33)
      then err bad_public_keys
      else do
        spending ←
            or_raise (set_bytes (set_head standard_scheme_id (zeros 67)) 1 keys.spending_public_key)
              by_library
        data_bytes ← or_raise (set_bytes spending 34 keys.viewing_public_key) by_library
        ok (meta_address_prefix ++ v.bytes_to_hex data_bytes)

  module _ (c : Curve) where
    -- Both keys are points; what `fromHex` throws becomes an error of the function.
    unfoldable pub check_points : Bytes → Bytes → Result Thrown (Unit {0})
    check_points spending viewing = elim (c.from_hex spending) [
      | none ↦ err bad_points
      | some _ ↦ elim (c.from_hex viewing) [ none ↦ err bad_points | some _ ↦ ok tt ]
    ]

    unfoldable pub decode_payload : Bytes → Result Thrown DecodedMetaAddress
    decode_payload bytes =
        if not (length bytes == 67)
        then err bad_length
        else if not (head_or 0 bytes == standard_scheme_id)
        then err bad_scheme
        else do
          _ ← check_points (slice 1 34 bytes) (slice 34 67 bytes)
          ok (record {
            scheme_id = head_or 0 bytes;
            spending_public_key = slice 1 34 bytes;
            viewing_public_key = slice 34 67 bytes;
          })

    unfoldable pub decode_meta_address : HexString → Result Thrown DecodedMetaAddress
    decode_meta_address meta_address = do
      rest ← or_raise (after meta_address_prefix meta_address) bad_prefix
      bytes ← or_raise (v.hex_to_bytes rest) by_library
      decode_payload bytes

    module _ (h : Hashes) where
      -- `generateStealthAddress`, with the bytes that `randomBytes(32)` gives.
      unfoldable pub generate_stealth_address :
          Bytes → HexString → Result Thrown StealthAddressResult
      generate_stealth_address random meta_address = do
        decoded ← decode_meta_address meta_address
        (ephemeral_priv_key, ephemeral_pub_key) ← generate_ephemeral_keypair h c v random
        shared_secret ← compute_shared_secret h c ephemeral_priv_key decoded.viewing_public_key
        stealth_address ← compute_stealth_address h c v decoded.spending_public_key shared_secret
        ok (record {
          stealth_address = stealth_address;
          ephemeral_pub_key = v.bytes_to_hex ephemeral_pub_key;
          shared_secret = v.bytes_to_hex shared_secret;
        })

-- `isMetaAddress`: the prefix with "0x", and 134 hex digits.
abbrev pub is_hex_digit : ℕ → Bool
is_hex_digit c =
    (leb b'0' c && leb c b'9') || (leb b'a' c && leb c b'f') || (leb b'A' c && leb c b'F')

abbrev pub all_digits : HexString → Bool
all_digits [] = true
all_digits (c ∷ s) = is_hex_digit c && all_digits s

unfoldable pub is_meta_address : HexString → Bool
unfolding after
is_meta_address s = elim (after (hex "st:eth:0x") s) [
  | none ↦ false
  | some digits ↦ length digits == 134 && all_digits digits
]
