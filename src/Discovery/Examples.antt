-- ===== src/Discovery/Examples.antt =====
-- The theorems about announcements and their discovery at concrete inputs: an amount of a token, sent
-- with a text from one key of the integers modulo 7 to two others.
use ghost_shard_protocol.Prelude.{
  ℕ, ◌≡◌, refl, true, List, [], ◌∷◌, ◌++◌, length, none, some, ok, ◌>>=◌, arith, inl, inr,
  All-append,
}
use ghost_shard_protocol.Prelude.Int.{pos}
use ghost_shard_protocol.Types.{erc20, erc20_balance}
use ghost_shard_protocol.Types.Bytes.{
  Bytes, zeros, IsBytes-zeros, IsByte, big_endian, overlay, set_bytes, slice,
}
use ghost_shard_protocol.Types.Hex.{HexString, hex}
use ghost_shard_protocol.Viem.Instances.{lower_hex, hex_digits}
use ghost_shard_protocol.Noble.Instances.{mod_seven, sums, plain}
use ghost_shard_protocol.Keys.{
  KeySet, StealthAddressResult, derive_shard_private_key_from_announcement, bytes_to_bigint,
  compute_shared_secret, compute_stealth_address, derive_stealth_public_key,
  generate_ephemeral_keypair, point_to_ethereum_address,
}
use ghost_shard_protocol.Keys.Ownership.{address_of}
use ghost_shard_protocol.MetaAddress.{
  encode_meta_address, generate_stealth_address, after, check_points, decode_meta_address,
  decode_payload,
}
use ghost_shard_protocol.Announce.{AssetInfo, pack_metadata, token_bytes, identifier_of}
use ghost_shard_protocol.Announce.Layout.{IsPackable}
use ghost_shard_protocol.Discovery.{
  AnnouncementLog, process_log, parse_asset_metadata, process_announcements, keep,
}
use ghost_shard_protocol.Discovery.Chunks.{process_announcements-keep}
use ghost_shard_protocol.Discovery.RoundTrip.{parse_asset_metadata-pack_metadata}
use ghost_shard_protocol.Discovery.Sent.{public_keys}
use ghost_shard_protocol.Discovery.Found.{
  derive_shard_private_key_from_announcement_lem, process_log-found,
}

abbrev private_key : ℕ → Bytes
private_key k = zeros 31 ++ k ∷ []

abbrev public_key : ℕ → Bytes
public_key k = k ∷ zeros 32

abbrev keys : KeySet
keys = record {
  spending_private_key = private_key 3;
  spending_public_key = public_key 3;
  viewing_private_key = private_key 5;
  viewing_public_key = public_key 5;
  db_encryption_key = [];
}

abbrev meta_address : HexString
meta_address = hex "st:eth:0x" ++ hex_digits (1 ∷ (public_key 3 ++ public_key 5))

abbrev token : Bytes
token = zeros 19 ++ 9 ∷ []

abbrev info : AssetInfo
info = record {
  asset_type = erc20;
  token_address = some (hex "0x" ++ hex_digits token);
  amount = some (pos 1000);
  token_id = none;
}

info-IsPackable : IsPackable lower_hex info
unfolding token_bytes identifier_of
info-IsPackable = record {
  token = token;
  number = 1000;
  has_token = refl;
  token_size = refl;
  token-IsBytes = All-append IsByte (zeros 19) (9 ∷ []) (IsBytes-zeros 19) (omega arith, tt);
  has_number = refl;
  number-lt = omega arith;
}

-- What the sender generates with the private key 2.
abbrev result : StealthAddressResult
result = record {
  stealth_address = hex "0x" ++ hex_digits (zeros 19 ++ 1 ∷ []);
  ephemeral_pub_key = hex "0x" ++ hex_digits (public_key 2);
  shared_secret = hex "0x" ++ hex_digits (private_key 1);
}

generate_run :
    generate_stealth_address lower_hex mod_seven sums (private_key 2) meta_address ≡ ok result
unfolding generate_stealth_address decode_meta_address after decode_payload check_points slice
    generate_ephemeral_keypair big_endian compute_shared_secret compute_stealth_address
    derive_stealth_public_key bytes_to_bigint point_to_ethereum_address
generate_run = refl

encode_run : encode_meta_address lower_hex (public_keys keys) ≡ ok meta_address
unfolding encode_meta_address set_bytes overlay
encode_run = refl

abbrev iv : Bytes
iv = 8 ∷ zeros 11

derive_shard_private_key_from_announcement_lem_example :
    (derive_shard_private_key_from_announcement sums mod_seven lower_hex
        (private_key 3)
        (private_key 5)
        (hex "0x" ++ hex_digits (public_key 2))
      >>= address_of sums mod_seven lower_hex)
    ≡ ok (hex "0x" ++ hex_digits (zeros 19 ++ 1 ∷ []))
unfolding big_endian
derive_shard_private_key_from_announcement_lem_example =
    derive_shard_private_key_from_announcement_lem lower_hex sums mod_seven (private_key 2) keys
      meta_address result (refl, refl, refl, refl) refl encode_run (inl generate_run)

process_log-found_example :
    (pack_metadata lower_hex sums plain (private_key 1) (some info) (some (true ∷ [])) iv
      >>= λ metadata. ok (
          process_log lower_hex sums plain mod_seven keys (record {
            ephemeral_pub_key = hex "0x" ++ hex_digits (public_key 2);
            metadata = some (lower_hex.bytes_to_hex metadata);
          })))
    ≡ ok (
        some (record {
          address = hex "0x" ++ hex_digits (zeros 19 ++ 1 ∷ []);
          ephemeral_pub_key = hex "0x" ++ hex_digits (public_key 2);
          assets = some (erc20_balance (hex "0x" ++ hex_digits token) (pos 1000) ∷ []);
          sender_info = some (true ∷ []);
        }))
unfolding big_endian info-IsPackable
process_log-found_example =
    process_log-found lower_hex sums plain mod_seven (private_key 2) keys meta_address result
      (private_key 1) info (some (true ∷ [])) iv info-IsPackable (refl, refl, refl, refl) refl
      encode_run generate_run refl refl (omega arith, IsBytes-zeros 11) (inr (omega arith))

parse_asset_metadata-pack_metadata_example :
    (pack_metadata lower_hex sums plain (private_key 1) (some info) none iv >>= λ metadata.
    parse_asset_metadata lower_hex sums plain (lower_hex.bytes_to_hex metadata) (private_key 1))
    ≡ ok (some (erc20_balance (hex "0x" ++ hex_digits token) (pos 1000) ∷ [], none))
unfolding info-IsPackable
parse_asset_metadata-pack_metadata_example =
    parse_asset_metadata-pack_metadata lower_hex sums plain (private_key 1) info none iv
      info-IsPackable (omega arith)
      (All-append IsByte (zeros 31) (1 ∷ []) (IsBytes-zeros 31) (omega arith, tt)) refl
      (omega arith, IsBytes-zeros 11) tt

abbrev logs : List (AnnouncementLog)
logs =
    record { ephemeral_pub_key = hex "0x12"; metadata = none }
    ∷ record { ephemeral_pub_key = hex "0x" ++ hex_digits (public_key 2); metadata = none }
    ∷ []

process_announcements-keep_example :
    process_announcements lower_hex sums plain mod_seven logs keys 1
    ≡ some (record {
      shards = keep (process_log lower_hex sums plain mod_seven keys) logs;
      processed = 2;
      matches = length (keep (process_log lower_hex sums plain mod_seven keys) logs);
    })
process_announcements-keep_example =
    process_announcements-keep lower_hex sums plain mod_seven keys logs 1 (omega arith)
