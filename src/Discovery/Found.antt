-- ===== src/Discovery/Found.antt =====
-- From the sender of ghost-shard-sdk/src/stealth.ts and announce.ts to the recipient of
-- ghost-shard-sdk/src/discovery.ts and transaction.ts.
use ghost_shard_protocol.Discovery.Sent.{
  public_keys, Sent, generate_stealth_address-Sent, get_new_deposit_address-Sent, secret-IsBytes,
  recipient_secret, secret-in_range,
}
use ghost_shard_protocol.Prelude.{
  ◌≡◌, refl, sym, ap, ◌∙◌, true, [], ◌∷◌, Option, none, some, ok, ◌>>=◌, length, arith, inl, inr,
  ◌⊎◌,
}
use ghost_shard_protocol.Types.Bytes.{Bytes, IsBytes}
use ghost_shard_protocol.Types.Hex.{HexString}
use ghost_shard_protocol.Viem.{Codec}
use ghost_shard_protocol.Noble.{Curve, Hashes, Cipher, is_private_key}
use ghost_shard_protocol.Keys.{
  KeySet, StealthAddressResult, compute_stealth_address, derive_shard_private_key_from_announcement,
  get_new_deposit_address,
}
use ghost_shard_protocol.Keys.Normal.{IsKeySet}
use ghost_shard_protocol.Keys.Ownership.{address_of, compute_stealth_address_lem}
use ghost_shard_protocol.MetaAddress.{encode_meta_address, generate_stealth_address}
use ghost_shard_protocol.Announce.{AssetInfo, pack_metadata}
use ghost_shard_protocol.Announce.Layout.{IsPackable}
use ghost_shard_protocol.Discovery.{
  process_log, try_log, view_tag_matches, parsed_of, parse_asset_metadata,
}
use ghost_shard_protocol.Discovery.RoundTrip.{announced, heard, IsApart, pack_metadata-Packed}

module _ (v : Codec) (h : Hashes) (c : Curve) where
  -- For an address that was generated for a meta address, or by `getNewDepositAddress`, the owner of
  -- the keys derives a private key from the ephemeral public key alone, and the address of that
  -- private key is the generated one.
  pub derive_shard_private_key_from_announcement_lem :
      (random : Bytes) (keys : KeySet) (meta_address : HexString) (result : StealthAddressResult)
      → IsKeySet h c keys
      → is_private_key c.order random ≡ true
      → encode_meta_address v (public_keys keys) ≡ ok meta_address
      → (generate_stealth_address v c h random meta_address ≡ ok result)
        ⊎ (get_new_deposit_address h c v random keys ≡ ok result)
      → (derive_shard_private_key_from_announcement h c v keys.spending_private_key
            keys.viewing_private_key result.ephemeral_pub_key
          >>= address_of h c v)
        ≡ ok result.stealth_address
  unfolding derive_shard_private_key_from_announcement
  derive_shard_private_key_from_announcement_lem random keys meta_address result k valid e g =
      let s : Sent v h c random keys result = elim g [
        | inl sent ↦ generate_stealth_address-Sent v h c random keys meta_address result k e sent
        | inr made ↦ get_new_deposit_address-Sent v h c random keys result made
      ] in
      let (read, secret) = recipient_secret v h c random keys result k valid s in
      let scalar =
        secret-in_range v h c keys.spending_public_key s.secret result.stealth_address
          s.has_address in
      let (vs, vv, es, ev) = k in
      rw (read, secret)
        (sym (
            compute_stealth_address_lem h c v keys.spending_private_key keys.spending_public_key
              s.secret vs es scalar)
          ∙ s.has_address)

module _ (v : Codec) (h : Hashes) (a : Cipher) (c : Curve) where
  -- If a stealth address was generated for the meta address of keys, with a private key as the
  -- random bytes, and its announcement was packed with the secret of the generation, with an asset,
  -- and with what the sender says where the encrypted part does not look like a header, then the
  -- owner of the keys finds in the log the address, the asset and the text unless it is empty.
  pub process_log-found :
      (random : Bytes) (keys : KeySet) (meta_address : HexString) (result : StealthAddressResult)
      (secret : Bytes) (info : AssetInfo) (sender_info : Option a.Text) (iv : Bytes)
      (p : IsPackable v info)
      → IsKeySet h c keys
      → is_private_key c.order random ≡ true
      → encode_meta_address v (public_keys keys) ≡ ok meta_address
      → generate_stealth_address v c h random meta_address ≡ ok result
      → v.hex_to_bytes result.shared_secret ≡ some secret
      → length iv ≡ 12
      → IsBytes iv
      → IsApart v h a secret sender_info iv
      → (pack_metadata v h a secret (some info) sender_info iv >>= λ metadata. ok (
          process_log v h a c keys (record {
            ephemeral_pub_key = result.ephemeral_pub_key;
            metadata = some (v.bytes_to_hex metadata);
          })))
        ≡ ok (
            some (record {
              address = result.stealth_address;
              ephemeral_pub_key = result.ephemeral_pub_key;
              assets = some (announced v info.asset_type p.token p.number ∷ []);
              sender_info = heard v h a sender_info;
            }))
  unfolding process_log try_log view_tag_matches parsed_of parse_asset_metadata
  process_log-found random keys meta_address result secret info sender_info iv p k valid e g x l bi
        apart =
      let s = generate_stealth_address-Sent v h c random keys meta_address result k e g in
      let (size, bytes) =
        secret-IsBytes v h c random keys.viewing_public_key s.secret s.has_secret in
      let same : s.secret ≡ secret =
        ap (λ o. elim o [ none ↦ s.secret | some y ↦ y ])
          (sym (v.hex_to_bytes-bytes_to_hex s.secret bytes)
            ∙ ap v.hex_to_bytes (sym s.is_secret)
            ∙ x) in
      let packed =
        pack_metadata-Packed v h a secret info sender_info iv p
          (rw (sym same) (omega (arith, size))) (rw (sym same) bytes) l bi apart in
      let (read, agreed) = recipient_secret v h c random keys result k valid s in
      let agreed' = agreed ∙ ap ok same in
      let address' =
        ap (compute_stealth_address h c v keys.spending_public_key) (sym same) ∙ s.has_address in
      rw
        (
          packed.packs,
          v.bytes_to_hex_lem packed.metadata,
          read,
          agreed',
          ap v.hex_to_bytes (sym (v.bytes_to_hex_lem packed.metadata)),
          v.hex_to_bytes-bytes_to_hex packed.metadata packed.metadata-IsBytes,
          packed.has_tag,
          address',
          packed.parses,
        )
        refl
