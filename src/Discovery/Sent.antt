-- ===== src/Discovery/Sent.antt =====
-- What a sender computes in ghost-shard-sdk/src/stealth.ts for the keys behind a meta address, or a user
-- for itself, and what the owner of the keys computes again.
use ghost_shard_protocol.Prelude.{
  ◌≡◌, sym, ap, ◌∙◌, true, false, some, ok, or_raise, ◌>>=◌, length, Bool-cases, inl, inr,
  Result-bind, ok-injective, or_raise-ok, if◌then◌else◌, err,
}
use ghost_shard_protocol.Types.Bytes.{Bytes, IsBytes, slice, big_endian}
use ghost_shard_protocol.Types.Errors.{bad_points, by_library}
use ghost_shard_protocol.Types.Hex.{HexString}
use ghost_shard_protocol.Viem.{Codec}
use ghost_shard_protocol.Noble.{Curve, Hashes, in_range, is_private_key}
use ghost_shard_protocol.Keys.{
  KeySet, StealthAddressResult, compute_shared_secret, compute_stealth_address,
  generate_ephemeral_keypair, derive_stealth_public_key, get_new_deposit_address, bytes_to_bigint,
}
use ghost_shard_protocol.Keys.Normal.{IsKeySet}
use ghost_shard_protocol.Keys.Ownership.{
  compute_shared_secret_comm, public_key_bytes, from_hex-public,
}
use ghost_shard_protocol.MetaAddress.{
  PublicKeys, encode_meta_address, decode_meta_address, generate_stealth_address,
}
use ghost_shard_protocol.MetaAddress.RoundTrip.{
  both_points, decode_meta_address-encode_meta_address,
}
use ghost_shard_protocol.Keys.Numbers.{bytes_to_bigint_lem}

abbrev pub public_keys : KeySet → PublicKeys
public_keys keys = record {
  spending_public_key = keys.spending_public_key;
  viewing_public_key = keys.viewing_public_key;
}

module _ (v : Codec) (h : Hashes) (c : Curve) where
  -- What a sender has computed, from `random`, for the keys behind a meta address.
  pub record Sent (random : Bytes) (keys : KeySet) (result : StealthAddressResult) : Type 0 where
    pub ephemeral : Bytes
    pub secret : Bytes
    pub has_ephemeral : c.get_public_key random true ≡ some ephemeral
    pub has_secret : compute_shared_secret h c random keys.viewing_public_key ≡ ok secret
    pub has_address :
        compute_stealth_address h c v keys.spending_public_key secret ≡ ok result.stealth_address
    pub is_ephemeral : result.ephemeral_pub_key ≡ v.bytes_to_hex ephemeral
    pub is_secret : result.shared_secret ≡ v.bytes_to_hex secret

  pub decode_public_keys :
      (keys : KeySet) (meta_address : HexString)
      → IsKeySet h c keys
      → encode_meta_address v (public_keys keys) ≡ ok meta_address
      → decode_meta_address v c meta_address
        ≡ ok (record {
          scheme_id = 1;
          spending_public_key = keys.spending_public_key;
          viewing_public_key = keys.viewing_public_key;
        })
  decode_public_keys keys meta_address (vs, vv, es, ev) e =
      let (ls, bs) = public_key_bytes c keys.spending_private_key keys.spending_public_key vs es in
      let (lv, bv) = public_key_bytes c keys.viewing_private_key keys.viewing_public_key vv ev in
      let both =
        both_points v c keys.spending_public_key keys.viewing_public_key _ _
          (from_hex-public c keys.spending_private_key keys.spending_public_key vs es)
          (from_hex-public c keys.viewing_private_key keys.viewing_public_key vv ev) in
      let whole = decode_meta_address-encode_meta_address v c (public_keys keys) ls lv bs bv in
      ap (λ m. m >>= decode_meta_address v c) (sym e)
      ∙ whole
      ∙ ap
          (λ b.
            if b
            then ok (record {
              scheme_id = 1;
              spending_public_key = keys.spending_public_key;
              viewing_public_key = keys.viewing_public_key;
            })
            else err bad_points)
          both

  pub keypair_of :
      (random : Bytes) (pair : Bytes × Bytes)
      → generate_ephemeral_keypair h c v random ≡ ok pair
      → (pair.0 ≡ random) × (c.get_public_key random true ≡ some pair.1)
  unfolding generate_ephemeral_keypair
  keypair_of random pair e =
      let (ephemeral, e', whole) =
        Result-bind (or_raise (c.get_public_key random true) by_library) _ pair e in
      let same = ok-injective (random, ephemeral) pair whole in
      (ap (λ x. x.0) (sym same), or_raise-ok _ by_library ephemeral e' ∙ ap (λ x. some x.1) same)

  pub steps_of :
      (random : Bytes) (keys : KeySet) (pair : Bytes × Bytes) (result : StealthAddressResult)
      → pair.0 ≡ random
      → c.get_public_key random true ≡ some pair.1
      → (compute_shared_secret h c pair.0 keys.viewing_public_key >>= λ secret.
          compute_stealth_address h c v keys.spending_public_key secret >>= λ address. ok (record {
            stealth_address = address;
            ephemeral_pub_key = v.bytes_to_hex pair.1;
            shared_secret = v.bytes_to_hex secret;
          }))
        ≡ ok result
      → Sent random keys result
  steps_of random keys pair result r p g =
      let (secret, e, g') =
        Result-bind (compute_shared_secret h c pair.0 keys.viewing_public_key) _ result g in
      let (address, e', g'') =
        Result-bind (compute_stealth_address h c v keys.spending_public_key secret) _ result g' in
      let same = ok-injective _ result g'' in
      record {
        ephemeral = pair.1;
        secret = secret;
        has_ephemeral = p;
        has_secret = ap (λ x. compute_shared_secret h c x keys.viewing_public_key) (sym r) ∙ e;
        has_address = e' ∙ ap (λ x. ok x.stealth_address) same;
        is_ephemeral = ap (λ x. x.ephemeral_pub_key) (sym same);
        is_secret = ap (λ x. x.shared_secret) (sym same);
      }

  -- What `generateStealthAddress` gave was computed so.
  pub generate_stealth_address-Sent :
      (random : Bytes) (keys : KeySet) (meta_address : HexString) (result : StealthAddressResult)
      → IsKeySet h c keys
      → encode_meta_address v (public_keys keys) ≡ ok meta_address
      → generate_stealth_address v c h random meta_address ≡ ok result
      → Sent random keys result
  unfolding generate_stealth_address
  generate_stealth_address-Sent random keys meta_address result k e g =
      let g1 = rw (decode_public_keys keys meta_address k e) at g in
      let (pair, e1, g2) = Result-bind (generate_ephemeral_keypair h c v random) _ result g1 in
      let (r, p) = keypair_of random pair e1 in steps_of random keys pair result r p g2

  pub get_new_deposit_address-Sent :
      (random : Bytes) (keys : KeySet) (result : StealthAddressResult)
      → get_new_deposit_address h c v random keys ≡ ok result
      → Sent random keys result
  unfolding get_new_deposit_address
  get_new_deposit_address-Sent random keys result g =
      let (pair, e1, g2) = Result-bind (generate_ephemeral_keypair h c v random) _ result g in
      let (r, p) = keypair_of random pair e1 in steps_of random keys pair result r p g2

  pub secret-IsBytes :
      (key public_key secret : Bytes)
      → compute_shared_secret h c key public_key ≡ ok secret
      → (length secret ≡ 32) × IsBytes secret
  unfolding compute_shared_secret
  secret-IsBytes key public_key secret e =
      let (point, _, e') =
        Result-bind (or_raise (c.get_shared_secret key public_key false) by_library) _ secret e in
      let same = ok-injective (h.keccak_256 (slice 1 33 point)) secret e' in
      (
        ap length (sym same) ∙ h.keccak_256_size (slice 1 33 point),
        rw (sym same) (h.keccak_256-IsBytes (slice 1 33 point)),
      )

  -- The recipient reads the ephemeral key and computes the secret of the sender.
  pub recipient_secret :
      (random : Bytes) (keys : KeySet) (result : StealthAddressResult)
      → IsKeySet h c keys
      → is_private_key c.order random ≡ true
      → (s : Sent random keys result)
      → (v.hex_to_bytes result.ephemeral_pub_key ≡ some s.ephemeral)
        × (compute_shared_secret h c keys.viewing_private_key s.ephemeral ≡ ok s.secret)
  recipient_secret random keys result (vs, vv, es, ev) valid s =
      let bytes = (public_key_bytes c random s.ephemeral valid s.has_ephemeral).1 in
      (
        ap v.hex_to_bytes s.is_ephemeral ∙ v.hex_to_bytes-bytes_to_hex s.ephemeral bytes,
        compute_shared_secret_comm h c keys.viewing_private_key random keys.viewing_public_key
              s.ephemeral vv valid ev s.has_ephemeral
            ∙ s.has_secret,
      )

  -- A secret that gave a stealth address is a scalar of a key.
  pub secret-in_range :
      (public_key secret : Bytes) (address : HexString)
      → compute_stealth_address h c v public_key secret ≡ ok address
      → in_range c.order (big_endian secret) ≡ true
  unfolding compute_stealth_address derive_stealth_public_key
  secret-in_range public_key secret address e =
      elim (Bool-cases (in_range c.order (big_endian secret))) [
        | inl f ↦ f
        | inr f ↦
            let (key, e1, _) =
              Result-bind (derive_stealth_public_key h c public_key secret) _ address e in
            let (point, _, e2) =
              Result-bind (or_raise (c.from_hex public_key) by_library) _ key e1 in
            let bad =
              rw (c.multiply_lem c.base (bytes_to_bigint secret), bytes_to_bigint_lem secret, f) at
                e2 in
            cc
      ]
