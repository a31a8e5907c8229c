-- ===== src/Keys/Normal.antt =====
-- The search of a valid private key in `normalizePrivateKey`, and the key set of `deriveKeys`, of
-- ghost-shard-sdk/src/keys.ts.
use ghost_shard_protocol.Prelude.{
  ℕ, zero, suc, ◌%◌, ◌<◌, ◌≡◌, ◌≢◌, refl, ◌∙◌, Bool, true, false, [], length, arith, ok, some,
}
use native.Mathlib.Nat.{mod-eq_of_lt}
use ghost_shard_protocol.Types.Bytes.{Bytes, big_endian, IsBytes}
use ghost_shard_protocol.Types.Hex.{hex}
use ghost_shard_protocol.Noble.{Curve, Hashes, in_range, is_private_key, key_size}
use ghost_shard_protocol.Keys.{KeySet, normalize_loop, normalize_private_key, derive_keys}
use ghost_shard_protocol.Keys.Numbers.{bytes_to_bigint_lem}

module _ (h : Hashes) (c : Curve) where
  -- The key after a number of hashes.
  abbrev pub rehash : ℕ → Bytes → Bytes
  rehash zero key = key
  rehash (suc i) key = rehash i (h.keccak_256 key)

  -- The key after `i` hashes is the first that is a scalar of a key.
  abbrev pub IsFirstValid : ℕ → Bytes → Type 0
  IsFirstValid i key =
      (in_range c.order (big_endian (rehash i key)) ≡ true)
      × ((j : ℕ) → j < i → in_range c.order (big_endian (rehash j key)) ≡ false)

  pub normalize_loop-first :
      (rounds i : ℕ) (key : Bytes)
      → i < rounds
      → IsFirstValid i key
      → normalize_loop h c rounds key ≡ ok (rehash i key)
  unfolding normalize_loop
  normalize_loop-first zero i key l v = absurd (omega arith)
  normalize_loop-first (suc rounds) zero key l (v, before) = rw (bytes_to_bigint_lem key, v) refl
  normalize_loop-first (suc rounds) (suc i) key l (v, before) =
      let rest =
        normalize_loop-first rounds i (h.keccak_256 key) (omega arith)
          (v, λ j lt. before (suc j) (omega arith)) in
      rw (bytes_to_bigint_lem key, before 0 (omega arith)) rest

  length-rehash : (i : ℕ) (key : Bytes) → length key ≡ 32 → length (rehash i key) ≡ 32
  length-rehash zero key l = l
  length-rehash (suc i) key l = length-rehash i (h.keccak_256 key) (h.keccak_256_size key)

  -- The private keys are private keys of the curve, the public keys theirs.
  abbrev pub IsKeySet : KeySet → Type 0
  IsKeySet keys =
      (is_private_key c.order keys.spending_private_key ≡ true)
      × (is_private_key c.order keys.viewing_private_key ≡ true)
      × (c.get_public_key keys.spending_private_key true ≡ some keys.spending_public_key)
      × (c.get_public_key keys.viewing_private_key true ≡ some keys.viewing_public_key)

module _ (c : Curve) where
  pub in_range-mod : (k : ℕ) → in_range c.order k ≡ true → k % c.order ≢ 0
  in_range-mod k e z =
      let inside : k < c.order = ground arith in
      let positive : 0 < k = ground arith in
      let same : k % c.order ≡ k = mod-eq_of_lt inside in absurd (omega arith)

  -- A private key has a public key, whose bytes are read back as the point.
  pub public_key_of :
      (key : Bytes) (compressed : Bool)
      → is_private_key c.order key ≡ true
      → (bytes : Bytes) × (c.get_public_key key compressed ≡ some bytes)
        × (length bytes ≡ key_size compressed)
        × IsBytes bytes
        × (c.from_hex bytes ≡ some (c.scale (big_endian key) c.base))
  public_key_of key compressed valid =
      let scalar : in_range c.order (big_endian key) ≡ true = ground arith in
      let (bytes, e, l, b, r) =
        c.to_bytes-scale (big_endian key) compressed (in_range-mod (big_endian key) scalar) in
      (bytes, c.get_public_key_lem key compressed ∙ rw valid e, l, b, r)

module _ (h : Hashes) (c : Curve) where
  normal-IsValid :
      (i : ℕ) (key : Bytes)
      → length key ≡ 32
      → IsFirstValid h c i key
      → is_private_key c.order (rehash h c i key) ≡ true
  normal-IsValid i key l (v, before) = rw (length-rehash h c i key l, v) refl

  -- If each of the two derived seeds is a scalar of a key after less than 100 hashes, then `deriveKeys`
  -- gives the first such hashes of the spending seed and of the viewing seed as the private keys,
  -- with their public keys, and the seed of the database as its key.
  pub derive_keys-IsKeySet :
      (root_seed : Bytes) (i j : ℕ)
      → i < 100
      → j < 100
      → IsFirstValid h c i (h.hkdf root_seed [] (hex "ghost-shard-spending-key") 32)
      → IsFirstValid h c j (h.hkdf root_seed [] (hex "ghost-shard-viewing-key") 32)
      → (spending_public : Bytes) × (viewing_public : Bytes) × (let keys : KeySet = record {
        spending_private_key =
            rehash h c i (h.hkdf root_seed [] (hex "ghost-shard-spending-key") 32);
        spending_public_key = spending_public;
        viewing_private_key = rehash h c j (h.hkdf root_seed [] (hex "ghost-shard-viewing-key") 32);
        viewing_public_key = viewing_public;
        db_encryption_key = h.hkdf root_seed [] (hex "ghost-shard-db-encryption-key") 32;
      } in
          (derive_keys h c root_seed ≡ ok keys) × IsKeySet h c keys)
  unfolding derive_keys normalize_private_key
  derive_keys-IsKeySet root_seed i j li lj vi vj =
      let spending = h.hkdf root_seed [] (hex "ghost-shard-spending-key") 32 in
      let viewing = h.hkdf root_seed [] (hex "ghost-shard-viewing-key") 32 in
      let valid_s = normal-IsValid i spending (h.hkdf_size root_seed [] _ 32) vi in
      let valid_v = normal-IsValid j viewing (h.hkdf_size root_seed [] _ 32) vj in
      let (pub_s, e_s, _, _, _) = public_key_of c (rehash h c i spending) true valid_s in
      let (pub_v, e_v, _, _, _) = public_key_of c (rehash h c j viewing) true valid_v in
      (
        pub_s,
        pub_v,
        (
          rw
              (
                normalize_loop-first h c 100 i spending li vi,
                normalize_loop-first h c 100 j viewing lj vj,
                e_s,
                e_v,
              )
              refl,
          (valid_s, valid_v, e_s, e_v),
        ),
      )
