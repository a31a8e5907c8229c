-- ===== src/Keys/Ownership.antt =====
-- Who can spend from a stealth address of ghost-shard-sdk/src/keys.ts and stealth.ts: the two sides of
-- an announcement compute the same secret, and the owner the key of the address.
use ghost_shard_protocol.Prelude.{
  ◌+◌, ◌*◌, ◌%◌, ◌<◌, ◌≡◌, refl, sym, ap, ◌∙◌, true, false, some, none, arith, Result, ok, or_raise,
  ◌>>=◌, Bool-cases, inl, inr, length,
}
use native.Mathlib.Nat.{mod-lt}
use ghost_shard_protocol.Types.Bytes.{Bytes, big_endian, IsBytes}
use ghost_shard_protocol.Types.Errors.{Thrown, by_library}
use ghost_shard_protocol.Types.Hex.{HexString}
use ghost_shard_protocol.Viem.{Codec}
use ghost_shard_protocol.Noble.{Curve, Hashes, in_range, is_private_key}
use ghost_shard_protocol.Keys.{
  compute_shared_secret, derive_shard_private_key, derive_stealth_public_key,
  compute_stealth_address, point_to_ethereum_address, bigint_to_bytes, bytes_to_bigint,
}
use ghost_shard_protocol.Keys.Numbers.{
  bytes_to_bigint_lem, bytes_to_bigint-bigint_to_bytes, length-bigint_to_bytes,
}
use ghost_shard_protocol.Keys.Normal.{public_key_of}

module _ (c : Curve) where
  -- Bytes that are the public key of a private key are read as its point.
  pub from_hex-public :
      (key public_key : Bytes)
      → is_private_key c.order key ≡ true
      → c.get_public_key key true ≡ some public_key
      → c.from_hex public_key ≡ some (c.scale (big_endian key) c.base)
  from_hex-public key public_key valid e =
      let (bytes, e', _, _, r) = public_key_of c key true valid in
      let same : bytes ≡ public_key = ap (λ o. elim o [ none ↦ bytes | some x ↦ x ]) (sym e' ∙ e) in
      ap c.from_hex (sym same) ∙ r

  -- They are 33 bytes.
  pub public_key_bytes :
      (key public_key : Bytes)
      → is_private_key c.order key ≡ true
      → c.get_public_key key true ≡ some public_key
      → (length public_key ≡ 33) × IsBytes public_key
  public_key_bytes key public_key valid e =
      let (bytes, e', l, b, _) = public_key_of c key true valid in
      let same : bytes ≡ public_key = ap (λ o. elim o [ none ↦ bytes | some x ↦ x ]) (sym e' ∙ e) in
      (ap length (sym same) ∙ l, rw (sym same) b)

  shared_point :
      (key other other_public : Bytes)
      → is_private_key c.order key ≡ true
      → is_private_key c.order other ≡ true
      → c.get_public_key other true ≡ some other_public
      → c.get_shared_secret key other_public false
        ≡ c.to_bytes (c.scale (big_endian key * big_endian other) c.base) false
  shared_point key other other_public valid valid' e =
      c.get_shared_secret_lem key other_public (c.scale (big_endian other) c.base) false valid
        (from_hex-public other other_public valid' e)
      ∙ ap (λ p. c.to_bytes p false) (c.scale-scale (big_endian key) (big_endian other))

module _ (h : Hashes) (c : Curve) where
  -- The secret that a private key shares with the public key of another private key is the secret
  -- that the other one shares with its public key.
  pub compute_shared_secret_comm :
      (a b a_public b_public : Bytes)
      → is_private_key c.order a ≡ true
      → is_private_key c.order b ≡ true
      → c.get_public_key a true ≡ some a_public
      → c.get_public_key b true ≡ some b_public
      → compute_shared_secret h c a b_public ≡ compute_shared_secret h c b a_public
  unfolding compute_shared_secret
  compute_shared_secret_comm a b a_public b_public va vb ea eb =
      let swapped : big_endian a * big_endian b ≡ big_endian b * big_endian a = grind arith in
      let same =
        shared_point c a b b_public va vb eb
        ∙ ap (λ k. c.to_bytes (c.scale k c.base) false) swapped
        ∙ sym (shared_point c b a a_public vb va ea) in
      rw same refl

  -- The address of a private key.
  abbrev pub address_of : Codec → Bytes → Result Thrown HexString
  address_of v key = do
    public_key ← or_raise (c.get_public_key key false) by_library
    ok (point_to_ethereum_address h c v public_key)

  -- The private key derived with a shared secret that is a scalar of a key is the one of the
  -- stealth address: both addresses are equal, and where the sum of the keys is 0 both computations
  -- throw.
  pub compute_stealth_address_lem :
      (v : Codec) (spending spending_public secret : Bytes)
      → is_private_key c.order spending ≡ true
      → c.get_public_key spending true ≡ some spending_public
      → in_range c.order (big_endian secret) ≡ true
      → compute_stealth_address h c v spending_public secret
        ≡ address_of v (derive_shard_private_key h c spending secret)
  unfolding compute_stealth_address derive_stealth_public_key derive_shard_private_key
  compute_stealth_address_lem v spending spending_public secret valid e scalar =
      let s = big_endian spending in
      let t = big_endian secret in
      let total = (s + t) % c.order in
      let point = c.add (c.scale s c.base) (c.scale t c.base) in
      let below : total < c.order = mod-lt (s + t) (omega (arith, c.order_pos)) in
      let key = bigint_to_bytes total 32 in
      let spelled : big_endian key ≡ total =
        sym (bytes_to_bigint_lem key)
        ∙ bytes_to_bigint-bigint_to_bytes total 32 (omega (arith, c.order_fits)) in
      let sum_point : point ≡ c.scale total c.base =
        sym (c.scale-add s t) ∙ sym (c.scale-mod (s + t)) in
      let derived : c.get_public_key key false ≡ c.to_bytes point false =
        elim (Bool-cases (is_private_key c.order key)) [
          | inl f ↦
              c.get_public_key_lem key false
              ∙ rw f (
                  ap (λ k. c.to_bytes (c.scale k c.base) false) spelled
                  ∙ ap (λ p. c.to_bytes p false) (sym sum_point))
          | inr f ↦
              let zero_total : total ≡ 0 = ground (arith, length-bigint_to_bytes total 32) in
              c.get_public_key_lem key false
              ∙ rw f (
                  sym (
                    ap (λ p. c.to_bytes p false) sum_point
                    ∙ c.to_bytes-zero total false (ap (λ x. x % c.order) zero_total ∙ omega arith)))
        ] in
      rw
        (
          from_hex-public c spending spending_public valid e,
          c.multiply_lem c.base (bytes_to_bigint secret),
          bytes_to_bigint_lem secret,
          bytes_to_bigint_lem spending,
          scalar,
          derived,
        )
        refl
