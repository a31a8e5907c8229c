-- ===== src/MetaAddress/RoundTrip.antt =====
-- The decoding of an encoded meta address, ghost-shard-sdk/src/metaAddress.ts.
use ghost_shard_protocol.Prelude.{
  ◌≡◌, refl, sym, ap, ◌∙◌, [], ◌∷◌, ◌++◌, some, none, ok, err, ◌>>=◌, Bool, true, false, ◌&&◌,
  if◌then◌else◌, Option-cases, Bool-cases, inl, inr, length, length-append, arith, All-append,
}
use ghost_shard_protocol.Types.Errors.{bad_points}
use ghost_shard_protocol.Types.Bytes.{
  append-nil, Bytes, IsByte, IsBytes, slice, zeros, set_bytes, set_bytes-append, slice-append,
}
use ghost_shard_protocol.Viem.{Codec}
use ghost_shard_protocol.Noble.{Curve}
use ghost_shard_protocol.MetaAddress.{
  PublicKeys, after, check_points, decode_payload, decode_meta_address, encode_meta_address,
  meta_address_prefix, Bool,
}

-- The bytes of a meta address.
abbrev pub payload : PublicKeys → Bytes
payload keys = 1 ∷ (keys.spending_public_key ++ keys.viewing_public_key)

slice_spending : (s t : Bytes) → length s ≡ 33 → length t ≡ 33 → slice 1 34 (1 ∷ (s ++ t)) ≡ s
slice_spending s t l m = slice-append (1 ∷ []) s t 1 34 refl (omega arith)

slice_viewing : (s t : Bytes) → length s ≡ 33 → length t ≡ 33 → slice 34 67 (1 ∷ (s ++ t)) ≡ t
slice_viewing s t l m =
    ap (λ x. slice 34 67 (1 ∷ (s ++ x))) (sym (append-nil t))
    ∙ slice-append (1 ∷ s) t [] 34 67 (omega arith) (omega arith)

module _ (v : Codec) where
  pub encode_meta_address-payload :
      (keys : PublicKeys)
      → length keys.spending_public_key ≡ 33
      → length keys.viewing_public_key ≡ 33
      → encode_meta_address v keys ≡ ok (meta_address_prefix ++ v.bytes_to_hex (payload keys))
  unfolding encode_meta_address
  encode_meta_address-payload keys l m =
      let s = keys.spending_public_key in
      let t = keys.viewing_public_key in
      let first : set_bytes (1 ∷ zeros 66) 1 s ≡ some (1 ∷ (s ++ zeros 33)) =
        set_bytes-append (1 ∷ []) (zeros 33) (zeros 33) s 1 refl (sym l) in
      let second : set_bytes (1 ∷ (s ++ zeros 33)) 34 t ≡ some (1 ∷ (s ++ t)) =
        set_bytes-append (1 ∷ s) (zeros 33) [] t 34 (omega arith) (sym m)
        ∙ ap (λ x. some (1 ∷ (s ++ x))) (append-nil t) in
      rw (l, m, first, second) refl

  module _ (c : Curve) where
    -- The bytes are read as a point of the curve.
    abbrev pub is_point : Bytes → Bool
    is_point bytes = elim (c.from_hex bytes) [ none ↦ false | some _ ↦ true ]

    pub both_points :
        (s t : Bytes) (p q : c.Point)
        → c.from_hex s ≡ some p
        → c.from_hex t ≡ some q
        → (is_point s && is_point t) ≡ true
    both_points s t p q e f = rw (is_point, e, f) refl

    check_points-is_point :
        (s t : Bytes)
        → check_points v c s t ≡ (if is_point s && is_point t then ok tt else err bad_points)
    unfolding check_points
    check_points-is_point s t = elim (Option-cases (c.from_hex s)) [
      | inl e ↦ rw (check_points, is_point, e) refl
      | inr (p, e) ↦ elim (Option-cases (c.from_hex t)) [
        | inl f ↦ rw (check_points, is_point, e, f) refl
        | inr (q, f) ↦ rw (check_points, is_point, e, f) refl
      ]
    ]

    -- A meta address that is encoded from bytes that are keys of 33 bytes is decoded to the keys
    -- if both are points of the curve, and rejected if one is not.
    pub decode_meta_address-encode_meta_address :
        (keys : PublicKeys)
        → length keys.spending_public_key ≡ 33
        → length keys.viewing_public_key ≡ 33
        → IsBytes keys.spending_public_key
        → IsBytes keys.viewing_public_key
        → (encode_meta_address v keys >>= decode_meta_address v c) ≡ (
            if is_point keys.spending_public_key && is_point keys.viewing_public_key
            then ok (record {
              scheme_id = 1;
              spending_public_key = keys.spending_public_key;
              viewing_public_key = keys.viewing_public_key;
            })
            else err bad_points)
    unfolding decode_meta_address decode_payload after
    decode_meta_address-encode_meta_address keys l m bs bt =
        let s = keys.spending_public_key in
        let t = keys.viewing_public_key in
        let whole : length (1 ∷ (s ++ t)) ≡ 67 = omega (arith, length-append s t) in
        let bytes : IsBytes (1 ∷ (s ++ t)) = (omega arith, All-append IsByte s t bs bt) in
        let read : v.hex_to_bytes (v.bytes_to_hex (1 ∷ (s ++ t))) ≡ some (1 ∷ (s ++ t)) =
          v.hex_to_bytes-bytes_to_hex (1 ∷ (s ++ t)) bytes in
        rw
          (
            encode_meta_address-payload keys l m,
            read,
            whole,
            slice_spending s t l m,
            slice_viewing s t l m,
            check_points-is_point s t,
          )
          (elim (Bool-cases (is_point s && is_point t)) [ inl e ↦ rw e refl | inr e ↦ rw e refl ])
