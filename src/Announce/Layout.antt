-- ===== src/Announce/Layout.antt =====
-- The places of the metadata that ghost-shard-sdk/src/announce.ts packs, and its reading.
use ghost_shard_protocol.Prelude.{
  ℕ, ◌+◌, ◌^◌, ◌<◌, ◌≤◌, ◌≡◌, refl, sym, ap, ◌∙◌, Bool, true, false, [], ◌∷◌, ◌++◌, some, ok,
  length, length-append, arith, ltb, ◌&&◌, inl, inr, ◌⊎◌,
}
use ghost_shard_protocol.Prelude.Int.{pos}
use ghost_shard_protocol.Types.{AssetType}
use ghost_shard_protocol.Types.Bytes.{
  Bytes, IsBytes, slice, drop-append, take-append, zeros, set_bytes, set_bytes-append, head_or,
  same_head, append-nil,
}
use ghost_shard_protocol.Viem.{Codec}
use ghost_shard_protocol.Noble.{Hashes, Cipher}
use ghost_shard_protocol.Announce.{
  AssetInfo, code_of, identifier_of, token_bytes, pack_header, sender_part, header_offset,
  decrypt_metadata_payload, derive_metadata_key,
}

and_false : (x : Bool) {y : Bool} → y ≡ false → (x && y) ≡ false
and_false true e = e
and_false false e = refl

false_and : {x : Bool} (y : Bool) → x ≡ false → (x && y) ≡ false
false_and y e = rw e refl

-- Only the first byte counts.
same_head_first :
    (b : ℕ) (xs ys bytes : Bytes) → same_head (b ∷ xs) bytes ≡ same_head (b ∷ ys) bytes
same_head_first b xs ys [] = refl
same_head_first b xs ys (x ∷ bytes) = refl

-- The header of an asset whose token has 20 bytes and whose identifier has 32.
abbrev pub header : Bytes → AssetType → Bytes → Bytes → Bytes
header shared_secret kind token identifier =
    head_or 0 shared_secret ∷ code_of kind ∷ (token ++ identifier)

-- The bytes of an asset: those of its token, 20 of them, and a number that 32 bytes hold.
pub record IsPackable (v : Codec) (info : AssetInfo) : Type 0 where
  pub token : Bytes
  pub number : ℕ
  pub has_token : token_bytes v info ≡ ok token
  pub token_size : length token ≡ 20
  pub token-IsBytes : IsBytes token
  pub has_number : identifier_of info ≡ pos number
  pub number-lt : number < 256 ^ 32

module _ (v : Codec) where
  pub pack_header-header :
      (shared_secret : Bytes) (info : AssetInfo) (p : IsPackable v info)
      → (identifier : Bytes) × (pack_header v shared_secret info
          ≡ ok (header shared_secret info.asset_type p.token identifier))
        × (length identifier ≡ 32)
        × IsBytes identifier
        × (v.bytes_to_bigint identifier ≡ p.number)
  unfolding pack_header
  pack_header-header shared_secret info p =
      let (identifier, e, l, b, r) = v.number_to_bytes_fits p.number 32 p.number-lt in
      let start = head_or 0 shared_secret ∷ code_of info.asset_type ∷ [] in
      let first : set_bytes (start ++ zeros 52) 2 p.token ≡ some (start ++ (p.token ++ zeros 32)) =
        set_bytes-append start (zeros 20) (zeros 32) p.token 2 refl (sym p.token_size) in
      let second : set_bytes (start ++ (p.token ++ zeros 32)) 22 identifier
          ≡ some (start ++ (p.token ++ identifier)) =
        set_bytes-append (start ++ p.token) (zeros 32) [] identifier 22
          (omega (arith, p.token_size)) (sym l)
        ∙ ap (λ x. some (start ++ (p.token ++ x))) (append-nil identifier) in
      (identifier, rw (p.has_token, p.has_number, e, first, second) refl, l, b, r)

  module _ (h : Hashes) (a : Cipher) where
    -- The text comes back unless the part that holds it is longer than a header and starts like
    -- the secret.
    pub decrypt_metadata_payload-sender_part :
        (shared_secret : Bytes) (text : a.Text) (iv : Bytes)
        → length iv ≡ 12
        → 0 < a.text_length text
        → (same_head iv shared_secret ≡ false) ⊎ (length (a.encode_text text) ≤ 26)
        → decrypt_metadata_payload v h a
            (sender_part v h a shared_secret (some text) iv)
            shared_secret
          ≡ ok text
    unfolding decrypt_metadata_payload sender_part header_offset slice
    decrypt_metadata_payload-sender_part shared_secret text [] l n apart = absurd (omega arith)
    decrypt_metadata_payload-sender_part shared_secret text (b ∷ iv) l n apart =
        let key = derive_metadata_key h shared_secret in
        let sealed = a.encrypt key (b ∷ iv) (a.encode_text text) in
        let whole = (b ∷ iv) ++ sealed in
        let some_text : ltb 0 (a.text_length text) ≡ true = ground arith in
        let size : length whole ≡ 28 + length (a.encode_text text) = omega (
          arith,
          length-append (b ∷ iv) sealed,
          a.encrypt_size key (b ∷ iv) (a.encode_text text),
        ) in
        let no_header : (ltb 54 (length whole) && same_head whole shared_secret) ≡ false =
          elim apart [
            | inl e ↦
                and_false (ltb 54 (length whole))
                  (same_head_first b (iv ++ sealed) iv shared_secret ∙ e)
            | inr few ↦ false_and (same_head whole shared_secret) (ground (arith, size, few))
          ] in
        rw
          (
            some_text,
            no_header,
            take-append (b ∷ iv) sealed 12 l,
            drop-append (b ∷ iv) sealed 12 l,
            a.decrypt-encrypt key (b ∷ iv) (a.encode_text text),
            a.decode_text-encode_text text,
          )
          refl
