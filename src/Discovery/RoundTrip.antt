-- ===== src/Discovery/RoundTrip.antt =====
-- What ghost-shard-sdk/src/discovery.ts reads of the metadata that ghost-shard-sdk/src/announce.ts packs.
use mathlib.Core.List.{append_assoc}
use ghost_shard_protocol.Prelude.{
  ℕ, ◌+◌, ◌<◌, ◌≡◌, refl, ap, true, false, [], ◌∷◌, ◌++◌, Option, none, some, length, length-append,
  arith, ltb, leb, if◌then◌else◌, drop, ◌⊎◌, Bool-cases, ◌≤◌, inl, All-append, inr, ◌>>=◌, ◌&&◌,
  ◌∙◌,
}
use ghost_shard_protocol.Prelude.Int.{pos}
use ghost_shard_protocol.Types.{
  AssetType, native, erc20, erc721, AssetBalance, native_balance, erc20_balance, erc721_balance,
}
use ghost_shard_protocol.Types.Bytes.{
  Bytes, IsByte, IsBytes, slice, slice-append, drop-append, head_or, same_head, same_head_refl,
}
use ghost_shard_protocol.Viem.{Codec}
use ghost_shard_protocol.Noble.{Hashes, Cipher}
use ghost_shard_protocol.Announce.{
  code_of, decrypt_metadata_payload, pack_metadata, sender_part, AssetInfo, derive_metadata_key,
}
use ghost_shard_protocol.Announce.Layout.{
  header, IsPackable, decrypt_metadata_payload-sender_part, pack_header-header,
}
use ghost_shard_protocol.Discovery.{
  asset_of, parse_bytes, type_at, caught, parse_asset_metadata, ok,
}

-- The asset that an announcement of a token's bytes and a number stands for.
abbrev pub announced : Codec → AssetType → Bytes → ℕ → AssetBalance
announced v native token n = native_balance (pos n)
announced v erc20 token n = erc20_balance (v.bytes_to_hex token) (pos n)
announced v erc721 token n = erc721_balance (v.bytes_to_hex token) (pos 0) (pos n ∷ [])

head-IsByte : (bytes : Bytes) → IsBytes bytes → IsByte (head_or 0 bytes)
head-IsByte [] h = omega arith
head-IsByte (b ∷ bytes) h = h.0

code-IsByte : (kind : AssetType) → IsByte (code_of kind)
code-IsByte native = omega arith
code-IsByte erc20 = omega arith
code-IsByte erc721 = omega arith

shape :
    (shared_secret : Bytes) (kind : AssetType) (token identifier rest : Bytes)
    → header shared_secret kind token identifier ++ rest
      ≡ head_or 0 shared_secret ∷ code_of kind ∷ (token ++ (identifier ++ rest))
shape shared_secret kind token identifier rest =
    ap (λ x. head_or 0 shared_secret ∷ code_of kind ∷ x) (append_assoc token identifier rest)

module _ (v : Codec) (h : Hashes) (a : Cipher) where
  asset_of-header :
      (shared_secret : Bytes) (kind : AssetType) (token identifier rest : Bytes)
      → length token ≡ 20
      → length identifier ≡ 32
      → asset_of v h a (header shared_secret kind token identifier ++ rest)
        ≡ announced v kind token (v.bytes_to_bigint identifier)
  unfolding asset_of type_at
  asset_of-header shared_secret native token identifier rest l m =
      let start = head_or 0 shared_secret ∷ 0 ∷ [] in
      let second : slice 22 54 (start ++ (token ++ (identifier ++ rest))) ≡ identifier =
        slice-append (start ++ token) identifier rest 22 54 (omega arith) (omega arith) in
      rw (shape shared_secret native token identifier rest, second) refl
  asset_of-header shared_secret erc20 token identifier rest l m =
      let start = head_or 0 shared_secret ∷ 1 ∷ [] in
      let first : slice 2 22 (start ++ (token ++ (identifier ++ rest))) ≡ token =
        slice-append start token (identifier ++ rest) 2 22 refl (omega arith) in
      let second : slice 22 54 (start ++ (token ++ (identifier ++ rest))) ≡ identifier =
        slice-append (start ++ token) identifier rest 22 54 (omega arith) (omega arith) in
      rw (shape shared_secret erc20 token identifier rest, first, second) refl
  asset_of-header shared_secret erc721 token identifier rest l m =
      let start = head_or 0 shared_secret ∷ 2 ∷ [] in
      let first : slice 2 22 (start ++ (token ++ (identifier ++ rest))) ≡ token =
        slice-append start token (identifier ++ rest) 2 22 refl (omega arith) in
      let second : slice 22 54 (start ++ (token ++ (identifier ++ rest))) ≡ identifier =
        slice-append (start ++ token) identifier rest 22 54 (omega arith) (omega arith) in
      rw (shape shared_secret erc721 token identifier rest, first, second) refl

  -- What is read of what follows the header.
  abbrev pub sender_of : Bytes → Bytes → Option a.Text
  sender_of rest shared_secret =
      if leb 28 (length rest)
      then caught (decrypt_metadata_payload v h a rest shared_secret)
      else none

  parse_bytes-header :
      (shared_secret : Bytes) (kind : AssetType) (token identifier rest : Bytes)
      → 0 < length shared_secret
      → length token ≡ 20
      → length identifier ≡ 32
      → parse_bytes v h a (header shared_secret kind token identifier ++ rest) shared_secret
        ≡ some (
          announced v kind token (v.bytes_to_bigint identifier) ∷ [],
          sender_of rest shared_secret,
        )
  unfolding parse_bytes
  parse_bytes-header shared_secret kind token identifier rest n l m =
      let whole = header shared_secret kind token identifier ++ rest in
      let size : length whole ≡ 54 + length rest =
        omega (arith, length-append (token ++ identifier) rest, length-append token identifier) in
      let not_empty : ltb (length whole) 1 ≡ false = ground (arith, size) in
      let not_short : ltb (length whole) 54 ≡ false = ground (arith, size) in
      let same : leb 82 (length whole) ≡ leb 28 (length rest) = ground (arith, size) in
      let tag : same_head whole shared_secret ≡ true =
        same_head_refl shared_secret (code_of kind ∷ ((token ++ identifier) ++ rest)) n in
      let tail : drop 54 whole ≡ rest =
        drop-append (header shared_secret kind token identifier) rest 54
          (omega (arith, length-append token identifier)) in
      rw
        (
          not_empty,
          tag,
          not_short,
          same,
          tail,
          asset_of-header shared_secret kind token identifier rest l m,
        )
        refl

  sender_part-IsBytes :
      (shared_secret : Bytes) (sender_info : Option a.Text) (iv : Bytes)
      → IsBytes iv
      → IsBytes (sender_part v h a shared_secret sender_info iv)
  unfolding sender_part
  sender_part-IsBytes shared_secret none iv b = tt
  sender_part-IsBytes shared_secret (some text) iv b =
      elim (Bool-cases (ltb 0 (a.text_length text))) [
        | inl e ↦
            rw e (All-append IsByte iv _ b (a.encrypt-IsBytes _ iv _ (a.encode_text-IsBytes text)))
        | inr e ↦ rw e tt
      ]

  -- The text of a sender, if it is not empty.
  abbrev pub heard : Option a.Text → Option a.Text
  heard none = none
  heard (some text) = if ltb 0 (a.text_length text) then some text else none

  -- The encrypted part does not look like a header: it starts unlike the secret, or it is short.
  abbrev pub IsApart : Bytes → Option a.Text → Bytes → Type 0
  IsApart shared_secret none iv = Unit
  IsApart shared_secret (some text) iv =
      (same_head iv shared_secret ≡ false) ⊎ (length (a.encode_text text) ≤ 26)

  sender_of-sender_part :
      (shared_secret : Bytes) (sender_info : Option a.Text) (iv : Bytes)
      → length iv ≡ 12
      → IsApart shared_secret sender_info iv
      → sender_of (sender_part v h a shared_secret sender_info iv) shared_secret ≡ heard sender_info
  unfolding sender_part
  sender_of-sender_part shared_secret none iv l apart = refl
  sender_of-sender_part shared_secret (some text) iv l apart =
      elim (Bool-cases (ltb 0 (a.text_length text))) [
        | inl e ↦
            let sealed = a.encrypt (derive_metadata_key h shared_secret) iv (a.encode_text text) in
            let long : leb 28 (length (sender_part v h a shared_secret (some text) iv)) ≡ true =
              rw e (
                ground (
                  arith,
                  length-append iv sealed,
                  a.encrypt_size (derive_metadata_key h shared_secret) iv (a.encode_text text),
                )) in
            rw
              (
                long,
                decrypt_metadata_payload-sender_part v h a shared_secret text iv l (ground arith)
                    apart,
                e,
              )
              refl
        | inr e ↦ rw e refl
      ]

  -- What is packed for an asset, and what the bytes are.
  pub record Packed (shared_secret : Bytes) (info : AssetInfo) (sender_info : Option a.Text)
      (iv : Bytes) (p : IsPackable v info) : Type 0 where
    pub metadata : Bytes
    pub packs : pack_metadata v h a shared_secret (some info) sender_info iv ≡ ok metadata
    pub metadata-IsBytes : IsBytes metadata
    pub has_tag : (ltb 0 (length metadata) && same_head metadata shared_secret) ≡ true
    pub parses :
        parse_bytes v h a metadata shared_secret
        ≡ some (announced v info.asset_type p.token p.number ∷ [], heard sender_info)

  pub pack_metadata-Packed :
      (shared_secret : Bytes) (info : AssetInfo) (sender_info : Option a.Text) (iv : Bytes)
      (p : IsPackable v info)
      → 0 < length shared_secret
      → IsBytes shared_secret
      → length iv ≡ 12
      → IsBytes iv
      → IsApart shared_secret sender_info iv
      → Packed shared_secret info sender_info iv p
  unfolding pack_metadata
  pack_metadata-Packed shared_secret info sender_info iv p n b l bi apart =
      let (identifier, e, m, bytes, same) = pack_header-header v shared_secret info p in
      let rest = sender_part v h a shared_secret sender_info iv in
      let front = header shared_secret info.asset_type p.token identifier in
      let front-IsBytes : IsBytes front = (
        head-IsByte shared_secret b,
        (code-IsByte info.asset_type, All-append IsByte p.token identifier p.token-IsBytes bytes),
      ) in
      record {
        metadata = front ++ rest;
        packs = rw e refl;
        metadata-IsBytes =
            All-append IsByte front rest front-IsBytes
              (sender_part-IsBytes shared_secret sender_info iv bi);
        has_tag =
            let some_bytes : ltb 0 (length (front ++ rest)) ≡ true = ground arith in
            rw some_bytes (
              same_head_refl shared_secret
                (code_of info.asset_type ∷ ((p.token ++ identifier) ++ rest)) n);
        parses =
            parse_bytes-header shared_secret info.asset_type p.token identifier rest n p.token_size
              m
            ∙ rw (same, sender_of-sender_part shared_secret sender_info iv l apart) refl;
      }

  -- The metadata of an asset, and of what a sender says where the encrypted part does not look
  -- like a header, is read back: the asset with its number, and the text unless it is empty.
  pub parse_asset_metadata-pack_metadata :
      (shared_secret : Bytes) (info : AssetInfo) (sender_info : Option a.Text) (iv : Bytes)
      (p : IsPackable v info)
      → 0 < length shared_secret
      → IsBytes shared_secret
      → length iv ≡ 12
      → IsBytes iv
      → IsApart shared_secret sender_info iv
      → (pack_metadata v h a shared_secret (some info) sender_info iv >>= λ metadata.
          parse_asset_metadata v h a (v.bytes_to_hex metadata) shared_secret)
        ≡ ok (some (announced v info.asset_type p.token p.number ∷ [], heard sender_info))
  unfolding pack_metadata parse_asset_metadata
  parse_asset_metadata-pack_metadata shared_secret info sender_info iv p n b l bi apart =
      let packed = pack_metadata-Packed shared_secret info sender_info iv p n b l bi apart in
      rw
        (
          packed.packs,
          v.hex_to_bytes-bytes_to_hex packed.metadata packed.metadata-IsBytes,
          packed.parses,
        )
        refl
