-- ===== src/Discovery.antt =====
-- The discovery of shards, ghost-shard-sdk/src/discovery.ts, from the logs that
-- ghost-shard-sdk/src/parse.ts decodes.
pub mod RoundTrip
pub mod Chunks
pub mod Sent
pub mod Found
mod Examples
use ghost_shard_protocol.Prelude.{
  take, drop, ℕ, zero, suc, ◌+◌, Bool, true, false, ◌&&◌, ◌||◌, List, [], ◌∷◌, ◌++◌, Option, none,
  some, Result, ok, err, or_raise, ◌>>=◌, ltb, leb, length, if◌then◌else◌, or_else, ◌==◌, not, map,
}
use ghost_shard_protocol.Prelude.Int.{ℤ, pos}
use ghost_shard_protocol.Types.{
  AssetType, native, erc20, erc721, AssetBalance, native_balance, erc20_balance, erc721_balance,
}
use ghost_shard_protocol.Types.Bytes.{Bytes, slice, same_head}
use ghost_shard_protocol.Types.Errors.{Thrown, by_library}
use ghost_shard_protocol.Types.Hex.{HexString, hex}
use ghost_shard_protocol.Viem.{Codec}
use ghost_shard_protocol.Noble.{Curve, Hashes, Cipher}
use ghost_shard_protocol.Keys.{KeySet, compute_shared_secret, compute_stealth_address}
use ghost_shard_protocol.Announce.{decrypt_metadata_payload}

-- `AnnouncementLog` of types.ts
pub record AnnouncementLog : Type 0 where
  pub ephemeral_pub_key : HexString
  pub metadata : Option HexString

-- `parseLog`, for a log that `decodeEventLog` decodes to a key and metadata, or throws on. `size` is
-- the number of bytes of a hex string.
unfoldable pub parse_log :
    (HexString → ℕ) → (HexString → Bool) → Option (HexString × HexString) → Option AnnouncementLog
parse_log size is_hex none = none
parse_log size is_hex (some (ephemeral_pub_key, metadata)) =
    let byte_size = size ephemeral_pub_key in
    if not (byte_size == 33) && not (byte_size == 65)
    then none
    else if ltb 0 (length metadata) && is_hex metadata && ltb 0 (size metadata)
    then some (record { ephemeral_pub_key = ephemeral_pub_key; metadata = some metadata })
    else some (record { ephemeral_pub_key = ephemeral_pub_key; metadata = none })

-- The type that a code stands for: every other code stands for `NATIVE`.
unfoldable pub type_at : ℕ → AssetType
type_at code = if code == 2 then erc721 else if code == 1 then erc20 else native

-- An optional string where it is there and not empty.
abbrev pub present : Option HexString → Option HexString
present none = none
present (some []) = none
present (some (x ∷ s)) = some (x ∷ s)

-- The elements that a function keeps, in order.
unfoldable pub keep {ℓ κ} : {A : Type ℓ} {B : Type κ} → (A → Option B) → List A → List B
keep f [] = []
keep f (x ∷ xs) = elim (f x) [ none ↦ keep f xs | some y ↦ y ∷ keep f xs ]

-- `catch` around a computation, for which nothing is the result.
abbrev pub caught {ℓ} : {A : Type ℓ} → Result Thrown A → Option A
caught (err e) = none
caught (ok a) = some a

-- The assets of an announcement and what its sender says.
abbrev pub Parsed : Type 0 → Type 0
Parsed Text = List AssetBalance × Option Text

module _ (v : Codec) (h : Hashes) (a : Cipher) where
  unfoldable pub asset_of : Bytes → AssetBalance
  asset_of meta_bytes =
      let token_address = v.bytes_to_hex (slice 2 22 meta_bytes) in
      let identifier = pos (v.bytes_to_bigint (slice 22 54 meta_bytes)) in
      elim (type_at (byte_at 1 meta_bytes)) [
        | erc721 ↦ erc721_balance token_address (pos 0) (identifier ∷ [])
        | erc20 ↦ erc20_balance token_address identifier
        | native ↦ native_balance identifier
      ]
    where
      byte_at : ℕ → Bytes → ℕ
      byte_at i [] = 0
      byte_at zero (b ∷ bytes) = b
      byte_at (suc i) (b ∷ bytes) = byte_at i bytes

  unfoldable pub parse_bytes : Bytes → Bytes → Option (Parsed a.Text)
  unfolding asset_of
  parse_bytes meta_bytes shared_secret =
      if ltb (length meta_bytes) 1
      then none
      else if not (same_head meta_bytes shared_secret)
      then none
      else if ltb (length meta_bytes) 54
      then some ([], none)
      else some (
        asset_of meta_bytes ∷ [],
        (if leb 82 (length meta_bytes)
            then caught (decrypt_metadata_payload v h a (drop 54 meta_bytes) shared_secret)
            else none),
      )

  unfoldable pub parse_asset_metadata : HexString → Bytes → Result Thrown (Option (Parsed a.Text))
  unfolding parse_bytes
  parse_asset_metadata metadata shared_secret = do
    meta_bytes ← or_raise (v.hex_to_bytes metadata) by_library
    ok (parse_bytes meta_bytes shared_secret)

  module _ (c : Curve) where
    pub record DiscoveredShard : Type 0 where
      pub address : HexString
      pub ephemeral_pub_key : HexString
      pub assets : Option (List AssetBalance)
      pub sender_info : Option a.Text

    -- The check of the view tag: whether a log with this metadata may be for the keys.
    unfoldable pub view_tag_matches : Option HexString → Bytes → Result Thrown Bool
    view_tag_matches none shared_secret = ok true
    view_tag_matches (some metadata) shared_secret = do
      meta_bytes ← or_raise (v.hex_to_bytes metadata) by_library
      ok (ltb 0 (length meta_bytes) && same_head meta_bytes shared_secret)

    unfoldable pub parsed_of : Option HexString → Bytes → Result Thrown (Option (Parsed a.Text))
    parsed_of none shared_secret = ok none
    parsed_of (some metadata) shared_secret = parse_asset_metadata metadata shared_secret

    abbrev pub found : HexString → HexString → Option (Parsed a.Text) → DiscoveredShard
    found address key none = record {
      address = address;
      ephemeral_pub_key = key;
      assets = none;
      sender_info = none;
    }
    found address key (some (assets, sender_info)) = record {
      address = address;
      ephemeral_pub_key = key;
      assets = some assets;
      sender_info = sender_info;
    }

    -- The body of the `try` for a log.
    unfoldable pub try_log : KeySet → AnnouncementLog → Result Thrown (Option DiscoveredShard)
    unfolding view_tag_matches parsed_of
    try_log keys log = do
      eph_bytes ← or_raise (v.hex_to_bytes log.ephemeral_pub_key) by_library
      shared_secret ← compute_shared_secret h c keys.viewing_private_key eph_bytes
      matches ← view_tag_matches (present log.metadata) shared_secret
      if matches
          then (do
            stealth_address ← compute_stealth_address h c v keys.spending_public_key shared_secret
            parsed ← parsed_of (present log.metadata) shared_secret
            ok (some (found stealth_address log.ephemeral_pub_key parsed)))
          else ok none

    -- A log that throws gives nothing.
    unfoldable pub process_log : KeySet → AnnouncementLog → Option DiscoveredShard
    unfolding try_log
    process_log keys log = or_else (caught (try_log keys log)) none

    pub record ProcessAnnouncementsResult : Type 0 where
      pub shards : List DiscoveredShard
      pub processed : ℕ
      pub matches : ℕ

    -- The loop over the chunks, from what is left of the logs; `none` where the rounds run out.
    unfoldable pub chunks_loop :
        ℕ
        → KeySet
        → ℕ
        → List AnnouncementLog
        → List DiscoveredShard
        → ℕ
        → Option (List DiscoveredShard × ℕ)
    chunks_loop rounds keys chunk_size [] shards matches = some (shards, matches)
    chunks_loop zero keys chunk_size (log ∷ logs) shards matches = none
    chunks_loop (suc rounds) keys chunk_size (log ∷ logs) shards matches =
        let completed = keep (process_log keys) (take chunk_size (log ∷ logs)) in
        chunks_loop rounds keys chunk_size (drop chunk_size (log ∷ logs)) (shards ++ completed)
          (matches + length completed)

    -- Each round takes a log at least, unless the size of a chunk is 0.
    unfoldable pub process_announcements :
        List AnnouncementLog → KeySet → ℕ → Option ProcessAnnouncementsResult
    unfolding chunks_loop
    process_announcements logs keys chunk_size =
        elim (chunks_loop (length logs) keys chunk_size logs [] 0) [
          | none ↦ none
          | some (shards, matches) ↦
              some (record { shards = shards; processed = length logs; matches = matches })
        ]
