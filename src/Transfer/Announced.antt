-- ===== src/Transfer/Announced.antt =====
-- The announcements that ghost-shard-sdk/src/transaction.ts prepares.
pub mod Prepared
use ghost_shard_protocol.Prelude.{
  ℕ, ◌+◌, ◌≤◌, ◌≡◌, refl, sym, ap, ◌∙◌, true, false, ◌||◌, List, [], ◌∷◌, ◌++◌, none, some, ok,
  or_raise, length, if◌then◌else◌, Bool-cases, inl, inr, arith, get_elem?, All, All-append,
  ok-injective, Result-bind,
}
use ghost_shard_protocol.Prelude.Int.{ℤ, pos, leb_ℤ}
use ghost_shard_protocol.Types.{AssetType}
use ghost_shard_protocol.Types.Bytes.{Bytes}
use ghost_shard_protocol.Types.Errors.{by_library, undefined_entry}
use ghost_shard_protocol.Types.Hex.{HexString, hex_eq, hex_eq_iff}
use ghost_shard_protocol.Random.{draw}
use ghost_shard_protocol.Keys.{compute_shared_secret}
use ghost_shard_protocol.GasEngine.{TransferCommand}
use ghost_shard_protocol.Client.{ChangeOutput}
use ghost_shard_protocol.Transfer.{
  Announcement, Build, Libraries, PoolEntry, announcement_of, shard_implementation,
  sign_authorization, tracked, pack_metadata, asset_info,
}
use ghost_shard_protocol.Transfer.Loops.{Setting, unsigned, with_change, track_change, change_loop}

-- How many announcements are for an address.
abbrev pub count : HexString → List Announcement → ℕ
count address [] = 0
count address (ann ∷ anns) =
    (if hex_eq ann.stealth_address address then 1 else 0) + count address anns

-- No two announcements are for one address.
abbrev pub IsSingle : List Announcement → Type 0
IsSingle anns = (address : HexString) → count address anns ≤ 1

-- Each change output's address is announced.
abbrev pub IsAnnounced : List ChangeOutput → List Announcement → Type 0
IsAnnounced outs anns = All (λ out. tracked out.address anns ≡ true) outs

-- What the loops keep of a state.
abbrev pub Kept : Build → Type 0
Kept b = IsSingle b.announcements × IsAnnounced b.change_shards b.announcements

count-untracked :
    (address : HexString) (anns : List Announcement)
    → tracked address anns ≡ false
    → count address anns ≡ 0
unfolding tracked
count-untracked address [] h = refl
count-untracked address (ann ∷ anns) h = elim (Bool-cases (hex_eq ann.stealth_address address)) [
  | inl e ↦ let bad = rw e at h in cc
  | inr e ↦ rw e (omega (arith, count-untracked address anns (rw e at h)))
]

count-snoc :
    (address : HexString) (anns : List Announcement) (ann : Announcement)
    → count address (anns ++ ann ∷ [])
      ≡ count address anns + (if hex_eq ann.stealth_address address then 1 else 0)
count-snoc address [] ann = omega arith
count-snoc address (x ∷ anns) ann = omega (arith, count-snoc address anns ann)

tracked-snoc :
    (address : HexString) (anns : List Announcement) (ann : Announcement)
    → tracked address (anns ++ ann ∷ [])
      ≡ (tracked address anns || hex_eq ann.stealth_address address)
unfolding tracked
tracked-snoc address [] ann = ground arith
tracked-snoc address (x ∷ anns) ann = elim (Bool-cases (hex_eq x.stealth_address address)) [
  | inl e ↦ rw e refl
  | inr e ↦ rw e (tracked-snoc address anns ann)
]

still-IsAnnounced :
    (outs : List ChangeOutput) (anns : List Announcement) (ann : Announcement)
    → IsAnnounced outs anns
    → IsAnnounced outs (anns ++ ann ∷ [])
still-IsAnnounced [] anns ann h = tt
still-IsAnnounced (out ∷ outs) anns ann (h, hs) =
    (rw (tracked-snoc out.address anns ann, h) refl, still-IsAnnounced outs anns ann hs)

-- One more announcement, for an address that had none.
pub snoc-IsSingle :
    (anns : List Announcement) (ann : Announcement)
    → IsSingle anns
    → tracked ann.stealth_address anns ≡ false
    → IsSingle (anns ++ ann ∷ [])
snoc-IsSingle anns ann h fresh address = elim (Bool-cases (hex_eq ann.stealth_address address)) [
  | inl e ↦
      let nothing =
        ap (λ x. count x anns) (sym ((hex_eq_iff ann.stealth_address address).0 e))
        ∙ count-untracked ann.stealth_address anns fresh in
      rw (count-snoc address anns ann, e) (omega (arith, nothing))
  | inr e ↦ rw (count-snoc address anns ann, e) (omega (arith, h address))
]

module _ (l : Libraries) (s : Setting) where
  announcement_of-address :
      (kind : AssetType) (token : HexString) (secret : Bytes) (address key : HexString) (amt : ℤ)
      (ann : Announcement)
      → announcement_of l kind token secret address key amt ≡ ok ann
      → ann.stealth_address ≡ address
  unfolding announcement_of
  announcement_of-address kind token secret address key amt ann h =
      let (bytes, _, h1) =
        Result-bind
          (pack_metadata l.codec l.hashes l.cipher secret (some (asset_info kind token amt)) none
            [])
          _ ann h in
      ap (λ x. x.stealth_address) (sym (ok-injective _ ann h1))

  -- One more announcement for an address that has none.
  pub announce_one :
      (address : HexString) (outs : List ChangeOutput) (anns anns' : List Announcement)
      (ann : Announcement)
      → ann.stealth_address ≡ address
      → tracked address anns ≡ false
      → anns' ≡ anns ++ ann ∷ []
      → IsSingle anns
      → IsAnnounced outs anns
      → IsSingle anns' × IsAnnounced outs anns' × (tracked address anns' ≡ true)
  announce_one address outs anns anns' ann e fresh same single announced =
      let fresh' : tracked ann.stealth_address anns ≡ false = ap (λ x. tracked x anns) e ∙ fresh in
      let here : hex_eq ann.stealth_address address ≡ true =
        (hex_eq_iff ann.stealth_address address).1 e in
      rw same (
        snoc-IsSingle anns ann single fresh',
        still-IsAnnounced outs anns ann announced,
        tracked-snoc address anns ann ∙ rw (fresh, here) refl,
      )

  track_change-Kept :
      (target : PoolEntry) (amt : ℤ) (outs : List ChangeOutput) (b b' : Build)
      → track_change l s target amt b ≡ ok b'
      → IsSingle b.announcements
      → IsAnnounced outs b.announcements
      → (IsSingle b'.announcements
          × IsAnnounced outs b'.announcements
          × (tracked target.stealth_address b'.announcements ≡ true))
        × (b'.change_shards ≡ b.change_shards)
  unfolding track_change
  track_change-Kept target amt outs b b' h single announced =
      elim (Bool-cases (tracked target.stealth_address b.announcements)) [
        | inl e ↦
            let same = ok-injective b b' (rw e at h) in rw (sym same) ((single, announced, e), refl)
        | inr e ↦
            let (authorization, _, h1) =
              Result-bind
                (sign_authorization l target.private_key shard_implementation s.chain_id 0) _ b'
                (rw e at h) in
            let (ephemeral, _, h2) =
              Result-bind (or_raise (l.codec.hex_to_bytes target.ephemeral_pub_key) by_library) _ b'
                h1 in
            let (secret, _, h3) =
              Result-bind
                (compute_shared_secret l.hashes l.curve s.keys.viewing_private_key ephemeral) _ b'
                h2 in
            let (ann, made, h4) =
              Result-bind
                (announcement_of l s.kind s.token secret target.stealth_address
                  target.ephemeral_pub_key amt)
                _ b' h3 in
            let same = ok-injective _ b' h4 in
            (
              announce_one target.stealth_address outs b.announcements b'.announcements ann
                  (announcement_of-address s.kind s.token secret target.stealth_address
                    target.ephemeral_pub_key amt ann made)
                  e (ap (λ x. x.announcements) (sym same)) single announced,
              ap (λ x. x.change_shards) (sym same),
            )
      ]

  change_loop-Kept :
      (pool : List PoolEntry) (shard : HexString) (key : Bytes) (amts : List ℤ) (b b' : Build)
      (local local' : List TransferCommand)
      → change_loop l s pool shard key amts b local ≡ ok (b', local')
      → Kept b
      → Kept b'
  unfolding change_loop
  change_loop-Kept pool shard key [] b b' local local' h k =
      rw (ap (λ x. x.0) (sym (ok-injective (b, local) (b', local') h))) k
  change_loop-Kept pool shard key (amt ∷ amts) b b' local local' h (single, announced) =
      elim (Bool-cases (leb_ℤ amt (pos 0))) [
        | inl e ↦
            change_loop-Kept pool shard key amts b b' local local' (rw e at h) (single, announced)
        | inr e ↦
            let (target, _, h1) =
              Result-bind
                (or_raise (get_elem? pool (draw l.rng b.words (length pool))) undefined_entry) _
                (b', local') (rw e at h) in
            let (authorization, _, h2) =
              Result-bind (sign_authorization l key shard_implementation s.chain_id 0) _
                (b', local') h1 in
            let (b2, tracks, h3) =
              Result-bind (track_change l s target amt (with_change target amt b)) _ (b', local')
                h2 in
            let (more, same) =
              track_change-Kept target amt b.change_shards (with_change target amt b) b2 tracks
                single announced in
            let (single2, announced2, here) = more in
            let out : ChangeOutput = record {
              address = target.stealth_address;
              ephemeral_pub_key = target.ephemeral_pub_key;
              amount = amt;
            } in
            change_loop-Kept pool shard key amts b2 b'
              (local ++ unsigned s shard target.stealth_address amt authorization ∷ []) local' h3
              (
                single2,
                rw same (
                    All-append (λ o. tracked o.address b2.announcements ≡ true) b.change_shards
                      (out ∷ []) announced2 (here, tt)),
              )
      ]
