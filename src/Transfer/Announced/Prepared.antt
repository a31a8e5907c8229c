-- ===== src/Transfer/Announced/Prepared.antt =====
-- The announcements of whole transfers of ghost-shard-sdk/src/transaction.ts.
use ghost_shard_protocol.Prelude.{
  ℕ, suc, ◌+◌, ◌≡◌, sym, ap, ◌⊎◌, ◌&&◌, not, List, [], ◌∷◌, ◌++◌, Option, ok, or_raise, length,
  Bool-cases, inl, inr, arith, ◌==◌, get_elem?, ok-injective, Result-bind,
}
use ghost_shard_protocol.Prelude.Int.{ℤ, pos, leb_ℤ}
use ghost_shard_protocol.Types.{AssetType, Shard}
use ghost_shard_protocol.Types.Bytes.{Bytes}
use ghost_shard_protocol.Types.Errors.{by_library, undefined_entry}
use ghost_shard_protocol.Types.Hex.{HexString}
use ghost_shard_protocol.Types.Maps.{map_set}
use ghost_shard_protocol.Random.{draw}
use ghost_shard_protocol.Keys.{
  KeySet, StealthAddressResult, derive_shard_private_key_from_announcement,
}
use ghost_shard_protocol.GasEngine.{TransferCommand}
use ghost_shard_protocol.Transaction.{fuse}
use ghost_shard_protocol.Transfer.{
  Build, Libraries, PoolEntry, Prepared, announcement_of, asset_type_int, defined, empty_build,
  make_change_pool, change_pool_loop, shard_implementation, sign_authorization, token_target,
  tracked,
}
use ghost_shard_protocol.Transfer.Loops.{
  PaymentLoop, Setting, unsigned, change_loop, shard_step, shard_loop, sign_all, finish_build,
}
use ghost_shard_protocol.Transfer.Public.{payment_loop, prepare_transfer}
use ghost_shard_protocol.Transfer.Private.{
  private_payment_loop, recipient_pool_loop, track_recipient, prepare_private_transfer,
}
use ghost_shard_protocol.Transfer.Announced.{
  IsSingle, IsAnnounced, Kept, announce_one, announcement_of-address, change_loop-Kept,
}

-- A loop over payments that keeps a state with single announcements so.
abbrev Keeps : PaymentLoop → Type 0
Keeps pay =
    (shard : HexString) (key : Bytes) (amts : List ℤ) (b b' : Build)
    (local local' : List TransferCommand)
    → pay shard key amts b local ≡ ok (b', local')
    → Kept b
    → Kept b'

module _ (l : Libraries) (s : Setting) where
  payment_loop-Keeps : (to : HexString) → Keeps (payment_loop l s to)
  unfolding payment_loop
  payment_loop-Keeps to shard key [] b b' local local' h k =
      rw (ap (λ x. x.0) (sym (ok-injective (b, local) (b', local') h))) k
  payment_loop-Keeps to shard key (amt ∷ amts) b b' local local' h k =
      elim (Bool-cases (leb_ℤ amt (pos 0))) [
        | inl e ↦ payment_loop-Keeps to shard key amts b b' local local' (rw e at h) k
        | inr e ↦
            let (authorization, _, h1) =
              Result-bind (sign_authorization l key shard_implementation s.chain_id 0) _
                (b', local') (rw e at h) in
            payment_loop-Keeps to shard key amts b b'
              (local ++ unsigned s shard to amt authorization ∷ []) local' h1 k
      ]

  track_recipient-Kept :
      (target : StealthAddressResult) (amt : ℤ) (b b' : Build)
      → track_recipient l s target amt b ≡ ok b'
      → Kept b
      → Kept b'
  unfolding track_recipient
  track_recipient-Kept target amt b b' h (single, announced) =
      elim (Bool-cases (tracked target.stealth_address b.announcements)) [
        | inl e ↦ rw (sym (ok-injective b b' (rw e at h))) (single, announced)
        | inr e ↦
            let (secret, _, h1) =
              Result-bind (or_raise (l.codec.hex_to_bytes target.shared_secret) by_library) _ b'
                (rw e at h) in
            let (ann, made, h2) =
              Result-bind
                (announcement_of l s.kind s.token secret target.stealth_address
                  target.ephemeral_pub_key amt)
                _ b' h1 in
            let same = ok-injective _ b' h2 in
            let (single', announced', _) =
              announce_one l s target.stealth_address b.change_shards b.announcements
                b'.announcements ann
                (announcement_of-address l s s.kind s.token secret target.stealth_address
                  target.ephemeral_pub_key amt ann made)
                e (ap (λ x. x.announcements) (sym same)) single announced in
            (single', rw (ap (λ x. x.change_shards) (sym same)) announced')
      ]

  private_payment_loop-Keeps :
      (pool : List StealthAddressResult) → Keeps (private_payment_loop l s pool)
  unfolding private_payment_loop
  private_payment_loop-Keeps pool shard key [] b b' local local' h k =
      rw (ap (λ x. x.0) (sym (ok-injective (b, local) (b', local') h))) k
  private_payment_loop-Keeps pool shard key (amt ∷ amts) b b' local local' h k =
      elim (Bool-cases (leb_ℤ amt (pos 0) && not (asset_type_int s.kind == 2))) [
        | inl e ↦ private_payment_loop-Keeps pool shard key amts b b' local local' (rw e at h) k
        | inr e ↦
            let (target, _, h1) =
              Result-bind
                (or_raise (get_elem? pool (draw l.rng b.words (length pool))) undefined_entry) _
                (b', local') (rw e at h) in
            let (authorization, _, h2) =
              Result-bind (sign_authorization l key shard_implementation s.chain_id 0) _
                (b', local') h1 in
            let (b2, tracks, h3) =
              Result-bind (track_recipient l s target amt (record b { words = b.words + 1 })) _
                (b', local') h2 in
            private_payment_loop-Keeps pool shard key amts b2 b'
              (local ++ unsigned s shard target.stealth_address amt authorization ∷ []) local' h3
              (track_recipient-Kept target amt (record b { words = b.words + 1 }) b2 tracks k)
      ]

  module _ (pay : PaymentLoop) (keeps : Keeps pay) (pool : List PoolEntry)
      (payment_matrix change_matrix : List (List ℤ)) where
    shard_step-Kept :
        (i : ℕ) (shard : Shard) (b b' : Build)
        → shard_step l s pay pool payment_matrix change_matrix i shard b ≡ ok b'
        → Kept b
        → Kept b'
    unfolding shard_step
    shard_step-Kept i shard b b' h k =
        let (key, _, h1) =
          Result-bind
            (derive_shard_private_key_from_announcement l.hashes l.curve l.codec
              s.keys.spending_private_key s.keys.viewing_private_key shard.ephemeral_pub_key)
            _ b' h in
        let (authorization, _, h2) =
          Result-bind (sign_authorization l key shard_implementation s.chain_id 0) _ b' h1 in
        let (payments, _, h3) =
          Result-bind (or_raise (get_elem? payment_matrix i) undefined_entry) _ b' h2 in
        let start = record b {
          private_key_map = map_set shard.address (l.signing.to_hex key) b.private_key_map;
          authorizations = b.authorizations ++ authorization ∷ [];
        } in
        let (paid, e, h4) = Result-bind (pay shard.address key payments start []) _ b' h3 in
        let (changes, _, h5) =
          Result-bind (or_raise (get_elem? change_matrix i) undefined_entry) _ b' h4 in
        let (changed, e', h6) =
          Result-bind (change_loop l s pool shard.address key changes paid.0 paid.1) _ b' h5 in
        rw (sym (ok-injective _ b' h6)) (
          change_loop-Kept l s pool shard.address key changes paid.0 changed.0 paid.1 changed.1 e'
            (keeps shard.address key payments start paid.0 [] paid.1 e k))

    shard_loop-Kept :
        (i : ℕ) (shards : List Shard) (b b' : Build)
        → shard_loop l s pay pool payment_matrix change_matrix i shards b ≡ ok b'
        → Kept b
        → Kept b'
    unfolding shard_loop
    shard_loop-Kept i [] b b' h k = rw (sym (ok-injective b b' h)) k
    shard_loop-Kept i (shard ∷ shards) b b' h k =
        let (b1, e, h') =
          Result-bind (shard_step l s pay pool payment_matrix change_matrix i shard b) _ b' h in
        shard_loop-Kept (suc i) shards b1 b' h' (shard_step-Kept i shard b b1 e k)

  finish_build-Kept :
      (shards : List Shard) (b : Build) (prepared : Prepared)
      → finish_build l s shards b ≡ ok prepared
      → Kept b
      → IsSingle prepared.announcements × IsAnnounced prepared.change_shards prepared.announcements
  unfolding finish_build
  finish_build-Kept shards b prepared h k =
      let (commands, _, h1) =
        Result-bind (or_raise (defined b.commands) undefined_entry) _ prepared h in
      let (signed, _, h2) = Result-bind (sign_all l s b (fuse commands)) _ prepared h1 in
      rw (sym (ok-injective _ prepared h2)) k

module _ (l : Libraries) where
  pool-Kept :
      (keys : KeySet) (words randoms : ℕ) (made : List PoolEntry × Build)
      → make_change_pool l keys (empty_build words randoms) ≡ ok made
      → Kept made.1
  unfolding make_change_pool
  pool-Kept keys words randoms made h =
      let (pool, _, h1) =
        Result-bind (change_pool_loop l keys (draw l.rng words 4 + 1) randoms []) _ made h in
      rw (sym (ok-injective _ made h1)) (λ address. omega arith, tt)

  -- Of the announcements that either function prepares no two are for one stealth address, and the
  -- address of each change output is announced.
  pub prepared-IsSingle :
      (shards : List Shard) (kind : AssetType) (to meta_address : HexString)
      (token : Option HexString) (payment_matrix change_matrix : List (List ℤ)) (keys : KeySet)
      (chain_id words randoms : ℕ) (prepared : Prepared)
      → (prepare_transfer l shards kind to token payment_matrix change_matrix keys chain_id words
            randoms
          ≡ ok prepared)
        ⊎ (prepare_private_transfer l shards kind meta_address token payment_matrix change_matrix
              keys chain_id words randoms
            ≡ ok prepared)
      → IsSingle prepared.announcements × IsAnnounced prepared.change_shards prepared.announcements
  unfolding prepare_transfer prepare_private_transfer
  prepared-IsSingle shards kind to meta_address token payment_matrix change_matrix keys chain_id
        words randoms prepared h =
      let s : Setting = record {
        keys = keys;
        chain_id = chain_id;
        kind = kind;
        token = token_target token;
      } in
      elim h [
        | inl g ↦
            let (made, e, h1) =
              Result-bind (make_change_pool l keys (empty_build words randoms)) _ prepared g in
            let (b, e', h2) =
              Result-bind
                (shard_loop l s (payment_loop l s to) made.0 payment_matrix change_matrix 0 shards
                  made.1)
                _ prepared h1 in
            finish_build-Kept l s shards b prepared h2 (
              shard_loop-Kept l s (payment_loop l s to) (payment_loop-Keeps l s to) made.0
                payment_matrix change_matrix 0 shards made.1 b e'
                (pool-Kept keys words randoms made e))
        | inr g ↦
            let size = draw l.rng words 4 + 2 in
            let (recipients, _, h0) =
              Result-bind (recipient_pool_loop l meta_address size randoms) _ prepared g in
            let (made, e, h1) =
              Result-bind (make_change_pool l keys (empty_build (words + 1) (randoms + size))) _
                prepared h0 in
            let (b, e', h2) =
              Result-bind
                (shard_loop l s (private_payment_loop l s recipients) made.0 payment_matrix
                  change_matrix 0 shards made.1)
                _ prepared h1 in
            finish_build-Kept l s shards b prepared h2 (
              shard_loop-Kept l s (private_payment_loop l s recipients)
                (private_payment_loop-Keeps l s recipients) made.0 payment_matrix change_matrix 0
                shards made.1 b e' (pool-Kept keys (words + 1) (randoms + size) made e))
      ]
