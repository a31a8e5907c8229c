-- ===== src/Transfer/Conservation/PreparedPrivate.antt =====
-- What `preparePrivateTransfer` of ghost-shard-sdk/src/transaction.ts moves in all.
use ghost_shard_protocol.Prelude.{
  ℕ, ◌+◌, ◌≤◌, ◌≡◌, sym, ap, ◌∙◌, ◌&&◌, not, List, [], ◌∷◌, ◌++◌, Option, ok, or_raise, length,
  length-append, if◌then◌else◌, Bool-cases, inl, inr, arith, ◌==◌, get_elem?, ok-injective,
  Result-bind,
}
use ghost_shard_protocol.Prelude.Int.{ℤ, pos, ◌+ℤ◌, leb_ℤ, int_laws, le_of_eq}
use ghost_shard_protocol.Types.{AssetType, Shard}
use ghost_shard_protocol.Types.Errors.{by_library, undefined_entry}
use ghost_shard_protocol.Types.Hex.{HexString}
use ghost_shard_protocol.Random.{IsBelowTop, top_word, draw}
use ghost_shard_protocol.Keys.{KeySet, StealthAddressResult}
use ghost_shard_protocol.Transfer.{
  Build, Libraries, Prepared, announcement_of, asset_type_int, empty_build, make_change_pool,
  shard_implementation, sign_authorization, token_target, tracked,
}
use ghost_shard_protocol.Transfer.Loops.{Setting, unsigned, shard_loop}
use ghost_shard_protocol.Transfer.Private.{
  private_payment_loop, recipient_pool_loop, track_recipient, prepare_private_transfer,
}
use ghost_shard_protocol.Transfer.Conservation.{total, positives}
use ghost_shard_protocol.Transfer.Conservation.Totals.{Pays, total-snoc}
use ghost_shard_protocol.Transfer.Conservation.Whole.{row, rows_total, shard_loop-Moved}
use ghost_shard_protocol.Transfer.Conservation.Prepared.{finish_build-total, pool-Moved}

-- What the private payments of amounts add up to: all the amounts for an ERC721 token, else the
-- positive ones.
abbrev pub private_paid : AssetType → List ℤ → ℤ
private_paid kind [] = pos 0
private_paid kind (x ∷ xs) =
    (if leb_ℤ x (pos 0) && not (asset_type_int kind == 2) then pos 0 else x) +ℤ private_paid kind xs

module _ (l : Libraries) where
  track_recipient-same :
      (s : Setting) (target : StealthAddressResult) (amt : ℤ) (b b' : Build)
      → track_recipient l s target amt b ≡ ok b'
      → (b'.commands ≡ b.commands) × (b'.change_shards ≡ b.change_shards)
  unfolding track_recipient
  track_recipient-same s target amt b b' h =
      elim (Bool-cases (tracked target.stealth_address b.announcements)) [
        | inl e ↦
            let same = ok-injective b b' (rw e at h) in
            (ap (λ x. x.commands) (sym same), ap (λ x. x.change_shards) (sym same))
        | inr e ↦
            let (secret, _, h1) =
              Result-bind (or_raise (l.codec.hex_to_bytes target.shared_secret) by_library) _ b'
                (rw e at h) in
            let (announcement, _, h2) =
              Result-bind
                (announcement_of l s.kind s.token secret target.stealth_address
                  target.ephemeral_pub_key amt)
                _ b' h1 in
            let same = ok-injective _ b' h2 in
            (ap (λ x. x.commands) (sym same), ap (λ x. x.change_shards) (sym same))
      ]

  private_payment_loop-Pays :
      (s : Setting) (pool : List StealthAddressResult)
      → Pays (private_payment_loop l s pool) (private_paid s.kind)
  unfolding private_payment_loop
  private_payment_loop-Pays s pool shard key [] b b' local local' h =
      let same = ok-injective (b, local) (b', local') h in
      let totals = le_of_eq (ap (λ x. total x.1) same) in
      (
        omega (int_laws, totals),
        omega (arith, ap (λ x. length x.1) same),
        ap (λ x. x.0.commands) (sym same),
        ap (λ x. x.0.change_shards) (sym same),
      )
  private_payment_loop-Pays s pool shard key (amt ∷ amts) b b' local local' h =
      elim (Bool-cases (leb_ℤ amt (pos 0) && not (asset_type_int s.kind == 2))) [
        | inl e ↦
            let (t, n, c, g) =
              private_payment_loop-Pays s pool shard key amts b b' local local' (rw e at h) in
            let totals = le_of_eq t in (rw e (omega (int_laws, totals)), omega (arith, n), c, g)
        | inr e ↦
            let (target, _, h1) =
              Result-bind
                (or_raise (get_elem? pool (draw l.rng b.words (length pool))) undefined_entry) _
                (b', local') (rw e at h) in
            let (authorization, _, h2) =
              Result-bind (sign_authorization l key shard_implementation s.chain_id 0) _
                (b', local') h1 in
            let (b2, tracks, h3) =
              Result-bind (track_recipient l s target amt (record b { words = b.words + 1 })) _
                (b', local') h2 in
            let (same_commands, same_change) =
              track_recipient-same s target amt (record b { words = b.words + 1 }) b2 tracks in
            let cmd = unsigned s shard target.stealth_address amt authorization in
            let (t, n, c, g) =
              private_payment_loop-Pays s pool shard key amts b2 b' (local ++ cmd ∷ []) local' h3 in
            let totals =
              le_of_eq (t ∙ ap (λ x. x +ℤ private_paid s.kind amts) (total-snoc local cmd)) in
            (
              rw e (omega (int_laws, totals)),
              omega (arith, n, length-append local (cmd ∷ [])),
              c ∙ same_commands,
              g ∙ same_change,
            )
      ]

  module _ (below : IsBelowTop l.rng) (payment_matrix change_matrix : List (List ℤ))
      (small : (i : ℕ)
        → length (row payment_matrix i) + length (row change_matrix i) ≤ top_word) where
    -- If no random word is the largest one, the commands of a private transfer move the payments of
    -- the matrix for its shards, which are all amounts for an ERC721 token and else the positive ones,
    -- and the positive amounts of the change matrix for them; these are its change amount.
    pub prepare_private_transfer-total :
        (shards : List Shard) (kind : AssetType) (meta_address : HexString)
        (token : Option HexString) (keys : KeySet) (chain_id words randoms : ℕ)
        (prepared : Prepared)
        → prepare_private_transfer l shards kind meta_address token payment_matrix change_matrix
            keys chain_id words randoms
          ≡ ok prepared
        → (total prepared.commands
            ≡ rows_total (private_paid kind) payment_matrix 0 shards +ℤ prepared.change_amount)
          × (prepared.change_amount ≡ rows_total positives change_matrix 0 shards)
    unfolding prepare_private_transfer
    prepare_private_transfer-total shards kind meta_address token keys chain_id words randoms
          prepared h =
        let s : Setting = record {
          keys = keys;
          chain_id = chain_id;
          kind = kind;
          token = token_target token;
        } in
        let size = draw l.rng words 4 + 2 in
        let (recipients, _, h0) =
          Result-bind (recipient_pool_loop l meta_address size randoms) _ prepared h in
        let (made, e, h1) =
          Result-bind (make_change_pool l keys (empty_build (words + 1) (randoms + size))) _
            prepared h0 in
        let (b, e', h2) =
          Result-bind
            (shard_loop l s (private_payment_loop l s recipients) made.0 payment_matrix
              change_matrix 0 shards made.1)
            _ prepared h1 in
        let m =
          shard_loop-Moved l s below (private_payment_loop l s recipients) (private_paid kind)
            (private_payment_loop-Pays s recipients) made.0 payment_matrix change_matrix small 0
            shards made.1 b (pos 0) (pos 0)
            (pool-Moved l keys (words + 1) (randoms + size) made.0 made.1 e) e' in
        let (all, change) = finish_build-total l s shards b _ _ prepared m h2 in
        let moved = le_of_eq all in
        let changed = le_of_eq change in (omega (int_laws, moved, changed), change ∙ omega int_laws)
