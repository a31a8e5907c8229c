-- ===== src/Transfer/Conservation/Prepared.antt =====
-- What `prepareTransfer` and `preparePrivateTransfer` of ghost-shard-sdk/src/transaction.ts move in all.
use ghost_shard_protocol.Prelude.{
  ℕ, ◌+◌, ◌≤◌, ◌≡◌, refl, sym, ap, ◌∙◌, List, [], ◌∷◌, ◌++◌, Option, none, some, ok, or_raise,
  length, length-append, Bool-cases, inl, inr, arith, ok-injective, or_raise-ok, Result-bind,
}
use ghost_shard_protocol.Prelude.Int.{ℤ, pos, ◌+ℤ◌, leb_ℤ, sum, int_laws, le_of_eq}
use ghost_shard_protocol.Types.{AssetType, Shard}
use ghost_shard_protocol.Types.Errors.{by_library, undefined_entry}
use ghost_shard_protocol.Types.Hex.{HexString}
use ghost_shard_protocol.Types.Maps.{map_get}
use ghost_shard_protocol.Random.{IsBelowTop, top_word, draw}
use ghost_shard_protocol.Keys.{KeySet}
use ghost_shard_protocol.GasEngine.{TransferCommand}
use ghost_shard_protocol.Transaction.{fuse}
use ghost_shard_protocol.Transfer.{
  Build, Libraries, PoolEntry, Prepared, defined, empty_build, make_change_pool, change_pool_loop,
  shard_implementation, sign_authorization, sign_transfer_command, ghost_router_address,
  token_target,
}
use ghost_shard_protocol.Transfer.Loops.{Setting, unsigned, shard_loop, sign_all, finish_build}
use ghost_shard_protocol.Transfer.Public.{payment_loop, prepare_transfer}
use ghost_shard_protocol.Transfer.Conservation.{total, positives, total-fuse}
use ghost_shard_protocol.Transfer.Conservation.Totals.{Pays, change_of, total-snoc}
use ghost_shard_protocol.Transfer.Conservation.Whole.{
  Moved, row, rows_total, defined-some, shard_loop-Moved,
}

module _ (l : Libraries) where
  sign_all-total :
      (s : Setting) (b : Build) (commands signed : List TransferCommand)
      → sign_all l s b commands ≡ ok signed
      → total signed ≡ total commands
  unfolding sign_all
  sign_all-total s b [] signed h = ap total (sym (ok-injective [] signed h))
  sign_all-total s b (cmd ∷ commands) signed h =
      let (key, _, h1) =
        Result-bind (or_raise (map_get cmd.shard b.private_key_map) by_library) _ signed h in
      let (signature, _, h2) =
        Result-bind
          (sign_transfer_command l key ghost_router_address cmd.shard cmd.asset_type cmd.token
            cmd.to cmd.value s.chain_id b.announcements)
          _ signed h1 in
      let (rest, e, h3) = Result-bind (sign_all l s b commands) _ signed h2 in
      ap total (sym (ok-injective _ signed h3))
      ∙ ap (λ x. cmd.value +ℤ x) (sign_all-total s b commands rest e)

  pub finish_build-total :
      (s : Setting) (shards : List Shard) (b : Build) (amount change : ℤ) (prepared : Prepared)
      → Moved b amount change
      → finish_build l s shards b ≡ ok prepared
      → (total prepared.commands ≡ amount) × (prepared.change_amount ≡ change)
  unfolding finish_build
  finish_build-total s shards b amount change prepared m h =
      let (commands, e, h1) =
        Result-bind (or_raise (defined b.commands) undefined_entry) _ prepared h in
      let (signed, e', h2) = Result-bind (sign_all l s b (fuse commands)) _ prepared h1 in
      let same = ok-injective _ prepared h2 in
      let all_there : m.moved ≡ commands =
        ap (λ o. elim o [ none ↦ m.moved | some x ↦ x ])
          (sym (defined-some m.moved)
            ∙ ap defined (sym m.is_moved)
            ∙ or_raise-ok (defined b.commands) undefined_entry commands e) in
      (
        ap (λ p. total p.commands) (sym same)
            ∙ sign_all-total s b (fuse commands) signed e'
            ∙ total-fuse commands
            ∙ ap total (sym all_there)
            ∙ m.moves,
        ap (λ p. p.change_amount) (sym same) ∙ m.changes,
      )

  pub pool-Moved :
      (keys : KeySet) (words randoms : ℕ) (pool : List PoolEntry) (b : Build)
      → make_change_pool l keys (empty_build words randoms) ≡ ok (pool, b)
      → Moved b (pos 0) (pos 0)
  unfolding make_change_pool sum
  pool-Moved keys words randoms pool b h =
      let (made, _, h1) =
        Result-bind (change_pool_loop l keys (draw l.rng words 4 + 1) randoms []) _ (pool, b) h in
      let same = ok-injective _ (pool, b) h1 in
      record {
        moved = [];
        is_moved = ap (λ x. x.1.commands) (sym same);
        moves = refl;
        changes = ap (λ x. change_of x.1) (sym same);
      }

  -- A payment loop pays the positive amounts.
  payment_loop-Pays : (s : Setting) (to : HexString) → Pays (payment_loop l s to) positives
  unfolding payment_loop
  payment_loop-Pays s to shard key [] b b' local local' h =
      let same = ok-injective (b, local) (b', local') h in
      let totals = le_of_eq (ap (λ x. total x.1) same) in
      (
        omega (int_laws, totals),
        omega (arith, ap (λ x. length x.1) same),
        ap (λ x. x.0.commands) (sym same),
        ap (λ x. x.0.change_shards) (sym same),
      )
  payment_loop-Pays s to shard key (amt ∷ amts) b b' local local' h =
      elim (Bool-cases (leb_ℤ amt (pos 0))) [
        | inl e ↦
            let (t, n, c, g) =
              payment_loop-Pays s to shard key amts b b' local local' (rw e at h) in
            let totals = le_of_eq t in (rw e (omega (int_laws, totals)), omega (arith, n), c, g)
        | inr e ↦
            let (authorization, _, h1) =
              Result-bind (sign_authorization l key shard_implementation s.chain_id 0) _
                (b', local') (rw e at h) in
            let cmd = unsigned s shard to amt authorization in
            let (t, n, c, g) =
              payment_loop-Pays s to shard key amts b b' (local ++ cmd ∷ []) local' h1 in
            let totals = le_of_eq (t ∙ ap (λ x. x +ℤ positives amts) (total-snoc local cmd)) in
            (
              rw e (omega (int_laws, totals)),
              omega (arith, n, length-append local (cmd ∷ [])),
              c,
              g,
            )
      ]

  module _ (below : IsBelowTop l.rng) (payment_matrix change_matrix : List (List ℤ))
      (small : (i : ℕ)
        → length (row payment_matrix i) + length (row change_matrix i) ≤ top_word) where
    -- If no random word is the largest one, the commands of a public transfer move the positive
    -- amounts of the two matrices for its shards, and its change amount is the sum of the positive
    -- amounts of the change matrix for them.
    pub prepare_transfer-total :
        (shards : List Shard) (kind : AssetType) (to : HexString) (token : Option HexString)
        (keys : KeySet) (chain_id words randoms : ℕ) (prepared : Prepared)
        → prepare_transfer l shards kind to token payment_matrix change_matrix keys chain_id words
            randoms
          ≡ ok prepared
        → (total prepared.commands
            ≡ rows_total positives payment_matrix 0 shards +ℤ prepared.change_amount)
          × (prepared.change_amount ≡ rows_total positives change_matrix 0 shards)
    unfolding prepare_transfer
    prepare_transfer-total shards kind to token keys chain_id words randoms prepared h =
        let s : Setting = record {
          keys = keys;
          chain_id = chain_id;
          kind = kind;
          token = token_target token;
        } in
        let (made, e, h1) =
          Result-bind (make_change_pool l keys (empty_build words randoms)) _ prepared h in
        let (b, e', h2) =
          Result-bind
            (shard_loop l s (payment_loop l s to) made.0 payment_matrix change_matrix 0 shards
              made.1)
            _ prepared h1 in
        let m =
          shard_loop-Moved l s below (payment_loop l s to) positives (payment_loop-Pays s to) made.0
            payment_matrix change_matrix small 0 shards made.1 b (pos 0) (pos 0)
            (pool-Moved keys words randoms made.0 made.1 e) e' in
        let (all, change) = finish_build-total s shards b _ _ prepared m h2 in
        let moved = le_of_eq all in
        let changed = le_of_eq change in (omega (int_laws, moved, changed), change ∙ omega int_laws)
