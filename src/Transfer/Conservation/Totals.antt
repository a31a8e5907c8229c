-- ===== src/Transfer/Conservation/Totals.antt =====
-- The totals that the loops of ghost-shard-sdk/src/transaction.ts over payments, change and shards add.
use ghost_shard_protocol.Prelude.{
  ◌+◌, ◌≤◌, ◌≡◌, sym, ap, ◌∙◌, List, [], ◌∷◌, ◌++◌, map, ok, or_raise, length, length-append,
  Bool-cases, inl, inr, arith, get_elem?, ok-injective, Result-bind,
}
use ghost_shard_protocol.Prelude.Int.{ℤ, pos, ◌+ℤ◌, leb_ℤ, sum, int_laws, le_of_eq}
use ghost_shard_protocol.Types.Bytes.{Bytes}
use ghost_shard_protocol.Types.Errors.{by_library, undefined_entry}
use ghost_shard_protocol.Types.Hex.{HexString}
use ghost_shard_protocol.Random.{draw}
use ghost_shard_protocol.Keys.{compute_shared_secret}
use ghost_shard_protocol.GasEngine.{TransferCommand}
use ghost_shard_protocol.Transfer.{
  Build, Libraries, PoolEntry, shard_implementation, sign_authorization, tracked, announcement_of,
  ChangeOutput,
}
use ghost_shard_protocol.Transfer.Loops.{
  PaymentLoop, Setting, unsigned, with_change, track_change, change_loop,
}
use ghost_shard_protocol.Transfer.Conservation.{total, positives, total-append}

-- The change that a state has recorded.
abbrev pub change_of : Build → ℤ
change_of b = sum (map (λ out. out.amount) b.change_shards)

pub total-snoc :
    (xs : List TransferCommand) (cmd : TransferCommand)
    → total (xs ++ cmd ∷ []) ≡ total xs +ℤ cmd.value
total-snoc xs cmd = let e = le_of_eq (total-append xs (cmd ∷ [])) in omega (int_laws, e)

change-snoc :
    (xs : List ChangeOutput) (out : ChangeOutput)
    → sum (map (λ o. o.amount) (xs ++ out ∷ [])) ≡ sum (map (λ o. o.amount) xs) +ℤ out.amount
unfolding sum
change-snoc [] out = omega int_laws
change-snoc (x ∷ xs) out = let ih = le_of_eq (change-snoc xs out) in omega (int_laws, ih)

-- What a loop over payments does: the local commands move `paid` of the amounts more, there are at
-- most as many more as there are amounts, and neither the commands nor the change of the state are
-- touched.
abbrev pub Pays : PaymentLoop → (List ℤ → ℤ) → Type 0
Pays pay paid =
    (shard : HexString) (key : Bytes) (amts : List ℤ) (b b' : Build)
    (local local' : List TransferCommand)
    → pay shard key amts b local ≡ ok (b', local')
    → (total local' ≡ total local +ℤ paid amts)
      × (length local' ≤ length local + length amts)
      × (b'.commands ≡ b.commands)
      × (b'.change_shards ≡ b.change_shards)

module _ (l : Libraries) (s : Setting) where
  track_change-same :
      (target : PoolEntry) (amt : ℤ) (b b' : Build)
      → track_change l s target amt b ≡ ok b'
      → (b'.commands ≡ b.commands) × (b'.change_shards ≡ b.change_shards)
  unfolding track_change
  track_change-same target amt b b' h =
      elim (Bool-cases (tracked target.stealth_address b.announcements)) [
        | inl e ↦
            let same = ok-injective b b' (rw e at h) in
            (ap (λ x. x.commands) (sym same), ap (λ x. x.change_shards) (sym same))
        | inr e ↦
            let (authorization, _, h1) =
              Result-bind
                (sign_authorization l target.private_key shard_implementation s.chain_id 0) _ b'
                (rw e at h) in
            let (ephemeral, _, h2) =
              Result-bind (or_raise (l.codec.hex_to_bytes target.ephemeral_pub_key) by_library) _ b'
                h1 in
            let (secret, _, h3) =
              Result-bind
                (compute_shared_secret l.hashes l.curve s.keys.viewing_private_key ephemeral) _ b'
                h2 in
            let (announcement, _, h4) =
              Result-bind
                (announcement_of l s.kind s.token secret target.stealth_address
                  target.ephemeral_pub_key amt)
                _ b' h3 in
            let same = ok-injective _ b' h4 in
            (ap (λ x. x.commands) (sym same), ap (λ x. x.change_shards) (sym same))
      ]

  pub change_loop-total :
      (pool : List PoolEntry) (shard : HexString) (key : Bytes) (amts : List ℤ) (b b' : Build)
      (local local' : List TransferCommand)
      → change_loop l s pool shard key amts b local ≡ ok (b', local')
      → (total local' ≡ total local +ℤ positives amts)
        × (length local' ≤ length local + length amts)
        × (b'.commands ≡ b.commands)
        × (change_of b' ≡ change_of b +ℤ positives amts)
  unfolding change_loop
  change_loop-total pool shard key [] b b' local local' h =
      let same = ok-injective (b, local) (b', local') h in
      let locals : local ≡ local' = ap (λ x. x.1) same in
      let changes = le_of_eq (ap (λ x. change_of x.0) same) in
      let totals = le_of_eq (ap total locals) in
      (
        omega (int_laws, totals),
        omega (arith, ap length locals),
        ap (λ x. x.0.commands) (sym same),
        omega (int_laws, changes),
      )
  change_loop-total pool shard key (amt ∷ amts) b b' local local' h =
      elim (Bool-cases (leb_ℤ amt (pos 0))) [
        | inl e ↦
            let (t, n, c, g) =
              change_loop-total pool shard key amts b b' local local' (rw e at h) in
            let totals = le_of_eq t in
            let changes = le_of_eq g in
            (rw e (omega (int_laws, totals)), omega (arith, n), c, rw e (omega (int_laws, changes)))
        | inr e ↦
            let (target, _, h1) =
              Result-bind
                (or_raise (get_elem? pool (draw l.rng b.words (length pool))) undefined_entry) _
                (b', local') (rw e at h) in
            let (authorization, _, h2) =
              Result-bind (sign_authorization l key shard_implementation s.chain_id 0) _
                (b', local') h1 in
            let (b2, tracks, h3) =
              Result-bind (track_change l s target amt (with_change target amt b)) _ (b', local')
                h2 in
            let cmd = unsigned s shard target.stealth_address amt authorization in
            let (same_commands, same_change) =
              track_change-same target amt (with_change target amt b) b2 tracks in
            let (t, n, c, g) =
              change_loop-total pool shard key amts b2 b' (local ++ cmd ∷ []) local' h3 in
            let totals = le_of_eq (t ∙ ap (λ x. x +ℤ positives amts) (total-snoc local cmd)) in
            let out : ChangeOutput = record {
              address = target.stealth_address;
              ephemeral_pub_key = target.ephemeral_pub_key;
              amount = amt;
            } in
            let step : change_of b2 ≡ change_of b +ℤ amt =
              ap (λ x. sum (map (λ o. o.amount) x)) same_change ∙ change-snoc b.change_shards out in
            let changes = le_of_eq (g ∙ ap (λ x. x +ℤ positives amts) step) in
            (
              rw e (omega (int_laws, totals)),
              omega (arith, n, length-append local (cmd ∷ [])),
              c ∙ same_commands,
              rw e (omega (int_laws, changes)),
            )
      ]
