-- ===== src/Transfer/Conservation/Whole.antt =====
-- The totals of whole transfers of ghost-shard-sdk/src/transaction.ts.
use ghost_shard_protocol.Prelude.{
  ℕ, suc, ◌+◌, ◌≤◌, ◌≡◌, refl, sym, ap, ◌∙◌, List, [], ◌∷◌, ◌++◌, map, some, Result, ok, or_raise,
  length, arith, get_elem?, or_else, ok-injective, or_raise-ok, Result-bind,
}
use ghost_shard_protocol.Prelude.Int.{ℤ, pos, ◌+ℤ◌, sum, int_laws, le_of_eq}
use ghost_shard_protocol.Types.{Shard}
use ghost_shard_protocol.Types.Errors.{Thrown, undefined_entry}
use ghost_shard_protocol.Types.Maps.{map_set}
use ghost_shard_protocol.Random.{IsBelowTop, top_word, shuffle}
use ghost_shard_protocol.Random.Shuffling.{shuffle-Perm}
use ghost_shard_protocol.Keys.{derive_shard_private_key_from_announcement}
use ghost_shard_protocol.GasEngine.{TransferCommand}
use ghost_shard_protocol.Transfer.{
  Build, Libraries, PoolEntry, defined, shard_implementation, sign_authorization,
}
use ghost_shard_protocol.Transfer.Loops.{PaymentLoop, Setting, change_loop, shard_step, shard_loop}
use ghost_shard_protocol.Transfer.Conservation.{total, positives, total-append, total-Perm}
use ghost_shard_protocol.Transfer.Conservation.Totals.{Pays, change_of, change_loop-total}

-- A row of a matrix, and what the rows of the shards add up to, from index `i`.
abbrev pub row : List (List ℤ) → ℕ → List ℤ
row matrix i = or_else (get_elem? matrix i) []

abbrev pub rows_total : (List ℤ → ℤ) → List (List ℤ) → ℕ → List Shard → ℤ
rows_total worth matrix i [] = pos 0
rows_total worth matrix i (shard ∷ shards) =
    worth (row matrix i) +ℤ rows_total worth matrix (suc i) shards

pub defined-some : (xs : List TransferCommand) → defined (map some xs) ≡ some xs
unfolding defined
defined-some [] = refl
defined-some (x ∷ xs) = rw (defined-some xs) refl

map-append : (xs ys : List TransferCommand) → map some xs ++ map some ys ≡ map some (xs ++ ys)
map-append [] ys = refl
map-append (x ∷ xs) ys = ap (◌∷◌ (some x)) (map-append xs ys)

-- The state's commands are all there, and move an amount; its change is another.
pub record Moved (b : Build) (amount change : ℤ) : Type 0 where
  pub moved : List TransferCommand
  pub is_moved : b.commands ≡ map some moved
  pub moves : total moved ≡ amount
  pub changes : change_of b ≡ change

module _ (l : Libraries) (s : Setting) (below : IsBelowTop l.rng) where
  -- The end of the body of the loop over the shards.
  shuffled-Moved :
      (b changed b' : Build) (amount change x y : ℤ) (local : List TransferCommand)
      → Moved b amount change
      → changed.commands ≡ b.commands
      → total local ≡ x
      → change_of changed ≡ change +ℤ y
      → length local ≤ top_word
      → Path
          (Result Thrown Build)
          (ok (record changed {
            commands = changed.commands ++ (shuffle l.rng (map some local) changed.words).0;
            words = (shuffle l.rng (map some local) changed.words).1;
          }))
          (ok b')
      → Moved b' (amount +ℤ x) (change +ℤ y)
  shuffled-Moved b changed b' amount change x y local m c t g n h =
      let (ys, shuffled, p) = shuffle-Perm l.rng below local changed.words n in
      let same = ok-injective _ b' h in
      let commands : b'.commands ≡ map some (m.moved ++ ys) =
        ap (λ z. z.commands) (sym same)
        ∙ ap (λ z. z ++ (shuffle l.rng (map some local) changed.words).0) (c ∙ m.is_moved)
        ∙ ap (λ z. map some m.moved ++ z) shuffled
        ∙ map-append m.moved ys in
      let parts = le_of_eq (total-append m.moved ys) in
      let kept = le_of_eq (total-Perm ys local p ∙ t) in
      let before = le_of_eq m.moves in
      record {
        moved = m.moved ++ ys;
        is_moved = commands;
        moves = omega (int_laws, parts, kept, before);
        changes = ap change_of (sym same) ∙ g;
      }

  module _ (pay : PaymentLoop) (paid : List ℤ → ℤ) (law : Pays pay paid) (pool : List PoolEntry)
      (payment_matrix change_matrix : List (List ℤ))
      (small : (i : ℕ)
        → length (row payment_matrix i) + length (row change_matrix i) ≤ top_word) where
    shard_step-Moved :
        (i : ℕ) (shard : Shard) (b b' : Build) (amount change : ℤ)
        → Moved b amount change
        → shard_step l s pay pool payment_matrix change_matrix i shard b ≡ ok b'
        → Moved b'
            (amount +ℤ (paid (row payment_matrix i) +ℤ positives (row change_matrix i)))
            (change +ℤ positives (row change_matrix i))
    unfolding shard_step
    shard_step-Moved i shard b b' amount change m h =
        let (key, _, h1) =
          Result-bind
            (derive_shard_private_key_from_announcement l.hashes l.curve l.codec
              s.keys.spending_private_key s.keys.viewing_private_key shard.ephemeral_pub_key)
            _ b' h in
        let (authorization, _, h2) =
          Result-bind (sign_authorization l key shard_implementation s.chain_id 0) _ b' h1 in
        let (payments, e1, h3) =
          Result-bind (or_raise (get_elem? payment_matrix i) undefined_entry) _ b' h2 in
        let start = record b {
          private_key_map = map_set shard.address (l.signing.to_hex key) b.private_key_map;
          authorizations = b.authorizations ++ authorization ∷ [];
        } in
        let (paid_state, e2, h4) = Result-bind (pay shard.address key payments start []) _ b' h3 in
        let (changes, e3, h5) =
          Result-bind (or_raise (get_elem? change_matrix i) undefined_entry) _ b' h4 in
        let (changed, e4, h6) =
          Result-bind (change_loop l s pool shard.address key changes paid_state.0 paid_state.1) _
            b' h5 in
        let pay_row : payments ≡ row payment_matrix i =
          ap (λ o. or_else o [])
            (sym (or_raise-ok (get_elem? payment_matrix i) undefined_entry payments e1)) in
        let change_row : changes ≡ row change_matrix i =
          ap (λ o. or_else o [])
            (sym (or_raise-ok (get_elem? change_matrix i) undefined_entry changes e3)) in
        let (t1, n1, c1, g1) =
          law shard.address key payments start paid_state.0 [] paid_state.1 e2 in
        let (t2, n2, c2, g2) =
          change_loop-total l s pool shard.address key changes paid_state.0 changed.0 paid_state.1
            changed.1 e4 in
        let a = le_of_eq (t1 ∙ ap (λ x. pos 0 +ℤ paid x) pay_row) in
        let d = le_of_eq (t2 ∙ ap (λ x. total paid_state.1 +ℤ positives x) change_row) in
        let e = le_of_eq (g2 ∙ ap (λ x. change_of paid_state.0 +ℤ positives x) change_row) in
        let f = le_of_eq (ap (λ x. sum (map (λ o. o.amount) x)) g1 ∙ m.changes) in
        shuffled-Moved b changed.0 b' amount change
          (paid (row payment_matrix i) +ℤ positives (row change_matrix i))
          (positives (row change_matrix i)) changed.1 m (c2 ∙ c1) (omega (int_laws, a, d))
          (omega (int_laws, e, f))
          (omega (arith, n1, n2, small i, ap length pay_row, ap length change_row)) h6

    pub shard_loop-Moved :
        (i : ℕ) (shards : List Shard) (b b' : Build) (amount change : ℤ)
        → Moved b amount change
        → shard_loop l s pay pool payment_matrix change_matrix i shards b ≡ ok b'
        → Moved b'
            (amount
              +ℤ (rows_total paid payment_matrix i shards
                  +ℤ rows_total positives change_matrix i shards))
            (change +ℤ rows_total positives change_matrix i shards)
    unfolding shard_loop
    shard_loop-Moved i [] b b' amount change m h =
        let same = ok-injective b b' h in
        let moves = le_of_eq m.moves in
        let changes = le_of_eq m.changes in
        record {
          moved = m.moved;
          is_moved = ap (λ x. x.commands) (sym same) ∙ m.is_moved;
          moves = omega (int_laws, moves);
          changes = ap change_of (sym same) ∙ omega (int_laws, changes);
        }
    shard_loop-Moved i (shard ∷ shards) b b' amount change m h =
        let (b1, e, h') =
          Result-bind (shard_step l s pay pool payment_matrix change_matrix i shard b) _ b' h in
        let m1 = shard_step-Moved i shard b b1 amount change m e in
        let m2 = shard_loop-Moved (suc i) shards b1 b' _ _ m1 h' in
        let moves = le_of_eq m2.moves in
        let changes = le_of_eq m2.changes in
        record {
          moved = m2.moved;
          is_moved = m2.is_moved;
          moves = omega (int_laws, moves);
          changes = omega (int_laws, changes);
        }
