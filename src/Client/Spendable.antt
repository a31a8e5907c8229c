-- ===== src/Client/Spendable.antt =====
-- What the wallet may spend once a prepared transaction is recorded (`confirmPrepared` of
-- ghost-shard-sdk/src/index.ts).
use mathlib.Core.List.{append_assoc, append-nil}
use ghost_shard_protocol.Prelude.{
  ◌≡◌, refl, sym, ap, ◌∙◌, Bool, false, not, List, [], ◌∷◌, ◌++◌, map, none, any, find, filter, All,
  Bool-cases, inl, inr,
}
use ghost_shard_protocol.Types.{Shard, TransferRequest}
use ghost_shard_protocol.Types.Hex.{HexString}
use ghost_shard_protocol.Viem.{AddressEq, is_address_equal_sym}
use ghost_shard_protocol.ShardStore.{ShardStore, get, add, mark_pending, has_address, get_unspent}
use ghost_shard_protocol.ShardStore.Copies.{clone_shard-same}
use ghost_shard_protocol.ShardStore.Lookup.{is_at, get-find, get-add, get-mark_pending}
use ghost_shard_protocol.ShardStore.Pending.{is_free, get_unspent-mark_pending}
use ghost_shard_protocol.ShardStore.Distinct.{IsNew, IsDistinct}
use ghost_shard_protocol.Client.{ChangeOutput, change_shard, add_change, confirm_prepared}

filter-append :
    (p : Shard → Bool) (xs ys : List Shard) → filter p (xs ++ ys) ≡ filter p xs ++ filter p ys
filter-append p [] ys = refl
filter-append p (x ∷ xs) ys = elim (Bool-cases (p x)) [
  | inl e ↦ rw e (ap (◌∷◌ x) (filter-append p xs ys))
  | inr e ↦ rw e (filter-append p xs ys)
]

find-none : (p : Shard → Bool) (xs : List Shard) → find p xs ≡ none → any p xs ≡ false
find-none p [] h = refl
find-none p (x ∷ xs) h = elim (Bool-cases (p x)) [
  | inl e ↦ let bad = rw e at h in cc
  | inr e ↦ rw e (find-none p xs (rw e at h))
]

module _ (v : AddressEq) (request : TransferRequest) where
  -- No output's address is in the store.
  abbrev pub AreAbsent : List ChangeOutput → ShardStore → Type 0
  AreAbsent outs st = All (λ o. get v o.address st ≡ none) outs

  -- No two outputs have the same address.
  abbrev pub AreDistinct : List ChangeOutput → Type 0
  AreDistinct outs = IsDistinct v (map (change_shard request) outs)

  add-unspent :
      (out : ChangeOutput) (st : ShardStore)
      → get v out.address st ≡ none
      → get_unspent (add v (change_shard request out) st)
        ≡ get_unspent st ++ change_shard request out ∷ []
  unfolding add get_unspent change_shard
  add-unspent out st h =
      let absent =
        find-none (is_at v out.address) st.shards (sym (get-find v out.address st) ∙ h) in
      rw (absent, clone_shard-same (change_shard request out))
        (filter-append is_free st.shards (change_shard request out ∷ []))

  absent-add :
      (out : ChangeOutput) (outs : List ChangeOutput) (st : ShardStore)
      → AreAbsent outs st
      → IsNew v out.address (map (change_shard request) outs)
      → AreAbsent outs (add v (change_shard request out) st)
  unfolding change_shard
  absent-add out [] st h n = tt
  absent-add out (o ∷ outs) st (h, hs) (n, ns) = (
    get-add v (change_shard request out) st o.address
        ∙ rw (h, is_address_equal_sym v out.address o.address, n) refl,
    absent-add out outs st hs ns,
  )

  add_change-unspent :
      (outs : List ChangeOutput) (st : ShardStore)
      → AreAbsent outs st
      → AreDistinct outs
      → get_unspent (add_change v request outs st)
        ≡ get_unspent st ++ map (change_shard request) outs
  unfolding add_change change_shard
  add_change-unspent [] st h d = sym (append-nil (get_unspent st))
  add_change-unspent (out ∷ outs) st (h, hs) (n, d) =
      add_change-unspent outs (add v (change_shard request out) st) (absent-add out outs st hs n) d
      ∙ ap (λ l. l ++ map (change_shard request) outs) (add-unspent out st h)
      ∙ append_assoc (get_unspent st) (change_shard request out ∷ [])
          (map (change_shard request) outs)

  absent-mark_pending :
      (inputs : List HexString) (outs : List ChangeOutput) (st : ShardStore)
      → AreAbsent outs st
      → AreAbsent outs (mark_pending v inputs st)
  absent-mark_pending inputs [] st h = tt
  absent-mark_pending inputs (o ∷ outs) st (h, hs) =
      (get-mark_pending v inputs st o.address ∙ rw h refl, absent-mark_pending inputs outs st hs)

  -- If the change addresses are new and all different, then after `confirmPrepared` the wallet may
  -- spend what it might spend before, less the shards at the addresses of the transaction's inputs,
  -- and the change.
  pub get_unspent-confirm_prepared :
      (inputs : List HexString) (outs : List ChangeOutput) (st : ShardStore)
      → AreAbsent outs st
      → AreDistinct outs
      → get_unspent (
          confirm_prepared v (record { shard_addresses = inputs; change_shards = outs }) request st)
        ≡ filter (λ s. not (has_address v inputs s.address)) (get_unspent st)
          ++ map (change_shard request) outs
  unfolding confirm_prepared
  get_unspent-confirm_prepared inputs outs st h d =
      add_change-unspent outs (mark_pending v inputs st) (absent-mark_pending inputs outs st h) d
      ∙ ap (λ l. l ++ map (change_shard request) outs) (get_unspent-mark_pending v inputs st)
