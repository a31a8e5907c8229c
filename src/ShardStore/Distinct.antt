-- ===== src/ShardStore/Distinct.antt =====
-- The addresses of the shards in a store (ghost-shard-sdk/src/shard.ts), in the stores that the methods
-- can reach.
use ghost_shard_protocol.Prelude.{
  none, some, ◌≡◌, refl, map, ◌∙◌, Bool, true, false, not, List, [], ◌∷◌, ◌++◌, Option, any, filter,
  All, Bool-cases, inl, inr, All-append, some,
}
use ghost_shard_protocol.Types.{Shard}
use ghost_shard_protocol.Types.Hex.{HexString}
use ghost_shard_protocol.Viem.{AddressEq, is_address_equal_sym}
use ghost_shard_protocol.ShardStore.{
  ShardStore, new_store, add, add_many, mark_pending, remove_many, confirm_failed, set_pending,
  has_address, import_state, PersistedState, clone_shard, drop_change, ℤ, set_last_synced_block,
}
use ghost_shard_protocol.ShardStore.Copies.{clone_shard-same}

module _ (v : AddressEq) where
  -- The shard has another address than each of the others.
  abbrev pub IsNew : HexString → List Shard → Type 0
  IsNew a ss = All (λ s. v.is_address_equal s.address a ≡ false) ss

  abbrev pub IsDistinct : List Shard → Type 0
  IsDistinct [] = Unit {0}
  IsDistinct (s ∷ ss) = IsNew s.address ss × IsDistinct ss

  IsNew-none :
      (a : HexString) (ss : List Shard)
      → any (λ s. v.is_address_equal s.address a) ss ≡ false
      → IsNew a ss
  IsNew-none a [] h = tt
  IsNew-none a (s ∷ ss) h = elim (Bool-cases (v.is_address_equal s.address a)) [
    | inl e ↦ let bad = rw e at h in cc
    | inr e ↦ (e, IsNew-none a ss (rw e at h))
  ]

  IsDistinct-snoc :
      (ss : List Shard) (s : Shard) → IsDistinct ss → IsNew s.address ss → IsDistinct (ss ++ s ∷ [])
  IsDistinct-snoc [] s d n = (tt, tt)
  IsDistinct-snoc (x ∷ ss) s (new, d) (e, n) = (
    All-append (λ y. v.is_address_equal y.address x.address ≡ false) ss (s ∷ []) new
        (is_address_equal_sym v s.address x.address ∙ e, tt),
    IsDistinct-snoc ss s d n,
  )

  IsNew-filter :
      (p : Shard → Bool) (a : HexString) (ss : List Shard) → IsNew a ss → IsNew a (filter p ss)
  IsNew-filter p a [] n = tt
  IsNew-filter p a (s ∷ ss) (e, n) = elim (Bool-cases (p s)) [
    | inl f ↦ rw f (e, IsNew-filter p a ss n)
    | inr f ↦ rw f (IsNew-filter p a ss n)
  ]

  IsDistinct-filter :
      (p : Shard → Bool) (ss : List Shard) → IsDistinct ss → IsDistinct (filter p ss)
  IsDistinct-filter p [] d = tt
  IsDistinct-filter p (s ∷ ss) (n, d) = elim (Bool-cases (p s)) [
    | inl f ↦ rw f (IsNew-filter p s.address ss n, IsDistinct-filter p ss d)
    | inr f ↦ rw f (IsDistinct-filter p ss d)
  ]

  IsNew-set_pending :
      (b : Bool) (addresses : List HexString) (a : HexString) (ss : List Shard)
      → IsNew a ss
      → IsNew a (set_pending v b addresses ss)
  unfolding set_pending
  IsNew-set_pending b addresses a [] n = tt
  IsNew-set_pending b addresses a (s ∷ ss) (e, n) =
      let ih = IsNew-set_pending b addresses a ss n in
      elim (Bool-cases (has_address v addresses s.address)) [
        | inl f ↦ rw f (e, ih)
        | inr f ↦ rw f (e, ih)
      ]

  IsDistinct-set_pending :
      (b : Bool) (addresses : List HexString) (ss : List Shard)
      → IsDistinct ss
      → IsDistinct (set_pending v b addresses ss)
  unfolding set_pending
  IsDistinct-set_pending b addresses [] d = tt
  IsDistinct-set_pending b addresses (s ∷ ss) (n, d) =
      let ih = IsDistinct-set_pending b addresses ss d in
      let new = IsNew-set_pending b addresses s.address ss n in
      elim (Bool-cases (has_address v addresses s.address)) [
        | inl f ↦ rw f (new, ih)
        | inr f ↦ rw f (new, ih)
      ]

  add-IsDistinct :
      (s : Shard) (st : ShardStore) → IsDistinct st.shards → IsDistinct (add v s st).shards
  unfolding add
  add-IsDistinct s st d =
      elim (Bool-cases (any (λ t. v.is_address_equal t.address s.address) st.shards)) [
        | inl e ↦ rw e d
        | inr e ↦
            rw (e, clone_shard-same s)
              (IsDistinct-snoc st.shards (record s { pending = false }) d
                (IsNew-none s.address st.shards e))
      ]

  add_many-IsDistinct :
      (ss : List Shard) (st : ShardStore)
      → IsDistinct st.shards
      → IsDistinct (add_many v ss st).shards
  unfolding add_many
  add_many-IsDistinct [] st d = d
  add_many-IsDistinct (s ∷ ss) st d = add_many-IsDistinct ss (add v s st) (add-IsDistinct s st d)

  drop_change-IsDistinct :
      (change : Option HexString) (ss : List Shard)
      → IsDistinct ss
      → IsDistinct (drop_change v change ss)
  drop_change-IsDistinct none ss d = d
  drop_change-IsDistinct (some []) ss d = d
  drop_change-IsDistinct (some (c ∷ cs)) ss d =
      IsDistinct-filter (λ s. not (v.is_address_equal s.address (c ∷ cs))) ss d

  -- What the methods make of a new store, with the states that were imported on the way: a call of a
  -- method is a step, and an import takes any state.
  pub data Reachable : List PersistedState → ShardStore → Type 0 where
    start : Reachable [] new_store
    after_add :
        {imports : List PersistedState} {st : ShardStore} (s : Shard)
        → Reachable imports st
        → Reachable imports (add v s st)
    after_add_many :
        {imports : List PersistedState} {st : ShardStore} (ss : List Shard)
        → Reachable imports st
        → Reachable imports (add_many v ss st)
    after_mark_pending :
        {imports : List PersistedState} {st : ShardStore} (addresses : List HexString)
        → Reachable imports st
        → Reachable imports (mark_pending v addresses st)
    after_remove_many :
        {imports : List PersistedState} {st : ShardStore} (addresses : List HexString)
        → Reachable imports st
        → Reachable imports (remove_many v addresses st)
    after_confirm_failed :
        {imports : List PersistedState} {st : ShardStore} (addresses : List HexString)
        (change : Option HexString)
        → Reachable imports st
        → Reachable imports (confirm_failed v addresses change st)
    after_set_last_synced_block :
        {imports : List PersistedState} {st : ShardStore} (n : ℤ)
        → Reachable imports st
        → Reachable imports (set_last_synced_block n st)
    after_import :
        {imports : List PersistedState} {st : ShardStore} (state : PersistedState)
        → Reachable imports st
        → Reachable (state ∷ imports) (import_state state)

  map_clone : (ss : List Shard) → map clone_shard ss ≡ ss
  map_clone [] = refl
  map_clone (s ∷ ss) = rw (clone_shard-same s, map_clone ss) refl

  -- In every store that the methods reach from the empty one, no two shards have the same address, as
  -- long as that holds of each state that is imported on the way.
  pub Reachable-IsDistinct :
      (imports : List PersistedState) (st : ShardStore)
      → All (λ state. IsDistinct state.shards) imports
      → Reachable imports st
      → IsDistinct st.shards
  unfolding mark_pending remove_many confirm_failed import_state
  Reachable-IsDistinct _ _ d start = tt
  Reachable-IsDistinct _ _ d (after_add {imports} {st} s r) =
      add-IsDistinct s st (Reachable-IsDistinct imports st d r)
  Reachable-IsDistinct _ _ d (after_add_many {imports} {st} ss r) =
      add_many-IsDistinct ss st (Reachable-IsDistinct imports st d r)
  Reachable-IsDistinct _ _ d (after_mark_pending {imports} {st} addresses r) =
      IsDistinct-set_pending true addresses st.shards (Reachable-IsDistinct imports st d r)
  Reachable-IsDistinct _ _ d (after_remove_many {imports} {st} addresses r) =
      IsDistinct-filter (λ s. not (has_address v addresses s.address)) st.shards
        (Reachable-IsDistinct imports st d r)
  Reachable-IsDistinct _ _ d (after_confirm_failed {imports} {st} addresses change r) =
      drop_change-IsDistinct change (set_pending v false addresses st.shards)
        (IsDistinct-set_pending false addresses st.shards (Reachable-IsDistinct imports st d r))
  Reachable-IsDistinct _ _ d (after_set_last_synced_block {imports} {st} n r) =
      Reachable-IsDistinct imports st d r
  Reachable-IsDistinct _ _ d (after_import state r) = rw (map_clone state.shards) d.0
