-- ===== src/ShardStore/Refinement.antt =====
-- The store of ghost-shard-sdk/src/shard.ts as a map from addresses to shards: every method that changes
-- the shards, on the store and on the map.
use ghost_shard_protocol.Prelude.{
  ◌≡◌, refl, ap, sym, ◌∙◌, true, false, List, [], ◌∷◌, Option, none, some, if◌then◌else◌, not, find,
  filter, Bool-cases, inl, inr,
}
use mathlib.Core.Path.{fun_ext}
use ghost_shard_protocol.Types.{Shard}
use ghost_shard_protocol.Types.Hex.{HexString}
use ghost_shard_protocol.Viem.{AddressEq, is_address_equal-congr, is_address_equal_sym}
use ghost_shard_protocol.ShardStore.{
  ShardStore, get, add, add_many, remove_many, has_address, confirm_failed, mark_pending,
  set_pending,
}
use ghost_shard_protocol.ShardStore.Lookup.{
  or_new, is_at, with_pending, get-find, get-add, get-remove_many, get-mark_pending,
  get-confirm_failed,
}

-- A call of a method.
pub data StoreCall : Type 0 where
  call_add : Shard → StoreCall
  call_add_many : List Shard → StoreCall
  call_mark_pending : List HexString → StoreCall
  call_remove_many : List HexString → StoreCall
  call_confirm_failed : List HexString → Option HexString → StoreCall

-- The abstract store: what is found at an address.
abbrev pub ShardMap : Type 0
ShardMap = HexString → Option Shard

module _ (v : AddressEq) where
  unfoldable pub run_call : StoreCall → ShardStore → ShardStore
  run_call (call_add s) st = add v s st
  run_call (call_add_many ss) st = add_many v ss st
  run_call (call_mark_pending addresses) st = mark_pending v addresses st
  run_call (call_remove_many addresses) st = remove_many v addresses st
  run_call (call_confirm_failed addresses change) st = confirm_failed v addresses change st

  unfoldable pub run_calls : List StoreCall → ShardStore → ShardStore
  unfolding run_call
  run_calls [] st = st
  run_calls (c ∷ cs) st = run_calls cs (run_call c st)

  -- What `confirmFailed` does to what is found: the mark is cleared at the given addresses, and
  -- nothing is left at the change address, unless it is empty.
  abbrev pub without : Option HexString → HexString → Option Shard → Option Shard
  without none a o = o
  without (some []) a o = o
  without (some (c ∷ cs)) a o = if v.is_address_equal a (c ∷ cs) then none else o

  -- The calls on the map: an addition fills an empty place, a removal empties the places given.
  abbrev pub add_to_map : Shard → ShardMap → ShardMap
  add_to_map s m a =
      or_new v (m a) (if is_at v a s then some (record s { pending = false }) else none)

  abbrev pub add_many_to_map : List Shard → ShardMap → ShardMap
  add_many_to_map [] m = m
  add_many_to_map (s ∷ ss) m = add_many_to_map ss (add_to_map s m)

  abbrev pub map_call : StoreCall → ShardMap → ShardMap
  map_call (call_add s) m = add_to_map s m
  map_call (call_add_many ss) m = add_many_to_map ss m
  map_call (call_mark_pending addresses) m =
      λ a. with_pending v (has_address v addresses a) true (m a)
  map_call (call_remove_many addresses) m = λ a. if has_address v addresses a then none else m a
  map_call (call_confirm_failed addresses change) m =
      λ a. without change a (with_pending v (has_address v addresses a) false (m a))

  abbrev pub map_calls : List StoreCall → ShardMap → ShardMap
  map_calls [] m = m
  map_calls (c ∷ cs) m = map_calls cs (map_call c m)

  -- The map that a store stands for.
  abbrev pub map_of : ShardStore → ShardMap
  map_of st a = get v a st

  find-drop :
      (c a : HexString) (xs : List Shard)
      → find (is_at v a) (filter (λ s. not (v.is_address_equal s.address c)) xs)
        ≡ (if v.is_address_equal a c then none else find (is_at v a) xs)
  find-drop c a [] = elim (Bool-cases (v.is_address_equal a c)) [
    | inl e ↦ rw e refl
    | inr e ↦ rw e refl
  ]
  find-drop c a (x ∷ xs) =
      let ih = find-drop c a xs in
      elim (Bool-cases (is_at v a x)) [
        | inl e ↦
            let same : v.is_address_equal x.address c ≡ v.is_address_equal a c =
              is_address_equal_sym v x.address c
              ∙ is_address_equal-congr v x.address a c e
              ∙ is_address_equal_sym v c a in
            elim (Bool-cases (v.is_address_equal a c)) [
              | inl f ↦ rw (same, f) (ih ∙ rw f refl)
              | inr f ↦ rw (same, f, e) refl
            ]
        | inr e ↦ elim (Bool-cases (v.is_address_equal x.address c)) [
          | inl f ↦ rw (f, e) ih
          | inr f ↦ rw (f, e) ih
        ]
      ]

  map_of-confirm_failed :
      (addresses : List HexString) (change : Option HexString) (st : ShardStore) (a : HexString)
      → get v a (confirm_failed v addresses change st)
        ≡ without change a (with_pending v (has_address v addresses a) false (get v a st))
  unfolding confirm_failed
  map_of-confirm_failed addresses none st a = get-confirm_failed v addresses st a
  map_of-confirm_failed addresses (some []) st a = get-confirm_failed v addresses st a
  map_of-confirm_failed addresses (some (c ∷ cs)) st a =
      rw (get-find v a (confirm_failed v addresses (some (c ∷ cs)) st)) (
        find-drop (c ∷ cs) a (set_pending v false addresses st.shards)
        ∙ ap (λ o. if v.is_address_equal a (c ∷ cs) then none else o)
            (sym (get-find v a (confirm_failed v addresses none st))
              ∙ get-confirm_failed v addresses st a))

  map_of-add_many :
      (ss : List Shard) (st : ShardStore)
      → map_of (add_many v ss st) ≡ add_many_to_map ss (map_of st)
  unfolding add_many
  map_of-add_many [] st = refl
  map_of-add_many (s ∷ ss) st =
      map_of-add_many ss (add v s st) ∙ ap (add_many_to_map ss) (fun_ext (get-add v s st))

  map_of-run_call :
      (c : StoreCall) (st : ShardStore) → map_of (run_call c st) ≡ map_call c (map_of st)
  unfolding run_call
  map_of-run_call (call_add s) st = fun_ext (get-add v s st)
  map_of-run_call (call_add_many ss) st = map_of-add_many ss st
  map_of-run_call (call_mark_pending addresses) st = fun_ext (get-mark_pending v addresses st)
  map_of-run_call (call_remove_many addresses) st = fun_ext (get-remove_many v addresses st)
  map_of-run_call (call_confirm_failed addresses change) st =
      fun_ext (map_of-confirm_failed addresses change st)

  -- After any sequence of calls of the methods that change the shards, `get` finds at every address
  -- what the same calls leave there in the map that the store stood for.
  pub map_of-run_calls :
      (cs : List StoreCall) (st : ShardStore) → map_of (run_calls cs st) ≡ map_calls cs (map_of st)
  unfolding run_calls
  map_of-run_calls [] st = refl
  map_of-run_calls (c ∷ cs) st =
      map_of-run_calls cs (run_call c st) ∙ ap (map_calls cs) (map_of-run_call c st)
