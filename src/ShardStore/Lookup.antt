-- ===== src/ShardStore/Lookup.antt =====
-- What `get` finds after each operation that changes the store.
use ghost_shard_protocol.Prelude.{
  ◌≡◌, refl, ap, sym, ◌∙◌, Bool, true, false, not, List, [], ◌∷◌, ◌++◌, Option, none, some, any,
  find, filter, Bool-cases, inl, inr, if◌then◌else◌, Option-cases,
}
use ghost_shard_protocol.Types.{Shard}
use ghost_shard_protocol.Types.Hex.{HexString}
use ghost_shard_protocol.Viem.{AddressEq, is_address_equal-congr}
use ghost_shard_protocol.ShardStore.{
  ShardStore, get, add, remove_many, has_address, confirm_failed, mark_pending, set_pending,
}
use ghost_shard_protocol.ShardStore.Copies.{clone_shard-same}

module _ (v : AddressEq) where
  abbrev pub is_at : HexString → Shard → Bool
  is_at a s = v.is_address_equal s.address a

  -- `get` without the copy.
  pub get-find : (a : HexString) (st : ShardStore) → get v a st ≡ find (is_at a) st.shards
  unfolding get
  get-find a st = elim (Option-cases (find (is_at a) st.shards)) [
    | inl e ↦ rw (e, get) refl
    | inr (s, e) ↦ rw (e, get) (ap some (clone_shard-same s))
  ]

  abbrev pub or_new : Option Shard → Option Shard → Option Shard
  or_new none o = o
  or_new (some s) o = some s

  or_new-none : (o : Option Shard) → o ≡ or_new o none
  or_new-none none = refl
  or_new-none (some s) = refl

  find-append :
      (p : Shard → Bool) (xs ys : List Shard) → find p (xs ++ ys) ≡ or_new (find p xs) (find p ys)
  find-append p [] ys = refl
  find-append p (x ∷ xs) ys = elim (Bool-cases (p x)) [
    | inl e ↦ rw e refl
    | inr e ↦ rw e (find-append p xs ys)
  ]

  -- Two equal addresses find the same.
  find-congr :
      (a b : HexString) (xs : List Shard)
      → v.is_address_equal a b ≡ true
      → find (is_at a) xs ≡ find (is_at b) xs
  find-congr a b [] h = refl
  find-congr a b (x ∷ xs) h =
      rw (is_address_equal-congr v a b x.address h, find-congr a b xs h) refl

  find-some :
      (p : Shard → Bool) (xs : List Shard) → any p xs ≡ true → (s : Shard) × (find p xs ≡ some s)
  find-some p [] h = cc
  find-some p (x ∷ xs) h = elim (Bool-cases (p x)) [
    | inl e ↦ (x, rw e refl)
    | inr e ↦ rw e (find-some p xs (rw e at h))
  ]

  -- What is found after an addition: what was there before, and otherwise the new shard, not
  -- pending, at its own address. A shard whose address is in the store already changes nothing.
  pub get-add :
      (shard : Shard) (st : ShardStore) (a : HexString)
      → get v a (add v shard st)
        ≡ or_new
            (get v a st)
            (if is_at a shard then some (record shard { pending = false }) else none)
  unfolding add
  get-add shard st a =
      let fresh = record shard { pending = false } in
      rw (get-find a (add v shard st), get-find a st)
        (elim (Bool-cases (any (is_at shard.address) st.shards)) [
          | inl e ↦ rw e (elim (Bool-cases (is_at a shard)) [
            | inl f ↦
                let (s, found) = find-some (is_at shard.address) st.shards e in
                rw (f, sym (find-congr shard.address a st.shards f), found) refl
            | inr f ↦ rw f (or_new-none (find (is_at a) st.shards))
          ])
          | inr e ↦ rw (e, clone_shard-same shard) (find-append (is_at a) st.shards (fresh ∷ []))
        ])

  has_address-congr :
      (addresses : List HexString) (a b : HexString)
      → v.is_address_equal a b ≡ true
      → has_address v addresses a ≡ has_address v addresses b
  unfolding has_address
  has_address-congr [] a b h = refl
  has_address-congr (x ∷ xs) a b h =
      rw (is_address_equal-congr v a b x h, has_address-congr xs a b h) refl

  find-filter :
      (addresses : List HexString) (a : HexString) (xs : List Shard)
      → find (is_at a) (filter (λ s. not (has_address v addresses s.address)) xs)
        ≡ (if has_address v addresses a then none else find (is_at a) xs)
  find-filter addresses a [] = elim (Bool-cases (has_address v addresses a)) [
    | inl e ↦ rw e refl
    | inr e ↦ rw e refl
  ]
  find-filter addresses a (x ∷ xs) =
      let ih = find-filter addresses a xs in
      elim (Bool-cases (is_at a x)) [
        | inl e ↦
            let same = has_address-congr addresses x.address a e in
            elim (Bool-cases (has_address v addresses a)) [
              | inl f ↦ rw (same, f) (ih ∙ rw f refl)
              | inr f ↦ rw (same, f, e) refl
            ]
        | inr e ↦ elim (Bool-cases (has_address v addresses x.address)) [
          | inl f ↦ rw (f, e) ih
          | inr f ↦ rw (f, e) ih
        ]
      ]

  -- Removal takes out the shards at the given addresses, and no other.
  pub get-remove_many :
      (addresses : List HexString) (st : ShardStore) (a : HexString)
      → get v a (remove_many v addresses st)
        ≡ (if has_address v addresses a then none else get v a st)
  unfolding remove_many
  get-remove_many addresses st a =
      rw (get-find a (remove_many v addresses st), get-find a st)
        (find-filter addresses a st.shards)

  abbrev pub with_pending : Bool → Bool → Option Shard → Option Shard
  with_pending hit b none = none
  with_pending hit b (some s) = some (if hit then record s { pending = b } else s)

  find-set_pending :
      (b : Bool) (addresses : List HexString) (a : HexString) (xs : List Shard)
      → find (is_at a) (set_pending v b addresses xs)
        ≡ with_pending (has_address v addresses a) b (find (is_at a) xs)
  unfolding set_pending
  find-set_pending b addresses a [] = refl
  find-set_pending b addresses a (x ∷ xs) =
      let ih = find-set_pending b addresses a xs in
      elim (Bool-cases (is_at a x)) [
        | inl e ↦
            let same = has_address-congr addresses x.address a e in
            elim (Bool-cases (has_address v addresses a)) [
              | inl f ↦ rw (same, f, e) refl
              | inr f ↦ rw (same, f, e) refl
            ]
        | inr e ↦ elim (Bool-cases (has_address v addresses x.address)) [
          | inl f ↦ rw (f, e) ih
          | inr f ↦ rw (f, e) ih
        ]
      ]

  -- Marking as pending keeps every shard, and marks those at the given addresses and no other.
  pub get-mark_pending :
      (addresses : List HexString) (st : ShardStore) (a : HexString)
      → get v a (mark_pending v addresses st)
        ≡ with_pending (has_address v addresses a) true (get v a st)
  unfolding mark_pending
  get-mark_pending addresses st a =
      rw (get-find a (mark_pending v addresses st), get-find a st)
        (find-set_pending true addresses a st.shards)

  -- The report of a failure without a change address keeps every shard, and clears the mark of those
  -- at the given addresses and no other.
  pub get-confirm_failed :
      (addresses : List HexString) (st : ShardStore) (a : HexString)
      → get v a (confirm_failed v addresses none st)
        ≡ with_pending (has_address v addresses a) false (get v a st)
  unfolding confirm_failed
  get-confirm_failed addresses st a =
      rw (get-find a (confirm_failed v addresses none st), get-find a st)
        (find-set_pending false addresses a st.shards)
