-- ===== src/ShardStore/Pending.antt =====
-- A transaction's shards while it is pending: what may still be spent, and what a failure brings back.
use ghost_shard_protocol.Prelude.{
  ◌≡◌, refl, ap, Bool, true, false, not, ◌&&◌, List, [], ◌∷◌, none, filter, All, Bool-cases, inl,
  inr, sym,
}
use ghost_shard_protocol.Types.{Shard}
use ghost_shard_protocol.Types.Hex.{HexString}
use ghost_shard_protocol.Viem.{AddressEq}
use ghost_shard_protocol.ShardStore.{
  ShardStore, get_unspent, has_address, set_pending, mark_pending, confirm_failed,
}

abbrev pub is_free : Shard → Bool
is_free s = not s.spent && not s.pending

is_free-pending : (s : Shard) → is_free (record s { pending = true }) ≡ false
is_free-pending s = elim (Bool-cases s.spent) [ inl e ↦ rw e refl | inr e ↦ rw e refl ]

module _ (v : AddressEq) (addresses : List HexString) where
  free-set_pending :
      (ss : List Shard)
      → filter is_free (set_pending v true addresses ss)
        ≡ filter (λ s. not (has_address v addresses s.address)) (filter is_free ss)
  unfolding set_pending
  free-set_pending [] = refl
  free-set_pending (s ∷ ss) =
      let ih = free-set_pending ss in
      elim (Bool-cases (has_address v addresses s.address)) [
        | inl e ↦ elim (Bool-cases (is_free s)) [
          | inl f ↦ rw (e, is_free-pending s, f) (rw e ih)
          | inr f ↦ rw (e, is_free-pending s, f) ih
        ]
        | inr e ↦ elim (Bool-cases (is_free s)) [
          | inl f ↦ rw (e, f) (rw e (ap (◌∷◌ s) ih))
          | inr f ↦ rw (e, f) ih
        ]
      ]

  -- What may be spent after shards are marked as pending is what might be spent before, less the
  -- shards at the marked addresses.
  pub get_unspent-mark_pending :
      (st : ShardStore)
      → get_unspent (mark_pending v addresses st)
        ≡ filter (λ s. not (has_address v addresses s.address)) (get_unspent st)
  unfolding get_unspent mark_pending
  get_unspent-mark_pending st = free-set_pending st.shards

  -- None of the shards at the addresses is pending.
  abbrev pub AreIdle : ShardStore → Type 0
  AreIdle st = All (λ s. (has_address v addresses s.address && s.pending) ≡ false) st.shards

  set_pending-set_pending :
      (ss : List Shard)
      → All (λ s. (has_address v addresses s.address && s.pending) ≡ false) ss
      → set_pending v false addresses (set_pending v true addresses ss) ≡ ss
  unfolding set_pending
  set_pending-set_pending [] h = refl
  set_pending-set_pending (s ∷ ss) (h, hs) =
      let ih = set_pending-set_pending ss hs in
      elim (Bool-cases (has_address v addresses s.address)) [
        | inl e ↦ rw (e, e, ih) (ap (λ b. record s { pending = b } ∷ ss) (sym (rw e at h)))
        | inr e ↦ rw (e, e, ih) refl
      ]

  -- To mark shards as pending that are not, and then to report the failure, restores the store.
  pub confirm_failed-mark_pending :
      (st : ShardStore)
      → AreIdle st
      → confirm_failed v addresses none (mark_pending v addresses st) ≡ st
  unfolding confirm_failed mark_pending
  confirm_failed-mark_pending st h =
      ap (λ ss. record st { shards = ss }) (set_pending-set_pending st.shards h)
