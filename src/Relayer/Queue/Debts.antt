-- ===== src/Relayer/Queue/Debts.antt =====
-- What the relay queue of ghost-services/src/relayer/queue.ts counts as a paymaster's debt.
use ghost_shard_protocol.Prelude.{
  ℕ, ◌≡◌, refl, sym, ap, ◌∙◌, true, false, List, [], ◌∷◌, ◌++◌, map, some, or_else, Bool-cases,
  Option-cases, inl, inr, if◌then◌else◌,
}
use ghost_shard_protocol.Prelude.Int.{ℤ, pos, ◌+ℤ◌}
use ghost_shard_protocol.Types.Hex.{HexString, hex_eq, hex_eq_iff, lower}
use ghost_shard_protocol.Types.Maps.{map_delete, map_set-append, IsFresh, map_get}
use ghost_shard_protocol.Relayer.Escrow.{
  InFlightLock, register_lock, release_lock, debt_of, update_paymaster_debt,
}
use ghost_shard_protocol.Relayer.Escrow.Debts.{
  owed, IsBalanced, IsLockOf, register_lock-IsBalanced, release_lock-IsBalanced,
}
use ghost_shard_protocol.Relayer.Queue.{
  QueueState, QueuedRelay, take_next, enqueue_relay, process_queue, broadcast_done,
  broadcast_failed, settle_success, settle_failure, new_relay, submitted, watcher_done,
}
use ghost_shard_protocol.Relayer.Queue.Reach.{Reached, begun, enqueued, broadcast, refused, watched}

abbrev pub Watchers : Type 0
Watchers = List (HexString × QueuedRelay)

-- What a paymaster has promised for the transactions that are watched.
abbrev pub promised : HexString → Watchers → ℤ
promised p [] = pos 0
promised p ((_, r) ∷ ws) =
    (if hex_eq (lower r.paymaster) p then r.allocated_cost else pos 0) +ℤ promised p ws

-- The lock of a watched transaction.
abbrev pub lock_of : HexString × QueuedRelay → HexString × InFlightLock
lock_of (hash, r) = (
  lower hash,
  record {
    paymaster = lower r.paymaster;
    allocated_cost = r.allocated_cost;
    timestamp = or_else r.submitted_at 0;
  },
)

promised-owed : (p : HexString) (ws : Watchers) → owed p (map lock_of ws) ≡ promised p ws
promised-owed p [] = refl
promised-owed p (w ∷ ws) = ap (◌+ℤ◌ _) (promised-owed p ws)

hex_eq_sym : (a b : HexString) → hex_eq a b ≡ false → hex_eq b a ≡ false
hex_eq_sym a b h = elim (Bool-cases (hex_eq b a)) [
  | inl e ↦ let same = (hex_eq_iff a b).1 (sym ((hex_eq_iff b a).0 e)) in cc
  | inr e ↦ e
]

hex_eq_refl : (a : HexString) → hex_eq a a ≡ true
hex_eq_refl a = (hex_eq_iff a a).1 refl

abbrev pub AreKeys : Watchers → Type 0
AreKeys [] = Unit {0}
AreKeys (w ∷ ws) = IsFresh (lower w.0) (map lock_of ws) × AreKeys ws

IsFresh-append :
    (k : HexString) (ws : Watchers) (w : HexString × QueuedRelay)
    → IsFresh k (map lock_of ws)
    → hex_eq (lower w.0) k ≡ false
    → IsFresh k (map lock_of (ws ++ w ∷ []))
IsFresh-append k [] w h e = (e, tt)
IsFresh-append k (x ∷ ws) w (f, h) e = (f, IsFresh-append k ws w h e)

AreKeys-append :
    (ws : Watchers) (w : HexString × QueuedRelay)
    → AreKeys ws
    → IsFresh (lower w.0) (map lock_of ws)
    → AreKeys (ws ++ w ∷ [])
AreKeys-append [] w k f = (tt, tt)
AreKeys-append (x ∷ ws) w (h, k) (e, f) = (
  IsFresh-append (lower x.0) ws w h (hex_eq_sym (lower x.0) (lower w.0) e),
  AreKeys-append ws w k f,
)

-- A key that is fresh among a list is fresh among the list without one entry, which it is not.
IsFresh-without :
    (k : HexString) (before : Watchers) (w : HexString × QueuedRelay) (after : Watchers)
    → IsFresh k (map lock_of (before ++ w ∷ after))
    → IsFresh k (map lock_of (before ++ after)) × (hex_eq (lower w.0) k ≡ false)
IsFresh-without k [] w after (e, h) = (h, e)
IsFresh-without k (x ∷ before) w after (e, h) =
    let (f, d) = IsFresh-without k before w after h in ((e, f), d)

AreKeys-without :
    (before : Watchers) (w : HexString × QueuedRelay) (after : Watchers)
    → AreKeys (before ++ w ∷ after)
    → AreKeys (before ++ after)
AreKeys-without [] w after (h, k) = k
AreKeys-without (x ∷ before) w after (h, k) =
    ((IsFresh-without (lower x.0) before w after h).0, AreKeys-without before w after k)

-- With one lock per watcher, the release takes out the watcher's own lock.
release_own :
    (before : Watchers) (w : HexString × QueuedRelay) (after : Watchers)
    → AreKeys (before ++ w ∷ after)
    → (map_delete (lower w.0) (map lock_of (before ++ w ∷ after)) ≡ map lock_of (before ++ after))
      × IsLockOf (lower w.0) (lower w.1.paymaster) (map lock_of (before ++ w ∷ after))
unfolding map_delete
release_own [] w after k = (rw (hex_eq_refl (lower w.0)) refl, rw (hex_eq_refl (lower w.0)) refl)
release_own (x ∷ before) w after (h, k) =
    let other =
      hex_eq_sym (lower w.0) (lower x.0) (IsFresh-without (lower x.0) before w after h).1 in
    let (gone, own) = release_own before w after k in
    (rw other (ap (◌∷◌ (lock_of x)) gone), rw other own)

-- One lock for each watched transaction, and every debt the sum of its locks.
pub record IsAccounted (st : QueueState) : Type 0 where
  pub locks : st.escrow.active_in_flight ≡ map lock_of st.watchers
  pub keys : AreKeys st.watchers
  pub balanced : IsBalanced st.escrow

take_next-IsAccounted :
    (st : QueueState) (q : List QueuedRelay) → IsAccounted st → IsAccounted (take_next st q)
take_next-IsAccounted st [] h = record { locks = h.locks; keys = h.keys; balanced = h.balanced }
take_next-IsAccounted st (x ∷ q) h = record {
  locks = h.locks;
  keys = h.keys;
  balanced = h.balanced;
}

map-snoc {ℓ κ} :
    {A : Type ℓ} {B : Type κ} (f : A → B) (xs : List A) (x : A)
    → map f xs ++ f x ∷ [] ≡ map f (xs ++ x ∷ [])
map-snoc f [] x = refl
map-snoc f (y ∷ xs) x = ap (◌∷◌ (f y)) (map-snoc f xs x)

settle_success-IsAccounted :
    (now : ℕ) (hash : HexString) (r : QueuedRelay) (st : QueueState)
    → IsFresh (lower hash) st.escrow.active_in_flight
    → IsAccounted st
    → IsAccounted (settle_success now hash r st)
unfolding register_lock update_paymaster_debt
settle_success-IsAccounted now hash r st fresh h =
    let w : HexString × QueuedRelay =
      (hash, record r { tx_hash = some hash; status = submitted; submitted_at = some now }) in
    record {
      locks =
          map_set-append (lower hash) (lock_of w).1 st.escrow.active_in_flight fresh
          ∙ ap (λ m. m ++ lock_of w ∷ []) h.locks
          ∙ map-snoc lock_of st.watchers w;
      keys = AreKeys-append st.watchers w h.keys (rw h.locks at fresh);
      balanced =
          register_lock-IsBalanced now hash r.paymaster r.allocated_cost st.escrow fresh h.balanced;
    }

watcher_done-IsAccounted :
    (now : ℕ) (before : Watchers) (w : HexString × QueuedRelay) (after : Watchers) (st : QueueState)
    → st.watchers ≡ before ++ w ∷ after
    → IsAccounted st
    → IsAccounted (watcher_done now before w after st)
unfolding release_lock update_paymaster_debt
watcher_done-IsAccounted now before (hash, r) after st e h =
    let locks = h.locks ∙ ap (map lock_of) e in
    let (gone, own) = release_own before (hash, r) after (rw e at h.keys) in
    record {
      locks = ap (map_delete (lower hash)) locks ∙ gone;
      keys = AreKeys-without before (hash, r) after (rw e at h.keys);
      balanced =
          release_lock-IsBalanced hash r.paymaster st.escrow (rw (sym locks) at own) h.balanced;
    }

enqueue_relay-IsAccounted :
    (id now : ℕ) (paymaster : HexString) (cost : ℤ) (st : QueueState)
    → IsAccounted st
    → IsAccounted (enqueue_relay id now paymaster cost st)
unfolding enqueue_relay process_queue
enqueue_relay-IsAccounted id now paymaster cost st h =
    let queue = st.queue ++ new_relay id now paymaster cost ∷ [] in
    elim (Bool-cases st.processing) [
      | inl e ↦ rw e (record { locks = h.locks; keys = h.keys; balanced = h.balanced })
      | inr e ↦ rw e (
          take_next-IsAccounted (record st { queue = queue; processing = true }) queue
            (record { locks = h.locks; keys = h.keys; balanced = h.balanced }))
    ]

Reached-IsAccounted : (sent : List ℕ) (st : QueueState) → Reached sent st → IsAccounted st
unfolding broadcast_done broadcast_failed debt_of map_get
Reached-IsAccounted _ _ begun = record { locks = refl; keys = tt; balanced = λ p. refl }
Reached-IsAccounted _ _ (enqueued {sent} {st} id now paymaster cost r) =
    enqueue_relay-IsAccounted id now paymaster cost st (Reached-IsAccounted sent st r)
Reached-IsAccounted _ _ (broadcast {sent} {st} now hash fresh r) =
    let h = Reached-IsAccounted sent st r in
    elim (Option-cases st.current_entry) [
      | inl e ↦ rw (e, broadcast_done) h
      | inr (x, e) ↦
          rw (e, broadcast_done)
            (take_next-IsAccounted (settle_success now hash x st) st.queue
              (settle_success-IsAccounted now hash x st fresh h))
    ]
Reached-IsAccounted _ _ (refused {sent} {st} now msg r) =
    let h = Reached-IsAccounted sent st r in
    elim (Option-cases st.current_entry) [
      | inl e ↦ rw (e, broadcast_failed) h
      | inr (x, e) ↦
          rw (e, broadcast_failed)
            (take_next-IsAccounted (settle_failure now msg x st) st.queue
              (record { locks = h.locks; keys = h.keys; balanced = h.balanced }))
    ]
Reached-IsAccounted _ _ (watched {sent} {st} now before w after e r) =
    watcher_done-IsAccounted now before w after st e (Reached-IsAccounted sent st r)

-- In every state that the events of the queue lead to, if no broadcast gives the hash of a
-- transaction that is still watched: the accumulated debt of each paymaster is the sum of the costs
-- of the transactions that were broadcast for it and whose watcher has not ended. Relays that wait
-- in the queue or are in progress do not count.
pub Reached-debt :
    (sent : List ℕ) (st : QueueState)
    → Reached sent st
    → (p : HexString) → debt_of p st.escrow ≡ promised p st.watchers
Reached-debt sent st r p =
    let h = Reached-IsAccounted sent st r in
    h.balanced p ∙ ap (owed p) h.locks ∙ promised-owed p st.watchers
