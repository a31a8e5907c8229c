-- ===== src/Relayer/Queue/Order.antt =====
-- The order in which the queue of ghost-services/src/relayer/queue.ts settles its relays.
use mathlib.Core.List.{append_assoc}
use ghost_shard_protocol.Prelude.{
  ℕ, ◌≡◌, refl, sym, ap, ◌∙◌, Bool, true, false, List, [], ◌∷◌, ◌++◌, map, Option, none, some,
  Bool-cases, Option-cases, inl, inr,
}
use ghost_shard_protocol.Prelude.Int.{ℤ}
use ghost_shard_protocol.Types.Hex.{HexString}
use ghost_shard_protocol.Relayer.Queue.{
  QueueState, QueuedRelay, take_next, enqueue_relay, process_queue, new_relay, broadcast_done,
  broadcast_failed, settle_success, settle_failure, Settlement,
}
use ghost_shard_protocol.Relayer.Queue.Reach.{Reached, begun, enqueued, broadcast, refused, watched}

abbrev pub ids : List QueuedRelay → List ℕ
ids q = map (λ r. r.id) q

abbrev pub current_ids : Option QueuedRelay → List ℕ
current_ids none = []
current_ids (some r) = r.id ∷ []

-- The relays settled, then the one in progress, then those that wait.
abbrev pub in_order : QueueState → List ℕ
in_order st = map (λ s. s.0.id) st.settled ++ (current_ids st.current_entry ++ ids st.queue)

-- While the queue is processed one relay is in progress; otherwise none is, and none waits.
abbrev pub IsLive : Bool → Option QueuedRelay → List QueuedRelay → Type 0
IsLive true (some r) q = Unit {0}
IsLive true none q = ⊥
IsLive false none [] = Unit {0}
IsLive false none (x ∷ q) = ⊥
IsLive false (some r) q = ⊥

pub record IsOrdered (sent : List ℕ) (st : QueueState) : Type 0 where
  pub order : in_order st ≡ sent
  pub live : IsLive st.processing st.current_entry st.queue

take_next-IsOrdered :
    (sent : List ℕ) (st : QueueState) (q : List QueuedRelay)
    → st.current_entry ≡ none
    → st.processing ≡ true
    → map (λ s. s.0.id) st.settled ++ ids q ≡ sent
    → IsOrdered sent (take_next st q)
take_next-IsOrdered sent st [] n p h = record { order = rw n h; live = rw n tt }
take_next-IsOrdered sent st (x ∷ q) n p h = record { order = h; live = rw p tt }

map-append {ℓ κ} :
    {A : Type ℓ} {B : Type κ} (f : A → B) (xs ys : List A) → map f (xs ++ ys) ≡ map f xs ++ map f ys
map-append f [] ys = refl
map-append f (x ∷ xs) ys = ap (◌∷◌ (f x)) (map-append f xs ys)

assoc3 : (a b c d : List ℕ) → a ++ (b ++ (c ++ d)) ≡ (a ++ (b ++ c)) ++ d
assoc3 a b c d = rw (append_assoc a (b ++ c) d, append_assoc b c d) refl

IsLive-longer :
    (c : Option QueuedRelay) (q q' : List QueuedRelay) → IsLive true c q → IsLive true c q'
IsLive-longer none q q' h = h
IsLive-longer (some r) q q' h = tt

IsLive-idle :
    (c : Option QueuedRelay) (q : List QueuedRelay) → IsLive false c q → (c ≡ none) × (q ≡ [])
IsLive-idle none [] h = (refl, refl)
IsLive-idle none (x ∷ q) h = absurd h
IsLive-idle (some r) q h = absurd h

enqueue_relay-IsOrdered :
    (sent : List ℕ) (id now : ℕ) (paymaster : HexString) (cost : ℤ) (st : QueueState)
    → IsOrdered sent st
    → IsOrdered (sent ++ id ∷ []) (enqueue_relay id now paymaster cost st)
unfolding enqueue_relay process_queue
enqueue_relay-IsOrdered sent id now paymaster cost st h =
    let x = new_relay id now paymaster cost in
    let settled = map (λ s. s.0.id) st.settled in
    let longer : settled ++ (current_ids st.current_entry ++ ids (st.queue ++ x ∷ []))
        ≡ sent ++ id ∷ [] =
      ap (λ l. settled ++ (current_ids st.current_entry ++ l))
        (map-append (λ r. r.id) st.queue (x ∷ []))
      ∙ assoc3 settled (current_ids st.current_entry) (ids st.queue) (id ∷ [])
      ∙ ap (λ l. l ++ id ∷ []) h.order in
    elim (Bool-cases st.processing) [
      | inl e ↦ rw e (record {
        order = longer;
        live = IsLive-longer st.current_entry st.queue (st.queue ++ x ∷ []) (rw e at h.live);
      })
      | inr e ↦
          let (c, q) = IsLive-idle st.current_entry st.queue (rw e at h.live) in
          rw (e, q)
            (take_next-IsOrdered (sent ++ id ∷ []) (record st { queue = x ∷ []; processing = true })
              (x ∷ []) c refl (rw (c, q) at longer))
    ]

-- With no relay in progress nothing is settled; otherwise the relay goes to the settled ones.
settle-IsOrdered :
    (sent : List ℕ) (st st' : QueueState) (r r' : QueuedRelay) (s : Settlement)
    → IsOrdered sent st
    → st.current_entry ≡ some r
    → r'.id ≡ r.id
    → st'.processing ≡ true
    → st'.current_entry ≡ none
    → st'.settled ≡ st.settled ++ (r', s) ∷ []
    → IsOrdered sent (take_next st' st.queue)
settle-IsOrdered sent st st' r r' s h c same p n log = take_next-IsOrdered sent st' st.queue n p (
    ap (λ l. map (λ x. x.0.id) l ++ ids st.queue) log
    ∙ ap (λ l. l ++ ids st.queue) (map-append (λ x. x.0.id) st.settled ((r', s) ∷ []))
    ∙ append_assoc (map (λ x. x.0.id) st.settled) (r'.id ∷ []) (ids st.queue)
    ∙ (rw (sym same) at (rw c at h.order)))

IsLive-busy :
    (st : QueueState) (r : QueuedRelay)
    → IsLive st.processing st.current_entry st.queue
    → st.current_entry ≡ some r
    → st.processing ≡ true
IsLive-busy st r h c = elim (Bool-cases st.processing) [
  | inl e ↦ e
  | inr e ↦ absurd (rw (e, c) at h)
]

broadcast_done-IsOrdered :
    (sent : List ℕ) (now : ℕ) (hash : HexString) (st : QueueState)
    → IsOrdered sent st
    → IsOrdered sent (broadcast_done now hash st)
unfolding broadcast_done
broadcast_done-IsOrdered sent now hash st h = elim (Option-cases st.current_entry) [
  | inl e ↦ rw (e, broadcast_done) h
  | inr (r, e) ↦
      rw (e, broadcast_done)
        (settle-IsOrdered sent st (settle_success now hash r st) r _ _ h e refl
          (IsLive-busy st r h.live e) refl refl)
]

broadcast_failed-IsOrdered :
    (sent : List ℕ) (now : ℕ) (msg : HexString) (st : QueueState)
    → IsOrdered sent st
    → IsOrdered sent (broadcast_failed now msg st)
unfolding broadcast_failed
broadcast_failed-IsOrdered sent now msg st h = elim (Option-cases st.current_entry) [
  | inl e ↦ rw (e, broadcast_failed) h
  | inr (r, e) ↦
      rw (e, broadcast_failed)
        (settle-IsOrdered sent st (settle_failure now msg r st) r _ _ h e refl
          (IsLive-busy st r h.live e) refl refl)
]

-- The queue is first in, first out: in every state that its events lead to, the relays settled, the
-- relay in progress and the relays that wait are, in this order, the relays enqueued; a relay waits
-- only while another one is in progress, and one is in progress exactly while the queue is processed.
pub Reached-IsOrdered : (sent : List ℕ) (st : QueueState) → Reached sent st → IsOrdered sent st
Reached-IsOrdered _ _ begun = record { order = refl; live = tt }
Reached-IsOrdered _ _ (enqueued {sent} {st} id now paymaster cost r) =
    enqueue_relay-IsOrdered sent id now paymaster cost st (Reached-IsOrdered sent st r)
Reached-IsOrdered _ _ (broadcast {sent} {st} now hash fresh r) =
    broadcast_done-IsOrdered sent now hash st (Reached-IsOrdered sent st r)
Reached-IsOrdered _ _ (refused {sent} {st} now msg r) =
    broadcast_failed-IsOrdered sent now msg st (Reached-IsOrdered sent st r)
Reached-IsOrdered _ _ (watched {sent} {st} now before w after e r) =
    let h = Reached-IsOrdered sent st r in record { order = h.order; live = h.live }
