-- ===== src/Relayer/Queue/Reach.antt =====
-- The runs of the relay queue of ghost-services/src/relayer/queue.ts: the states that its events
-- lead to, with the relays enqueued so far.
use ghost_shard_protocol.Prelude.{ℕ, ◌≡◌, List, [], ◌∷◌, ◌++◌}
use ghost_shard_protocol.Prelude.Int.{ℤ}
use ghost_shard_protocol.Types.Hex.{HexString, lower}
use ghost_shard_protocol.Types.Maps.{IsFresh}
use ghost_shard_protocol.Relayer.Queue.{
  QueueState, QueuedRelay, start, enqueue_relay, broadcast_done, broadcast_failed, watcher_done,
}

-- A transaction hash is never one of a transaction that is still in flight.
pub data Reached : List ℕ → QueueState → Type 0 where
  begun : Reached [] start
  enqueued :
      {sent : List ℕ} {st : QueueState} (id now : ℕ) (paymaster : HexString) (cost : ℤ)
      → Reached sent st
      → Reached (sent ++ id ∷ []) (enqueue_relay id now paymaster cost st)
  broadcast :
      {sent : List ℕ} {st : QueueState} (now : ℕ) (hash : HexString)
      → IsFresh (lower hash) st.escrow.active_in_flight
      → Reached sent st
      → Reached sent (broadcast_done now hash st)
  refused :
      {sent : List ℕ} {st : QueueState} (now : ℕ) (msg : HexString)
      → Reached sent st
      → Reached sent (broadcast_failed now msg st)
  watched :
      {sent : List ℕ} {st : QueueState} (now : ℕ) (before : List (HexString × QueuedRelay))
      (w : HexString × QueuedRelay) (after : List (HexString × QueuedRelay))
      → st.watchers ≡ before ++ w ∷ after
      → Reached sent st
      → Reached sent (watcher_done now before w after st)
