-- ===== src/Relayer/Queue.antt =====
-- The transaction queue of ghost-services/src/relayer/queue.ts. Between two `await`s the code runs
-- without interruption, so the state moves by three kinds of events: a relay is enqueued, the
-- broadcast in progress ends, and a receipt watcher ends. The functions here are the code that runs
-- at each event. Times and identifiers are given by the caller.
pub mod Reach
pub mod Order
pub mod Debts
use ghost_shard_protocol.Prelude.{
  ℕ, Bool, true, false, List, [], ◌∷◌, ◌++◌, Option, none, some, if◌then◌else◌, length,
}
use ghost_shard_protocol.Prelude.Int.{ℤ}
use ghost_shard_protocol.Types.Hex.{HexString, lower}
use ghost_shard_protocol.Relayer.Escrow.{Escrow, register_lock, release_lock}

pub data RelayStatus : Type 0 where
  pending submitting submitted confirmed failed : RelayStatus

pub record QueuedRelay : Type 0 where
  pub id : ℕ
  pub paymaster : HexString
  pub allocated_cost : ℤ
  pub tx_hash : Option HexString
  pub status : RelayStatus
  pub queued_at : ℕ
  pub submitted_at : Option ℕ
  pub completed_at : Option ℕ
  pub error : Option HexString

-- What the promise of `enqueueRelay` gives.
pub data Settlement : Type 0 where
  resolved : HexString → Settlement
  rejected : HexString → Settlement

-- The module's variables, the receipt watchers that run (the hash, and the relay), the promises
-- settled so far and the relays whose watcher has ended, oldest first.
pub record QueueState : Type 0 where
  pub queue : List QueuedRelay
  pub processing : Bool
  pub current_entry : Option QueuedRelay
  pub escrow : Escrow
  pub watchers : List (HexString × QueuedRelay)
  pub settled : List (QueuedRelay × Settlement)
  pub completed : List QueuedRelay

-- The head of the loop of `processQueue`, up to the call of `execute`; or its end.
abbrev pub take_next : QueueState → List QueuedRelay → QueueState
take_next st [] = record st { processing = false; queue = [] }
take_next st (entry ∷ rest) = record st {
  queue = rest;
  current_entry = some (record entry { status = submitting });
}

unfoldable pub process_queue : QueueState → QueueState
process_queue st =
    if st.processing then st else take_next (record st { processing = true }) st.queue

abbrev pub new_relay : ℕ → ℕ → HexString → ℤ → QueuedRelay
new_relay id now paymaster cost = record {
  id = id;
  paymaster = lower paymaster;
  allocated_cost = cost;
  tx_hash = none;
  status = pending;
  queued_at = now;
  submitted_at = none;
  completed_at = none;
  error = none;
}

unfoldable pub enqueue_relay : ℕ → ℕ → HexString → ℤ → QueueState → QueueState
unfolding process_queue
enqueue_relay id now paymaster cost st =
    process_queue (record st { queue = st.queue ++ new_relay id now paymaster cost ∷ [] })

-- The rest of the loop's body once `execute` has given a hash.
abbrev pub settle_success : ℕ → HexString → QueuedRelay → QueueState → QueueState
settle_success now hash entry st =
    let relay = record entry { tx_hash = some hash; status = submitted; submitted_at = some now } in
    record st {
      current_entry = none;
      escrow = register_lock now hash relay.paymaster relay.allocated_cost st.escrow;
      watchers = st.watchers ++ (hash, relay) ∷ [];
      settled = st.settled ++ (relay, resolved hash) ∷ [];
    }

-- And once it has thrown.
abbrev pub settle_failure : ℕ → HexString → QueuedRelay → QueueState → QueueState
settle_failure now msg entry st =
    let relay = record entry { status = failed; completed_at = some now; error = some msg } in
    record st { current_entry = none; settled = st.settled ++ (relay, rejected msg) ∷ [] }

-- The event of `execute` ending: the rest of the body, and the head of the loop again.
unfoldable pub broadcast_done : ℕ → HexString → QueueState → QueueState
broadcast_done now hash st = elim st.current_entry [
  | none ↦ st
  | some entry ↦ take_next (settle_success now hash entry st) st.queue
]

unfoldable pub broadcast_failed : ℕ → HexString → QueueState → QueueState
broadcast_failed now msg st = elim st.current_entry [
  | none ↦ st
  | some entry ↦ take_next (settle_failure now msg entry st) st.queue
]

-- The end of one of the watchers: a receipt and the timeout both mark the relay as confirmed and
-- release its lock. (An error outside the polling's own `try` would release the lock, too.)
abbrev pub watcher_done :
    ℕ
    → List (HexString × QueuedRelay)
    → HexString × QueuedRelay
    → List (HexString × QueuedRelay)
    → QueueState
    → QueueState
watcher_done now before (hash, relay) after st = record st {
  watchers = before ++ after;
  completed = st.completed ++ record relay { status = confirmed; completed_at = some now } ∷ [];
  escrow = release_lock hash relay.paymaster st.escrow;
}

-- The module's variables when it is loaded.
abbrev pub start : QueueState
start = record {
  queue = [];
  processing = false;
  current_entry = none;
  escrow = record { active_in_flight = []; paymaster_debt_accumulator = [] };
  watchers = [];
  settled = [];
  completed = [];
}

-- `getQueueStatus`
pub record QueueStatus : Type 0 where
  pub queue_length : ℕ
  pub processing : Bool
  pub current : Option QueuedRelay
  pub pending : List QueuedRelay

unfoldable pub get_queue_status : QueueState → QueueStatus
get_queue_status st = record {
  queue_length = length st.queue;
  processing = st.processing;
  current = st.current_entry;
  pending = st.queue;
}
