-- ===== src/Rpc.antt =====
-- The RPC client of ghost-shard-sdk/src/rpc.ts: the retries, and the batches of nonces and logs. What a
-- call of the network gives is an argument.
pub mod Retries
pub mod Nonces
mod Examples
use ghost_shard_protocol.Prelude.{
  ℕ, zero, suc, ◌+◌, ◌*◌, ◌^◌, ◌/◌, List, [], ◌∷◌, ◌++◌, map, Option, none, some, Result, ok, err,
  length, take, drop, get_elem?, or_else, Bool,
}
use ghost_shard_protocol.Types.Hex.{HexString}
use ghost_shard_protocol.Discovery.{AnnouncementLog, keep, parse_log}

-- `retryWithBackoff`, from an attempt on, with the retries left. `calls i` is what the i-th call of
-- the function gives. The result comes with the delays waited for.
unfoldable pub retry_from {ℓ} :
    {E : Type 0} {A : Type ℓ} → (ℕ → Result E A) → ℕ → ℕ → ℕ → Result E A × List ℕ
retry_from calls base zero attempt = (calls attempt, [])
retry_from calls base (suc left) attempt =
    let rest = retry_from calls base left (suc attempt) in
    elim (calls attempt) [ ok a ↦ (ok a, []) | err e ↦ (rest.0, base * 2 ^ attempt ∷ rest.1) ]

unfoldable pub retry_with_backoff {ℓ} :
    {E : Type 0} {A : Type ℓ} → (ℕ → Result E A) → ℕ → ℕ → Result E A × List ℕ
unfolding retry_from
retry_with_backoff calls max_retries base_delay_ms = retry_from calls base_delay_ms max_retries 0

-- `NonceCheck` of types.ts; no number stands for NaN.
pub record NonceCheck : Type 0 where
  pub address : HexString
  pub nonce : Option ℕ

abbrev pub batch_chunk_size : ℕ
batch_chunk_size = 300

-- `batchCall` for one method: a request that fails gives `undefined`.
unfoldable pub batch_call :
    (HexString → Option HexString) → List HexString → List (Option HexString)
batch_call request params = map request params

-- `parseInt(r, 16)` is a parameter, which may give NaN.
module _ (parse_hex : HexString → Option ℕ) (request : HexString → Option HexString) where
  -- A result that is `undefined` or empty counts as 0.
  unfoldable pub count_of : Option HexString → Option ℕ
  count_of none = some 0
  count_of (some []) = some 0
  count_of (some (x ∷ s)) = parse_hex (x ∷ s)

  unfoldable pub get_transaction_count_batch : List HexString → List (Option ℕ)
  unfolding count_of batch_call
  get_transaction_count_batch addresses = map count_of (batch_call request addresses)

  -- The addresses of a chunk with the counts at their indices, from index `i`.
  unfoldable pub with_counts : List (Option ℕ) → ℕ → List HexString → List NonceCheck
  with_counts counts i [] = []
  with_counts counts i (address ∷ addresses) =
      record { address = address; nonce = or_else (get_elem? counts i) (some 0) }
      ∷ with_counts counts (suc i) addresses

  -- `addresses.slice(i * size, (i + 1) * size)` for the indices from `i` on, with the chunks left.
  unfoldable pub chunks_from : ℕ → ℕ → List HexString → List (List HexString)
  chunks_from zero i addresses = []
  chunks_from (suc left) i addresses =
      take batch_chunk_size (drop (i * batch_chunk_size) addresses)
      ∷ chunks_from left (suc i) addresses

  unfoldable pub flat_counts : List (List HexString) → List NonceCheck
  unfolding with_counts get_transaction_count_batch
  flat_counts [] = []
  flat_counts (chunk ∷ chunks) =
      with_counts (get_transaction_count_batch chunk) 0 chunk ++ flat_counts chunks

  -- `Math.ceil(n / 300)` chunks.
  unfoldable pub fetch_nonces : List HexString → List NonceCheck
  unfolding chunks_from flat_counts
  fetch_nonces [] = []
  fetch_nonces (address ∷ addresses) =
      let all = address ∷ addresses in flat_counts (chunks_from ((length all + 299) / 300) 0 all)

-- `fetchAnnouncements`, for the logs that `getLogs` gives for the one topic, decoded, or throws: then
-- there are none.
unfoldable pub fetch_announcements :
    (HexString → ℕ)
    → (HexString → Bool)
    → Option (List (Option (HexString × HexString)))
    → List AnnouncementLog
fetch_announcements size is_hex none = []
fetch_announcements size is_hex (some logs) = keep (parse_log size is_hex) logs
