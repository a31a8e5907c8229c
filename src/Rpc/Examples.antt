-- ===== src/Rpc/Examples.antt =====
-- The theorems about the RPC client at concrete inputs.
use ghost_shard_protocol.Prelude.{
  ℕ, zero, suc, ◌+◌, ◌*◌, ◌^◌, ◌≡◌, refl, [], ◌∷◌, some, none, Option, if◌then◌else◌, Result, ok,
  err, length, arith, ◌<◌,
}
use ghost_shard_protocol.Types.Hex.{HexString, hex, hex_eq}
use ghost_shard_protocol.Rpc.{
  retry_with_backoff, fetch_nonces, count_of, flat_counts, chunks_from, with_counts,
  get_transaction_count_batch, batch_call,
}
use ghost_shard_protocol.Rpc.Retries.{waited, retry_with_backoff-first, Fails}
use ghost_shard_protocol.Rpc.Nonces.{AreChecks, fetch_nonces-AreChecks}

-- Two failures, then a value.
abbrev calls : ℕ → Result (Unit {0}) ℕ
calls zero = err tt
calls (suc zero) = err tt
calls (suc (suc n)) = ok n

retry_run : retry_with_backoff calls 3 1000 ≡ (ok 0, 1000 ∷ 2000 ∷ [])
unfolding retry_with_backoff
retry_run = refl

retry_with_backoff-first_example :
    ((retry_with_backoff calls 3 1000).0 ≡ ok 0)
    × (length (retry_with_backoff calls 3 1000).1 ≡ 2)
    × (waited (retry_with_backoff calls 3 1000).1 + 1000 ≡ 1000 * 2 ^ 2)
retry_with_backoff-first_example =
    retry_with_backoff-first calls 3 1000 2 (omega arith) failures (λ _. (0, refl))
  where
    failures : (j : ℕ) → j < 2 → Fails calls j
    failures zero h = (tt, refl)
    failures (suc zero) h = (tt, refl)
    failures (suc (suc j)) h = absurd (omega arith)

-- The request fails for one address.
abbrev answer_of : HexString → Option HexString
answer_of address = if hex_eq address (hex "0xb2") then none else some address

fetch_nonces_run :
    fetch_nonces (λ s. some (length s)) answer_of (hex "0xa1" ∷ hex "0xb2" ∷ [])
    ≡ record { address = hex "0xa1"; nonce = some 4 }
      ∷ record { address = hex "0xb2"; nonce = some 0 }
      ∷ []
unfolding fetch_nonces flat_counts chunks_from with_counts get_transaction_count_batch count_of
    batch_call hex_eq
fetch_nonces_run = refl

fetch_nonces-AreChecks_example :
    AreChecks
      (λ s. some (length s))
      answer_of
      (hex "0xa1" ∷ hex "0xb2" ∷ [])
      (fetch_nonces (λ s. some (length s)) answer_of (hex "0xa1" ∷ hex "0xb2" ∷ []))
fetch_nonces-AreChecks_example =
    fetch_nonces-AreChecks (λ s. some (length s)) answer_of (hex "0xa1" ∷ hex "0xb2" ∷ [])
