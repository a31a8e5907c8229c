-- ===== src/Client/Spent.antt =====
-- `syncSpentShards` of ghost-shard-sdk/src/index.ts. What Multicall3 answers to a call for a chunk of
-- addresses, and the decoding of one answer, are arguments; none stands for an exception.
pub mod Reported
use ghost_shard_protocol.Prelude.{
  ℕ, zero, suc, ◌+◌, Bool, true, false, List, [], ◌∷◌, map, Option, none, some, or_else,
  if◌then◌else◌, ltb, length, get_elem?, set, take, drop,
}
use ghost_shard_protocol.Types.{Shard}
use ghost_shard_protocol.Types.Hex.{HexString}
use ghost_shard_protocol.Viem.{AddressEq}
use ghost_shard_protocol.ShardStore.{ShardStore, get_unspent, remove_many}

-- An entry of the result of `aggregate3`.
pub record CallResult : Type 0 where
  pub success : Bool
  pub return_data : HexString

-- `MULTICALL_CHUNK_SIZE`
abbrev pub multicall_chunk_size : ℕ
multicall_chunk_size = 300

-- The last loop, from index `i`, over the addresses from `i` on.
unfoldable pub spent_from : List Bool → ℕ → List HexString → List HexString
spent_from statuses i [] = []
spent_from statuses i (address ∷ addresses) =
    let rest = spent_from statuses (suc i) addresses in
    if or_else (get_elem? statuses i) false then address ∷ rest else rest

module _ (aggregate3 : List HexString → Option (List CallResult))
    (decode : HexString → Option Bool) where
  -- The loop over the results of a chunk, from the index of the status to write on. An answer that
  -- does not decode ends it, and what was written stays. A write past the addresses is never read.
  unfoldable pub read_results : List CallResult → ℕ → List Bool → List Bool
  read_results [] k statuses = statuses
  read_results (res ∷ results) k statuses =
      if res.success
      then elim (decode res.return_data) [
        | none ↦ statuses
        | some is_spent ↦ read_results results (suc k) (set statuses k is_spent)
      ]
      else read_results results (suc k) statuses

  -- The `try` block for one chunk: a call that fails leaves its statuses.
  unfoldable pub read_chunk : List HexString → ℕ → List Bool → List Bool
  unfolding read_results
  read_chunk chunk i statuses = elim (aggregate3 chunk) [
    | none ↦ statuses
    | some results ↦ read_results results i statuses
  ]

  -- The loop over the chunks, over the addresses from index `i` on, with the rounds left.
  unfoldable pub statuses_loop : ℕ → ℕ → ℕ → List HexString → List Bool → List Bool
  unfolding read_chunk
  statuses_loop zero size i addresses statuses = statuses
  statuses_loop (suc rounds) size i [] statuses = statuses
  statuses_loop (suc rounds) size i (address ∷ addresses) statuses =
      statuses_loop rounds size (i + size) (drop size (address ∷ addresses))
        (read_chunk (take size (address ∷ addresses)) i statuses)

  unfoldable pub spent_addresses : List HexString → List HexString
  unfolding spent_from statuses_loop
  spent_addresses addresses =
      spent_from
        (statuses_loop (length addresses) multicall_chunk_size 0 addresses
          (map (λ address. false) addresses))
        0 addresses

  unfoldable pub sync_spent_shards : AddressEq → ShardStore → ShardStore
  unfolding get_unspent spent_addresses remove_many
  sync_spent_shards v st =
      let spent = spent_addresses (map (λ s. s.address) (get_unspent st)) in
      if ltb 0 (length spent) then remove_many v spent st else st
