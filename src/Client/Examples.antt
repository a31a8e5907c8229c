-- ===== src/Client/Examples.antt =====
-- Runs of the client, and its theorems at concrete inputs.
use ghost_shard_protocol.Prelude.{
  ◌≡◌, refl, true, false, not, [], ◌∷◌, ◌++◌, map, none, some, filter,
}
use ghost_shard_protocol.Prelude.Int.{pos}
use Prim.Native.Nat.{ℕ}
use Prim.Native.String.{String}
use ghost_shard_protocol.Types.{Shard, AssetType, native_balance, TransferRequest, to_address}
use ghost_shard_protocol.Types.Hex.{HexString, hex, hex_eq, lower}
use ghost_shard_protocol.Viem.{by_lower}
use ghost_shard_protocol.ShardStore.{ShardStore, get, get_unspent, has_address, remove_many}
use ghost_shard_protocol.Client.{
  ChangeOutput, change_shard, confirm_prepared, finish, HexString, remove_many, true,
}
use ghost_shard_protocol.Client.Change.{held, change_keeps_first, failed_keeps_change}
use ghost_shard_protocol.Client.Spent.{
  CallResult, sync_spent_shards, spent_addresses, statuses_loop, spent_from, read_chunk,
}
use ghost_shard_protocol.Client.Spent.Reported.{sync_spent_shards-removes}
use ghost_shard_protocol.Client.Spendable.{get_unspent-confirm_prepared}

abbrev coin : String → ℕ → Shard
coin a b = record {
  address = hex a;
  ephemeral_pub_key = hex "0x02";
  spent = false;
  pending = false;
  assets = native_balance (pos b) ∷ [];
}

abbrev store : ShardStore
store = record { shards = coin "0xa1" 10 ∷ coin "0xb2" 20 ∷ []; last_synced_block = none }

abbrev out : String → ℕ → ChangeOutput
out a b = record { address = hex a; ephemeral_pub_key = hex "0x03"; amount = pos b }

abbrev request : TransferRequest
request = record {
  asset_type = AssetType.native;
  recipient = to_address (hex "0xee");
  amount = some (pos 5);
  token_address = none;
  token_id = none;
}

-- The change of 3 and the change of 2 go to one address: 2 are lost to the wallet.
change_keeps_first_example :
    (s : Shard) × (get by_lower (hex "0xc3") (
        confirm_prepared by_lower
          (record {
            shard_addresses = hex "0xa1" ∷ [];
            change_shards = out "0xc3" 3 ∷ out "0xc3" 2 ∷ [];
          })
          request
          store)
      ≡ some s)
    × (s.address ≡ hex "0xc3")
    × (held by_lower request s.assets ≡ pos 3)
unfolding get hex_eq lower
change_keeps_first_example =
    change_keeps_first by_lower request (hex "0xa1" ∷ []) (out "0xc3" 3) (out "0xc3" 2 ∷ []) store
      (λ h. cc) refl

failed_keeps_change_example :
    get by_lower (hex "0xc3") (
      finish by_lower false
        (record { shard_addresses = hex "0xa1" ∷ []; change_shards = out "0xc3" 5 ∷ [] })
        (confirm_prepared by_lower
          (record { shard_addresses = hex "0xa1" ∷ []; change_shards = out "0xc3" 5 ∷ [] })
          request
          store))
    ≡ some (change_shard request (out "0xc3" 5))
unfolding get hex_eq lower
failed_keeps_change_example =
    failed_keeps_change by_lower request (hex "0xa1" ∷ []) (out "0xc3" 5) [] store refl

get_unspent-confirm_prepared_example :
    get_unspent (
      confirm_prepared by_lower
        (record {
          shard_addresses = hex "0xa1" ∷ [];
          change_shards = out "0xc3" 3 ∷ out "0xd4" 2 ∷ [];
        })
        request
        store)
    ≡ filter (λ s. not (has_address by_lower (hex "0xa1" ∷ []) s.address)) (get_unspent store)
      ++ map (change_shard request) (out "0xc3" 3 ∷ out "0xd4" 2 ∷ [])
unfolding get change_shard hex_eq lower
get_unspent-confirm_prepared_example =
    get_unspent-confirm_prepared by_lower request (hex "0xa1" ∷ [])
      (out "0xc3" 3 ∷ out "0xd4" 2 ∷ []) store (refl, (refl, tt)) ((refl, tt), (tt, tt))

-- Multicall3 answers the address itself, with success unless it is 0xb2, and every answer reads true.
abbrev answer_of : HexString → CallResult
answer_of a = record { success = not (hex_eq a (hex "0xb2")); return_data = a }

sync_spent_shards-removes_example :
    sync_spent_shards (λ chunk. some (map answer_of chunk)) (λ d. some true) by_lower store
    ≡ record { shards = coin "0xb2" 20 ∷ []; last_synced_block = none }
unfolding get_unspent remove_many has_address hex_eq lower
sync_spent_shards-removes_example =
    sync_spent_shards-removes (λ chunk. some (map answer_of chunk)) (λ d. some true) answer_of
      (λ a. true) (λ a e. refl) (λ chunk. refl) by_lower store

-- A failed chunk leaves its shards.
sync_failed : sync_spent_shards (λ chunk. none) (λ d. some true) by_lower store ≡ store
unfolding sync_spent_shards spent_addresses statuses_loop spent_from read_chunk
sync_failed = refl
