-- ===== src/ShardStore/Examples.antt =====
-- Runs of the store, and its theorems at concrete inputs.
use ghost_shard_protocol.Prelude.{◌≡◌, refl, false, [], ◌∷◌, none, some, List, map}
use ghost_shard_protocol.Prelude.Int.{pos, ◌+ℤ◌}
use Prim.Native.Nat.{ℕ}
use Prim.Native.String.{String}
use ghost_shard_protocol.Types.{Shard, AssetType, native_balance, erc20_balance, erc721_balance}
use ghost_shard_protocol.Types.Hex.{hex, hex_eq, lower}
use ghost_shard_protocol.Viem.{by_lower}
use ghost_shard_protocol.ShardStore.{
  ShardStore, PersistedState, import_state, new_store, add, mark_pending, confirm_failed,
  get_unspent, has_address, get_balance_for_asset, sum_shards, sum_assets, get_unspent_for_asset,
  get, remove_many, set_pending, clone_shard,
}
use ghost_shard_protocol.ShardStore.Balance.{holdings, get_balance_for_asset-holdings}
use ghost_shard_protocol.ShardStore.Distinct.{
  IsDistinct, Reachable-IsDistinct, after_mark_pending, after_add, after_import, start,
}
use ghost_shard_protocol.ShardStore.Refinement.{
  StoreCall, call_add, call_mark_pending, call_remove_many, call_confirm_failed, map_of, map_calls,
  run_calls, map_of-run_calls, run_call,
}
use ghost_shard_protocol.ShardStore.Pending.{confirm_failed-mark_pending}

abbrev shard : String → ℕ → Shard
shard a b = record {
  address = hex a;
  ephemeral_pub_key = hex "0x02";
  spent = false;
  pending = false;
  assets =
      native_balance (pos b)
      ∷ erc20_balance (hex "0xabc") (pos 7)
      ∷ erc721_balance (hex "0xdef") (pos 1) (pos 5 ∷ [])
      ∷ [];
}

abbrev store : ShardStore
store = record { shards = shard "0xa1" 10 ∷ shard "0xb2" 20 ∷ []; last_synced_block = some (pos 3) }

-- An address in capital letters is the address that is there.
add_twice : add by_lower (shard "0xB2" 99) store ≡ store
unfolding add hex_eq lower
add_twice = refl

balance_of_store :
    get_balance_for_asset by_lower AssetType.erc20 (some (hex "0xABC")) store ≡ pos 14
unfolding get_balance_for_asset sum_shards sum_assets get_unspent_for_asset get_unspent ◌+ℤ◌ hex_eq
    lower
balance_of_store = refl

-- A state is imported, and then a shard is added twice.
abbrev imported : PersistedState
imported = record {
  shards = shard "0xa1" 10 ∷ shard "0xb2" 20 ∷ [];
  last_synced_block = some (pos 3);
}

Reachable-IsDistinct_example :
    IsDistinct by_lower
      (mark_pending by_lower (hex "0xa1" ∷ []) (
        add by_lower
          (shard "0xC3" 5)
          (add by_lower (shard "0xc3" 4) (import_state imported)))).shards
unfolding hex_eq lower
Reachable-IsDistinct_example =
    Reachable-IsDistinct by_lower (imported ∷ [])
      (mark_pending by_lower (hex "0xa1" ∷ [])
        (add by_lower (shard "0xC3" 5) (add by_lower (shard "0xc3" 4) (import_state imported))))
      (((refl, tt), (tt, tt)), tt)
      (after_mark_pending (hex "0xa1" ∷ [])
        (after_add (shard "0xC3" 5) (after_add (shard "0xc3" 4) (after_import imported start))))

confirm_failed-mark_pending_example :
    confirm_failed by_lower (hex "0xA1" ∷ []) none (mark_pending by_lower (hex "0xA1" ∷ []) store)
    ≡ store
unfolding has_address hex_eq lower
confirm_failed-mark_pending_example =
    confirm_failed-mark_pending by_lower (hex "0xA1" ∷ []) store (refl, (refl, tt))

get_balance_for_asset-holdings_example :
    get_balance_for_asset by_lower AssetType.erc20 (some (hex "0xABC")) store
    ≡ holdings by_lower AssetType.erc20 (some (hex "0xABC")) (get_unspent store)
get_balance_for_asset-holdings_example =
    get_balance_for_asset-holdings by_lower AssetType.erc20 (some (hex "0xABC")) store

abbrev calls : List StoreCall
calls =
    call_add (shard "0xa1" 4)
    ∷ call_add (shard "0xb2" 5)
    ∷ call_mark_pending (hex "0xA1" ∷ hex "0xb2" ∷ [])
    ∷ call_remove_many (hex "0xB2" ∷ [])
    ∷ call_confirm_failed (hex "0xa1" ∷ []) (some (hex "0xc3"))
    ∷ []

map_of-run_calls_example :
    map_of by_lower (run_calls by_lower calls new_store)
    ≡ map_calls by_lower calls (map_of by_lower new_store)
map_of-run_calls_example = map_of-run_calls by_lower calls new_store

-- The first shard is found as it was added, and the second is gone.
calls_run :
    map (λ a. get by_lower a (run_calls by_lower calls new_store)) (hex "0xA1" ∷ hex "0xb2" ∷ [])
    ≡ some (shard "0xa1" 4) ∷ none ∷ []
unfolding get add run_calls run_call has_address remove_many mark_pending set_pending confirm_failed
    clone_shard hex_eq lower
calls_run = refl
