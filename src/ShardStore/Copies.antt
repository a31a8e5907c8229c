-- ===== src/ShardStore/Copies.antt =====
-- Copies of shards and of a whole store (ghost-shard-sdk/src/shard.ts).
use ghost_shard_protocol.Prelude.{◌≡◌, refl, ap, ◌∙◌, List, [], ◌∷◌, map}
use ghost_shard_protocol.Types.{Shard, AssetBalance, native_balance, erc20_balance, erc721_balance}
use ghost_shard_protocol.ShardStore.{
  ShardStore, clone_asset, clone_shard, export_state, import_state,
}

map_same {ℓ} : {A : Type ℓ} (f : A → A) → ((a : A) → f a ≡ a) → (xs : List A) → map f xs ≡ xs
map_same f h [] = refl
map_same f h (x ∷ xs) = rw (h x, map_same f h xs) refl

clone_asset-same : (a : AssetBalance) → clone_asset a ≡ a
clone_asset-same (native_balance b) = refl
clone_asset-same (erc20_balance t b) = refl
clone_asset-same (erc721_balance t b ids) =
    ap (erc721_balance t b) (map_same (λ i. i) (λ i. refl) ids)

pub clone_shard-same : (s : Shard) → clone_shard s ≡ s
unfolding clone_shard
clone_shard-same s =
    ap (λ assets. record s { assets = assets }) (map_same clone_asset clone_asset-same s.assets)

-- A store that is exported and imported again is the same store.
import_state-export_state : (st : ShardStore) → import_state (export_state st) ≡ st
unfolding import_state export_state
import_state-export_state st =
    ap (λ ss. record st { shards = ss })
      (map_same clone_shard clone_shard-same (map clone_shard st.shards)
        ∙ map_same clone_shard clone_shard-same st.shards)
