-- ===== src/Client/Change.antt =====
-- What becomes of the change of a transaction in the wallet's store (ghost-shard-sdk/src/index.ts,
-- `confirmPrepared`, `confirmTransaction` and `confirmFailed`).
use ghost_shard_protocol.Prelude.{
  ◌≡◌, ◌≢◌, refl, ◌∙◌, false, List, [], ◌∷◌, none, some, Bool-cases, inl, inr,
}
use ghost_shard_protocol.Prelude.Int.{ℤ, pos, ◌+ℤ◌, int_laws}
use ghost_shard_protocol.Types.{
  AssetType, AssetBalance, native_balance, erc20_balance, erc721_balance, Shard, TransferRequest,
}
use ghost_shard_protocol.Types.Hex.{HexString}
use ghost_shard_protocol.Viem.{AddressEq, is_address_equal_refl}
use ghost_shard_protocol.ShardStore.{ShardStore, get, add, mark_pending, has_address}
use ghost_shard_protocol.ShardStore.Lookup.{get-add, get-mark_pending, get-confirm_failed}
use ghost_shard_protocol.Client.{
  ChangeOutput, PreparedTransfer, change_shard, change_asset, add_change, confirm_prepared, finish,
}

module _ (v : AddressEq) (request : TransferRequest) where
  -- What is found in the store stays, whatever change is added.
  add_change-keeps :
      (outs : List ChangeOutput) (st : ShardStore) (a : HexString) (s : Shard)
      → get v a st ≡ some s
      → get v a (add_change v request outs st) ≡ some s
  unfolding add_change
  add_change-keeps [] st a s h = h
  add_change-keeps (out ∷ outs) st a s h =
      add_change-keeps outs (add v (change_shard request out) st) a s
        (get-add v (change_shard request out) st a ∙ rw h refl)

  change_found :
      (inputs : List HexString) (out : ChangeOutput) (outs : List ChangeOutput) (st : ShardStore)
      → get v out.address st ≡ none
      → get v out.address (
          confirm_prepared v
            (record { shard_addresses = inputs; change_shards = out ∷ outs })
            request
            st)
        ≡ some (change_shard request out)
  unfolding confirm_prepared add_change change_shard
  change_found inputs out outs st h =
      let marked = mark_pending v inputs st in
      add_change-keeps outs (add v (change_shard request out) marked) out.address
        (change_shard request out)
        (get-add v (change_shard request out) marked out.address
          ∙ rw (get-mark_pending v inputs st out.address, h, is_address_equal_refl v out.address)
              refl)

  -- What the assets hold of coins and tokens.
  abbrev pub held : List AssetBalance → ℤ
  held [] = pos 0
  held (native_balance b ∷ assets) = b +ℤ held assets
  held (erc20_balance t b ∷ assets) = b +ℤ held assets
  held (erc721_balance t b ids ∷ assets) = held assets

  change_asset-held :
      (out : ChangeOutput)
      → request.asset_type ≢ AssetType.erc721
      → held (change_asset request out ∷ []) ≡ out.amount
  unfolding change_asset
  change_asset-held out n = with_type request.asset_type refl n
    where
      with_type :
          (type : AssetType)
          → request.asset_type ≡ type
          → type ≢ AssetType.erc721
          → held (change_asset request out ∷ []) ≡ out.amount
      with_type AssetType.native e m = rw e (omega int_laws)
      with_type AssetType.erc20 e m = rw e (omega int_laws)
      with_type AssetType.erc721 e m = absurd (m refl)

  -- Of the change outputs for coins or tokens at an address that is new, `confirmPrepared` stores the
  -- first one and none of the later ones: the shard that is then found at the address holds the
  -- amount of the first output alone.
  pub change_keeps_first :
      (inputs : List HexString) (out : ChangeOutput) (outs : List ChangeOutput) (st : ShardStore)
      → request.asset_type ≢ AssetType.erc721
      → get v out.address st ≡ none
      → (s : Shard) × (get v out.address (
            confirm_prepared v
              (record { shard_addresses = inputs; change_shards = out ∷ outs })
              request
              st)
          ≡ some s)
        × (s.address ≡ out.address)
        × (held s.assets ≡ out.amount)
  unfolding change_shard
  change_keeps_first inputs out outs st n h =
      (change_shard request out, change_found inputs out outs st h, refl, change_asset-held out n)

  -- When a relayed transaction fails, the change shard that `confirmPrepared` stored at a new address
  -- is still in the store, and may be spent.
  pub failed_keeps_change :
      (inputs : List HexString) (out : ChangeOutput) (outs : List ChangeOutput) (st : ShardStore)
      → get v out.address st ≡ none
      → get v out.address (
          finish v false
            (record { shard_addresses = inputs; change_shards = out ∷ outs })
            (confirm_prepared v
              (record { shard_addresses = inputs; change_shards = out ∷ outs })
              request
              st))
        ≡ some (change_shard request out)
  unfolding finish change_shard
  failed_keeps_change inputs out outs st h =
      let tx : PreparedTransfer = record { shard_addresses = inputs; change_shards = out ∷ outs } in
      get-confirm_failed v inputs (confirm_prepared v tx request st) out.address
      ∙ rw (change_found inputs out outs st h)
          (elim (Bool-cases (has_address v inputs out.address)) [
            | inl e ↦ rw e refl
            | inr e ↦ rw e refl
          ])
