-- ===== src/Multicall/Correlation.antt =====
-- The calls of the batch of ghost-shard-sdk/src/multicall.ts and the assets they ask about.
use ghost_shard_protocol.Prelude.{
  ℕ, suc, ◌+◌, ◌≡◌, refl, ap, ◌∙◌, List, [], ◌∷◌, some, All, All-append, get_elem?, arith,
}
use ghost_shard_protocol.Prelude.Int.{ℤ}
use ghost_shard_protocol.Types.{
  AssetType, AssetBalance, native_balance, erc20_balance, erc721_balance,
}
use ghost_shard_protocol.Types.Hex.{HexString}
use ghost_shard_protocol.Multicall.{
  Multicall3Call, BalanceCall, CallEncoding, token_calls, asset_calls, assets_calls, shards_calls,
  build_balance_verification_batch,
}

All-map {ℓ} :
    {A : Type ℓ} (P Q : A → Type 0) → ((a : A) → P a → Q a) → (xs : List A) → All P xs → All Q xs
All-map P Q f [] h = tt
All-map P Q f (x ∷ xs) (h, hs) = (f x h, All-map P Q f xs hs)

module _ (enc : CallEncoding) where
  -- The call asks for what the entry says of the asset: the coins of the shard, its balance of the
  -- token, or the owner of one of the token's ids, the one at the entry's index.
  abbrev pub Asks : HexString → AssetBalance → Multicall3Call → BalanceCall → Type 0
  Asks addr (native_balance b) call m =
      (m.asset_type ≡ AssetType.native)
      × (call.target ≡ enc.multicall3_address)
      × (call.call_data ≡ enc.get_eth_balance addr)
  Asks addr (erc20_balance t b) call m =
      (m.asset_type ≡ AssetType.erc20) × (call.target ≡ t) × (call.call_data ≡ enc.balance_of addr)
  Asks addr (erc721_balance t b ids) call m =
      (i : ℕ) × (id : ℤ) × (m.asset_type ≡ AssetType.erc721)
      × (call.target ≡ t)
      × (call.call_data ≡ enc.owner_of id)
      × (m.token_id_index ≡ some i)
      × (get_elem? ids i ≡ some id)

  token_calls-Asks :
      (addr t : HexString) (b : ℤ) (si ai ti : ℕ) (all ids : List ℤ)
      → ((j : ℕ) → get_elem? all (ti + j) ≡ get_elem? ids j)
      → All
          (λ e.
            (e.1.shard_index ≡ si)
            × (e.1.asset_index ≡ ai)
            × Asks addr (erc721_balance t b all) e.0 e.1)
          (token_calls enc t si ai ti ids)
  unfolding token_calls
  token_calls-Asks addr t b si ai ti all [] h = tt
  token_calls-Asks addr t b si ai ti all (id ∷ ids) h = (
    (refl, refl, (ti, id, refl, refl, refl, refl, ap (get_elem? all) (omega arith) ∙ h 0)),
    token_calls-Asks addr t b si ai (suc ti) all ids
        (λ j. ap (get_elem? all) (omega arith) ∙ h (suc j)),
  )

  asset_calls-Asks :
      (addr : HexString) (si ai : ℕ) (a : AssetBalance)
      → All
          (λ e. (e.1.shard_index ≡ si) × (e.1.asset_index ≡ ai) × Asks addr a e.0 e.1)
          (asset_calls enc addr si ai a)
  unfolding asset_calls
  asset_calls-Asks addr si ai (native_balance b) = ((refl, refl, (refl, refl, refl)), tt)
  asset_calls-Asks addr si ai (erc20_balance [] b) = tt
  asset_calls-Asks addr si ai (erc20_balance (c ∷ cs) b) = ((refl, refl, (refl, refl, refl)), tt)
  asset_calls-Asks addr si ai (erc721_balance [] b ids) = tt
  asset_calls-Asks addr si ai (erc721_balance (c ∷ cs) b ids) =
      token_calls-Asks addr (c ∷ cs) b si ai 0 ids ids (λ j. ap (get_elem? ids) (omega arith))

  -- The call is about an asset of the list, whose index counts from `ai`.
  abbrev AboutAsset : HexString → ℕ → ℕ → List AssetBalance → Multicall3Call × BalanceCall → Type 0
  AboutAsset addr si ai assets (call, m) =
      (j : ℕ) × (a : AssetBalance) × (m.shard_index ≡ si)
      × (m.asset_index ≡ ai + j)
      × (get_elem? assets j ≡ some a)
      × Asks addr a call m

  assets_calls-About :
      (addr : HexString) (si ai : ℕ) (assets : List AssetBalance)
      → All (AboutAsset addr si ai assets) (assets_calls enc addr si ai assets)
  unfolding assets_calls
  assets_calls-About addr si ai [] = tt
  assets_calls-About addr si ai (a ∷ assets) =
      All-append (AboutAsset addr si ai (a ∷ assets)) (asset_calls enc addr si ai a)
        (assets_calls enc addr si (suc ai) assets)
        (All-map (λ e. (e.1.shard_index ≡ si) × (e.1.asset_index ≡ ai) × Asks addr a e.0 e.1)
          (AboutAsset addr si ai (a ∷ assets)) (λ e h. (0, a, h.0, omega (arith, h.1), refl, h.2))
          (asset_calls enc addr si ai a) (asset_calls-Asks addr si ai a))
        (All-map (AboutAsset addr si (suc ai) assets) (AboutAsset addr si ai (a ∷ assets))
          (λ e h. let (j, x, s, i, g, q) = h in (suc j, x, s, omega (arith, i), g, q))
          (assets_calls enc addr si (suc ai) assets) (assets_calls-About addr si (suc ai) assets))

  -- The call is about an asset of one of the shards: the entry's two indices lead to it.
  abbrev pub About :
      ℕ → List (HexString × List AssetBalance) → Multicall3Call × BalanceCall → Type 0
  About si shards (call, m) =
      (k : ℕ) × (addr : HexString) × (assets : List AssetBalance) × (a : AssetBalance)
      × (m.shard_index ≡ si + k)
      × (get_elem? shards k ≡ some (addr, assets))
      × (get_elem? assets m.asset_index ≡ some a)
      × Asks addr a call m

  shards_calls-About :
      (si : ℕ) (shards : List (HexString × List AssetBalance))
      → All (About si shards) (shards_calls enc si shards)
  unfolding shards_calls
  shards_calls-About si [] = tt
  shards_calls-About si ((addr, assets) ∷ shards) =
      All-append (About si ((addr, assets) ∷ shards)) (assets_calls enc addr si 0 assets)
        (shards_calls enc (suc si) shards)
        (All-map (AboutAsset addr si 0 assets) (About si ((addr, assets) ∷ shards))
          (λ e h.
            let (j, a, s, i, g, q) = h in
            (
              0,
              addr,
              assets,
              a,
              omega (arith, s),
              refl,
              ap (get_elem? assets) (omega (arith, i)) ∙ g,
              q,
            ))
          (assets_calls enc addr si 0 assets) (assets_calls-About addr si 0 assets))
        (All-map (About (suc si) shards) (About si ((addr, assets) ∷ shards))
          (λ e h. let (k, x, xs, a, s, g, i, q) = h in (suc k, x, xs, a, omega (arith, s), g, i, q))
          (shards_calls enc (suc si) shards) (shards_calls-About (suc si) shards))

  -- Every call of the batch is about the asset that its entry in the mapping leads to, by the index
  -- of the shard and the index of the asset: it has the asset's type, and it asks the right contract
  -- for the shard's coins, for the shard's balance of the token, or for the owner of the token id at
  -- the entry's index.
  pub build_balance_verification_batch-About :
      (shards : List (HexString × List AssetBalance))
      → All (About 0 shards) (build_balance_verification_batch enc shards)
  unfolding build_balance_verification_batch
  build_balance_verification_batch-About shards = shards_calls-About 0 shards
