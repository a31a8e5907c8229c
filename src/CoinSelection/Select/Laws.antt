-- ===== src/CoinSelection/Select/Laws.antt =====
-- What `selectCoins` answers, for amounts and for tokens.
use mathlib.Core.List.{Perm, Mem, mem-cons_self, mem-cons_of_mem}
use ghost_shard_protocol.Prelude.{
  ok, err, ℕ, ◌≤◌, ◌≡◌, refl, ◌⊎◌, inl, inr, Bool, true, List, [], ◌∷◌, ◌++◌, map, Option, none,
  some, any, find, filter, length, arith, or_else, Bool-cases, ap, ◌∙◌,
}
use ghost_shard_protocol.Prelude.Int.{ℤ, pos, ◌-ℤ◌, ◌≤ℤ◌, ◌<ℤ◌, ltb_ℤ}
use ghost_shard_protocol.Types.{Shard, AssetType, AssetBalance, TransferRequest}
use ghost_shard_protocol.Types.Hex.{HexString}
use ghost_shard_protocol.Viem.{AddressEq}
use ghost_shard_protocol.Random.{Rng, IsBelowTop, top_word}
use ghost_shard_protocol.CoinSelection.Errors.{insufficient, not_found}
use ghost_shard_protocol.CoinSelection.Allocation.{PoolItem}
use ghost_shard_protocol.CoinSelection.Allocation.Laws.{capacity_of}
use ghost_shard_protocol.CoinSelection.Engine.{MultiSplitSelectionResult, run_selection_engine}
use ghost_shard_protocol.CoinSelection.Engine.Exactness.{Selects, sum_all}
use ghost_shard_protocol.CoinSelection.Engine.Wallet.{
  IsSolvent, run_selection_engine-Selects, run_selection_engine_insufficient, Perm-length,
}
use ghost_shard_protocol.CoinSelection.Select.{
  PartialOpts, with_defaults, item_of, with_balance, is_native, is_erc20, holds_nft, nft_result,
  select_coins, select_erc721, select_native, select_erc20, branch, false,
}

-- Every wallet entry has a positive balance.
keep_positive : (xs : List PoolItem) → IsSolvent (filter (λ x. ltb_ℤ (pos 0) x.balance) xs)
keep_positive [] = tt
keep_positive (x ∷ xs) = ground (arith, keep_positive xs)

length-keep_positive :
    (p : AssetBalance → Bool) (shards : List Shard) → length (with_balance p shards) ≤ length shards
length-keep_positive p [] = omega arith
length-keep_positive p (s ∷ shards) = ground (arith, length-keep_positive p shards)

-- The assets that a request for an amount is about.
abbrev pub asset_test : AddressEq → AssetType → Option HexString → Option (AssetBalance → Bool)
asset_test v AssetType.native token = some is_native
asset_test v AssetType.erc20 none = none
asset_test v AssetType.erc20 (some token) = some (is_erc20 v token)
asset_test v AssetType.erc721 token = none

module _ (v : AddressEq) (rng : Rng) (opts : PartialOpts) where
  abbrev pub amount_of : TransferRequest → ℤ
  amount_of request = or_else request.amount (pos 0)

  branch-engine :
      (a : AssetType) (token : Option HexString) (id : Option ℤ) (p : AssetBalance → Bool)
      (shards : List Shard) (amount : ℤ) (n : ℕ)
      → asset_test v a token ≡ some p
      → branch v rng shards amount token id (with_defaults opts) n a
        ≡ run_selection_engine rng (with_balance p shards) amount (with_defaults opts) a n
  unfolding select_native select_erc20
  branch-engine AssetType.native token id p shards amount n h =
      ap
        (λ q.
          run_selection_engine rng (with_balance q shards) amount (with_defaults opts)
            AssetType.native n)
        (ap (λ o. or_else o is_native) h)
  branch-engine AssetType.erc20 none id p shards amount n h = cc
  branch-engine AssetType.erc20 (some token) id p shards amount n h =
      ap
        (λ q.
          run_selection_engine rng (with_balance q shards) amount (with_defaults opts)
            AssetType.erc20 n)
        (ap (λ o. or_else o is_native) h)
  branch-engine AssetType.erc721 token id p shards amount n h = cc

  -- On such a request `selectCoins` runs the engine on the shards that hold the asset.
  select_coins-engine :
      (shards : List Shard) (request : TransferRequest) (n : ℕ) (p : AssetBalance → Bool)
      → asset_test v request.asset_type request.token_address ≡ some p
      → select_coins v rng shards request opts n
        ≡ run_selection_engine rng
            (with_balance p shards)
            (amount_of request)
            (with_defaults opts)
            request.asset_type
            n
  unfolding select_coins
  select_coins-engine shards request n p h =
      branch-engine request.asset_type request.token_address request.token_id p shards
        (amount_of request) n h

  module _ (below : IsBelowTop rng) (shards : List Shard) (small : length shards ≤ top_word) where
    module _ (request : TransferRequest) (n : ℕ) (p : AssetBalance → Bool)
        (asset : asset_test v request.asset_type request.token_address ≡ some p) where
      wallet_small : length (with_balance p shards) ≤ top_word
      wallet_small = omega (arith, length-keep_positive p shards)

      covered :
          pos 0 ≤ℤ (with_defaults opts).min_dust_threshold
          → pos 0 ≤ℤ amount_of request
          → amount_of request ≤ℤ capacity_of (with_balance p shards)
          → (r : MultiSplitSelectionResult) × (order : List PoolItem) × (select_coins v rng shards
                request opts n
              ≡ ok r)
            × Perm order (with_balance p shards)
            × Selects order (amount_of request) (with_defaults opts) r
      covered d a covers =
          let (r, order, e, perm, s) =
            run_selection_engine-Selects rng below (with_defaults opts) request.asset_type
              (with_balance p shards) (amount_of request) n wallet_small
              (keep_positive (map (item_of p) shards)) d a covers in
          (r, order, select_coins-engine shards request n p asset ∙ e, perm, s)

      -- For a request for coins, or for a token that it names: an amount that the wallet covers is
      -- selected, if no random word is the largest one, the wallet is no longer than 2^32 - 1, and
      -- neither the dust threshold nor the amount is negative. The selected shards are some of those
      -- that hold the asset, and their change outputs add up to exactly what they hold beyond the
      -- amount.
      pub select_coins_covers :
          pos 0 ≤ℤ (with_defaults opts).min_dust_threshold
          → pos 0 ≤ℤ amount_of request
          → amount_of request ≤ℤ capacity_of (with_balance p shards)
          → (r : MultiSplitSelectionResult) × (selected : List PoolItem) × (rest : List PoolItem)
            × (select_coins v rng shards request opts n ≡ ok r)
            × Perm (selected ++ rest) (with_balance p shards)
            × (r.shards ≡ map (λ x. x.shard) selected)
            × (sum_all r.change_splits_by_shard ≡ capacity_of selected -ℤ amount_of request)
      select_coins_covers d a covers =
          let (r, order, e, perm, s) = covered d a covers in
          (r, s.selected, s.rest, e, rw s.from_wallet at perm, s.same_shards, s.change)

      -- For a request for coins, or for a token that it names: if the wallet covers the amount, no
      -- random word is the largest one, the wallet is no longer than 2^32 - 1, neither the dust
      -- threshold nor the amount is negative, and the dust threshold is zero or the wallet has at
      -- most three shards, then shards are selected and the payment outputs add up to exactly the
      -- amount.
      pub select_coins_exact :
          pos 0 ≤ℤ (with_defaults opts).min_dust_threshold
          → pos 0 ≤ℤ amount_of request
          → amount_of request ≤ℤ capacity_of (with_balance p shards)
          → ((with_defaults opts).min_dust_threshold ≡ pos 0) ⊎ (length shards ≤ 3)
          → (r : MultiSplitSelectionResult) × (select_coins v rng shards request opts n ≡ ok r)
            × (sum_all r.payment_splits_by_shard ≡ amount_of request)
      select_coins_exact d a covers cond =
          let (r, order, e, perm, s) = covered d a covers in
          (
            r,
            e,
            s.payment (elim cond [
              | inl z ↦ inl z
              | inr few ↦ inr (omega (arith, Perm-length perm, length-keep_positive p shards))
            ]),
          )

      -- For a request for coins, or for a token that it names: an amount that the wallet does not
      -- cover is refused, if no random word is the largest one and the wallet is no longer than
      -- 2^32 - 1.
      pub select_coins_insufficient :
          capacity_of (with_balance p shards) <ℤ amount_of request
          → select_coins v rng shards request opts n ≡ err (insufficient request.asset_type)
      select_coins_insufficient short =
          select_coins-engine shards request n p asset
          ∙ run_selection_engine_insufficient rng below (with_defaults opts) request.asset_type
              (with_balance p shards) (amount_of request) n wallet_small
              (keep_positive (map (item_of p) shards)) short

find_cases :
    (q : Shard → Bool) (shards : List Shard)
    → ((s : Shard) × (find q shards ≡ some s) × Mem s shards × (q s ≡ true))
      ⊎ ((find q shards ≡ none) × (any q shards ≡ false))
find_cases q [] = inr (refl, refl)
find_cases q (s ∷ shards) = elim (Bool-cases (q s)) [
  | inl e ↦ inl (s, rw e, mem-cons_self, e)
  | inr e ↦ elim (find_cases q shards) [
    | inl (t, f, m, h) ↦ inl (t, rw (e, f), mem-cons_of_mem s m, h)
    | inr (f, none_holds) ↦ inr (rw (e, f), rw (e, none_holds))
  ]
]

-- For a given token, an ERC721 selection is a single shard of the wallet that holds the token id,
-- which pays out that id and keeps no change; it is refused exactly where no shard holds it.
select_erc721_lem :
    (v : AddressEq) (shards : List Shard) (c : ℕ) (cs : HexString) (id : ℤ)
    → let holds = λ (s : Shard). any (holds_nft v (c ∷ cs) id) s.assets in
      let answer = select_erc721 v shards (some (c ∷ cs)) (some id) in
      ((s : Shard) × (answer ≡ ok (nft_result v s id)) × Mem s shards × (holds s ≡ true))
      ⊎ ((answer ≡ err (not_found (c ∷ cs) id)) × (any holds shards ≡ false))
unfolding select_erc721
select_erc721_lem v shards c cs id =
    elim (find_cases (λ s. any (holds_nft v (c ∷ cs) id) s.assets) shards) [
      | inl (s, f, m, h) ↦ inl (s, rw (f, select_erc721), m, h)
      | inr (f, none_holds) ↦ inr (rw (f, select_erc721), none_holds)
    ]
