-- ===== src/CoinSelection/Engine/Overpayment.antt =====
-- The joint final phase of `runSelectionEngine` for a shard below the dust threshold.
use ghost_shard_protocol.Prelude.{
  ok, ℕ, ◌+◌, ◌≤◌, ◌≡◌, refl, true, false, List, [], ◌∷◌, map, arith, ◌∙◌,
}
use ghost_shard_protocol.Prelude.Int.{
  ℤ, pos, ◌+ℤ◌, ◌-ℤ◌, ◌*ℤ◌, ◌/ℤ◌, ◌≤ℤ◌, ◌<ℤ◌, ltb_ℤ, leb_ℤ, int_laws, sum, percent_bounds, le_of_eq,
}
use ghost_shard_protocol.Types.{AssetType}
use ghost_shard_protocol.Random.{Rng, draw, draw-le}
use ghost_shard_protocol.CoinSelection.Splits.{generate_splits}
use ghost_shard_protocol.CoinSelection.Splits.Bounds.{sum-generate_splits}
use ghost_shard_protocol.CoinSelection.Allocation.{PoolItem, with_ceilings, valve, joint, allocate}
use ghost_shard_protocol.CoinSelection.Engine.{SelectionOpts, split_all}
use ghost_shard_protocol.CoinSelection.Engine.Exactness.{sum_all}

-- A shard that covers the need but is smaller than the dust threshold gets a negative target, if
-- the last shard holds more than is needed.
joint_negative :
    (asset : AssetType) (dust balance next_balance remaining : ℤ) (weight : ℕ)
    → pos 0 ≤ℤ remaining
    → remaining ≤ℤ balance
    → balance <ℤ dust
    → remaining <ℤ next_balance
    → weight ≤ 100
    → joint asset dust balance next_balance remaining weight
      ≡ ok (remaining -ℤ next_balance, next_balance)
unfolding joint valve
joint_negative asset dust balance next_balance remaining weight r small dusty large w =
    let c = remaining *ℤ weight /ℤ 100 in
    let (low, high) = percent_bounds remaining weight r w in
    let under : balance -ℤ dust <ℤ c = omega int_laws in
    let e₁ : ltb_ℤ (balance -ℤ dust) c ≡ true = ground arith in
    let over : remaining <ℤ balance +ℤ next_balance = omega int_laws in
    let e₂ : leb_ℤ (balance +ℤ next_balance) remaining ≡ false = ground arith in
    let e₃ : ltb_ℤ balance remaining ≡ false = ground arith in rw (e₁, e₂, e₃)

-- Two selected shards where the first covers the amount and holds less than the dust threshold, and
-- the second holds more than the amount: whatever the random words, the payment outputs add up to
-- all that the second shard holds, so the recipient gets more than the amount.
pub overpays :
    (rng : Rng) (opts : SelectionOpts) (asset : AssetType) (x y : PoolItem) (amount : ℤ)
    (pool_size n : ℕ)
    → pos 0 ≤ℤ amount
    → amount ≤ℤ x.balance
    → x.balance <ℤ opts.min_dust_threshold
    → amount <ℤ y.balance
    → (ts : List ℤ) × (n' : ℕ) × (allocate rng asset opts.min_dust_threshold
          (with_ceilings (x ∷ y ∷ [])).0
          amount
          n
        ≡ ok (ts, n'))
      × (sum_all (map (λ o. o.0) (split_all rng opts pool_size (x ∷ y ∷ []) ts n')) ≡ y.balance)
unfolding allocate with_ceilings split_all
overpays rng opts asset x y amount pool_size n a small dusty large =
    let weight = draw rng n 40 + 30 in
    let e =
      joint_negative asset opts.min_dust_threshold x.balance y.balance amount weight a small dusty
        large (omega (arith, draw-le rng n 40)) in
    let t = amount -ℤ y.balance in
    let k = opts.max_splits_per_side in
    let dust = opts.min_dust_threshold in
    let n₁ = (generate_splits rng t k dust (n + 1)).1 in
    let n₂ = (generate_splits rng (x.balance -ℤ t) pool_size dust n₁).1 in
    let neg : t <ℤ pos 0 = omega int_laws in
    let low : leb_ℤ t (pos 0) ≡ true = ground arith in
    let high : leb_ℤ y.balance (pos 0) ≡ false = ground arith in
    let first : sum (generate_splits rng t k dust (n + 1)).0 ≡ pos 0 =
      sum-generate_splits rng t k dust (n + 1) ∙ rw low refl in
    let second : sum (generate_splits rng y.balance k dust n₂).0 ≡ y.balance =
      sum-generate_splits rng y.balance k dust n₂ ∙ rw high refl in
    (t ∷ y.balance ∷ [], n + 1, rw e, omega (int_laws, le_of_eq first, le_of_eq second))
