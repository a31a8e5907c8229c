-- ===== src/CoinSelection/Allocation.antt =====
-- The capacity ceiling and the allocation loop of `runSelectionEngine`: how much of the amount each
-- selected shard pays. The loop ends at the last two shards, which it treats together.
pub mod Steps
pub mod Laws
use ghost_shard_protocol.Prelude.{
  Result, ok, err, ◌>>=◌, ℕ, ◌+◌, Bool, ◌||◌, List, [], ◌∷◌, if◌then◌else◌,
}
use ghost_shard_protocol.Prelude.Int.{ℤ, pos, ◌+ℤ◌, ◌-ℤ◌, ◌*ℤ◌, ◌/ℤ◌, ltb_ℤ, leb_ℤ}
use ghost_shard_protocol.Types.{Shard, AssetType}
use ghost_shard_protocol.Random.{Rng, draw}
use ghost_shard_protocol.CoinSelection.Errors.{insufficient, Error}

pub record PoolItem : Type 0 where
  pub shard : Shard
  pub balance : ℤ

-- An item and `maxSafeFutureCapacity` at its index.
abbrev pub Capped : Type 0
Capped = PoolItem × ℤ

-- The loop from the last item to the first, with `runningFutureCapacitySum`.
unfoldable pub with_ceilings : List PoolItem → List Capped × ℤ
with_ceilings [] = ([], pos 0)
with_ceilings (x ∷ xs) =
    let (capped, running) = with_ceilings xs in ((x, running) ∷ capped, running +ℤ x.balance)

-- `mathFloorConstraint`
unfoldable pub floor_constraint : ℤ → ℤ → ℤ → ℤ
floor_constraint dust capacity remaining =
    if ltb_ℤ capacity remaining then remaining -ℤ capacity else dust

-- An early shard's contribution, before it is cut down to what is still needed.
unfoldable pub early_wish : Rng → ℤ → ℤ → ℤ → ℤ → ℕ → ℤ × ℕ
early_wish rng dust balance capacity remaining n =
    let floor = floor_constraint dust capacity remaining in
    let max_safe_spend = balance -ℤ dust in
    if ltb_ℤ max_safe_spend floor
    then (balance, n)
    else if ltb_ℤ floor max_safe_spend
    then (floor +ℤ (max_safe_spend -ℤ floor) *ℤ draw rng n 100 /ℤ 100, n + 1)
    else (floor, n)

unfoldable pub early_contribution : Rng → ℤ → ℤ → ℤ → ℤ → ℕ → ℤ × ℕ
early_contribution rng dust balance capacity remaining n =
    let (contribution, n') = early_wish rng dust balance capacity remaining n in
    (if ltb_ℤ remaining contribution then remaining else contribution, n')

-- The safety valve of the joint final phase: what the last two shards pay if the random cut asks
-- too much of one of them.
unfoldable pub valve : AssetType → ℤ → ℤ → ℤ → Result Error (ℤ × ℤ)
valve asset balance next_balance remaining =
    if leb_ℤ (balance +ℤ next_balance) remaining
    then if ltb_ℤ (balance +ℤ next_balance) remaining
      then err (insufficient asset)
      else ok (balance, next_balance)
    else if ltb_ℤ balance remaining
    then ok (balance, remaining -ℤ balance)
    else ok (remaining -ℤ next_balance, next_balance)

-- The joint final phase, with the random weight in percent.
unfoldable pub joint : AssetType → ℤ → ℤ → ℤ → ℤ → ℕ → Result Error (ℤ × ℤ)
joint asset dust balance next_balance remaining weight =
    let contribution = remaining *ℤ weight /ℤ 100 in
    let final_contribution = remaining -ℤ contribution in
    if ltb_ℤ (balance -ℤ dust) contribution || ltb_ℤ (next_balance -ℤ dust) final_contribution
    then valve asset balance next_balance remaining
    else ok (contribution, final_contribution)

-- The loop: `shardPaymentTargets` for the items left.
unfoldable pub allocate : Rng → AssetType → ℤ → List Capped → ℤ → ℕ → Result Error (List ℤ × ℕ)
allocate rng asset dust [] remaining n = ok ([], n)
allocate rng asset dust ((x, capacity) ∷ []) remaining n =
    let (contribution, n') = early_contribution rng dust x.balance capacity remaining n in
    ok (contribution ∷ [], n')
allocate rng asset dust ((x, _) ∷ (y, _) ∷ []) remaining n = do
  (contribution, final) ← joint asset dust x.balance y.balance remaining (draw rng n 40 + 30)
  ok (contribution ∷ final ∷ [], n + 1)
allocate rng asset dust ((x, capacity) ∷ y ∷ z ∷ rest) remaining n =
    let (contribution, n') = early_contribution rng dust x.balance capacity remaining n in
    allocate rng asset dust (y ∷ z ∷ rest) (remaining -ℤ contribution) n' >>= λ later.
    ok (contribution ∷ later.0, later.1)
