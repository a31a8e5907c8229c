-- ===== src/CoinSelection/Allocation/Laws.antt =====
-- The whole allocation loop of `runSelectionEngine` (ghost-shard-sdk/src/coinSelection.ts): what its
-- targets add up to and whether they fit the shards.
use ghost_shard_protocol.Prelude.{
  ok, ℕ, ◌+◌, ◌≡◌, refl, List, [], ◌∷◌, All, arith, ap, ◌∙◌, sym, ◌⊎◌, inl, inr,
}
use ghost_shard_protocol.Prelude.Int.{ℤ, pos, ◌+ℤ◌, ◌-ℤ◌, ◌≤ℤ◌, ◌<ℤ◌, int_laws, sum, le_of_eq}
use ghost_shard_protocol.Types.{AssetType}
use ghost_shard_protocol.Random.{Rng, draw, draw-le}
use ghost_shard_protocol.CoinSelection.Allocation.{
  PoolItem, Capped, with_ceilings, early_contribution, allocate,
}
use ghost_shard_protocol.CoinSelection.Allocation.Steps.{
  early_contribution-IsShare, joint-IsFinal, joint_nonneg,
}

-- What a pool holds.
abbrev pub capacity_of : List PoolItem → ℤ
capacity_of [] = pos 0
capacity_of (x ∷ xs) = capacity_of xs +ℤ x.balance

abbrev pub total : List Capped → ℤ
total [] = pos 0
total ((x, _) ∷ xs) = total xs +ℤ x.balance

-- No item has a negative balance, and each ceiling is what the items after it hold.
abbrev pub IsCapped : List Capped → Type 0
IsCapped [] = Unit {0}
IsCapped ((x, capacity) ∷ xs) = (pos 0 ≤ℤ x.balance) × (capacity ≡ total xs) × IsCapped xs

-- Each target fits the balance of its shard.
abbrev pub Fits : List ℤ → List Capped → Type 0
Fits [] [] = Unit {0}
Fits [] (x ∷ xs) = ⊥
Fits (t ∷ ts) [] = ⊥
Fits (t ∷ ts) ((x, _) ∷ xs) = (t ≤ℤ x.balance) × Fits ts xs

total-nonneg : (xs : List Capped) → IsCapped xs → pos 0 ≤ℤ total xs
total-nonneg [] h = omega arith
total-nonneg ((x, c) ∷ xs) h = omega (int_laws, h.0, total-nonneg xs h.2)

pub with_ceilings-lem :
    (xs : List PoolItem)
    → All (λ x. pos 0 ≤ℤ x.balance) xs
    → ((with_ceilings xs).1 ≡ capacity_of xs)
      × (total (with_ceilings xs).0 ≡ capacity_of xs)
      × IsCapped (with_ceilings xs).0
unfolding with_ceilings
with_ceilings-lem [] h = (refl, refl, tt)
with_ceilings-lem (x ∷ xs) h =
    let (running, whole, capped) = with_ceilings-lem xs h.1 in
    (
      ap (λ s. s +ℤ x.balance) running,
      ap (λ s. s +ℤ x.balance) whole,
      (h.0, running ∙ sym whole, capped),
    )

-- What all items but the last one hold.
abbrev pub initial : List Capped → ℤ
initial [] = pos 0
initial ((x, _) ∷ []) = pos 0
initial ((x, _) ∷ y ∷ rest) = initial (y ∷ rest) +ℤ x.balance

-- The dust threshold is zero, or the last item is needed.
abbrev pub IsSafe : ℤ → List Capped → ℤ → Type 0
IsSafe dust xs remaining = (dust ≡ pos 0) ⊎ (initial xs <ℤ remaining)

-- What the loop gives: targets that add up to the amount, each within its shard's balance, and in
-- a safe case not negative.
pub record Allots (dust : ℤ) (xs : List Capped) (remaining : ℤ) (ts : List ℤ) : Type 0 where
  pub exact : sum ts ≡ remaining
  pub within : Fits ts xs
  pub nonneg : IsSafe dust xs remaining → All (λ t. pos 0 ≤ℤ t) ts

-- An early shard that pays no more than its balance leaves a safe case safe.
IsSafe-rest :
    (dust b remaining c : ℤ) (y : Capped) (rest : List Capped)
    → c ≤ℤ b
    → (dust ≡ pos 0) ⊎ (initial (y ∷ rest) +ℤ b <ℤ remaining)
    → IsSafe dust (y ∷ rest) (remaining -ℤ c)
IsSafe-rest dust b remaining c y rest h (inl e) = inl e
IsSafe-rest dust b remaining c y rest h (inr lt) = inr (omega int_laws)

joint_case :
    (dust b b' remaining : ℤ)
    → (dust ≡ pos 0) ⊎ (pos 0 +ℤ b <ℤ remaining)
    → (b' ≤ℤ remaining) ⊎ (b <ℤ remaining) ⊎ (dust ≡ pos 0)
joint_case dust b b' remaining (inl e) = inr (inr e)
joint_case dust b b' remaining (inr lt) = inr (inl (omega int_laws))

module _ (rng : Rng) (asset : AssetType) (dust : ℤ) (d : pos 0 ≤ℤ dust) where
  pub allocate-Allots :
      (xs : List Capped) (remaining : ℤ) (n : ℕ)
      → IsCapped xs
      → pos 0 ≤ℤ remaining
      → remaining ≤ℤ total xs
      → (ts : List ℤ) × (n' : ℕ) × (allocate rng asset dust xs remaining n ≡ ok (ts, n'))
        × Allots dust xs remaining ts
  unfolding allocate sum
  allocate-Allots [] remaining n capped r fits =
      ([], n, refl, record { exact = omega int_laws; within = tt; nonneg = λ _. tt })
  allocate-Allots ((x, capacity) ∷ []) remaining n (b, e, _) r fits =
      let same = le_of_eq e in
      let share =
        early_contribution-IsShare rng dust x.balance capacity remaining n d b
          (omega (int_laws, same)) r (omega (int_laws, same)) in
      let c = (early_contribution rng dust x.balance capacity remaining n).0 in
      (
        c ∷ [],
        _,
        refl,
        record {
          exact = omega (int_laws, same);
          within = (share.within_balance, tt);
          nonneg = λ _. (share.nonneg, tt);
        },
      )
  allocate-Allots ((x, _) ∷ (y, _) ∷ []) remaining n capped r fits =
      let weight = draw rng n 40 + 30 in
      let (c, f, e, final) =
        joint-IsFinal asset x.balance y.balance remaining dust weight d (omega int_laws) in
      (
        c ∷ f ∷ [],
        n + 1,
        rw e,
        record {
          exact = omega (int_laws, le_of_eq final.exact);
          within = (final.within_balance, (final.within_next, tt));
          nonneg = λ safe.
              let (p, q) =
                joint_nonneg asset x.balance y.balance remaining dust weight c f capped.0 capped.2.0
                  r (omega (arith, draw-le rng n 40))
                  (joint_case dust x.balance y.balance remaining safe) e in
              (p, (q, tt));
        },
      )
  allocate-Allots ((x, capacity) ∷ y ∷ z ∷ rest) remaining n (b, e, capped) r fits =
      let same = le_of_eq e in
      let later_nonneg = total-nonneg (y ∷ z ∷ rest) capped in
      let share =
        early_contribution-IsShare rng dust x.balance capacity remaining n d b
          (omega (int_laws, same, later_nonneg)) r (omega (int_laws, same, later_nonneg)) in
      let (c, n') = early_contribution rng dust x.balance capacity remaining n in
      let (ts, m, done, allots) =
        allocate-Allots (y ∷ z ∷ rest) (remaining -ℤ c) n' capped
          (omega (int_laws, same, later_nonneg)) (omega (int_laws, same, later_nonneg)) in
      (
        c ∷ ts,
        m,
        rw done,
        record {
          exact = omega (int_laws, le_of_eq allots.exact);
          within = (share.within_balance, allots.within);
          nonneg = λ safe. (
            share.nonneg,
            allots.nonneg
                (IsSafe-rest dust x.balance remaining c y (z ∷ rest) share.within_balance safe),
          );
        },
      )
