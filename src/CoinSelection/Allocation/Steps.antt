-- ===== src/CoinSelection/Allocation/Steps.antt =====
-- One step of the allocation loop: what an early shard pays, and what the last two pay.
use ghost_shard_protocol.Prelude.{ok, ℕ, ◌≤◌, ◌≡◌, false, ◌||◌, ◌⊎◌, inl, inr, arith, Bool-cases}
use ghost_shard_protocol.Prelude.Int.{
  ℤ, pos, ◌+ℤ◌, ◌-ℤ◌, ◌*ℤ◌, ◌/ℤ◌, ◌≤ℤ◌, ◌<ℤ◌, ltb_ℤ, leb_ℤ, int_laws, percent_bounds, -ℤ_parts,
  +ℤ_parts,
}
use ghost_shard_protocol.Types.{AssetType}
use ghost_shard_protocol.Random.{Rng, draw, draw-le}
use ghost_shard_protocol.CoinSelection.Allocation.{
  floor_constraint, early_wish, early_contribution, valve, joint,
}

-- What an early shard may pay: no more than its balance and than what is needed, and enough that
-- the later shards can cover the rest.
pub record IsShare (balance capacity remaining contribution : ℤ) : Type 0 where
  pub nonneg : pos 0 ≤ℤ contribution
  pub within_need : contribution ≤ℤ remaining
  pub within_balance : contribution ≤ℤ balance
  pub enough : remaining -ℤ contribution ≤ℤ capacity

floor_constraint_bounds :
    (dust capacity remaining : ℤ)
    → pos 0 ≤ℤ dust
    → pos 0 ≤ℤ capacity
    → let floor = floor_constraint dust capacity remaining in
      (pos 0 ≤ℤ floor) × (remaining ≤ℤ floor +ℤ capacity)
unfolding floor_constraint
floor_constraint_bounds dust capacity remaining d c = elim (Bool-cases (ltb_ℤ capacity remaining)) [
  | inl e ↦ let over : capacity <ℤ remaining = ground arith in rw e (omega int_laws, omega int_laws)
  | inr e ↦ let under : remaining ≤ℤ capacity = ground arith in rw e (d, omega int_laws)
]

module _ (rng : Rng) (dust balance capacity remaining : ℤ) (n : ℕ) where
  early_wish_bounds :
      pos 0 ≤ℤ dust
      → pos 0 ≤ℤ balance
      → pos 0 ≤ℤ capacity
      → remaining ≤ℤ balance +ℤ capacity
      → let (w, _) = early_wish rng dust balance capacity remaining n in
        (pos 0 ≤ℤ w) × (w ≤ℤ balance) × (remaining ≤ℤ w +ℤ capacity)
  unfolding early_wish
  early_wish_bounds d b c fits =
      let floor = floor_constraint dust capacity remaining in
      let low : (pos 0 ≤ℤ floor) × (remaining ≤ℤ floor +ℤ capacity) =
        floor_constraint_bounds dust capacity remaining d c in
      let m = balance -ℤ dust in
      elim (Bool-cases (ltb_ℤ m floor)) [
        | inl e ↦ rw e (b, omega arith, fits)
        | inr e ↦
            let le : floor ≤ℤ m = ground arith in
            let (p, q) =
              percent_bounds (m -ℤ floor) (draw rng n 100) (omega int_laws) (draw-le rng n 100) in
            elim (Bool-cases (ltb_ℤ floor m)) [
              | inl e' ↦ rw (e, e') (omega int_laws, omega int_laws, omega int_laws)
              | inr e' ↦ rw (e, e') (low.0, omega int_laws, low.1)
            ]
      ]

  pub early_contribution-IsShare :
      pos 0 ≤ℤ dust
      → pos 0 ≤ℤ balance
      → pos 0 ≤ℤ capacity
      → pos 0 ≤ℤ remaining
      → remaining ≤ℤ balance +ℤ capacity
      → IsShare balance capacity remaining
          (early_contribution rng dust balance capacity remaining n).0
  unfolding early_contribution
  early_contribution-IsShare d b c r fits =
      let (low, high, covers) = early_wish_bounds d b c fits in
      let w = (early_wish rng dust balance capacity remaining n).0 in
      elim (Bool-cases (ltb_ℤ remaining w)) [
        | inl e ↦
            let over : remaining <ℤ w = ground arith in
            rw e (record {
              nonneg = r;
              within_need = omega arith;
              within_balance = omega arith;
              enough = omega int_laws;
            })
        | inr e ↦
            let under : w ≤ℤ remaining = ground arith in
            rw e (record {
              nonneg = low;
              within_need = under;
              within_balance = high;
              enough = omega int_laws;
            })
      ]

-- What the last two shards pay: exactly what is needed, and neither more than its balance.
pub record IsFinal (balance next_balance remaining contribution final : ℤ) : Type 0 where
  pub exact : contribution +ℤ final ≡ remaining
  pub within_balance : contribution ≤ℤ balance
  pub within_next : final ≤ℤ next_balance

module _ (asset : AssetType) (balance next_balance remaining : ℤ) where
  pub valve-IsFinal :
      remaining ≤ℤ balance +ℤ next_balance
      → (c : ℤ) × (f : ℤ) × (valve asset balance next_balance remaining ≡ ok (c, f))
        × IsFinal balance next_balance remaining c f
  unfolding valve
  valve-IsFinal fits = elim (Bool-cases (leb_ℤ (balance +ℤ next_balance) remaining)) [
    | inl e ↦
        let low : balance +ℤ next_balance ≤ℤ remaining = ground arith in
        let e' : ltb_ℤ (balance +ℤ next_balance) remaining ≡ false = ground arith in
        (
          balance,
          next_balance,
          rw (e, e'),
          record {
            exact = omega int_laws;
            within_balance = omega arith;
            within_next = omega arith;
          },
        )
    | inr e ↦ elim (Bool-cases (ltb_ℤ balance remaining)) [
      | inl e' ↦
          let over : balance <ℤ remaining = ground arith in
          (
            balance,
            remaining -ℤ balance,
            rw (e, e'),
            record {
              exact = omega int_laws;
              within_balance = omega arith;
              within_next = omega int_laws;
            },
          )
      | inr e' ↦
          let under : remaining ≤ℤ balance = ground arith in
          (
            remaining -ℤ next_balance,
            next_balance,
            rw (e, e'),
            record {
              exact = omega int_laws;
              within_balance = omega int_laws;
              within_next = omega arith;
            },
          )
    ]
  ]

  pub joint-IsFinal :
      (dust : ℤ) (weight : ℕ)
      → pos 0 ≤ℤ dust
      → remaining ≤ℤ balance +ℤ next_balance
      → (c : ℤ) × (f : ℤ) × (joint asset dust balance next_balance remaining weight ≡ ok (c, f))
        × IsFinal balance next_balance remaining c f
  unfolding joint
  joint-IsFinal dust weight d fits =
      let c = remaining *ℤ weight /ℤ 100 in
      let f = remaining -ℤ c in
      elim (Bool-cases (ltb_ℤ (balance -ℤ dust) c || ltb_ℤ (next_balance -ℤ dust) f)) [
        | inl e ↦ rw e (valve-IsFinal fits)
        | inr e ↦
            let low : c ≤ℤ balance -ℤ dust = ground arith in
            let high : f ≤ℤ next_balance -ℤ dust = ground arith in
            (
              c,
              f,
              rw e,
              record {
                exact = omega int_laws;
                within_balance = omega int_laws;
                within_next = omega int_laws;
              },
            )
      ]

  valve_nonneg :
      (c f : ℤ)
      → pos 0 ≤ℤ balance
      → pos 0 ≤ℤ next_balance
      → (next_balance ≤ℤ remaining) ⊎ (balance <ℤ remaining)
      → valve asset balance next_balance remaining ≡ ok (c, f)
      → (pos 0 ≤ℤ c) × (pos 0 ≤ℤ f)
  unfolding valve
  valve_nonneg c f b b' cond e = ground (
    arith,
    -ℤ_parts remaining balance,
    -ℤ_parts remaining next_balance,
    +ℤ_parts balance next_balance,
  )

  -- The cut of an amount that is not negative has no negative part, if the last shard does not
  -- hold more than is needed, or the shard before it holds less, or the dust threshold is zero.
  pub joint_nonneg :
      (dust : ℤ) (weight : ℕ) (c f : ℤ)
      → pos 0 ≤ℤ balance
      → pos 0 ≤ℤ next_balance
      → pos 0 ≤ℤ remaining
      → weight ≤ 100
      → (next_balance ≤ℤ remaining) ⊎ (balance <ℤ remaining) ⊎ (dust ≡ pos 0)
      → joint asset dust balance next_balance remaining weight ≡ ok (c, f)
      → (pos 0 ≤ℤ c) × (pos 0 ≤ℤ f)
  unfolding joint
  joint_nonneg dust weight c f b b' r w cond e =
      let (low, high) = percent_bounds remaining weight r w in
      let c₀ = remaining *ℤ weight /ℤ 100 in
      elim (Bool-cases
        (ltb_ℤ (balance -ℤ dust) c₀ || ltb_ℤ (next_balance -ℤ dust) (remaining -ℤ c₀))) [
          | inl t ↦
              let need : (next_balance ≤ℤ remaining) ⊎ (balance <ℤ remaining) =
                ground (
                  arith,
                  -ℤ_parts remaining c₀,
                  -ℤ_parts balance dust,
                  -ℤ_parts next_balance dust,
                ) in
              valve_nonneg c f b b' need (rw t at e)
          | inr t ↦ ground (arith, rw t at e, -ℤ_parts remaining c₀)
        ]
