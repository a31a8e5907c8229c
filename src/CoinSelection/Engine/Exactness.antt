-- ===== src/CoinSelection/Engine/Exactness.antt =====
-- What a selection pays out and keeps: `runSelectionEngine` behind the shuffle.
use mathlib.Core.List.{append_assoc, append-nil}
use ghost_shard_protocol.Prelude.{
  ok, err, ℕ, ◌≤◌, ◌≡◌, refl, List, [], ◌∷◌, ◌++◌, map, some, All, arith, Bool-cases, inl, inr, ◌⊎◌,
  ap, ◌∙◌, sym, length, length-map, false, true,
}
use ghost_shard_protocol.Prelude.Int.{
  ℤ, pos, ◌+ℤ◌, ◌-ℤ◌, ◌≤ℤ◌, ◌<ℤ◌, int_laws, ltb_ℤ, leb_ℤ, le_of_eq, sum,
}
use ghost_shard_protocol.Types.{AssetType}
use ghost_shard_protocol.Random.{Rng}
use ghost_shard_protocol.CoinSelection.Errors.{insufficient}
use ghost_shard_protocol.CoinSelection.Metrics.{
  calculate_compression_metrics, calculate_compression_metrics_bounds,
}
use ghost_shard_protocol.CoinSelection.Splits.{generate_splits}
use ghost_shard_protocol.CoinSelection.Splits.Bounds.{sum-generate_splits}
use ghost_shard_protocol.CoinSelection.Allocation.{PoolItem, with_ceilings}
use ghost_shard_protocol.CoinSelection.Allocation.Laws.{
  capacity_of, initial, Fits, Allots, with_ceilings-lem, allocate-Allots,
}
use ghost_shard_protocol.CoinSelection.Engine.{
  SelectionOpts, MultiSplitSelectionResult, Gathered, split_all, assemble, select_from,
}
use ghost_shard_protocol.CoinSelection.Engine.Gathering.{
  Front, Primary, initial_of, gather_primary-Primary, gather_extras-Front,
}

-- The sum of the outputs of all shards.
abbrev pub sum_all : List (List ℤ) → ℤ
sum_all [] = pos 0
sum_all (xs ∷ xss) = sum xs +ℤ sum_all xss

sum-generate_splits_nonneg :
    (rng : Rng) (x : ℤ) (k : ℕ) (dust : ℤ) (n : ℕ)
    → pos 0 ≤ℤ x
    → (sum (generate_splits rng x k dust n).0 ≤ℤ x) × (x ≤ℤ sum (generate_splits rng x k dust n).0)
sum-generate_splits_nonneg rng x k dust n h = elim (Bool-cases (leb_ℤ x (pos 0))) [
  | inl e ↦ rw (sum-generate_splits rng x k dust n, e) (ground arith)
  | inr e ↦ rw (sum-generate_splits rng x k dust n, e) (omega arith)
]

-- Payment outputs and change outputs, shard by shard, for targets that fit.
module _ (rng : Rng) (opts : SelectionOpts) (pool_size : ℕ) where
  change-split_all :
      (xs : List PoolItem) (ts : List ℤ) (n : ℕ)
      → Fits ts (with_ceilings xs).0
      → sum_all (map (λ o. o.1) (split_all rng opts pool_size xs ts n)) ≡ capacity_of xs -ℤ sum ts
  unfolding split_all with_ceilings sum
  change-split_all [] [] n h = omega int_laws
  change-split_all [] (t ∷ ts) n h = absurd h
  change-split_all (x ∷ xs) [] n h = absurd h
  change-split_all (x ∷ xs) (t ∷ ts) n (h, hs) =
      let dust = opts.min_dust_threshold in
      let (payment, n₁) = generate_splits rng t opts.max_splits_per_side dust n in
      let (change, n₂) = generate_splits rng (x.balance -ℤ t) pool_size dust n₁ in
      let ih = le_of_eq (change-split_all xs ts n₂ hs) in
      let here =
        sum-generate_splits_nonneg rng (x.balance -ℤ t) pool_size dust n₁ (omega int_laws) in
      omega (int_laws, ih, here)

  payment-split_all :
      (xs : List PoolItem) (ts : List ℤ) (n : ℕ)
      → Fits ts (with_ceilings xs).0
      → All (λ t. pos 0 ≤ℤ t) ts
      → sum_all (map (λ o. o.0) (split_all rng opts pool_size xs ts n)) ≡ sum ts
  unfolding split_all with_ceilings sum
  payment-split_all [] [] n h _ = refl
  payment-split_all [] (t ∷ ts) n h _ = absurd h
  payment-split_all (x ∷ xs) [] n h _ = absurd h
  payment-split_all (x ∷ xs) (t ∷ ts) n (h, hs) (p, ps) =
      let dust = opts.min_dust_threshold in
      let (payment, n₁) = generate_splits rng t opts.max_splits_per_side dust n in
      let (change, n₂) = generate_splits rng (x.balance -ℤ t) pool_size dust n₁ in
      let ih = le_of_eq (payment-split_all xs ts n₂ hs ps) in
      let here = sum-generate_splits_nonneg rng t opts.max_splits_per_side dust n p in
      omega (int_laws, ih, here)

capacity_of-append :
    (xs ys : List PoolItem) → capacity_of (xs ++ ys) ≡ capacity_of xs +ℤ capacity_of ys
capacity_of-append [] ys = omega int_laws
capacity_of-append (x ∷ xs) ys = omega (int_laws, le_of_eq (capacity_of-append xs ys))

All-front : (P : PoolItem → Type 0) (xs ys : List PoolItem) → All P (xs ++ ys) → All P xs × All P ys
All-front P [] ys h = (tt, h)
All-front P (x ∷ xs) ys (p, h) = let (a, b) = All-front P xs ys h in ((p, a), b)

initial-with_ceilings : (xs : List PoolItem) → initial (with_ceilings xs).0 ≡ initial_of xs
unfolding with_ceilings
initial-with_ceilings [] = refl
initial-with_ceilings (x ∷ []) = refl
initial-with_ceilings (x ∷ y ∷ xs) = ap (λ s. s +ℤ x.balance) (initial-with_ceilings (y ∷ xs))

-- A selection from the front of the wallet: what it pays out and what it keeps.
pub record Selects (xs : List PoolItem) (amount : ℤ) (opts : SelectionOpts)
    (r : MultiSplitSelectionResult) : Type 0 where
  pub selected : List PoolItem
  pub rest : List PoolItem
  pub from_wallet : xs ≡ selected ++ rest
  pub same_shards : r.shards ≡ map (λ x. x.shard) selected
  pub change : sum_all r.change_splits_by_shard ≡ capacity_of selected -ℤ amount
  pub payment :
      (opts.min_dust_threshold ≡ pos 0) ⊎ (length xs ≤ 3)
      → sum_all r.payment_splits_by_shard ≡ amount

-- The targets of a pool are not negative if the dust threshold is zero or the last shard is needed.
targets_nonneg :
    (dust amount : ℤ) (pool : List PoolItem) (ts : List ℤ)
    → Allots dust (with_ceilings pool).0 amount ts
    → (dust ≡ pos 0) ⊎ (pool ≡ []) ⊎ (initial_of pool <ℤ amount)
    → All (λ t. pos 0 ≤ℤ t) ts
unfolding with_ceilings
targets_nonneg dust amount pool ts allots (inl e) = allots.nonneg (inl e)
targets_nonneg dust amount pool ts allots (inr (inr lt)) =
    allots.nonneg (inr (rw (initial-with_ceilings pool) lt))
targets_nonneg dust amount pool ts allots (inr (inl e)) = none_left pool ts e allots.within
  where
    none_left :
        (pool : List PoolItem) (ts : List ℤ)
        → pool ≡ []
        → Fits ts (with_ceilings pool).0
        → All (λ t. pos 0 ≤ℤ t) ts
    none_left [] [] e h = tt
    none_left [] (t ∷ ts) e h = absurd h
    none_left (x ∷ xs) ts e h = cc

covered_all :
    (amount : ℤ) (xs : List PoolItem) (g : Gathered)
    → Primary amount (pos 0) xs g
    → amount ≤ℤ capacity_of xs
    → amount ≤ℤ g.capacity
covered_all amount xs g p covers = elim p.covered [
  | inl c ↦ c
  | inr all ↦ omega (int_laws, le_of_eq p.front.counted, le_of_eq (ap capacity_of all))
]

capacity_of-nonneg :
    (xs : List PoolItem) → All (λ x. pos 0 ≤ℤ x.balance) xs → pos 0 ≤ℤ capacity_of xs
capacity_of-nonneg [] h = omega arith
capacity_of-nonneg (x ∷ xs) h = omega (int_laws, h.0, capacity_of-nonneg xs h.1)

-- With the extras `e` behind the primary pool `g`: where none was swept up, the last shard is needed.
last_needed :
    (dust amount : ℤ) (g e : List PoolItem)
    → (dust ≡ pos 0) ⊎ (e ≡ [])
    → (g ≡ []) ⊎ (pos 0 +ℤ initial_of g <ℤ amount)
    → (dust ≡ pos 0) ⊎ (g ++ e ≡ []) ⊎ (initial_of (g ++ e) <ℤ amount)
last_needed dust amount g e (inl h) needed = inl h
last_needed dust amount g e (inr none_swept) (inl empty) = inr (inl (rw (none_swept, empty)))
last_needed dust amount g e (inr none_swept) (inr lt) =
    inr (inr (rw (none_swept, append-nil g) (omega int_laws)))

fits_pool :
    (amount : ℤ) (g : Gathered) (xs e : List PoolItem)
    → amount ≤ℤ g.capacity
    → Front xs (pos 0) g
    → All (λ x. pos 0 ≤ℤ x.balance) (g.selected ++ e)
    → amount ≤ℤ capacity_of (g.selected ++ e)
fits_pool amount g xs e enough f nonneg = omega (
  int_laws,
  le_of_eq f.counted,
  le_of_eq (capacity_of-append g.selected e),
  capacity_of-nonneg e (All-front (λ x. pos 0 ≤ℤ x.balance) g.selected e nonneg).1,
)

module _ (rng : Rng) (opts : SelectionOpts) (asset : AssetType) where
  -- Behind the shuffle: an amount that the wallet covers is selected.
  pub select_from-Selects :
      (xs : List PoolItem) (amount : ℤ) (n : ℕ)
      → All (λ x. pos 0 ≤ℤ x.balance) xs
      → pos 0 ≤ℤ opts.min_dust_threshold
      → pos 0 ≤ℤ amount
      → amount ≤ℤ capacity_of xs
      → (r : MultiSplitSelectionResult) × (select_from rng (map some xs) amount opts asset n ≡ ok r)
        × Selects xs amount opts r
  unfolding select_from assemble
  select_from-Selects xs amount n pos_balances d a covers =
      let (g, e, primary) = gather_primary-Primary amount xs (pos 0) in
      let f = primary.front in
      let enough : amount ≤ℤ g.capacity = covered_all amount xs g primary covers in
      let e₁ : ltb_ℤ g.capacity amount ≡ false = ground arith in
      let (metrics, n₁) = calculate_compression_metrics rng (length (map some xs)) n in
      let (h, e₂, f₂, none_swept) =
        gather_extras-Front metrics.extra_shards_to_compress f.rest g.capacity in
      let pool = g.selected ++ h.selected in
      let split : xs ≡ pool ++ f₂.rest =
        f.split
        ∙ ap (◌++◌ g.selected) f₂.split
        ∙ sym (append_assoc g.selected h.selected f₂.rest) in
      let nonneg =
        (All-front (λ x. pos 0 ≤ℤ x.balance) pool f₂.rest (rw split at pos_balances)).0 in
      let (_, whole, capped) = with_ceilings-lem pool nonneg in
      let (ts, n₂, e₃, allots) =
        allocate-Allots rng asset opts.min_dust_threshold d (with_ceilings pool).0 amount n₁ capped
          a (rw whole (fits_pool amount g xs h.selected enough f nonneg)) in
      let swept : (opts.min_dust_threshold ≡ pos 0) ⊎ (length xs ≤ 3)
          → (opts.min_dust_threshold ≡ pos 0) ⊎ (h.selected ≡ []) =
        elim [
          | inl z ↦ inl z
          | inr small ↦ inr (
              none_swept (
                (calculate_compression_metrics_bounds rng (length (map some xs)) n).0
                  (rw (length-map some xs) small)))
        ] in
      (
        assemble rng opts amount metrics.change_target_pool_size pool ts n₂,
        rw (e, e₁, f.left, e₂, e₃),
        record {
          selected = pool;
          rest = f₂.rest;
          from_wallet = split;
          same_shards = refl;
          change =
              change-split_all rng opts metrics.change_target_pool_size pool ts n₂ allots.within
              ∙ ap (λ s. capacity_of pool -ℤ s) allots.exact;
          payment = λ cond.
              payment-split_all rng opts metrics.change_target_pool_size pool ts n₂ allots.within (
                targets_nonneg opts.min_dust_threshold amount pool ts allots (
                  last_needed opts.min_dust_threshold amount g.selected h.selected (swept cond)
                    primary.needed))
              ∙ allots.exact;
        },
      )

  -- Behind the shuffle: an amount that the wallet does not cover is refused.
  pub select_from_insufficient :
      (xs : List PoolItem) (amount : ℤ) (n : ℕ)
      → All (λ x. pos 0 ≤ℤ x.balance) xs
      → capacity_of xs <ℤ amount
      → select_from rng (map some xs) amount opts asset n ≡ err (insufficient asset)
  unfolding select_from
  select_from_insufficient xs amount n nonneg short =
      let (g, e, primary) = gather_primary-Primary amount xs (pos 0) in
      let f = primary.front in
      let left = (All-front (λ x. pos 0 ≤ℤ x.balance) g.selected f.rest (rw f.split at nonneg)).1 in
      let low : g.capacity <ℤ amount = omega (
        int_laws,
        le_of_eq f.counted,
        le_of_eq (ap capacity_of f.split),
        le_of_eq (capacity_of-append g.selected f.rest),
        capacity_of-nonneg f.rest left,
      ) in
      let e₁ : ltb_ℤ g.capacity amount ≡ true = ground arith in rw (e, e₁)
