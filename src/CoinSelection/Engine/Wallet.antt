-- ===== src/CoinSelection/Engine/Wallet.antt =====
-- `runSelectionEngine` (ghost-shard-sdk/src/coinSelection.ts) as a whole, over a wallet in any order.
use mathlib.Core.List.{Perm, Permᴰ}
use mathlib.Core.HLevel.{×_prop, Unit-prop}
use native.Mathlib.Bridge.{le_prop}
use native.Mathlib.Nat.{ℕ_set}
use ghost_shard_protocol.Prelude.{
  ok, err, ℕ, ◌≤◌, ◌≡◌, refl, List, [], ◌∷◌, map, some, All, ◌∙◌, ap, arith,
}
use ghost_shard_protocol.Prelude.Int.{ℤ, pos, ◌≤ℤ◌, ◌<ℤ◌, int_laws}
use mathlib.Core.Logic.{∥∥₁_elim}
use ghost_shard_protocol.Types.{AssetType}
use ghost_shard_protocol.Random.{Rng, IsBelowTop, top_word, shuffle}
use ghost_shard_protocol.Random.Shuffling.{shuffle-Perm}
use ghost_shard_protocol.CoinSelection.Errors.{insufficient}
use ghost_shard_protocol.CoinSelection.Allocation.{PoolItem}
use ghost_shard_protocol.CoinSelection.Allocation.Laws.{capacity_of}
use ghost_shard_protocol.CoinSelection.Engine.{
  SelectionOpts, MultiSplitSelectionResult, select_from, run_selection_engine, length,
}
use ghost_shard_protocol.CoinSelection.Engine.Exactness.{
  Selects, select_from-Selects, select_from_insufficient,
}

-- No shard has a negative balance.
abbrev pub IsSolvent : List PoolItem → Type 0
IsSolvent = All (λ x. pos 0 ≤ℤ x.balance)

IsSolvent-prop : (xs : List PoolItem) → IsProp (IsSolvent xs)
IsSolvent-prop [] = Unit-prop
IsSolvent-prop (x ∷ xs) = ×_prop le_prop (IsSolvent-prop xs)

ℤ_set : IsSet ℤ
ℤ_set = hlevel

Permᴰ-capacity :
    {xs ys : List PoolItem}
    → Permᴰ xs ys
    → IsSolvent ys
    → IsSolvent xs × (capacity_of xs ≡ capacity_of ys)
Permᴰ-capacity Permᴰ.nil h = (tt, refl)
Permᴰ-capacity (Permᴰ.cons e p) h =
    let (solvent, same) = Permᴰ-capacity p h.1 in ((rw e h.0, solvent), rw (same, e))
Permᴰ-capacity (Permᴰ.swap e e') h = ((rw e h.1.0, (rw e' h.0, h.1.1)), rw (e, e') (omega int_laws))
Permᴰ-capacity (Permᴰ.trans p q) h =
    let (solvent, same) = Permᴰ-capacity q h in
    let (solvent', same') = Permᴰ-capacity p solvent in (solvent', same' ∙ same)

-- Two orders of one wallet hold the same.
Perm-capacity :
    (xs ys : List PoolItem)
    → Perm xs ys
    → IsSolvent ys
    → IsSolvent xs × (capacity_of xs ≡ capacity_of ys)
Perm-capacity xs ys p h =
    ∥∥₁_elim p (×_prop (IsSolvent-prop xs) (ℤ_set (capacity_of xs) (capacity_of ys)))
      (λ q. Permᴰ-capacity q h)

Permᴰ-length : {xs ys : List PoolItem} → Permᴰ xs ys → length xs ≡ length ys
Permᴰ-length Permᴰ.nil = refl
Permᴰ-length (Permᴰ.cons e p) = omega (arith, Permᴰ-length p)
Permᴰ-length (Permᴰ.swap e e') = refl
Permᴰ-length (Permᴰ.trans p q) = omega (arith, Permᴰ-length p, Permᴰ-length q)

pub Perm-length : {xs ys : List PoolItem} → Perm xs ys → length xs ≡ length ys
Perm-length {xs} {ys} p = ∥∥₁_elim p (ℕ_set (length xs) (length ys)) (λ q. Permᴰ-length q)

module _ (rng : Rng) (below : IsBelowTop rng) (opts : SelectionOpts) (asset : AssetType) where
  -- If no random word is the largest one, no balance is negative, and neither the dust threshold
  -- nor the amount is: a wallet that covers the amount gives a selection, in some order of the
  -- wallet. The change outputs add up to what the selected shards hold beyond the amount. The
  -- payment outputs add up to the amount if the dust threshold is zero or the wallet has at most
  -- three shards.
  pub run_selection_engine-Selects :
      (wallet : List PoolItem) (amount : ℤ) (n : ℕ)
      → length wallet ≤ top_word
      → IsSolvent wallet
      → pos 0 ≤ℤ opts.min_dust_threshold
      → pos 0 ≤ℤ amount
      → amount ≤ℤ capacity_of wallet
      → (r : MultiSplitSelectionResult) × (order : List PoolItem) × (run_selection_engine rng wallet
            amount opts asset n
          ≡ ok r)
        × Perm order wallet
        × Selects order amount opts r
  unfolding run_selection_engine
  run_selection_engine-Selects wallet amount n small solvent d a covers =
      let (order, e, p) = shuffle-Perm rng below wallet n small in
      let (solvent', same) = Perm-capacity order wallet p solvent in
      let n' = (shuffle rng (map some wallet) n).1 in
      let (r, e', s) =
        select_from-Selects rng opts asset order amount n' solvent' d a (rw same covers) in
      (r, order, ap (λ xs. select_from rng xs amount opts asset n') e ∙ e', p, s)

  -- A wallet that does not cover the amount is refused, for the same words and balances.
  pub run_selection_engine_insufficient :
      (wallet : List PoolItem) (amount : ℤ) (n : ℕ)
      → length wallet ≤ top_word
      → IsSolvent wallet
      → capacity_of wallet <ℤ amount
      → run_selection_engine rng wallet amount opts asset n ≡ err (insufficient asset)
  unfolding run_selection_engine
  run_selection_engine_insufficient wallet amount n small solvent short =
      let (order, e, p) = shuffle-Perm rng below wallet n small in
      let (solvent', same) = Perm-capacity order wallet p solvent in
      let n' = (shuffle rng (map some wallet) n).1 in
      ap (λ xs. select_from rng xs amount opts asset n') e
      ∙ select_from_insufficient rng opts asset order amount n' solvent' (rw same short)
