-- ===== src/CoinSelection/Engine/Gathering.antt =====
-- The two gathering loops of `runSelectionEngine`, on an array of defined entries.
use ghost_shard_protocol.Prelude.{
  ok, ℕ, zero, suc, ◌≡◌, refl, List, [], ◌∷◌, ◌++◌, map, some, arith, Bool-cases, inl, inr, ◌⊎◌, ap,
}
use ghost_shard_protocol.Prelude.Int.{ℤ, pos, ◌+ℤ◌, ◌≤ℤ◌, ◌<ℤ◌, int_laws, ltb_ℤ, le_of_eq}
use ghost_shard_protocol.CoinSelection.Allocation.{PoolItem}
use ghost_shard_protocol.CoinSelection.Allocation.Laws.{capacity_of}
use ghost_shard_protocol.CoinSelection.Engine.{Gathered, gather_primary, gather_extras}

-- What the items but the last one hold.
abbrev pub initial_of : List PoolItem → ℤ
initial_of [] = pos 0
initial_of (x ∷ []) = pos 0
initial_of (x ∷ y ∷ rest) = initial_of (y ∷ rest) +ℤ x.balance

-- What was gathered is the front of the array, and the capacity counts it.
pub record Front (xs : List PoolItem) (capacity : ℤ) (g : Gathered) : Type 0 where
  pub rest : List PoolItem
  pub left : g.left ≡ map some rest
  pub split : xs ≡ g.selected ++ rest
  pub counted : g.capacity ≡ capacity +ℤ capacity_of g.selected

-- The primary loop stops only where the amount is covered or nothing is left; the last item that
-- it took was needed.
pub record Primary (amount capacity : ℤ) (xs : List PoolItem) (g : Gathered) : Type 0 where
  pub front : Front xs capacity g
  pub covered : (amount ≤ℤ g.capacity) ⊎ (g.selected ≡ xs)
  pub needed : (g.selected ≡ []) ⊎ (capacity +ℤ initial_of g.selected <ℤ amount)

needed_more :
    (amount capacity : ℤ) (x : PoolItem) (s : List PoolItem)
    → capacity <ℤ amount
    → (s ≡ []) ⊎ (capacity +ℤ x.balance +ℤ initial_of s <ℤ amount)
    → (x ∷ s ≡ []) ⊎ (capacity +ℤ initial_of (x ∷ s) <ℤ amount)
needed_more amount capacity x [] lt h = inr (omega int_laws)
needed_more amount capacity x (y ∷ s) lt (inl e) = cc
needed_more amount capacity x (y ∷ s) lt (inr h) = inr (omega int_laws)

pub gather_primary-Primary :
    (amount : ℤ) (xs : List PoolItem) (capacity : ℤ)
    → (g : Gathered) × (gather_primary amount (map some xs) capacity ≡ ok g)
      × Primary amount capacity xs g
unfolding gather_primary
gather_primary-Primary amount [] capacity = (
  record { selected = []; capacity = capacity; left = [] },
  refl,
  record {
    front = record { rest = []; left = refl; split = refl; counted = omega int_laws };
    covered = inr refl;
    needed = inl refl;
  },
)
gather_primary-Primary amount (x ∷ xs) capacity = elim (Bool-cases (ltb_ℤ capacity amount)) [
  | inl more ↦
      let (g, e, p) = gather_primary-Primary amount xs (capacity +ℤ x.balance) in
      let f = p.front in
      (
        record g { selected = x ∷ g.selected },
        rw (more, e),
        record {
          front = record {
            rest = f.rest;
            left = f.left;
            split = ap (◌∷◌ x) f.split;
            counted = omega (int_laws, le_of_eq f.counted);
          };
          covered = elim p.covered [ inl c ↦ inl c | inr c ↦ inr (ap (◌∷◌ x) c) ];
          needed = needed_more amount capacity x g.selected (ground arith) p.needed;
        },
      )
  | inr enough ↦ (
    record { selected = []; capacity = capacity; left = map some (x ∷ xs) },
    rw enough,
    record {
      front = record { rest = x ∷ xs; left = refl; split = refl; counted = omega int_laws };
      covered = inl (ground arith);
      needed = inl refl;
    },
  )
]

pub gather_extras-Front :
    (k : ℕ) (xs : List PoolItem) (capacity : ℤ)
    → (g : Gathered) × (gather_extras k (map some xs) capacity ≡ ok g)
      × Front xs capacity g
      × (k ≡ 0 → g.selected ≡ [])
unfolding gather_extras
gather_extras-Front zero xs capacity = (
  record { selected = []; capacity = capacity; left = map some xs },
  refl,
  record { rest = xs; left = refl; split = refl; counted = omega int_laws },
  λ _. refl,
)
gather_extras-Front (suc k) [] capacity = (
  record { selected = []; capacity = capacity; left = [] },
  refl,
  record { rest = []; left = refl; split = refl; counted = omega int_laws },
  λ _. refl,
)
gather_extras-Front (suc k) (x ∷ xs) capacity =
    let (g, e, f, _) = gather_extras-Front k xs (capacity +ℤ x.balance) in
    (
      record g { selected = x ∷ g.selected },
      rw e,
      record {
        rest = f.rest;
        left = f.left;
        split = ap (◌∷◌ x) f.split;
        counted = omega (int_laws, le_of_eq f.counted);
      },
      λ h. absurd (omega arith),
    )
