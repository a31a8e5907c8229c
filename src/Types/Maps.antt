-- ===== src/Types/Maps.antt =====
-- `Map<string, V>` as the list of its entries in the order in which their keys were first set.
use ghost_shard_protocol.Prelude.{
  ◌≡◌, refl, ◌∙◌, false, List, [], ◌∷◌, ◌++◌, Option, none, some, All, Bool-cases, inl, inr,
  if◌then◌else◌, sym,
}
use ghost_shard_protocol.Types.Hex.{HexString, hex_eq, hex_eq_iff}

abbrev pub Map : Type 0 → Type 0
Map V = List (HexString × V)

module _ {V : Type 0} where
  unfoldable pub map_get : HexString → Map V → Option V
  map_get k [] = none
  map_get k ((key, value) ∷ m) = if hex_eq key k then some value else map_get k m

  -- A key that is there keeps its place.
  unfoldable pub map_set : HexString → V → Map V → Map V
  map_set k v [] = (k, v) ∷ []
  map_set k v ((key, value) ∷ m) =
      if hex_eq key k then (key, v) ∷ m else (key, value) ∷ map_set k v m

  unfoldable pub map_delete : HexString → Map V → Map V
  map_delete k [] = []
  map_delete k ((key, value) ∷ m) = if hex_eq key k then m else (key, value) ∷ map_delete k m

  pub map_get-map_set :
      (k k' : HexString) (v : V) (m : Map V)
      → map_get k' (map_set k v m) ≡ (if hex_eq k k' then some v else map_get k' m)
  unfolding map_get map_set
  map_get-map_set k k' v [] = refl
  map_get-map_set k k' v ((key, value) ∷ m) = elim (Bool-cases (hex_eq key k)) [
    | inl e ↦ rw e (
        rw ((hex_eq_iff key k).0 e)
          (elim (Bool-cases (hex_eq k k')) [ inl f ↦ rw f refl | inr f ↦ rw f refl ]))
    | inr e ↦ rw e (elim (Bool-cases (hex_eq key k')) [
      | inl f ↦ elim (Bool-cases (hex_eq k k')) [
        | inl g ↦
            let same =
              (hex_eq_iff key k).1 ((hex_eq_iff key k').0 f ∙ sym ((hex_eq_iff k k').0 g)) in
            cc
        | inr g ↦ rw (f, g) refl
      ]
      | inr f ↦ rw f (map_get-map_set k k' v m)
    ])
  ]

  -- No entry has the key.
  abbrev pub IsFresh : HexString → Map V → Type 0
  IsFresh k m = All (λ e. hex_eq e.0 k ≡ false) m

  pub map_set-append :
      (k : HexString) (v : V) (m : Map V) → IsFresh k m → map_set k v m ≡ m ++ (k, v) ∷ []
  unfolding map_set
  map_set-append k v [] h = refl
  map_set-append k v ((key, value) ∷ m) (e, h) = rw (e, map_set-append k v m h) refl
