-- ===== src/Transaction/Uniqueness.antt =====
-- How many commands the fusion of ghost-shard-sdk/src/transaction.ts leaves for a key.
use ghost_shard_protocol.Prelude.{
  ℕ, ◌+◌, ◌<◌, any, true, false, ◌≤◌, ◌≡◌, refl, sym, ap, ◌∙◌, Bool, List, [], ◌∷◌, ◌++◌, map,
  filter, length, none, some, Bool-cases, Option-cases, inl, inr, arith, ◌==◌, if◌then◌else◌,
}
use ghost_shard_protocol.Types.Hex.{HexString, hex_eq, hex_eq_iff}
use ghost_shard_protocol.Types.Maps.{Map, map_get, map_set}
use ghost_shard_protocol.GasEngine.{TransferCommand}
use ghost_shard_protocol.Transaction.{fusion_key, fuse_one, fuse_loop, fuse, ◌+ℤ◌}
use ghost_shard_protocol.Transaction.Fusion.{
  has_key, is_nft, IsKeyed, fuse_loop-IsKeyed, kept-fuse_loop,
}

-- How many entries have the key.
abbrev count : HexString → Map TransferCommand → ℕ
count k [] = 0
count k ((x, c) ∷ m) = (if hex_eq x k then 1 else 0) + count k m

count-set_old :
    (key k : HexString) (new old : TransferCommand) (m : Map TransferCommand)
    → map_get key m ≡ some old
    → count k (map_set key new m) ≡ count k m
unfolding map_get map_set
count-set_old key k new old [] h = cc
count-set_old key k new old ((x, c) ∷ m) h = elim (Bool-cases (hex_eq x key)) [
  | inl e ↦ rw e (rw ((hex_eq_iff x key).0 e) refl)
  | inr e ↦ rw e (ap (◌+◌ _) (count-set_old key k new old m (rw e at h)))
]

count-set_new :
    (key k : HexString) (new : TransferCommand) (m : Map TransferCommand)
    → map_get key m ≡ none
    → (count k (map_set key new m) ≡ count k m + (if hex_eq key k then 1 else 0))
      × (count key m ≡ 0)
unfolding map_get map_set
count-set_new key k new [] h = (omega arith, refl)
count-set_new key k new ((x, c) ∷ m) h = elim (Bool-cases (hex_eq x key)) [
  | inl e ↦ let bad = rw e at h in cc
  | inr e ↦
      let (more, zero_there) = count-set_new key k new m (rw e at h) in
      rw e (omega (arith, more), omega (arith, zero_there))
]

abbrev IsSingle : Map TransferCommand → Type 0
IsSingle m = (k : HexString) → count k m ≤ 1

fuse_one-IsSingle :
    (m : Map TransferCommand) (cmd : TransferCommand) → IsSingle m → IsSingle (fuse_one m cmd)
unfolding fuse_one
fuse_one-IsSingle m cmd h k = elim (Option-cases (map_get (fusion_key cmd) m)) [
  | inl e ↦
      let (more, zero_there) = count-set_new (fusion_key cmd) k cmd m e in
      rw (e, fuse_one)
        (rw more (elim (Bool-cases (hex_eq (fusion_key cmd) k)) [
          | inl f ↦
              let nothing =
                ap (λ x. count x m) (sym ((hex_eq_iff (fusion_key cmd) k).0 f)) ∙ zero_there in
              rw f (omega (arith, nothing))
          | inr f ↦ rw f (omega (arith, h k))
        ]))
  | inr (old, e) ↦
      rw (e, fuse_one)
        (rw
          (count-set_old (fusion_key cmd) k (record old { value = old.value +ℤ cmd.value }) old m e)
          (h k))
]

fuse_loop-IsSingle :
    (m : Map TransferCommand) (commands : List TransferCommand)
    → IsSingle m
    → IsSingle (fuse_loop m commands).1
unfolding fuse_loop
fuse_loop-IsSingle m [] h = h
fuse_loop-IsSingle m (cmd ∷ commands) h = elim (Bool-cases (cmd.asset_type == 2)) [
  | inl e ↦ rw e (fuse_loop-IsSingle m commands h)
  | inr e ↦ rw e (fuse_loop-IsSingle (fuse_one m cmd) commands (fuse_one-IsSingle m cmd h))
]

pub filter-append :
    (p : TransferCommand → Bool) (xs ys : List TransferCommand)
    → filter p (xs ++ ys) ≡ filter p xs ++ filter p ys
filter-append p [] ys = refl
filter-append p (x ∷ xs) ys = elim (Bool-cases (p x)) [
  | inl e ↦ rw e (ap (◌∷◌ x) (filter-append p xs ys))
  | inr e ↦ rw e (filter-append p xs ys)
]

keyless : (k : HexString) (xs : List TransferCommand) → filter (has_key k) (filter is_nft xs) ≡ []
keyless k [] = refl
keyless k (x ∷ xs) = elim (Bool-cases (x.asset_type == 2)) [
  | inl e ↦ rw e (rw e (keyless k xs))
  | inr e ↦ rw e (keyless k xs)
]

length-entries :
    (k : HexString) (m : Map TransferCommand)
    → IsKeyed m
    → length (filter (has_key k) (map (λ e. e.1) m)) ≡ count k m
length-entries k [] h = refl
length-entries k ((x, c) ∷ m) (h, hs) =
    let ih = length-entries k m hs in
    elim (Bool-cases (hex_eq x k)) [
      | inl e ↦ rw (h.1, h.0, e) (omega (arith, ih))
      | inr e ↦ rw (h.1, h.0, e) (omega (arith, ih))
    ]

length-fuse-count :
    (k : HexString) (commands : List TransferCommand)
    → length (filter (has_key k) (fuse commands)) ≡ count k (fuse_loop [] commands).1
unfolding fuse
length-fuse-count k commands =
    let (final, fused) = fuse_loop [] commands in
    let apart : filter (has_key k) final ≡ [] =
      ap (filter (has_key k)) (kept-fuse_loop [] commands) ∙ keyless k commands in
    rw
      (
        filter-append (has_key k) final (map (λ e. e.1) fused),
        apart,
        length-entries k fused (fuse_loop-IsKeyed [] commands tt),
      )
      refl

count-get :
    (k : HexString) (old : TransferCommand) (m : Map TransferCommand)
    → map_get k m ≡ some old
    → 0 < count k m
unfolding map_get
count-get k old [] h = cc
count-get k old ((x, c) ∷ m) h = elim (Bool-cases (hex_eq x k)) [
  | inl e ↦ rw e (omega arith)
  | inr e ↦ let ih = count-get k old m (rw e at h) in rw e (omega (arith, ih))
]

fuse_one-other :
    (k : HexString) (m : Map TransferCommand) (cmd : TransferCommand)
    → hex_eq (fusion_key cmd) k ≡ false
    → count k (fuse_one m cmd) ≡ count k m
unfolding fuse_one
fuse_one-other k m cmd f = elim (Option-cases (map_get (fusion_key cmd) m)) [
  | inl e ↦ rw (e, fuse_one) ((count-set_new (fusion_key cmd) k cmd m e).0 ∙ rw f (omega arith))
  | inr (old, e) ↦
      rw (e, fuse_one)
        (count-set_old (fusion_key cmd) k (record old { value = old.value +ℤ cmd.value }) old m e)
]

fuse_one-own :
    (k : HexString) (m : Map TransferCommand) (cmd : TransferCommand)
    → hex_eq (fusion_key cmd) k ≡ true
    → 0 < count k (fuse_one m cmd)
unfolding fuse_one
fuse_one-own k m cmd f = elim (Option-cases (map_get (fusion_key cmd) m)) [
  | inl e ↦
      rw (e, fuse_one) (rw ((count-set_new (fusion_key cmd) k cmd m e).0) (rw f (omega arith)))
  | inr (old, e) ↦
      rw (e, fuse_one)
        (rw
          (count-set_old (fusion_key cmd) k (record old { value = old.value +ℤ cmd.value }) old m e)
          (rw (sym ((hex_eq_iff (fusion_key cmd) k).0 f)) (count-get (fusion_key cmd) old m e)))
]

fuse_loop-keeps :
    (k : HexString) (m : Map TransferCommand) (commands : List TransferCommand)
    → 0 < count k m
    → 0 < count k (fuse_loop m commands).1
unfolding fuse_loop
fuse_loop-keeps k m [] h = h
fuse_loop-keeps k m (cmd ∷ commands) h = elim (Bool-cases (cmd.asset_type == 2)) [
  | inl e ↦ rw e (fuse_loop-keeps k m commands h)
  | inr e ↦
      let still : 0 < count k (fuse_one m cmd) = elim (Bool-cases (hex_eq (fusion_key cmd) k)) [
        | inl f ↦ fuse_one-own k m cmd f
        | inr f ↦ rw (fuse_one-other k m cmd f) h
      ] in
      rw e (fuse_loop-keeps k (fuse_one m cmd) commands still)
]

fuse_loop-some :
    (k : HexString) (m : Map TransferCommand) (commands : List TransferCommand)
    → any (has_key k) commands ≡ true
    → 0 < count k (fuse_loop m commands).1
unfolding fuse_loop
fuse_loop-some k m [] h = cc
fuse_loop-some k m (cmd ∷ commands) h = elim (Bool-cases (cmd.asset_type == 2)) [
  | inl e ↦ rw e (fuse_loop-some k m commands (rw e at h))
  | inr e ↦ elim (Bool-cases (hex_eq (fusion_key cmd) k)) [
    | inl f ↦ rw e (fuse_loop-keeps k (fuse_one m cmd) commands (fuse_one-own k m cmd f))
    | inr f ↦ rw e (fuse_loop-some k (fuse_one m cmd) commands (rw (e, f) at h))
  ]
]

fuse_loop-none :
    (k : HexString) (m : Map TransferCommand) (commands : List TransferCommand)
    → any (has_key k) commands ≡ false
    → count k (fuse_loop m commands).1 ≡ count k m
unfolding fuse_loop
fuse_loop-none k m [] h = refl
fuse_loop-none k m (cmd ∷ commands) h = elim (Bool-cases (cmd.asset_type == 2)) [
  | inl e ↦ rw e (fuse_loop-none k m commands (rw e at h))
  | inr e ↦ elim (Bool-cases (hex_eq (fusion_key cmd) k)) [
    | inl f ↦ let bad = rw (e, f) at h in cc
    | inr f ↦
        rw e
          (fuse_loop-none k (fuse_one m cmd) commands (rw (e, f) at h) ∙ fuse_one-other k m cmd f)
  ]
]

-- After the fusion there is one command for coins or tokens with a key if there was any before, and
-- none if there was none.
pub length-fuse :
    (k : HexString) (commands : List TransferCommand)
    → length (filter (has_key k) (fuse commands)) ≡ (if any (has_key k) commands then 1 else 0)
length-fuse k commands =
    let most = fuse_loop-IsSingle [] commands (λ x. omega arith) k in
    rw (length-fuse-count k commands) (elim (Bool-cases (any (has_key k) commands)) [
      | inl e ↦ let least = fuse_loop-some k [] commands e in rw e (omega (arith, most, least))
      | inr e ↦ rw e (fuse_loop-none k [] commands e)
    ])
