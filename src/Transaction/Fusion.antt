-- ===== src/Transaction/Fusion.antt =====
-- The values before and after the fusion of commands in ghost-shard-sdk/src/transaction.ts.
use ghost_shard_protocol.Prelude.{
  ◌≡◌, refl, sym, ap, ◌∙◌, Bool, false, not, ◌&&◌, List, [], ◌∷◌, ◌++◌, map, filter, none, some,
  All, Bool-cases, Option-cases, inl, inr, ◌==◌, if◌then◌else◌,
}
use ghost_shard_protocol.Prelude.Int.{ℤ, pos, ◌+ℤ◌, int_laws, le_of_eq}
use ghost_shard_protocol.Types.Hex.{HexString, hex_eq, hex_eq_iff}
use ghost_shard_protocol.Types.Maps.{Map, map_get, map_set}
use ghost_shard_protocol.GasEngine.{TransferCommand}
use ghost_shard_protocol.Transaction.{fusion_key, fuse_one, fuse_loop, fuse}

-- A command that is not for an ERC721 token and has the key.
abbrev pub has_key : HexString → TransferCommand → Bool
has_key k cmd = not (cmd.asset_type == 2) && hex_eq (fusion_key cmd) k

-- What the commands for coins and tokens with a key move.
abbrev pub value_at : HexString → List TransferCommand → ℤ
value_at k [] = pos 0
value_at k (cmd ∷ commands) = (if has_key k cmd then cmd.value else pos 0) +ℤ value_at k commands

abbrev pub is_nft : TransferCommand → Bool
is_nft cmd = cmd.asset_type == 2

-- What the entries of the map with a key move.
abbrev worth : HexString → Map TransferCommand → ℤ
worth k [] = pos 0
worth k ((key, cmd) ∷ m) = (if hex_eq key k then cmd.value else pos 0) +ℤ worth k m

abbrev at_key : HexString → HexString → ℤ → ℤ
at_key key k x = if hex_eq key k then x else pos 0

worth-set_new :
    (key k : HexString) (cmd : TransferCommand) (m : Map TransferCommand)
    → map_get key m ≡ none
    → worth k (map_set key cmd m) ≡ worth k m +ℤ at_key key k cmd.value
unfolding map_get map_set
worth-set_new key k cmd [] h = omega int_laws
worth-set_new key k cmd ((x, c) ∷ m) h = elim (Bool-cases (hex_eq x key)) [
  | inl e ↦ let bad = rw e at h in cc
  | inr e ↦ let ih = le_of_eq (worth-set_new key k cmd m (rw e at h)) in rw e (omega (int_laws, ih))
]

worth-set_old :
    (key k : HexString) (old new : TransferCommand) (d : ℤ) (m : Map TransferCommand)
    → map_get key m ≡ some old
    → new.value ≡ old.value +ℤ d
    → worth k (map_set key new m) ≡ worth k m +ℤ at_key key k d
unfolding map_get map_set
worth-set_old key k old new d [] h v = cc
worth-set_old key k old new d ((x, c) ∷ m) h v = elim (Bool-cases (hex_eq x key)) [
  | inl e ↦
      let same = (hex_eq_iff x key).0 e in
      let is_old : c ≡ old = ap (λ o. elim o [ none ↦ c | some y ↦ y ]) (rw e at h) in
      rw e (
        rw (same, v, is_old)
          (elim (Bool-cases (hex_eq key k)) [
            | inl f ↦ rw f (omega int_laws)
            | inr f ↦ rw f (omega int_laws)
          ]))
  | inr e ↦
      let ih = le_of_eq (worth-set_old key k old new d m (rw e at h) v) in
      rw e (omega (int_laws, ih))
]

worth-fuse_one :
    (k : HexString) (m : Map TransferCommand) (cmd : TransferCommand)
    → worth k (fuse_one m cmd) ≡ worth k m +ℤ at_key (fusion_key cmd) k cmd.value
unfolding fuse_one
worth-fuse_one k m cmd = elim (Option-cases (map_get (fusion_key cmd) m)) [
  | inl e ↦ rw (e, fuse_one) (worth-set_new (fusion_key cmd) k cmd m e)
  | inr (old, e) ↦
      rw (e, fuse_one)
        (worth-set_old (fusion_key cmd) k old (record old { value = old.value +ℤ cmd.value })
          cmd.value m e refl)
]

-- The loop sets the commands for ERC721 tokens aside, in their order.
pub kept-fuse_loop :
    (m : Map TransferCommand) (commands : List TransferCommand)
    → (fuse_loop m commands).0 ≡ filter is_nft commands
unfolding fuse_loop
kept-fuse_loop m [] = refl
kept-fuse_loop m (cmd ∷ commands) = elim (Bool-cases (cmd.asset_type == 2)) [
  | inl e ↦ rw e (ap (◌∷◌ cmd) (kept-fuse_loop m commands))
  | inr e ↦ rw e (kept-fuse_loop (fuse_one m cmd) commands)
]

worth-fuse_loop :
    (k : HexString) (m : Map TransferCommand) (commands : List TransferCommand)
    → worth k (fuse_loop m commands).1 ≡ worth k m +ℤ value_at k commands
unfolding fuse_loop
worth-fuse_loop k m [] = omega int_laws
worth-fuse_loop k m (cmd ∷ commands) = elim (Bool-cases (cmd.asset_type == 2)) [
  | inl e ↦ let ih = le_of_eq (worth-fuse_loop k m commands) in rw e (omega (int_laws, ih))
  | inr e ↦
      let ih = le_of_eq (worth-fuse_loop k (fuse_one m cmd) commands) in
      let step = le_of_eq (worth-fuse_one k m cmd) in rw e (omega (int_laws, ih, step))
]

-- Each entry stands at its command's key, and no command is for an ERC721 token.
abbrev pub IsKeyed : Map TransferCommand → Type 0
IsKeyed m = All (λ e. (fusion_key e.1 ≡ e.0) × (is_nft e.1 ≡ false)) m

get-IsKeyed :
    (k : HexString) (m : Map TransferCommand) (old : TransferCommand)
    → IsKeyed m
    → map_get k m ≡ some old
    → (fusion_key old ≡ k) × (is_nft old ≡ false)
unfolding map_get
get-IsKeyed k [] old h g = cc
get-IsKeyed k ((x, c) ∷ m) old (h, hs) g = elim (Bool-cases (hex_eq x k)) [
  | inl e ↦
      let is_old : c ≡ old = ap (λ o. elim o [ none ↦ c | some y ↦ y ]) (rw e at g) in
      (rw (sym is_old) (h.0 ∙ (hex_eq_iff x k).0 e), rw (sym is_old) h.1)
  | inr e ↦ get-IsKeyed k m old hs (rw e at g)
]

set-IsKeyed :
    (k : HexString) (new : TransferCommand) (m : Map TransferCommand)
    → IsKeyed m
    → fusion_key new ≡ k
    → is_nft new ≡ false
    → IsKeyed (map_set k new m)
unfolding map_set
set-IsKeyed k new [] h e n = ((e, n), tt)
set-IsKeyed k new ((x, c) ∷ m) (h, hs) e n = elim (Bool-cases (hex_eq x k)) [
  | inl f ↦ rw f ((e ∙ sym ((hex_eq_iff x k).0 f), n), hs)
  | inr f ↦ rw f (h, set-IsKeyed k new m hs e n)
]

fuse_one-IsKeyed :
    (m : Map TransferCommand) (cmd : TransferCommand)
    → IsKeyed m
    → is_nft cmd ≡ false
    → IsKeyed (fuse_one m cmd)
unfolding fuse_one fusion_key
fuse_one-IsKeyed m cmd h n = elim (Option-cases (map_get (fusion_key cmd) m)) [
  | inl e ↦ rw (e, fuse_one) (set-IsKeyed (fusion_key cmd) cmd m h refl n)
  | inr (old, e) ↦
      let (key, not_nft) = get-IsKeyed (fusion_key cmd) m old h e in
      rw (e, fuse_one)
        (set-IsKeyed (fusion_key cmd) (record old { value = old.value +ℤ cmd.value }) m h key
          not_nft)
]

pub fuse_loop-IsKeyed :
    (m : Map TransferCommand) (commands : List TransferCommand)
    → IsKeyed m
    → IsKeyed (fuse_loop m commands).1
unfolding fuse_loop
fuse_loop-IsKeyed m [] h = h
fuse_loop-IsKeyed m (cmd ∷ commands) h = elim (Bool-cases (cmd.asset_type == 2)) [
  | inl e ↦ rw e (fuse_loop-IsKeyed m commands h)
  | inr e ↦ rw e (fuse_loop-IsKeyed (fuse_one m cmd) commands (fuse_one-IsKeyed m cmd h e))
]

value_at-append :
    (k : HexString) (xs ys : List TransferCommand)
    → value_at k (xs ++ ys) ≡ value_at k xs +ℤ value_at k ys
value_at-append k [] ys = omega int_laws
value_at-append k (x ∷ xs) ys = let ih = le_of_eq (value_at-append k xs ys) in omega (int_laws, ih)

value_at-nfts : (k : HexString) (xs : List TransferCommand) → value_at k (filter is_nft xs) ≡ pos 0
value_at-nfts k [] = refl
value_at-nfts k (x ∷ xs) = elim (Bool-cases (x.asset_type == 2)) [
  | inl e ↦ rw e (rw e (rw (value_at-nfts k xs) (omega int_laws)))
  | inr e ↦ rw e (value_at-nfts k xs)
]

value_at-entries :
    (k : HexString) (m : Map TransferCommand)
    → IsKeyed m
    → value_at k (map (λ e. e.1) m) ≡ worth k m
value_at-entries k [] h = refl
value_at-entries k ((x, c) ∷ m) (h, hs) = rw (h.1, h.0, value_at-entries k m hs) refl

-- For each key, the fused commands for coins and tokens move as much as the commands did before.
pub value_at-fuse :
    (k : HexString) (commands : List TransferCommand)
    → value_at k (fuse commands) ≡ value_at k commands
unfolding fuse
value_at-fuse k commands =
    let (final, fused) = fuse_loop [] commands in
    let none_there : value_at k final ≡ pos 0 =
      ap (value_at k) (kept-fuse_loop [] commands) ∙ value_at-nfts k commands in
    value_at-append k final (map (λ e. e.1) fused)
    ∙ rw
        (
          none_there,
          value_at-entries k fused (fuse_loop-IsKeyed [] commands tt),
          worth-fuse_loop k [] commands,
        )
        (omega int_laws)
