-- ===== src/Transfer/Conservation.antt =====
-- How much the commands of ghost-shard-sdk/src/transaction.ts move: the totals of the fusion, of the
-- signatures, of the change and of the shuffle.
pub mod Totals
pub mod Whole
pub mod Prepared
pub mod PreparedPrivate
use mathlib.Core.List.{Perm, Permᴰ}
use mathlib.Core.Logic.{∥∥₁_elim}
use native.Mathlib.Nat.{ℕ_set}
use ghost_shard_protocol.Prelude.{
  ℕ, zero, suc, ◌+◌, ◌≤◌, ◌≡◌, refl, sym, ap, ◌∙◌, Bool, true, false, List, [], ◌∷◌, ◌++◌, map,
  Option, none, some, Result, ok, err, or_raise, ◌>>=◌, length, length-append, if◌then◌else◌,
  Bool-cases, Option-cases, inl, inr, arith, ◌==◌,
}
use ghost_shard_protocol.Prelude.Int.{
  ℤ, pos, pos_part, neg_part, ◌+ℤ◌, leb_ℤ, sum, sum-append, int_laws, le_of_eq, eq_of_parts,
}
use ghost_shard_protocol.Types.Hex.{HexString, hex_eq}
use ghost_shard_protocol.Types.Maps.{Map, map_get, map_set}
use ghost_shard_protocol.GasEngine.{TransferCommand}
use ghost_shard_protocol.Transaction.{fuse, fuse_loop, fuse_one, fusion_key}

-- What commands move.
abbrev pub total : List TransferCommand → ℤ
total [] = pos 0
total (cmd ∷ commands) = cmd.value +ℤ total commands

-- The sum of the positive amounts.
abbrev pub positives : List ℤ → ℤ
positives [] = pos 0
positives (x ∷ xs) = (if leb_ℤ x (pos 0) then pos 0 else x) +ℤ positives xs

pub total-append : (xs ys : List TransferCommand) → total (xs ++ ys) ≡ total xs +ℤ total ys
total-append [] ys = omega int_laws
total-append (x ∷ xs) ys = let ih = le_of_eq (total-append xs ys) in omega (int_laws, ih)

abbrev entries_total : Map TransferCommand → ℤ
entries_total m = total (map (λ e. e.1) m)

total-set_new :
    (key : HexString) (cmd : TransferCommand) (m : Map TransferCommand)
    → map_get key m ≡ none
    → entries_total (map_set key cmd m) ≡ entries_total m +ℤ cmd.value
unfolding map_get map_set
total-set_new key cmd [] h = omega int_laws
total-set_new key cmd ((x, c) ∷ m) h = elim (Bool-cases (hex_eq x key)) [
  | inl e ↦ let bad = rw e at h in cc
  | inr e ↦ let ih = le_of_eq (total-set_new key cmd m (rw e at h)) in rw e (omega (int_laws, ih))
]

total-set_old :
    (key : HexString) (old new : TransferCommand) (d : ℤ) (m : Map TransferCommand)
    → map_get key m ≡ some old
    → new.value ≡ old.value +ℤ d
    → entries_total (map_set key new m) ≡ entries_total m +ℤ d
unfolding map_get map_set
total-set_old key old new d [] h v = cc
total-set_old key old new d ((x, c) ∷ m) h v = elim (Bool-cases (hex_eq x key)) [
  | inl e ↦
      let is_old : c ≡ old = ap (λ o. elim o [ none ↦ c | some y ↦ y ]) (rw e at h) in
      rw e (rw (v, is_old) (omega int_laws))
  | inr e ↦
      let ih = le_of_eq (total-set_old key old new d m (rw e at h) v) in rw e (omega (int_laws, ih))
]

total-fuse_one :
    (m : Map TransferCommand) (cmd : TransferCommand)
    → entries_total (fuse_one m cmd) ≡ entries_total m +ℤ cmd.value
unfolding fuse_one
total-fuse_one m cmd = elim (Option-cases (map_get (fusion_key cmd) m)) [
  | inl e ↦ rw (e, fuse_one) (total-set_new (fusion_key cmd) cmd m e)
  | inr (old, e) ↦
      rw (e, fuse_one)
        (total-set_old (fusion_key cmd) old (record old { value = old.value +ℤ cmd.value })
          cmd.value m e refl)
]

total-fuse_loop :
    (m : Map TransferCommand) (commands : List TransferCommand)
    → total (fuse_loop m commands).0 +ℤ entries_total (fuse_loop m commands).1
      ≡ entries_total m +ℤ total commands
unfolding fuse_loop
total-fuse_loop m [] = omega int_laws
total-fuse_loop m (cmd ∷ commands) = elim (Bool-cases (cmd.asset_type == 2)) [
  | inl e ↦ let ih = le_of_eq (total-fuse_loop m commands) in rw e (omega (int_laws, ih))
  | inr e ↦
      let ih = le_of_eq (total-fuse_loop (fuse_one m cmd) commands) in
      let step = le_of_eq (total-fuse_one m cmd) in rw e (omega (int_laws, ih, step))
]

-- The fusion moves as much as the commands before it.
pub total-fuse : (commands : List TransferCommand) → total (fuse commands) ≡ total commands
unfolding fuse
total-fuse commands =
    let (final, fused) = fuse_loop [] commands in
    let ih = le_of_eq (total-fuse_loop [] commands) in
    let parts = le_of_eq (total-append final (map (λ e. e.1) fused)) in omega (int_laws, ih, parts)

total-Permᴰ : {xs ys : List TransferCommand} → Permᴰ xs ys → total xs ≡ total ys
total-Permᴰ Permᴰ.nil = refl
total-Permᴰ (Permᴰ.cons e p) = rw (e, total-Permᴰ p) refl
total-Permᴰ (Permᴰ.swap e e') = rw (e, e') (omega int_laws)
total-Permᴰ (Permᴰ.trans p q) = total-Permᴰ p ∙ total-Permᴰ q

pub total-Perm : (xs ys : List TransferCommand) → Perm xs ys → total xs ≡ total ys
total-Perm xs ys p =
    let a = total xs in
    let b = total ys in
    eq_of_parts a b (
      ∥∥₁_elim p (ℕ_set (pos_part a + neg_part b) (pos_part b + neg_part a))
        (λ q. rw (total-Permᴰ q) refl))
