-- ===== src/Types/Hex.antt =====
-- Hex strings as lists of character codes: `===` and `toLowerCase` on them. They hold ASCII only,
-- so lower case touches the codes of A to Z and no other.
use ghost_shard_protocol.Prelude.{
  ℕ, ◌+◌, ◌≡◌, refl, ◌↔◌, Bool, true, false, ◌&&◌, List, [], ◌∷◌, map, arith, leb, ◌==◌,
  if◌then◌else◌,
}
use Prim.Native.String.{String}
use Prim.Native.Char.{code}

abbrev pub HexString : Type 0
HexString = List ℕ

-- The codes of a literal, for constants.
abbrev pub hex : String → HexString
hex String.[] = []
hex (String.◌∷◌ c s) = code c ∷ hex s

-- `a === b`
unfoldable pub hex_eq : HexString → HexString → Bool
hex_eq [] [] = true
hex_eq [] (y ∷ ys) = false
hex_eq (x ∷ xs) [] = false
hex_eq (x ∷ xs) (y ∷ ys) = x == y && hex_eq xs ys

unfoldable pub lower_code : ℕ → ℕ
lower_code c = if leb b'A' c && leb c b'Z' then c + 32 else c

-- `s.toLowerCase()`
unfoldable pub lower : HexString → HexString
unfolding lower_code
lower s = map lower_code s

pub hex_eq_iff : (a b : HexString) → (hex_eq a b ≡ true) ↔ (a ≡ b)
unfolding hex_eq
hex_eq_iff [] [] = (λ _. refl, λ _. refl)
hex_eq_iff [] (y ∷ ys) = (λ h. cc, λ h. cc)
hex_eq_iff (x ∷ xs) [] = (λ h. cc, λ h. cc)
hex_eq_iff (x ∷ xs) (y ∷ ys) =
    (λ h. ground (arith, hex_eq_iff xs ys), λ h. ground (arith, hex_eq_iff xs ys))

pub lower-lower : (s : HexString) → lower (lower s) ≡ lower s
unfolding lower
lower-lower [] = refl
lower-lower (c ∷ s) = ground (arith, lower-lower s)
