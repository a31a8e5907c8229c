-- ===== src/Types/Bytes.antt =====
-- A `Uint8Array` as the list of its bytes: slices, writes, and the numbers that bytes spell.
use ghost_shard_protocol.Prelude.{
  take, drop, ℕ, zero, suc, ◌+◌, ◌*◌, ◌-◌, ◌<◌, ◌≡◌, refl, ap, ◌∙◌, List, [], ◌∷◌, ◌++◌, Option,
  none, some, All, length, length-append, arith, leb, if◌then◌else◌, true, ==_refl, Bool, false,
  ◌==◌,
}

abbrev pub Bytes : Type 0
Bytes = List ℕ

abbrev pub IsByte : ℕ → Type 0
IsByte b = b < 256

abbrev pub IsBytes : Bytes → Type 0
IsBytes bytes = All IsByte bytes

-- `new Uint8Array(n)`
abbrev pub zeros : ℕ → Bytes
zeros zero = []
zeros (suc n) = 0 ∷ zeros n

-- `bytes.slice(from, to)`
unfoldable pub slice : ℕ → ℕ → Bytes → Bytes
slice from to bytes = take (to - from) (drop from bytes)

-- `zs` over the bytes of `xs` from an offset on.
unfoldable pub overlay : Bytes → ℕ → Bytes → Bytes
overlay [] offset zs = []
overlay (x ∷ xs) (suc offset) zs = x ∷ overlay xs offset zs
overlay (x ∷ xs) zero [] = x ∷ xs
overlay (x ∷ xs) zero (z ∷ zs) = z ∷ overlay xs zero zs

-- `buffer.set(bytes, offset)`, which throws where the bytes do not fit.
unfoldable pub set_bytes : Bytes → ℕ → Bytes → Option Bytes
set_bytes buffer offset bytes =
    if leb (offset + length bytes) (length buffer) then some (overlay buffer offset bytes) else none

-- `bytes[0]`, with what it is used as where it is `undefined`.
abbrev pub head_or : ℕ → Bytes → ℕ
head_or d [] = d
head_or d (b ∷ bytes) = b

-- `data[0] = b`
abbrev pub set_head : ℕ → Bytes → Bytes
set_head b [] = []
set_head b (x ∷ bytes) = b ∷ bytes

-- `a[0] === b[0]`
abbrev pub same_head : Bytes → Bytes → Bool
same_head [] [] = true
same_head [] (y ∷ b) = false
same_head (x ∷ a) [] = false
same_head (x ∷ a) (y ∷ b) = x == y

-- The number that bytes spell, the most significant first, after the ones that spell `acc`.
unfoldable pub big_endian_from : ℕ → Bytes → ℕ
big_endian_from acc [] = acc
big_endian_from acc (b ∷ bytes) = big_endian_from (acc * 256 + b) bytes

unfoldable pub big_endian : Bytes → ℕ
unfolding big_endian_from
big_endian bytes = big_endian_from 0 bytes

pub length-zeros : (n : ℕ) → length (zeros n) ≡ n
length-zeros zero = refl
length-zeros (suc n) = ap suc (length-zeros n)

pub IsBytes-zeros : (n : ℕ) → IsBytes (zeros n)
IsBytes-zeros zero = tt
IsBytes-zeros (suc n) = (omega arith, IsBytes-zeros n)

pub take-append : (xs ys : Bytes) (n : ℕ) → length xs ≡ n → take n (xs ++ ys) ≡ xs
take-append [] ys zero h = refl
take-append [] ys (suc n) h = absurd (omega arith)
take-append (x ∷ xs) ys zero h = absurd (omega arith)
take-append (x ∷ xs) ys (suc n) h = ap (◌∷◌ x) (take-append xs ys n (omega arith))

pub drop-append : (xs ys : Bytes) (n : ℕ) → length xs ≡ n → drop n (xs ++ ys) ≡ ys
drop-append [] ys zero h = refl
drop-append [] ys (suc n) h = absurd (omega arith)
drop-append (x ∷ xs) ys zero h = absurd (omega arith)
drop-append (x ∷ xs) ys (suc n) h = drop-append xs ys n (omega arith)

pub take_all : (xs : Bytes) (n : ℕ) → length xs ≡ n → take n xs ≡ xs
take_all [] zero h = refl
take_all [] (suc n) h = refl
take_all (x ∷ xs) zero h = absurd (omega arith)
take_all (x ∷ xs) (suc n) h = ap (◌∷◌ x) (take_all xs n (omega arith))

-- The bytes between two others.
pub slice-append :
    (xs ys zs : Bytes) (from to : ℕ)
    → length xs ≡ from
    → from + length ys ≡ to
    → slice from to (xs ++ (ys ++ zs)) ≡ ys
unfolding slice
slice-append xs ys zs from to h k =
    ap (take (to - from)) (drop-append xs (ys ++ zs) from h)
    ∙ take-append ys zs (to - from) (omega arith)

overlay_front : (xs ys zs : Bytes) → length xs ≡ length zs → overlay (xs ++ ys) 0 zs ≡ zs ++ ys
unfolding overlay
overlay_front [] [] [] h = refl
overlay_front [] (y ∷ ys) [] h = refl
overlay_front [] ys (z ∷ zs) h = absurd (omega arith)
overlay_front (x ∷ xs) ys [] h = absurd (omega arith)
overlay_front (x ∷ xs) ys (z ∷ zs) h = ap (◌∷◌ z) (overlay_front xs ys zs (omega arith))

overlay_after :
    (ws xs ys zs : Bytes) (offset : ℕ)
    → length ws ≡ offset
    → length xs ≡ length zs
    → overlay (ws ++ (xs ++ ys)) offset zs ≡ ws ++ (zs ++ ys)
unfolding overlay
overlay_after [] xs ys zs zero h k = overlay_front xs ys zs k
overlay_after [] xs ys zs (suc o) h k = absurd (omega arith)
overlay_after (w ∷ ws) xs ys zs zero h k = absurd (omega arith)
overlay_after (w ∷ ws) xs ys zs (suc o) h k =
    ap (◌∷◌ w) (overlay_after ws xs ys zs o (omega arith) k)

-- A write replaces as many bytes as it brings.
pub set_bytes-append :
    (ws xs ys zs : Bytes) (offset : ℕ)
    → length ws ≡ offset
    → length xs ≡ length zs
    → set_bytes (ws ++ (xs ++ ys)) offset zs ≡ some (ws ++ (zs ++ ys))
unfolding set_bytes
set_bytes-append ws xs ys zs offset h k =
    let fits : leb (offset + length zs) (length (ws ++ (xs ++ ys))) ≡ true =
      ground (arith, length-append ws (xs ++ ys), length-append xs ys) in
    rw fits (ap some (overlay_after ws xs ys zs offset h k))

pub IsBytes-drop : (n : ℕ) (xs : Bytes) → IsBytes xs → IsBytes (drop n xs)
IsBytes-drop zero xs h = h
IsBytes-drop (suc n) [] h = h
IsBytes-drop (suc n) (x ∷ xs) h = IsBytes-drop n xs h.1

pub append-nil : (xs : Bytes) → xs ++ [] ≡ xs
append-nil [] = refl
append-nil (x ∷ xs) = ap (◌∷◌ x) (append-nil xs)

pub same_head_refl : (xs ys : Bytes) → 0 < length xs → same_head (head_or 0 xs ∷ ys) xs ≡ true
same_head_refl [] ys h = absurd (omega arith)
same_head_refl (x ∷ xs) ys h = ==_refl x
