-- ===== src/Random/Shuffling.antt =====
-- The array that `shuffle` of ghost-shard-sdk/src/coinSelection.ts leaves.
use mathlib.Core.List.{Perm}
use mathlib.Core.List.Perm
use ghost_shard_protocol.Prelude.{
  ℕ, zero, suc, ◌+◌, ◌≤◌, ◌<◌, ◌≡◌, refl, List, [], ◌∷◌, map, Option, some, arith, length,
  length-map, ap, ◌∙◌, ◌⊎◌, inr,
}
use ghost_shard_protocol.Random.{
  Rng, IsBelowTop, top_word, draw, draw-lt, read, write, swap, shuffle_from, shuffle,
}

module _ {ℓ} {A : Type ℓ} where
  -- To write `x` over the entry `y` at `j`, with `y` put in front, is a permutation.
  exchange :
      (x : A) (xs : List A) (j : ℕ)
      → j < length xs
      → (y : A) × (zs : List A) × (read (map some xs) j ≡ some y)
        × (write (map some xs) j (some x) ≡ map some zs)
        × Perm (y ∷ zs) (x ∷ xs)
        × (length zs ≡ length xs)
  exchange x [] j h = absurd (omega arith)
  exchange x (y ∷ xs) zero h = (y, x ∷ xs, refl, refl, Perm.swap x y xs, refl)
  exchange x (w ∷ xs) (suc j) h =
      let (y, zs, r, e, p, l) = exchange x xs j (omega arith) in
      (
        y,
        w ∷ zs,
        r,
        rw e,
        Perm.trans (Perm.swap w y zs) (Perm.trans (Perm.cons w p) (Perm.swap x w xs)),
        omega arith,
      )

  swap-Perm :
      (xs : List A) (i j : ℕ)
      → i < length xs
      → j < length xs
      → (ys : List A) × (swap (map some xs) i j ≡ map some ys)
        × Perm ys xs
        × (length ys ≡ length xs)
  unfolding swap
  swap-Perm [] i j h k = absurd (omega arith)
  swap-Perm (x ∷ xs) zero zero h k = (x ∷ xs, refl, Perm.refl (x ∷ xs), refl)
  swap-Perm (x ∷ xs) zero (suc j) h k =
      let (y, zs, r, e, p, l) = exchange x xs j (omega arith) in (y ∷ zs, rw (r, e), p, omega arith)
  swap-Perm (x ∷ xs) (suc i) zero h k =
      let (y, zs, r, e, p, l) = exchange x xs i (omega arith) in (y ∷ zs, rw (r, e), p, omega arith)
  swap-Perm (x ∷ xs) (suc i) (suc j) h k =
      let (ys, e, p, l) = swap-Perm xs i j (omega arith) (omega arith) in
      (x ∷ ys, ap (◌∷◌ (some x)) e, Perm.cons x p, omega arith)

  module _ (rng : Rng) (below : IsBelowTop rng) where
    shuffle_from-Perm :
        (i : ℕ) (xs : List A) (n : ℕ)
        → (i ≡ 0) ⊎ (i < length xs)
        → length xs ≤ top_word
        → (ys : List A) × ((shuffle_from rng i (map some xs) n).0 ≡ map some ys) × Perm ys xs
    unfolding shuffle_from
    shuffle_from-Perm zero xs n h b = (xs, refl, Perm.refl xs)
    shuffle_from-Perm (suc i) xs n h b =
        let inside : suc i < length xs = omega arith in
        let (ys, e, p, l) =
          swap-Perm xs (suc i) (draw rng n (suc i + 1)) inside
            (omega (arith, draw-lt rng n (suc i + 1) (below n) (omega arith) (omega arith))) in
        let (zs, e', q) = shuffle_from-Perm i ys (n + 1) (inr (omega arith)) (omega arith) in
        (zs, ap (λ a. (shuffle_from rng i a (n + 1)).0) e ∙ e', Perm.trans q p)

    -- If no random word is the largest one, `shuffle` permutes an array of defined entries.
    pub shuffle-Perm :
        (xs : List A) (n : ℕ)
        → length xs ≤ top_word
        → (ys : List A) × ((shuffle rng (map some xs) n).0 ≡ map some ys) × Perm ys xs
    unfolding shuffle
    shuffle-Perm [] n b = ([], refl, Perm.refl [])
    shuffle-Perm (x ∷ xs) n b =
        rw (length-map some xs) (shuffle_from-Perm (length xs) (x ∷ xs) n (inr (omega arith)) b)

module _ {ℓ} {A : Type ℓ} where
  length-le-length-write :
      (xs : List (Option A)) (i : ℕ) (v : Option A) → length xs ≤ length (write xs i v)
  length-le-length-write [] i v = omega arith
  length-le-length-write (x ∷ xs) zero v = omega arith
  length-le-length-write (x ∷ xs) (suc i) v = omega (arith, length-le-length-write xs i v)

  length-write_end :
      (xs : List (Option A)) (v : Option A) → length (write xs (length xs) v) ≡ suc (length xs)
  length-write_end [] v = refl
  length-write_end (x ∷ xs) v = omega (arith, length-write_end xs v)

  length-write :
      (xs : List (Option A)) (i : ℕ) (v : Option A)
      → i < length xs
      → length (write xs i v) ≡ length xs
  length-write [] i v h = absurd (omega arith)
  length-write (x ∷ xs) zero v h = refl
  length-write (x ∷ xs) (suc i) v h = omega (arith, length-write xs i v (omega arith))

  length-le-length-shuffle_from :
      (rng : Rng) (i : ℕ) (xs : List (Option A)) (n : ℕ)
      → length xs ≤ length (shuffle_from rng i xs n).0
  unfolding shuffle_from swap
  length-le-length-shuffle_from rng zero xs n = omega arith
  length-le-length-shuffle_from rng (suc i) xs n =
      let j = draw rng n (suc i + 1) in
      let ys = write xs (suc i) (read xs j) in
      omega (
        arith,
        length-le-length-write xs (suc i) (read xs j),
        length-le-length-write ys j (read xs (suc i)),
        length-le-length-shuffle_from rng i (write ys j (read xs (suc i))) (n + 1),
      )

  -- If the first random word is the largest one, `shuffle` makes every array of two or more
  -- entries longer: it writes past the end.
  pub shuffle_grows :
      (rng : Rng) (x y : Option A) (xs : List (Option A)) (n : ℕ)
      → rng.word n ≡ top_word
      → length (x ∷ y ∷ xs) < length (shuffle rng (x ∷ y ∷ xs) n).0
  unfolding shuffle swap draw
  shuffle_grows rng x y xs n h =
      let i = length xs in
      let zs = x ∷ y ∷ xs in
      let j = rng.scaled (rng.word n) (suc i + 1) in
      let e : j ≡ length zs =
        ap (λ u. rng.scaled u (suc i + 1)) h ∙ rng.scaled-top (suc i + 1) ∙ omega arith in
      let ys = write zs (suc i) (read zs j) in
      let l : length ys ≡ length zs = length-write zs (suc i) (read zs j) (omega arith) in
      let e' : j ≡ length ys = omega arith in
      let g : length (write ys j (read zs (suc i))) ≡ suc (length ys) =
        ap (λ k. length (write ys k (read zs (suc i)))) e'
        ∙ length-write_end ys (read zs (suc i)) in
      omega (arith, length-le-length-shuffle_from rng i (write ys j (read zs (suc i))) (n + 1))
