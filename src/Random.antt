-- ===== src/Random.antt =====
-- The random source of ghost-shard-sdk/src/coinSelection.ts, `randomFloat` and `shuffle`.
-- Each call of `crypto.getRandomValues` takes the next 32-bit word of a given sequence; a function
-- that draws takes the number of words already used and returns it beside its result.
-- Floating point is not modelled: `Math.floor(randomFloat() * k)` is a given function of the word
-- and `k`, with the facts that hold of it in double precision.
pub mod Shuffling
pub mod Instances
use ghost_shard_protocol.Prelude.{
  ℕ, zero, suc, ◌+◌, ◌≤◌, ◌<◌, ◌≡◌, List, [], ◌∷◌, Option, none, some, get_elem?, length,
}

-- 0xffffffff, by which `randomFloat` divides.
abbrev pub top_word : ℕ
top_word = 4294967295

pub record Rng : Type 0 where
  -- The n-th word that `crypto.getRandomValues` gives.
  pub word : ℕ → ℕ
  -- `Math.floor((u / 0xffffffff) * k)`
  pub scaled : ℕ → ℕ → ℕ
  pub word-le : (n : ℕ) → word n ≤ top_word
  pub scaled-le : (u k : ℕ) → u ≤ top_word → scaled u k ≤ k
  pub scaled-lt : (u k : ℕ) → u < top_word → 0 < k → k ≤ top_word → scaled u k < k
  -- The division gives 1 for the largest word.
  pub scaled-top : (k : ℕ) → scaled top_word k ≡ k

-- No word is the largest one.
abbrev pub IsBelowTop : Rng → Type 0
IsBelowTop rng = (n : ℕ) → rng.word n < top_word

module _ (rng : Rng) where
  -- `Math.floor(randomFloat() * k)`, with the n-th word
  unfoldable pub draw : ℕ → ℕ → ℕ
  draw n k = rng.scaled (rng.word n) k

  pub draw-le : (n k : ℕ) → draw n k ≤ k
  unfolding draw
  draw-le n k = rng.scaled-le (rng.word n) k (rng.word-le n)

  pub draw-lt : (n k : ℕ) → rng.word n < top_word → 0 < k → k ≤ top_word → draw n k < k
  unfolding draw
  draw-lt n k h p b = rng.scaled-lt (rng.word n) k h p b

-- An array that may hold `undefined`. Reading out of range gives `undefined`.
abbrev pub read {ℓ} : {A : Type ℓ} → List (Option A) → ℕ → Option A
read [] i = none
read (x ∷ xs) zero = x
read (x ∷ xs) (suc i) = read xs i

-- `array[i] = v`, which makes the array longer where `i` is out of range.
abbrev pub write {ℓ} : {A : Type ℓ} → List (Option A) → ℕ → Option A → List (Option A)
write [] zero v = v ∷ []
write [] (suc i) v = none ∷ write [] i v
write (x ∷ xs) zero v = v ∷ xs
write (x ∷ xs) (suc i) v = x ∷ write xs i v

-- `[array[i], array[j]] = [array[j], array[i]]`
unfoldable pub swap {ℓ} : {A : Type ℓ} → List (Option A) → ℕ → ℕ → List (Option A)
swap xs i j = write (write xs i (read xs j)) j (read xs i)

-- The loop of `shuffle`, from index `i` down to 1.
unfoldable pub shuffle_from {ℓ} : {A : Type ℓ} → Rng → ℕ → List (Option A) → ℕ → List (Option A) × ℕ
unfolding swap draw
shuffle_from rng zero xs n = (xs, n)
shuffle_from rng (suc i) xs n =
    shuffle_from rng i (swap xs (suc i) (draw rng n (suc i + 1))) (n + 1)

abbrev pred : ℕ → ℕ
pred zero = zero
pred (suc n) = n

unfoldable pub shuffle {ℓ} : {A : Type ℓ} → Rng → List (Option A) → ℕ → List (Option A) × ℕ
unfolding shuffle_from
shuffle rng xs n = shuffle_from rng (pred (length xs)) xs n
