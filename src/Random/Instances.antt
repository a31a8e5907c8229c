-- ===== src/Random/Instances.antt =====
-- Concrete random words for tests: the same word each time.
use ghost_shard_protocol.Prelude.{ℕ, zero, suc, ◌+◌, ◌*◌, ◌/◌, ◌≤◌, ◌<◌, ◌≡◌, arith}
use ghost_shard_protocol.Random.{Rng, top_word}

mul-lt : (u t k : ℕ) → u < t → 0 < k → u * k < t * k
mul-lt u t zero h p = absurd (omega arith)
mul-lt u t (suc zero) h p = omega arith
mul-lt u t (suc (suc k)) h p =
    let e₁ : u * suc (suc k) ≡ u * suc k + u = grind arith in
    let e₂ : t * suc (suc k) ≡ t * suc k + t = grind arith in
    omega (arith, mul-lt u t (suc k) h (omega arith))

-- Words and a division over the natural numbers.
pub div_le : (u k : ℕ) → u ≤ top_word → u * k / top_word ≤ k
div_le u k h = let most : u * k ≤ top_word * k = grind arith in omega arith

pub div_lt : (u k : ℕ) → u < top_word → 0 < k → u * k / top_word < k
div_lt u k h p = omega (arith, mul-lt u top_word k h p)

pub div_top : (k : ℕ) → top_word * k / top_word ≡ k
div_top k = omega arith

abbrev pub constant_words : (u : ℕ) → u ≤ top_word → Rng
constant_words u h = record {
  word = λ _. u;
  scaled = λ u k. u * k / top_word;
  word-le = λ _. h;
  scaled-le = div_le;
  scaled-lt = λ u k h p _. div_lt u k h p;
  scaled-top = div_top;
}
