-- ===== src/Rpc/Retries.antt =====
-- The attempts and the delays of `retryWithBackoff` of ghost-shard-sdk/src/rpc.ts.
use mathlib.Core.Path.{subst}
use ghost_shard_protocol.Prelude.{
  ℕ, zero, suc, ◌+◌, ◌*◌, ◌^◌, ◌<◌, ◌≤◌, ◌≡◌, refl, sym, ap, ◌∙◌, List, [], ◌∷◌, Result, ok, err,
  length, arith,
}
use ghost_shard_protocol.Rpc.{retry_from, retry_with_backoff}

-- The sum of the delays.
abbrev pub waited : List ℕ → ℕ
waited [] = 0
waited (d ∷ ds) = d + waited ds

doubled : (x y w z : ℕ) → y ≡ x + x → w + y ≡ z → (x + w) + x ≡ z
doubled x y w z h g = omega (arith, h, g)

from_zero : (x y : ℕ) → x ≡ y → 0 + x ≡ y
from_zero x y h = omega (arith, h)

next : (k j : ℕ) → k + suc j ≡ suc k + j
next k j = omega arith

start : (j : ℕ) → j ≡ 0 + j
start j = omega arith

module _ {ℓ} {E : Type 0} {A : Type ℓ} (calls : ℕ → Result E A) where
  -- A call fails.
  abbrev pub Fails : ℕ → Type ℓ
  Fails i = (e : E) × (calls i ≡ err e)

  retry_from-first :
      (base left k i : ℕ)
      → i ≤ left
      → ((j : ℕ) → j < i → Fails (k + j))
      → (i < left → (a : A) × (calls (k + i) ≡ ok a))
      → ((retry_from calls base left k).0 ≡ calls (k + i))
        × (length (retry_from calls base left k).1 ≡ i)
        × (waited (retry_from calls base left k).1 + base * 2 ^ k ≡ base * 2 ^ (k + i))
  unfolding retry_from
  retry_from-first base zero k i l before here =
      let now : k ≡ k + i = omega arith in
      (ap calls now, omega arith, from_zero _ _ (ap (λ n. base * 2 ^ n) now))
  retry_from-first base (suc left) k zero l before here =
      let (a, e) = here (omega arith) in
      let now : k ≡ k + 0 = omega arith in
      let gives : calls k ≡ ok a = ap calls now ∙ e in
      rw (gives, retry_from) (sym e, refl, from_zero _ _ (ap (λ n. base * 2 ^ n) now))
  retry_from-first base (suc left) k (suc i) l before here =
      let (e, fails) = before 0 (omega arith) in
      let now : k ≡ k + 0 = omega arith in
      let failed : calls k ≡ err e = ap calls now ∙ fails in
      let later : suc k + i ≡ k + suc i = omega arith in
      let (r, n, w) =
        retry_from-first base left (suc k) i (omega arith)
          (λ j lt. subst Fails (next k j) (before (suc j) (omega arith)))
          (λ lt. let (a, g) = here (omega arith) in (a, ap calls later ∙ g)) in
      rw (failed, retry_from)
        (
          r ∙ ap calls later,
          omega (arith, n),
          doubled (base * 2 ^ k) (base * 2 ^ suc k) _ _ (grind arith) w
              ∙ ap (λ x. base * 2 ^ x) later,
        )

  -- The first call that gives a value gives the result, if there are calls enough, else the last one
  -- does. As many delays are waited for as calls failed before, in all as much as doubling gives:
  -- the base times 2 ^ i - 1 for i of them.
  pub retry_with_backoff-first :
      (max_retries base i : ℕ)
      → i ≤ max_retries
      → ((j : ℕ) → j < i → Fails j)
      → (i < max_retries → (a : A) × (calls i ≡ ok a))
      → ((retry_with_backoff calls max_retries base).0 ≡ calls i)
        × (length (retry_with_backoff calls max_retries base).1 ≡ i)
        × (waited (retry_with_backoff calls max_retries base).1 + base ≡ base * 2 ^ i)
  unfolding retry_with_backoff
  retry_with_backoff-first max_retries base i l before here =
      let (r, n, w) =
        retry_from-first base max_retries 0 i l (λ j lt. subst Fails (start j) (before j lt))
          (λ lt. let (a, g) = here lt in (a, ap calls (sym (start i)) ∙ g)) in
      let one : base * 2 ^ 0 ≡ base = omega arith in
      (
        r ∙ ap calls (sym (start i)),
        n,
        ap (λ x. waited (retry_from calls base max_retries 0).1 + x) (sym one)
            ∙ w
            ∙ ap (λ x. base * 2 ^ x) (sym (start i)),
      )
