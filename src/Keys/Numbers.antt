-- ===== src/Keys/Numbers.antt =====
-- Numbers as bytes and back, in ghost-shard-sdk/src/keys.ts.
use ghost_shard_protocol.Prelude.{
  ℕ, zero, suc, ◌+◌, ◌*◌, ◌/◌, ◌%◌, ◌^◌, ◌<◌, ◌≡◌, refl, ap, ◌∙◌, [], ◌∷◌, ◌++◌, length, arith,
}
use ghost_shard_protocol.Types.Bytes.{append-nil, Bytes, IsBytes, big_endian, big_endian_from}
use ghost_shard_protocol.Keys.{bytes_loop, bytes_to_bigint, bigint_loop, bigint_to_bytes}

big_endian_from-bytes_loop :
    (acc : ℕ) (bytes : Bytes) → bytes_loop acc bytes ≡ big_endian_from acc bytes
unfolding bytes_loop big_endian_from
big_endian_from-bytes_loop acc [] = refl
big_endian_from-bytes_loop acc (b ∷ bytes) = big_endian_from-bytes_loop (acc * 256 + b) bytes

pub bytes_to_bigint_lem : (bytes : Bytes) → bytes_to_bigint bytes ≡ big_endian bytes
unfolding bytes_to_bigint big_endian
bytes_to_bigint_lem bytes = big_endian_from-bytes_loop 0 bytes

bytes_loop-bigint_loop :
    (i n : ℕ) (filled : Bytes)
    → n < 256 ^ i
    → bytes_loop 0 (bigint_loop i n filled) ≡ bytes_loop n filled
unfolding bytes_loop bigint_loop
bytes_loop-bigint_loop zero n filled h = ap (λ x. bytes_loop x filled) (omega arith)
bytes_loop-bigint_loop (suc i) n filled h =
    let smaller : n / 256 < 256 ^ i = omega arith in
    bytes_loop-bigint_loop i (n / 256) (n % 256 ∷ filled) smaller
    ∙ ap (λ x. bytes_loop x filled) (omega arith)

length-bigint_loop :
    (i n : ℕ) (filled : Bytes) → length (bigint_loop i n filled) ≡ i + length filled
unfolding bigint_loop
length-bigint_loop zero n filled = omega arith
length-bigint_loop (suc i) n filled =
    omega (arith, length-bigint_loop i (n / 256) (n % 256 ∷ filled))

pub length-bigint_to_bytes : (n k : ℕ) → length (bigint_to_bytes n k) ≡ k
unfolding bigint_to_bytes
length-bigint_to_bytes n k = omega (arith, length-bigint_loop k n [])

pub bytes_to_bigint-bigint_to_bytes :
    (n k : ℕ) → n < 256 ^ k → bytes_to_bigint (bigint_to_bytes n k) ≡ n
unfolding bytes_to_bigint bigint_to_bytes bytes_loop
bytes_to_bigint-bigint_to_bytes n k h = bytes_loop-bigint_loop k n [] h

-- To fill the places of `bytes` with the number that they spell after `acc` gives `bytes`, and goes
-- on with `acc`.
bigint_loop-bytes_loop :
    (acc j : ℕ) (bytes filled : Bytes)
    → IsBytes bytes
    → bigint_loop (j + length bytes) (bytes_loop acc bytes) filled
      ≡ bigint_loop j acc (bytes ++ filled)
unfolding bytes_loop bigint_loop
bigint_loop-bytes_loop acc j [] filled h =
    let same : j + 0 ≡ j = omega arith in ap (λ x. bigint_loop x acc filled) same
bigint_loop-bytes_loop acc j (b ∷ bytes) filled (hb, hs) =
    let one_more : j + length (b ∷ bytes) ≡ suc j + length bytes = omega arith in
    let acc' = acc * 256 + b in
    let high : acc' / 256 ≡ acc = omega arith in
    let low : acc' % 256 ≡ b = omega arith in
    ap (λ x. bigint_loop x (bytes_loop acc' bytes) filled) one_more
    ∙ bigint_loop-bytes_loop acc' (suc j) bytes filled hs
    ∙ ap (λ x. bigint_loop j x (acc' % 256 ∷ (bytes ++ filled))) high
    ∙ ap (λ x. bigint_loop j acc (x ∷ (bytes ++ filled))) low

written :
    (bytes : Bytes) → IsBytes bytes → bigint_to_bytes (bytes_to_bigint bytes) (length bytes) ≡ bytes
unfolding bigint_to_bytes bytes_to_bigint bigint_loop
written bytes b =
    let same : length bytes ≡ 0 + length bytes = omega arith in
    ap (λ k. bigint_loop k (bytes_loop 0 bytes) []) same
    ∙ bigint_loop-bytes_loop 0 0 bytes [] b
    ∙ append-nil bytes

-- A number that fits in k bytes is written as k bytes that spell it, and the number that bytes
-- spell is written as these bytes.
pub bigint_to_bytes-inverse :
    (n k : ℕ) (bytes : Bytes)
    → n < 256 ^ k
    → IsBytes bytes
    → (bytes_to_bigint (bigint_to_bytes n k) ≡ n)
      × (length (bigint_to_bytes n k) ≡ k)
      × (bigint_to_bytes (bytes_to_bigint bytes) (length bytes) ≡ bytes)
bigint_to_bytes-inverse n k bytes h b =
    (bytes_to_bigint-bigint_to_bytes n k h, length-bigint_to_bytes n k, written bytes b)
