-- ===== src/Noble/Instances.antt =====
-- Concrete libraries for tests: the integers modulo 7 for the curve, and hashes and a cipher that hide
-- nothing.
use ghost_shard_protocol.Prelude.{
  take, ℕ, zero, suc, ◌+◌, ◌*◌, ◌%◌, ◌/◌, ◌≡◌, ◌≢◌, refl, sym, ap, ◌∙◌, Bool, true, false, List, [],
  ◌∷◌, ◌++◌, Option, none, some, length, ◌==◌, if◌then◌else◌, arith, ◌-◌, map,
}
use native.Mathlib.Nat.{add-mul-mod_self_right}
use ghost_shard_protocol.Prelude.{All-append, length-append}
use ghost_shard_protocol.Types.Bytes.{
  take-append, Bytes, IsBytes, IsByte, big_endian, zeros, IsBytes-zeros,
}
use ghost_shard_protocol.Noble.{Curve, Hashes, Cipher, in_range, is_private_key, key_size}

-- The first byte of a point's bytes is the point.
abbrev pub point_bytes : ℕ → Bool → Option Bytes
point_bytes p compressed = if p == 0 then none else some (p ∷ zeros (key_size compressed - 1))

abbrev pub bytes_point : Bytes → Option ℕ
bytes_point [] = none
bytes_point (b ∷ bytes) = if in_range 7 b then some b else none

abbrev pub shared_bytes : Option ℕ → Bytes → Bool → Option Bytes
shared_bytes none key compressed = none
shared_bytes (some p) key compressed =
    if is_private_key 7 key then point_bytes ((big_endian key * p) % 7) compressed else none

pub mod_scale : (a b : ℕ) → (a * ((b * 1) % 7)) % 7 ≡ ((a * b) * 1) % 7
mod_scale a b =
    let r = (b * 1) % 7 in
    let q = b / 7 in
    let parts : b ≡ r + 7 * q = omega arith in
    let whole : (a * b) * 1 ≡ a * r + (a * q) * 7 = ap (λ x. (a * x) * 1) parts ∙ grind arith in
    sym (ap (λ x. x % 7) whole ∙ add-mul-mod_self_right (a * r) (a * q) 7)

length-point :
    (p : ℕ) (compressed : Bool) → length (p ∷ zeros (key_size compressed - 1)) ≡ key_size compressed
length-point p true = refl
length-point p false = refl

pub point_bytes-zero :
    (k : ℕ) (compressed : Bool) → k % 7 ≡ 0 → point_bytes ((k * 1) % 7) compressed ≡ none
point_bytes-zero k compressed h = let e : (((k * 1) % 7) == 0) ≡ true = ground arith in rw e refl

pub point_bytes-scale :
    (k : ℕ) (compressed : Bool)
    → k % 7 ≢ 0
    → (bytes : Bytes) × (point_bytes ((k * 1) % 7) compressed ≡ some bytes)
      × (length bytes ≡ key_size compressed)
      × IsBytes bytes
      × (bytes_point bytes ≡ some ((k * 1) % 7))
point_bytes-scale k compressed h =
    let p = (k * 1) % 7 in
    let some_point : (p == 0) ≡ false = ground arith in
    let inside : in_range 7 p ≡ true = ground arith in
    (
      p ∷ zeros (key_size compressed - 1),
      rw some_point refl,
      length-point p compressed,
      (omega arith, IsBytes-zeros (key_size compressed - 1)),
      rw inside refl,
    )

abbrev pub mod_seven : Curve
mod_seven = record {
  Point = ℕ;
  order = 7;
  base = 1;
  add = λ p q. (p + q) % 7;
  scale = λ k p. (k * p) % 7;
  to_bytes = point_bytes;
  from_hex = bytes_point;
  multiply = λ p k. if in_range 7 k then some ((k * p) % 7) else none;
  get_public_key = λ key compressed.
      if is_private_key 7 key then point_bytes ((big_endian key * 1) % 7) compressed else none;
  get_shared_secret =
      λ key public_key compressed. shared_bytes (bytes_point public_key) key compressed;
  order_pos = omega arith;
  order_fits = omega arith;
  scale-add = λ a b. omega arith;
  scale-scale = mod_scale;
  scale-mod = λ a. omega arith;
  to_bytes-zero = point_bytes-zero;
  to_bytes-scale = point_bytes-scale;
  multiply_lem = λ p k. refl;
  get_public_key_lem = λ key compressed. refl;
  get_shared_secret_lem = λ key public_key p compressed valid e. rw (e, valid) refl;
}

-- As many bytes as asked for, out of `xs`, and zeros after them.
abbrev pub pad : ℕ → Bytes → Bytes
pad zero xs = []
pad (suc n) [] = 0 ∷ pad n []
pad (suc n) (x ∷ xs) = (x % 256) ∷ pad n xs

pub length-pad : (n : ℕ) (xs : Bytes) → length (pad n xs) ≡ n
length-pad zero xs = refl
length-pad (suc n) [] = ap suc (length-pad n [])
length-pad (suc n) (x ∷ xs) = ap suc (length-pad n xs)

pub IsBytes-pad : (n : ℕ) (xs : Bytes) → IsBytes (pad n xs)
IsBytes-pad zero xs = tt
IsBytes-pad (suc n) [] = (omega arith, IsBytes-pad n [])
IsBytes-pad (suc n) (x ∷ xs) = (omega arith, IsBytes-pad n xs)

-- The sum of the bytes, modulo 6 and one more, at the end of 31 zeros.
abbrev pub byte_sum : Bytes → ℕ
byte_sum [] = 0
byte_sum (x ∷ xs) = x + byte_sum xs

abbrev pub total_bytes : Bytes → Bytes
total_bytes xs = zeros 31 ++ (byte_sum xs % 6 + 1) ∷ []

abbrev pub sums : Hashes
sums = record {
  keccak_256 = λ bytes. pad 32 (total_bytes bytes);
  hkdf = λ ikm salt info n. pad n (total_bytes (ikm ++ info));
  keccak_256_size = λ bytes. refl;
  keccak_256-IsBytes = λ bytes. IsBytes-pad 32 (total_bytes bytes);
  hkdf_size = λ ikm salt info n. length-pad n (total_bytes (ikm ++ info));
}

pub length-padded : (xs : Bytes) → length (xs ++ zeros 16) ≡ length xs + 16
length-padded xs = omega (arith, length-append xs (zeros 16))

-- All but the last 16 bytes.
abbrev pub cut : Bytes → Option Bytes
cut xs = some (take (length xs - 16) xs)

pub cut_padded : (xs : Bytes) → cut (xs ++ zeros 16) ≡ some xs
cut_padded xs = ap some (take-append xs (zeros 16) _ (omega (arith, length-append xs (zeros 16))))

abbrev pub bits : List Bool → Bytes
bits = map (λ b. if b then 1 else 0)

pub IsBytes-bits : (text : List Bool) → IsBytes (bits text)
IsBytes-bits [] = tt
IsBytes-bits (true ∷ text) = (omega arith, IsBytes-bits text)
IsBytes-bits (false ∷ text) = (omega arith, IsBytes-bits text)

pub read-bits : (text : List Bool) → map (λ b. b == 1) (bits text) ≡ text
read-bits [] = refl
read-bits (true ∷ text) = ap (◌∷◌ true) (read-bits text)
read-bits (false ∷ text) = ap (◌∷◌ false) (read-bits text)

abbrev pub plain : Cipher
plain = record {
  encrypt = λ key iv text. text ++ zeros 16;
  decrypt = λ key iv bytes. cut bytes;
  encrypt_size = λ key iv text. length-padded text;
  encrypt-IsBytes = λ key iv text h. All-append IsByte text (zeros 16) h (IsBytes-zeros 16);
  decrypt-encrypt = λ key iv text. cut_padded text;
  Text = List Bool;
  text_length = length;
  encode_text = bits;
  decode_text = map (λ b. b == 1);
  encode_text-IsBytes = IsBytes-bits;
  decode_text-encode_text = read-bits;
}
