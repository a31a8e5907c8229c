-- ===== src/Viem/Instances.antt =====
-- A concrete codec for tests: lower case hex digits, two for each byte.
use ghost_shard_protocol.Prelude.{
  ℕ, zero, suc, ◌+◌, ◌*◌, ◌%◌, ◌/◌, ◌-◌, ◌^◌, ◌<◌, ◌≡◌, refl, sym, ap, true, [], ◌∷◌, Option, none,
  some, length, ltb, leb, ◌==◌, if◌then◌else◌, arith, Bool-cases, inl, inr, ◌&&◌,
}
use ghost_shard_protocol.Prelude.Int.{ℤ, pos, negsuc}
use ghost_shard_protocol.Types.Bytes.{Bytes, IsBytes}
use ghost_shard_protocol.Types.Hex.{HexString}
use ghost_shard_protocol.Viem.{Codec}
use ghost_shard_protocol.Keys.{bigint_to_bytes, bytes_to_bigint, bigint_loop}
use ghost_shard_protocol.Keys.Numbers.{bytes_to_bigint-bigint_to_bytes, length-bigint_to_bytes}

abbrev pub hex_digit : ℕ → ℕ
hex_digit n = if ltb n 10 then b'0' + n else b'a' + n - 10

abbrev pub digit_value : ℕ → Option ℕ
digit_value c =
    if leb b'0' c && leb c b'9'
    then some (c - b'0')
    else if leb b'a' c && leb c b'f'
    then some (c - b'a' + 10)
    else none

abbrev pub hex_digits : Bytes → HexString
hex_digits [] = []
hex_digits (b ∷ bytes) = hex_digit (b / 16) ∷ hex_digit (b % 16) ∷ hex_digits bytes

abbrev pub join_digits : Option ℕ → Option ℕ → Option Bytes → Option Bytes
join_digits (some x) (some y) (some bytes) = some ((x * 16 + y) ∷ bytes)
join_digits (some x) (some y) none = none
join_digits (some x) none o = none
join_digits none p o = none

abbrev pub read_digits : HexString → Option Bytes
read_digits [] = some []
read_digits (c ∷ []) = none
read_digits (c ∷ d ∷ s) = join_digits (digit_value c) (digit_value d) (read_digits s)

abbrev pub read_hex : HexString → Option Bytes
read_hex [] = none
read_hex (c ∷ []) = none
read_hex (c ∷ d ∷ s) = if c == b'0' && d == b'x' then read_digits s else none

digit_value-hex_digit : (n : ℕ) → n < 16 → digit_value (hex_digit n) ≡ some n
digit_value-hex_digit n h = ground arith

digit_value-lt : (c n : ℕ) → digit_value c ≡ some n → n < 16
digit_value-lt c n h = ground arith

pub read_digits-hex_digits :
    (bytes : Bytes) → IsBytes bytes → read_digits (hex_digits bytes) ≡ some bytes
read_digits-hex_digits [] h = refl
read_digits-hex_digits (b ∷ bytes) (hb, hs) =
    let whole : b / 16 * 16 + b % 16 ≡ b = omega arith in
    rw
      (
        digit_value-hex_digit (b / 16) (omega arith),
        digit_value-hex_digit (b % 16) (omega arith),
        read_digits-hex_digits bytes hs,
      )
      (ap (λ x. some (x ∷ bytes)) whole)

join_digits-IsBytes :
    (o p : Option ℕ) (q : Option Bytes) (bytes : Bytes)
    → ((n : ℕ) → o ≡ some n → n < 16)
    → ((n : ℕ) → p ≡ some n → n < 16)
    → ((xs : Bytes) → q ≡ some xs → IsBytes xs)
    → join_digits o p q ≡ some bytes
    → IsBytes bytes
join_digits-IsBytes (some x) (some y) (some xs) bytes f g k h =
    let small = f x refl in
    let small' = g y refl in
    let byte : IsBytes ((x * 16 + y) ∷ xs) = (omega arith, k xs refl) in
    let same : ((x * 16 + y) ∷ xs) ≡ bytes =
      ap (λ r. elim r [ none ↦ ((x * 16 + y) ∷ xs) | some z ↦ z ]) h in
    rw (sym same) byte
join_digits-IsBytes (some x) (some y) none bytes f g k h = cc
join_digits-IsBytes (some x) none q bytes f g k h = cc
join_digits-IsBytes none p q bytes f g k h = cc

read_digits-IsBytes : (s : HexString) (bytes : Bytes) → read_digits s ≡ some bytes → IsBytes bytes
read_digits-IsBytes [] bytes h =
    let same = ap (λ r. elim r [ none ↦ bytes | some z ↦ z ]) h in rw (sym same) tt
read_digits-IsBytes (c ∷ []) bytes h = cc
read_digits-IsBytes (c ∷ d ∷ s) bytes h =
    join_digits-IsBytes (digit_value c) (digit_value d) (read_digits s) bytes (digit_value-lt c)
      (digit_value-lt d) (read_digits-IsBytes s) h

pub read_hex-IsBytes : (s : HexString) (bytes : Bytes) → read_hex s ≡ some bytes → IsBytes bytes
read_hex-IsBytes [] bytes h = cc
read_hex-IsBytes (c ∷ []) bytes h = cc
read_hex-IsBytes (c ∷ d ∷ s) bytes h = elim (Bool-cases (c == b'0' && d == b'x')) [
  | inl e ↦ read_digits-IsBytes s bytes (rw e at h)
  | inr e ↦ let bad = rw e at h in cc
]

IsBytes-bigint_loop : (i n : ℕ) (filled : Bytes) → IsBytes filled → IsBytes (bigint_loop i n filled)
unfolding bigint_loop
IsBytes-bigint_loop zero n filled h = h
IsBytes-bigint_loop (suc i) n filled h =
    IsBytes-bigint_loop i (n / 256) (n % 256 ∷ filled) (omega arith, h)

abbrev pub number_bytes : ℤ → ℕ → Option Bytes
number_bytes (pos n) size = if ltb n (256 ^ size) then some (bigint_to_bytes n size) else none
number_bytes (negsuc n) size = none

pub number_bytes_fits :
    (n size : ℕ)
    → n < 256 ^ size
    → (bytes : Bytes) × (number_bytes (pos n) size ≡ some bytes)
      × (length bytes ≡ size)
      × IsBytes bytes
      × (bytes_to_bigint bytes ≡ n)
unfolding bigint_to_bytes
number_bytes_fits n size h =
    let fits : ltb n (256 ^ size) ≡ true = ground arith in
    (
      bigint_to_bytes n size,
      rw fits refl,
      length-bigint_to_bytes n size,
      IsBytes-bigint_loop size n [] tt,
      bytes_to_bigint-bigint_to_bytes n size h,
    )

abbrev pub lower_hex : Codec
lower_hex = record {
  bytes_to_hex = λ bytes. b'0' ∷ b'x' ∷ hex_digits bytes;
  hex_to_bytes = read_hex;
  number_to_bytes = number_bytes;
  bytes_to_bigint = bytes_to_bigint;
  digits = hex_digits;
  bytes_to_hex_lem = λ bytes. refl;
  hex_to_bytes-bytes_to_hex = read_digits-hex_digits;
  hex_to_bytes-IsBytes = read_hex-IsBytes;
  number_to_bytes_fits = number_bytes_fits;
}
