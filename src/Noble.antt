-- ===== src/Noble.antt =====
-- What the SDK relies on of the library noble: the curve secp256k1 (@noble/curves) and the hashes
-- (@noble/hashes), and of the AES-GCM cipher of the platform.
pub mod Instances
use ghost_shard_protocol.Prelude.{
  ℕ, ◌+◌, ◌*◌, ◌%◌, ◌^◌, ◌≤◌, ◌<◌, ◌≡◌, ◌≢◌, Bool, true, false, ◌&&◌, Option, none, some, length,
  ltb, ◌==◌, if◌then◌else◌,
}
use ghost_shard_protocol.Types.Bytes.{Bytes, IsBytes, big_endian}
use ghost_shard_protocol.Types.Hex.{HexString}

-- A scalar of a key: not zero, and less than the order.
abbrev pub in_range : ℕ → ℕ → Bool
in_range order k = ltb 0 k && ltb k order

-- A private key: 32 bytes that spell such a scalar.
abbrev pub is_private_key : ℕ → Bytes → Bool
is_private_key order key = length key == 32 && in_range order (big_endian key)

-- How many bytes a public key takes, compressed or not.
abbrev pub key_size : Bool → ℕ
key_size compressed = if compressed then 33 else 65

-- A group of prime order with a generator, and the functions that throw. `scale k p` is the sum of k
-- times p.
pub record Curve : Type 1 where
  pub Point : Type 0
  pub order : ℕ
  pub base : Point
  pub add : Point → Point → Point
  pub scale : ℕ → Point → Point
  -- `Point.toBytes(compressed)` throws on the zero of the group, `Point.fromHex` on bytes that are
  -- no other point.
  pub to_bytes : Point → Bool → Option Bytes
  pub from_hex : Bytes → Option Point
  -- `p.multiply(k)`
  pub multiply : Point → ℕ → Option Point
  -- `getPublicKey(privateKey, compressed)` and `getSharedSecret(privateKey, publicKey, compressed)`
  pub get_public_key : Bytes → Bool → Option Bytes
  pub get_shared_secret : Bytes → Bytes → Bool → Option Bytes
  pub order_pos : 1 < order
  pub order_fits : order ≤ 256 ^ 32
  pub scale-add : (a b : ℕ) → scale (a + b) base ≡ add (scale a base) (scale b base)
  pub scale-scale : (a b : ℕ) → scale a (scale b base) ≡ scale (a * b) base
  pub scale-mod : (a : ℕ) → scale (a % order) base ≡ scale a base
  pub to_bytes-zero :
      (k : ℕ) (compressed : Bool) → k % order ≡ 0 → to_bytes (scale k base) compressed ≡ none
  pub to_bytes-scale :
      (k : ℕ) (compressed : Bool)
      → k % order ≢ 0
      → (bytes : Bytes) × (to_bytes (scale k base) compressed ≡ some bytes)
        × (length bytes ≡ key_size compressed)
        × IsBytes bytes
        × (from_hex bytes ≡ some (scale k base))
  pub multiply_lem :
      (p : Point) (k : ℕ) → multiply p k ≡ (if in_range order k then some (scale k p) else none)
  pub get_public_key_lem :
      (key : Bytes) (compressed : Bool)
      → get_public_key key compressed ≡ (
          if is_private_key order key
          then to_bytes (scale (big_endian key) base) compressed
          else none)
  -- The shared secret of a key with the public key of another one is a point, written out.
  pub get_shared_secret_lem :
      (key public_key : Bytes) (p : Point) (compressed : Bool)
      → is_private_key order key ≡ true
      → from_hex public_key ≡ some p
      → get_shared_secret key public_key compressed ≡ to_bytes (scale (big_endian key) p) compressed

pub record Hashes : Type 0 where
  pub keccak_256 : Bytes → Bytes
  -- `hkdf(sha256, ikm, salt, info, length)`
  pub hkdf : Bytes → Bytes → HexString → ℕ → Bytes
  pub keccak_256_size : (bytes : Bytes) → length (keccak_256 bytes) ≡ 32
  pub keccak_256-IsBytes : (bytes : Bytes) → IsBytes (keccak_256 bytes)
  pub hkdf_size : (ikm salt : Bytes) (info : HexString) (n : ℕ) → length (hkdf ikm salt info n) ≡ n

-- AES-GCM under a key and an initialization vector, and UTF-8. `Text` is the type of the strings that
-- are well formed.
pub record Cipher : Type 1 where
  pub encrypt : Bytes → Bytes → Bytes → Bytes
  pub decrypt : Bytes → Bytes → Bytes → Option Bytes
  -- The tag takes 16 bytes.
  pub encrypt_size : (key iv text : Bytes) → length (encrypt key iv text) ≡ length text + 16
  pub encrypt-IsBytes : (key iv text : Bytes) → IsBytes text → IsBytes (encrypt key iv text)
  pub decrypt-encrypt : (key iv text : Bytes) → decrypt key iv (encrypt key iv text) ≡ some text
  pub Text : Type 0
  -- `text.length`
  pub text_length : Text → ℕ
  -- `TextEncoder.encode` and `TextDecoder.decode`
  pub encode_text : Text → Bytes
  pub decode_text : Bytes → Text
  pub encode_text-IsBytes : (text : Text) → IsBytes (encode_text text)
  pub decode_text-encode_text : (text : Text) → decode_text (encode_text text) ≡ text
