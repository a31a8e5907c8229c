-- ===== src/Viem.antt =====
-- What the program relies on of the library viem.
pub mod Instances
use ghost_shard_protocol.Prelude.{◌≡◌, ◌↔◌, Bool, true, Bool-cases, inl, inr, sym, refl, ◌∙◌, ◌∷◌}
use ghost_shard_protocol.Types.Bytes.{Bytes, IsBytes}
use ghost_shard_protocol.Prelude.{ℕ, Option, some, length, ◌<◌, ◌^◌}
use ghost_shard_protocol.Prelude.Int.{ℤ, pos}
use ghost_shard_protocol.Types.Hex.{HexString, lower, hex_eq, hex_eq_iff}

-- `isAddressEqual` compares two addresses whatever the case of their letters. It throws on a string
-- that is no address: the addresses that the model compares are taken to be well formed.
pub record AddressEq : Type 0 where
  pub is_address_equal : HexString → HexString → Bool
  pub is_address_equal_iff : (a b : HexString) → (is_address_equal a b ≡ true) ↔ (lower a ≡ lower b)

-- An instance, for tests.
abbrev pub by_lower : AddressEq
by_lower = record {
  is_address_equal = λ a b. hex_eq (lower a) (lower b);
  is_address_equal_iff = λ a b. hex_eq_iff (lower a) (lower b);
}

module _ (v : AddressEq) where
  -- Equal addresses give equal answers, on either side.
  pub is_address_equal-congr :
      (a b c : HexString)
      → v.is_address_equal a b ≡ true
      → v.is_address_equal c a ≡ v.is_address_equal c b
  is_address_equal-congr a b c h =
      let same = (v.is_address_equal_iff a b).0 h in
      elim (Bool-cases (v.is_address_equal c a)) [
        | inl e ↦ e ∙ sym ((v.is_address_equal_iff c b).1 ((v.is_address_equal_iff c a).0 e ∙ same))
        | inr e ↦ elim (Bool-cases (v.is_address_equal c b)) [
          | inl e' ↦
              (v.is_address_equal_iff c a).1 ((v.is_address_equal_iff c b).0 e' ∙ sym same) ∙ sym e'
          | inr e' ↦ e ∙ sym e'
        ]
      ]

  pub is_address_equal_refl : (a : HexString) → v.is_address_equal a a ≡ true
  is_address_equal_refl a = (v.is_address_equal_iff a a).1 refl

  pub is_address_equal_sym : (a b : HexString) → v.is_address_equal a b ≡ v.is_address_equal b a
  is_address_equal_sym a b = elim (Bool-cases (v.is_address_equal a b)) [
    | inl e ↦ e ∙ sym ((v.is_address_equal_iff b a).1 (sym ((v.is_address_equal_iff a b).0 e)))
    | inr e ↦ elim (Bool-cases (v.is_address_equal b a)) [
      | inl e' ↦ (v.is_address_equal_iff a b).1 (sym ((v.is_address_equal_iff b a).0 e')) ∙ sym e'
      | inr e' ↦ e ∙ sym e'
    ]
  ]

-- Bytes, hex strings and numbers. `hexToBytes` throws on a string that is not hex, `numberToBytes` on
-- a number that is negative or too large for the size.
pub record Codec : Type 0 where
  pub bytes_to_hex : Bytes → HexString
  pub hex_to_bytes : HexString → Option Bytes
  pub number_to_bytes : ℤ → ℕ → Option Bytes
  pub bytes_to_bigint : Bytes → ℕ
  pub digits : Bytes → HexString
  pub bytes_to_hex_lem : (bytes : Bytes) → bytes_to_hex bytes ≡ b'0' ∷ b'x' ∷ digits bytes
  pub hex_to_bytes-bytes_to_hex :
      (bytes : Bytes) → IsBytes bytes → hex_to_bytes (bytes_to_hex bytes) ≡ some bytes
  pub hex_to_bytes-IsBytes :
      (s : HexString) (bytes : Bytes) → hex_to_bytes s ≡ some bytes → IsBytes bytes
  pub number_to_bytes_fits :
      (n size : ℕ)
      → n < 256 ^ size
      → (bytes : Bytes) × (number_to_bytes (pos n) size ≡ some bytes)
        × (length bytes ≡ size)
        × IsBytes bytes
        × (bytes_to_bigint bytes ≡ n)
