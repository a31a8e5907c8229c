-- ===== src/Keys/Examples.antt =====
-- The theorems about the keys at concrete inputs: the integers modulo 7 for the curve.
use ghost_shard_protocol.Prelude.{ℕ, ◌≡◌, refl, [], ◌∷◌, ◌++◌, length, ok, arith}
use ghost_shard_protocol.Types.Bytes.{Bytes, zeros, big_endian}
use ghost_shard_protocol.Viem.Instances.{lower_hex}
use ghost_shard_protocol.Noble.Instances.{mod_seven, sums}
use ghost_shard_protocol.Keys.{
  KeySet, bytes_to_bigint, bigint_to_bytes, derive_keys, compute_stealth_address,
  derive_shard_private_key, hex,
}
use ghost_shard_protocol.Keys.Numbers.{bigint_to_bytes-inverse}
use ghost_shard_protocol.Keys.Normal.{IsKeySet, derive_keys-IsKeySet}
use ghost_shard_protocol.Keys.Ownership.{compute_stealth_address_lem, address_of}

bigint_to_bytes_run : bigint_to_bytes 66051 4 ≡ 0 ∷ 1 ∷ 2 ∷ 3 ∷ []
unfolding bigint_to_bytes
bigint_to_bytes_run = refl

-- A private key, and its public key.
abbrev private_key : ℕ → Bytes
private_key k = zeros 31 ++ k ∷ []

abbrev public_key : ℕ → Bytes
public_key k = k ∷ zeros 32

bigint_to_bytes-inverse_example :
    (bytes_to_bigint (bigint_to_bytes 66051 4) ≡ 66051)
    × (length (bigint_to_bytes 66051 4) ≡ 4)
    × (bigint_to_bytes (bytes_to_bigint (1 ∷ 0 ∷ 255 ∷ [])) 3 ≡ 1 ∷ 0 ∷ 255 ∷ [])
bigint_to_bytes-inverse_example =
    bigint_to_bytes-inverse 66051 4 (1 ∷ 0 ∷ 255 ∷ []) (omega arith)
      (omega arith, (omega arith, (omega arith, tt)))

derive_keys-IsKeySet_example :
    (spending_public : Bytes) × (viewing_public : Bytes) × (let keys : KeySet = record {
      spending_private_key = sums.hkdf (5 ∷ []) [] (hex "ghost-shard-spending-key") 32;
      spending_public_key = spending_public;
      viewing_private_key = sums.hkdf (5 ∷ []) [] (hex "ghost-shard-viewing-key") 32;
      viewing_public_key = viewing_public;
      db_encryption_key = sums.hkdf (5 ∷ []) [] (hex "ghost-shard-db-encryption-key") 32;
    } in
      (derive_keys sums mod_seven (5 ∷ []) ≡ ok keys) × IsKeySet sums mod_seven keys)
unfolding big_endian
derive_keys-IsKeySet_example =
    derive_keys-IsKeySet sums mod_seven (5 ∷ []) 0 0 (omega arith) (omega arith)
      (refl, λ j h. absurd (omega arith)) (refl, λ j h. absurd (omega arith))

compute_stealth_address_lem_example :
    compute_stealth_address sums mod_seven lower_hex (public_key 3) (private_key 2)
    ≡ address_of sums mod_seven lower_hex
        (derive_shard_private_key sums mod_seven (private_key 3) (private_key 2))
unfolding big_endian
compute_stealth_address_lem_example =
    compute_stealth_address_lem sums mod_seven lower_hex (private_key 3) (public_key 3)
      (private_key 2) refl refl refl
