-- ===== src/MetaAddress/Examples.antt =====
-- The theorems about meta addresses at concrete inputs.
use ghost_shard_protocol.Prelude.{◌≡◌, refl, false, ◌∷◌, ok, ◌>>=◌, arith}
use ghost_shard_protocol.Types.Bytes.{zeros, IsBytes-zeros}
use ghost_shard_protocol.Types.Hex.{hex}
use ghost_shard_protocol.Viem.Instances.{lower_hex}
use ghost_shard_protocol.Noble.Instances.{mod_seven}
use ghost_shard_protocol.MetaAddress.{
  PublicKeys, encode_meta_address, decode_meta_address, is_meta_address,
}
use ghost_shard_protocol.MetaAddress.RoundTrip.{decode_meta_address-encode_meta_address}

abbrev keys : PublicKeys
keys = record { spending_public_key = 3 ∷ zeros 32; viewing_public_key = 5 ∷ zeros 32 }

is_meta_address_run : is_meta_address (hex "st:eth:0x12") ≡ false
unfolding is_meta_address
is_meta_address_run = refl

decode_meta_address-encode_meta_address_example :
    (encode_meta_address lower_hex keys >>= decode_meta_address lower_hex mod_seven)
    ≡ ok (record {
      scheme_id = 1;
      spending_public_key = 3 ∷ zeros 32;
      viewing_public_key = 5 ∷ zeros 32;
    })
decode_meta_address-encode_meta_address_example =
    decode_meta_address-encode_meta_address lower_hex mod_seven keys refl refl
      (omega arith, IsBytes-zeros 32) (omega arith, IsBytes-zeros 32)
