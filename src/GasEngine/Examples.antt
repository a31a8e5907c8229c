-- ===== src/GasEngine/Examples.antt =====
-- Runs of the gas engine, and its theorems at concrete inputs.
use ghost_shard_protocol.Prelude.{ℕ, ◌≡◌, refl, true, [], ◌∷◌, map, some, arith, ok}
use ghost_shard_protocol.Prelude.Int.{pos, ◌+ℤ◌, ◌-ℤ◌, ◌*ℤ◌, ◌/ℤ◌, ◌≤ℤ◌, ◌<ℤ◌}
use Prim.Native.String.{String}
use ghost_shard_protocol.Types.Hex.{hex, hex_eq, lower}
use ghost_shard_protocol.GasEngine.{
  TransferCommand, entry_of, extract_authorization_list, limits_of, exact_number, sim_done,
  estimate_gas_with_double_simulation, extract_loop, verification_gas, call_gas, has,
  pre_verification_gas,
}
use ghost_shard_protocol.GasEngine.Authorizations.{first_of_each, extract_authorization_list-first}
use ghost_shard_protocol.GasEngine.Limits.{limits_of-cover}

abbrev command : String → ℕ → TransferCommand
command a n = record {
  shard = hex a;
  asset_type = 0;
  token = hex "0x00";
  to = hex "0xee";
  value = pos n;
  signature = hex "0x05";
  authorization = record {
    target_address = hex "0xdd";
    chain_id = 1;
    nonce = n;
    y_parity = 0;
    r = hex "0x1";
    s = hex "0x2";
  };
}

extract_authorization_list-first_example :
    extract_authorization_list (command "0xA1" 1 ∷ command "0xb2" 2 ∷ command "0xa1" 3 ∷ [])
    ≡ some
        (map entry_of (first_of_each (command "0xA1" 1 ∷ command "0xb2" 2 ∷ command "0xa1" 3 ∷ [])))
extract_authorization_list-first_example =
    extract_authorization_list-first (command "0xA1" 1) (command "0xb2" 2 ∷ command "0xa1" 3 ∷ [])

-- Two shards, and so two entries.
two_entries :
    extract_authorization_list (command "0xA1" 1 ∷ command "0xb2" 2 ∷ command "0xa1" 3 ∷ [])
    ≡ some (entry_of (command "0xA1" 1) ∷ entry_of (command "0xb2" 2) ∷ [])
unfolding extract_authorization_list extract_loop has hex_eq lower
two_entries = refl

limits_of-cover_example :
    let l = limits_of exact_number (pos 400000) (pos 300000) (pos 200000) (pos 9) in
    let sum = l.verification_gas_limit +ℤ l.call_gas_limit +ℤ l.pre_verification_gas in
    (pos 400000 +ℤ pos 40000 ≤ℤ sum)
    × (pos 300000 +ℤ pos 40000 <ℤ sum)
    × (pos 200000 +ℤ pos 40000 ≤ℤ l.call_gas_limit)
    × (pos 300000 -ℤ pos 200000 ≤ℤ l.verification_gas_limit)
    × (pos 0 <ℤ l.pre_verification_gas)
limits_of-cover_example =
    limits_of-cover exact_number (pos 400000) (pos 300000) (pos 200000) (pos 9) (omega arith)
      (omega arith) (omega arith) (omega arith)

limits_run :
    estimate_gas_with_double_simulation exact_number
      (sim_done
        (some (record {
          total_gas_used = pos 300000;
          inner_call_gas_used = pos 200000;
          success = true;
          revert_reason = [];
        }))
        (pos 400000))
      (pos 9)
      1000
    ≡ ok (
      record {
        verification_gas_limit = pos 115000;
        call_gas_limit = pos 300000;
        pre_verification_gas = pos 100000;
        max_fee_per_gas = pos 9;
      },
      1300,
    )
unfolding estimate_gas_with_double_simulation limits_of verification_gas call_gas
    pre_verification_gas ◌+ℤ◌ ◌-ℤ◌ ◌*ℤ◌ ◌/ℤ◌
limits_run = refl
