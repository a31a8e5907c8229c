-- ===== src/Paymaster/Examples.antt =====
-- The theorems about the paymaster at concrete inputs.
use ghost_shard_protocol.Prelude.{◌≡◌, refl, true, [], ◌∷◌, none, some, ok, arith, inl}
use ghost_shard_protocol.Prelude.Int.{pos, ◌*ℤ◌, ◌+ℤ◌, ◌-ℤ◌, ◌/ℤ◌}
use ghost_shard_protocol.Types.Hex.{HexString, hex, hex_eq, lower}
use ghost_shard_protocol.GasEngine.{
  exact_number, MeshResult, sim_done, call_gas, estimate_gas_with_double_simulation,
  pre_verification_gas, verification_gas,
}
use ghost_shard_protocol.Paymaster.{
  build_paymaster_hash, Account, Node, Quote, decoded, sign_handler, allowed_users,
  ensure_user_allowed,
}
use ghost_shard_protocol.Paymaster.Allowlist.{Entry, IsEntry, ensure_user_allowed-allowed_users}

abbrev mesh : MeshResult
mesh = record {
  success = true;
  total_gas_used = pos 90000;
  inner_call_gas_used = pos 50000;
  revert_reason = hex "0x";
}

abbrev node : Node
node = record {
  chain_id = 1;
  router_address = hex "0xee";
  keccak_256 = λ s. s;
  encode_commands = λ commands. some [];
  encode_announcements = λ announcements. some [];
  encode_limits = λ limits. some [];
  encode_params = λ chain_id router commands announcements valid_until limits. some (hex "0x07");
  js = exact_number;
  simulate = λ params signature overrides. decoded true (hex "0x");
  decode_error = λ reason. none;
  double_simulate =
      λ commands announcements signature valid_until limits. sim_done (some mesh) (pos 120000);
  base_fee = pos 100;
  now = 1000;
}

abbrev account : Account
account = record { address = hex "0xfa"; sign_message = λ message. message }

abbrev quote : Quote
quote = record {
  commands = [];
  announcements = [];
  limits = record {
    verification_gas_limit = pos 46000;
    call_gas_limit = pos 105000;
    pre_verification_gas = pos 30000;
    max_fee_per_gas = pos 1500000200;
  };
  paymaster = hex "0xfa";
  valid_until = 1300;
  paymaster_signature = hex "0x07";
}

sign_handler_run :
    sign_handler node (some account) (some []) (some []) (some (hex "0x01")) ≡ ok quote
unfolding sign_handler build_paymaster_hash estimate_gas_with_double_simulation verification_gas
    call_gas pre_verification_gas ◌+ℤ◌ ◌/ℤ◌ ◌-ℤ◌ ◌*ℤ◌
sign_handler_run = refl

abbrev env : HexString
env = hex " 0xAb ,,0xcd"

allowed_users_run : allowed_users env ≡ hex "0xab" ∷ hex "0xcd" ∷ []
unfolding allowed_users lower
allowed_users_run = refl

abbrev first : Entry
first = record { before = hex " "; name = hex "0xAb"; behind = hex " " }

abbrev empty : Entry
empty = record { before = []; name = []; behind = [] }

abbrev second : Entry
second = record { before = []; name = hex "0xcd"; behind = [] }

first-IsEntry : IsEntry first
first-IsEntry = (
  (inl refl, tt),
  (
    (omega arith, omega arith, λ h. absurd (omega (arith, h))),
    (
      (omega arith, omega arith, λ h. absurd (omega (arith, h))),
      (
        (omega arith, omega arith, λ h. absurd (omega (arith, h))),
        ((omega arith, omega arith, λ h. absurd (omega (arith, h))), tt),
      ),
    ),
  ),
  (inl refl, tt),
)

second-IsEntry : IsEntry second
second-IsEntry = (
  tt,
  (
    (omega arith, omega arith, λ h. absurd (omega (arith, h))),
    (
      (omega arith, omega arith, λ h. absurd (omega (arith, h))),
      (
        (omega arith, omega arith, λ h. absurd (omega (arith, h))),
        ((omega arith, omega arith, λ h. absurd (omega (arith, h))), tt),
      ),
    ),
  ),
  tt,
)

ensure_user_allowed-allowed_users_example :
    (allowed_users env ≡ hex "0xab" ∷ hex "0xcd" ∷ [])
    × (ensure_user_allowed (allowed_users env) (some (hex "0xCD")) ≡ ok tt)
unfolding lower hex_eq
ensure_user_allowed-allowed_users_example =
    ensure_user_allowed-allowed_users first (empty ∷ second ∷ []) (hex "0xCD") first-IsEntry
      ((tt, tt, tt), (second-IsEntry, tt))
