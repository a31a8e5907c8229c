-- ===== src/Paymaster.antt =====
-- The paymaster of ghost-services/src/paymaster/service.ts, with the list of users of
-- ghost-services/src/config.ts and the handler of the route `paymaster/sign` of ghost-services/src/index.ts.
-- The encodings, the hash and the calls of the node are parameters: the outcome of a simulation is given, decoded.
pub mod Allowlist
mod Examples
use ghost_shard_protocol.Prelude.{
  ℕ, ◌+◌, Bool, true, false, not, ◌&&◌, ◌||◌, List, [], ◌∷◌, ◌++◌, map, filter, any, drop, Option,
  none, some, Result, ok, err, or_raise, ◌>>=◌, ◌==◌, leb, ltb, length, if◌then◌else◌,
}
use ghost_shard_protocol.Prelude.Int.{ℤ, pos, ◌+ℤ◌, ◌*ℤ◌}
use ghost_shard_protocol.Types.Hex.{HexString, hex, hex_eq, lower}
use ghost_shard_protocol.GasEngine.{
  Conversion, TransferCommand, Simulation, EstimationError, estimate_gas_with_double_simulation,
  has,
}
use ghost_shard_protocol.Relayer.Service.{GasLimits}
use ghost_shard_protocol.Transfer.{Announcement}

-- An entry of a `StateOverride`.
pub record StateOverride : Type 0 where
  pub address : HexString
  pub balance : Option ℕ
  pub code : Option HexString

abbrev pub dummy_relayer : HexString
dummy_relayer = hex "0x0000000000000000000000000000000003300001"

abbrev pub delegation_bytecode : TransferCommand → HexString
delegation_bytecode cmd = hex "0xef0100" ++ lower (drop 2 cmd.authorization.target_address)

-- The loop, with the shards seen.
unfoldable pub override_loop : List HexString → List TransferCommand → List StateOverride
override_loop seen [] = []
override_loop seen (cmd ∷ commands) =
    let skipped = override_loop seen commands in
    let rest = override_loop (lower cmd.shard ∷ seen) commands in
    if has seen (lower cmd.shard)
    then skipped
    else record { address = cmd.shard; balance = none; code = some (delegation_bytecode cmd) }
      ∷ rest

unfoldable pub build_simulation_state_override : List TransferCommand → List StateOverride
unfolding override_loop
build_simulation_state_override commands =
    record { address = dummy_relayer; balance = some 100000000000000000000; code = none }
    ∷ override_loop [] commands

-- `SignQuoteParams` but for the user's signature, which is not read.
pub record SignQuoteParams : Type 0 where
  pub commands : List TransferCommand
  pub announcements : List Announcement
  pub limits : GasLimits
  pub valid_until : ℕ

-- `PaymasterQuoteResponse`
pub record Quote : Type 0 where
  pub commands : List TransferCommand
  pub announcements : List Announcement
  pub limits : GasLimits
  pub paymaster : HexString
  pub valid_until : ℕ
  pub paymaster_signature : HexString

-- The account of the paymaster's private key.
pub record Account : Type 0 where
  pub address : HexString
  pub sign_message : HexString → HexString

-- What `decodeFunctionResult` gives of a simulation: it throws, or it gives the success and the reason.
pub data Outcome : Type 0 where
  undecodable : Outcome
  decoded : Bool → HexString → Outcome

pub data Reason : Type 0 where
  unknown_revert : Reason
  named : HexString → Reason
  raw_failure : HexString → Reason

pub data PaymasterError : Type 0 where
  key_not_configured : PaymasterError
  estimation : EstimationError → PaymasterError
  sandbox_failed : Reason → PaymasterError
  parse_failed : PaymasterError
  not_allowed : HexString → PaymasterError
  missing_fields : PaymasterError
  -- What viem throws.
  by_library : PaymasterError
  no_recovery : PaymasterError

-- `readableReason`, with the decoding of the reason given, which may throw.
unfoldable pub readable_reason : (HexString → Option HexString) → HexString → Reason
readable_reason decode_error reason =
    if hex_eq reason [] || hex_eq reason (hex "0x")
    then unknown_revert
    else elim (decode_error reason) [ none ↦ raw_failure reason | some name ↦ named name ]

-- What the service calls. viem's `encodeAbiParameters`, for the four types it is called at, throws on
-- what its types do not hold, as on a limit of 2^32 and more.
pub record Node : Type 0 where
  pub chain_id : ℕ
  pub router_address : HexString
  pub keccak_256 : HexString → HexString
  pub encode_commands : List TransferCommand → Option HexString
  pub encode_announcements : List Announcement → Option HexString
  pub encode_limits : GasLimits → Option HexString
  pub encode_params : ℕ → HexString → HexString → HexString → ℕ → HexString → Option HexString
  -- The simulation of a bundle with a signature and its overrides, and `decodeErrorResult`.
  pub simulate : SignQuoteParams → HexString → List StateOverride → Outcome
  pub decode_error : HexString → Option HexString
  -- The two simulations of the gas engine, for a signature and the fee.
  pub double_simulate :
      List TransferCommand → List Announcement → HexString → ℕ → GasLimits → Simulation
  pub js : Conversion
  pub base_fee : ℤ
  -- The time in seconds.
  pub now : ℕ

-- `buildPaymasterHash`, with the chain and the router that its callers give it.
unfoldable pub build_paymaster_hash :
    Node
    → List TransferCommand
    → List Announcement
    → ℕ
    → GasLimits
    → Result PaymasterError HexString
build_paymaster_hash node commands announcements valid_until limits = do
  commands_encoded ← or_raise (node.encode_commands commands) by_library
  announcements_encoded ← or_raise (node.encode_announcements announcements) by_library
  limits_encoded ← or_raise (node.encode_limits limits) by_library
  params_encoded ←
      or_raise
        (node.encode_params node.chain_id node.router_address (node.keccak_256 commands_encoded)
          (node.keccak_256 announcements_encoded) valid_until (node.keccak_256 limits_encoded))
        by_library
  ok (node.keccak_256 params_encoded)

unfoldable pub check_outcome :
    (HexString → Option HexString) → Outcome → Result PaymasterError (Unit {0})
unfolding readable_reason
check_outcome decode_error undecodable = err parse_failed
check_outcome decode_error (decoded success reason) =
    if success then ok tt else err (sandbox_failed (readable_reason decode_error reason))

abbrev pub estimated : Result EstimationError (GasLimits × ℕ) → Result PaymasterError GasLimits
estimated (err e) = err (estimation e)
estimated (ok given) = ok given.0

module _ (node : Node) (account : Option Account) where
  unfoldable pub sign_quote : SignQuoteParams → Result PaymasterError Quote
  unfolding check_outcome build_paymaster_hash
  sign_quote params = elim account [
    | none ↦ err key_not_configured
    | some paymaster ↦ (do
      paymaster_hash ←
          build_paymaster_hash node params.commands params.announcements params.valid_until
            params.limits
      let signature = paymaster.sign_message paymaster_hash
      _ ← check_outcome node.decode_error (
          node.simulate params signature (
            record { address = dummy_relayer; balance = some 100000000000000000000; code = none }
            ∷ []))
      ok (record {
        commands = params.commands;
        announcements = params.announcements;
        limits = params.limits;
        paymaster = paymaster.address;
        valid_until = params.valid_until;
        paymaster_signature = signature;
      }))
  ]

  abbrev pub max_fee : ℤ
  max_fee = node.base_fee *ℤ 2 +ℤ pos 1500000000

  abbrev pub simulation_limits : GasLimits
  simulation_limits = record {
    verification_gas_limit = pos 1500000;
    call_gas_limit = pos 15000000;
    pre_verification_gas = pos 0;
    max_fee_per_gas = max_fee;
  }

  -- The limits, and the end of their validity.
  unfoldable pub estimate_gas_limits_with_override :
      List TransferCommand → List Announcement → Result PaymasterError (GasLimits × ℕ)
  unfolding build_paymaster_hash
  estimate_gas_limits_with_override commands announcements = elim account [
    | none ↦ err key_not_configured
    | some paymaster ↦ (do
      let valid_until = node.now + 300
      paymaster_hash ←
          build_paymaster_hash node commands announcements valid_until simulation_limits
      let signature = paymaster.sign_message paymaster_hash
      limits ← estimated (
          estimate_gas_with_double_simulation node.js
            (node.double_simulate commands announcements signature valid_until simulation_limits)
            max_fee node.now)
      ok (limits, valid_until))
  ]

  -- The handler of `POST /api/v0/paymaster/sign`, for the fields of the body that are there. The user's
  -- signature has to be there.
  unfoldable pub sign_handler :
      Option (List TransferCommand)
      → Option (List Announcement)
      → Option HexString
      → Result PaymasterError Quote
  unfolding sign_quote estimate_gas_limits_with_override
  sign_handler (some commands) (some announcements) (some (x ∷ signature)) = do
    (limits, valid_until) ← estimate_gas_limits_with_override commands announcements
    sign_quote (record {
      commands = commands;
      announcements = announcements;
      limits = limits;
      valid_until = valid_until;
    })
  sign_handler (some commands) (some announcements) (some []) = err missing_fields
  sign_handler (some commands) (some announcements) none = err missing_fields
  sign_handler (some commands) none signature = err missing_fields
  sign_handler none announcements signature = err missing_fields

-- What `trim` takes off: white space and ends of lines.
abbrev pub is_space : ℕ → Bool
is_space c =
    c == 32
    || (leb 9 c && leb c 13)
    || c == 160
    || c == 5760
    || (leb 8192 c && leb c 8202)
    || c == 8232
    || c == 8233
    || c == 8239
    || c == 8287
    || c == 12288
    || c == 65279

unfoldable pub trim_start : HexString → HexString
trim_start [] = []
trim_start (c ∷ s) = if is_space c then trim_start s else c ∷ s

unfoldable pub trim_end : HexString → HexString
trim_end [] = []
trim_end (c ∷ s) = elim (trim_end s) [
  | [] ↦ if is_space c then [] else c ∷ []
  | ◌∷◌ d t ↦ c ∷ d ∷ t
]

-- `s.split(',')`
unfoldable pub split_commas : HexString → List HexString
split_commas [] = [] ∷ []
split_commas (c ∷ s) =
    let rest = split_commas s in
    if c == b','
    then [] ∷ rest
    else elim rest [ [] ↦ (c ∷ []) ∷ [] | ◌∷◌ word words ↦ (c ∷ word) ∷ words ]

abbrev pub user_of : HexString → HexString
user_of entry = lower (trim_start (trim_end entry))

-- `config.allowedUsers`, from the variable `ALLOWED_USERS`.
unfoldable pub allowed_users : HexString → List HexString
unfolding trim_start trim_end split_commas
allowed_users env = filter (λ s. ltb 0 (length s)) (map user_of (split_commas env))

-- `ensureUserAllowed`, for the address that is recovered from the signature, or throws.
unfoldable pub ensure_user_allowed :
    List HexString → Option HexString → Result PaymasterError (Unit {0})
ensure_user_allowed allowed none = err no_recovery
ensure_user_allowed allowed (some user) =
    if ltb 0 (length allowed) && not (any (λ s. hex_eq s (lower user)) allowed)
    then err (not_allowed user)
    else ok tt
