-- ===== src/GasEngine.antt =====
-- The gas engine of ghost-services/src/common/gasEngine.ts. The simulations are calls of the node:
-- their outcome is given, decoded.
pub mod Authorizations
pub mod Limits
mod Examples
use ghost_shard_protocol.Prelude.{
  ℕ, ◌+◌, ◌-◌, ◌^◌, ◌≡◌, refl, Bool, true, false, List, [], ◌∷◌, Option, none, some, any, Result,
  ok, err, if◌then◌else◌,
}
use ghost_shard_protocol.Prelude.Int.{ℤ, pos, ◌+ℤ◌, ◌-ℤ◌, ◌*ℤ◌, ◌/ℤ◌, ◌≤ℤ◌, ltb_ℤ}
use ghost_shard_protocol.Types.Hex.{HexString, hex, hex_eq, lower}
use ghost_shard_protocol.Relayer.Service.{GasLimits}

-- `Authorization` and `TransferCommand` of ghost-services/src/types.ts
pub record Authorization : Type 0 where
  pub target_address : HexString
  pub chain_id : ℕ
  pub nonce : ℕ
  pub y_parity : ℕ
  pub r : HexString
  pub s : HexString

pub record TransferCommand : Type 0 where
  pub shard : HexString
  pub asset_type : ℕ
  pub token : HexString
  pub to : HexString
  pub value : ℤ
  pub signature : HexString
  pub authorization : Authorization

-- An entry of the authorization list: its `address` is the target of the delegation.
pub record AuthorizationEntry : Type 0 where
  pub chain_id : ℕ
  pub address : HexString
  pub nonce : ℕ
  pub y_parity : ℕ
  pub r : HexString
  pub s : HexString

abbrev pub entry_of : TransferCommand → AuthorizationEntry
entry_of cmd = record {
  chain_id = cmd.authorization.chain_id;
  address = cmd.authorization.target_address;
  nonce = cmd.authorization.nonce;
  y_parity = cmd.authorization.y_parity;
  r = cmd.authorization.r;
  s = cmd.authorization.s;
}

-- `seen.has(key)`
unfoldable pub has : List HexString → HexString → Bool
has seen key = any (λ x. hex_eq x key) seen

-- The loop of `extractAuthorizationList`, with the shards seen.
unfoldable pub extract_loop : List HexString → List TransferCommand → List AuthorizationEntry
extract_loop seen [] = []
extract_loop seen (cmd ∷ commands) =
    let fresh = extract_loop (lower cmd.shard ∷ seen) commands in
    let skipped = extract_loop seen commands in
    if has seen (lower cmd.shard) then skipped else entry_of cmd ∷ fresh

-- `auths.length > 0 ? auths : undefined`
abbrev pub unless_empty : List AuthorizationEntry → Option (List AuthorizationEntry)
unless_empty [] = none
unless_empty (x ∷ xs) = some (x ∷ xs)

unfoldable pub extract_authorization_list : List TransferCommand → Option (List AuthorizationEntry)
unfolding extract_loop
extract_authorization_list commands = unless_empty (extract_loop [] commands)

-- The `AppError`s of the estimation.
pub data EstimationError : Type 0 where
  reverted_name : HexString → EstimationError
  reverted_raw : HexString → EstimationError
  simulation_failed : HexString → EstimationError
  empty_data : EstimationError
  sandbox_reverted : HexString → EstimationError

-- What `executeMesh` returns, as far as it is read.
pub record MeshResult : Type 0 where
  pub total_gas_used : ℤ
  pub inner_call_gas_used : ℤ
  pub success : Bool
  pub revert_reason : HexString

-- The two simulations: one of them failed, with its raw data, the name that `decodeErrorResult` finds
-- in it or none if that throws, and its message; or both succeeded, with the data of the call, if
-- there is any, and the node's estimate.
pub data Simulation : Type 0 where
  sim_error : HexString → Option HexString → HexString → Simulation
  sim_done : Option MeshResult → ℤ → Simulation

-- The inner `try`: the decoding throws, or the error built from the name is thrown; the `catch`
-- takes both.
pub data Thrown : Type 0 where
  decode_error : Thrown
  app_error : EstimationError → Thrown

abbrev pub throw_decoded : Option HexString → Thrown
throw_decoded none = decode_error
throw_decoded (some name) = app_error (reverted_name name)

abbrev pub catch_any : Thrown → EstimationError → EstimationError
catch_any decode_error e = e
catch_any (app_error _) e = e

-- The error that a failed simulation gives; no data and `0x` count as none.
unfoldable pub simulation_error : HexString → Option HexString → HexString → EstimationError
simulation_error raw decoded msg =
    if hex_eq raw []
    then simulation_failed msg
    else if hex_eq raw (hex "0x")
    then simulation_failed msg
    else catch_any (throw_decoded decoded) (reverted_raw raw)

unfoldable pub pre_verification_gas : ℤ → ℤ → ℤ
pre_verification_gas total exact = if ltb_ℤ exact total then total -ℤ exact else pos 21000

unfoldable pub verification_gas : ℤ → ℤ → ℤ
verification_gas exact inner = (exact -ℤ inner) *ℤ 115 /ℤ 100

unfoldable pub call_gas : ℤ → ℤ
call_gas inner =
    let limit = inner *ℤ 130 /ℤ 100 +ℤ pos 40000 in if ltb_ℤ (pos 0) limit then limit else pos 30000

-- `Number` of a `bigint` that it does not make infinite: it is exact up to 2^53 - 1.
pub record Conversion : Type 0 where
  pub number : ℤ → ℤ
  pub number-safe : (n : ℤ) → pos 0 ≤ℤ n → n ≤ℤ pos (2 ^ 53 - 1) → number n ≡ n

-- An instance, for tests.
abbrev pub exact_number : Conversion
exact_number = record { number = λ n. n; number-safe = λ n lo hi. refl }

unfoldable pub limits_of : Conversion → ℤ → ℤ → ℤ → ℤ → GasLimits
limits_of js total exact inner max_fee = record {
  verification_gas_limit = js.number (verification_gas exact inner);
  call_gas_limit = js.number (call_gas inner);
  pre_verification_gas = js.number (pre_verification_gas total exact);
  max_fee_per_gas = max_fee;
}

-- The limits, and the end of their validity for a time in seconds.
unfoldable pub estimate_gas_with_double_simulation :
    Conversion → Simulation → ℤ → ℕ → Result EstimationError (GasLimits × ℕ)
unfolding simulation_error limits_of
estimate_gas_with_double_simulation js (sim_error raw decoded msg) max_fee now =
    err (simulation_error raw decoded msg)
estimate_gas_with_double_simulation js (sim_done none total) max_fee now = err empty_data
estimate_gas_with_double_simulation js (sim_done (some mesh) total) max_fee now =
    if mesh.success
    then ok (limits_of js total mesh.total_gas_used mesh.inner_call_gas_used max_fee, now + 300)
    else err (sandbox_reverted mesh.revert_reason)
