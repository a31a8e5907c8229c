-- ===== src/Relayer/Service.antt =====
-- `relay` of ghost-services/src/relayer/service.ts. What the chain answers is given: the deposit of
-- the paymaster, the gas price, and the error of the simulation if there is one. The call data and
-- the broadcast itself are not modelled; the broadcast's outcome is an event of the queue.
pub mod Escrowed
use ghost_shard_protocol.Prelude.{
  ℕ, Bool, true, false, Option, none, some, Result, ok, err, if◌then◌else◌, ◌>>◌,
}
use ghost_shard_protocol.Prelude.Int.{ℤ, ◌+ℤ◌, ◌-ℤ◌, ◌*ℤ◌, ltb_ℤ}
use ghost_shard_protocol.Types.Hex.{HexString, lower}
use ghost_shard_protocol.Relayer.Escrow.{debt_of}
use ghost_shard_protocol.Relayer.Queue.{QueueState, enqueue_relay}

-- The `AppError`s of `relay`.
pub data AppError : Type 0 where
  key_not_configured : AppError
  over_allocated : ℤ → ℤ → AppError
  simulation_rejected : HexString → AppError
  -- What `decodeFunctionResult` throws.
  undecodable_result : AppError

-- `GasLimits` of ghost-services/src/types.ts
pub record GasLimits : Type 0 where
  pub verification_gas_limit : ℤ
  pub call_gas_limit : ℤ
  pub pre_verification_gas : ℤ
  pub max_fee_per_gas : ℤ

-- What the simulation gives that ends `relay`: data of an error, with the reason read from it, or a
-- result that does not decode. An error without data, and no result, end nothing.
pub data SimulationError : Type 0 where
  reverted : HexString → SimulationError
  undecodable : SimulationError

pub record ChainView : Type 0 where
  -- `paymasterDeposits` of the router
  pub on_chain_deposit : ℤ
  pub gas_price : ℕ
  pub outer_sim_error : Option SimulationError

unfoldable pub worst_case_cost : GasLimits → ℕ → ℤ
worst_case_cost l gas_price =
    (l.verification_gas_limit +ℤ l.call_gas_limit +ℤ l.pre_verification_gas) *ℤ gas_price

unfoldable pub net_available : ChainView → HexString → QueueState → ℤ
net_available chain paymaster st = chain.on_chain_deposit -ℤ debt_of (lower paymaster) st.escrow

abbrev pub reject_if : Option SimulationError → Result AppError (Unit {0})
reject_if none = ok tt
reject_if (some (reverted reason)) = err (simulation_rejected reason)
reject_if (some undecodable) = err undecodable_result

-- The code up to the `await` on the queue's promise. It reads the debt of the paymaster in one state
-- of the queue, `read`, and then awaits the gas price and the simulation: it enqueues in the state
-- `st` that the queue has come to by then.
unfoldable pub relay :
    Bool
    → ChainView
    → ℕ
    → ℕ
    → HexString
    → GasLimits
    → QueueState
    → QueueState
    → Result AppError QueueState
relay configured chain id now paymaster limits read st =
    let worst = worst_case_cost limits chain.gas_price in
    let available = net_available chain paymaster read in
    do
      if configured then ok tt else err key_not_configured
      if ltb_ℤ available worst then err (over_allocated available worst) else ok tt
      reject_if chain.outer_sim_error
      ok (enqueue_relay id now (lower paymaster) worst st)
