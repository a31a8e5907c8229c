-- ===== src/Relayer/Examples.antt =====
-- Runs of the relayer, and its theorems at concrete inputs.
use ghost_shard_protocol.Prelude.{◌≡◌, refl, true, [], ◌∷◌, none, ok, arith}
use ghost_shard_protocol.Prelude.Int.{pos, ◌+ℤ◌, ◌-ℤ◌, ◌*ℤ◌, ◌≤ℤ◌, ◌<ℤ◌}
use ghost_shard_protocol.Types.Hex.{hex, lower, hex_eq}
use ghost_shard_protocol.Relayer.Escrow.{debt_of, register_lock, update_paymaster_debt, debt_loop}
use ghost_shard_protocol.Relayer.Queue.{
  QueueState, start, enqueue_relay, broadcast_done, process_queue,
}
use ghost_shard_protocol.Relayer.Queue.Reach.{Reached, broadcast, enqueued, begun}
use ghost_shard_protocol.Relayer.Queue.Order.{IsOrdered, Reached-IsOrdered}
use ghost_shard_protocol.Relayer.Queue.Debts.{promised, Reached-debt}
use ghost_shard_protocol.Relayer.Service.{
  ChainView, GasLimits, relay, worst_case_cost, net_available,
}
use ghost_shard_protocol.Relayer.Service.Escrowed.{relay-fits, over_commits, waiting}
use ghost_shard_protocol.Types.Maps.{IsFresh, map_set, map_get}

-- Two relays of one paymaster, of which the first one is broadcast.
abbrev first : QueueState
first = enqueue_relay 1 10 (hex "0xAB") (pos 500) start

abbrev second : QueueState
second = enqueue_relay 2 11 (hex "0xab") (pos 300) first

abbrev sent_one : QueueState
sent_one = broadcast_done 12 (hex "0xf00") second

is_fresh : IsFresh (lower (hex "0xf00")) second.escrow.active_in_flight
unfolding enqueue_relay process_queue
is_fresh = tt

abbrev run : Reached (1 ∷ 2 ∷ []) sent_one
run =
    broadcast 12 (hex "0xf00") is_fresh
      (enqueued 2 11 (hex "0xab") (pos 300) (enqueued 1 10 (hex "0xAB") (pos 500) begun))

Reached-IsOrdered_example : IsOrdered (1 ∷ 2 ∷ []) sent_one
Reached-IsOrdered_example = Reached-IsOrdered (1 ∷ 2 ∷ []) sent_one run

Reached-debt_example :
    debt_of (hex "0xab") sent_one.escrow ≡ promised (hex "0xab") sent_one.watchers
Reached-debt_example = Reached-debt (1 ∷ 2 ∷ []) sent_one run (hex "0xab")

-- The second relay is in progress, and only the first one counts.
debt_run : debt_of (hex "0xab") sent_one.escrow ≡ pos 500
unfolding debt_of broadcast_done enqueue_relay process_queue register_lock update_paymaster_debt
    debt_loop map_set map_get hex_eq lower ◌+ℤ◌
debt_run = refl

abbrev chain : ChainView
chain = record { on_chain_deposit = pos 1200; gas_price = 2; outer_sim_error = none }

abbrev limits : GasLimits
limits = record {
  verification_gas_limit = pos 100;
  call_gas_limit = pos 200;
  pre_verification_gas = pos 50;
  max_fee_per_gas = pos 9;
}

-- Another relay of the paymaster is broadcast between the reading of the debt and the enqueueing.
abbrev sent_two : QueueState
sent_two = broadcast_done 13 (hex "0xf01") sent_one

abbrev accepted : QueueState
accepted = enqueue_relay 3 13 (lower (hex "0xab")) (worst_case_cost limits 2) sent_two

relay_run : relay true chain 3 13 (hex "0xab") limits sent_one sent_two ≡ ok accepted
unfolding relay net_available worst_case_cost debt_of broadcast_done enqueue_relay process_queue
    register_lock update_paymaster_debt debt_loop map_set map_get hex_eq lower ◌+ℤ◌ ◌-ℤ◌ ◌*ℤ◌
relay_run = refl

relay-fits_example :
    (promised (lower (hex "0xab")) sent_one.watchers +ℤ worst_case_cost limits 2 ≤ℤ pos 1200)
    × (accepted ≡ enqueue_relay 3 13 (lower (hex "0xab")) (worst_case_cost limits 2) sent_two)
relay-fits_example =
    relay-fits chain 3 13 (hex "0xab") limits (1 ∷ 2 ∷ []) sent_one sent_two accepted run relay_run

abbrev tight : ChainView
tight = record { on_chain_deposit = pos 1200; gas_price = 2; outer_sim_error = none }

over_commits_example :
    (st' : QueueState) × (st'' : QueueState) × (relay true tight 3 13
        (hex "0xab")
        limits
        sent_one
        sent_one
      ≡ ok st')
    × (relay true tight 3 13 (hex "0xab") limits st' st' ≡ ok st'')
    × (pos 1200
        <ℤ debt_of (lower (hex "0xab")) st''.escrow +ℤ waiting (lower (hex "0xab")) st''.queue)
unfolding net_available worst_case_cost debt_of broadcast_done enqueue_relay process_queue
    register_lock update_paymaster_debt debt_loop map_set map_get hex_eq lower ◌+ℤ◌ ◌-ℤ◌ ◌*ℤ◌
over_commits_example =
    over_commits tight 3 13 (hex "0xab") limits sent_one refl refl refl refl (omega arith)
