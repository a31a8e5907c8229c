-- ===== src/Relayer/Escrow.antt =====
-- Escrow accounting of ghost-services/src/relayer/queue.ts: the locks of the transactions in flight,
-- and for each paymaster the sum of its locks.
pub mod Debts
use ghost_shard_protocol.Prelude.{ℕ, [], ◌∷◌, or_else, if◌then◌else◌}
use ghost_shard_protocol.Prelude.Int.{ℤ, pos, ◌+ℤ◌}
use ghost_shard_protocol.Types.Hex.{HexString, hex_eq, lower}
use ghost_shard_protocol.Types.Maps.{Map, map_get, map_set, map_delete}

pub record InFlightLock : Type 0 where
  pub paymaster : HexString
  pub allocated_cost : ℤ
  pub timestamp : ℕ

-- `activeInFlight` and `paymasterDebtAccumulator`
pub record Escrow : Type 0 where
  pub active_in_flight : Map InFlightLock
  pub paymaster_debt_accumulator : Map ℤ

-- The loop of `updatePaymasterDebt`.
unfoldable pub debt_loop : HexString → ℤ → Map InFlightLock → ℤ
debt_loop paymaster debt [] = debt
debt_loop paymaster debt ((_, lock) ∷ locks) =
    debt_loop paymaster
      (if hex_eq lock.paymaster paymaster then debt +ℤ lock.allocated_cost else debt) locks

unfoldable pub update_paymaster_debt : HexString → Escrow → Escrow
unfolding debt_loop
update_paymaster_debt paymaster e = record e {
  paymaster_debt_accumulator =
      map_set paymaster (debt_loop paymaster (pos 0) e.active_in_flight)
        e.paymaster_debt_accumulator;
}

unfoldable pub register_lock : ℕ → HexString → HexString → ℤ → Escrow → Escrow
register_lock now tx_hash paymaster cost e = update_paymaster_debt (lower paymaster) (record e {
  active_in_flight =
      map_set (lower tx_hash)
        (record { paymaster = lower paymaster; allocated_cost = cost; timestamp = now })
        e.active_in_flight;
})

unfoldable pub release_lock : HexString → HexString → Escrow → Escrow
release_lock tx_hash paymaster e =
    update_paymaster_debt (lower paymaster)
      (record e { active_in_flight = map_delete (lower tx_hash) e.active_in_flight })

-- `paymasterDebtAccumulator.get(paymaster) ?? 0n`
unfoldable pub debt_of : HexString → Escrow → ℤ
debt_of paymaster e = or_else (map_get paymaster e.paymaster_debt_accumulator) (pos 0)
