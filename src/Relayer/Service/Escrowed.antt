-- ===== src/Relayer/Service/Escrowed.antt =====
-- The escrow check of `relay` (ghost-services/src/relayer/service.ts) and the paymaster's deposit.
use ghost_shard_protocol.Prelude.{
  ℕ, ◌≡◌, refl, true, List, [], ◌∷◌, none, Bool-cases, inl, inr, ok, arith, if◌then◌else◌, ◌++◌,
  ◌∙◌, ap, sym, false, Option, some, ok-injective,
}
use ghost_shard_protocol.Prelude.Int.{ℤ, pos, ◌+ℤ◌, ◌≤ℤ◌, ◌<ℤ◌, ltb_ℤ, int_laws, le_of_eq}
use ghost_shard_protocol.Types.Hex.{HexString, hex_eq, lower, hex_eq_iff, lower-lower}
use ghost_shard_protocol.Relayer.Queue.{
  QueueState, QueuedRelay, enqueue_relay, process_queue, new_relay,
}
use ghost_shard_protocol.Relayer.Queue.Reach.{Reached}
use ghost_shard_protocol.Relayer.Queue.Debts.{promised, Reached-debt}
use ghost_shard_protocol.Relayer.Service.{
  GasLimits, ChainView, worst_case_cost, net_available, relay, debt_of, SimulationError, reverted,
  undecodable,
}

-- The costs of the relays that wait for a paymaster.
abbrev pub waiting : HexString → List QueuedRelay → ℤ
waiting p [] = pos 0
waiting p (r ∷ q) = (if hex_eq r.paymaster p then r.allocated_cost else pos 0) +ℤ waiting p q

module _ (chain : ChainView) (id now : ℕ) (paymaster : HexString) (limits : GasLimits) where
  relay_accepts :
      (read st : QueueState)
      → chain.outer_sim_error ≡ none
      → worst_case_cost limits chain.gas_price ≤ℤ net_available chain paymaster read
      → relay true chain id now paymaster limits read st
        ≡ ok (enqueue_relay id now (lower paymaster) (worst_case_cost limits chain.gas_price) st)
  unfolding relay
  relay_accepts read st sim h =
      let e : ltb_ℤ (net_available chain paymaster read) (worst_case_cost limits chain.gas_price)
          ≡ false =
        ground arith in
      rw (e, sim) refl

  -- A relay that `relay` accepts fits what the deposit leaves beside the transactions of the same
  -- paymaster that were broadcast and are still watched in the state of the queue in which the debt
  -- is read. It is enqueued with its whole worst case cost in the state that the queue has come to
  -- when `relay` goes on, where more may have been broadcast.
  pub relay-fits :
      (sent : List ℕ) (read st st' : QueueState)
      → Reached sent read
      → relay true chain id now paymaster limits read st ≡ ok st'
      → (promised (lower paymaster) read.watchers +ℤ worst_case_cost limits chain.gas_price
          ≤ℤ chain.on_chain_deposit)
        × (st' ≡ enqueue_relay id now (lower paymaster) (worst_case_cost limits chain.gas_price) st)
  unfolding relay net_available
  relay-fits sent read st st' r e =
      let debt = le_of_eq (Reached-debt sent read r (lower paymaster)) in
      let available = net_available chain paymaster read in
      let worst = worst_case_cost limits chain.gas_price in
      elim (Bool-cases (ltb_ℤ available worst)) [
        | inl f ↦ let bad = rw f at e in cc
        | inr f ↦
            let le : worst ≤ℤ available = ground arith in
            (omega (int_laws, debt), accepted chain.outer_sim_error refl f)
      ]
    where
      accepted :
          (o : Option SimulationError)
          → chain.outer_sim_error ≡ o
          → ltb_ℤ (net_available chain paymaster read) (worst_case_cost limits chain.gas_price)
            ≡ false
          → st' ≡ enqueue_relay id now (lower paymaster) (worst_case_cost limits chain.gas_price) st
      accepted none g f = let done = rw (f, g) at e in sym (ok-injective _ st' done)
      accepted (some (reverted reason)) g f = let bad = rw (f, g) at e in cc
      accepted (some undecodable) g f = let bad = rw (f, g) at e in cc

  enqueue_busy :
      (worst : ℤ) (st : QueueState)
      → st.processing ≡ true
      → enqueue_relay id now (lower paymaster) worst st
        ≡ record st { queue = st.queue ++ new_relay id now (lower paymaster) worst ∷ [] }
  unfolding enqueue_relay process_queue
  enqueue_busy worst st p = rw p refl

  -- While a broadcast is in progress and no relay waits, `relay` accepts two relays in a row of which
  -- each takes all that is available of the deposit: with the relays that wait, the paymaster has
  -- then promised more than its deposit.
  pub over_commits :
      (st : QueueState)
      → st.processing ≡ true
      → st.queue ≡ []
      → chain.outer_sim_error ≡ none
      → net_available chain paymaster st ≡ worst_case_cost limits chain.gas_price
      → pos 0 <ℤ worst_case_cost limits chain.gas_price
      → (st' : QueueState) × (st'' : QueueState) × (relay true chain id now paymaster limits st st
          ≡ ok st')
        × (relay true chain id now paymaster limits st' st' ≡ ok st'')
        × (chain.on_chain_deposit
            <ℤ debt_of (lower paymaster) st''.escrow +ℤ waiting (lower paymaster) st''.queue)
  unfolding net_available
  over_commits st busy empty sim all positive =
      let worst = worst_case_cost limits chain.gas_price in
      let x = new_relay id now (lower paymaster) worst in
      let st' = record st { queue = st.queue ++ x ∷ [] } in
      let st'' = record st { queue = (st.queue ++ x ∷ []) ++ x ∷ [] } in
      let same = le_of_eq all in
      let own : hex_eq (lower (lower paymaster)) (lower paymaster) ≡ true =
        (hex_eq_iff (lower (lower paymaster)) (lower paymaster)).1 (lower-lower paymaster) in
      (
        st',
        st'',
        relay_accepts st st sim same.1 ∙ ap ok (enqueue_busy worst st busy),
        relay_accepts st' st' sim same.1 ∙ ap ok (enqueue_busy worst st' busy),
        rw (empty, own) (omega (int_laws, same)),
      )
