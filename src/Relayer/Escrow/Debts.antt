-- ===== src/Relayer/Escrow/Debts.antt =====
-- The debts of ghost-services/src/relayer/queue.ts against the locks.
use ghost_shard_protocol.Prelude.{
  ℕ, ◌≡◌, refl, sym, ap, ◌∙◌, false, [], ◌∷◌, ◌++◌, Bool-cases, inl, inr, if◌then◌else◌,
}
use ghost_shard_protocol.Prelude.Int.{ℤ, pos, ◌+ℤ◌, int_laws, le_of_eq}
use ghost_shard_protocol.Types.Hex.{HexString, hex_eq, hex_eq_iff, lower}
use ghost_shard_protocol.Types.Maps.{
  Map, map_set, map_delete, map_get-map_set, map_set-append, IsFresh,
}
use ghost_shard_protocol.Relayer.Escrow.{
  InFlightLock, Escrow, debt_loop, update_paymaster_debt, register_lock, release_lock, debt_of,
}

-- The sum of a paymaster's locks.
abbrev pub owed : HexString → Map InFlightLock → ℤ
owed p [] = pos 0
owed p ((_, lock) ∷ locks) =
    (if hex_eq lock.paymaster p then lock.allocated_cost else pos 0) +ℤ owed p locks

debt_loop-owed :
    (p : HexString) (acc : ℤ) (locks : Map InFlightLock)
    → debt_loop p acc locks ≡ acc +ℤ owed p locks
unfolding debt_loop
debt_loop-owed p acc [] = omega int_laws
debt_loop-owed p acc ((k, lock) ∷ locks) = elim (Bool-cases (hex_eq lock.paymaster p)) [
  | inl e ↦ rw e (debt_loop-owed p (acc +ℤ lock.allocated_cost) locks ∙ omega int_laws)
  | inr e ↦ rw e (debt_loop-owed p acc locks ∙ omega int_laws)
]

owed-append :
    (p : HexString) (m : Map InFlightLock) (k : HexString) (lock : InFlightLock)
    → owed p (m ++ (k, lock) ∷ [])
      ≡ owed p m +ℤ (if hex_eq lock.paymaster p then lock.allocated_cost else pos 0)
owed-append p [] k lock = omega int_laws
owed-append p ((k', lock') ∷ m) k lock =
    let ih = le_of_eq (owed-append p m k lock) in omega (int_laws, ih)

-- Every paymaster's accumulated debt is the sum of its locks.
abbrev pub IsBalanced : Escrow → Type 0
IsBalanced e = (p : HexString) → debt_of p e ≡ owed p e.active_in_flight

-- The update makes one paymaster's debt right and leaves the others.
debt_of-update :
    (q p : HexString) (e : Escrow)
    → debt_of p (update_paymaster_debt q e)
      ≡ (if hex_eq q p then owed q e.active_in_flight else debt_of p e)
unfolding debt_of update_paymaster_debt
debt_of-update q p e =
    rw (map_get-map_set q p (debt_loop q (pos 0) e.active_in_flight) e.paymaster_debt_accumulator)
      (elim (Bool-cases (hex_eq q p)) [
        | inl f ↦ rw f (debt_loop-owed q (pos 0) e.active_in_flight ∙ omega int_laws)
        | inr f ↦ rw f refl
      ])

-- To update the paymaster whose locks alone have changed balances the accounts again.
update-IsBalanced :
    (q : HexString) (e : Escrow)
    → ((p : HexString) → hex_eq q p ≡ false → debt_of p e ≡ owed p e.active_in_flight)
    → IsBalanced (update_paymaster_debt q e)
unfolding update_paymaster_debt
update-IsBalanced q e h p = debt_of-update q p e ∙ elim (Bool-cases (hex_eq q p)) [
  | inl f ↦ rw f (ap (λ x. owed x e.active_in_flight) ((hex_eq_iff q p).0 f))
  | inr f ↦ rw f (h p f)
]

pub register_lock-IsBalanced :
    (now : ℕ) (tx_hash paymaster : HexString) (cost : ℤ) (e : Escrow)
    → IsFresh (lower tx_hash) e.active_in_flight
    → IsBalanced e
    → IsBalanced (register_lock now tx_hash paymaster cost e)
unfolding register_lock debt_of
register_lock-IsBalanced now tx_hash paymaster cost e fresh h =
    let lock : InFlightLock = record {
      paymaster = lower paymaster;
      allocated_cost = cost;
      timestamp = now;
    } in
    let locks = map_set (lower tx_hash) lock e.active_in_flight in
    update-IsBalanced (lower paymaster) (record e { active_in_flight = locks })
      (λ p f.
        h p
        ∙ sym (
            rw (map_set-append (lower tx_hash) lock e.active_in_flight fresh)
              (owed-append p e.active_in_flight (lower tx_hash) lock ∙ rw f (omega int_laws))))

-- The lock at a key, if there is one, is the paymaster's.
abbrev pub IsLockOf : HexString → HexString → Map InFlightLock → Type 0
IsLockOf k q [] = Unit {0}
IsLockOf k q ((key, lock) ∷ m) = if hex_eq key k then lock.paymaster ≡ q else IsLockOf k q m

owed-map_delete :
    (k q p : HexString) (m : Map InFlightLock)
    → IsLockOf k q m
    → hex_eq q p ≡ false
    → owed p (map_delete k m) ≡ owed p m
unfolding map_delete
owed-map_delete k q p [] h f = refl
owed-map_delete k q p ((key, lock) ∷ m) h f = elim (Bool-cases (hex_eq key k)) [
  | inl e ↦ rw e (rw (rw e at h) (rw f (omega int_laws)))
  | inr e ↦ rw e (ap (◌+ℤ◌ _) (owed-map_delete k q p m (rw e at h) f))
]

pub release_lock-IsBalanced :
    (tx_hash paymaster : HexString) (e : Escrow)
    → IsLockOf (lower tx_hash) (lower paymaster) e.active_in_flight
    → IsBalanced e
    → IsBalanced (release_lock tx_hash paymaster e)
unfolding release_lock debt_of
release_lock-IsBalanced tx_hash paymaster e own h =
    let locks = map_delete (lower tx_hash) e.active_in_flight in
    update-IsBalanced (lower paymaster) (record e { active_in_flight = locks })
      (λ p f.
        h p ∙ sym (owed-map_delete (lower tx_hash) (lower paymaster) p e.active_in_flight own f))
