-- ===== src/GasEngine/Limits.antt =====
-- The gas limits of ghost-services/src/common/gasEngine.ts.
use ghost_shard_protocol.Prelude.{
  ℕ, ◌*◌, ◌-◌, ◌^◌, ◌≤◌, ◌≡◌, ◌≢◌, true, Option, arith, Bool-cases, inl, inr,
}
use ghost_shard_protocol.Prelude.Int.{
  ℤ, pos, negsuc, ◌+ℤ◌, ◌-ℤ◌, ◌*ℤ◌, ◌/ℤ◌, ◌≤ℤ◌, ◌<ℤ◌, ltb_ℤ, int_laws,
}
use ghost_shard_protocol.Types.Hex.{HexString}
use ghost_shard_protocol.GasEngine.{
  Conversion, pre_verification_gas, verification_gas, call_gas, limits_of, simulation_error,
  reverted_name,
}

-- A share of 100 percent or more is no less than the amount.
more_than : (x : ℤ) (w : ℕ) → pos 0 ≤ℤ x → 100 ≤ w → x ≤ℤ x *ℤ w /ℤ 100
unfolding ◌*ℤ◌ ◌/ℤ◌
more_than (pos n) w h b = let most : n * 100 ≤ n * w = grind arith in omega arith
more_than (negsuc n) w h b = absurd (omega arith)

-- A share of at most 150 percent of a number below 2^52 is below 2^53 by more than 2^50.
less_than :
    (x : ℤ) (w : ℕ)
    → pos 0 ≤ℤ x
    → x <ℤ pos (2 ^ 52)
    → w ≤ 150
    → x *ℤ w /ℤ 100 ≤ℤ pos (2 ^ 53 - 1 - 2 ^ 50)
unfolding ◌*ℤ◌ ◌/ℤ◌
less_than (pos n) w b l h = let most : n * w ≤ n * 150 = grind arith in omega arith
less_than (negsuc n) w b l h = absurd (omega arith)

call_gas-le :
    (inner : ℤ) → pos 0 ≤ℤ inner → inner <ℤ pos (2 ^ 52) → call_gas inner ≤ℤ pos (2 ^ 53 - 1)
unfolding call_gas
call_gas-le inner h l =
    let share = less_than inner 130 h l (omega arith) in
    let limit = inner *ℤ 130 /ℤ 100 +ℤ pos 40000 in
    elim (Bool-cases (ltb_ℤ (pos 0) limit)) [
      | inl e ↦ rw e (omega int_laws)
      | inr e ↦ rw e (omega arith)
    ]

pre_verification_gas-le :
    (total exact : ℤ)
    → pos 0 ≤ℤ exact
    → total <ℤ pos (2 ^ 52)
    → pre_verification_gas total exact ≤ℤ pos (2 ^ 53 - 1)
unfolding pre_verification_gas
pre_verification_gas-le total exact x l = elim (Bool-cases (ltb_ℤ exact total)) [
  | inl e ↦ rw e (omega int_laws)
  | inr e ↦ rw e (omega arith)
]

call_gas-ge : (inner : ℤ) → pos 0 ≤ℤ inner → inner +ℤ pos 40000 ≤ℤ call_gas inner
unfolding call_gas
call_gas-ge inner h =
    let share = more_than inner 130 h (omega arith) in
    let limit = inner *ℤ 130 /ℤ 100 +ℤ pos 40000 in
    let over : pos 0 <ℤ limit = omega int_laws in
    let e : ltb_ℤ (pos 0) limit ≡ true = ground arith in rw e (omega int_laws)

pre_verification_gas-gt : (total exact : ℤ) → pos 0 <ℤ pre_verification_gas total exact
unfolding pre_verification_gas
pre_verification_gas-gt total exact = elim (Bool-cases (ltb_ℤ exact total)) [
  | inl e ↦ let lt : exact <ℤ total = ground arith in rw e (omega int_laws)
  | inr e ↦ rw e (omega arith)
]

pre_verification_gas-ge : (total exact : ℤ) → total ≤ℤ exact +ℤ pre_verification_gas total exact
unfolding pre_verification_gas
pre_verification_gas-ge total exact = elim (Bool-cases (ltb_ℤ exact total)) [
  | inl e ↦ rw e (omega int_laws)
  | inr e ↦ let le : total ≤ℤ exact = ground arith in rw e (omega int_laws)
]

-- If the gas of the inner call is not negative, the contract's own gas is no less, and that and the
-- node's whole estimate are below 2^52, then `Number` keeps the limits, and the three together exceed
-- the node's whole estimate, and the contract's own gas, by 40000 and more; the limit of the inner
-- call exceeds its gas by 40000 and more; the verification limit covers what the contract uses beside
-- the inner call; and the pre-verification gas is positive.
pub limits_of-cover :
    (js : Conversion) (total exact inner max_fee : ℤ)
    → pos 0 ≤ℤ inner
    → inner ≤ℤ exact
    → exact <ℤ pos (2 ^ 52)
    → total <ℤ pos (2 ^ 52)
    → let l = limits_of js total exact inner max_fee in
      let sum = l.verification_gas_limit +ℤ l.call_gas_limit +ℤ l.pre_verification_gas in
      (total +ℤ pos 40000 ≤ℤ sum)
      × (exact +ℤ pos 40000 <ℤ sum)
      × (inner +ℤ pos 40000 ≤ℤ l.call_gas_limit)
      × (exact -ℤ inner ≤ℤ l.verification_gas_limit)
      × (pos 0 <ℤ l.pre_verification_gas)
unfolding limits_of verification_gas
limits_of-cover js total exact inner max_fee i e el tl =
    let rest : pos 0 ≤ℤ exact -ℤ inner = omega int_laws in
    let share = more_than (exact -ℤ inner) 115 rest (omega arith) in
    let call = call_gas-ge inner i in
    let pre = pre_verification_gas-gt total exact in
    let all = pre_verification_gas-ge total exact in
    let below : exact -ℤ inner <ℤ pos (2 ^ 52) = omega int_laws in
    let most : verification_gas exact inner ≤ℤ pos (2 ^ 53 - 1 - 2 ^ 50) =
      less_than (exact -ℤ inner) 115 rest below (omega arith) in
    let v : js.number (verification_gas exact inner) ≡ verification_gas exact inner =
      js.number-safe (verification_gas exact inner) (omega int_laws) (omega int_laws) in
    let c : js.number (call_gas inner) ≡ call_gas inner =
      js.number-safe _ (omega int_laws) (call_gas-le inner i (omega int_laws)) in
    let q : js.number (pre_verification_gas total exact) ≡ pre_verification_gas total exact =
      js.number-safe _ (omega int_laws) (pre_verification_gas-le total exact (omega int_laws) tl) in
    rw (v, c, q) (omega int_laws, omega int_laws, call, share, pre)

-- The error of a failed simulation never has the name that was decoded from the simulation's data.
simulation_error-nameless :
    (raw : HexString) (decoded : Option HexString) (msg name : HexString)
    → simulation_error raw decoded msg ≢ reverted_name name
unfolding simulation_error
simulation_error-nameless raw decoded msg name h = ground arith
