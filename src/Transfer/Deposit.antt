-- ===== src/Transfer/Deposit.antt =====
-- `preparePrivateDeposit` of ghost-shard-sdk/src/transaction.ts, the calls by which a public account pays
-- to a meta address. The encoding of calls is a parameter.
use ghost_shard_protocol.Prelude.{
  ℕ, suc, ◌+◌, ◌-◌, ◌%◌, List, [], ◌∷◌, ◌++◌, map, Option, none, some, Result, ok, or_raise, ◌>>=◌,
  if◌then◌else◌, length, get_elem?, or_else,
}
use ghost_shard_protocol.Prelude.Int.{ℤ, pos, leb_ℤ}
use ghost_shard_protocol.Types.{AssetType, native, erc20, erc721}
use ghost_shard_protocol.Types.Errors.{Thrown, by_library, undefined_entry, no_token}
use ghost_shard_protocol.Types.Hex.{HexString, hex}
use ghost_shard_protocol.Random.{draw, shuffle}
use ghost_shard_protocol.CoinSelection.Splits.{generate_splits}
use ghost_shard_protocol.Keys.{StealthAddressResult}
use ghost_shard_protocol.MetaAddress.{generate_stealth_address}
use ghost_shard_protocol.Discovery.{present}
use ghost_shard_protocol.Transfer.{Announcement, Libraries, announcement_of, token_target}
use ghost_shard_protocol.Transfer.Private.{recipient_pool_loop}

-- `PrivateDepositRequest`, `BatchCall` and `PreparedPrivateDeposit` of types.ts
pub record DepositRequest : Type 0 where
  pub meta_address : HexString
  pub amount : ℤ
  pub kind : AssetType
  pub token_address : Option HexString
  pub sender_address : HexString
  pub token_id : Option ℤ

pub record BatchCall : Type 0 where
  pub to : HexString
  pub data_hex : HexString
  pub value : ℤ

-- The calls may hold `undefined`, which `shuffle` can leave.
pub record PreparedDeposit : Type 0 where
  pub calls : List (Option BatchCall)
  pub stealth_addresses : List HexString

-- `encodeFunctionData` for `transferFrom`, `transfer` and `announce`.
pub record Encoding : Type 0 where
  pub transfer_from : HexString → HexString → ℤ → Option HexString
  pub transfer : HexString → ℤ → Option HexString
  pub announce : Announcement → Option HexString

abbrev pub announcer : HexString
announcer = hex "0x55649E01B5Df198D18D95b5cc5051630cfD45564"

-- The arrays that the loop over the splits fills.
pub record DepositBuild : Type 0 where
  pub transfer_calls : List BatchCall
  pub announce_calls : List BatchCall
  pub targets : List HexString

-- Each transfer with the announcement at its index, if there is one.
unfoldable pub interleave :
    List (Option BatchCall) → List (Option BatchCall) → List (Option BatchCall)
interleave [] announces = []
interleave (t ∷ transfers) [] = t ∷ interleave transfers []
interleave (t ∷ transfers) (none ∷ announces) = t ∷ interleave transfers announces
interleave (t ∷ transfers) (some call ∷ announces) = t ∷ some call ∷ interleave transfers announces

module _ (l : Libraries) (e : Encoding) where
  -- The announcement of an amount for a stealth address, as a call.
  unfoldable pub announce_call :
      AssetType → HexString → StealthAddressResult → ℤ → Result Thrown BatchCall
  announce_call kind token target amt = do
    secret ← or_raise (l.codec.hex_to_bytes target.shared_secret) by_library
    announcement ←
        announcement_of l kind token secret target.stealth_address target.ephemeral_pub_key amt
    calldata ← or_raise (e.announce announcement) by_library
    ok (record { to = announcer; data_hex = calldata; value = pos 0 })

  unfoldable pub transfer_call : DepositRequest → HexString → ℤ → Result Thrown BatchCall
  transfer_call request to amt = elim request.kind [
    | native ↦ ok (record { to = to; data_hex = hex "0x"; value = amt })
    | erc20 ↦ do
      token ← or_raise (present request.token_address) no_token
      calldata ← or_raise (e.transfer to amt) by_library
      ok (record { to = token; data_hex = calldata; value = pos 0 })
    | erc721 ↦ do
      token ← or_raise (present request.token_address) no_token
      calldata ← or_raise (e.transfer to amt) by_library
      ok (record { to = token; data_hex = calldata; value = pos 0 })
  ]

  -- The loop over the splits, from index `i`.
  unfoldable pub split_calls :
      DepositRequest
      → List StealthAddressResult
      → ℕ
      → List ℤ
      → DepositBuild
      → Result Thrown DepositBuild
  unfolding announce_call transfer_call
  split_calls request pool i [] b = ok b
  split_calls request pool i (amt ∷ splits) b =
      let skipped = split_calls request pool (suc i) splits b in
      if leb_ℤ amt (pos 0) then skipped else do
        target ← or_raise (get_elem? pool (i % length pool)) undefined_entry
        transfer ← transfer_call request target.stealth_address amt
        announce ← announce_call request.kind (token_target request.token_address) target amt
        split_calls request pool (suc i) splits (record {
          transfer_calls = b.transfer_calls ++ transfer ∷ [];
          announce_calls = b.announce_calls ++ announce ∷ [];
          targets = b.targets ++ target.stealth_address ∷ [];
        })

  unfoldable pub deposit_nft : DepositRequest → ℕ → Result Thrown PreparedDeposit
  unfolding announce_call
  deposit_nft request randoms = do
    token ← or_raise (present request.token_address) no_token
    stealth ←
        generate_stealth_address l.codec l.curve l.hashes (l.random_bytes randoms)
          request.meta_address
    let token_id = or_else request.token_id (pos 0)
    announce ← announce_call erc721 (token_target request.token_address) stealth token_id
    calldata ←
        or_raise (e.transfer_from request.sender_address stealth.stealth_address token_id)
          by_library
    ok (record {
      calls = some (record { to = token; data_hex = calldata; value = pos 0 }) ∷ some announce ∷ [];
      stealth_addresses = stealth.stealth_address ∷ [];
    })

  -- `minDustThreshold`
  abbrev pub min_dust : AssetType → ℤ
  min_dust native = pos 10000
  min_dust erc20 = pos 1
  min_dust erc721 = pos 1

  unfoldable pub deposit_splits : DepositRequest → ℕ → ℕ → Result Thrown PreparedDeposit
  unfolding split_calls interleave
  deposit_splits request words randoms = do
    let recipient_pool_size = draw l.rng words (5 - 2 + 1) + 2
    pool ← recipient_pool_loop l request.meta_address recipient_pool_size randoms
    let (splits, words') =
        generate_splits l.rng request.amount recipient_pool_size (min_dust request.kind) (words + 1)
    b ←
        split_calls request pool 0 splits
          (record { transfer_calls = []; announce_calls = []; targets = [] })
    let (transfers, words'') = shuffle l.rng (map some b.transfer_calls) words'
    let (announces, _) = shuffle l.rng (map some b.announce_calls) words''
    ok (record { calls = interleave transfers announces; stealth_addresses = b.targets })

  unfoldable pub prepare_private_deposit : DepositRequest → ℕ → ℕ → Result Thrown PreparedDeposit
  unfolding deposit_nft deposit_splits
  prepare_private_deposit request words randoms = elim request.kind [
    | erc721 ↦ deposit_nft request randoms
    | native ↦ deposit_splits request words randoms
    | erc20 ↦ deposit_splits request words randoms
  ]
