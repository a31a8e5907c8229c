-- ===== src/Transfer/Loops.antt =====
-- The loops over the shards and over their change in ghost-shard-sdk/src/transaction.ts, and the end of
-- both preparations. The loop over the payments is a parameter of the loop over the shards.
use ghost_shard_protocol.Prelude.{
  ℕ, suc, ◌+◌, List, [], ◌∷◌, ◌++◌, map, some, Result, ok, or_raise, ◌>>=◌, length, get_elem?,
  if◌then◌else◌,
}
use ghost_shard_protocol.Prelude.Int.{ℤ, pos, leb_ℤ, sum}
use ghost_shard_protocol.Types.{AssetType, Shard}
use ghost_shard_protocol.Types.Bytes.{Bytes}
use ghost_shard_protocol.Types.Errors.{Thrown, by_library, undefined_entry}
use ghost_shard_protocol.Types.Hex.{HexString, hex}
use ghost_shard_protocol.Types.Maps.{map_get, map_set}
use ghost_shard_protocol.Random.{draw, shuffle}
use ghost_shard_protocol.Keys.{
  KeySet, compute_shared_secret, derive_shard_private_key_from_announcement,
}
use ghost_shard_protocol.GasEngine.{Authorization, TransferCommand}
use ghost_shard_protocol.Transaction.{fuse}
use ghost_shard_protocol.Transfer.{
  Build, Libraries, PoolEntry, Prepared, announcement_of, asset_type_int, defined,
  ghost_router_address, shard_implementation, sign_authorization, sign_transfer_command, tracked,
}

-- What the loops read and never change: the keys, the chain, `request.type` and `tokenTarget`.
pub record Setting : Type 0 where
  pub keys : KeySet
  pub chain_id : ℕ
  pub kind : AssetType
  pub token : HexString

-- A command that is not signed.
abbrev pub unsigned : Setting → HexString → HexString → ℤ → Authorization → TransferCommand
unsigned s shard to amt authorization = record {
  shard = shard;
  asset_type = asset_type_int s.kind;
  token = s.token;
  to = to;
  value = amt;
  signature = hex "0x";
  authorization = authorization;
}

-- The state of the build after a change output, with the word for it used.
abbrev pub with_change : PoolEntry → ℤ → Build → Build
with_change target amt b = record b {
  change_shards =
      b.change_shards
      ++ record {
        address = target.stealth_address;
        ephemeral_pub_key = target.ephemeral_pub_key;
        amount = amt;
      }
        ∷ [];
  words = b.words + 1;
}

-- The loop over the payments of a shard: its address, its key, the amounts, the state and the local
-- commands.
abbrev pub PaymentLoop : Type 0
PaymentLoop =
    HexString
    → Bytes
    → List ℤ
    → Build
    → List TransferCommand
    → Result Thrown (Build × List TransferCommand)

module _ (l : Libraries) (s : Setting) where
  -- The first output to a change address: its authorization and its announcement.
  unfoldable pub track_change : PoolEntry → ℤ → Build → Result Thrown Build
  track_change target amt b = if tracked target.stealth_address b.announcements then ok b else do
    authorization ← sign_authorization l target.private_key shard_implementation s.chain_id 0
    ephemeral ← or_raise (l.codec.hex_to_bytes target.ephemeral_pub_key) by_library
    secret ← compute_shared_secret l.hashes l.curve s.keys.viewing_private_key ephemeral
    announcement ←
        announcement_of l s.kind s.token secret target.stealth_address target.ephemeral_pub_key amt
    ok (record b {
      authorizations = b.authorizations ++ authorization ∷ [];
      announcements = b.announcements ++ announcement ∷ [];
    })

  unfoldable pub change_loop :
      List PoolEntry
      → HexString
      → Bytes
      → List ℤ
      → Build
      → List TransferCommand
      → Result Thrown (Build × List TransferCommand)
  unfolding track_change
  change_loop pool shard shard_key [] b local = ok (b, local)
  change_loop pool shard shard_key (amt ∷ amts) b local =
      let skipped = change_loop pool shard shard_key amts b local in
      if leb_ℤ amt (pos 0) then skipped else do
        target ← or_raise (get_elem? pool (draw l.rng b.words (length pool))) undefined_entry
        authorization ← sign_authorization l shard_key shard_implementation s.chain_id 0
        b' ← track_change target amt (with_change target amt b)
        change_loop pool shard shard_key amts b'
            (local ++ unsigned s shard target.stealth_address amt authorization ∷ [])

  module _ (pay : PaymentLoop) (pool : List PoolEntry)
      (payment_matrix change_matrix : List (List ℤ)) where
    -- The body of the loop, for the shard at index `i`.
    unfoldable pub shard_step : ℕ → Shard → Build → Result Thrown Build
    unfolding change_loop
    shard_step i shard b = do
      shard_key ←
          derive_shard_private_key_from_announcement l.hashes l.curve l.codec
            s.keys.spending_private_key s.keys.viewing_private_key shard.ephemeral_pub_key
      authorization ← sign_authorization l shard_key shard_implementation s.chain_id 0
      payments ← or_raise (get_elem? payment_matrix i) undefined_entry
      (paid, local) ←
          pay shard.address shard_key payments
            (record b {
              private_key_map =
                  map_set shard.address (l.signing.to_hex shard_key) b.private_key_map;
              authorizations = b.authorizations ++ authorization ∷ [];
            })
            []
      changes ← or_raise (get_elem? change_matrix i) undefined_entry
      (changed, localized) ← change_loop pool shard.address shard_key changes paid local
      let (shuffled, words) = shuffle l.rng (map some localized) changed.words
      ok (record changed { commands = changed.commands ++ shuffled; words = words })

    unfoldable pub shard_loop : ℕ → List Shard → Build → Result Thrown Build
    shard_loop i [] b = ok b
    shard_loop i (shard ∷ shards) b = do b' ← shard_step i shard b; shard_loop (suc i) shards b'

  -- `Promise.all` of the signed commands.
  unfoldable pub sign_all : Build → List TransferCommand → Result Thrown (List TransferCommand)
  sign_all b [] = ok []
  sign_all b (cmd ∷ commands) = do
    key ← or_raise (map_get cmd.shard b.private_key_map) by_library
    signature ←
        sign_transfer_command l key ghost_router_address cmd.shard cmd.asset_type cmd.token cmd.to
          cmd.value s.chain_id b.announcements
    rest ← sign_all b commands
    ok (record cmd { signature = signature } ∷ rest)

  -- The fusion, the signatures and the result.
  unfoldable pub finish_build : List Shard → Build → Result Thrown Prepared
  unfolding sign_all
  finish_build shards b = do
    commands ← or_raise (defined b.commands) undefined_entry
    signed ← sign_all b (fuse commands)
    ok (record {
      authorizations = b.authorizations;
      commands = signed;
      announcements = b.announcements;
      change_shards = b.change_shards;
      shard_addresses = map (λ shard. shard.address) shards;
      change_amount = sum (map (λ out. out.amount) b.change_shards);
    })
