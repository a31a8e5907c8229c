-- ===== src/Transfer/Public.antt =====
-- `prepareTransfer` of ghost-shard-sdk/src/transaction.ts, the transfer to a known address.
use ghost_shard_protocol.Prelude.{ℕ, List, [], ◌∷◌, ◌++◌, Option, Result, ok, ◌>>=◌, if◌then◌else◌}
use ghost_shard_protocol.Prelude.Int.{ℤ, pos, leb_ℤ}
use ghost_shard_protocol.Types.{AssetType, Shard}
use ghost_shard_protocol.Types.Bytes.{Bytes}
use ghost_shard_protocol.Types.Errors.{Thrown}
use ghost_shard_protocol.Types.Hex.{HexString}
use ghost_shard_protocol.Keys.{KeySet}
use ghost_shard_protocol.GasEngine.{TransferCommand}
use ghost_shard_protocol.Transfer.{
  Build, Libraries, Prepared, empty_build, make_change_pool, shard_implementation,
  sign_authorization, token_target,
}
use ghost_shard_protocol.Transfer.Loops.{Setting, unsigned, shard_loop, finish_build}

module _ (l : Libraries) where
  -- The loop over the payments: nothing is sent for an amount that is not positive.
  unfoldable pub payment_loop :
      Setting
      → HexString
      → HexString
      → Bytes
      → List ℤ
      → Build
      → List TransferCommand
      → Result Thrown (Build × List TransferCommand)
  payment_loop s to shard shard_key [] b local = ok (b, local)
  payment_loop s to shard shard_key (amt ∷ amts) b local =
      let skipped = payment_loop s to shard shard_key amts b local in
      if leb_ℤ amt (pos 0) then skipped else do
        authorization ← sign_authorization l shard_key shard_implementation s.chain_id 0
        payment_loop s to shard shard_key amts b
            (local ++ unsigned s shard to amt authorization ∷ [])

  -- `request` is its type, its recipient and its token. The random source starts at a word and at a
  -- byte string.
  unfoldable pub prepare_transfer :
      List Shard
      → AssetType
      → HexString
      → Option HexString
      → List (List ℤ)
      → List (List ℤ)
      → KeySet
      → ℕ
      → ℕ
      → ℕ
      → Result Thrown Prepared
  unfolding payment_loop
  prepare_transfer shards kind to token payment_matrix change_matrix keys chain_id words randoms =
      do
        (pool, b) ← make_change_pool l keys (empty_build words randoms)
        let s : Setting = record {
          keys = keys;
          chain_id = chain_id;
          kind = kind;
          token = token_target token;
        }
        b' ← shard_loop l s (payment_loop s to) pool payment_matrix change_matrix 0 shards b
        finish_build l s shards b'
