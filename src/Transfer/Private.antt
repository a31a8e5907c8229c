-- ===== src/Transfer/Private.antt =====
-- `preparePrivateTransfer` of ghost-shard-sdk/src/transaction.ts, the transfer to a meta address.
use ghost_shard_protocol.Prelude.{
  ℕ, zero, suc, ◌+◌, ◌-◌, List, [], ◌∷◌, ◌++◌, Option, Result, ok, or_raise, ◌>>=◌, if◌then◌else◌,
  ◌&&◌, not, ◌==◌, length, get_elem?,
}
use ghost_shard_protocol.Prelude.Int.{ℤ, pos, leb_ℤ}
use ghost_shard_protocol.Types.{AssetType, Shard}
use ghost_shard_protocol.Types.Bytes.{Bytes}
use ghost_shard_protocol.Types.Errors.{Thrown, by_library, undefined_entry}
use ghost_shard_protocol.Types.Hex.{HexString}
use ghost_shard_protocol.Random.{draw}
use ghost_shard_protocol.Keys.{KeySet, StealthAddressResult}
use ghost_shard_protocol.MetaAddress.{generate_stealth_address}
use ghost_shard_protocol.GasEngine.{TransferCommand}
use ghost_shard_protocol.Transfer.{
  Build, Libraries, Prepared, announcement_of, asset_type_int, empty_build, make_change_pool,
  shard_implementation, sign_authorization, token_target, tracked,
}
use ghost_shard_protocol.Transfer.Loops.{Setting, unsigned, shard_loop, finish_build}

module _ (l : Libraries) where
  -- The loop that fills `recipientPool`, with the entries left to make.
  unfoldable pub recipient_pool_loop : HexString → ℕ → ℕ → Result Thrown (List StealthAddressResult)
  recipient_pool_loop meta_address zero randoms = ok []
  recipient_pool_loop meta_address (suc count) randoms = do
    stealth ←
        generate_stealth_address l.codec l.curve l.hashes (l.random_bytes randoms) meta_address
    pool ← recipient_pool_loop meta_address count (randoms + 1)
    ok (stealth ∷ pool)

  -- The first payment to a stealth address: its announcement.
  unfoldable pub track_recipient : Setting → StealthAddressResult → ℤ → Build → Result Thrown Build
  track_recipient s target amt b =
      if tracked target.stealth_address b.announcements then ok b else do
        secret ← or_raise (l.codec.hex_to_bytes target.shared_secret) by_library
        announcement ←
            announcement_of l s.kind s.token secret target.stealth_address target.ephemeral_pub_key
              amt
        ok (record b { announcements = b.announcements ++ announcement ∷ [] })

  unfoldable pub private_payment_loop :
      Setting
      → List StealthAddressResult
      → HexString
      → Bytes
      → List ℤ
      → Build
      → List TransferCommand
      → Result Thrown (Build × List TransferCommand)
  unfolding track_recipient
  private_payment_loop s pool shard shard_key [] b local = ok (b, local)
  private_payment_loop s pool shard shard_key (amt ∷ amts) b local =
      let skipped = private_payment_loop s pool shard shard_key amts b local in
      if leb_ℤ amt (pos 0) && not (asset_type_int s.kind == 2) then skipped else do
        target ← or_raise (get_elem? pool (draw l.rng b.words (length pool))) undefined_entry
        authorization ← sign_authorization l shard_key shard_implementation s.chain_id 0
        b' ← track_recipient s target amt (record b { words = b.words + 1 })
        private_payment_loop s pool shard shard_key amts b'
            (local ++ unsigned s shard target.stealth_address amt authorization ∷ [])

  unfoldable pub prepare_private_transfer :
      List Shard
      → AssetType
      → HexString
      → Option HexString
      → List (List ℤ)
      → List (List ℤ)
      → KeySet
      → ℕ
      → ℕ
      → ℕ
      → Result Thrown Prepared
  unfolding private_payment_loop recipient_pool_loop
  prepare_private_transfer shards kind meta_address token payment_matrix change_matrix keys chain_id
        words randoms =
      do
        let recipient_pool_size = draw l.rng words (5 - 2 + 1) + 2
        recipients ← recipient_pool_loop meta_address recipient_pool_size randoms
        (pool, b) ←
            make_change_pool l keys (empty_build (words + 1) (randoms + recipient_pool_size))
        let s : Setting = record {
          keys = keys;
          chain_id = chain_id;
          kind = kind;
          token = token_target token;
        }
        b' ←
            shard_loop l s (private_payment_loop s recipients) pool payment_matrix change_matrix 0
              shards b
        finish_build l s shards b'
