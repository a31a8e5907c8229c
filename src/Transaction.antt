-- ===== src/Transaction.antt =====
-- The fusion of commands in ghost-shard-sdk/src/transaction.ts, the same code in `prepareTransfer` and
-- `preparePrivateTransfer`: commands for coins and tokens with equal shard, asset type, token and
-- recipient become one, commands for an ERC721 token stay. The commands have the fields of the
-- services' `TransferCommand`.
pub mod Fusion
pub mod Uniqueness
pub mod Targets
pub mod Nfts
mod Examples
use ghost_shard_protocol.Prelude.{
  ℕ, ◌+◌, List, [], ◌∷◌, ◌++◌, map, Option, none, some, ◌==◌, if◌then◌else◌,
}
use ghost_shard_protocol.Prelude.Int.{◌+ℤ◌}
use ghost_shard_protocol.Types.Hex.{HexString, lower}
use ghost_shard_protocol.Types.Maps.{Map, map_get, map_set}
use ghost_shard_protocol.GasEngine.{TransferCommand}

-- The parts of the key with a dash (45) between them; an asset type is one digit (48 is 0).
unfoldable pub fusion_key : TransferCommand → HexString
fusion_key cmd =
    lower cmd.shard ++ 45 ∷ (48 + cmd.asset_type) ∷ 45 ∷ (lower cmd.token ++ 45 ∷ lower cmd.to)

-- A command for coins or tokens: its value goes to the command with its key, or it becomes that.
unfoldable pub fuse_one : Map TransferCommand → TransferCommand → Map TransferCommand
fuse_one fused cmd = elim (map_get (fusion_key cmd) fused) [
  | none ↦ map_set (fusion_key cmd) cmd fused
  | some existing ↦
      map_set (fusion_key cmd) (record existing { value = existing.value +ℤ cmd.value }) fused
]

-- The loop, with `fusedCommandsMap`; it gives what goes to `finalCommands`, and the map.
unfoldable pub fuse_loop :
    Map TransferCommand → List TransferCommand → List TransferCommand × Map TransferCommand
fuse_loop fused [] = ([], fused)
fuse_loop fused (cmd ∷ commands) =
    let kept = fuse_loop fused commands in
    let rest = fuse_loop (fuse_one fused cmd) commands in
    if cmd.asset_type == 2 then (cmd ∷ kept.0, kept.1) else rest

unfoldable pub fuse : List TransferCommand → List TransferCommand
unfolding fuse_loop
fuse commands = let (final, fused) = fuse_loop [] commands in final ++ map (λ e. e.1) fused
