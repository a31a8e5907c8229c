-- ===== src/Transaction/Examples.antt =====
-- Runs of the fusion, and its theorems at concrete inputs.
use ghost_shard_protocol.Prelude.{ℕ, ◌≡◌, refl, List, [], ◌∷◌, length, filter}
use ghost_shard_protocol.Prelude.Int.{pos, ◌+ℤ◌}
use Prim.Native.String.{String}
use ghost_shard_protocol.Types.Hex.{hex, hex_eq, lower}
use ghost_shard_protocol.GasEngine.{TransferCommand}
use ghost_shard_protocol.Types.Maps.{map_get, map_set}
use ghost_shard_protocol.Transaction.{fuse, fuse_loop, fuse_one, fusion_key}
use ghost_shard_protocol.Transaction.Fusion.{is_nft}
use ghost_shard_protocol.Transaction.Nfts.{filter-fuse}
use ghost_shard_protocol.Transaction.Targets.{is_for, value_for, value_for-fuse, length-filter-fuse}

abbrev command : String → ℕ → ℕ → TransferCommand
command a kind n = record {
  shard = hex a;
  asset_type = kind;
  token = hex "0x00";
  to = hex "0xee";
  value = pos n;
  signature = [];
  authorization = record {
    target_address = hex "0xdd";
    chain_id = 1;
    nonce = 0;
    y_parity = 0;
    r = [];
    s = [];
  };
}

abbrev commands : List TransferCommand
commands = command "0xA1" 0 5 ∷ command "0xa1" 2 77 ∷ command "0xa1" 0 6 ∷ []

fused_run : fuse commands ≡ command "0xa1" 2 77 ∷ command "0xA1" 0 11 ∷ []
unfolding fuse fuse_loop fuse_one fusion_key map_get map_set hex_eq lower ◌+ℤ◌
fused_run = refl

abbrev target : TransferCommand
target = command "0xa1" 0 6

value_for-fuse_example : value_for target (fuse commands) ≡ value_for target commands
value_for-fuse_example =
    value_for-fuse target commands
      ((refl, (refl, (refl, (refl, tt)))), (refl, (refl, (refl, (refl, tt)))))
      (
        ((refl, (refl, (refl, (refl, tt)))), (refl, (refl, (refl, (refl, tt))))),
        (
          ((refl, (refl, (refl, (refl, tt)))), (refl, (refl, (refl, (refl, tt))))),
          (((refl, (refl, (refl, (refl, tt)))), (refl, (refl, (refl, (refl, tt))))), tt),
        ),
      )

length-filter-fuse_example : length (filter (is_for target) (fuse commands)) ≡ 1
unfolding hex_eq lower
length-filter-fuse_example =
    length-filter-fuse target commands
      ((refl, (refl, (refl, (refl, tt)))), (refl, (refl, (refl, (refl, tt)))))
      (
        ((refl, (refl, (refl, (refl, tt)))), (refl, (refl, (refl, (refl, tt))))),
        (
          ((refl, (refl, (refl, (refl, tt)))), (refl, (refl, (refl, (refl, tt))))),
          (((refl, (refl, (refl, (refl, tt)))), (refl, (refl, (refl, (refl, tt))))), tt),
        ),
      )

filter-fuse_example : filter is_nft (fuse commands) ≡ command "0xa1" 2 77 ∷ []
filter-fuse_example = filter-fuse commands
