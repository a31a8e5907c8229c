-- ===== src/CoinSelection/Examples.antt =====
-- Runs of the coin selection, and its theorems at concrete inputs.
use ghost_shard_protocol.Prelude.{
  ok, err, ◌++◌, ℕ, ◌<◌, ◌≡◌, arith, List, none, ◌∷◌, [], some, All, false, length, inr, map,
  Option, refl,
}
use ghost_shard_protocol.Random.{Rng, top_word, IsBelowTop, shuffle}
use ghost_shard_protocol.CoinSelection.Engine.{MultiSplitSelectionResult, SelectionOpts, split_all}
use ghost_shard_protocol.CoinSelection.Select.{PartialOpts, select_coins, is_native, with_balance}
use ghost_shard_protocol.Types.{
  Shard, TransferRequest, AssetType, to_address, erc721_balance, native_balance,
}
use ghost_shard_protocol.Viem.{by_lower}
use ghost_shard_protocol.CoinSelection.Errors.{insufficient}
use ghost_shard_protocol.Types.Hex.{hex}
use ghost_shard_protocol.CoinSelection.Engine.Exactness.{sum_all}
use ghost_shard_protocol.Prelude.Int.{pos, sum, ℤ, ◌≤ℤ◌, ◌-ℤ◌, ◌*ℤ◌, ◌/ℤ◌, ◌+ℤ◌}
use ghost_shard_protocol.CoinSelection.Select.Laws.{
  select_coins_exact, select_coins_insufficient, select_coins_covers,
}
use Prim.Native.String.{String}
use ghost_shard_protocol.CoinSelection.Allocation.{PoolItem, joint, allocate, with_ceilings}
use ghost_shard_protocol.CoinSelection.Splits.{generate_splits}
use ghost_shard_protocol.Random.Shuffling.{shuffle_grows, shuffle-Perm}
use ghost_shard_protocol.CoinSelection.Splits.Bounds.{generate_splits-ge, sum-generate_splits}
use ghost_shard_protocol.CoinSelection.Engine.Overpayment.{overpays}
use mathlib.Core.List.{Perm}
use ghost_shard_protocol.CoinSelection.Allocation.Laws.{capacity_of}
use ghost_shard_protocol.Random.Instances.{constant_words}

abbrev rng : Rng
rng = constant_words 2000000000 (omega arith)

below : IsBelowTop rng
below n = omega arith

abbrev top_rng : Rng
top_rng = constant_words top_word (omega arith)

abbrev coin : String → ℕ → Shard
coin a b = record {
  address = hex a;
  ephemeral_pub_key = hex "0x02";
  spent = false;
  pending = false;
  assets = native_balance (pos b) ∷ [];
}

abbrev wallet : List Shard
wallet = coin "0xa1" 70000 ∷ coin "0xb2" 90000 ∷ coin "0xc3" 40000 ∷ []

abbrev native_request : ℕ → TransferRequest
native_request a = record {
  asset_type = AssetType.native;
  recipient = to_address (hex "0xee");
  amount = some (pos a);
  token_address = none;
  token_id = none;
}

abbrev no_opts : PartialOpts
no_opts = record { max_splits_per_side = none; min_dust_threshold = none }

select_coins_exact_example :
    (r : MultiSplitSelectionResult) × (select_coins by_lower rng wallet
        (native_request 150000)
        no_opts
        0
      ≡ ok r)
    × (sum_all r.payment_splits_by_shard ≡ pos 150000)
unfolding ◌+ℤ◌
select_coins_exact_example =
    select_coins_exact by_lower rng no_opts below wallet (omega arith) (native_request 150000) 0
      is_native refl (omega arith) (omega arith) (omega arith) (inr (omega arith))

select_coins_covers_example :
    (r : MultiSplitSelectionResult) × (selected : List PoolItem) × (rest : List PoolItem)
    × (select_coins by_lower rng wallet (native_request 150000) no_opts 0 ≡ ok r)
    × Perm (selected ++ rest) (with_balance is_native wallet)
    × (r.shards ≡ map (λ x. x.shard) selected)
    × (sum_all r.change_splits_by_shard ≡ capacity_of selected -ℤ pos 150000)
unfolding ◌+ℤ◌
select_coins_covers_example =
    select_coins_covers by_lower rng no_opts below wallet (omega arith) (native_request 150000) 0
      is_native refl (omega arith) (omega arith) (omega arith)

select_coins_insufficient_example :
    select_coins by_lower rng wallet (native_request 250000) no_opts 0
    ≡ err (insufficient AssetType.native)
unfolding ◌+ℤ◌
select_coins_insufficient_example =
    select_coins_insufficient by_lower rng no_opts below wallet (omega arith)
      (native_request 250000) 0 is_native refl (omega arith)

abbrev item : String → ℕ → PoolItem
item a b = record { shard = coin a b; balance = pos b }

abbrev dust_opts : SelectionOpts
dust_opts = record { max_splits_per_side = 3; min_dust_threshold = pos 10000 }

overpays_example :
    (ts : List ℤ) × (n' : ℕ) × (allocate rng AssetType.native
        (pos 10000)
        (with_ceilings (item "0xa1" 6000 ∷ item "0xb2" 90000 ∷ [])).0
        (pos 5000)
        0
      ≡ ok (ts, n'))
    × (sum_all (
          map
            (λ o. o.0)
            (split_all rng dust_opts 2 (item "0xa1" 6000 ∷ item "0xb2" 90000 ∷ []) ts n'))
        ≡ pos 90000)
overpays_example =
    overpays rng dust_opts AssetType.native (item "0xa1" 6000) (item "0xb2" 90000) (pos 5000) 2 0
      (omega arith) (omega arith) (omega arith) (omega arith)

shuffle-Perm_example :
    (ys : List ℕ) × ((shuffle rng (map some (1 ∷ 2 ∷ 3 ∷ [])) 0).0 ≡ map some ys)
    × Perm ys (1 ∷ 2 ∷ 3 ∷ [])
shuffle-Perm_example = shuffle-Perm rng below (1 ∷ 2 ∷ 3 ∷ []) 0 (omega arith)

abbrev three : List (Option ℕ)
three = some 1 ∷ some 2 ∷ some 3 ∷ []

shuffle_grows_example : length three < length (shuffle top_rng three 0).0
shuffle_grows_example = shuffle_grows top_rng (some 1) (some 2) (some 3 ∷ []) 0 refl

sum-generate_splits_example : sum (generate_splits rng (pos 100000) 3 (pos 10000) 0).0 ≡ pos 100000
sum-generate_splits_example = sum-generate_splits rng (pos 100000) 3 (pos 10000) 0

generate_splits-ge_example :
    All (λ x. pos 10000 ≤ℤ x) (generate_splits rng (pos 100000) 3 (pos 10000) 0).0
unfolding ◌*ℤ◌
generate_splits-ge_example =
    generate_splits-ge rng (pos 100000) 3 (pos 10000) 0 (omega arith) (omega arith)

joint_run :
    joint AssetType.native (pos 0) (pos 90000) (pos 4000) (pos 5000) 50 ≡ ok (pos 2500, pos 2500)
unfolding joint ◌-ℤ◌ ◌*ℤ◌ ◌/ℤ◌
joint_run = refl

abbrev nft_holder : Shard
nft_holder = record {
  address = hex "0xd4";
  ephemeral_pub_key = hex "0x02";
  spent = false;
  pending = false;
  assets = erc721_balance (hex "0xabc") (pos 1) (pos 7 ∷ []) ∷ [];
}
