-- ===== src/Transfer/Examples.antt =====
-- The theorems about transfers at concrete inputs: two shards, the integers modulo 7 for the curve.
use ghost_shard_protocol.Transfer.Announced.{IsSingle, IsAnnounced}
use ghost_shard_protocol.Transfer.Announced.Prepared.{prepared-IsSingle}
use ghost_shard_protocol.Transfer.Conservation.{total}
use ghost_shard_protocol.Prelude.{
  zero, suc, ℕ, ◌+◌, ◌%◌, ◌≡◌, refl, true, false, List, [], ◌∷◌, ◌++◌, none, some, Result, ok, err,
  arith, Bool, length, ◌≤◌, suc, inr,
}
use ghost_shard_protocol.Prelude.Int.{ℤ, pos, ◌+ℤ◌}
use Prim.Native.String.{String}
use ghost_shard_protocol.Types.{native, Shard}
use ghost_shard_protocol.Types.Bytes.{
  Bytes, zeros, overlay, big_endian, slice, big_endian_from, set_bytes,
}
use ghost_shard_protocol.Types.Hex.{hex, hex_eq, lower_code, lower, lower}
use ghost_shard_protocol.Viem.Instances.{lower_hex, hex_digits}
use ghost_shard_protocol.Noble.Instances.{mod_seven, plain, sums}
use ghost_shard_protocol.Random.{
  shuffle, draw, shuffle_from, swap, swap, shuffle, IsBelowTop, top_word,
}
use ghost_shard_protocol.Random.Instances.{constant_words}
use ghost_shard_protocol.Keys.{
  KeySet, compute_shared_secret, bigint_to_bytes, get_new_deposit_address,
  generate_ephemeral_keypair, bytes_to_bigint, bytes_loop,
  derive_shard_private_key_from_announcement, derive_shard_private_key, derive_stealth_public_key,
  compute_stealth_address, bigint_loop, point_to_ethereum_address,
}
use ghost_shard_protocol.Transfer.{
  Libraries, Signing, Prepared, defined, change_pool_loop, sign_authorization, make_change_pool,
  tracked, sign_transfer_command, announcement_of, Thrown, HexString,
}
use ghost_shard_protocol.Transfer.Public.{prepare_transfer, payment_loop, prepare_transfer}
use ghost_shard_protocol.Announce.{
  identifier_of, token_bytes, pack_header, pack_metadata, derive_metadata_key, sender_part,
  identifier_of,
}
use ghost_shard_protocol.Transaction.{fusion_key, fuse, fuse_one, fuse_loop, fuse_loop}
use ghost_shard_protocol.Transfer.Loops.{
  shard_step, change_loop, track_change, finish_build, shard_loop, sign_all, shard_step,
}
use ghost_shard_protocol.Types.Maps.{map_get, map_set}
use ghost_shard_protocol.MetaAddress.{
  check_points, generate_stealth_address, decode_meta_address, after, decode_payload,
}
use ghost_shard_protocol.Transfer.Private.{
  track_recipient, recipient_pool_loop, prepare_private_transfer, private_payment_loop,
}
use ghost_shard_protocol.Transfer.Conservation.Whole.{row, rows_total}
use ghost_shard_protocol.Transfer.Conservation.{positives}
use ghost_shard_protocol.Transfer.Conservation.PreparedPrivate.{
  private_paid, prepare_private_transfer-total,
}
use ghost_shard_protocol.Transfer.Conservation.Prepared.{prepare_transfer-total}

abbrev private_key : ℕ → Bytes
private_key k = zeros 31 ++ k ∷ []

abbrev public_key : ℕ → Bytes
public_key k = k ∷ zeros 32

abbrev keys : KeySet
keys = record {
  spending_private_key = private_key 3;
  spending_public_key = public_key 3;
  viewing_private_key = private_key 5;
  viewing_public_key = public_key 5;
  db_encryption_key = [];
}

abbrev signing : Signing
signing = record {
  hash_authorization = λ chain target nonce. hex "0x01";
  sign = λ hash key. some (1, 2, some 1);
  number_to_hex = λ n. n ∷ [];
  to_hex = λ bytes. bytes;
  encode_command = λ _. some (hex "0x02");
  keccak256 = λ s. s;
  sign_message = λ key message. some message;
}

abbrev libraries : Libraries
libraries = record {
  codec = lower_hex;
  hashes = sums;
  curve = mod_seven;
  cipher = plain;
  signing = signing;
  rng = constant_words 2000000000 (omega arith);
  random_bytes = λ n. private_key (n % 6 + 1);
}

abbrev shard : String → ℕ → Shard
shard a key = record {
  address = hex a;
  ephemeral_pub_key = hex "0x" ++ hex_digits (public_key key);
  spent = false;
  pending = false;
  assets = [];
}

abbrev shards : List Shard
shards = shard "0xa1" 2 ∷ shard "0xb2" 4 ∷ []

abbrev payments : List (List ℤ)
payments = (pos 5 ∷ pos 0 ∷ []) ∷ (pos 7 ∷ []) ∷ []

abbrev changes : List (List ℤ)
changes = (pos 3 ∷ pos 4 ∷ []) ∷ [] ∷ []

abbrev nothing : Prepared
nothing = record {
  authorizations = [];
  commands = [];
  announcements = [];
  change_shards = [];
  shard_addresses = [];
  change_amount = pos 0;
}

abbrev is_ok : Result Thrown Prepared → Bool
is_ok (err e) = false
is_ok (ok p) = true

abbrev value_of : Result Thrown Prepared → Prepared
value_of (err e) = nothing
value_of (ok p) = p

ok_of : (r : Result Thrown Prepared) → is_ok r ≡ true → r ≡ ok (value_of r)
ok_of (err e) h = cc
ok_of (ok p) h = refl

abbrev public_transfer : Result Thrown Prepared
public_transfer =
    prepare_transfer libraries shards native (hex "0xee") none payments changes keys 1 0 0

public_transfer_run : is_ok public_transfer ≡ true
unfolding prepare_transfer make_change_pool change_pool_loop draw get_new_deposit_address
    generate_ephemeral_keypair big_endian compute_shared_secret compute_stealth_address
    derive_stealth_public_key slice derive_shard_private_key_from_announcement shard_loop shard_step
    sign_authorization tracked derive_metadata_key identifier_of pack_header pack_metadata
    sender_part token_bytes bigint_loop bigint_to_bytes bytes_loop derive_shard_private_key
    point_to_ethereum_address shuffle shuffle_from swap fuse fuse_loop fuse_one fusion_key
    change_loop finish_build sign_all track_change payment_loop announcement_of defined
    sign_transfer_command big_endian_from overlay set_bytes hex_eq lower lower_code map_get map_set
    bytes_to_bigint
public_transfer_run = refl

small : (i : ℕ) → length (row payments i) + length (row changes i) ≤ top_word
small zero = omega arith
small (suc zero) = omega arith
small (suc (suc i)) = omega arith

below : IsBelowTop (constant_words 2000000000 (omega arith))
below n = omega arith

prepare_transfer-total_example :
    (total (value_of public_transfer).commands
      ≡ rows_total positives payments 0 shards +ℤ (value_of public_transfer).change_amount)
    × ((value_of public_transfer).change_amount ≡ rows_total positives changes 0 shards)
prepare_transfer-total_example =
    prepare_transfer-total libraries below payments changes small shards native (hex "0xee") none
      keys 1 0 0 (value_of public_transfer) (ok_of public_transfer public_transfer_run)

abbrev meta_address : HexString
meta_address = hex "st:eth:0x" ++ hex_digits (1 ∷ (public_key 3 ++ public_key 5))

abbrev private_transfer : Result Thrown Prepared
private_transfer =
    prepare_private_transfer libraries shards native meta_address none payments changes keys 1 0 0

private_transfer_run : is_ok private_transfer ≡ true
unfolding make_change_pool change_pool_loop draw get_new_deposit_address generate_ephemeral_keypair
    big_endian compute_shared_secret compute_stealth_address derive_stealth_public_key slice
    derive_shard_private_key_from_announcement shard_loop shard_step sign_authorization tracked
    derive_metadata_key identifier_of pack_header pack_metadata sender_part token_bytes bigint_loop
    bigint_to_bytes bytes_loop derive_shard_private_key point_to_ethereum_address shuffle
    shuffle_from swap fuse fuse_loop fuse_one fusion_key change_loop finish_build sign_all
    track_change announcement_of defined sign_transfer_command big_endian_from overlay set_bytes
    hex_eq lower lower_code map_get map_set bytes_to_bigint prepare_private_transfer
    private_payment_loop recipient_pool_loop track_recipient generate_stealth_address
    decode_meta_address decode_payload check_points after
private_transfer_run = refl

prepare_private_transfer-total_example :
    (total (value_of private_transfer).commands
      ≡ rows_total (private_paid native) payments 0 shards
        +ℤ (value_of private_transfer).change_amount)
    × ((value_of private_transfer).change_amount ≡ rows_total positives changes 0 shards)
prepare_private_transfer-total_example =
    prepare_private_transfer-total libraries below payments changes small shards native meta_address
      none keys 1 0 0 (value_of private_transfer) (ok_of private_transfer private_transfer_run)

prepared-IsSingle_example :
    IsSingle (value_of private_transfer).announcements
    × IsAnnounced
        (value_of private_transfer).change_shards
        (value_of private_transfer).announcements
prepared-IsSingle_example =
    prepared-IsSingle libraries shards native (hex "0xee") meta_address none payments changes keys 1
      0 0 (value_of private_transfer) (inr (ok_of private_transfer private_transfer_run))
