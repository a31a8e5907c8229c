-- ===== src/GasEngine/Authorizations.antt =====
-- The authorization list of ghost-services/src/common/gasEngine.ts against the commands.
use ghost_shard_protocol.Prelude.{
  ◌≡◌, refl, sym, ap, ◌∙◌, Bool, true, not, List, [], ◌∷◌, map, some, filter, Bool-cases, inl, inr,
}
use ghost_shard_protocol.Types.Hex.{HexString, hex_eq, hex_eq_iff, lower}
use ghost_shard_protocol.GasEngine.{
  TransferCommand, entry_of, has, extract_loop, extract_authorization_list, unless_empty,
}

abbrev pub is_other : HexString → TransferCommand → Bool
is_other key cmd = not (hex_eq key (lower cmd.shard))

-- The first command of each shard, in the order of the commands.
abbrev pub first_of_each : List TransferCommand → List TransferCommand
first_of_each [] = []
first_of_each (cmd ∷ commands) = cmd ∷ filter (is_other (lower cmd.shard)) (first_of_each commands)

abbrev is_unseen : List HexString → TransferCommand → Bool
is_unseen seen cmd = not (has seen (lower cmd.shard))

filter-filter :
    (seen : List HexString) (key : HexString) (commands : List TransferCommand)
    → filter (is_unseen (key ∷ seen)) commands
      ≡ filter (is_unseen seen) (filter (is_other key) commands)
unfolding has
filter-filter seen key [] = refl
filter-filter seen key (c ∷ commands) =
    let ih = filter-filter seen key commands in
    elim (Bool-cases (hex_eq key (lower c.shard))) [
      | inl e ↦ rw e ih
      | inr e ↦ elim (Bool-cases (has seen (lower c.shard))) [
        | inl f ↦ rw (e, f) ih
        | inr f ↦ rw (e, f) (ap (◌∷◌ c) ih)
      ]
    ]

-- Where the key was seen before, it makes no difference to leave out its commands first.
drop_seen :
    (seen : List HexString) (key : HexString) (commands : List TransferCommand)
    → has seen key ≡ true
    → filter (is_unseen seen) commands ≡ filter (is_unseen seen) (filter (is_other key) commands)
drop_seen seen key [] h = refl
drop_seen seen key (c ∷ commands) h =
    let ih = drop_seen seen key commands h in
    elim (Bool-cases (hex_eq key (lower c.shard))) [
      | inl e ↦
          let same = ap (has seen) (sym ((hex_eq_iff key (lower c.shard)).0 e)) ∙ h in
          rw (e, same) ih
      | inr e ↦ elim (Bool-cases (has seen (lower c.shard))) [
        | inl f ↦ rw (e, f) ih
        | inr f ↦ rw (e, f) (ap (◌∷◌ c) ih)
      ]
    ]

extract_loop-first :
    (seen : List HexString) (commands : List TransferCommand)
    → extract_loop seen commands ≡ map entry_of (filter (is_unseen seen) (first_of_each commands))
unfolding extract_loop
extract_loop-first seen [] = refl
extract_loop-first seen (c ∷ commands) =
    let key = lower c.shard in
    elim (Bool-cases (has seen key)) [
      | inl e ↦ rw e (
          extract_loop-first seen commands
          ∙ ap (map entry_of) (drop_seen seen key (first_of_each commands) e))
      | inr e ↦ rw e (
          ap (◌∷◌ (entry_of c)) (
            extract_loop-first (key ∷ seen) commands
            ∙ ap (map entry_of) (filter-filter seen key (first_of_each commands))))
    ]

nothing_seen : (commands : List TransferCommand) → filter (is_unseen []) commands ≡ commands
unfolding has
nothing_seen [] = refl
nothing_seen (c ∷ commands) = ap (◌∷◌ c) (nothing_seen commands)

-- The authorization list of one or more commands has an entry for the first command of each shard,
-- in their order, whatever the case of the letters in the shards' addresses, and no other entry.
pub extract_authorization_list-first :
    (c : TransferCommand) (commands : List TransferCommand)
    → extract_authorization_list (c ∷ commands) ≡ some (map entry_of (first_of_each (c ∷ commands)))
unfolding extract_authorization_list
extract_authorization_list-first c commands = ap unless_empty (
    extract_loop-first [] (c ∷ commands)
    ∙ ap (map entry_of) (nothing_seen (first_of_each (c ∷ commands))))
