-- ===== src/Transaction/Targets.antt =====
-- What the fusion of commands in ghost-shard-sdk/src/transaction.ts does for a shard, an asset type, a
-- token and a recipient. The parts of a key are told apart by the dashes between them, which no hex
-- string contains.
use ghost_shard_protocol.Prelude.{
  ◌+◌, ◌≡◌, refl, sym, ap, ◌∙◌, Bool, true, false, not, ◌&&◌, List, [], ◌∷◌, ◌++◌, map, filter,
  length, none, some, All, All-append, Bool-cases, Option-cases, inl, inr, arith, ◌==◌,
  if◌then◌else◌, any,
}
use ghost_shard_protocol.Prelude.Int.{ℤ, pos, ◌+ℤ◌}
use ghost_shard_protocol.Types.Hex.{HexString, hex_eq, lower, lower_code}
use ghost_shard_protocol.Types.Maps.{Map, map_get, map_set}
use ghost_shard_protocol.GasEngine.{TransferCommand}
use ghost_shard_protocol.Transaction.{fusion_key, fuse_one, fuse_loop, fuse}
use ghost_shard_protocol.Transaction.Fusion.{has_key, value_at, value_at-fuse}
use ghost_shard_protocol.Transaction.Uniqueness.{length-fuse}

-- A command for coins or tokens with the shard, the asset type, the token and the recipient of the
-- target, up to the case of the letters.
abbrev pub is_for : TransferCommand → TransferCommand → Bool
is_for target cmd =
    not (cmd.asset_type == 2)
    && (hex_eq (lower cmd.shard) (lower target.shard)
        && (cmd.asset_type == target.asset_type
            && (hex_eq (lower cmd.token) (lower target.token)
                && hex_eq (lower cmd.to) (lower target.to))))

-- What the commands for a target move.
abbrev pub value_for : TransferCommand → List TransferCommand → ℤ
value_for target [] = pos 0
value_for target (cmd ∷ commands) =
    (if is_for target cmd then cmd.value else pos 0) +ℤ value_for target commands

abbrev pub HasNoDash : HexString → Type 0
HasNoDash s = All (λ c. (c == 45) ≡ false) s

-- The shard and the token are written without a dash.
abbrev pub IsPlain : TransferCommand → Type 0
IsPlain cmd = HasNoDash cmd.shard × HasNoDash cmd.token

lower-HasNoDash : (s : HexString) → HasNoDash s → HasNoDash (lower s)
unfolding lower lower_code
lower-HasNoDash [] h = tt
lower-HasNoDash (c ∷ s) (e, h) = (ground arith, lower-HasNoDash s h)

and_assoc : (a b c : Bool) → (a && (b && c)) ≡ ((a && b) && c)
and_assoc true b c = refl
and_assoc false b c = refl

hex_eq-dash :
    (a b x y : HexString)
    → HasNoDash a
    → HasNoDash b
    → hex_eq (a ++ 45 ∷ x) (b ++ 45 ∷ y) ≡ (hex_eq a b && hex_eq x y)
unfolding hex_eq
hex_eq-dash [] [] x y h k = refl
hex_eq-dash [] (d ∷ b) x y h (e, k) = let no : (45 == d) ≡ false = ground arith in rw no refl
hex_eq-dash (c ∷ a) [] x y (e, h) k = rw e refl
hex_eq-dash (c ∷ a) (d ∷ b) x y (e, h) (f, k) =
    ap (λ t. c == d && t) (hex_eq-dash a b x y h k) ∙ and_assoc (c == d) (hex_eq a b) (hex_eq x y)

has_key-is_for :
    (target cmd : TransferCommand)
    → IsPlain target
    → IsPlain cmd
    → has_key (fusion_key target) cmd ≡ is_for target cmd
unfolding fusion_key hex_eq
has_key-is_for target cmd (ts, tt') (cs, ct) =
    let kind : (48 + cmd.asset_type == 48 + target.asset_type)
        ≡ (cmd.asset_type == target.asset_type) =
      ground arith in
    let tokens =
      hex_eq-dash (lower cmd.token) (lower target.token) (lower cmd.to) (lower target.to)
        (lower-HasNoDash cmd.token ct) (lower-HasNoDash target.token tt') in
    ap (λ t. not (cmd.asset_type == 2) && t)
      (hex_eq-dash (lower cmd.shard) (lower target.shard) _ _ (lower-HasNoDash cmd.shard cs)
          (lower-HasNoDash target.shard ts)
        ∙ rw (kind, tokens) refl)

value_for-value_at :
    (target : TransferCommand) (commands : List TransferCommand)
    → IsPlain target
    → All IsPlain commands
    → value_at (fusion_key target) commands ≡ value_for target commands
value_for-value_at target [] t h = refl
value_for-value_at target (cmd ∷ commands) t (p, h) =
    rw (has_key-is_for target cmd t p, value_for-value_at target commands t h) refl

filter-is_for :
    (target : TransferCommand) (commands : List TransferCommand)
    → IsPlain target
    → All IsPlain commands
    → filter (has_key (fusion_key target)) commands ≡ filter (is_for target) commands
filter-is_for target [] t h = refl
filter-is_for target (cmd ∷ commands) t (p, h) =
    rw (has_key-is_for target cmd t p, filter-is_for target commands t h) refl

-- The entries of the map are plain.
abbrev ArePlain : Map TransferCommand → Type 0
ArePlain m = All (λ e. IsPlain e.1) m

get-IsPlain :
    (k : HexString) (m : Map TransferCommand) (old : TransferCommand)
    → ArePlain m
    → map_get k m ≡ some old
    → IsPlain old
unfolding map_get
get-IsPlain k [] old h g = cc
get-IsPlain k ((x, c) ∷ m) old (h, hs) g = elim (Bool-cases (hex_eq x k)) [
  | inl e ↦
      let is_old : c ≡ old = ap (λ o. elim o [ none ↦ c | some y ↦ y ]) (rw e at g) in
      rw (sym is_old) h
  | inr e ↦ get-IsPlain k m old hs (rw e at g)
]

set-ArePlain :
    (k : HexString) (new : TransferCommand) (m : Map TransferCommand)
    → ArePlain m
    → IsPlain new
    → ArePlain (map_set k new m)
unfolding map_set
set-ArePlain k new [] h p = (p, tt)
set-ArePlain k new ((x, c) ∷ m) (h, hs) p = elim (Bool-cases (hex_eq x k)) [
  | inl f ↦ rw f (p, hs)
  | inr f ↦ rw f (h, set-ArePlain k new m hs p)
]

fuse_one-ArePlain :
    (m : Map TransferCommand) (cmd : TransferCommand)
    → ArePlain m
    → IsPlain cmd
    → ArePlain (fuse_one m cmd)
unfolding fuse_one
fuse_one-ArePlain m cmd h p = elim (Option-cases (map_get (fusion_key cmd) m)) [
  | inl e ↦ rw (e, fuse_one) (set-ArePlain (fusion_key cmd) cmd m h p)
  | inr (old, e) ↦
      rw (e, fuse_one)
        (set-ArePlain (fusion_key cmd) (record old { value = old.value +ℤ cmd.value }) m h
          (get-IsPlain (fusion_key cmd) m old h e))
]

fuse_loop-ArePlain :
    (m : Map TransferCommand) (commands : List TransferCommand)
    → ArePlain m
    → All IsPlain commands
    → All IsPlain (fuse_loop m commands).0 × ArePlain (fuse_loop m commands).1
unfolding fuse_loop
fuse_loop-ArePlain m [] h ps = (tt, h)
fuse_loop-ArePlain m (cmd ∷ commands) h (p, ps) = elim (Bool-cases (cmd.asset_type == 2)) [
  | inl e ↦ let (kept, fused) = fuse_loop-ArePlain m commands h ps in rw e ((p, kept), fused)
  | inr e ↦ rw e (fuse_loop-ArePlain (fuse_one m cmd) commands (fuse_one-ArePlain m cmd h p) ps)
]

entries-IsPlain : (m : Map TransferCommand) → ArePlain m → All IsPlain (map (λ e. e.1) m)
entries-IsPlain [] h = tt
entries-IsPlain (e ∷ m) (h, hs) = (h, entries-IsPlain m hs)

fuse-IsPlain :
    (commands : List TransferCommand) → All IsPlain commands → All IsPlain (fuse commands)
unfolding fuse
fuse-IsPlain commands ps =
    let (kept, fused) = fuse_loop-ArePlain [] commands tt ps in
    All-append IsPlain (fuse_loop [] commands).0 (map (λ e. e.1) (fuse_loop [] commands).1) kept
      (entries-IsPlain (fuse_loop [] commands).1 fused)

-- If no shard and no token is written with a dash, then for each shard, asset type, token and
-- recipient, up to the case of the letters, the fused commands for coins and tokens move as much as
-- the commands did before.
pub value_for-fuse :
    (target : TransferCommand) (commands : List TransferCommand)
    → IsPlain target
    → All IsPlain commands
    → value_for target (fuse commands) ≡ value_for target commands
value_for-fuse target commands t ps =
    sym (value_for-value_at target (fuse commands) t (fuse-IsPlain commands ps))
    ∙ value_at-fuse (fusion_key target) commands
    ∙ value_for-value_at target commands t ps

any-is_for :
    (target : TransferCommand) (commands : List TransferCommand)
    → IsPlain target
    → All IsPlain commands
    → any (has_key (fusion_key target)) commands ≡ any (is_for target) commands
any-is_for target [] t h = refl
any-is_for target (cmd ∷ commands) t (p, h) =
    rw (has_key-is_for target cmd t p, any-is_for target commands t h) refl

-- If no shard and no token is written with a dash, then after the fusion there is exactly one command
-- for coins or tokens with a shard, asset type, token and recipient, up to the case of the letters,
-- if there was any before, and none if there was none.
pub length-filter-fuse :
    (target : TransferCommand) (commands : List TransferCommand)
    → IsPlain target
    → All IsPlain commands
    → length (filter (is_for target) (fuse commands))
      ≡ (if any (is_for target) commands then 1 else 0)
length-filter-fuse target commands t ps =
    ap length (sym (filter-is_for target (fuse commands) t (fuse-IsPlain commands ps)))
    ∙ length-fuse (fusion_key target) commands
    ∙ ap (λ b. if b then 1 else 0) (any-is_for target commands t ps)
