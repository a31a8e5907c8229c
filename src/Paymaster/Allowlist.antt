-- ===== src/Paymaster/Allowlist.antt =====
-- Who is allowed by `ensureUserAllowed` of ghost-services/src/paymaster/service.ts under a list of users
-- that ghost-services/src/config.ts reads: the list is written as names between blanks and commas.
use ghost_shard_protocol.Prelude.{
  ℕ, ◌<◌, ◌≡◌, ◌≢◌, ◌⊎◌, refl, ap, ◌∙◌, Bool, true, false, List, [], ◌∷◌, ◌++◌, map, filter, any,
  some, All, All-append, ok, err, length, ltb, ◌==◌, if◌then◌else◌, Bool-cases, inl, inr, arith,
}
use ghost_shard_protocol.Types.Hex.{HexString, hex_eq, lower}
use ghost_shard_protocol.Paymaster.{
  allowed_users, ensure_user_allowed, not_allowed, split_commas, user_of, is_space, trim_start,
  trim_end,
}

-- A space or a tab.
abbrev pub IsBlank : ℕ → Type 0
IsBlank c = (c ≡ 32) ⊎ (c ≡ 9)

-- A visible ASCII character that is no comma.
abbrev pub IsVisible : ℕ → Type 0
IsVisible c = (32 < c) × (c < 127) × (c ≢ 44)

-- A name with the blanks around it.
pub record Entry : Type 0 where
  pub before : HexString
  pub name : HexString
  pub behind : HexString

abbrev pub IsEntry : Entry → Type 0
IsEntry e = All IsBlank e.before × All IsVisible e.name × All IsBlank e.behind

abbrev pub written : Entry → HexString
written e = e.before ++ (e.name ++ e.behind)

-- The entries with commas between them.
abbrev pub joined : Entry → List Entry → HexString
joined e [] = written e
joined e (f ∷ entries) = written e ++ 44 ∷ joined f entries

blank-is_space : (c : ℕ) → IsBlank c → is_space c ≡ true
blank-is_space c (inl e) = rw e refl
blank-is_space c (inr e) = rw e refl

visible-is_space : (c : ℕ) → IsVisible c → is_space c ≡ false
visible-is_space c (l, u, n) = ground arith

blank-comma : (c : ℕ) → IsBlank c → (c == 44) ≡ false
blank-comma c (inl e) = rw e refl
blank-comma c (inr e) = rw e refl

visible-comma : (c : ℕ) → IsVisible c → (c == 44) ≡ false
visible-comma c (l, u, n) = ground arith

abbrev NoComma : HexString → Type 0
NoComma s = All (λ c. (c == 44) ≡ false) s

All-map : {P Q : ℕ → Type 0} → ((c : ℕ) → P c → Q c) → (s : HexString) → All P s → All Q s
All-map f [] h = tt
All-map f (c ∷ s) (p, h) = (f c p, All-map f s h)

written-NoComma : (e : Entry) → IsEntry e → NoComma (written e)
written-NoComma e (b, n, a) =
    All-append _ e.before (e.name ++ e.behind) (All-map blank-comma e.before b) (
      All-append _ e.name e.behind (All-map visible-comma e.name n)
        (All-map blank-comma e.behind a))

split_commas-last : (w : HexString) → NoComma w → split_commas w ≡ w ∷ []
unfolding split_commas
split_commas-last [] h = refl
split_commas-last (c ∷ w) (e, h) = rw (e, split_commas-last w h) refl

split_commas-first :
    (w rest : HexString) → NoComma w → split_commas (w ++ 44 ∷ rest) ≡ w ∷ split_commas rest
unfolding split_commas
split_commas-first [] rest h = refl
split_commas-first (c ∷ w) rest (e, h) = rw (e, split_commas-first w rest h) refl

split_commas-joined :
    (e : Entry) (entries : List Entry)
    → IsEntry e
    → All IsEntry entries
    → split_commas (joined e entries) ≡ map written (e ∷ entries)
split_commas-joined e [] h hs = split_commas-last (written e) (written-NoComma e h)
split_commas-joined e (f ∷ entries) h (k, hs) =
    split_commas-first (written e) (joined f entries) (written-NoComma e h)
    ∙ ap (◌∷◌ (written e)) (split_commas-joined f entries k hs)

trim_end-blank : (s : HexString) → All IsBlank s → trim_end s ≡ []
unfolding trim_end
trim_end-blank [] h = refl
trim_end-blank (c ∷ s) (b, h) = rw (trim_end-blank s h, blank-is_space c b) refl

trim_end-word :
    (c : ℕ) (s : HexString) → trim_end s ≡ [] → is_space c ≡ false → trim_end (c ∷ s) ≡ c ∷ []
unfolding trim_end
trim_end-word c s h e = rw (h, e) refl

trim_end-name :
    (n : ℕ) (name behind : HexString)
    → All IsVisible (n ∷ name)
    → All IsBlank behind
    → trim_end (n ∷ (name ++ behind)) ≡ n ∷ name
unfolding trim_end
trim_end-name n [] behind (v, h) b =
    trim_end-word n behind (trim_end-blank behind b) (visible-is_space n v)
trim_end-name n (m ∷ name) behind (v, h) b = rw (trim_end-name m name behind h b) refl

trim_end-before :
    (before s t : HexString) (d : ℕ) → trim_end s ≡ d ∷ t → trim_end (before ++ s) ≡ before ++ d ∷ t
unfolding trim_end
trim_end-before [] s t d h = h
trim_end-before (c ∷ []) s t d h = rw h refl
trim_end-before (c ∷ b ∷ before) s t d h = rw (trim_end-before (b ∷ before) s t d h) refl

trim_start-name :
    (before name : HexString) (n : ℕ)
    → All IsBlank before
    → IsVisible n
    → trim_start (before ++ n ∷ name) ≡ n ∷ name
unfolding trim_start
trim_start-name [] name n b v = rw (visible-is_space n v) refl
trim_start-name (c ∷ before) name n (e, b) v =
    rw (blank-is_space c e) (trim_start-name before name n b v)

user_of-written : (e : Entry) → IsEntry e → user_of (written e) ≡ lower e.name
unfolding trim_start
user_of-written e h = trimmed e.before e.name e.behind h
  where
    trimmed :
        (before name behind : HexString)
        → All IsBlank before × All IsVisible name × All IsBlank behind
        → user_of (before ++ (name ++ behind)) ≡ lower name
    trimmed before [] behind (b, v, a) =
        ap (λ s. lower (trim_start s))
          (trim_end-blank (before ++ behind) (All-append IsBlank before behind b a))
    trimmed before (n ∷ name) behind (b, v, a) =
        ap (λ s. lower (trim_start s))
          (trim_end-before before (n ∷ (name ++ behind)) name n (trim_end-name n name behind v a))
        ∙ ap lower (trim_start-name before name n b v.0)

names-map :
    (entries : List Entry)
    → All IsEntry entries
    → map user_of (map written entries) ≡ map (λ e. lower e.name) entries
names-map [] h = refl
names-map (e ∷ entries) (h, hs) = rw (user_of-written e h, names-map entries hs) refl

-- The users of a list.
abbrev pub users : List Entry → List HexString
users [] = []
users (e ∷ entries) = elim e.name [ [] ↦ users entries | ◌∷◌ c s ↦ lower (c ∷ s) ∷ users entries ]

filter-user :
    (name : HexString) (rest : List HexString)
    → (if ltb 0 (length (lower name)) then lower name ∷ rest else rest)
      ≡ (elim name [ [] ↦ rest | ◌∷◌ c s ↦ lower (c ∷ s) ∷ rest ])
unfolding lower
filter-user [] rest = refl
filter-user (c ∷ s) rest =
    let named : ltb 0 (length (lower (c ∷ s))) ≡ true = ground arith in rw named refl

filter-users :
    (entries : List Entry)
    → filter (λ s. ltb 0 (length s)) (map (λ e. lower e.name) entries) ≡ users entries
filter-users [] = refl
filter-users (e ∷ entries) =
    ap (λ rest. if ltb 0 (length (lower e.name)) then lower e.name ∷ rest else rest)
      (filter-users entries)
    ∙ filter-user e.name (users entries)

allowed_users-joined :
    (e : Entry) (entries : List Entry)
    → IsEntry e
    → All IsEntry entries
    → allowed_users (joined e entries) ≡ users (e ∷ entries)
unfolding allowed_users
allowed_users-joined e entries h hs =
    ap (λ l. filter (λ s. ltb 0 (length s)) (map user_of l)) (split_commas-joined e entries h hs)
    ∙ ap (filter (λ s. ltb 0 (length s))) (names-map (e ∷ entries) (h, hs))
    ∙ filter-users (e ∷ entries)

-- The list is empty, or has the user, up to the case of the user.
abbrev pub lets_through : List HexString → HexString → Bool
lets_through [] user = true
lets_through (u ∷ us) user = any (λ s. hex_eq s (lower user)) (u ∷ us)

ensure_user_allowed-lets_through :
    (allowed : List HexString) (user : HexString)
    → ensure_user_allowed allowed (some user)
      ≡ (if lets_through allowed user then ok tt else err (not_allowed user))
unfolding ensure_user_allowed
ensure_user_allowed-lets_through [] user = refl
ensure_user_allowed-lets_through (u ∷ us) user =
    let some_users : ltb 0 (length (u ∷ us)) ≡ true = ground arith in
    elim (Bool-cases (any (λ s. hex_eq s (lower user)) (u ∷ us))) [
      | inl e ↦ rw (some_users, e) refl
      | inr e ↦ rw (some_users, e) refl
    ]

-- If the variable is a list of names between spaces and tabs, with commas between them, then the
-- users are the names that are not empty, in lower case and in their order; a user is let through
-- just when there are none, or the user's address in lower case is one of them.
pub ensure_user_allowed-allowed_users :
    (e : Entry) (entries : List Entry) (user : HexString)
    → IsEntry e
    → All IsEntry entries
    → (allowed_users (joined e entries) ≡ users (e ∷ entries))
      × (ensure_user_allowed (allowed_users (joined e entries)) (some user)
          ≡ (if lets_through (users (e ∷ entries)) user then ok tt else err (not_allowed user)))
ensure_user_allowed-allowed_users e entries user h hs =
    let read = allowed_users-joined e entries h hs in
    (read, rw read (ensure_user_allowed-lets_through (users (e ∷ entries)) user))
