-- ===== src/Rpc/Nonces.antt =====
-- The chunks of `fetchNonces` of ghost-shard-sdk/src/rpc.ts.
use mathlib.Core.List.{append_assoc}
use ghost_shard_protocol.Prelude.{
  ℕ, zero, suc, ◌+◌, ◌*◌, ◌/◌, ◌≤◌, ◌≡◌, refl, sym, ap, ◌∙◌, List, [], ◌∷◌, ◌++◌, map, Option, some,
  length, length-append, take, drop, get_elem?, arith, ◌⊎◌, Option-cases, inl, inr, none,
}
use ghost_shard_protocol.Types.Hex.{HexString}
use ghost_shard_protocol.Rpc.{
  NonceCheck, batch_call, chunks_from, count_of, fetch_nonces, flat_counts,
  get_transaction_count_batch, with_counts,
}

drop-nil : (k : ℕ) → Path (List HexString) (drop k []) []
drop-nil zero = refl
drop-nil (suc k) = refl

drop-drop : (m n : ℕ) (xs : List HexString) → drop m (drop n xs) ≡ drop (n + m) xs
drop-drop m zero xs = let e : m ≡ 0 + m = omega arith in ap (λ k. drop k xs) e
drop-drop m (suc n) [] = drop-nil m ∙ sym (drop-nil (suc n + m))
drop-drop m (suc n) (x ∷ xs) =
    let e : suc (n + m) ≡ suc n + m = omega arith in drop-drop m n xs ∙ ap (λ k. drop k (x ∷ xs)) e

drop_all : (n : ℕ) (xs : List HexString) → length xs ≤ n → drop n xs ≡ []
drop_all zero [] h = refl
drop_all zero (x ∷ xs) h = absurd (omega arith)
drop_all (suc n) [] h = refl
drop_all (suc n) (x ∷ xs) h = drop_all n xs (omega arith)

map-take {ℓ} :
    {B : Type ℓ} (f : HexString → B) (n : ℕ) (xs : List HexString)
    → map f (take n xs) ++ map f (drop n xs) ≡ map f xs
map-take f zero xs = refl
map-take f (suc n) [] = refl
map-take f (suc n) (x ∷ xs) = ap (◌∷◌ (f x)) (map-take f n xs)

get-append :
    (counts rest : List (Option ℕ)) (n : Option ℕ)
    → get_elem? (counts ++ n ∷ rest) (length counts) ≡ some n
get-append [] rest n = refl
get-append (c ∷ counts) rest n = get-append counts rest n

module _ (parse_hex : HexString → Option ℕ) (request : HexString → Option HexString) where
  -- The nonce of one address.
  abbrev pub check_of : HexString → NonceCheck
  check_of address = record {
    address = address;
    nonce = count_of parse_hex request (request address);
  }

  with_counts-map :
      (before : List (Option ℕ)) (chunk : List HexString)
      → with_counts parse_hex request
          (before ++ map (count_of parse_hex request) (map request chunk))
          (length before)
          chunk
        ≡ map check_of chunk
  unfolding with_counts
  with_counts-map before [] = refl
  with_counts-map before (address ∷ chunk) =
      let n = count_of parse_hex request (request address) in
      let rest = map (count_of parse_hex request) (map request chunk) in
      let more : length (before ++ n ∷ []) ≡ suc (length before) =
        omega (arith, length-append before (n ∷ [])) in
      let tail =
        ap (λ k. with_counts parse_hex request (before ++ n ∷ rest) k chunk) (sym more)
        ∙ ap (λ c. with_counts parse_hex request c (length (before ++ n ∷ [])) chunk)
            (sym (append_assoc before (n ∷ []) rest))
        ∙ with_counts-map (before ++ n ∷ []) chunk in
      rw (get-append before rest n) (ap (◌∷◌ (check_of address)) tail)

  flat_counts-chunks :
      (left i : ℕ) (addresses : List HexString)
      → length addresses ≤ (i + left) * 300
      → flat_counts parse_hex request (chunks_from parse_hex request left i addresses)
        ≡ map check_of (drop (i * 300) addresses)
  unfolding flat_counts chunks_from get_transaction_count_batch batch_call
  flat_counts-chunks zero i addresses h =
      ap (map check_of) (sym (drop_all (i * 300) addresses (omega arith)))
  flat_counts-chunks (suc left) i addresses h =
      let rest = drop (i * 300) addresses in
      let next : i * 300 + 300 ≡ suc i * 300 = omega arith in
      let later : drop 300 rest ≡ drop (suc i * 300) addresses =
        drop-drop 300 (i * 300) addresses ∙ ap (λ k. drop k addresses) next in
      ap
        (λ c.
          c ++ flat_counts parse_hex request (chunks_from parse_hex request left (suc i) addresses))
        (with_counts-map [] (take 300 rest))
      ∙ ap (λ c. map check_of (take 300 rest) ++ c)
          (flat_counts-chunks left (suc i) addresses (omega arith) ∙ ap (map check_of) (sym later))
      ∙ map-take check_of 300 rest

  fetch_nonces-check_of :
      (addresses : List HexString)
      → fetch_nonces parse_hex request addresses ≡ map check_of addresses
  unfolding fetch_nonces
  fetch_nonces-check_of [] = refl
  fetch_nonces-check_of (address ∷ addresses) =
      flat_counts-chunks ((length (address ∷ addresses) + 299) / 300) 0 (address ∷ addresses)
        (omega arith)

  -- What a nonce is: what the request gives, read as a hex number, and 0 if it fails or gives an
  -- empty string.
  abbrev pub IsNonce : HexString → Option ℕ → Type 0
  IsNonce address nonce =
      ((request address ≡ none) × (nonce ≡ some 0))
      ⊎ ((request address ≡ some []) × (nonce ≡ some 0))
      ⊎ ((c : ℕ) × (s : HexString) × (request address ≡ some (c ∷ s)) × (nonce ≡ parse_hex (c ∷ s)))

  count_of-IsNonce :
      (address : HexString) → IsNonce address (count_of parse_hex request (request address))
  unfolding count_of
  count_of-IsNonce address = elim (Option-cases (request address)) [
    | inl e ↦ inl (e, rw e refl)
    | inr ([], e) ↦ inr (inl (e, rw e refl))
    | inr (c ∷ s, e) ↦ inr (inr (c, s, e, rw e refl))
  ]

  -- The address of each check is the address asked for, and its nonce is that of the address.
  abbrev pub AreChecks : List HexString → List NonceCheck → Type 0
  AreChecks [] [] = Unit {0}
  AreChecks [] (check ∷ checks) = ⊥
  AreChecks (address ∷ addresses) [] = ⊥
  AreChecks (address ∷ addresses) (check ∷ checks) =
      (check.address ≡ address) × IsNonce address check.nonce × AreChecks addresses checks

  checks-AreChecks : (addresses : List HexString) → AreChecks addresses (map check_of addresses)
  checks-AreChecks [] = tt
  checks-AreChecks (address ∷ addresses) =
      (refl, count_of-IsNonce address, checks-AreChecks addresses)

  -- The chunks do not show: there is a check for each address, in their order, with what its request
  -- gives, read as a hex number, as the nonce, and 0 where it fails or gives an empty string.
  pub fetch_nonces-AreChecks :
      (addresses : List HexString) → AreChecks addresses (fetch_nonces parse_hex request addresses)
  fetch_nonces-AreChecks addresses =
      rw (fetch_nonces-check_of addresses) (checks-AreChecks addresses)
