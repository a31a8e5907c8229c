-- ===== src/Client/Spent/Reported.antt =====
-- The shards that `syncSpentShards` of ghost-shard-sdk/src/index.ts removes.
use mathlib.Core.List.{append_assoc}
use ghost_shard_protocol.Prelude.{
  ℕ, zero, suc, ◌+◌, ◌≤◌, ◌<◌, ◌≡◌, refl, sym, ap, ◌∙◌, Bool, true, false, ◌&&◌, List, [], ◌∷◌,
  ◌++◌, map, Option, some, length, length-append, take, drop, get_elem?, set, filter, arith,
  if◌then◌else◌, ltb, Bool-cases, inl, inr, ◌⊎◌, length-map,
}
use ghost_shard_protocol.Types.Hex.{HexString}
use ghost_shard_protocol.Viem.{AddressEq}
use ghost_shard_protocol.ShardStore.{ShardStore, get_unspent, remove_many, has_address}
use ghost_shard_protocol.Client.Spent.{
  CallResult, multicall_chunk_size, spent_from, read_results, read_chunk, statuses_loop,
  spent_addresses, sync_spent_shards,
}

set-append :
    (before rest : List Bool) (x b : Bool)
    → set (before ++ x ∷ rest) (length before) b ≡ before ++ b ∷ rest
set-append [] rest x b = refl
set-append (c ∷ before) rest x b = ap (◌∷◌ c) (set-append before rest x b)

get-append :
    (before rest : List Bool) (b : Bool) → get_elem? (before ++ b ∷ rest) (length before) ≡ some b
get-append [] rest b = refl
get-append (c ∷ before) rest b = get-append before rest b

length-snoc : (before : List Bool) (b : Bool) → suc (length before) ≡ length (before ++ b ∷ [])
length-snoc before b = omega (arith, length-append before (b ∷ []))

filter_all {ℓ} : {A : Type ℓ} (xs : List A) → xs ≡ filter (λ x. true) xs
filter_all [] = refl
filter_all (x ∷ xs) = ap (◌∷◌ x) (filter_all xs)

map-take :
    (f : HexString → Bool) (n : ℕ) (xs : List HexString)
    → map f (take n xs) ++ map f (drop n xs) ≡ map f xs
map-take f zero xs = refl
map-take f (suc n) [] = refl
map-take f (suc n) (x ∷ xs) = ap (◌∷◌ (f x)) (map-take f n xs)

-- A chunk is full, or nothing comes after it.
take-cases : (n : ℕ) (xs : List HexString) → (length (take n xs) ≡ n) ⊎ (drop n xs ≡ [])
take-cases zero xs = inl refl
take-cases (suc n) [] = inr refl
take-cases (suc n) (x ∷ xs) = elim (take-cases n xs) [ inl e ↦ inl (ap suc e) | inr e ↦ inr e ]

length-drop : (n : ℕ) (xs : List HexString) → length (drop n xs) ≤ length xs
length-drop zero xs = omega arith
length-drop (suc n) [] = omega arith
length-drop (suc n) (x ∷ xs) = omega (arith, length-drop n xs)

spent_from-filter :
    (f : HexString → Bool) (before : List Bool) (addresses : List HexString)
    → spent_from (before ++ map f addresses) (length before) addresses ≡ filter f addresses
unfolding spent_from
spent_from-filter f before [] = refl
spent_from-filter f before (address ∷ addresses) =
    let b = f address in
    let rest : spent_from (before ++ b ∷ map f addresses) (suc (length before)) addresses
        ≡ filter f addresses =
      ap (λ k. spent_from (before ++ b ∷ map f addresses) k addresses) (length-snoc before b)
      ∙ ap (λ l. spent_from l (length (before ++ b ∷ [])) addresses)
          (sym (append_assoc before (b ∷ []) (map f addresses)))
      ∙ spent_from-filter f (before ++ b ∷ []) addresses in
    rw (spent_from, get-append before (map f addresses) b, rest) refl

-- The guard of the removal changes nothing.
remove_many-guarded :
    (v : AddressEq) (st : ShardStore) (spent : List HexString)
    → (if ltb 0 (length spent) then remove_many v spent st else st) ≡ remove_many v spent st
unfolding remove_many has_address
remove_many-guarded v st [] = ap (λ shards. record st { shards = shards }) (filter_all st.shards)
remove_many-guarded v st (x ∷ spent) =
    let some_spent : ltb 0 (length (x ∷ spent)) ≡ true = ground arith in rw (some_spent) refl

module _ (aggregate3 : List HexString → Option (List CallResult)) (decode : HexString → Option Bool)
    (answer : HexString → CallResult) (is_spent : HexString → Bool) where
  abbrev reported : HexString → Bool
  reported address = (answer address).success && is_spent address

  module _
      (decodes : (address : HexString)
        → (answer address).success ≡ true
        → decode (answer address).return_data ≡ some (is_spent address)) where
    read_results-map :
        (before : List Bool) (chunk : List HexString) (rest : List Bool)
        → read_results aggregate3 decode
            (map answer chunk)
            (length before)
            (before ++ (map (λ a. false) chunk ++ rest))
          ≡ before ++ (map reported chunk ++ rest)
    unfolding read_results
    read_results-map before [] rest = refl
    read_results-map before (a ∷ chunk) rest =
        let falses = map (λ a. false) chunk ++ rest in
        let results = map answer chunk in
        let after : (b : Bool)
            → read_results aggregate3 decode results (suc (length before)) (before ++ (b ∷ falses))
              ≡ before ++ (b ∷ (map reported chunk ++ rest)) =
          λ b.
            ap (λ k. read_results aggregate3 decode results k (before ++ (b ∷ falses)))
              (length-snoc before b)
            ∙ ap (read_results aggregate3 decode results (length (before ++ (b ∷ []))))
                (sym (append_assoc before (b ∷ []) falses))
            ∙ read_results-map (before ++ (b ∷ [])) chunk rest
            ∙ append_assoc before (b ∷ []) (map reported chunk ++ rest) in
        elim (Bool-cases (answer a).success) [
          | inl e ↦
              rw (read_results, e, decodes a e, set-append before falses false (is_spent a))
                (after (is_spent a))
          | inr e ↦ rw (read_results, e) (after false)
        ]

    module _ (answers : (chunk : List HexString) → aggregate3 chunk ≡ some (map answer chunk)) where
      read_chunk-map :
          (size : ℕ) (before : List Bool) (addresses : List HexString)
          → read_chunk aggregate3 decode
              (take size addresses)
              (length before)
              (before ++ map (λ a. false) addresses)
            ≡ (before ++ map reported (take size addresses))
              ++ map (λ a. false) (drop size addresses)
      unfolding read_chunk
      read_chunk-map size before addresses =
          let chunk = take size addresses in
          let later = map (λ a. false) (drop size addresses) in
          rw (read_chunk, answers chunk)
            (ap
                (λ l.
                  read_results aggregate3 decode (map answer chunk) (length before) (before ++ l))
                (sym (map-take (λ a. false) size addresses))
              ∙ read_results-map before chunk later
              ∙ sym (append_assoc before (map reported chunk) later))

      loop_done :
          (rounds size i : ℕ) (statuses : List Bool)
          → statuses_loop aggregate3 decode rounds size i [] statuses ≡ statuses
      unfolding statuses_loop
      loop_done zero size i statuses = refl
      loop_done (suc rounds) size i statuses = refl

      statuses_loop-map :
          (rounds size : ℕ) (before : List Bool) (addresses : List HexString)
          → 0 < size
          → length addresses ≤ rounds
          → statuses_loop aggregate3 decode rounds size
              (length before)
              addresses
              (before ++ map (λ a. false) addresses)
            ≡ before ++ map reported addresses
      unfolding statuses_loop
      statuses_loop-map rounds size before [] p l =
          loop_done rounds size (length before) (before ++ [])
      statuses_loop-map zero size before (a ∷ addresses) p l = absurd (omega arith)
      statuses_loop-map (suc rounds) zero before (a ∷ addresses) p l = absurd (omega arith)
      statuses_loop-map (suc rounds) (suc n) before (a ∷ addresses) p l =
          let all = a ∷ addresses in
          let done = before ++ map reported (take (suc n) all) in
          let later = drop n addresses in
          let whole : done ++ map reported later ≡ before ++ map reported all =
            append_assoc before (map reported (take (suc n) all)) (map reported later)
            ∙ ap (λ l. before ++ l) (map-take reported (suc n) all) in
          ap (statuses_loop aggregate3 decode rounds (suc n) (length before + suc n) later)
            (read_chunk-map (suc n) before all)
          ∙ elim (take-cases (suc n) all) [
            | inl e ↦
                let i : length before + suc n ≡ length done = omega (
                  arith,
                  e,
                  length-append before (map reported (take (suc n) all)),
                  length-map reported (take (suc n) all),
                ) in
                ap
                  (λ k.
                    statuses_loop aggregate3 decode rounds (suc n) k later
                      (done ++ map (λ a. false) later))
                  i
                ∙ statuses_loop-map rounds (suc n) done later p
                    (omega (arith, length-drop n addresses))
                ∙ whole
            | inr e ↦
                ap
                  (λ rest.
                    statuses_loop aggregate3 decode rounds (suc n) (length before + suc n) rest
                      (done ++ map (λ a. false) rest))
                  e
                ∙ loop_done rounds (suc n) (length before + suc n) (done ++ [])
                ∙ ap (λ rest. done ++ map reported rest) (sym e)
                ∙ whole
          ]

      spent_addresses-filter :
          (addresses : List HexString)
          → spent_addresses aggregate3 decode addresses ≡ filter reported addresses
      unfolding spent_addresses
      spent_addresses-filter addresses =
          ap (λ statuses. spent_from statuses 0 addresses)
            (statuses_loop-map (length addresses) multicall_chunk_size [] addresses (omega arith)
              (omega arith))
          ∙ spent_from-filter reported [] addresses

      -- If every call of Multicall3 gives an answer for each of its addresses, and each successful
      -- answer decodes, then the shards that leave the store are those whose address equals, as an
      -- address, that of an unspent shard for which the answer is successful and says that it is
      -- spent.
      pub sync_spent_shards-removes :
          (v : AddressEq) (st : ShardStore)
          → sync_spent_shards aggregate3 decode v st
            ≡ remove_many v (filter reported (map (λ s. s.address) (get_unspent st))) st
      unfolding sync_spent_shards
      sync_spent_shards-removes v st =
          let addresses = map (λ s. s.address) (get_unspent st) in
          rw (sync_spent_shards, spent_addresses-filter addresses)
            (remove_many-guarded v st (filter reported addresses))
