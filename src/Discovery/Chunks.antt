-- ===== src/Discovery/Chunks.antt =====
-- The chunks of `processAnnouncements` of ghost-shard-sdk/src/discovery.ts.
use ghost_shard_protocol.Prelude.{
  ℕ, zero, suc, ◌+◌, ◌<◌, ◌≤◌, ◌≡◌, refl, sym, ap, ◌∙◌, List, [], ◌∷◌, ◌++◌, Option, some, length,
  take, drop, arith, Option-cases, inl, inr, length-append,
}
use mathlib.Core.List.{append_assoc, append-nil}
use ghost_shard_protocol.Noble.{Curve, Hashes, Cipher}
use ghost_shard_protocol.Viem.{Codec}
use ghost_shard_protocol.Keys.{KeySet}
use ghost_shard_protocol.Discovery.{
  AnnouncementLog, DiscoveredShard, keep, process_log, chunks_loop, process_announcements,
}

module _ {ℓ κ} {A : Type ℓ} {B : Type κ} (f : A → Option B) where
  keep-take : (n : ℕ) (xs : List A) → keep f (take n xs) ++ keep f (drop n xs) ≡ keep f xs
  unfolding keep
  keep-take zero xs = refl
  keep-take (suc n) [] = refl
  keep-take (suc n) (x ∷ xs) = elim (Option-cases (f x)) [
    | inl e ↦ rw (e, keep) (keep-take n xs)
    | inr (y, e) ↦ rw (e, keep) (ap (◌∷◌ y) (keep-take n xs))
  ]

  length-drop : (n : ℕ) (x : A) (xs : List A) → 0 < n → length (drop n (x ∷ xs)) ≤ length xs
  length-drop zero x xs h = absurd (omega arith)
  length-drop (suc n) x xs h = shorter n xs
    where
      shorter : (n : ℕ) (xs : List A) → length (drop n xs) ≤ length xs
      shorter zero xs = omega arith
      shorter (suc n) [] = omega arith
      shorter (suc n) (x ∷ xs) = omega (arith, shorter n xs)

module _ (v : Codec) (h : Hashes) (a : Cipher) (c : Curve) (keys : KeySet) where
  chunks_loop-keep :
      (rounds chunk_size : ℕ) (logs : List AnnouncementLog)
      (shards : List (DiscoveredShard v h a c)) (matches : ℕ)
      → 0 < chunk_size
      → length logs ≤ rounds
      → chunks_loop v h a c rounds keys chunk_size logs shards matches
        ≡ some (
          shards ++ keep (process_log v h a c keys) logs,
          matches + length (keep (process_log v h a c keys) logs),
        )
  unfolding chunks_loop keep
  chunks_loop-keep rounds k [] shards matches h l =
      ap (λ s. some (s, matches)) (sym (append-nil shards))
      ∙ ap (λ m. some (shards ++ [], m)) (omega arith)
  chunks_loop-keep zero k (log ∷ logs) shards matches h l = absurd (omega arith)
  chunks_loop-keep (suc rounds) k (log ∷ logs) shards matches p l =
      let f = process_log v h a c keys in
      let first = keep f (take k (log ∷ logs)) in
      let rest = keep f (drop k (log ∷ logs)) in
      let parts : first ++ rest ≡ keep f (log ∷ logs) = keep-take f k (log ∷ logs) in
      let count : matches + length first + length rest ≡ matches + length (keep f (log ∷ logs)) =
        omega (arith, length-append first rest, ap length parts) in
      chunks_loop-keep rounds k (drop k (log ∷ logs)) (shards ++ first) (matches + length first) p
        (omega (arith, length-drop f k log logs p))
      ∙ ap (λ s. some (s, matches + length first + length rest))
          (append_assoc shards first rest ∙ ap (λ s. shards ++ s) parts)
      ∙ ap (λ m. some (shards ++ keep f (log ∷ logs), m)) count

  -- Whatever the size of the chunks, as long as it is not 0, the loop ends, and it gives the shards
  -- that the logs give one by one, in their order, with their number.
  pub process_announcements-keep :
      (logs : List AnnouncementLog) (chunk_size : ℕ)
      → 0 < chunk_size
      → process_announcements v h a c logs keys chunk_size
        ≡ some (record {
          shards = keep (process_log v h a c keys) logs;
          processed = length logs;
          matches = length (keep (process_log v h a c keys) logs);
        })
  unfolding process_announcements
  process_announcements-keep logs chunk_size p =
      rw
        (process_announcements, chunks_loop-keep (length logs) chunk_size logs [] 0 p (omega arith))
        (ap
          (λ m. some (record {
            shards = keep (process_log v h a c keys) logs;
            processed = length logs;
            matches = m;
          }))
          (omega arith))
