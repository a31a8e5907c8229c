-- ===== src/Transaction/Nfts.antt =====
-- What the fusion of ghost-shard-sdk/src/transaction.ts does to the commands for ERC721 tokens.
use ghost_shard_protocol.Prelude.{
  ◌≡◌, refl, ap, ◌∙◌, List, [], ◌∷◌, ◌++◌, map, filter, Bool-cases, inl, inr, ◌==◌,
}
use ghost_shard_protocol.Types.Maps.{Map}
use ghost_shard_protocol.GasEngine.{TransferCommand}
use ghost_shard_protocol.Transaction.{fuse_loop, fuse}
use ghost_shard_protocol.Transaction.Fusion.{is_nft, IsKeyed, fuse_loop-IsKeyed, kept-fuse_loop}
use ghost_shard_protocol.Transaction.Uniqueness.{filter-append}

nft_of_entries : (m : Map TransferCommand) → IsKeyed m → filter is_nft (map (λ e. e.1) m) ≡ []
nft_of_entries [] h = refl
nft_of_entries ((x, c) ∷ m) (h, hs) = rw (h.1) (nft_of_entries m hs)

filter_twice :
    (xs : List TransferCommand) → filter is_nft (filter is_nft xs) ++ [] ≡ filter is_nft xs
filter_twice [] = refl
filter_twice (x ∷ xs) = elim (Bool-cases (x.asset_type == 2)) [
  | inl e ↦ rw e (rw e (ap (◌∷◌ x) (filter_twice xs)))
  | inr e ↦ rw e (filter_twice xs)
]

-- The fusion keeps all commands for ERC721 tokens, unchanged and in their order.
pub filter-fuse :
    (commands : List TransferCommand) → filter is_nft (fuse commands) ≡ filter is_nft commands
unfolding fuse
filter-fuse commands =
    let (final, fused) = fuse_loop [] commands in
    filter-append is_nft final (map (λ e. e.1) fused)
    ∙ rw (nft_of_entries fused (fuse_loop-IsKeyed [] commands tt), kept-fuse_loop [] commands)
        (filter_twice commands)
