-- ===== src/ShardStore/Balance.antt =====
-- `getBalanceForAsset` against a definition that goes over all unspent assets once.
use ghost_shard_protocol.Prelude.{
  ◌≡◌, refl, ◌∙◌, false, List, [], ◌∷◌, Option, none, some, any, filter, Bool-cases, inl, inr,
  if◌then◌else◌, length, Bool, ◌⊎◌, ℕ, ◌≢◌,
}
use ghost_shard_protocol.Prelude.Int.{ℤ, pos, ◌+ℤ◌, int_laws}
use ghost_shard_protocol.Types.{Shard, AssetType, AssetBalance}
use ghost_shard_protocol.Types.Hex.{HexString}
use ghost_shard_protocol.Viem.{AddressEq}
use ghost_shard_protocol.ShardStore.{
  ShardStore, get_unspent, get_unspent_for_asset, get_balance_for_asset, is_asked_for, is_counted,
  amount_in, sum_assets, sum_shards, native_balance, erc20_balance, erc721_balance, is_given_token,
}

module _ (v : AddressEq) where
  native-same :
      (token : Option HexString) (a : AssetBalance)
      → is_counted v AssetType.native token a ≡ is_asked_for v AssetType.native token none a
  native-same token (native_balance b) = refl
  native-same token (erc20_balance t b) = refl
  native-same token (erc721_balance t b ids) = refl

  given-same :
      (type : AssetType) (c : ℕ) (cs : HexString) (a : AssetBalance)
      → is_counted v type (some (c ∷ cs)) a ≡ is_asked_for v type (some (c ∷ cs)) none a
  given-same AssetType.native c cs a = native-same (some (c ∷ cs)) a
  given-same AssetType.erc20 c cs (native_balance b) = refl
  given-same AssetType.erc20 c cs (erc20_balance t b) = refl
  given-same AssetType.erc20 c cs (erc721_balance t b ids) = refl
  given-same AssetType.erc721 c cs (native_balance b) = refl
  given-same AssetType.erc721 c cs (erc20_balance t b) = refl
  given-same AssetType.erc721 c cs (erc721_balance t b ids) =
      elim (Bool-cases (v.is_address_equal t (c ∷ cs))) [ inl e ↦ rw e refl | inr e ↦ rw e refl ]

  not_given :
      (type : AssetType) (token : Option HexString) (a : AssetBalance)
      → type ≢ AssetType.native
      → ((t : HexString) → is_given_token v token t ≡ false)
      → is_asked_for v type token none a ≡ false
  not_given AssetType.native token a n h = absurd (n refl)
  not_given AssetType.erc20 token (native_balance b) n h = refl
  not_given AssetType.erc20 token (erc20_balance t b) n h = h t
  not_given AssetType.erc20 token (erc721_balance t b ids) n h = refl
  not_given AssetType.erc721 token (native_balance b) n h = refl
  not_given AssetType.erc721 token (erc20_balance t b) n h = refl
  not_given AssetType.erc721 token (erc721_balance t b ids) n h = rw (h t) refl

  -- The two tests on an asset agree, or the first one never holds, for want of a token.
  agree :
      (type : AssetType) (token : Option HexString)
      → ((a : AssetBalance) → is_counted v type token a ≡ is_asked_for v type token none a)
        ⊎ ((a : AssetBalance) → is_asked_for v type token none a ≡ false)
  agree AssetType.native token = inl (native-same token)
  agree AssetType.erc20 none = inr (λ a. not_given AssetType.erc20 none a (λ h. cc) (λ t. refl))
  agree AssetType.erc20 (some []) =
      inr (λ a. not_given AssetType.erc20 (some []) a (λ h. cc) (λ t. refl))
  agree AssetType.erc20 (some (c ∷ cs)) = inl (given-same AssetType.erc20 c cs)
  agree AssetType.erc721 none = inr (λ a. not_given AssetType.erc721 none a (λ h. cc) (λ t. refl))
  agree AssetType.erc721 (some []) =
      inr (λ a. not_given AssetType.erc721 (some []) a (λ h. cc) (λ t. refl))
  agree AssetType.erc721 (some (c ∷ cs)) = inl (given-same AssetType.erc721 c cs)

module _ (v : AddressEq) (type : AssetType) (token : Option HexString) where
  abbrev worth : AssetBalance → ℤ
  worth a = if is_asked_for v type token none a then amount_in v a else pos 0

  abbrev worth_of : List AssetBalance → ℤ
  worth_of [] = pos 0
  worth_of (a ∷ rest) = worth a +ℤ worth_of rest

  abbrev worth_of_shards : List Shard → ℤ
  worth_of_shards [] = pos 0
  worth_of_shards (s ∷ ss) = worth_of s.assets +ℤ worth_of_shards ss

  worth_of-none :
      (assets : List AssetBalance)
      → any (is_asked_for v type token none) assets ≡ false
      → worth_of assets ≡ pos 0
  worth_of-none [] h = refl
  worth_of-none (a ∷ assets) h = elim (Bool-cases (is_asked_for v type token none a)) [
    | inl e ↦ let bad = rw e at h in cc
    | inr e ↦ rw (e, worth_of-none assets (rw e at h)) (omega int_laws)
  ]

  sum_assets-worth_of :
      ((a : AssetBalance) → is_counted v type token a ≡ is_asked_for v type token none a)
      → (acc : ℤ) (assets : List AssetBalance)
      → sum_assets v acc (filter (is_counted v type token) assets) ≡ acc +ℤ worth_of assets
  unfolding sum_assets
  sum_assets-worth_of h acc [] = omega int_laws
  sum_assets-worth_of h acc (a ∷ assets) = elim (Bool-cases (is_asked_for v type token none a)) [
    | inl e ↦ rw (h a, e) (sum_assets-worth_of h (acc +ℤ amount_in v a) assets ∙ omega int_laws)
    | inr e ↦ rw (h a, e) (sum_assets-worth_of h acc assets ∙ omega int_laws)
  ]

  unasked-any :
      ((a : AssetBalance) → is_asked_for v type token none a ≡ false)
      → (assets : List AssetBalance) → any (is_asked_for v type token none) assets ≡ false
  unasked-any h [] = refl
  unasked-any h (a ∷ assets) = rw (h a) (unasked-any h assets)

  sum_shards-worth_of_shards :
      (acc : ℤ) (ss : List Shard)
      → sum_shards v type token acc (filter (λ s. any (is_asked_for v type token none) s.assets) ss)
        ≡ acc +ℤ worth_of_shards ss
  unfolding sum_shards
  sum_shards-worth_of_shards acc [] = omega int_laws
  sum_shards-worth_of_shards acc (s ∷ ss) =
      elim (Bool-cases (any (is_asked_for v type token none) s.assets)) [
        | inr e ↦
            rw (e, worth_of-none s.assets e) (sum_shards-worth_of_shards acc ss ∙ omega int_laws)
        | inl e ↦ elim (agree v type token) [
          | inl same ↦
              let w = sum_assets-worth_of same (pos 0) s.assets in
              rw e (
                rw (w, sum_shards)
                  (sum_shards-worth_of_shards (acc +ℤ (pos 0 +ℤ worth_of s.assets)) ss
                    ∙ omega int_laws))
          | inr never ↦ let no = unasked-any never s.assets in cc
        ]
      ]

  get_balance_for_asset-worth :
      (st : ShardStore) → get_balance_for_asset v type token st ≡ worth_of_shards (get_unspent st)
  unfolding get_balance_for_asset get_unspent_for_asset
  get_balance_for_asset-worth st =
      sum_shards-worth_of_shards (pos 0) (get_unspent st) ∙ omega int_laws

module _ (v : AddressEq) where
  -- The token that is asked for, which is not empty.
  abbrev pub is_token : Option HexString → HexString → Bool
  is_token none t = false
  is_token (some []) t = false
  is_token (some (c ∷ cs)) t = v.is_address_equal t (c ∷ cs)

  -- What one asset counts for a type and a token: coins and tokens by their balance, and tokens of an
  -- ERC721 contract by their number.
  abbrev pub counts : AssetType → Option HexString → AssetBalance → ℤ
  counts AssetType.native token (native_balance b) = b
  counts AssetType.erc20 token (erc20_balance t b) = if is_token token t then b else pos 0
  counts AssetType.erc721 token (erc721_balance t b ids) =
      if is_token token t then pos (length ids) else pos 0
  counts _ token _ = pos 0

  -- What the assets of a shard count, and what shards count.
  abbrev pub counts_of : AssetType → Option HexString → List AssetBalance → ℤ
  counts_of type token [] = pos 0
  counts_of type token (a ∷ rest) = counts type token a +ℤ counts_of type token rest

  abbrev pub holdings : AssetType → Option HexString → List Shard → ℤ
  holdings type token [] = pos 0
  holdings type token (s ∷ ss) = counts_of type token s.assets +ℤ holdings type token ss

  is_token-given :
      (token : Option HexString) (t : HexString) → is_given_token v token t ≡ is_token token t
  is_token-given none t = refl
  is_token-given (some []) t = refl
  is_token-given (some (c ∷ cs)) t = refl

  worth-counts :
      (type : AssetType) (token : Option HexString) (a : AssetBalance)
      → worth v type token a ≡ counts type token a
  worth-counts AssetType.native token (native_balance b) = refl
  worth-counts AssetType.native token (erc20_balance t b) = refl
  worth-counts AssetType.native token (erc721_balance t b ids) = refl
  worth-counts AssetType.erc20 token (native_balance b) = refl
  worth-counts AssetType.erc20 token (erc20_balance t b) = rw (is_token-given token t) refl
  worth-counts AssetType.erc20 token (erc721_balance t b ids) = refl
  worth-counts AssetType.erc721 token (native_balance b) = refl
  worth-counts AssetType.erc721 token (erc20_balance t b) = refl
  worth-counts AssetType.erc721 token (erc721_balance t b ids) =
      rw (is_token-given token t)
        (elim (Bool-cases (is_token token t)) [ inl e ↦ rw e refl | inr e ↦ rw e refl ])

  worth_of-counts_of :
      (type : AssetType) (token : Option HexString) (assets : List AssetBalance)
      → worth_of v type token assets ≡ counts_of type token assets
  worth_of-counts_of type token [] = refl
  worth_of-counts_of type token (a ∷ assets) =
      rw (worth-counts type token a, worth_of-counts_of type token assets) refl

  worth_of_shards-holdings :
      (type : AssetType) (token : Option HexString) (ss : List Shard)
      → worth_of_shards v type token ss ≡ holdings type token ss
  worth_of_shards-holdings type token [] = refl
  worth_of_shards-holdings type token (s ∷ ss) =
      rw (worth_of-counts_of type token s.assets, worth_of_shards-holdings type token ss) refl

  -- The balance of an asset is the sum, over all unspent shards, of what their assets of that type
  -- and token count: a balance, or the number of token ids.
  pub get_balance_for_asset-holdings :
      (type : AssetType) (token : Option HexString) (st : ShardStore)
      → get_balance_for_asset v type token st ≡ holdings type token (get_unspent st)
  get_balance_for_asset-holdings type token st =
      get_balance_for_asset-worth v type token st
      ∙ worth_of_shards-holdings type token (get_unspent st)
