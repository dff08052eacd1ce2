-- ===== src/Block/Report/Rules.antt =====
-- The rules that a block keeps when the report on it has no warning.
use zcash_devtool_sqlx.Base.{
  ℕ, ◌≤◌, ◌≡◌, Bool, true, false, Option, none, some, List, [], ◌∷◌, map, ok, Gives, All,
}
use zcash_devtool_sqlx.Base.Int.{ℤ, pos, negsuc}
use zcash_devtool_sqlx.Protocol.{Network}
use zcash_devtool_sqlx.Block.Target.{check_proof_of_work}
use zcash_devtool_sqlx.Block.Merkle.{build_merkle_root}
use zcash_devtool_sqlx.Block.AuthRoot.{build_auth_data_root}
use zcash_devtool_sqlx.Inspect.Transaction.{Kinds, Scripts, Transaction, is_coinbase}
use zcash_devtool_sqlx.Block.Report.{
  Chain, BlockHeader, Block, heartwood, nu5, network_of, extract_height, block_height_of, skip_one,
  auth_hasher, is_at, derive_block_commitments_hash,
}

module _ {k : Kinds} (s : Scripts k) (c : Chain k) where
  abbrev Hash : Type 0
  Hash = c.sha.Hash

  abbrev pub IsCurrent : ℤ → Type 0
  IsCurrent (pos v) = 4 ≤ v
  IsCurrent (negsuc v) = ⊥

  -- Without a network, the rules that depend on it are left out.
  abbrev pub IsMined : BlockHeader Hash → Option Network → Type 0
  IsMined header none = Unit
  IsMined header (some params) =
      (header.check_equihash_solution params ≡ ok tt)
      × (check_proof_of_work c.shift header.bits header.hash params ≡ ok tt)

  abbrev pub StartsWithCoinbase : List (Transaction k) → Type 0
  StartsWithCoinbase [] = ⊥
  StartsWithCoinbase (tx ∷ rest) =
      (is_coinbase s tx ≡ true) × Gives (extract_height s c (tx ∷ rest))

  abbrev pub ExpiresAt : List (Transaction k) → ℕ → Type 0
  ExpiresAt [] height = Unit
  ExpiresAt (tx ∷ _) height = tx.expiry_height ≡ height

  -- The header commits to the history, if that is given.
  abbrev pub Commits : Block c → Option Hash → Type 0
  Commits block none = Unit
  Commits block (some history) =
      (auth : Hash) × (build_auth_data_root (auth_hasher s c) (map c.auth_commitment block.txs)
        ≡ some auth)
      × (c.sha.hash_eq (derive_block_commitments_hash s c history auth)
            block.header.final_sapling_root
          ≡ true)

  abbrev pub IsHistory : Block c → Option Hash → Type 0
  IsHistory block none = Unit
  IsHistory block (some history) = c.sha.hash_eq history block.header.final_sapling_root ≡ true

  -- The rules by whether NU5 is active, Heartwood activates here, and Heartwood is active.
  abbrev pub UpgradeRules : Block c → Option Hash → ℕ → Bool → Bool → Bool → Type 0
  UpgradeRules block history height true at active =
      ExpiresAt block.txs height × Commits block history
  UpgradeRules block history height false true active =
      c.sha.hash_eq block.header.final_sapling_root c.sha.zero_hash ≡ true
  UpgradeRules block history height false false true = IsHistory block history
  UpgradeRules block history height false false false = Unit

  abbrev pub ContextRules : Block c → Option Hash → Option Network → Option ℕ → Type 0
  ContextRules block history none height = Unit
  ContextRules block history (some params) none = Unit
  ContextRules block history (some params) (some height) =
      UpgradeRules block history height (c.is_nu_active params nu5 height)
        (is_at s c height (c.activation_height params heartwood))
        (c.is_nu_active params heartwood height)

  abbrev pub HasRoot : Block c → Option (Hash × Bool) → Type 0
  HasRoot block none = ⊥
  HasRoot block (some (root, mutated)) =
      (c.sha.hash_eq root block.header.merkle_root ≡ true) × (mutated ≡ false)

  -- The rules for the whole block.
  abbrev pub KeepsRules : Block c → Option Network → Option Hash → Type 0
  KeepsRules block context history =
      let params = network_of s c block.header context in
      IsCurrent block.header.version
      × IsMined block.header params
      × StartsWithCoinbase block.txs
      × All (λ tx. is_coinbase s tx ≡ false) (skip_one s c block.txs)
      × HasRoot block (build_merkle_root c.sha (map c.txid_of block.txs))
      × ContextRules block history params (block_height_of s c block.txs)
