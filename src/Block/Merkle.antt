-- ===== src/Block/Merkle.antt =====
-- `Block::build_merkle_root` of src/commands/inspect/block.rs: the transaction Merkle tree, built
-- row by row in one vector.
pub mod Rows
pub mod Refine
pub mod Malleable
use zcash_devtool_sqlx.Base.{
  ℕ, zero, suc, ◌+◌, ◌-◌, ◌/◌, min, Bool, true, false, ◌&&◌, Option, none, some, List, [], ◌∷◌,
  ◌++◌, ltb, ◌==◌, if◌then◌else◌, length, get_elem?, last?,
}

-- The double SHA-256 of two concatenated hashes, and the comparison of hashes.
pub record Hasher : Type 1 where
  pub Hash : Type 0
  pub zero_hash : Hash
  pub hash_pair : Hash → Hash → Hash
  pub hash_eq : Hash → Hash → Bool

-- `cmp::min(i + 1, size - 1)`
unfoldable pub partner : ℕ → ℕ → ℕ
partner i size = min (i + 1) (size - 1)

-- Two identical hashes at the end of the list at a particular level set the flag.
unfoldable pub marks : ℕ → ℕ → ℕ → Bool → Bool → Bool
marks i2 i size same mutated = if i2 == i + 1 && i2 + 1 == size && same then true else mutated

module _ (hasher : Hasher) where
  open hasher use {Hash, zero_hash, hash_pair, hash_eq}

  -- The indexes of a vector are checked: `none` is a panic. It also stands for a loop whose fuel
  -- has run out.
  unfoldable pub merge_row : ℕ → ℕ → ℕ → ℕ → List Hash → Bool → Option (List Hash × Bool)
  merge_row zero j size i tree mutated = none
  merge_row (suc fuel) j size i tree mutated = elim (ltb i size) [
    | true ↦ elim (get_elem? tree (j + i)) [
      | none ↦ none
      | some left ↦ elim (get_elem? tree (j + partner i size)) [
        | none ↦ none
        | some right ↦
            merge_row fuel j size (i + 2) (tree ++ hash_pair left right ∷ [])
              (marks (partner i size) i size (hash_eq left right) mutated)
      ]
    ]
    | false ↦ some (tree, mutated)
  ]

  -- `size.div_ceil(2)` is the width of the next row.
  unfoldable pub build_rows : ℕ → ℕ → ℕ → List Hash → Bool → Option (List Hash × Bool)
  build_rows zero j size tree mutated = none
  build_rows (suc fuel) j size tree mutated = elim (ltb 1 size) [
    | true ↦ elim (merge_row (size + 1) j size 0 tree mutated) [
      | none ↦ none
      | some (tree', mutated') ↦ build_rows fuel (j + size) ((size + 1) / 2) tree' mutated'
    ]
    | false ↦ some (tree, mutated)
  ]

  abbrev pub or_zero : Option Hash → Hash
  or_zero none = zero_hash
  or_zero (some h) = h

  abbrev pub root_of : Option (List Hash × Bool) → Option (Hash × Bool)
  root_of none = none
  root_of (some (tree, mutated)) = some (or_zero (last? tree), mutated)

  -- The transaction ids of the block are its leaves.
  unfoldable pub build_merkle_root : List Hash → Option (Hash × Bool)
  build_merkle_root txids = root_of (build_rows (length txids + 1) 0 (length txids) txids false)
