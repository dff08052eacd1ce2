-- ===== src/Block/AuthRoot.antt =====
-- `Block::build_auth_data_root` of src/commands/inspect/block.rs: the tree of the transactions'
-- authorizing data, padded to a power of two and built layer by layer in one vector.
pub mod Perfect
mod Width
pub mod Refine
use zcash_devtool_sqlx.Base.{
  ℕ, zero, suc, ◌+◌, ◌-◌, ◌*◌, ◌/◌, ◌%◌, ◌^◌, max, Bool, true, false, not, Option, none, some, List,
  [], ◌∷◌, ◌++◌, ltb, ◌==◌, if◌then◌else◌, length, get_elem?, last?,
}
use zcash_devtool_sqlx.Block.Merkle.{Hasher, or_zero}

-- The zeros above the highest bit of a number of at most `w` bits.
unfoldable pub leading_zeros : ℕ → ℕ → ℕ
leading_zeros zero x = 0
leading_zeros (suc w) x = elim (ltb x (2 ^ w)) [ true ↦ suc (leading_zeros w x) | false ↦ 0 ]

-- `&` on numbers of at most `w` bits.
unfoldable pub bit_and : ℕ → ℕ → ℕ → ℕ
bit_and zero a b = 0
bit_and (suc w) a b = a % 2 * (b % 2) + bit_and w (a / 2) (b / 2) * 2

-- `1u64 << n`, which panics when the shift is as wide as the word.
unfoldable pub shift_one : ℕ → Option ℕ
shift_one n = if ltb n 64 then some (2 ^ n) else none

-- `x.saturating_sub(1)` is the subtraction that stops at 0.
unfoldable pub next_pow2 : ℕ → Option ℕ
next_pow2 x = shift_one (64 - leading_zeros 64 (x - 1))

-- `Vec::resize`
unfoldable pub resize {ℓ} : {A : Type ℓ} → List A → ℕ → A → List A
resize l zero a = []
resize [] (suc n) a = a ∷ resize [] n a
resize (x ∷ l) (suc n) a = x ∷ resize l n a

-- The total number of nodes. A product of two `usize` wraps around.
unfoldable pub node_count : ℕ → ℕ
node_count perfect_size = max (perfect_size * 2 % 2 ^ 64) 1 - 1

module _ (hasher : Hasher) where
  open hasher use {Hash, zero_hash, hash_pair}

  -- The indexes of a vector are checked: `none` is a panic. It also stands for a loop whose fuel
  -- has run out.
  unfoldable pub hash_layer : ℕ → ℕ → ℕ → ℕ → List Hash → Option (List Hash)
  hash_layer zero j layer_width i tree = none
  hash_layer (suc fuel) j layer_width i tree = elim (ltb i layer_width) [
    | true ↦ elim (get_elem? tree (j + i)) [
      | none ↦ none
      | some left ↦ elim (get_elem? tree (j + i + 1)) [
        | none ↦ none
        | some right ↦ hash_layer fuel j layer_width (i + 2) (tree ++ hash_pair left right ∷ [])
      ]
    ]
    | false ↦ some tree
  ]

  unfoldable pub hash_layers : ℕ → ℕ → ℕ → List Hash → Option (List Hash)
  hash_layers zero j layer_width tree = none
  hash_layers (suc fuel) j layer_width tree = elim (ltb 1 layer_width) [
    | true ↦ elim (hash_layer (layer_width + 1) j layer_width 0 tree) [
      | none ↦ none
      | some tree' ↦ hash_layers fuel (j + layer_width) (layer_width / 2) tree'
    ]
    | false ↦ some tree
  ]

  -- The assertion behind the loops, and the root.
  abbrev pub checked_root : ℕ → Option (List Hash) → Option Hash
  checked_root expected_size none = none
  checked_root expected_size (some tree) =
      if length tree == expected_size then some (or_zero hasher (last? tree)) else none

  -- The assertion in front of the loops, the padding and the loops.
  abbrev pub padded_root : List Hash → Option ℕ → Option Hash
  padded_root commitments none = none
  padded_root commitments (some perfect_size) =
      if bit_and 64 perfect_size (perfect_size - 1) == 0
      then checked_root (node_count perfect_size) (
          hash_layers (perfect_size + 1) 0 perfect_size (resize commitments perfect_size zero_hash))
      else none

  -- The `auth_commitment` of each transaction of the block is a leaf.
  unfoldable pub build_auth_data_root : List Hash → Option Hash
  build_auth_data_root commitments = padded_root commitments (next_pow2 (length commitments))
