-- ===== src/Block/Merkle/Rows.antt =====
-- A row of a Merkle tree and the row above it.
use zcash_devtool_sqlx.Base.{
  ℕ, zero, suc, ◌+◌, ◌/◌, ◌*◌, ◌≡◌, refl, ap, Bool, false, List, [], ◌∷◌, ◌++◌, ◌||◌, length, arith,
}
use zcash_devtool_sqlx.Block.Merkle.{Hasher}

module _ (hasher : Hasher) where
  open hasher use {Hash, hash_pair, hash_eq}

  -- Neighbours are hashed together; a last hash with no neighbour is hashed with itself.
  unfoldable pub pair_up : List Hash → List Hash
  pair_up [] = []
  pair_up (a ∷ []) = hash_pair a a ∷ []
  pair_up (a ∷ b ∷ r) = hash_pair a b ∷ pair_up r

  -- The last two hashes of the row are a pair of equal hashes.
  unfoldable pub ends_in_twins : List Hash → Bool
  ends_in_twins [] = false
  ends_in_twins (a ∷ []) = false
  ends_in_twins (a ∷ b ∷ []) = hash_eq a b
  ends_in_twins (a ∷ b ∷ c ∷ r) = ends_in_twins (c ∷ r)

  pub length-pair_up : (row : List Hash) → length (pair_up row) ≡ (length row + 1) / 2
  unfolding pair_up
  length-pair_up [] = omega arith
  length-pair_up (a ∷ []) = omega arith
  length-pair_up (a ∷ b ∷ r) = omega (arith, length-pair_up r)

  -- Repeating the last hash of an odd row changes nothing above it, and the row ends in twins.
  pub pair_up-repeat :
      (k : ℕ) (xs : List Hash) (a : Hash)
      → length xs ≡ k * 2
      → pair_up (xs ++ a ∷ a ∷ []) ≡ pair_up (xs ++ a ∷ [])
  unfolding pair_up
  pair_up-repeat k [] a h = refl
  pair_up-repeat k (x ∷ []) a h = absurd (omega arith)
  pair_up-repeat zero (x ∷ y ∷ xs) a h = absurd (omega arith)
  pair_up-repeat (suc k) (x ∷ y ∷ xs) a h =
      ap (λ r. hash_pair x y ∷ r) (pair_up-repeat k xs a (omega arith))

  -- What the root of a row of leaves is, and whether some row on the way up ends in twins.
  pub data IsMerkle : List Hash → Hash → Bool → Type 0 where
    leaf : (a : Hash) → IsMerkle (a ∷ []) a false
    row :
        (a b : Hash) (r : List Hash) {h : Hash} {above m : Bool}
        → IsMerkle (pair_up (a ∷ b ∷ r)) h above
        → m ≡ (ends_in_twins (a ∷ b ∷ r) || above)
        → IsMerkle (a ∷ b ∷ r) h m
