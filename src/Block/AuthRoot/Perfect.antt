-- ===== src/Block/AuthRoot/Perfect.antt =====
-- A perfect binary tree, read from the top down, and the layer above a layer of leaves.
use mathlib.Core.Path.{ap₂}
use native.Mathlib.Nat.{pow-suc}
use zcash_devtool_sqlx.Base.{
  ℕ, zero, suc, ◌+◌, ◌*◌, ◌^◌, ◌≡◌, refl, sym, ap, ◌∙◌, List, [], ◌∷◌, length, arith,
}
use zcash_devtool_sqlx.Block.Merkle.{Hasher}

unfoldable pub take : {A : Type 0} → ℕ → List A → List A
take zero l = []
take (suc n) [] = []
take (suc n) (x ∷ l) = x ∷ take n l

unfoldable pub drop : {A : Type 0} → ℕ → List A → List A
drop zero l = l
drop (suc n) [] = []
drop (suc n) (x ∷ l) = drop n l

length-take : {A : Type 0} (n m : ℕ) (l : List A) → length l ≡ n + m → length (take n l) ≡ n
unfolding take
length-take zero m l h = refl
length-take (suc n) m [] h = absurd (omega arith)
length-take (suc n) m (x ∷ l) h = ap suc (length-take n m l (omega arith))

length-drop : {A : Type 0} (n m : ℕ) (l : List A) → length l ≡ n + m → length (drop n l) ≡ m
unfolding drop
length-drop zero m l h = omega (arith, h)
length-drop (suc n) m [] h = absurd (omega arith)
length-drop (suc n) m (x ∷ l) h = length-drop n m l (omega arith)

module _ (hasher : Hasher) where
  open hasher use {Hash, zero_hash, hash_pair}

  -- The root of a perfect tree of height `k`, whose leaves are the first `2 ^ k` of a list: the
  -- hash of the roots of its left and its right half.
  unfoldable pub perfect_root : ℕ → List Hash → Hash
  perfect_root zero [] = zero_hash
  perfect_root zero (x ∷ l) = x
  perfect_root (suc k) l =
      hash_pair (perfect_root k (take (2 ^ k) l)) (perfect_root k (drop (2 ^ k) l))

  -- The layer above.
  unfoldable pub pairs : List Hash → List Hash
  pairs [] = []
  pairs (a ∷ []) = []
  pairs (a ∷ b ∷ r) = hash_pair a b ∷ pairs r

  pub length-pairs : (n : ℕ) (l : List Hash) → length l ≡ n * 2 → length (pairs l) ≡ n
  unfolding pairs
  length-pairs zero [] h = refl
  length-pairs (suc n) [] h = absurd (omega arith)
  length-pairs n (a ∷ []) h = absurd (omega arith)
  length-pairs zero (a ∷ b ∷ r) h = absurd (omega arith)
  length-pairs (suc n) (a ∷ b ∷ r) h = ap suc (length-pairs n r (omega arith))

  take-pairs : (n m : ℕ) (l : List Hash) → m ≡ n * 2 → take n (pairs l) ≡ pairs (take m l)
  unfolding take pairs
  take-pairs zero zero l h = refl
  take-pairs zero (suc m) l h = absurd (omega arith)
  take-pairs (suc n) zero l h = absurd (omega arith)
  take-pairs (suc n) (suc zero) l h = absurd (omega arith)
  take-pairs (suc n) (suc (suc m)) [] h = refl
  take-pairs (suc n) (suc (suc m)) (a ∷ []) h = refl
  take-pairs (suc n) (suc (suc m)) (a ∷ b ∷ r) h =
      ap (λ t. hash_pair a b ∷ t) (take-pairs n m r (omega arith))

  drop-pairs : (n m : ℕ) (l : List Hash) → m ≡ n * 2 → drop n (pairs l) ≡ pairs (drop m l)
  unfolding drop pairs
  drop-pairs zero zero l h = refl
  drop-pairs zero (suc m) l h = absurd (omega arith)
  drop-pairs (suc n) zero l h = absurd (omega arith)
  drop-pairs (suc n) (suc zero) l h = absurd (omega arith)
  drop-pairs (suc n) (suc (suc m)) [] h = refl
  drop-pairs (suc n) (suc (suc m)) (a ∷ []) h = refl
  drop-pairs (suc n) (suc (suc m)) (a ∷ b ∷ r) h = drop-pairs n m r (omega arith)

  perfect_root-node :
      (k : ℕ) (l : List Hash)
      → perfect_root (suc k) l
        ≡ hash_pair (perfect_root k (take (2 ^ k) l)) (perfect_root k (drop (2 ^ k) l))
  unfolding perfect_root
  perfect_root-node k l = refl

  pub perfect_root-pairs :
      (k : ℕ) (l : List Hash)
      → length l ≡ 2 ^ suc k
      → perfect_root k (pairs l) ≡ perfect_root (suc k) l
  perfect_root-pairs zero (a ∷ b ∷ []) h = unfold perfect_root take drop pairs in refl
  perfect_root-pairs zero [] h = absurd (omega arith)
  perfect_root-pairs zero (a ∷ []) h = absurd (omega arith)
  perfect_root-pairs zero (a ∷ b ∷ c ∷ r) h = absurd (omega arith)
  perfect_root-pairs (suc k) l h =
      let half : 2 ^ suc k ≡ 2 ^ k * 2 = omega (arith, pow-suc 2 k) in
      let whole : length l ≡ 2 ^ suc k + 2 ^ suc k = omega (arith, pow-suc 2 (suc k)) in
      perfect_root-node k (pairs l)
      ∙ ap₂ hash_pair
          (ap (perfect_root k) (take-pairs (2 ^ k) (2 ^ suc k) l half)
            ∙ perfect_root-pairs k (take (2 ^ suc k) l) (length-take (2 ^ suc k) _ l whole))
          (ap (perfect_root k) (drop-pairs (2 ^ k) (2 ^ suc k) l half)
            ∙ perfect_root-pairs k (drop (2 ^ suc k) l) (length-drop (2 ^ suc k) _ l whole))
      ∙ sym (perfect_root-node (suc k) l)
