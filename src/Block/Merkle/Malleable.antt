-- ===== src/Block/Merkle/Malleable.antt =====
-- Two lists of transactions with one Merkle root, and the flag that tells them apart.
use mathlib.Core.Path.{subst}
use zcash_devtool_sqlx.Base.{
  ℕ, zero, suc, ◌*◌, ◌≡◌, refl, sym, ap, ◌∙◌, Bool, true, ◌||◌, some, List, [], ◌∷◌, ◌++◌, length,
  arith,
}
use zcash_devtool_sqlx.Block.Merkle.{Hasher, build_merkle_root}
use zcash_devtool_sqlx.Block.Merkle.Rows.{
  IsMerkle, leaf, row, pair_up, ends_in_twins, pair_up-repeat,
}
use zcash_devtool_sqlx.Block.Merkle.Refine.{build_merkle_root-IsMerkle}

module _ (hasher : Hasher) where
  open hasher use {Hash, hash_eq}

  IsMerkle-unique :
      {l : List Hash} {h h' : Hash} {m m' : Bool}
      → IsMerkle hasher l h m
      → IsMerkle hasher l h' m'
      → (h ≡ h') × (m ≡ m')
  IsMerkle-unique (leaf a) (leaf b) = (refl, refl)
  IsMerkle-unique (row a b r i e) (row c d s j f) =
      let (p, q) = IsMerkle-unique i j in
      (p, e ∙ ap (λ t. ends_in_twins hasher (a ∷ b ∷ r) || t) q ∙ sym f)

  ends_in_twins-repeat :
      (k : ℕ) (xs : List Hash) (a : Hash)
      → length xs ≡ k * 2
      → ends_in_twins hasher (xs ++ a ∷ a ∷ []) ≡ hash_eq a a
  unfolding ends_in_twins
  ends_in_twins-repeat k [] a h = refl
  ends_in_twins-repeat k (x ∷ []) a h = absurd (omega arith)
  ends_in_twins-repeat zero (x ∷ y ∷ xs) a h = absurd (omega arith)
  ends_in_twins-repeat (suc k) (x ∷ y ∷ []) a h = refl
  ends_in_twins-repeat (suc k) (x ∷ y ∷ z ∷ xs) a h =
      ends_in_twins-repeat k (z ∷ xs) a (omega arith)

  row_above :
      {x y : Hash} {r : List Hash} {h : Hash} {m : Bool}
      → IsMerkle hasher (x ∷ y ∷ r) h m
      → (above : Bool) × IsMerkle hasher (pair_up hasher (x ∷ y ∷ r)) h above
  row_above (row a b r {above} i e) = (above, i)

  IsMerkle-repeat :
      (k : ℕ) (x y : Hash) (xs : List Hash) (a : Hash) {h : Hash} {m : Bool}
      → length xs ≡ k * 2
      → hash_eq a a ≡ true
      → IsMerkle hasher (x ∷ y ∷ (xs ++ a ∷ [])) h m
      → IsMerkle hasher (x ∷ y ∷ (xs ++ a ∷ a ∷ [])) h true
  IsMerkle-repeat k x y xs a {h} hk eq i =
      let (above, up) = row_above i in
      let two_more : length (x ∷ y ∷ xs) ≡ suc k * 2 = omega arith in
      row x y (xs ++ a ∷ a ∷ [])
        (subst (λ t. IsMerkle hasher t h above)
          (sym (pair_up-repeat hasher (suc k) (x ∷ y ∷ xs) a two_more)) up)
        (rw (ends_in_twins-repeat (suc k) (x ∷ y ∷ xs) a two_more) (rw eq refl))

  -- When the last transaction of an odd-sized block with more than one transaction is repeated,
  -- the Merkle root stays the same, and the flag is set for the longer block (given that a hash
  -- equals itself).
  pub repeated_last_flagged :
      (k : ℕ) (x y : Hash) (xs : List Hash) (a : Hash)
      → length xs ≡ k * 2
      → hash_eq a a ≡ true
      → (h : Hash) × (m : Bool) × (build_merkle_root hasher (x ∷ y ∷ (xs ++ a ∷ [])) ≡ some (h, m))
        × (build_merkle_root hasher (x ∷ y ∷ (xs ++ a ∷ a ∷ [])) ≡ some (h, true))
  repeated_last_flagged k x y xs a hk eq =
      let (h, m, e, i) = build_merkle_root-IsMerkle hasher x (y ∷ (xs ++ a ∷ [])) in
      let (h', m', e', i') = build_merkle_root-IsMerkle hasher x (y ∷ (xs ++ a ∷ a ∷ [])) in
      let (p, q) = IsMerkle-unique i' (IsMerkle-repeat k x y xs a hk eq i) in
      (h, m, e, e' ∙ ap (λ t. some (t, m')) p ∙ ap (λ t. some (h, t)) q)
