-- ===== src/Block/AuthRoot/Refine.antt =====
-- The loops over one vector against the perfect tree.
use mathlib.Core.List.{append_assoc, append-nil}
use native.Mathlib.Nat.{pow-suc, one-le-pow}
use zcash_devtool_sqlx.Base.{
  ℕ, zero, suc, ◌+◌, ◌-◌, ◌*◌, ◌/◌, ◌^◌, ◌≤◌, ◌<◌, ◌≡◌, refl, ap, ◌∙◌, sym, some, List, [], ◌∷◌,
  ◌++◌, length, length-append, get_elem?, get_elem?-append, last?, last?-append, replicate, arith,
}
use zcash_devtool_sqlx.Block.Merkle.{Hasher}
use zcash_devtool_sqlx.Block.AuthRoot.{
  resize, node_count, hash_layer, hash_layers, build_auth_data_root, padded_root,
}
use zcash_devtool_sqlx.Block.AuthRoot.Perfect.{
  perfect_root, pairs, length-pairs, perfect_root-pairs,
}
use zcash_devtool_sqlx.Block.AuthRoot.Width.{bit_and_power, next_pow2_lem, node_count-power}

resize_lem :
    {A : Type 0} (l : List A) (n m : ℕ) (a : A)
    → n ≡ length l + m
    → resize l n a ≡ l ++ replicate m a
unfolding resize
resize_lem [] zero zero a h = refl
resize_lem [] zero (suc m) a h = absurd (omega arith)
resize_lem [] (suc n) zero a h = absurd (omega arith)
resize_lem [] (suc n) (suc m) a h = ap (λ t. a ∷ t) (resize_lem [] n m a (omega arith))
resize_lem (x ∷ l) zero m a h = absurd (omega arith)
resize_lem (x ∷ l) (suc n) m a h = ap (λ t. x ∷ t) (resize_lem l n m a (omega arith))

length-resize : {A : Type 0} (l : List A) (n : ℕ) (a : A) → length (resize l n a) ≡ n
unfolding resize
length-resize l zero a = refl
length-resize [] (suc n) a = ap suc (length-resize [] n a)
length-resize (x ∷ l) (suc n) a = ap suc (length-resize l n a)

exponent_lt : (k : ℕ) → k < 2 ^ k
exponent_lt zero = omega arith
exponent_lt (suc k) = omega (arith, pow-suc 2 k, exponent_lt k)

module _ (hasher : Hasher) where
  open hasher use {Hash, zero_hash, hash_pair}

  layer_done :
      (f j width i : ℕ) (tree : List Hash)
      → width ≤ i
      → hash_layer hasher (suc f) j width i tree ≡ some tree
  unfolding hash_layer
  layer_done f j width i tree h = ground arith

  layer_step :
      (f j width i : ℕ) (tree : List Hash) {left right : Hash}
      → i < width
      → get_elem? tree (j + i) ≡ some left
      → get_elem? tree (j + i + 1) ≡ some right
      → hash_layer hasher (suc f) j width i tree
        ≡ hash_layer hasher f j width (i + 2) (tree ++ hash_pair left right ∷ [])
  unfolding hash_layer
  layer_step f j width i tree h l r = ground arith

  hash_layer_lem :
      (f j width i k : ℕ) (pre rest out : List Hash)
      → length pre ≡ j + i
      → width ≡ i + length rest
      → length rest ≡ k * 2
      → k < f
      → hash_layer hasher f j width i (pre ++ (rest ++ out))
        ≡ some (pre ++ (rest ++ (out ++ pairs hasher rest)))
  hash_layer_lem zero j width i k pre rest out hp hw hk hf = absurd (omega arith)
  hash_layer_lem (suc f) j width i k pre [] out hp hw hk hf =
      layer_done f j width i (pre ++ out) (omega arith) ∙ unfold pairs in rw append-nil
  hash_layer_lem (suc f) j width i k pre (a ∷ []) out hp hw hk hf = absurd (omega arith)
  hash_layer_lem (suc f) j width i zero pre (a ∷ b ∷ r) out hp hw hk hf = absurd (omega arith)
  hash_layer_lem (suc f) j width i (suc k) pre (a ∷ b ∷ r) out hp hw hk hf =
      layer_step f j width i (pre ++ a ∷ b ∷ (r ++ out)) (omega arith)
        (get_elem?-append pre (a ∷ b ∷ (r ++ out)) (j + i) 0 (omega arith))
        (get_elem?-append pre (a ∷ b ∷ (r ++ out)) (j + i + 1) 1 (omega arith))
      ∙ ap (hash_layer hasher f j width (i + 2)) (simp append_assoc)
      ∙ hash_layer_lem f j width (i + 2) k (pre ++ a ∷ b ∷ []) r (out ++ hash_pair a b ∷ [])
          (omega (arith, length-append pre (a ∷ b ∷ []))) (omega arith) (omega arith) (omega arith)
      ∙ unfold pairs in simp append_assoc

  hash_whole_layer :
      (j k : ℕ) (done row : List Hash)
      → length done ≡ j
      → length row ≡ k * 2
      → hash_layer hasher (length row + 1) j (length row) 0 (done ++ row)
        ≡ some (done ++ row ++ pairs hasher row)
  hash_whole_layer j k done row hd hk =
      ap (λ t. hash_layer hasher (length row + 1) j (length row) 0 (done ++ t))
        (sym (append-nil row))
      ∙ hash_layer_lem (length row + 1) j (length row) 0 k done row [] (omega arith) (omega arith)
          hk (omega arith)
      ∙ ap some (sym (append_assoc done row _))

  layers_done :
      (f j width : ℕ) (tree : List Hash)
      → width ≤ 1
      → hash_layers hasher (suc f) j width tree ≡ some tree
  unfolding hash_layers
  layers_done f j width tree h = ground arith

  layers_step :
      (f j width : ℕ) (tree : List Hash) {tree' : List Hash}
      → 1 < width
      → hash_layer hasher (width + 1) j width 0 tree ≡ some tree'
      → hash_layers hasher (suc f) j width tree ≡ hash_layers hasher f (j + width) (width / 2) tree'
  unfolding hash_layers
  layers_step f j width tree h e = ground arith

  one_leaf :
      (f j : ℕ) (done row : List Hash)
      → length row ≡ 1
      → (tree : List Hash) × (hash_layers hasher (suc f) j (length row) (done ++ row) ≡ some tree)
        × (last? tree ≡ some (perfect_root hasher zero row))
        × (length tree ≡ length done + 1)
  one_leaf f j done [] h = absurd (omega arith)
  one_leaf f j done (a ∷ []) h = (
    done ++ a ∷ [],
    layers_done f j 1 _ (omega arith),
    last?-append done a [] ∙ unfold perfect_root in refl,
    length-append done (a ∷ []),
  )
  one_leaf f j done (a ∷ b ∷ r) h = absurd (omega arith)

  hash_layers_lem :
      (k f j : ℕ) (done row : List Hash)
      → length done ≡ j
      → length row ≡ 2 ^ k
      → k < f
      → (tree : List Hash) × (hash_layers hasher f j (length row) (done ++ row) ≡ some tree)
        × (last? tree ≡ some (perfect_root hasher k row))
        × (length tree + 1 ≡ length done + 2 ^ k * 2)
  hash_layers_lem k zero j done row hd hr hf = absurd (omega arith)
  hash_layers_lem zero (suc f) j done row hd hr hf =
      let (tree, e, l, n) = one_leaf f j done row hr in (tree, e, l, omega (arith, n))
  hash_layers_lem (suc k) (suc f) j done row hd hr hf =
      let s : 2 ^ suc k ≡ 2 ^ k * 2 = pow-suc 2 k in
      let p : 1 ≤ 2 ^ k = one-le-pow k 2 (omega arith) in
      let above : length (pairs hasher row) ≡ 2 ^ k = length-pairs hasher (2 ^ k) row (hr ∙ s) in
      let half : length row / 2 ≡ length (pairs hasher row) = omega (arith, s, above, hr) in
      let (tree, e, l, n) =
        hash_layers_lem k f (j + length row) (done ++ row) (pairs hasher row)
          (omega (arith, length-append done row)) above (omega arith) in
      (
        tree,
        layers_step f j (length row) (done ++ row) (omega (arith, s, p, hr))
              (hash_whole_layer j (2 ^ k) done row hd (hr ∙ s))
            ∙ ap (λ w. hash_layers hasher f (j + length row) w (done ++ row ++ pairs hasher row))
                half
            ∙ e,
        l ∙ ap some (perfect_root-pairs hasher k row hr),
        omega (arith, n, s, hr, length-append done row),
      )

  padded_tree :
      (k : ℕ) (l : List Hash)
      → k ≤ 62
      → padded_root hasher l (some (2 ^ k))
        ≡ some (perfect_root hasher k (resize l (2 ^ k) zero_hash))
  padded_tree k l h =
      let row = resize l (2 ^ k) zero_hash in
      let len : length row ≡ 2 ^ k = length-resize l (2 ^ k) zero_hash in
      let (tree, e, r, n) =
        hash_layers_lem k (2 ^ k + 1) 0 [] row refl len (omega (arith, exponent_lt k)) in
      let run : hash_layers hasher (2 ^ k + 1) 0 (2 ^ k) row ≡ some tree =
        ap (λ w. hash_layers hasher (2 ^ k + 1) 0 w row) (sym len) ∙ e in
      let count : length tree ≡ node_count (2 ^ k) = omega (arith, n, node_count-power k h) in
      rw (bit_and_power 64 k) (rw run (rw (sym count) (rw r (ground arith))))

  -- For a block of at most 2 ^ 62 transactions, both assertions hold and the loops finish without
  -- reading outside the vector. The root is that of the perfect binary tree over the commitments
  -- followed by zero hashes, whose height is the least that has room for all of them.
  pub build_auth_data_root_lem :
      (l : List Hash)
      → length l ≤ 2 ^ 62
      → (k : ℕ) × (length l ≤ 2 ^ k)
        × ((m : ℕ) → length l ≤ 2 ^ m → k ≤ m)
        × (build_auth_data_root hasher l
            ≡ some (perfect_root hasher k (l ++ replicate (2 ^ k - length l) zero_hash)))
  build_auth_data_root_lem l h =
      let (k, small, size, room, least) = next_pow2_lem (length l) h in
      (
        k,
        room,
        least,
        unfold build_auth_data_root in
            rw size (
              padded_tree k l small
              ∙ ap (λ t. some (perfect_root hasher k t))
                  (resize_lem l (2 ^ k) (2 ^ k - length l) zero_hash (omega (arith, room)))),
      )
