-- ===== src/Block/Merkle/Refine.antt =====
-- The loops over one vector against rows and pairs.
use mathlib.Core.List.{append_assoc, append-nil}
use zcash_devtool_sqlx.Base.{
  ℕ, zero, suc, ◌+◌, ◌/◌, ◌≤◌, ◌<◌, ◌≡◌, refl, ap, ◌∙◌, sym, Bool, true, false, some, List, [], ◌∷◌,
  ◌++◌, if◌then◌else◌, length, length-append, get_elem?, get_elem?-append, last?, last?-append,
  arith, ◌||◌,
}
use zcash_devtool_sqlx.Block.Merkle.{
  Hasher, partner, marks, merge_row, build_rows, build_merkle_root,
}
use zcash_devtool_sqlx.Block.Merkle.Rows.{IsMerkle, leaf, pair_up, ends_in_twins, length-pair_up}

marks_two :
    (i : ℕ) (same m : Bool)
    → marks (partner i (i + 2)) i (i + 2) same m ≡ (if same then true else m)
unfolding marks partner
marks_two i same m = ground arith

marks_one : (i : ℕ) (same m : Bool) → marks (partner i (i + 1)) i (i + 1) same m ≡ m
unfolding marks partner
marks_one i same m = ground arith

marks_more : (i k : ℕ) (same m : Bool) → marks (partner i (i + (k + 3))) i (i + (k + 3)) same m ≡ m
unfolding marks partner
marks_more i k same m = ground arith

partner_next : (i size : ℕ) → i + 1 < size → partner i size ≡ i + 1
unfolding partner
partner_next i size h = omega arith

partner_last : (i : ℕ) → partner i (i + 1) ≡ i
unfolding partner
partner_last i = omega arith

module _ (hasher : Hasher) where
  open hasher use {Hash, zero_hash, hash_pair, hash_eq}

  merge_row_done :
      (f j size i : ℕ) (tree : List Hash) (m : Bool)
      → size ≤ i
      → merge_row hasher (suc f) j size i tree m ≡ some (tree, m)
  unfolding merge_row
  merge_row_done f j size i tree m h = ground arith

  -- One round of the inner loop.
  merge_row_step :
      (f j size i : ℕ) (tree : List Hash) (m : Bool) {left right : Hash}
      → i < size
      → get_elem? tree (j + i) ≡ some left
      → get_elem? tree (j + partner i size) ≡ some right
      → merge_row hasher (suc f) j size i tree m
        ≡ merge_row hasher f j size
            (i + 2)
            (tree ++ hash_pair left right ∷ [])
            (marks (partner i size) i size (hash_eq left right) m)
  unfolding merge_row
  merge_row_step f j size i tree m h l r = ground arith

  round_pair :
      (f j size i : ℕ) (pre tail : List Hash) (a b : Hash) (m : Bool)
      → length pre ≡ j + i
      → i + 1 < size
      → merge_row hasher (suc f) j size i (pre ++ a ∷ b ∷ tail) m
        ≡ merge_row hasher f j size
            (i + 2)
            (pre ++ a ∷ b ∷ [] ++ (tail ++ hash_pair a b ∷ []))
            (marks (partner i size) i size (hash_eq a b) m)
  round_pair f j size i pre tail a b m hp hs =
      merge_row_step f j size i (pre ++ a ∷ b ∷ tail) m (omega arith)
        (get_elem?-append pre (a ∷ b ∷ tail) (j + i) 0 (omega arith))
        (get_elem?-append pre (a ∷ b ∷ tail) (j + partner i size) 1
          (omega (arith, partner_next i size hs)))
      ∙ simp append_assoc

  round_last :
      (f j i : ℕ) (pre tail : List Hash) (a : Hash) (m : Bool)
      → length pre ≡ j + i
      → merge_row hasher (suc (suc f)) j (i + 1) i (pre ++ a ∷ tail) m
        ≡ some (pre ++ a ∷ (tail ++ hash_pair a a ∷ []), m)
  round_last f j i pre tail a m hp =
      merge_row_step (suc f) j (i + 1) i (pre ++ a ∷ tail) m (omega arith)
        (get_elem?-append pre (a ∷ tail) (j + i) 0 (omega arith))
        (get_elem?-append pre (a ∷ tail) (j + partner i (i + 1)) 0 (omega (arith, partner_last i)))
      ∙ merge_row_done f j (i + 1) (i + 2) _ _ (omega arith)
      ∙ rw marks_one (simp append_assoc)

  merge_row_lem :
      (f j size i : ℕ) (pre rest out : List Hash) (m : Bool)
      → length pre ≡ j + i
      → size ≡ i + length rest
      → length rest < f
      → merge_row hasher f j size i (pre ++ (rest ++ out)) m
        ≡ some (
          pre ++ (rest ++ (out ++ pair_up hasher rest)),
          if ends_in_twins hasher rest then true else m,
        )
  merge_row_lem zero j size i pre rest out m hp hs hf = absurd (omega arith)
  merge_row_lem (suc f) j size i pre [] out m hp hs hf =
      merge_row_done f j size i (pre ++ out) m (omega arith)
      ∙ unfold pair_up ends_in_twins in rw append-nil
  merge_row_lem (suc zero) j size i pre (a ∷ []) out m hp hs hf = absurd (omega arith)
  merge_row_lem (suc (suc f)) j size i pre (a ∷ []) out m hp hs hf =
      let e : size ≡ i + 1 = omega arith in
      rw e (round_last f j i pre out a m hp ∙ unfold pair_up ends_in_twins in refl)
  merge_row_lem (suc f) j size i pre (a ∷ b ∷ []) out m hp hs hf =
      let e : size ≡ i + 2 = omega arith in
      rw e (
        round_pair f j (i + 2) i pre out a b m hp (omega arith)
        ∙ rw marks_two (
            merge_row_lem f j (i + 2) (i + 2) (pre ++ a ∷ b ∷ []) [] (out ++ hash_pair a b ∷ []) _
              (omega (arith, length-append pre (a ∷ b ∷ []))) (omega arith) (omega arith)
            ∙ unfold pair_up ends_in_twins in simp (append_assoc, append-nil)))
  merge_row_lem (suc f) j size i pre (a ∷ b ∷ c ∷ r) out m hp hs hf =
      let e : size ≡ i + (length r + 3) = omega arith in
      rw e (
        round_pair f j (i + (length r + 3)) i pre (c ∷ (r ++ out)) a b m hp (omega arith)
        ∙ rw marks_more (
            rw (append_assoc r out (hash_pair a b ∷ [])) (
              merge_row_lem f j (i + (length r + 3)) (i + 2) (pre ++ a ∷ b ∷ []) (c ∷ r)
                (out ++ hash_pair a b ∷ []) _ (omega (arith, length-append pre (a ∷ b ∷ [])))
                (omega arith) (omega arith)
              ∙ unfold pair_up ends_in_twins in simp append_assoc)))

  abbrev or_flag : Bool → Bool → Bool
  or_flag m' m = if m' then true else m

  build_rows_done :
      (f j size : ℕ) (tree : List Hash) (m : Bool)
      → size ≤ 1
      → build_rows hasher (suc f) j size tree m ≡ some (tree, m)
  unfolding build_rows
  build_rows_done f j size tree m h = ground arith

  build_rows_step :
      (f j size : ℕ) (tree : List Hash) (m : Bool) {tree' : List Hash} {m' : Bool}
      → 1 < size
      → merge_row hasher (size + 1) j size 0 tree m ≡ some (tree', m')
      → build_rows hasher (suc f) j size tree m
        ≡ build_rows hasher f (j + size) ((size + 1) / 2) tree' m'
  unfolding build_rows
  build_rows_step f j size tree m h e = ground arith

  merge_whole_row :
      (j : ℕ) (done row : List Hash) (m : Bool)
      → length done ≡ j
      → merge_row hasher (length row + 1) j (length row) 0 (done ++ row) m
        ≡ some (done ++ row ++ pair_up hasher row, or_flag (ends_in_twins hasher row) m)
  merge_whole_row j done row m hd =
      ap (λ t. merge_row hasher (length row + 1) j (length row) 0 (done ++ t) m)
        (sym (append-nil row))
      ∙ merge_row_lem (length row + 1) j (length row) 0 done row [] m (omega arith) (omega arith)
          (omega arith)
      ∙ ap (λ t. some (t, or_flag (ends_in_twins hasher row) m)) (sym (append_assoc done row _))

  next_row :
      (f j : ℕ) (done : List Hash) (a b : Hash) (r : List Hash) (m : Bool)
      → length done ≡ j
      → build_rows hasher (suc f) j (length (a ∷ b ∷ r)) (done ++ a ∷ b ∷ r) m
        ≡ build_rows hasher f
            (j + length (a ∷ b ∷ r))
            (length (pair_up hasher (a ∷ b ∷ r)))
            (done ++ a ∷ b ∷ r ++ pair_up hasher (a ∷ b ∷ r))
            (or_flag (ends_in_twins hasher (a ∷ b ∷ r)) m)
  next_row f j done a b r m hd = rw (length-pair_up hasher (a ∷ b ∷ r)) (
      build_rows_step f j (length (a ∷ b ∷ r)) (done ++ a ∷ b ∷ r) m (omega arith)
        (merge_whole_row j done (a ∷ b ∷ r) m hd))

  flag_twice : (t u m : Bool) → or_flag u (or_flag t m) ≡ or_flag (t || u) m
  flag_twice t u m = ground arith

  build_rows_lem :
      (f j : ℕ) (done : List Hash) (a : Hash) (r : List Hash) (m : Bool)
      → length done ≡ j
      → length (a ∷ r) ≤ f
      → (tree : List Hash) × (h : Hash) × (m' : Bool) × (build_rows hasher f j
            (length (a ∷ r))
            (done ++ a ∷ r)
            m
          ≡ some (tree, or_flag m' m))
        × (last? tree ≡ some h)
        × IsMerkle hasher (a ∷ r) h m'
  unfolding pair_up
  build_rows_lem zero j done a r m hd hf = absurd (omega arith)
  build_rows_lem (suc f) j done a [] m hd hf = (
    done ++ a ∷ [],
    a,
    false,
    build_rows_done f j 1 _ m (omega arith),
    last?-append done a [],
    leaf a,
  )
  build_rows_lem (suc f) j done a (b ∷ r) m hd hf =
      let twins = ends_in_twins hasher (a ∷ b ∷ r) in
      let (tree, h, m', e, l, i) =
        build_rows_lem f (j + length (a ∷ b ∷ r)) (done ++ a ∷ b ∷ r) (hash_pair a b)
          (pair_up hasher r) (or_flag twins m) (omega (arith, length-append done (a ∷ b ∷ r)))
          (omega (arith, length-pair_up hasher r)) in
      let above : IsMerkle hasher (pair_up hasher (a ∷ b ∷ r)) h m' = i in
      let rest : build_rows hasher f (j + length (a ∷ b ∷ r)) (length (pair_up hasher (a ∷ b ∷ r)))
            (done ++ a ∷ b ∷ r ++ pair_up hasher (a ∷ b ∷ r)) (or_flag twins m)
          ≡ some (tree, or_flag m' (or_flag twins m)) =
        e in
      (
        tree,
        h,
        twins || m',
        next_row f j done a b r m hd ∙ rest ∙ ap (λ t. some (tree, t)) (flag_twice twins m' m),
        l,
        IsMerkle.row a b r above refl,
      )

  pub build_merkle_root_none : build_merkle_root hasher [] ≡ some (zero_hash, false)
  unfolding build_merkle_root build_rows
  build_merkle_root_none = refl

  -- On the transaction ids of a block with at least one transaction, the loops finish without
  -- reading outside the vector. The root is that of the tree of rows, and the flag tells whether
  -- some row on the way to the root ends in two equal hashes.
  pub build_merkle_root-IsMerkle :
      (a : Hash) (r : List Hash)
      → (h : Hash) × (m : Bool) × (build_merkle_root hasher (a ∷ r) ≡ some (h, m))
        × IsMerkle hasher (a ∷ r) h m
  unfolding build_merkle_root
  build_merkle_root-IsMerkle a r =
      let (tree, h, m, e, l, i) =
        build_rows_lem (length (a ∷ r) + 1) 0 [] a r false refl (omega arith) in
      (h, m, rw e (rw l (ground arith)), i)
