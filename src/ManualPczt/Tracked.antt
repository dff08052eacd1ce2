-- ===== src/ManualPczt/Tracked.antt =====
-- The mappings of src/commands/pczt/pay_manual.rs name the places of the outputs.
use zcash_devtool_sqlx.Base.{
  ℕ, zero, suc, ◌+◌, ◌≡◌, ◌≢◌, ◌<◌, refl, sym, ap, subst, ◌∙◌, Bool, true, false, Option, none,
  some, List, [], ◌∷◌, ◌++◌, Result, ok, err, if◌then◌else◌, length, length-append, get_elem?,
  get_elem?-append, IfOk, IfOk-ok, IfOk-err, IfOk-then, IfOk-map, arith, inl, inr,
}
use zcash_devtool_sqlx.Base.Maps.{insert, lookup, lookup-insert, lookup-insert_other}
use zcash_devtool_sqlx.Protocol.{PoolType, transparent, shielded, sapling, orchard}
use zcash_devtool_sqlx.ManualPczt.{
  Crates, Recipient, orchard_receiver, sapling_receiver, transparent_receiver, sapling_address,
  transparent_address, unified_address, tex_address, handle_recipient, add_recipient, in_pool,
}
use zcash_devtool_sqlx.ManualPczt.Paying.{
  same_pool, Counts, next_index, counted, Tracking, Sent, track, track_all, add_outputs,
}
use zcash_devtool_sqlx.ManualPczt.Filtered.{
  same_pool_self, pool_cases, filtered, filtered-append, get_elem?-left, snoc_append, append_nil,
}

module _ (c : Crates) where
  open c use {Error, TransparentAddress, SaplingAddress, OrchardAddress, Memo, Builder}

  abbrev pub is_some_pool : PoolType → Result Error PoolType → Bool
  is_some_pool pool (ok q) = same_pool pool q
  is_some_pool pool (err e) = false

  -- The pool in which a recipient is paid.
  abbrev pub pool_of : Recipient c → Result Error PoolType
  pool_of =
      handle_recipient c (λ _. ok transparent) (λ _. ok (shielded sapling))
        (λ _. ok (shielded orchard))

  abbrev pub is_paid_in : PoolType → Sent c → Bool
  is_paid_in pool o = is_some_pool pool (pool_of o.address)

  -- The outputs of a pool, in order.
  abbrev pub paid_in : PoolType → List (Sent c) → List (Sent c)
  paid_in pool = filtered (is_paid_in pool)

  -- An output is found at an index among the outputs of its pool.
  abbrev pub FoundAt : List (Sent c) → Sent c → Option ℕ → Type 0
  FoundAt all o r =
      (pool : PoolType) × (n : ℕ) × (pool_of o.address ≡ ok pool)
      × (r ≡ some n)
      × (get_elem? (paid_in pool all) n ≡ some o)

  abbrev pub Counted : List (Sent c) → Counts → Type 0
  Counted pre counts = (q : PoolType) → next_index (counts q) ≡ length (paid_in q pre)

  in_pool-eq :
      (pool : PoolType) (r : Result Error Builder) → IfOk (λ p. p.1 ≡ pool) (in_pool c pool r)
  in_pool-eq pool (ok b) = IfOk-ok _ refl
  in_pool-eq pool (err e) = IfOk-err e

  abbrev pub paid : PoolType → Result Error PoolType
  paid pool = ok pool

  handled :
      (r : Result Error (Builder × PoolType)) (pool : PoolType)
      → IfOk (λ p. p.1 ≡ pool) r
      → IfOk (λ p. paid pool ≡ paid p.1) r
  handled (ok p) pool h = IfOk-ok _ (ap paid (sym h.holds))
  handled (err e) pool h = IfOk-err e

  add_recipient-pool :
      (builder : Builder) (recipient : Recipient c) (value : ℕ) (memo : Option Memo)
      → IfOk (λ p. pool_of recipient ≡ ok p.1) (add_recipient c builder recipient value memo)
  unfolding add_recipient
  add_recipient-pool b (sapling_address a) v m = handled _ _ (in_pool-eq (shielded sapling) _)
  add_recipient-pool b (transparent_address a) v m = handled _ _ (in_pool-eq transparent _)
  add_recipient-pool b (unified_address []) v m = IfOk-err _
  add_recipient-pool b (unified_address (orchard_receiver a ∷ _)) v m =
      handled _ _ (in_pool-eq (shielded orchard) _)
  add_recipient-pool b (unified_address (sapling_receiver a ∷ _)) v m =
      handled _ _ (in_pool-eq (shielded sapling) _)
  add_recipient-pool b (unified_address (transparent_receiver a ∷ _)) v m =
      handled _ _ (in_pool-eq transparent _)
  add_recipient-pool b (tex_address h) v m = handled _ _ (in_pool-eq transparent _)

  paid_in-snoc :
      (q pool : PoolType) (pre : List (Sent c)) (o : Sent c)
      → pool_of o.address ≡ ok pool
      → paid_in q (pre ++ o ∷ []) ≡ paid_in q pre ++ (if same_pool q pool then o ∷ [] else [])
  paid_in-snoc q pool pre o e =
      filtered-append (is_paid_in q) pre (o ∷ [])
      ∙ ap (λ r. paid_in q pre ++ (if is_some_pool q r then o ∷ [] else [])) e

  Counted-snoc :
      (pool : PoolType) (pre : List (Sent c)) (o : Sent c) (counts : Counts)
      → pool_of o.address ≡ ok pool
      → Counted pre counts
      → Counted (pre ++ o ∷ []) (counted pool counts)
  unfolding counted
  Counted-snoc pool pre o counts e h q = elim (pool_cases pool q) [
    | inl same ↦
        let mine : same_pool pool q ≡ true = ap (same_pool pool) (sym same) ∙ same_pool_self pool in
        let yours : same_pool q pool ≡ true =
          ap (λ r. same_pool r pool) (sym same) ∙ same_pool_self pool in
        rw (paid_in-snoc q pool pre o e, mine, yours)
          (omega (
            arith,
            ap (λ r. next_index (counts r)) same,
            h q,
            length-append (paid_in q pre) (o ∷ []),
          ))
    | inr (mine, yours) ↦
        rw (paid_in-snoc q pool pre o e, mine, yours)
          (omega (arith, h q, length-append (paid_in q pre) []))
  ]

  found-here :
      (pool : PoolType) (pre post : List (Sent c)) (o : Sent c) (counts : Counts)
      → pool_of o.address ≡ ok pool
      → Counted pre counts
      → get_elem? (paid_in pool (pre ++ o ∷ post)) (next_index (counts pool)) ≡ some o
  found-here pool pre post o counts e h =
      ap (λ l. get_elem? l (next_index (counts pool)))
        (filtered-append (is_paid_in pool) pre (o ∷ post)
          ∙ ap
              (λ r.
                paid_in pool pre
                ++ (if is_some_pool pool r then o ∷ paid_in pool post else paid_in pool post))
              e
          ∙ ap (λ b. paid_in pool pre ++ (if b then o ∷ paid_in pool post else paid_in pool post))
              (same_pool_self pool))
      ∙ get_elem?-append (paid_in pool pre) (o ∷ paid_in pool post) (next_index (counts pool)) 0
          (omega (arith, h pool))

  FoundAt-left :
      (xs ys : List (Sent c)) (o : Sent c) (r : Option ℕ) → FoundAt xs o r → FoundAt (xs ++ ys) o r
  FoundAt-left xs ys o r (pool, n, e, k, h) = (
    pool,
    n,
    e,
    k,
    ap (λ l. get_elem? l n) (filtered-append (is_paid_in pool) xs ys)
        ∙ get_elem?-left (paid_in pool xs) (paid_in pool ys) n o h,
  )

  -- What a loop leaves: counts for all the outputs so far, the earlier entries of the mapping, and an entry
  -- for each output, by which it is found.
  abbrev pub Tracked :
      List (Sent c) → List (Sent c) → ℕ → Tracking Builder → Tracking Builder → Type 0
  Tracked pre os i t t' =
      Counted (pre ++ os) t'.output_counts
      × ((k : ℕ) → k < i → lookup k t'.mapping ≡ lookup k t.mapping)
      × ((j : ℕ) (o : Sent c)
          → get_elem? os j ≡ some o
          → FoundAt (pre ++ os) o (lookup (i + j) t'.mapping))

  -- One output: the counts go on, and the mapping has its index.
  abbrev pub TrackedOne : List (Sent c) → Sent c → ℕ → Tracking Builder → Tracking Builder → Type 0
  TrackedOne pre o i t t' =
      (pool : PoolType) × (pool_of o.address ≡ ok pool)
      × (t'.output_counts ≡ counted pool t.output_counts)
      × (t'.mapping ≡ insert i (next_index (t.output_counts pool)) t.mapping)

  track-TrackedOne :
      (pre : List (Sent c)) (o : Sent c) (i : ℕ) (t : Tracking Builder)
      → IfOk (TrackedOne pre o i t) (track c i t o)
  unfolding track
  track-TrackedOne pre o i t =
      IfOk-then _ _ (add_recipient-pool t.builder o.address o.value o.memo)
        (λ (builder, pool) e. IfOk-ok _ (pool, e, refl, refl))

  module _ (pre : List (Sent c)) (o : Sent c) (os : List (Sent c)) (i : ℕ)
      (t next last : Tracking Builder) (one : TrackedOne pre o i t next)
      (rest : Tracked (pre ++ o ∷ []) os (i + 1) next last) where
    earlier_kept : (k : ℕ) → k < i → lookup k last.mapping ≡ lookup k t.mapping
    earlier_kept k l =
        let (pool, e, m, q) = one in
        let (counts, kept, found) = rest in
        let other : k ≢ i = λ same. omega (arith, same, l) in
        kept k (omega arith)
        ∙ ap (lookup k) q
        ∙ lookup-insert_other k i (next_index (t.output_counts pool)) t.mapping other

    one_found : Counted pre t.output_counts → FoundAt (pre ++ o ∷ os) o (lookup i last.mapping)
    one_found h =
        let (pool, e, m, q) = one in
        let (counts, kept, found) = rest in
        (
          pool,
          next_index (t.output_counts pool),
          e,
          kept i (omega arith)
              ∙ ap (lookup i) q
              ∙ lookup-insert i (next_index (t.output_counts pool)) t.mapping,
          found-here pool pre os o t.output_counts e h,
        )

    all_found :
        Counted pre t.output_counts
        → (j : ℕ) (x : Sent c) → get_elem? (o ∷ os) j ≡ some x
        → FoundAt (pre ++ o ∷ os) x (lookup (i + j) last.mapping)
    all_found h zero x e =
        let same : o ≡ x = ap (λ r. elim r [ none ↦ o | some y ↦ y ]) e in
        let here : i + 0 ≡ i = omega arith in
        subst (λ y. FoundAt (pre ++ o ∷ os) y (lookup (i + 0) last.mapping)) same
          (subst (λ k. FoundAt (pre ++ o ∷ os) o (lookup k last.mapping)) (sym here) (one_found h))
    all_found h (suc j) x e =
        let (counts, kept, found) = rest in
        let there : i + 1 + j ≡ i + suc j = omega arith in
        subst (λ k. FoundAt (pre ++ o ∷ os) x (lookup k last.mapping)) there
          (subst (λ l. FoundAt l x (lookup (i + 1 + j) last.mapping)) (snoc_append pre o os)
            (found j x e))

    one_more : Counted pre t.output_counts → Tracked pre (o ∷ os) i t last
    one_more h = (
      subst (λ l. Counted l last.output_counts) (snoc_append pre o os) rest.0,
      earlier_kept,
      all_found h,
    )

  track_all-Tracked :
      (pre os : List (Sent c)) (i : ℕ) (t : Tracking Builder)
      → Counted pre t.output_counts
      → IfOk (Tracked pre os i t) (track_all c i t os)
  unfolding track_all
  track_all-Tracked pre [] i t h = IfOk-ok t (
    subst (λ l. Counted l t.output_counts) (sym (append_nil pre)) h,
    λ k l. refl,
    λ j o e. ground (arith, e),
  )
  track_all-Tracked pre (o ∷ os) i t h =
      IfOk-then _ _ (track-TrackedOne pre o i t) (λ next (pool, e, m, q).
        let now : Counted (pre ++ o ∷ []) next.output_counts =
          subst (Counted (pre ++ o ∷ [])) (sym m) (Counted-snoc pool pre o t.output_counts e h) in
        IfOk-map (track_all c (i + 1) next os)
          (λ last rest. one_more pre o os i t next last (pool, e, m, q) rest h)
          (track_all-Tracked (pre ++ o ∷ []) os (i + 1) next now))

  at_start :
      (all : List (Sent c)) (o : Sent c) (i : ℕ) (m : List (ℕ × ℕ))
      → FoundAt all o (lookup (0 + i) m)
      → FoundAt all o (lookup i m)
  at_start all o i m h =
      let same : 0 + i ≡ i = omega arith in subst (λ k. FoundAt all o (lookup k m)) same h

  -- After the loops over the outputs and the change, the mapping of each list has, for each index of
  -- the list, the place of that output among all the outputs of its pool, those of the change after the
  -- others.
  pub add_outputs-FoundAt :
      (builder : Builder) (outputs change : List (Sent c))
      → IfOk
          (λ (b, output_mapping, change_mapping).
            ((i : ℕ) (o : Sent c)
              → get_elem? outputs i ≡ some o
              → FoundAt (outputs ++ change) o (lookup i output_mapping))
            × ((j : ℕ) (o : Sent c)
                → get_elem? change j ≡ some o
                → FoundAt (outputs ++ change) o (lookup j change_mapping)))
          (add_outputs c builder outputs change)
  unfolding add_outputs
  add_outputs-FoundAt builder outputs change =
      IfOk-then _ _ (track_all-Tracked [] outputs 0 _ (λ q. refl)) (λ paid (counts, _, found).
        IfOk-then _ _ (track_all-Tracked outputs change 0 _ counts) (λ changed (_, _, found_change).
          IfOk-ok _ (
            (λ i o e.
                FoundAt-left outputs change o _ (at_start outputs o i paid.mapping (found i o e))),
            (λ j o e. at_start (outputs ++ change) o j changed.mapping (found_change j o e)),
          )))
