-- ===== src/Sync/Rewind.antt =====
-- What a reorganisation of the chain does to the wallet and the cache, in
-- src/commands/wallet/sync.rs.
use zcash_devtool_sqlx.Base.{
  ℕ, ◌+◌, ◌-◌, ◌^◌, ◌≤◌, ◌<◌, ◌≡◌, inl, inr, refl, sym, ap, ◌∙◌, true, Bool-cases, ltb, List, [],
  ◌∷◌, arith,
}
use zcash_devtool_sqlx.Base.Effects.Ends.{Ends, EndsAt, Ends-pure, Ends-bind, Ends-ask, Ends-call}
use zcash_devtool_sqlx.Sync.World.{
  World, History, CompactBlock, wallet_truncated, file_removed, cache_truncated,
}
use zcash_devtool_sqlx.Sync.Steps.{remove_blocks, rewind}
use zcash_devtool_sqlx.Sync.Cache.{Listed, AllFrom, Cache, IsCut, IsTracked, OnlyRemoves, IsRewound}

module _ (w : World) (cache : Cache w) where
  open cache use {HasFile, IsCached}

  -- The files above the height that are left are those of these blocks.
  abbrev AreLeft : ℕ → List CompactBlock → History w → Type 0
  AreLeft a blocks t = (h : ℕ) (hash : List ℕ) → HasFile t h hash → a < h → Listed blocks h hash

  module _ (a : ℕ) (t : History w) where
    -- Before the blocks of a list are removed.
    abbrev Removing : List CompactBlock → History w → Type 0
    Removing blocks t' = OnlyRemoves w cache a t t' × AreLeft a blocks t' × IsCut w a t'

    remove-OnlyRemoves :
        (block : CompactBlock) (t' : History w)
        → a < block.height
        → OnlyRemoves w cache a t t'
        → OnlyRemoves w cache a t (file_removed block.height block.hash ∷ t')
    remove-OnlyRemoves block t' above h = record {
      kept = λ n hash low f.
          (cache.HasFile-file_removed t' block.height block.hash n hash).1
            (h.kept n hash low f, λ (e, _). omega (arith, e, above, low));
      fewer = λ n hash f.
          h.fewer n hash ((cache.HasFile-file_removed t' block.height block.hash n hash).0 f).0;
      metadata = λ n hash. (
        λ c.
            (h.metadata n hash).0
              ((cache.IsCached-file_removed t' block.height block.hash n hash).0 c),
        λ c.
            (cache.IsCached-file_removed t' block.height block.hash n hash).1
              ((h.metadata n hash).1 c),
      );
    }

    not_this :
        (block : CompactBlock) (rest : List CompactBlock) (h : ℕ) (hash : List ℕ)
        → ¬ ((block.height ≡ h) × (block.hash ≡ hash))
        → Listed (block ∷ rest) h hash
        → Listed rest h hash
    not_this block rest h hash n (inl e) = absurd (n e)
    not_this block rest h hash n (inr l) = l

    remove-AreLeft :
        (block : CompactBlock) (rest : List CompactBlock) (t' : History w)
        → AreLeft a (block ∷ rest) t'
        → AreLeft a rest (file_removed block.height block.hash ∷ t')
    remove-AreLeft block rest t' h n hash f low =
        let (g, other) = (cache.HasFile-file_removed t' block.height block.hash n hash).0 f in
        not_this block rest n hash other (h n hash g low)

    remove_blocks-Removing :
        (blocks : List CompactBlock) (t' : History w)
        → AllFrom (a + 1) blocks
        → Removing blocks t'
        → Ends (λ _. Removing []) (OnlyRemoves w cache a t) (remove_blocks w blocks) t'
    unfolding remove_blocks
    remove_blocks-Removing [] t' above h = Ends-pure t' tt h
    remove_blocks-Removing (block ∷ rest) t' (above, more) h =
        Ends-bind {P = λ _. Removing rest} _ _ t'
          (Ends-call t' _ _
            (λ _ _. (
              remove-OnlyRemoves block t' (omega (arith, above)) h.0,
              remove-AreLeft block rest t' h.1,
              h.2,
            ))
            h.0)
          (λ _ t'' k. remove_blocks-Removing rest t'' more k)

    started : OnlyRemoves w cache a t t
    started = record {
      kept = λ h hash low f. f;
      fewer = λ h hash f. f;
      metadata = λ h hash. (λ c. c, λ c. c);
    }

    truncated : OnlyRemoves w cache a t (wallet_truncated a ∷ t)
    truncated = record {
      kept = λ h hash low f. (cache.HasFile-wallet_truncated t a h hash).1 f;
      fewer = λ h hash f. (cache.HasFile-wallet_truncated t a h hash).0 f;
      metadata = λ h hash. cache.IsCached-wallet_truncated t a h hash;
    }

    -- The files above the height are those of the blocks that the cache lists.
    Listed-AreLeft :
        (t' : History w) (blocks : List CompactBlock)
        → IsTracked w cache t
        → OnlyRemoves w cache a t t'
        → ((h : ℕ) (hash : List ℕ) → IsCached t' h hash → a + 1 ≤ h → Listed blocks h hash)
        → AreLeft a blocks t'
    Listed-AreLeft t' blocks tracked r listed h hash f above =
        listed h hash ((r.metadata h hash).1 (tracked h hash (r.fewer h hash f)))
          (omega (arith, above))

    not_above :
        (t' : History w) (h : ℕ) (hash : List ℕ) → AreLeft a [] t' → HasFile t' h hash → h ≤ a
    not_above t' h hash none_left f = elim (Bool-cases (ltb a h)) [
      | inl e ↦ absurd (none_left h hash f (ground (arith, e)))
      | inr e ↦ ground (arith, e)
    ]

    ended-IsRewound :
        (t' : History w)
        → OnlyRemoves w cache a t t'
        → AreLeft a [] t'
        → IsRewound w cache a t (cache_truncated a ∷ t')
    ended-IsRewound t' r none_left = record {
      files = λ h hash. (
        λ f.
            let g = (cache.HasFile-cache_truncated t' a h hash).0 f in
            (r.fewer h hash g, not_above t' h hash none_left g),
        λ (f, low). (cache.HasFile-cache_truncated t' a h hash).1 (r.kept h hash low f),
      );
      metadata = λ h hash. (
        λ c.
            let (d, low) = (cache.IsCached-cache_truncated t' a h hash).0 c in
            ((r.metadata h hash).0 d, low),
        λ (c, low). (cache.IsCached-cache_truncated t' a h hash).1 ((r.metadata h hash).1 c, low),
      );
    }

  rewind-Ends :
      (at_height : ℕ) (t : History w)
      → at_height < 2 ^ 32
      → IsTracked w cache t
      → Ends
          (λ b t'.
            (b ≡ true) × IsRewound w cache (at_height - 10) t t' × IsCut w (at_height - 10) t')
          (OnlyRemoves w cache (at_height - 10) t)
          (rewind w at_height)
          t
  unfolding rewind
  rewind-Ends at_height t bound tracked =
      let a = at_height - 10 in
      let next : w.ranges.add_height a 1 ≡ a + 1 =
        w.ranges.add_height_exact a 1 (omega (arith, bound)) in
      Ends-bind {P = λ _ t'. OnlyRemoves w cache a t t' × IsCut w a t'} _ _ t
        (Ends-call t _ _ (λ _ _. (truncated a t, refl)) (started a t))
        (λ _ t' (r, cut).
          Ends-bind {P = λ blocks t'. AllFrom (a + 1) blocks × Removing a t blocks t'} _ _ t'
            (Ends-ask t' _
              (λ blocks e.
                let (above, listed) =
                  cache.cached_from-Listed t' (a + 1) blocks
                    (ap (w.cached_from t') (sym next) ∙ e) in
                (above, (r, Listed-AreLeft a t t' blocks tracked r listed, cut)))
              r)
            (λ blocks t' (above, removing).
              Ends-bind {P = λ _. Removing a t []} _ _ t'
                (remove_blocks-Removing a t blocks t' above removing)
                (λ _ t' (r, left, cut).
                  Ends-bind {P = λ _ t'. IsRewound w cache a t t' × IsCut w a t'} _ _ t'
                    (Ends-call t' _ _ (λ _ _. (ended-IsRewound a t t' r left, cut)) r)
                    (λ _ t' (rewound, cut). Ends-pure t' true (refl, rewound, cut)))))

  -- After a continuity error at a height (which fits in 32 bits), if the cache has the metadata of each block that has a file,
  -- the rewind ends in one of two ways. Either the wallet is truncated to ten blocks before the error,
  -- or to 0, just the files of blocks above that height are removed, with the metadata of just the
  -- blocks above it, and the ranges are reported as changed. Or it fails, having removed no file at or
  -- below that height and no metadata, so that the files that are left can still be found.
  pub rewind-IsRewound :
      (at_height : ℕ) (t : History w)
      → at_height < 2 ^ 32
      → IsTracked w cache t
      → EndsAt
          (λ b t'.
            (b ≡ true) × IsRewound w cache (at_height - 10) t t' × IsCut w (at_height - 10) t')
          (OnlyRemoves w cache (at_height - 10) t)
          (rewind w at_height t)
  rewind-IsRewound at_height t bound tracked = (rewind-Ends at_height t bound tracked).at_end
