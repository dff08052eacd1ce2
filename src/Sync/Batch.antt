-- ===== src/Sync/Batch.antt =====
-- Step 7 of `running` in src/commands/wallet/sync.rs: each suggested range is cut into batches,
-- which limits how many blocks are downloaded and scanned at one time.
use mathlib.Core.Path.{subst₃}
use zcash_devtool_sqlx.Base.{
  ℕ, zero, suc, ◌+◌, ◌-◌, ◌^◌, ◌≤◌, ◌<◌, ◌≡◌, min, true, false, Option, none, some, List, [], ◌∷◌,
  arith, Bool-cases, Option-cases, inl, inr, refl, ◌∙◌, sym, ap,
}
use zcash_devtool_sqlx.Protocol.{ScanPriority}
use zcash_devtool_sqlx.Sync.Range.{Ranges}

abbrev pub batch_size : ℕ
batch_size = 10_000

abbrev pub cons? {ℓ} : {A : Type ℓ} → A → Option (List A) → Option (List A)
cons? x none = none
cons? x (some xs) = some (x ∷ xs)

module _ (api : Ranges) where
  open api use {ScanRange, start, stop, priority, from_parts, is_empty, split_at, add_height}

  -- The `scan` adaptor of one range; `none` means that the fuel ran out.
  unfoldable pub batches : ℕ → ScanRange → Option (List ScanRange)
  batches zero acc = none
  batches (suc fuel) acc = elim (is_empty acc) [
    | true ↦ some []
    | false ↦ elim (split_at acc (add_height (start acc) batch_size)) [
      | some (cur, next) ↦ cons? cur (batches fuel next)
      | none ↦ cons? acc (batches fuel (from_parts (stop acc) (stop acc) (priority acc)))
    ]
  ]

  -- The batches follow one another from `a` to `b`, none is empty, and each is full but for the
  -- last, which ends at `b`.
  abbrev pub Tiles : ScanPriority → ℕ → ℕ → List ScanRange → Type 0
  Tiles p a b [] = a ≡ b
  Tiles p a b (x ∷ xs) =
      (start x ≡ a)
      × (a < b)
      × (stop x ≡ min (a + batch_size) b)
      × (priority x ≡ p)
      × Tiles p (stop x) b xs

  batches_empty : (f : ℕ) (r : ScanRange) → stop r ≤ start r → batches (suc f) r ≡ some []
  unfolding batches
  batches_empty f r h = ground (arith, api.is_empty_iff r)

  batches_split :
      (f : ℕ) (r : ScanRange) {cur next : ScanRange}
      → start r < stop r
      → split_at r (add_height (start r) batch_size) ≡ some (cur, next)
      → batches (suc f) r ≡ cons? cur (batches f next)
  unfolding batches
  batches_split f r h e = ground (arith, api.is_empty_iff r)

  batches_last :
      (f : ℕ) (r : ScanRange)
      → start r < stop r
      → split_at r (add_height (start r) batch_size) ≡ none
      → batches (suc f) r ≡ cons? r (batches f (from_parts (stop r) (stop r) (priority r)))
  unfolding batches
  batches_last f r h e = ground (arith, api.is_empty_iff r)

  batches_end :
      (f : ℕ) (r : ScanRange)
      → 0 < f
      → batches f (from_parts (stop r) (stop r) (priority r)) ≡ some []
  batches_end zero r h = absurd (omega arith)
  batches_end (suc f) r h = batches_empty f (from_parts (stop r) (stop r) (priority r)) (
      omega (
        arith,
        api.start-from_parts (stop r) (stop r) (priority r) (omega arith),
        api.stop-from_parts (stop r) (stop r) (priority r) (omega arith),
      ))

  Tiles-moved :
      (bs : List ScanRange) {p q : ScanPriority} {a a' b b' : ℕ}
      → a ≡ a'
      → b ≡ b'
      → p ≡ q
      → Tiles p a b bs
      → Tiles q a' b' bs
  Tiles-moved bs ea eb ep t = subst₃ (λ p a b. Tiles p a b bs) ep ea eb t

  -- With more fuel than the range has blocks, the batches of a range tile it in order, with the
  -- range's priority (given that the range ends at least one batch below 2 ^ 32).
  pub batches_tile :
      (f : ℕ) (r : ScanRange)
      → start r ≤ stop r
      → stop r - start r < f
      → stop r + batch_size < 2 ^ 32
      → (bs : List ScanRange) × (batches f r ≡ some bs) × Tiles (priority r) (start r) (stop r) bs
  batches_tile zero r le hf fits = absurd (omega arith)
  batches_tile (suc f) r le hf fits = elim (Bool-cases (is_empty r)) [
    | inl empty ↦ (
      [],
      batches_empty f r ((api.is_empty_iff r).0 empty),
      omega (arith, (api.is_empty_iff r).0 empty),
    )
    | inr full ↦
        let lt : start r < stop r = ground (arith, api.is_empty_iff r) in
        let e : add_height (start r) batch_size ≡ start r + batch_size =
          api.add_height_exact (start r) batch_size (omega arith) in
        elim (Option-cases (split_at r (add_height (start r) batch_size))) [
          | inl at_end ↦
              let far = api.split_at_none r (add_height (start r) batch_size) at_end in
              (
                r ∷ [],
                batches_last f r lt at_end ∙ rw (batches_end f r (omega arith)),
                (refl, lt, omega arith, refl, refl),
              )
          | inr ((cur, next), cut) ↦
              let (l, h, sc, tc, pc, sn, tn, pn) =
                api.split_at_some r (add_height (start r) batch_size) cut in
              let (bs, eq, tiles) = batches_tile f next (omega arith) (omega arith) (omega arith) in
              (
                cur ∷ bs,
                batches_split f r lt cut ∙ ap (cons? cur) eq,
                (sc, lt, omega arith, pc, Tiles-moved bs (sn ∙ sym tc) tn (pn) tiles),
              )
        ]
  ]
