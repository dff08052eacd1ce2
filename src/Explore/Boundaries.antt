-- ===== src/Explore/Boundaries.antt =====
-- The block boundaries that `App::new` of src/commands/wallet/tree/explore.rs collects.
use zcash_devtool_sqlx.Base.{
  ℕ, ◌==◌, ◌≡◌, ◌≢◌, refl, ap, ◌∙◌, Bool, true, false, Option, none, some, List, [], ◌∷◌,
  if◌then◌else◌, arith, Bool-cases, inl, inr, Result, ok, err, ◌>>=◌, IfOk, IfOk-ok, IfOk-err,
  subst,
}
use zcash_devtool_sqlx.Base.Maps.{lookup, or_insert, or_some, lookup-insert, lookup-insert_other}
use zcash_devtool_sqlx.Protocol.{ShieldedProtocol}
use zcash_devtool_sqlx.Explore.{Trees}
use zcash_devtool_sqlx.Explore.Moving.{record_size, block_boundaries_of}

abbrev pub or_else : Option ℕ → Option ℕ → Option ℕ
or_else none o = o
or_else (some n) o = some n

kept : (o : Option ℕ) (height : ℕ) → some (or_some o height) ≡ or_else o (some height)
kept none height = refl
kept (some n) height = refl

unchanged : (o : Option ℕ) → o ≡ or_else o none
unchanged none = refl
unchanged (some n) = refl

first_of :
    (o : Option ℕ) (same : Bool) (height : ℕ) (later : Option ℕ)
    → or_else (or_else o (if same then some height else none)) later
      ≡ or_else o (if same then some height else later)
first_of none true height later = refl
first_of none false height later = refl
first_of (some n) same height later = refl

lookup-or_insert :
    (size key height : ℕ) (m : List (ℕ × ℕ))
    → lookup size (or_insert key height m)
      ≡ or_else (lookup size m) (if size == key then some height else none)
unfolding or_insert
lookup-or_insert size key height m = elim (Bool-cases (size == key)) [
  | inl e ↦
      let same : size ≡ key = ground arith in
      rw (e, same, lookup-insert key (or_some (lookup key m) height) m) (kept (lookup key m) height)
  | inr e ↦
      let other : size ≢ key = ground arith in
      rw (e, lookup-insert_other size key (or_some (lookup key m) height) m other)
        (unchanged (lookup size m))
]

module _ (w : Trees) (pool : ShieldedProtocol) where
  -- Whether a tree is known to have a size.
  abbrev pub has_size : ℕ → Result w.Error (Option (Option ℕ)) → Bool
  has_size size (ok (some (some key))) = size == key
  has_size size _ = false

  -- The first height after whose block the tree has a size.
  unfoldable pub first_height : ℕ → List ℕ → Option ℕ
  first_height size [] = none
  first_height size (height ∷ rest) =
      let later = first_height size rest in
      if has_size size (w.tree_size pool height) then some height else later

  recorded :
      (size height : ℕ) (known : Option (Option ℕ)) (m : List (ℕ × ℕ)) (later : Option ℕ)
      → or_else (lookup size (record_size height known m)) later
        ≡ or_else (lookup size m) (if has_size size (ok known) then some height else later)
  recorded size height none m later = refl
  recorded size height (some none) m later = refl
  recorded size height (some (some key)) m later =
      ap (λ o. or_else o later) (lookup-or_insert size key height m)
      ∙ first_of (lookup size m) (size == key) height later

  next_height :
      (size height : ℕ) (rest : List ℕ) (m : List (ℕ × ℕ))
      (known : Result w.Error (Option (Option ℕ)))
      → ((m : List (ℕ × ℕ))
          → IfOk
              (λ n. lookup size n ≡ or_else (lookup size m) (first_height size rest))
              (block_boundaries_of w pool rest m))
      → IfOk
          (λ n.
            lookup size n
            ≡ or_else
                (lookup size m)
                (if has_size size known then some height else first_height size rest))
          (known >>= λ k. block_boundaries_of w pool rest (record_size height k m))
  next_height size height rest m (err e) ih = IfOk-err e
  next_height size height rest m (ok known) ih =
      subst
        (λ o.
          IfOk (λ n. lookup size n ≡ o)
            (block_boundaries_of w pool rest (record_size height known m)))
        (recorded size height known m (first_height size rest)) (ih (record_size height known m))

  lookup-later :
      (size : ℕ) (all : List ℕ) (m : List (ℕ × ℕ))
      → IfOk
          (λ n. lookup size n ≡ or_else (lookup size m) (first_height size all))
          (block_boundaries_of w pool all m)
  unfolding block_boundaries_of first_height
  lookup-later size [] m = IfOk-ok m (unchanged (lookup size m))
  lookup-later size (height ∷ rest) m =
      next_height size height rest m (w.tree_size pool height) (lookup-later size rest)

  -- The boundaries that are cached for the blocks at some heights, where no query fails: for each tree
  -- size the first of the heights after whose block the tree has that size, and none if there is none.
  lookup-block_boundaries_of :
      (size : ℕ) (all : List ℕ)
      → IfOk (λ m. lookup size m ≡ first_height size all) (block_boundaries_of w pool all [])
  unfolding lookup
  lookup-block_boundaries_of size all = lookup-later size all []
