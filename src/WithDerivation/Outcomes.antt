-- ===== src/WithDerivation/Outcomes.antt =====
-- How the calls of src/commands/pczt/update_with_derivation.rs end, and the updates by index that the
-- `pczt` crate makes.
use zcash_devtool_sqlx.Base.{ℕ, ◌≡◌, ◌≤◌, List, ◌∷◌, ◌++◌, Result, ok, err, length}
use zcash_devtool_sqlx.WithDerivation.{ArgumentError}

pub data Failure (E : Type 0) : Type 0 where
  argument : ArgumentError → Failure E
  crate_error : E → Failure E
  no_seed invalid_seed invalid_index not_bip_44 not_zip_32 nothing_matched : Failure E

-- A call returns, fails or panics.
pub data Outcome (E A : Type 0) : Type 0 where
  done : A → Outcome E A
  failed : Failure E → Outcome E A
  panicked : Outcome E A

infixl 5 ◌>>=◌
abbrev pub ◌>>=◌ : {E A B : Type 0} → Outcome E A → (A → Outcome E B) → Outcome E B
done a >>= f = f a
failed e >>= f = failed e
panicked >>= f = panicked

abbrev pub lift : {E A : Type 0} → Result E A → Outcome E A
lift (ok a) = done a
lift (err e) = failed (crate_error e)

-- `expect`.
abbrev pub expect : {E A : Type 0} → Result E A → Outcome E A
expect (ok a) = done a
expect (err e) = panicked

-- `update_input_with` and its like, with what the crate documents: the item at the index is updated,
-- and an index out of range is an error.
pub record IndexUpdates (E A : Type 0) : Type 0 where
  pub update_with : ℕ → (A → Outcome E A) → List A → Outcome E (List A)
  pub update_with-at :
      (f : A → Outcome E A) (pre : List A) (x : A) (xs : List A)
      → update_with (length pre) f (pre ++ x ∷ xs) ≡ (f x >>= (λ y. done (pre ++ y ∷ xs)))
  pub update_with-beyond :
      (f : A → Outcome E A) (i : ℕ) (xs : List A)
      → length xs ≤ i
      → update_with i f xs ≡ failed invalid_index
