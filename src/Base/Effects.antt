-- ===== src/Base/Effects.antt =====
-- Steps that answer from the history of effects, add effects to it, and may fail. What was done
-- before a failure stays done, so the history comes back beside an error too.
pub mod Ends
pub mod Keeps
use mathlib.Core.Path.{◌≡◌, refl}
use mathlib.Core.List.{List, ◌∷◌}
use zcash_devtool_sqlx.Base.Fallible.{Result, ok, err}

-- The history has its latest effect first.
abbrev pub Run : Type 0 → Type 0 → Type 0 → Type 0
Run E V A = List V → Result E A × List V

module _ {E V A B : Type 0} where
  abbrev pub continue : Result E A → (A → Run E V B) → Run E V B
  continue (ok a) f t = f a t
  continue (err e) f t = (err e, t)

  infixl 5 ◌>>=◌ ◌>>◌
  unfoldable pub ◌>>=◌ : Run E V A → (A → Run E V B) → Run E V B
  ◌>>=◌ m f t = let (r, t') = m t in continue r f t'

  abbrev pub ◌>>◌ : Run E V A → Run E V B → Run E V B
  m >> k = m >>= λ _. k

module _ {E V A : Type 0} where
  unfoldable pub pure : A → Run E V A
  pure a t = (ok a, t)

  unfoldable pub raise : E → Run E V A
  raise e t = (err e, t)

  unfoldable pub lift : Result E A → Run E V A
  lift r t = (r, t)

  -- A question with no effect.
  unfoldable pub ask : (List V → Result E A) → Run E V A
  ask f t = (f t, t)

  -- A question with no effect and no failure.
  unfoldable pub see : (List V → A) → Run E V A
  see f t = (ok (f t), t)

  -- A call that takes effect only if it succeeds.
  abbrev pub record_ok : Result E A → V → List V → Result E A × List V
  record_ok (ok a) v t = (ok a, v ∷ t)
  record_ok (err e) v t = (err e, t)

  unfoldable pub call : (List V → Result E A) → V → Run E V A
  call f v t = record_ok (f t) v t

-- An effect that cannot fail.
unfoldable pub emit : {E V : Type 0} → V → Run E V (Unit {0})
emit v t = (ok tt, v ∷ t)
