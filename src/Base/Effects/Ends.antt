-- ===== src/Base/Effects/Ends.antt =====
-- What holds when a step with effects ends: `Q` of its result and the history, or `R` of the
-- history if it fails. There is one rule for each way to build a step.
use mathlib.Core.Path.{◌≡◌, refl}
use mathlib.Core.Bool.{Bool, true, false}
use mathlib.Core.List.{List, ◌∷◌}
use zcash_devtool_sqlx.Base.Tests.{if◌then◌else◌}
use zcash_devtool_sqlx.Base.Fallible.{Result, ok, err}
use zcash_devtool_sqlx.Base.Effects.{Run, ◌>>=◌, pure, raise, lift, ask, see, call, emit}

abbrev pub EndsAt :
    {E V A : Type 0} → (A → List V → Type 0) → (List V → Type 0) → Result E A × List V → Type 0
EndsAt Q R (ok a, t) = Q a t
EndsAt Q R (err e, t) = R t

pub record Ends {E V A : Type 0} (Q : A → List V → Type 0) (R : List V → Type 0) (m : Run E V A)
    (t : List V) : Type 0 where
  pub at_end : EndsAt Q R (m t)

module _ {E V A : Type 0} {Q : A → List V → Type 0} {R : List V → Type 0} (t : List V) where
  pub Ends-pure : (a : A) → Q a t → Ends {E = E} Q R (pure a) t
  unfolding pure
  Ends-pure a h = record { at_end = h }

  pub Ends-raise : (e : E) → R t → Ends {E = E} Q R (raise e) t
  unfolding raise
  Ends-raise e h = record { at_end = h }

  pub Ends-lift : (r : Result E A) → ((a : A) → r ≡ ok a → Q a t) → R t → Ends Q R (lift r) t
  unfolding lift
  Ends-lift (ok a) h k = record { at_end = h a refl }
  Ends-lift (err e) h k = record { at_end = k }

  pub Ends-see : (f : List V → A) → Q (f t) t → Ends {E = E} Q R (see f) t
  unfolding see
  Ends-see f h = record { at_end = h }

  ask_at : (r : Result E A) → ((a : A) → r ≡ ok a → Q a t) → R t → Ends Q R (λ _. (r, t)) t
  ask_at (ok a) h k = record { at_end = h a refl }
  ask_at (err e) h k = record { at_end = k }

  pub Ends-ask :
      (f : List V → Result E A) → ((a : A) → f t ≡ ok a → Q a t) → R t → Ends Q R (ask f) t
  unfolding ask
  Ends-ask f h k = record { at_end = (ask_at (f t) h k).at_end }

  call_at :
      (r : Result E A) (v : V)
      → ((a : A) → r ≡ ok a → Q a (v ∷ t))
      → R t
      → Ends Q R (call (λ _. r) v) t
  unfolding call
  call_at (ok a) v h k = record { at_end = h a refl }
  call_at (err e) v h k = record { at_end = k }

  pub Ends-call :
      (f : List V → Result E A) (v : V)
      → ((a : A) → f t ≡ ok a → Q a (v ∷ t))
      → R t
      → Ends Q R (call f v) t
  unfolding call call_at
  Ends-call f v h k = record { at_end = (call_at (f t) v h k).at_end }

  pub Ends-if :
      (b : Bool) (m n : Run E V A)
      → (b ≡ true → Ends Q R m t)
      → (b ≡ false → Ends Q R n t)
      → Ends Q R (if b then m else n) t
  Ends-if true m n h k = h refl
  Ends-if false m n h k = k refl

pub Ends-emit :
    {E V : Type 0} {Q : Unit {0} → List V → Type 0} {R : List V → Type 0} (t : List V) (v : V)
    → Q tt (v ∷ t)
    → Ends {E = E} Q R (emit v) t
unfolding emit
Ends-emit t v h = record { at_end = h }

module _ {E V A B : Type 0} {P : A → List V → Type 0} {Q : B → List V → Type 0}
    {R : List V → Type 0} where
  bind_at :
      (p : Result E A × List V) (f : A → Run E V B)
      → EndsAt P R p
      → ((a : A) (t : List V) → P a t → Ends Q R (f a) t)
      → EndsAt Q R (◌>>=◌ (λ _. p) f p.1)
  unfolding ◌>>=◌
  bind_at (ok a, t) f h k = (k a t h).at_end
  bind_at (err e, t) f h k = h

  pub Ends-bind :
      (m : Run E V A) (f : A → Run E V B) (t : List V)
      → Ends P R m t
      → ((a : A) (t' : List V) → P a t' → Ends Q R (f a) t')
      → Ends Q R (m >>= f) t
  unfolding ◌>>=◌ bind_at
  Ends-bind m f t h k = record { at_end = bind_at (m t) f h.at_end k }
