-- ===== src/Base/Effects/Keeps.antt =====
-- Steps that keep a property of the history, whether they succeed or fail: one rule for each way
-- to build a step.
use mathlib.Core.Bool.{Bool, true, false}
use mathlib.Core.List.{List, ◌∷◌}
use zcash_devtool_sqlx.Base.Tests.{if◌then◌else◌}
use zcash_devtool_sqlx.Base.Fallible.{Result, ok, err}
use zcash_devtool_sqlx.Base.Effects.{Run, ◌>>=◌, pure, raise, lift, ask, see, call, emit}
use zcash_devtool_sqlx.Base.Effects.Ends.{
  Ends, EndsAt, Ends-pure, Ends-raise, Ends-lift, Ends-ask, Ends-see, Ends-call, Ends-emit,
  Ends-bind,
}

pub record Keeps {E V A : Type 0} (P : List V → Type 0) (m : Run E V A) : Type 0 where
  pub at : (t : List V) → P t → Ends (λ _. P) P m t

either_way :
    {E V A : Type 0} (P : List V → Type 0) (p : Result E A × List V) → EndsAt (λ _. P) P p → P p.1
either_way P (ok a, t) h = h
either_way P (err e, t) h = h

module _ {E V A : Type 0} {P : List V → Type 0} where
  -- The property holds of the history in the end.
  pub Keeps-history : {m : Run E V A} → Keeps P m → (t : List V) → P t → P (m t).1
  Keeps-history {m} k t h = either_way P (m t) (k.at t h).at_end

  pub Keeps-pure : (a : A) → Keeps {E = E} P (pure a)
  Keeps-pure a = record { at = λ t h. Ends-pure t a h }

  pub Keeps-raise : (e : E) → Keeps {A = A} P (raise e)
  Keeps-raise e = record { at = λ t h. Ends-raise t e h }

  pub Keeps-lift : (r : Result E A) → Keeps P (lift r)
  Keeps-lift r = record { at = λ t h. Ends-lift t r (λ _ _. h) h }

  pub Keeps-see : (f : List V → A) → Keeps {E = E} P (see f)
  Keeps-see f = record { at = λ t h. Ends-see t f h }

  pub Keeps-ask : (f : List V → Result E A) → Keeps P (ask f)
  Keeps-ask f = record { at = λ t h. Ends-ask t f (λ _ _. h) h }

  pub Keeps-call :
      (f : List V → Result E A) (v : V) → ((t : List V) → P t → P (v ∷ t)) → Keeps P (call f v)
  Keeps-call f v k = record { at = λ t h. Ends-call t f v (λ _ _. k t h) h }

  pub Keeps-if : (b : Bool) (m n : Run E V A) → Keeps P m → Keeps P n → Keeps P (if b then m else n)
  Keeps-if true m n h k = h
  Keeps-if false m n h k = k

pub Keeps-emit :
    {E V : Type 0} {P : List V → Type 0} (v : V)
    → ((t : List V) → P t → P (v ∷ t))
    → Keeps {E = E} P (emit v)
Keeps-emit v k = record { at = λ t h. Ends-emit t v (k t h) }

pub Keeps-bind :
    {E V A B : Type 0} {P : List V → Type 0} (m : Run E V A) (f : A → Run E V B)
    → Keeps P m
    → ((a : A) → Keeps P (f a))
    → Keeps P (m >>= f)
Keeps-bind m f h k = record { at = λ t p. Ends-bind m f t (h.at t p) (λ a t' p'. (k a).at t' p') }

pub ruleset keeps_rules = (
  Keeps-pure, Keeps-raise, Keeps-lift, Keeps-see, Keeps-ask, Keeps-call, Keeps-if, Keeps-emit,
  Keeps-bind,
)
