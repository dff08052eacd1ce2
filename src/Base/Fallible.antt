-- ===== src/Base/Fallible.antt =====
-- Fallible steps: `Result` of Rust, with the error type first.
use mathlib.Core.Path.{◌≡◌, refl, subst}
use mathlib.Core.Logic.{◌⊎◌, inl, inr}
use mathlib.Core.Bool.{Bool, true, false}
use zcash_devtool_sqlx.Base.Tests.{if◌then◌else◌}
use mathlib.Core.Option.{Option, none, some}
use native.Mathlib.Omega.{arith}

pub data Result {ℓ} (E : Type 0) (A : Type ℓ) : Type ℓ where
  ok : A → Result E A
  err : E → Result E A

infixl 5 ◌>>=◌ ◌>>◌
abbrev pub ◌>>=◌ {ℓ κ} :
    {E : Type 0} {A : Type ℓ} {B : Type κ} → Result E A → (A → Result E B) → Result E B
ok a >>= f = f a
err e >>= f = err e

abbrev pub ◌>>◌ {ℓ} : {E : Type 0} {B : Type ℓ} → Result E (Unit {0}) → Result E B → Result E B
m >> k = m >>= λ _. k

-- `Option::is_some`.
abbrev pub is_some {ℓ} : {A : Type ℓ} → Option A → Bool
is_some none = false
is_some (some _) = true

-- `Option::and_then`.
infixl 5 ◌and_then◌
abbrev pub ◌and_then◌ {ℓ κ} : {A : Type ℓ} {B : Type κ} → Option A → (A → Option B) → Option B
none and_then f = none
some a and_then f = f a

-- A step that gives a value.
abbrev pub Gives {ℓ} : {A : Type ℓ} → Option A → Type ℓ
Gives {A = A} o = (a : A) × (o ≡ some a)

pub and_then-Gives {ℓ κ} :
    {A : Type ℓ} {B : Type κ} (o : Option A) (f : A → Option B)
    → Gives o
    → ((a : A) → Gives (f a))
    → Gives (o and_then f)
and_then-Gives none f (a, h) g = absurd (ground (arith, h))
and_then-Gives (some a) f h g = g a

-- `Option::ok_or`.
abbrev pub ok_or {ℓ} : {E : Type 0} {A : Type ℓ} → Option A → E → Result E A
ok_or none e = err e
ok_or (some a) e = ok a

-- `Result::map_err`.
abbrev pub map_err {ℓ} : {E F : Type 0} {A : Type ℓ} → (E → F) → Result E A → Result F A
map_err f (ok a) = ok a
map_err f (err e) = err (f e)

pub Result-cases {ℓ} :
    {E : Type 0} {A : Type ℓ} (r : Result E A) → ((a : A) × (r ≡ ok a)) ⊎ ((e : E) × (r ≡ err e))
Result-cases (ok a) = inl (a, refl)
Result-cases (err e) = inr (e, refl)

-- A chain that gives a value has its first step give one.
pub bind_ok :
    {E A B : Type 0} (r : Result E A) (f : A → Result E B) (b : B)
    → r >>= f ≡ ok b
    → (a : A) × (r ≡ ok a) × (f a ≡ ok b)
bind_ok (ok a) f b h = (a, refl, h)
bind_ok (err e) f b h = absurd (ground (arith, h))

-- A property of the value, if there is no error.
abbrev pub OkIs : {E A : Type 0} → (A → Type 0) → Result E A → Type 0
OkIs P (ok a) = P a
OkIs P (err e) = Unit

pub record IfOk {E A : Type 0} (P : A → Type 0) (r : Result E A) : Type 0 where
  pub holds : OkIs P r

module _ {E A : Type 0} {P : A → Type 0} where
  pub IfOk-ok : (a : A) → P a → IfOk {E = E} P (ok a)
  IfOk-ok a h = record { holds = h }

  pub IfOk-err : (e : E) → IfOk P (err e)
  IfOk-err e = record { holds = tt }

  pub IfOk-if :
      (b : Bool) (m n : Result E A)
      → (b ≡ true → IfOk P m)
      → (b ≡ false → IfOk P n)
      → IfOk P (if b then m else n)
  IfOk-if true m n h k = h refl
  IfOk-if false m n h k = k refl

  pub IfOk-value : (r : Result E A) (a : A) → IfOk P r → r ≡ ok a → P a
  IfOk-value r a h e = subst (OkIs P) e h.holds

pub IfOk-bind :
    {E A B : Type 0} {P : B → Type 0} (m : Result E A) (f : A → Result E B)
    → ((a : A) → IfOk P (f a))
    → IfOk P (m >>= f)
IfOk-bind (ok a) f h = h a
IfOk-bind (err e) f h = IfOk-err e

pub IfOk-then :
    {E A B : Type 0} {Q : A → Type 0} {P : B → Type 0} (m : Result E A) (f : A → Result E B)
    → IfOk Q m
    → ((a : A) → Q a → IfOk P (f a))
    → IfOk P (m >>= f)
IfOk-then (ok a) f h k = k a h.holds
IfOk-then (err e) f h k = IfOk-err e

-- A step that gives a value.
abbrev pub Succeeds : {E A : Type 0} → Result E A → Type 0
Succeeds {A} r = (a : A) × (r ≡ ok a)

-- A lookup that finds something.
abbrev pub Finds : {E A : Type 0} → Result E (Option A) → Type 0
Finds {A} r = (a : A) × (r ≡ ok (some a))

pub then-Succeeds :
    {E A B : Type 0} (m : Result E A) (f : A → Result E B)
    → Succeeds m
    → ((a : A) → Succeeds (f a))
    → Succeeds (m >>= f)
then-Succeeds (ok a) f h k = k a
then-Succeeds (err e) f (a, h) k = ground (arith, h)

pub then-Finds :
    {E A B : Type 0} (m : Result E A) (f : A → Result E (Option B))
    → Succeeds m
    → ((a : A) → Finds (f a))
    → Finds (m >>= f)
then-Finds (ok a) f h k = k a
then-Finds (err e) f (a, h) k = ground (arith, h)

pub IfOk-map :
    {E A : Type 0} {P Q : A → Type 0} (r : Result E A) → ((a : A) → P a → Q a) → IfOk P r → IfOk Q r
IfOk-map (ok a) f h = IfOk-ok a (f a h.holds)
IfOk-map (err e) f h = IfOk-err e
