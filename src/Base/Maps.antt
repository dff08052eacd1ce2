-- ===== src/Base/Maps.antt =====
-- Maps from numbers, in the order of the keys, as the standard library's `BTreeMap`.
use Prim.Native.Nat.{ℕ}
use mathlib.Core.Path.{◌≡◌}
use mathlib.Core.Logic.{◌≢◌}
use mathlib.Core.Option.{Option, none, some}
use mathlib.Core.List.{List, [], ◌∷◌}
use native.Mathlib.Omega.{arith}
use zcash_devtool_sqlx.Base.Tests.{ltb, ◌==◌, if◌then◌else◌}

module _ {ℓ} {V : Type ℓ} where
  unfoldable pub insert : ℕ → V → List (ℕ × V) → List (ℕ × V)
  insert k v [] = (k, v) ∷ []
  insert k v ((j, u) ∷ m) =
      let rest = insert k v m in
      if k == j then (k, v) ∷ m else if ltb k j then (k, v) ∷ (j, u) ∷ m else (j, u) ∷ rest

  unfoldable pub lookup : ℕ → List (ℕ × V) → Option V
  lookup k [] = none
  lookup k ((j, u) ∷ m) = let rest = lookup k m in if k == j then some u else rest

  abbrev pub or_some : Option V → V → V
  or_some none v = v
  or_some (some u) v = u

  -- `entry(k).or_insert(v)`.
  unfoldable pub or_insert : ℕ → V → List (ℕ × V) → List (ℕ × V)
  or_insert k v m = insert k (or_some (lookup k m) v) m

  pub lookup-insert : (k : ℕ) (v : V) (m : List (ℕ × V)) → lookup k (insert k v m) ≡ some v
  unfolding lookup insert
  lookup-insert k v [] = ground arith
  lookup-insert k v ((j, u) ∷ m) = ground (arith, lookup-insert k v m)

  pub lookup-insert_other :
      (i k : ℕ) (v : V) (m : List (ℕ × V)) → i ≢ k → lookup i (insert k v m) ≡ lookup i m
  unfolding lookup insert
  lookup-insert_other i k v [] h = ground (arith, h)
  lookup-insert_other i k v ((j, u) ∷ m) h = ground (arith, h, lookup-insert_other i k v m h)
