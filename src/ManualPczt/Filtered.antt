-- ===== src/ManualPczt/Filtered.antt =====
-- Lists filtered by the pool, for src/commands/pczt/pay_manual.rs.
use zcash_devtool_sqlx.Base.{
  ℕ, zero, suc, ◌≡◌, ◌⊎◌, refl, ap, ◌∙◌, Bool, true, false, some, List, [], ◌∷◌, ◌++◌,
  if◌then◌else◌, get_elem?, arith, inl, inr,
}
use zcash_devtool_sqlx.Protocol.{PoolType, transparent, shielded, sapling, orchard}
use zcash_devtool_sqlx.ManualPczt.Paying.{same_pool}

pub same_pool_self : (p : PoolType) → same_pool p p ≡ true
same_pool_self transparent = refl
same_pool_self (shielded sapling) = refl
same_pool_self (shielded orchard) = refl

pub pool_cases : (p q : PoolType) → (p ≡ q) ⊎ ((same_pool p q ≡ false) × (same_pool q p ≡ false))
pool_cases transparent transparent = inl refl
pool_cases transparent (shielded sapling) = inr (refl, refl)
pool_cases transparent (shielded orchard) = inr (refl, refl)
pool_cases (shielded sapling) transparent = inr (refl, refl)
pool_cases (shielded sapling) (shielded sapling) = inl refl
pool_cases (shielded sapling) (shielded orchard) = inr (refl, refl)
pool_cases (shielded orchard) transparent = inr (refl, refl)
pool_cases (shielded orchard) (shielded sapling) = inr (refl, refl)
pool_cases (shielded orchard) (shielded orchard) = inl refl

-- A filter by a property.
abbrev pub filtered : {A : Type 0} → (A → Bool) → List A → List A
filtered p [] = []
filtered p (x ∷ xs) = let rest = filtered p xs in if p x then x ∷ rest else rest

if_append :
    {A : Type 0} (b : Bool) (x : A) (xs ys : List A)
    → (if b then x ∷ (xs ++ ys) else xs ++ ys) ≡ (if b then x ∷ xs else xs) ++ ys
if_append true x xs ys = refl
if_append false x xs ys = refl

pub filtered-append :
    {A : Type 0} (p : A → Bool) (xs ys : List A)
    → filtered p (xs ++ ys) ≡ filtered p xs ++ filtered p ys
filtered-append p [] ys = refl
filtered-append p (x ∷ xs) ys =
    ap (λ l. if p x then x ∷ l else l) (filtered-append p xs ys)
    ∙ if_append (p x) x (filtered p xs) (filtered p ys)

pub get_elem?-left :
    {A : Type 0} (xs ys : List A) (n : ℕ) (x : A)
    → get_elem? xs n ≡ some x
    → get_elem? (xs ++ ys) n ≡ some x
get_elem?-left [] ys n x h = ground (arith, h)
get_elem?-left (y ∷ xs) ys zero x h = h
get_elem?-left (y ∷ xs) ys (suc n) x h = get_elem?-left xs ys n x h

pub snoc_append :
    {A : Type 0} (pre : List A) (y : A) (xs : List A) → (pre ++ y ∷ []) ++ xs ≡ pre ++ y ∷ xs
snoc_append [] y xs = refl
snoc_append (x ∷ pre) y xs = ap (λ l. x ∷ l) (snoc_append pre y xs)

pub append_nil : {A : Type 0} (xs : List A) → xs ++ [] ≡ xs
append_nil [] = refl
append_nil (x ∷ xs) = ap (λ l. x ∷ l) (append_nil xs)
