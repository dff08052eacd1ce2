-- ===== src/WithDerivation/Updated.antt =====
-- What src/commands/pczt/update_with_derivation.rs changes in a PCZT.
use zcash_devtool_sqlx.Base.{
  ℕ, zero, suc, ◌≡◌, refl, sym, ap, subst, ◌∙◌, Bool, true, false, Option, none, some, List, [],
  ◌∷◌, map, Result, ok, err, inl, inr, length, ◌++◌, ◌≤◌, ◌⊎◌, arith,
}
use zcash_devtool_sqlx.WithDerivation.{ArgumentError}
use zcash_devtool_sqlx.WithDerivation.Crates.{Crates, ShieldedPool}
use zcash_devtool_sqlx.WithDerivation.Outcomes.{
  IndexUpdates, Outcome, done, failed, panicked, ◌>>=◌, lift, expect, Failure,
}
use zcash_devtool_sqlx.WithDerivation.Inputs.{
  matching, update_all, if_found, any, uses, set_input, add_transparent, is_received, set_spend,
  add_spends,
}
use zcash_devtool_sqlx.WithDerivation.Indexed.{changed, if_any, if_found-any, update_all-matching}
use zcash_devtool_sqlx.WithDerivation.Running.{parsed, expected}

-- What a call returns has a property, if it returns.
abbrev pub IfDone : {E A : Type 0} → (A → Type 0) → Outcome E A → Type 0
IfDone P (done a) = P a
IfDone P (failed e) = Unit
IfDone P panicked = Unit

pub weaken :
    {E A : Type 0} (P Q : A → Type 0)
    → ((a : A) → P a → Q a)
    → (o : Outcome E A) → IfDone P o
    → IfDone Q o
weaken P Q f (done a) h = f a h
weaken P Q f (failed e) h = tt
weaken P Q f panicked h = tt

module _ {E A B : Type 0} (P : B → Type 0) (f : A → Outcome E B) where
  pub IfDone-given :
      (Q : A → Type 0) (o : Outcome E A)
      → IfDone Q o
      → ((a : A) → Q a → IfDone P (f a))
      → IfDone P (o >>= f)
  IfDone-given Q (done a) q h = h a q
  IfDone-given Q (failed e) q h = tt
  IfDone-given Q panicked q h = tt

  pub IfDone-lift :
      (r : Result E A) → ((a : A) → r ≡ ok a → IfDone P (f a)) → IfDone P (lift r >>= f)
  IfDone-lift (ok a) h = h a refl
  IfDone-lift (err e) h = tt

  pub IfDone-parsed :
      (r : Result ArgumentError A)
      → ((a : A) → r ≡ ok a → IfDone P (f a))
      → IfDone P (parsed r >>= f)
  IfDone-parsed (ok a) h = h a refl
  IfDone-parsed (err e) h = tt

  pub IfDone-expected :
      (e : Failure E) (o : Option A)
      → ((a : A) → o ≡ some a → IfDone P (f a))
      → IfDone P (expected e o >>= f)
  IfDone-expected e none h = tt
  IfDone-expected e (some a) h = h a refl

-- An index into a list, or beyond its end.
index_cases :
    {A : Type 0} (i : ℕ) (xs : List A)
    → ((pre : List A) × (x : A) × (post : List A) × (xs ≡ pre ++ x ∷ post) × (i ≡ length pre))
      ⊎ (length xs ≤ i)
index_cases i [] = inr (omega arith)
index_cases zero (x ∷ xs) = inl ([], x, xs, refl, refl)
index_cases (suc i) (x ∷ xs) = elim (index_cases i xs) [
  | inl (pre, y, post, e, h) ↦ inl (x ∷ pre, y, post, ap (λ l. x ∷ l) e, ap suc h)
  | inr h ↦ inr (omega arith)
]

-- An update that panics for each item returns nowhere.
module _ {E A : Type 0} (u : IndexUpdates E A) (g : A → Outcome E A)
    (stops : (x : A) → g x ≡ panicked) where
  stops_at : (i : ℕ) (xs : List A) → IfDone (λ _. ⊥) (u.update_with i g xs)
  stops_at i xs = elim (index_cases i xs) [
    | inl (pre, x, post, e, h) ↦ rw (e, h, u.update_with-at g pre x post, stops x) tt
    | inr h ↦ rw (u.update_with-beyond g i xs h) tt
  ]

  stops_through :
      {B C : Type 0} (P : C → Type 0) (o : Outcome E B) (f : B → Outcome E B) (h : B → Outcome E C)
      → IfDone (λ _. ⊥) o
      → IfDone P (o >>= f >>= h)
  stops_through P (done a) f h k = absurd k
  stops_through P (failed e) f h k = tt
  stops_through P panicked f h k = tt

  stops_all :
      {B : Type 0} (P : B → Type 0) (is : List ℕ) (xs : List A) (k : List A → B)
      → IfDone P (update_all u is g xs >>= (λ ys. if_found is (k ys)))
  unfolding update_all
  stops_all P [] xs k = tt
  stops_all P (i ∷ is) xs k = stops_through P (u.update_with i g xs) _ _ (stops_at i xs)

IfDone-if_any :
    {E A : Type 0} (P : A → Type 0) (b : Bool) (a : A) (o : Outcome E A)
    → o ≡ if_any b a
    → (b ≡ true → P a)
    → IfDone P o
IfDone-if_any P true a o e h = subst (IfDone P) (sym e) (h refl)
IfDone-if_any P false a o e h = subst (IfDone P) (sym e) tt

-- The search and the update, where each update makes a copy of the derivation first.
module _ {E A D B : Type 0} (u : IndexUpdates E A) (P : B → Type 0) (p : A → Bool) (set : D → A → A)
    (k : List A → B) (xs : List A) (g : A → Outcome E A) where
  pub copied :
      (parse : Result E D)
      → ((x : A) → g x ≡ (expect parse >>= (λ copy. done (set copy x))))
      → ((copy : D) → parse ≡ ok copy → any p xs ≡ true → P (k (map (changed p (set copy)) xs)))
      → IfDone P (update_all u (matching p xs) g xs >>= (λ ys. if_found (matching p xs) (k ys)))
  copied (ok copy) e h =
      IfDone-if_any P (any p xs) (k (map (changed p (set copy)) xs)) _
        (ap (λ o. o >>= (λ ys. if_found (matching p xs) (k ys)))
            (update_all-matching p (set copy) g u e xs)
          ∙ if_found-any p xs _)
        (h copy refl)
  copied (err error) e h = stops_all u g e P (matching p xs) xs k

module _ (c : Crates) where
  open c use {Error, Pczt, Input, Pubkey, Bip32Derivation}

  abbrev pub with_derivation : Pubkey → Bip32Derivation → Input → Input
  with_derivation pubkey copy =
      changed (uses c pubkey) (λ i. c.set_bip32_derivation i (c.serialize pubkey) copy)

  -- `add_transparent` sets the derivation at each input whose script uses the key, leaves the others,
  -- and fails where there is none (given that the parts of the derivation make a derivation again).
  pub add_transparent-changed :
      (pczt : Pczt) (pubkey : Pubkey) (derivation copy : Bip32Derivation) (inputs : List Input)
      → c.parse_derivation (c.seed_fingerprint derivation) (c.derivation_path derivation) ≡ ok copy
      → c.inputs pczt ≡ ok inputs
      → add_transparent c pczt pubkey derivation
        ≡ if_any
            (any (uses c pubkey) inputs)
            (c.with_inputs pczt (map (with_derivation pubkey copy) inputs))
  unfolding add_transparent set_input
  add_transparent-changed pczt pubkey derivation copy inputs h k =
      rw
        (
          k,
          update_all-matching (uses c pubkey)
              (λ i. c.set_bip32_derivation i (c.serialize pubkey) copy)
              (set_input c pubkey derivation) c.input_updates (λ x. rw h refl) inputs,
        )
        (if_found-any (uses c pubkey) inputs _)

  module _ (pool : ShieldedPool Error Pczt c.Fingerprint) where
    open pool use {Spend, Key, Derivation}

    abbrev pub with_zip32 : Key → Derivation → Spend → Spend
    with_zip32 key copy = changed (is_received c pool key) (λ s. pool.set_derivation s copy)

    -- `add_sapling` and `add_orchard` set the derivation at each spend whose recipient belongs to the key,
    -- leave the others, and fail where there is none (given that the parts of the derivation make a
    -- derivation again).
    pub add_spends-changed :
        (pczt : Pczt) (key : Key) (derivation copy : Derivation) (spends : List Spend)
        → pool.parse_derivation (pool.seed_fingerprint derivation) (pool.derivation_path derivation)
          ≡ ok copy
        → pool.spends pczt ≡ ok spends
        → add_spends c pool pczt key derivation
          ≡ if_any
              (any (is_received c pool key) spends)
              (pool.with_spends pczt (map (with_zip32 key copy) spends))
    unfolding add_spends set_spend
    add_spends-changed pczt key derivation copy spends h k =
        rw
          (
            k,
            update_all-matching (is_received c pool key) (λ s. pool.set_derivation s copy)
                (set_spend c pool derivation) pool.spend_updates (λ x. rw h refl) spends,
          )
          (if_found-any (is_received c pool key) spends _)
