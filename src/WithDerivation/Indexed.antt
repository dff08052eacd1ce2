-- ===== src/WithDerivation/Indexed.antt =====
-- The updates by index of src/commands/pczt/update_with_derivation.rs, as one pass over the items.
use zcash_devtool_sqlx.Base.{
  ℕ, ◌+◌, ◌≡◌, refl, sym, ap, ◌∙◌, Bool, true, false, List, [], ◌∷◌, ◌++◌, map, if◌then◌else◌,
  arith, Bool-cases, inl, inr, length, length-append,
}
use zcash_devtool_sqlx.WithDerivation.Outcomes.{
  IndexUpdates, Outcome, done, failed, ◌>>=◌, nothing_matched,
}
use zcash_devtool_sqlx.WithDerivation.Inputs.{
  enumerate, filter_index, matching, update_all, if_found, any,
}

-- The items that match are changed, in their places.
abbrev pub changed : {A : Type 0} → (A → Bool) → (A → A) → A → A
changed p f x = if p x then f x else x

snoc_append :
    {A : Type 0} (pre : List A) (y : A) (xs : List A) → (pre ++ y ∷ []) ++ xs ≡ pre ++ y ∷ xs
snoc_append [] y xs = refl
snoc_append (x ∷ pre) y xs = ap (λ l. x ∷ l) (snoc_append pre y xs)

-- What the call gives, when something matches and when nothing does.
abbrev pub if_any : {E A : Type 0} → Bool → A → Outcome E A
if_any true a = done a
if_any false a = failed nothing_matched

found-any :
    {E A B : Type 0} (p : A → Bool) (i : ℕ) (xs : List A) (b : B)
    → if_found {E = E} (filter_index p (enumerate i xs)) b ≡ if_any (any p xs) b
found-any p i [] b = refl
found-any p i (x ∷ xs) b = elim (Bool-cases (p x)) [
  | inl e ↦ rw e refl
  | inr e ↦ rw e (found-any p (i + 1) xs b)
]

pub if_found-any :
    {E A B : Type 0} (p : A → Bool) (xs : List A) (b : B)
    → if_found {E = E} (matching p xs) b ≡ if_any (any p xs) b
unfolding matching
if_found-any p xs b = found-any p 0 xs b

module _ {E A : Type 0} (p : A → Bool) (f : A → A) (g : A → Outcome E A) (u : IndexUpdates E A)
    (sets : (x : A) → g x ≡ done (f x)) where
  update_with-here :
      (pre : List A) (x : A) (xs : List A)
      → u.update_with (length pre) g (pre ++ x ∷ xs) ≡ done (pre ++ f x ∷ xs)
  update_with-here pre x xs =
      u.update_with-at g pre x xs
      ∙ ap (λ (o : Outcome E A). o >>= (λ y. done (pre ++ y ∷ xs))) (sets x)

  rest_at : ℕ → List A → List A → Outcome E (List A)
  rest_at i xs ys = update_all u (filter_index p (enumerate i xs)) g ys

  one_step :
      (pre : List A) (x : A) (xs : List A)
      → ((y : A)
          → rest_at (length pre + 1) xs (pre ++ y ∷ xs) ≡ done (pre ++ y ∷ map (changed p f) xs))
      → rest_at (length pre) (x ∷ xs) (pre ++ x ∷ xs) ≡ done (pre ++ map (changed p f) (x ∷ xs))
  unfolding rest_at update_all
  one_step pre x xs h = elim (Bool-cases (p x)) [
    | inl e ↦ rw e (
        ap
          (λ (o : Outcome E (List A)).
            o >>= update_all u (filter_index p (enumerate (length pre + 1) xs)) g)
          (update_with-here pre x xs)
        ∙ h (f x))
    | inr e ↦ rw e (h x)
  ]

  passes :
      (xs pre : List A) → rest_at (length pre) xs (pre ++ xs) ≡ done (pre ++ map (changed p f) xs)
  unfolding rest_at update_all
  passes [] pre = refl
  passes (x ∷ xs) pre = one_step pre x xs (λ y.
      ap (λ i. rest_at i xs (pre ++ y ∷ xs)) (omega (arith, length-append pre (y ∷ [])))
      ∙ ap (rest_at (length (pre ++ y ∷ [])) xs) (sym (snoc_append pre y xs))
      ∙ passes xs (pre ++ y ∷ [])
      ∙ ap done (snoc_append pre y (map (changed p f) xs)))

  -- The loop over the indexes of what matches changes just these items.
  pub update_all-matching :
      (xs : List A) → update_all u (matching p xs) g xs ≡ done (map (changed p f) xs)
  unfolding matching rest_at
  update_all-matching xs = passes xs []
