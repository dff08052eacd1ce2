-- ===== src/Block/Report/Clean.antt =====
-- Reports without a warning.
use zcash_devtool_sqlx.Base.{
  suc, ◌≡◌, ◌↔◌, refl, ap, Bool, true, false, List, [], ◌∷◌, ◌++◌, map, Result, ok, err,
  if◌then◌else◌, length, All, arith,
}
use zcash_devtool_sqlx.Block.Report.{
  Line, block_hash, block_version, version_too_low, invalid_solution, high_hash, add_network,
  missing_coinbase, transaction_count, first_not_coinbase, block_height, no_height, extra_coinbase,
  bad_merkle_root, malleable, expiry_mismatch, bad_commitments, not_null_at_heartwood,
  bad_history_root, add_history_root, error_line,
}

-- The lines that the source marks with a warning sign; the others state facts or give hints.
unfoldable pub is_warning : {Hash : Type 0} → Line Hash → Bool
is_warning (block_hash _) = false
is_warning (block_version _) = false
is_warning version_too_low = true
is_warning (invalid_solution _) = true
is_warning (high_hash _) = true
is_warning add_network = false
is_warning missing_coinbase = true
is_warning (transaction_count _) = false
is_warning first_not_coinbase = true
is_warning (block_height _) = false
is_warning no_height = true
is_warning (extra_coinbase _) = true
is_warning (bad_merkle_root _ _) = true
is_warning malleable = true
is_warning (expiry_mismatch _ _) = true
is_warning (bad_commitments _ _ _ _) = true
is_warning not_null_at_heartwood = true
is_warning (bad_history_root _ _) = true
is_warning add_history_root = false

unfoldable pub HasNoWarning : {Hash : Type 0} → List (Line Hash) → Type 0
HasNoWarning lines = All (λ l. is_warning l ≡ false) lines

pub both_iff : {A B C D : Type 0} → A ↔ B → C ↔ D → (A × C) ↔ (B × D)
both_iff (f, g) (h, k) = (λ (a, c). (f a, h c), λ (b, d). (g b, k d))

pub trans_iff : {A B C : Type 0} → A ↔ B → B ↔ C → A ↔ C
trans_iff (f, g) (h, k) = (λ a. h (f a), λ c. g (k c))

pub length-map : {A B : Type 0} (f : A → B) (l : List A) → length (map f l) ≡ length l
length-map f [] = refl
length-map f (x ∷ l) = ap suc (length-map f l)

module _ {Hash : Type 0} where
  pub append_clean :
      (l r : List (Line Hash)) → HasNoWarning (l ++ r) ↔ (HasNoWarning l × HasNoWarning r)
  unfolding HasNoWarning
  append_clean [] r = (λ h. (tt, h), λ (_, h). h)
  append_clean (x ∷ l) r =
      let (f, g) = append_clean l r in
      (λ (a, h). let (b, c) = f h in ((a, b), c), λ ((a, b), c). (a, g (b, c)))

  pub note_clean :
      (x : Line Hash) (l : List (Line Hash))
      → is_warning x ≡ false
      → HasNoWarning (x ∷ l) ↔ HasNoWarning l
  unfolding HasNoWarning
  note_clean x l n = (λ (_, h). h, λ h. (n, h))

  pub unless_clean :
      (b : Bool) (x : Line Hash)
      → is_warning x ≡ true
      → HasNoWarning (if b then [] else x ∷ []) ↔ (b ≡ true)
  unfolding HasNoWarning
  unless_clean true x w = (λ _. refl, λ _. tt)
  unless_clean false x w =
      (λ (h, _). absurd (ground (arith, w, h)), λ h. absurd (ground (arith, h)))

  pub when_clean :
      (b : Bool) (x : Line Hash)
      → is_warning x ≡ true
      → HasNoWarning (if b then x ∷ [] else []) ↔ (b ≡ false)
  unfolding HasNoWarning
  when_clean false x w = (λ _. refl, λ _. tt)
  when_clean true x w = (λ (h, _). absurd (ground (arith, w, h)), λ h. absurd (ground (arith, h)))

  pub error_clean :
      {E : Type 0} (f : E → Line Hash) (r : Result E (Unit {0}))
      → ((e : E) → is_warning (f e) ≡ true)
      → HasNoWarning (error_line f r) ↔ (r ≡ ok tt)
  unfolding HasNoWarning
  error_clean f (ok tt) w = (λ _. refl, λ _. tt)
  error_clean f (err e) w =
      (λ (h, _). absurd (ground (arith, w e, h)), λ h. absurd (ground (arith, h)))

  -- The five parts of a report, of which the first has two rules.
  pub five_clean :
      {A B C D F G : Type 0} (l₁ l₂ l₃ l₄ l₅ : List (Line Hash))
      → HasNoWarning l₁ ↔ (A × B)
      → HasNoWarning l₂ ↔ C
      → HasNoWarning l₃ ↔ D
      → HasNoWarning l₄ ↔ F
      → HasNoWarning l₅ ↔ G
      → HasNoWarning (l₁ ++ l₂ ++ l₃ ++ l₄ ++ l₅) ↔ (A × B × C × D × F × G)
  five_clean l₁ l₂ l₃ l₄ l₅ i₁ i₂ i₃ i₄ i₅ =
      let all = trans_iff (append_clean (l₁ ++ l₂ ++ l₃ ++ l₄) l₅) (
        both_iff
          (trans_iff (append_clean (l₁ ++ l₂ ++ l₃) l₄) (
            both_iff
              (trans_iff (append_clean (l₁ ++ l₂) l₃)
                (both_iff (trans_iff (append_clean l₁ l₂) (both_iff i₁ i₂)) i₃))
              i₄))
          i₅) in
      (
        λ h. let (((((a, b), c), d), f), g) = all.0 h in (a, b, c, d, f, g),
        λ (a, b, c, d, f, g). all.1 (((((a, b), c), d), f), g),
      )
