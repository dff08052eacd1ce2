-- ===== src/WithDerivation/Paths.antt =====
-- The parser of paths in src/commands/pczt/update_with_derivation.rs beside that of the derive-path
-- command (src/commands/wallet/derive_path.rs).
use zcash_devtool_sqlx.Base.{
  ℕ, ◌==◌, ◌^◌, ◌and_then◌, ◌≡◌, refl, sym, ap, ◌∙◌, Bool, true, false, Option, none, some, List,
  [], ◌∷◌, map, Result, ok, err, ◌>>=◌, Text, codes, strip_prefix, unsnoc, split, parse_uint, ok_or,
  All, Bool-cases, inl, inr, arith,
}
use zcash_devtool_sqlx.DerivePath as Derive
use zcash_devtool_sqlx.DerivePath.Parse.{Piece, IsPiece, meant, path_text, parse_path-path_text}
use zcash_devtool_sqlx.WithDerivation.{
  ArgumentError, no_prefix, invalid_index, numbered, strip_suffix, parse_number, parse_numbers,
  parse_path,
}

-- The value, if there is no error.
abbrev pub value : {E A : Type 0} → Result E A → Option A
value (ok a) = some a
value (err e) = none

module _ (child_number : ℕ → Bool → Option ℕ) where
  abbrev pub number_of : ℕ × Bool → Option ℕ
  number_of (index, hardened) = child_number index hardened

  -- The child numbers of the steps of a path, if each has one.
  unfoldable pub numbers_of : List (ℕ × Bool) → Option (List ℕ)
  numbers_of [] = some []
  numbers_of (step ∷ rest) =
      number_of step and_then λ number. numbers_of rest and_then λ more. some (number ∷ more)

  value-ok_or : {A : Type 0} (o : Option A) (e : ArgumentError) → value (ok_or o e) ≡ o
  value-ok_or none e = refl
  value-ok_or (some a) e = refl

  numbered-read :
      (hardened : Bool) (o : Option ℕ)
      → value (numbered child_number hardened o) ≡ (
          value (elim o [ none ↦ err Derive.bad_index | some index ↦ ok (index, hardened) ])
          and_then number_of)
  numbered-read hardened none = refl
  numbered-read hardened (some index) = value-ok_or (child_number index hardened) invalid_index

  numbered-index :
      (s : Text) (hardened : Bool) (o : Option ℕ)
      → parse_uint (2 ^ 32) s ≡ o
      → value (numbered child_number hardened (parse_uint (2 ^ 32) s))
        ≡ (value (Derive.parse_index s hardened) and_then number_of)
  unfolding Derive.parse_index
  numbered-index s hardened o e =
      ap (λ o. value (numbered child_number hardened o)) e
      ∙ numbered-read hardened o
      ∙ sym (
          ap
            (λ o.
              value (elim o [ none ↦ err Derive.bad_index | some index ↦ ok (index, hardened) ])
              and_then number_of)
            e)

  numbered-split :
      (s : Text) (o : Option (Text × ℕ))
      → (let (index, hardened) = strip_suffix child_number s o in
          value (numbered child_number hardened (parse_uint (2 ^ 32) index)))
        ≡ (value (Derive.parse_split s o) and_then number_of)
  numbered-split s none = numbered-index s false _ refl
  numbered-split s (some (front, last)) = elim (Bool-cases (last == 39)) [
    | inl e ↦ rw e (numbered-index front true _ refl)
    | inr e ↦ rw e (numbered-index s false _ refl)
  ]

  parse_number-piece :
      (s : Text)
      → value (parse_number child_number s) ≡ (value (Derive.parse_piece s) and_then number_of)
  unfolding parse_number Derive.parse_piece
  parse_number-piece s = numbered-split s (unsnoc s)

  of_value : {E A : Type 0} (r : Result E A) (a : A) → value r ≡ some a → r ≡ ok a
  of_value (ok b) a h = ap (λ o. elim o [ none ↦ ok b | some x ↦ ok x ]) h
  of_value (err e) a h = ground (arith, h)

  abbrev pub both : Option ℕ → Option (List ℕ) → Option (List ℕ)
  both a b = a and_then λ number. b and_then λ more. some (number ∷ more)

  value-both :
      (r : Result ArgumentError ℕ) (rs : Result ArgumentError (List ℕ))
      → value (r >>= (λ number. rs >>= (λ more. ok (number ∷ more)))) ≡ both (value r) (value rs)
  value-both (err e) rs = refl
  value-both (ok n) (err e) = refl
  value-both (ok n) (ok m) = refl

  both-none : (o : Option ℕ) → none ≡ both o none
  both-none none = refl
  both-none (some n) = refl

  numbers_of-both :
      (q : Result Derive.PathError (ℕ × Bool)) (qs : Result Derive.PathError (List (ℕ × Bool)))
      → (value (q >>= (λ index. qs >>= (λ more. ok (index ∷ more)))) and_then numbers_of)
        ≡ both (value q and_then number_of) (value qs and_then numbers_of)
  unfolding numbers_of
  numbers_of-both (err e) qs = refl
  numbers_of-both (ok i) (err e) = both-none (number_of i)
  numbers_of-both (ok i) (ok m) = refl

  combine :
      (r : Result ArgumentError ℕ) (rs : Result ArgumentError (List ℕ))
      (q : Result Derive.PathError (ℕ × Bool)) (qs : Result Derive.PathError (List (ℕ × Bool)))
      → value r ≡ (value q and_then number_of)
      → value rs ≡ (value qs and_then numbers_of)
      → value (r >>= (λ number. rs >>= (λ more. ok (number ∷ more))))
        ≡ (value (q >>= (λ index. qs >>= (λ more. ok (index ∷ more)))) and_then numbers_of)
  combine r rs q qs h k =
      value-both r rs
      ∙ ap (λ o. both o (value rs)) h
      ∙ ap (both (value q and_then number_of)) k
      ∙ sym (numbers_of-both q qs)

  parse_numbers-pieces :
      (ss : List Text)
      → value (parse_numbers child_number ss) ≡ (value (Derive.parse_pieces ss) and_then numbers_of)
  unfolding parse_numbers Derive.parse_pieces numbers_of
  parse_numbers-pieces [] = refl
  parse_numbers-pieces (s ∷ ss) =
      combine (parse_number child_number s) (parse_numbers child_number ss) (Derive.parse_piece s)
        (Derive.parse_pieces ss) (parse_number-piece s) (parse_numbers-pieces ss)

  from_prefix :
      (o : Option Text)
      → value (ok_or o no_prefix >>= (λ path. parse_numbers child_number (split 47 path))) ≡ (
          value (elim o [
            | none ↦ err Derive.no_prefix
            | some rest ↦ Derive.parse_pieces (split 47 rest)
          ])
          and_then numbers_of)
  from_prefix none = refl
  from_prefix (some path) = parse_numbers-pieces (split 47 path)

  -- The two parsers read the same paths: this command's gives the child numbers of the steps that the
  -- derive-path command's gives, and fails where that fails or a step has no child number.
  pub parse_path-same :
      (s : Text)
      → value (parse_path child_number s) ≡ (value (Derive.parse_path s) and_then numbers_of)
  unfolding parse_path Derive.parse_path
  parse_path-same s = from_prefix (strip_prefix (codes "m/") s)

  -- A path with at least one step, written with decimal digits, slashes and quotes, is read as the child
  -- numbers of its steps (given that the indices fit in 32 bits, and that each has a child number).
  parse_path-numbers :
      (p : Piece) (ps : List Piece) (numbers : List ℕ)
      → All IsPiece (p ∷ ps)
      → numbers_of (map meant (p ∷ ps)) ≡ some numbers
      → parse_path child_number (path_text (p ∷ ps)) ≡ ok numbers
  parse_path-numbers p ps numbers h k = of_value _ numbers (
      parse_path-same (path_text (p ∷ ps))
      ∙ ap (λ r. value r and_then numbers_of) (parse_path-path_text p ps h)
      ∙ k)
