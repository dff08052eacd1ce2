-- ===== src/DerivePath/Parse.antt =====
-- What `parse_path` of src/commands/wallet/derive_path.rs reads back.
use zcash_devtool_sqlx.Base.{
  ℕ, ◌+◌, ◌^◌, ◌≤◌, ◌<◌, ◌≡◌, refl, ap, ◌∙◌, Bool, true, false, some, List, [], ◌∷◌, ◌++◌, map, ok,
  arith, All, All-append, Text, codes, unsnoc, cons_last, join, numeral, value_of,
  parse_uint-numeral, split-join,
}
use zcash_devtool_sqlx.DerivePath.{parse_index, parse_split, parse_piece, parse_pieces, parse_path}

-- One step of a path: its index in decimal digits, the first apart, and whether it is hardened.
pub record Piece : Type 0 where
  pub digit : ℕ
  pub digits : List ℕ
  pub hardened : Bool

abbrev pub quoted : Bool → Text → Text
quoted true s = s ++ 39 ∷ []
quoted false s = s

abbrev pub written : Piece → Text
written p = quoted p.hardened (numeral (p.digit ∷ p.digits))

abbrev pub meant : Piece → ℕ × Bool
meant p = (value_of 0 (p.digit ∷ p.digits), p.hardened)

-- The digits are digits, and the index fits in 32 bits.
abbrev pub IsPiece : Piece → Type 0
IsPiece p = All (λ d. d < 10) (p.digit ∷ p.digits) × (value_of 0 (p.digit ∷ p.digits) < 2 ^ 32)

-- The text of a path.
abbrev pub path_text : List Piece → Text
path_text ps = codes "m/" ++ join 47 (map written ps)

unsnoc_quote : (s : Text) → unsnoc (s ++ 39 ∷ []) ≡ some (s, 39)
unsnoc_quote [] = refl
unsnoc_quote (c ∷ s) = ap (cons_last c) (unsnoc_quote s)

unsnoc-numeral :
    (d : ℕ) (ds : List ℕ)
    → (front : Text) × (last : ℕ) × (unsnoc (numeral (d ∷ ds)) ≡ some (front, last)) × (48 ≤ last)
unsnoc-numeral d [] = ([], 48 + d, refl, omega arith)
unsnoc-numeral d (e ∷ ds) =
    let (front, last, eq, h) = unsnoc-numeral e ds in
    ((48 + d) ∷ front, last, ap (cons_last (48 + d)) eq, h)

parse_index-numeral :
    (p : Piece) → IsPiece p → parse_index (numeral (p.digit ∷ p.digits)) p.hardened ≡ ok (meant p)
unfolding parse_index
parse_index-numeral p (h, lt) = rw (parse_uint-numeral (2 ^ 32) p.digit p.digits h lt)

parse_piece-quoted :
    (d : ℕ) (ds : List ℕ) (b : Bool) (i : ℕ × Bool)
    → parse_index (numeral (d ∷ ds)) b ≡ ok i
    → parse_piece (quoted b (numeral (d ∷ ds))) ≡ ok i
unfolding parse_piece
parse_piece-quoted d ds true i e =
    ap (parse_split (numeral (d ∷ ds) ++ 39 ∷ [])) (unsnoc_quote (numeral (d ∷ ds))) ∙ e
parse_piece-quoted d ds false i e =
    let (front, last, eq, h) = unsnoc-numeral d ds in
    ap (parse_split (numeral (d ∷ ds))) eq ∙ ground (arith, e)

parse_pieces-written :
    (ps : List Piece) → All IsPiece ps → parse_pieces (map written ps) ≡ ok (map meant ps)
unfolding parse_pieces
parse_pieces-written [] h = refl
parse_pieces-written (p ∷ ps) (h, hs) = rw (
  parse_piece-quoted p.digit p.digits p.hardened (meant p) (parse_index-numeral p h),
  parse_pieces-written ps hs,
)

no_slash_numeral : (ds : List ℕ) → All (λ c. ¬ (c ≡ 47)) (numeral ds)
no_slash_numeral [] = tt
no_slash_numeral (d ∷ ds) = (λ e. omega (arith, e), no_slash_numeral ds)

no_slash_quoted :
    (b : Bool) (s : Text) → All (λ c. ¬ (c ≡ 47)) s → All (λ c. ¬ (c ≡ 47)) (quoted b s)
no_slash_quoted true s h = All-append _ s (39 ∷ []) h (λ e. omega (arith, e), tt)
no_slash_quoted false s h = h

no_slashes : (ps : List Piece) → All (All (λ c. ¬ (c ≡ 47))) (map written ps)
no_slashes [] = tt
no_slashes (p ∷ ps) =
    (no_slash_quoted p.hardened _ (no_slash_numeral (p.digit ∷ p.digits)), no_slashes ps)

-- A path with at least one step, written as m/, the indices in decimal digits with slashes between
-- them, and a quote after each that is hardened, is read back (given that the indices fit in
-- 32 bits).
pub parse_path-path_text :
    (p : Piece) (ps : List Piece)
    → All IsPiece (p ∷ ps)
    → parse_path (path_text (p ∷ ps)) ≡ ok (map meant (p ∷ ps))
unfolding parse_path
parse_path-path_text p ps h =
    ap parse_pieces (split-join 47 (written p) (map written ps) (no_slashes (p ∷ ps)))
    ∙ parse_pieces-written (p ∷ ps) h
