-- ===== src/Base/Texts.antt =====
-- Texts as lists of code points: splitting at a separator, and the standard library's numerals.
use Prim.Native.Char.{code}
use Prim.Native.String.{String}
use Prim.Native.Nat.{ℕ, zero, suc, ◌+◌, ◌-◌, ◌*◌, ◌/◌, ◌%◌, ◌≤◌, ◌<◌}
use mathlib.Core.Path.{◌≡◌, subst, refl, sym, ap, ◌∙◌}
use mathlib.Core.Logic.{◌⊎◌, inl, inr}
use mathlib.Core.Bool.{Bool, true, false, ◌&&◌}
use mathlib.Core.Option.{Option, none, some}
use mathlib.Core.List.{List, [], ◌∷◌, ◌++◌}
use native.Mathlib.Omega.{arith}
use zcash_devtool_sqlx.Base.Tests.{ltb, leb, ◌==◌, if◌then◌else◌, ltb→lt, Bool-cases}
use zcash_devtool_sqlx.Base.Lists.{All, All-append, length, length-append}

abbrev pub Text : Type 0
Text = List ℕ

abbrev pub codes : String → Text
codes String.[] = []
codes (String.◌∷◌ c s) = code c ∷ codes s

abbrev pub same : Text → Text → Bool
same [] [] = true
same [] (_ ∷ _) = false
same (_ ∷ _) [] = false
same (c ∷ s) (d ∷ t) = (c == d) && same s t

-- The rest of a text after a prefix.
abbrev pub strip_prefix : Text → Text → Option Text
strip_prefix [] s = some s
strip_prefix (p ∷ ps) [] = none
strip_prefix (p ∷ ps) (c ∷ s) = let rest = strip_prefix ps s in if p == c then rest else none

abbrev pub cons_last : ℕ → Option (Text × ℕ) → Option (Text × ℕ)
cons_last c none = some ([], c)
cons_last c (some (front, last)) = some (c ∷ front, last)

-- All but the last character, and that.
abbrev pub unsnoc : Text → Option (Text × ℕ)
unsnoc [] = none
unsnoc (c ∷ s) = cons_last c (unsnoc s)

abbrev pub push : ℕ → List Text → List Text
push c [] = (c ∷ []) ∷ []
push c (x ∷ xs) = (c ∷ x) ∷ xs

-- The pieces between the separators.
abbrev pub split : ℕ → Text → List Text
split sep [] = [] ∷ []
split sep (c ∷ s) = let rest = split sep s in if c == sep then [] ∷ rest else push c rest

abbrev pub join : ℕ → List Text → Text
join sep [] = []
join sep (x ∷ []) = x
join sep (x ∷ y ∷ ys) = x ++ sep ∷ join sep (y ∷ ys)

abbrev pub is_digit : ℕ → Bool
is_digit c = leb 48 c && leb c 57

-- Digits read from the left, below a bound.
abbrev pub read_digits : ℕ → ℕ → Text → Option ℕ
read_digits bound acc [] = some acc
read_digits bound acc (c ∷ s) =
    let rest = read_digits bound (acc * 10 + (c - 48)) s in
    if is_digit c && ltb (acc * 10 + (c - 48)) bound then rest else none

-- `parse` of an unsigned integer below the bound; a plus sign may stand before the digits.
abbrev pub parse_uint : ℕ → Text → Option ℕ
parse_uint bound [] = none
parse_uint bound (c ∷ []) = read_digits bound 0 (c ∷ [])
parse_uint bound (c ∷ d ∷ s) =
    if c == 43 then read_digits bound 0 (d ∷ s) else read_digits bound 0 (c ∷ d ∷ s)

-- The value of digits, the leftmost first.
abbrev pub value_of : ℕ → List ℕ → ℕ
value_of acc [] = acc
value_of acc (d ∷ ds) = value_of (acc * 10 + d) ds

abbrev pub numeral : List ℕ → Text
numeral [] = []
numeral (d ∷ ds) = (48 + d) ∷ numeral ds

value_of_le : (acc : ℕ) (ds : List ℕ) → acc ≤ value_of acc ds
value_of_le acc [] = omega arith
value_of_le acc (d ∷ ds) = omega (arith, value_of_le (acc * 10 + d) ds)

read_digits-numeral :
    (bound acc : ℕ) (ds : List ℕ)
    → All (λ d. d < 10) ds
    → value_of acc ds < bound
    → read_digits bound acc (numeral ds) ≡ some (value_of acc ds)
read_digits-numeral bound acc [] h lt = refl
read_digits-numeral bound acc (d ∷ ds) (hd, h) lt =
    ground (arith, value_of_le (acc * 10 + d) ds, read_digits-numeral bound (acc * 10 + d) ds h lt)

-- The decimal digits of a number, given more fuel than the number.
abbrev pub digits_of : ℕ → ℕ → List ℕ
digits_of zero n = []
digits_of (suc fuel) n =
    let high = digits_of fuel (n / 10) in if ltb n 10 then n ∷ [] else high ++ n % 10 ∷ []

abbrev pub show_nat : ℕ → Text
show_nat n = numeral (digits_of (suc n) n)

pub parse_uint-numeral :
    (bound d : ℕ) (ds : List ℕ)
    → All (λ d. d < 10) (d ∷ ds)
    → value_of 0 (d ∷ ds) < bound
    → parse_uint bound (numeral (d ∷ ds)) ≡ some (value_of 0 (d ∷ ds))
parse_uint-numeral bound d [] h lt = read_digits-numeral bound 0 (d ∷ []) h lt
parse_uint-numeral bound d (e ∷ ds) h lt =
    ground (arith, read_digits-numeral bound 0 (d ∷ e ∷ ds) h lt)

split_end : (sep : ℕ) (x : Text) → All (λ c. ¬ (c ≡ sep)) x → split sep x ≡ x ∷ []
split_end sep [] h = refl
split_end sep (c ∷ x) (hc, h) = ground (arith, split_end sep x h)

split_first :
    (sep : ℕ) (x rest : Text)
    → All (λ c. ¬ (c ≡ sep)) x
    → split sep (x ++ sep ∷ rest) ≡ x ∷ split sep rest
split_first sep [] rest h = ground arith
split_first sep (c ∷ x) rest (hc, h) = ground (arith, split_first sep x rest h)

-- Pieces without the separator come back.
pub split-join :
    (sep : ℕ) (x : Text) (xs : List Text)
    → All (All (λ c. ¬ (c ≡ sep))) (x ∷ xs)
    → split sep (join sep (x ∷ xs)) ≡ x ∷ xs
split-join sep x [] (h, _) = split_end sep x h
split-join sep x (y ∷ ys) (h, hs) =
    split_first sep x (join sep (y ∷ ys)) h ∙ ap (λ l. x ∷ l) (split-join sep y ys hs)

value_of-append :
    (acc : ℕ) (ds : List ℕ) (d : ℕ) → value_of acc (ds ++ d ∷ []) ≡ value_of acc ds * 10 + d
value_of-append acc [] d = refl
value_of-append acc (e ∷ ds) d = value_of-append (acc * 10 + e) ds d

digits_of_one : (fuel n : ℕ) → ltb n 10 ≡ true → digits_of (suc fuel) n ≡ n ∷ []
digits_of_one fuel n h = ground (arith, h)

digits_of_more :
    (fuel n : ℕ)
    → ltb n 10 ≡ false
    → digits_of (suc fuel) n ≡ digits_of fuel (n / 10) ++ n % 10 ∷ []
digits_of_more fuel n h = ground (arith, h)

value_of-digits_of : (fuel n : ℕ) → n < fuel → value_of 0 (digits_of fuel n) ≡ n
value_of-digits_of zero n h = absurd (omega arith)
value_of-digits_of (suc fuel) n h = elim (Bool-cases (ltb n 10)) [
  | inl small ↦ ap (value_of 0) (digits_of_one fuel n small) ∙ omega arith
  | inr large ↦
      let big : 10 ≤ n = ground (arith, large) in
      ap (value_of 0) (digits_of_more fuel n large)
      ∙ value_of-append 0 (digits_of fuel (n / 10)) (n % 10)
      ∙ omega (arith, value_of-digits_of fuel (n / 10) (omega arith))
]

pub digits_of_small : (fuel n : ℕ) → All (λ d. d < 10) (digits_of fuel n)
digits_of_small zero n = tt
digits_of_small (suc fuel) n = elim (Bool-cases (ltb n 10)) [
  | inl small ↦ subst (All (λ d. d < 10)) (sym (digits_of_one fuel n small)) (ltb→lt n 10 small, tt)
  | inr large ↦
      subst (All (λ d. d < 10)) (sym (digits_of_more fuel n large))
        (All-append _ _ _ (digits_of_small fuel (n / 10)) (omega arith, tt))
]

length-digits_of : (fuel n : ℕ) → 0 < length (digits_of (suc fuel) n)
length-digits_of fuel n = elim (Bool-cases (ltb n 10)) [
  | inl small ↦ subst (λ l. 0 < length l) (sym (digits_of_one fuel n small)) (omega arith)
  | inr large ↦
      subst (λ l. 0 < length l) (sym (digits_of_more fuel n large))
        (omega (arith, length-append (digits_of fuel (n / 10)) (n % 10 ∷ [])))
]

parse_uint_digits :
    (bound : ℕ) (ds : List ℕ)
    → All (λ d. d < 10) ds
    → 0 < length ds
    → value_of 0 ds < bound
    → parse_uint bound (numeral ds) ≡ some (value_of 0 ds)
parse_uint_digits bound [] h l lt = absurd (omega arith)
parse_uint_digits bound (d ∷ ds) h l lt = parse_uint-numeral bound d ds h lt

-- What `show_nat` writes is read back below any bound above the number.
pub parse_uint-show_nat : (bound n : ℕ) → n < bound → parse_uint bound (show_nat n) ≡ some n
parse_uint-show_nat bound n h =
    let v = value_of-digits_of (suc n) n (omega arith) in
    parse_uint_digits bound (digits_of (suc n) n) (digits_of_small (suc n) n) (length-digits_of n n)
      (omega (arith, v))
    ∙ ap some v

no_char-numeral :
    (sep : ℕ) (ds : List ℕ)
    → (sep < 48) ⊎ (57 < sep)
    → All (λ d. d < 10) ds
    → All (λ c. ¬ (c ≡ sep)) (numeral ds)
no_char-numeral sep [] h k = tt
no_char-numeral sep (d ∷ ds) h (kd, k) = (λ e. ground (arith, e), no_char-numeral sep ds h k)

-- Only digits stand in a number.
pub no_char-show_nat : (sep n : ℕ) → (sep < 48) ⊎ (57 < sep) → All (λ c. ¬ (c ≡ sep)) (show_nat n)
no_char-show_nat sep n h = no_char-numeral sep (digits_of (suc n) n) h (digits_of_small (suc n) n)

length-push : (c : ℕ) (xs : List Text) → 0 < length (push c xs)
length-push c [] = omega arith
length-push c (x ∷ xs) = omega arith

-- There is at least one piece.
pub length-split : (sep : ℕ) (s : Text) → 0 < length (split sep s)
length-split sep [] = omega arith
length-split sep (c ∷ s) = elim (Bool-cases (c == sep)) [
  | inl e ↦ ground (arith, e)
  | inr e ↦ ground (arith, e, length-push c (split sep s))
]
