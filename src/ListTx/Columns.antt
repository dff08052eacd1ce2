-- ===== src/ListTx/Columns.antt =====
-- The columns of a record.
use mathlib.Core.List.{append_assoc}
use zcash_devtool_sqlx.Base.{
  ℕ, zero, suc, ◌-◌, ◌/◌, ◌%◌, ◌<◌, ◌≡◌, ◌==◌, ◌&&◌, Bool, true, not, refl, ap, ◌∙◌, Option, none,
  some, List, [], ◌∷◌, All, All-append, replicate, length, Text, codes, join, split, split-join,
  numeral, digits_of, digits_of_small, show_nat, arith,
}
use zcash_devtool_sqlx.Base.Int.{pos}
use zcash_devtool_sqlx.Ui.{format_zec, pad, show_int, with_sign, unsigned_abs, coin}
use zcash_devtool_sqlx.ListTx.{WalletTxOutput, WalletTx, Crates}
use zcash_devtool_sqlx.ListTx.Printing.{record_text, shown_account, fee_text, memo_text, header}

-- A text without a comma.
abbrev pub HasNoComma : Text → Type 0
HasNoComma s = All (λ x. ¬ (x ≡ 44)) s

abbrev pub is_comma_free : Text → Bool
is_comma_free [] = true
is_comma_free (x ∷ s) = not (x == 44) && is_comma_free s

-- What a test finds.
pub is_comma_free-HasNoComma : (s : Text) → is_comma_free s ≡ true → HasNoComma s
is_comma_free-HasNoComma [] h = tt
is_comma_free-HasNoComma (x ∷ s) h =
    (λ e. ground (arith, e, h), is_comma_free-HasNoComma s (ground (arith, h)))

numeral-HasNoComma : (ds : List ℕ) → All (λ d. d < 10) ds → HasNoComma (numeral ds)
numeral-HasNoComma [] h = tt
numeral-HasNoComma (d ∷ ds) (a, b) = (λ e. absurd (omega (arith, e)), numeral-HasNoComma ds b)

show_nat-HasNoComma : (n : ℕ) → HasNoComma (show_nat n)
show_nat-HasNoComma n = numeral-HasNoComma (digits_of (suc n) n) (digits_of_small (suc n) n)

replicate-HasNoComma : (n x : ℕ) → ¬ (x ≡ 44) → HasNoComma (replicate n x)
replicate-HasNoComma zero x h = tt
replicate-HasNoComma (suc n) x h = (h, replicate-HasNoComma n x h)

pad-HasNoComma :
    (fill width : ℕ) (s : Text) → ¬ (fill ≡ 44) → HasNoComma s → HasNoComma (pad fill width s)
unfolding pad
pad-HasNoComma fill width s f h =
    All-append _ (replicate (width - length s) fill) s (replicate-HasNoComma _ fill f) h

-- An amount is written without a comma.
format_zec-HasNoComma : (n : ℕ) → HasNoComma (format_zec (pos n))
unfolding format_zec with_sign unsigned_abs show_int
format_zec-HasNoComma n =
    All-append _ _ (codes " ZEC")
      (All-append _ _ (pad 48 8 (show_nat (n % coin)))
        (All-append _ (pad 32 3 (show_nat (n / coin))) (codes ".")
          (pad-HasNoComma 32 3 _ (λ e. absurd (omega (arith, e))) (show_nat-HasNoComma (n / coin)))
          (λ e. absurd (omega (arith, e)), tt))
        (pad-HasNoComma 48 8 _ (λ e. absurd (omega (arith, e))) (show_nat-HasNoComma (n % coin))))
      (is_comma_free-HasNoComma (codes " ZEC") refl)

fee_text-HasNoComma : (fee : Option ℕ) → HasNoComma (fee_text fee)
fee_text-HasNoComma none = tt
fee_text-HasNoComma (some fee) = format_zec-HasNoComma fee

module _ (c : Crates) where
  pub columns : WalletTx → WalletTxOutput → Text → Text → List Text
  columns tx o date action =
      date
      ∷ action
      ∷ codes "ZEC"
      ∷ format_zec (pos o.value)
      ∷ codes "USD"
      ∷ shown_account o.to_account o.from_account
      ∷ []
      ∷ []
      ∷ fee_text tx.fee_paid
      ∷ codes "ZEC"
      ∷ memo_text o.memo
      ∷ []

  record_text-join :
      (tx : WalletTx) (o : WalletTxOutput) (date action : Text)
      → record_text c tx o date action ≡ join 44 (columns tx o date action)
  unfolding record_text columns
  record_text-join tx o date action = simp append_assoc

  -- A record whose date, action, account and memo are without a comma has the columns of the
  -- heading: split at the commas, it gives the eleven values.
  pub record_text-columns :
      (tx : WalletTx) (o : WalletTxOutput) (date action : Text)
      → HasNoComma date
      → HasNoComma action
      → HasNoComma (shown_account o.to_account o.from_account)
      → HasNoComma (memo_text o.memo)
      → (split 44 (record_text c tx o date action) ≡ columns tx o date action)
        × (length (split 44 (record_text c tx o date action)) ≡ length (split 44 header))
  record_text-columns tx o date action hd ha hs hm =
      let e : split 44 (record_text c tx o date action) ≡ columns tx o date action =
        ap (split 44) (record_text-join tx o date action)
        ∙ unfold columns in
          split-join 44 date _ (
            hd,
            (
              ha,
              (
                is_comma_free-HasNoComma (codes "ZEC") refl,
                (
                  format_zec-HasNoComma o.value,
                  (
                    is_comma_free-HasNoComma (codes "USD") refl,
                    (
                      hs,
                      (
                        tt,
                        (
                          tt,
                          (
                            fee_text-HasNoComma tx.fee_paid,
                            (is_comma_free-HasNoComma (codes "ZEC") refl, (hm, tt)),
                          ),
                        ),
                      ),
                    ),
                  ),
                ),
              ),
            ),
          ) in
      (e, ap length e ∙ unfold columns in refl)
