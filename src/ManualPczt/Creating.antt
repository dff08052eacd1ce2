-- ===== src/ManualPczt/Creating.antt =====
-- The amounts of a PCZT that spends all of the given coins (src/commands/pczt/create_manual.rs).
use zcash_devtool_sqlx.Base.{
  ℕ, ◌+◌, ◌≡◌, ◌==◌, ◌⊎◌, inl, inr, refl, ap, Option, none, some, List, [], ◌∷◌, Result, ok, err,
  ◌>>=◌, if◌then◌else◌, ok_or, arith, IfOk, IfOk-ok, IfOk-err, IfOk-then, IfOk-map, IfOk-if,
}

pub data BalanceError : Type 0 where
  balance_overflow balance_underflow : BalanceError
  change_not_supported : ℕ → BalanceError

-- Amounts, a type of the `zcash_protocol` crate: sums and differences are checked.
pub record Zatoshis : Type 0 where
  pub add : ℕ → ℕ → Option ℕ
  pub sub : ℕ → ℕ → Option ℕ
  pub add_lem : (a b s : ℕ) → add a b ≡ some s → s ≡ a + b
  pub sub_lem : (a b d : ℕ) → sub a b ≡ some d → d + b ≡ a

module _ (z : Zatoshis) where
  -- `value_in` over the coins.
  unfoldable pub total : ℕ → List ℕ → Result BalanceError ℕ
  total value_in [] = ok value_in
  total value_in (coin ∷ coins) = do
    next ← ok_or (z.add value_in coin) balance_overflow
    total next coins

  abbrev pub check_value : ℕ → Option ℕ → Result BalanceError ℕ
  check_value value_out none = ok value_out
  check_value value_out (some v) =
      if v == value_out then ok value_out else err (change_not_supported value_out)

  -- What the recipient gets, for the coins, the fee and the amount that the user has given, if any.
  unfoldable pub value_out_of : List ℕ → ℕ → Option ℕ → Result BalanceError ℕ
  value_out_of coins fee value = do
    value_in ← total 0 coins
    value_out ← ok_or (z.sub value_in fee) balance_underflow
    check_value value_out value

  abbrev pub sum : List ℕ → ℕ
  sum [] = 0
  sum (x ∷ xs) = x + sum xs

  ok_or-IfOk : {A : Type 0} (o : Option A) (e : BalanceError) → IfOk (λ a. o ≡ some a) (ok_or o e)
  ok_or-IfOk none e = IfOk-err e
  ok_or-IfOk (some a) e = IfOk-ok a refl

  total-sum :
      (goal value_in : ℕ) (coins : List ℕ)
      → value_in + sum coins ≡ goal
      → IfOk (λ n. n ≡ goal) (total value_in coins)
  unfolding total
  total-sum goal value_in [] h = IfOk-ok _ (omega (arith, h))
  total-sum goal value_in (coin ∷ coins) h =
      IfOk-then _ _ (ok_or-IfOk (z.add value_in coin) balance_overflow)
        (λ next e. total-sum goal next coins (omega (arith, h, z.add_lem value_in coin next e)))

  check_value-same :
      (value_out : ℕ) (value : Option ℕ)
      → IfOk
          (λ v. (v ≡ value_out) × ((value ≡ none) ⊎ (value ≡ some v)))
          (check_value value_out value)
  check_value-same value_out none = IfOk-ok _ (refl, inl refl)
  check_value-same value_out (some v) =
      IfOk-if (v == value_out) _ _
        (λ e. let same : v ≡ value_out = ground (arith, e) in IfOk-ok _ (refl, inr (ap some same)))
        (λ e. IfOk-err _)

  -- What the recipient gets and the fee are together all that the coins have, and it is the amount that
  -- the user has given, if one was given.
  value_out_of-sum :
      (coins : List ℕ) (fee : ℕ) (value : Option ℕ)
      → IfOk
          (λ v. (v + fee ≡ sum coins) × ((value ≡ none) ⊎ (value ≡ some v)))
          (value_out_of coins fee value)
  unfolding value_out_of
  value_out_of-sum coins fee value =
      IfOk-then _ _ (total-sum (sum coins) 0 coins (omega arith)) (λ value_in h.
        IfOk-then _ _ (ok_or-IfOk (z.sub value_in fee) balance_underflow) (λ value_out e.
          IfOk-map (check_value value_out value)
            (λ v (same, given). (omega (arith, same, h, z.sub_lem value_in fee value_out e), given))
            (check_value-same value_out value)))
