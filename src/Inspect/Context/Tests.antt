-- ===== src/Inspect/Context/Tests.antt =====
-- The theorems on what is read back, at inputs that meet their hypotheses.
use zcash_devtool_sqlx.Base.{
  ℕ, zero, suc, ◌≡◌, ◌≤◌, ◌<◌, refl, List, [], ◌∷◌, map, length, replicate, All, ok, err, codes,
  arith,
}
use zcash_devtool_sqlx.Base.Int.{pos}
use zcash_devtool_sqlx.Inspect.Context.{
  visit_i64, checked_account, to_u32, account_invalid, TxOut, read_uint256, show_uint256,
  write_coin, read_coins,
}
use zcash_devtool_sqlx.Inspect.Context.Trips.{
  HexTrips, Amounts, read-show_uint256, read-write_coins,
}
use zcash_devtool_sqlx.Inspect.Transaction.Sample.{formats}

slices : (l : List ℕ) → formats.decode_to_slice l (length l) ≡ ok l
slices l = ground arith

hex_trips : HexTrips formats
hex_trips = record { decode_encode = λ l h. refl; decode_to_slice_encode = λ l h. slices l }

amounts_ok : (n : ℕ) → n ≤ 2100000000000000 → formats.zatoshis n ≡ ok n
amounts_ok n h = ground arith

abbrev amounts : Amounts formats
amounts = record { max_money = 2100000000000000; zatoshis_ok = amounts_ok }

sevens : (n : ℕ) → All (λ b. b < 256) (replicate n 7)
sevens zero = tt
sevens (suc n) = (omega arith, sevens n)

read-show_uint256_example :
    read_uint256 formats (show_uint256 formats (1 ∷ 2 ∷ replicate 30 7))
    ≡ ok (1 ∷ 2 ∷ replicate 30 7)
read-show_uint256_example =
    read-show_uint256 formats hex_trips (1 ∷ 2 ∷ replicate 30 7) refl
      (omega arith, (omega arith, sevens 30))

abbrev outs : List TxOut
outs = record { value = 5; script_pubkey = 118 ∷ 169 ∷ [] } ∷ []

read-write_coins_example : read_coins formats (map (write_coin formats) outs) ≡ ok outs
read-write_coins_example =
    read-write_coins formats hex_trips amounts outs
      ((omega arith, (omega arith, (omega arith, tt))), tt)

-- An index of an account above the bound.
too_large : visit_i64 formats (pos 2147483648) ≡ err (account_invalid (codes "out of range"))
unfolding visit_i64 checked_account to_u32
too_large = refl
