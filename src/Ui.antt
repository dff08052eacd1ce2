-- ===== src/Ui.antt =====
-- The text of an amount (src/ui.rs).
pub mod Signs
mod Tests
use zcash_devtool_sqlx.Base.{
  ℕ, zero, suc, ◌+◌, ◌-◌, ◌/◌, ◌%◌, List, [], ◌∷◌, ◌++◌, Text, codes, show_nat, length, replicate,
}
use zcash_devtool_sqlx.Base.Int.{ℤ, pos, negsuc}

abbrev pub coin : ℕ
coin = 1_0000_0000

-- The integers of 64 bits, of which the source has those of at most the supply of coins.
unfoldable pub unsigned_abs : ℤ → ℕ
unsigned_abs (pos n) = n
unsigned_abs (negsuc n) = suc n

-- The negation of a number, which at 0 is 0.
unfoldable pub neg : ℕ → ℤ
neg zero = pos 0
neg (suc n) = negsuc n

-- The number with the sign of another.
unfoldable pub with_sign : ℤ → ℕ → ℤ
with_sign (pos _) n = pos n
with_sign (negsuc _) n = neg n

unfoldable pub show_int : ℤ → Text
show_int (pos n) = show_nat n
show_int (negsuc n) = codes "-" ++ show_nat (suc n)

-- At least the given width, filled at the left.
unfoldable pub pad : ℕ → ℕ → Text → Text
pad fill width s = replicate (width - length s) fill ++ s

unfoldable pub format_zec : ℤ → Text
format_zec value =
    pad 32 3 (show_int (with_sign value (unsigned_abs value / coin)))
    ++ codes "."
    ++ pad 48 8 (show_nat (unsigned_abs value % coin))
    ++ codes " ZEC"
