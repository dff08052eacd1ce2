-- ===== src/Ui/Signs.antt =====
-- The sign in the text of an amount (src/ui.rs).
use zcash_devtool_sqlx.Base.{ℕ, suc, ◌/◌, ◌%◌, ◌<◌, ◌≡◌, ap, sym, ◌∙◌, arith, codes, show_nat, ◌++◌}
use zcash_devtool_sqlx.Base.Int.{pos, negsuc}
use zcash_devtool_sqlx.Ui.{coin, neg, with_sign, unsigned_abs, show_int, pad, format_zec}

whole_zero : (n : ℕ) → suc n < coin → suc n / coin ≡ 0
whole_zero n h = omega arith

-- A negative amount of less than one coin has the text of the positive amount: the sign is lost.
format_zec-negsuc : (n : ℕ) → suc n < coin → format_zec (negsuc n) ≡ format_zec (pos (suc n))
unfolding format_zec with_sign unsigned_abs neg
format_zec-negsuc n h =
    ap
      (λ z.
        pad 32 3 (show_int z) ++ codes "." ++ pad 48 8 (show_nat (suc n % coin)) ++ codes " ZEC")
      (ap neg (whole_zero n h) ∙ sym (ap pos (whole_zero n h)))
