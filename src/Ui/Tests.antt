-- ===== src/Ui/Tests.antt =====
-- Runs of the formatting of amounts.
use zcash_devtool_sqlx.Base.{◌≡◌, refl, codes}
use zcash_devtool_sqlx.Base.Int.{pos, negsuc}
use zcash_devtool_sqlx.Ui.{format_zec, pad, show_int, with_sign, unsigned_abs, neg}

one_and_a_half : format_zec (pos 150_000_000) ≡ codes "  1.50000000 ZEC"
unfolding format_zec pad show_int with_sign unsigned_abs
one_and_a_half = refl

minus_twelve : format_zec (negsuc 1_200_000_006) ≡ codes "-12.00000007 ZEC"
unfolding format_zec pad show_int with_sign unsigned_abs neg
minus_twelve = refl
