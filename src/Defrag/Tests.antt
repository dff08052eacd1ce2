-- ===== src/Defrag/Tests.antt =====
-- Runs of the view of the synchronisation, and its theorems at concrete ranges.
use zcash_devtool_sqlx.Base.{ℕ, ◌+◌, ◌*◌, ◌≤◌, ◌<◌, ◌≡◌, refl, arith, false, some, List, [], ◌∷◌}
use zcash_devtool_sqlx.Protocol.{ignored, scanned, historic, verify}
use zcash_devtool_sqlx.Base.Maps.{lookup, insert, or_insert}
use zcash_devtool_sqlx.Defrag.{
  Range, place, sort, collect, update_scan_ranges, div_ceil, cell_start, cell_end, Action, new, run,
  handle, set_fetching, set_fetched, quit, set_scanning,
}
use zcash_devtool_sqlx.Defrag.Grid.{cell_of_block}

-- Two ranges out of order, with a gap between them.
abbrev ranges : List Range
ranges =
    record { start = 60; end = 200; priority = verify }
    ∷ record { start = 10; end = 40; priority = historic }
    ∷ []

updated :
    update_scan_ranges 5 ranges 99
    ≡ (5, scanned) ∷ (10, historic) ∷ (40, scanned) ∷ (60, verify) ∷ (100, ignored) ∷ []
unfolding update_scan_ranges or_insert insert lookup collect sort place
updated = refl

abbrev session : List (Action ℕ)
session = set_fetching (some (3, 9)) ∷ set_fetched 4 ∷ quit ∷ set_scanning (some (1, 2)) ∷ []

fetched_four : (run session (new 0)).fetching_set 4 ≡ false
unfolding run handle new
fetched_four = refl

cell_of_block_example :
    (i : ℕ) × (j : ℕ) × (i < 4)
    × (j < 3)
    × (cell_start 7 (div_ceil 100 (4 * 3)) 4 i j ≤ 7 + 99)
    × (7 + 99 < cell_end 7 (div_ceil 100 (4 * 3)) 4 i j)
unfolding div_ceil
cell_of_block_example = cell_of_block 7 100 4 3 99 (omega arith) (omega arith) (omega arith)
