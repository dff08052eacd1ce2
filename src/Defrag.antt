-- ===== src/Defrag.antt =====
-- The view of the synchronisation (src/commands/wallet/sync/defrag.rs): its state, the actions that
-- change it, and the grid of cells that stand for the blocks.
pub mod Lookup
pub mod Grid
mod Tests
use zcash_devtool_sqlx.Base.{
  ℕ, ◌+◌, ◌-◌, ◌*◌, ◌/◌, ◌%◌, ◌^◌, ◌==◌, min, Bool, true, false, not, ◌&&◌, Option, none, some,
  List, [], ◌∷◌, ◌++◌, if◌then◌else◌, ltb, leb,
}
use zcash_devtool_sqlx.Base.Maps.{insert, or_insert}
use zcash_devtool_sqlx.Protocol.{ScanPriority, ignored, scanned}

abbrev pub Priorities : Type 0
Priorities = List (ℕ × ScanPriority)

-- A range of heights to scan: its start, its end, and its priority.
pub record Range : Type 0 where
  pub start : ℕ
  pub end : ℕ
  pub priority : ScanPriority

-- `sort_by_key` on the start: a stable insertion sort.
unfoldable pub place : Range → List Range → List Range
place r [] = r ∷ []
place r (x ∷ xs) = let rest = place r xs in if leb r.start x.start then r ∷ x ∷ xs else x ∷ rest

unfoldable pub sort : List Range → List Range
sort [] = []
sort (r ∷ rs) = place r (sort rs)

-- The start and the end of each range, in turn; what comes later overwrites.
unfoldable pub collect : ℕ → List Range → Priorities → Priorities
collect mempool_height [] m = m
collect mempool_height (r ∷ rs) m =
    collect mempool_height rs
      (insert (min r.end mempool_height) scanned (insert r.start r.priority m))

unfoldable pub update_scan_ranges : ℕ → List Range → ℕ → Priorities
update_scan_ranges wallet_birthday scan_ranges chain_tip =
    insert (chain_tip + 1) ignored
      (or_insert wallet_birthday scanned (collect (chain_tip + 1) (sort scan_ranges) []))

-- A set of heights.
abbrev pub Heights : Type 0
Heights = ℕ → Bool

pub record App (Summary : Type 0) : Type 0 where
  pub should_quit : Bool
  pub notified : Bool
  pub wallet_birthday : ℕ
  pub wallet_summary : Option Summary
  pub scan_ranges : Priorities
  pub fetching_set : Heights
  pub fetched_set : Heights
  pub scanning_range : Option (ℕ × ℕ)

-- The actions, less those that only draw or concern the log.
pub data Action (Summary : Type 0) : Type 0 where
  quit tick render : Action Summary
  set_scan_ranges : List Range → ℕ → Action Summary
  set_fetching : Option (ℕ × ℕ) → Action Summary
  set_fetched : ℕ → Action Summary
  set_scanning : Option (ℕ × ℕ) → Action Summary
  set_wallet_summary : Option Summary → Action Summary

abbrev pub in_range : Option (ℕ × ℕ) → Heights
in_range none h = false
in_range (some (a, b)) h = leb a h && ltb h b

module _ {Summary : Type 0} where
  unfoldable pub new : ℕ → App Summary
  new wallet_birthday = record {
    should_quit = false;
    notified = false;
    wallet_birthday = wallet_birthday;
    wallet_summary = none;
    scan_ranges = [];
    fetching_set = λ _. false;
    fetched_set = λ _. false;
    scanning_range = none;
  }

  -- One action.
  unfoldable pub handle : Action Summary → App Summary → App Summary
  handle quit app = record app { should_quit = true; notified = true }
  handle tick app = app
  handle render app = app
  handle (set_scan_ranges ranges chain_tip) app = record app {
    scan_ranges = update_scan_ranges app.wallet_birthday ranges chain_tip;
  }
  handle (set_fetching range) app = record app {
    fetching_set = in_range range;
    fetched_set = λ _. false;
  }
  handle (set_fetched height) app = record app {
    fetching_set = λ h. not (h == height) && app.fetching_set h;
    fetched_set = λ h. if h == height then true else app.fetched_set h;
  }
  handle (set_scanning range) app = record app { scanning_range = range }
  handle (set_wallet_summary summary) app = record app { wallet_summary = summary }

  -- The loop, up to the first action to quit.
  unfoldable pub run : List (Action Summary) → App Summary → App Summary
  run [] app = app
  run (action ∷ rest) app =
      let next = handle action app in
      let later = run rest next in if next.should_quit then next else later

-- Unsigned arithmetic of 32 bits.
abbrev pub u32 : ℕ → ℕ
u32 n = n % 2 ^ 32

-- `div_ceil`; the area is not 0, or the program panics.
unfoldable pub div_ceil : ℕ → ℕ → ℕ
div_ceil n area = if n % area == 0 then n / area else n / area + 1

unfoldable pub cell_start : ℕ → ℕ → ℕ → ℕ → ℕ → ℕ
cell_start wallet_birthday blocks_per_cell width i j =
    u32
      (u32 (wallet_birthday + u32 (u32 (blocks_per_cell * width) * j)) + u32 (blocks_per_cell * i))

unfoldable pub cell_end : ℕ → ℕ → ℕ → ℕ → ℕ → ℕ
cell_end wallet_birthday blocks_per_cell width i j =
    u32 (cell_start wallet_birthday blocks_per_cell width i j + blocks_per_cell)
