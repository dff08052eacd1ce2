-- ===== src/Explore/Tests.antt =====
-- The explorer of src/commands/wallet/tree/explore.rs on the sample tree.
use zcash_devtool_sqlx.Base.{
  ℕ, ◌*◌, ◌^◌, ◌<◌, ◌≡◌, refl, Bool, true, false, ◌&&◌, Option, none, some, List, [], ◌∷◌, ok, err,
  ltb, if◌then◌else◌, arith, IfOk,
}
use zcash_devtool_sqlx.Protocol.{sapling}
use zcash_devtool_sqlx.Base.Maps.{lookup, insert, or_insert}
use zcash_devtool_sqlx.Explore.{Node, fetch, new_node, map_found}
use zcash_devtool_sqlx.Explore.Sample.{subtree, four_leaves}
use zcash_devtool_sqlx.Explore.Region.{
  Region, get_region, get_children, get_parent, get_sibling, get_other_parent, other_sibling,
}
use zcash_devtool_sqlx.Explore.Layout.{RegionPlaced, get_region-Placed}
use zcash_devtool_sqlx.Explore.Reload.{Reloaded, reload_region-Reloaded, reload_region-runs_out}
use zcash_devtool_sqlx.Explore.Moves.{down-up}
use zcash_devtool_sqlx.Explore.Shown.{IfDone, IsShown, run-IsShown}
use zcash_devtool_sqlx.Explore.Moving.{
  Outcome, done, panics, out_of_fuel, App, reload_region, run, new, move_through_tree, climb,
  then_do, up, left, right, down_left, down_right, Action, handle, for_event, for_char, pressed,
  char, down_key, quit, tick, move, heights, block_boundaries_of, cache_boundaries,
  set_address_if_valid,
}

abbrev app_at : ℕ × ℕ → Option (Region (Node (ℕ × ℕ) Unit)) → App (ℕ × ℕ) Unit
app_at a region = record {
  should_quit = false;
  pool = sapling;
  address = a;
  block_boundaries = none;
  region = region;
}

region_address : Outcome (App (ℕ × ℕ) Unit) → Option (ℕ × ℕ)
region_address (done app) = elim app.region [ none ↦ none | some region ↦ some region.node.address ]
region_address _ = none

abbrev explored : List Action → ℕ × ℕ → Outcome (App (ℕ × ℕ) Unit)
explored actions a = elim (new four_leaves 40 sapling (some a) false) [
  | ok app ↦ then_do app (run four_leaves 40 actions)
  | err e ↦ panics
]

keys_test :
    (for_event (pressed (char 113)) ≡ some quit)
    × (for_event (pressed down_key) ≡ some (move down_left))
unfolding for_event for_char
keys_test = (refl, refl)

-- Leaf 9 is not there, nor a node above it below level 4.
reload_test : region_address (reload_region four_leaves 40 (app_at (0, 9) none)) ≡ some (4, 0)
unfolding reload_region region_address climb get_region fetch get_children get_parent get_sibling
    get_other_parent other_sibling new_node
reload_test = refl

-- Down, down, right and left stay in the tree; up from the root does not move.
run_test :
    (region_address (
        explored
          (move down_left ∷ move down_right ∷ move right ∷ move right ∷ move left ∷ [])
          (2, 0))
      ≡ some (0, 2))
    × (region_address (explored (move up ∷ []) (32, 0)) ≡ some (32, 0))
unfolding new run handle move_through_tree set_address_if_valid reload_region region_address climb
    get_region fetch get_children get_parent get_sibling get_other_parent other_sibling new_node
run_test = (refl, refl)

get_region-Placed_example :
    IfOk
      (RegionPlaced four_leaves (1, 1) sapling (omega arith))
      (get_region four_leaves sapling (1, 1))
get_region-Placed_example = get_region-Placed four_leaves sapling (1, 1) (omega arith) (omega arith)

reload_region-Reloaded_example :
    Reloaded four_leaves sapling tt
      (32, 0)
      (32, 0)
      refl
      refl
      (λ a. (some a, refl))
      refl
      (app_at (0, 9) none)
      (reload_region four_leaves 33 (app_at (0, 9) none))
      32
reload_region-Reloaded_example =
    reload_region-Reloaded four_leaves sapling tt (32, 0) (32, 0) refl refl (λ a. (_, refl)) refl 32
      33 (app_at (0, 9) none) (omega arith) refl refl (omega arith)

nothing_above : (a : ℕ × ℕ) → 32 < a.0 → subtree (32, 0) a ≡ none
nothing_above a h = ground arith

reload_region-runs_out_example : reload_region four_leaves 222 (app_at (33, 0) none) ≡ out_of_fuel
reload_region-runs_out_example =
    reload_region-runs_out four_leaves sapling tt (32, 0) (32, 0) refl refl (λ a. (_, refl))
      nothing_above 222 (app_at (33, 0) none) refl (omega arith) (omega arith)

abbrev node_at : ℕ × ℕ → Node (ℕ × ℕ) Unit
node_at a = record {
  address = a;
  annotation = none;
  value = none;
  flags = none;
  is_nil = false;
  block_boundary = none;
}

either :
    (b : Bool) (a : ℕ × ℕ)
    → map_found four_leaves (if b then ok (some a) else ok (some a)) ≡ ok (some (node_at a))
unfolding new_node
either true a = refl
either false a = refl

found :
    (a : ℕ × ℕ)
    → (ltb a.0 33 && ltb (a.1 * 2 ^ a.0) 4) ≡ true
    → fetch four_leaves sapling a ≡ ok (some (node_at a))
unfolding fetch new_node
found a h = rw h (either (ltb 16 a.0) a)

down-up_example :
    then_do
      (move_through_tree four_leaves (app_at (2, 0) none) down_right)
      (λ (moved, _). move_through_tree four_leaves moved up)
    ≡ done (app_at (2, 0) none, true)
down-up_example =
    down-up four_leaves (app_at (2, 0) none) false (1, 0) (1, 1) (node_at (2, 0)) (node_at (1, 1))
      (omega arith) refl (found (2, 0) refl) (found (1, 1) refl)

abbrev shown : App (ℕ × ℕ) Unit
shown =
    app_at (2, 0)
      (some
        (record { pool = sapling; node = node_at (2, 0); l = none; r = none; p = none; op = none }))

run-IsShown_example :
    IfDone
      (IsShown four_leaves)
      (run four_leaves 40 (move down_left ∷ move right ∷ tick ∷ quit ∷ []) shown)
run-IsShown_example =
    run-IsShown four_leaves 40 (move down_left ∷ move right ∷ tick ∷ quit ∷ []) shown
      (omega arith, (_, refl, refl))

boundaries_test : cache_boundaries four_leaves sapling ≡ ok ((3, 100) ∷ (5, 103) ∷ [])
unfolding cache_boundaries block_boundaries_of lookup insert or_insert heights
boundaries_test = refl
