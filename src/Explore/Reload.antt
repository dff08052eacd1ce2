-- ===== src/Explore/Reload.antt =====
-- How far `reload_region` of src/commands/wallet/tree/explore.rs climbs.
use zcash_devtool_sqlx.Base.{
  ℕ, zero, suc, ◌+◌, ◌/◌, ◌^◌, ◌≤◌, ◌<◌, ◌≡◌, refl, sym, ap, ◌∙◌, Option, none, some, ok, arith,
  Succeeds,
}
use zcash_devtool_sqlx.Protocol.{ShieldedProtocol}
use zcash_devtool_sqlx.Explore.{Trees, fetch, map_node, new_node}
use zcash_devtool_sqlx.Explore.Region.{Region, get_region}
use zcash_devtool_sqlx.Explore.Drawing.{N}
use zcash_devtool_sqlx.Explore.Found.{fetch-high, get_region-Succeeds, get_region-Finds}
use zcash_devtool_sqlx.Explore.Moving.{
  Outcome, done, out_of_fuel, climb, at_found, App, reload_region, marked, then_do,
}

module _ (w : Trees) (pool : ShieldedProtocol) where
  open w use {addresses, Error, Cap, LocatedTree, Flags}
  open addresses use {Address, level, index, from_parts}

  -- The parent, a number of times.
  unfoldable pub ancestor : ℕ → Address → Address
  ancestor zero a = a
  ancestor (suc k) a = ancestor k (addresses.parent a)

  halves : (d i : ℕ) → i < 2 ^ suc d → i / 2 < 2 ^ d
  halves d i h = omega arith

  -- What a climb ends with: the nearest address, going up, where there is a region.
  abbrev pub Nearest : Address → Outcome (Region (N w) × Address) → ℕ → Type 0
  Nearest a r d =
      (k : ℕ) × (region : Region (N w)) × (k ≤ d)
      × (r ≡ done (region, ancestor k a))
      × (get_region w pool (ancestor k a) ≡ ok (some region))
      × ((j : ℕ) → j < k → get_region w pool (ancestor j a) ≡ ok none)

  none_below :
      (a : Address) (n : ℕ)
      → get_region w pool a ≡ ok none
      → ((j : ℕ) → j < n → get_region w pool (ancestor j (addresses.parent a)) ≡ ok none)
      → (j : ℕ) → j < suc n
      → get_region w pool (ancestor j a) ≡ ok none
  unfolding ancestor
  none_below a n e before zero l = e
  none_below a n e before (suc j) l = before j (omega arith)

  module _ (cap : Cap) (tree root : LocatedTree) (get_cap_ok : w.get_cap pool ≡ ok cap)
      (cap_tree_ok : w.cap_tree (from_parts 32 0) cap ≡ ok tree)
      (get_shard_ok : (a : Address) → Succeeds (w.get_shard pool a)) where
    climb-up :
        (d fuel : ℕ) (a : Address) (o : Option (Region (N w)))
        → ((a : Address) → level a + d ≡ 32 → index a < 2 ^ d → Nearest a (climb w fuel pool a) d)
        → level a + suc d ≡ 32
        → index a < 2 ^ suc d
        → get_region w pool a ≡ ok o
        → Nearest a (climb w (suc fuel) pool a) (suc d)
    unfolding climb ancestor
    climb-up d fuel a none ih h k e =
        let (n, region, small, found, this, before) =
          ih (addresses.parent a) (omega (arith, addresses.level-parent a (omega arith)))
            (rw (addresses.index-parent a) (halves d (index a) k)) in
        (
          suc n,
          region,
          omega arith,
          ap (at_found w (climb w fuel pool) a) e ∙ found,
          this,
          none_below a n e before,
        )
    climb-up d fuel a (some region) ih h k e = (
      0,
      region,
      omega arith,
      ap (at_found w (climb w fuel pool) a) e,
      e,
      λ j l. absurd (omega arith),
    )

    module _ (root_ok : w.subtree tree (from_parts 32 0) ≡ some root) where
      root-found :
          (a : Address) → level a ≡ 32 → index a ≡ 0 → fetch w pool a ≡ ok (some (new_node w root))
      root-found a h k =
          fetch-high w pool cap tree get_cap_ok cap_tree_ok a (omega arith)
          ∙ ap (λ b. ok (map_node w (w.subtree tree b)))
              (addresses.same_parts a (from_parts 32 0) (h ∙ sym (addresses.level-from_parts 32 0))
                (k ∙ sym (addresses.index-from_parts 32 0)))
          ∙ ap (λ o. ok (map_node w o)) root_ok

      climb-Nearest :
          (d fuel : ℕ) (a : Address)
          → d < fuel
          → level a + d ≡ 32
          → index a < 2 ^ d
          → Nearest a (climb w fuel pool a) d
      unfolding climb ancestor
      climb-Nearest d zero a f h k = absurd (omega arith)
      climb-Nearest zero (suc fuel) a f h k =
          let (region, e) =
            get_region-Finds w pool cap tree get_cap_ok cap_tree_ok get_shard_ok a _
              (root-found a (omega arith) (omega arith)) in
          (
            0,
            region,
            omega arith,
            ap (at_found w (climb w fuel pool) a) e,
            e,
            λ j l. absurd (omega arith),
          )
      climb-Nearest (suc d) (suc fuel) a f h k =
          let (o, e) = get_region-Succeeds w pool cap tree get_cap_ok cap_tree_ok get_shard_ok a in
          climb-up d fuel a o (λ b. climb-Nearest d fuel b (omega arith)) h k e

      -- What is shown after a reload: the region of the nearest address going up from the app's, at most
      -- `d` levels, without another change of the app.
      abbrev pub Reloaded : App Address Flags → Outcome (App Address Flags) → ℕ → Type 0
      Reloaded app r d =
          (k : ℕ) × (region : Region (N w)) × (k ≤ d)
          × (r ≡ done (record app { region = some (marked w app.block_boundaries region) }))
          × (get_region w pool (ancestor k app.address) ≡ ok (some region))
          × ((j : ℕ) → j < k → get_region w pool (ancestor j app.address) ≡ ok none)

      -- In a tree of 32 levels with a root, all of which can be read, `reload_region` returns for each
      -- address of the tree, after at most as many steps up as the address is below level 32, with
      -- the region of the first address on the way up that has one, and the app's address is kept.
      pub reload_region-Reloaded :
          (d fuel : ℕ) (app : App Address Flags)
          → d < fuel
          → app.pool ≡ pool
          → level app.address + d ≡ 32
          → index app.address < 2 ^ d
          → Reloaded app (reload_region w fuel app) d
      unfolding reload_region
      reload_region-Reloaded d fuel app f p h k =
          let (n, region, small, found, this, before) = climb-Nearest d fuel app.address f h k in
          (
            n,
            region,
            small,
            ap
                (λ r. then_do r (λ (region, _).
                  done (record app { region = some (marked w app.block_boundaries region) })))
                (ap (λ q. climb w fuel q app.address) p ∙ found),
            this,
            before,
          )

    -- Above the root of the tree there is nothing, so from there `reload_region` does not stop climbing
    -- before the level passes 255, the largest that a level can be.
    module _ (nothing_above : (a : Address) → 32 < level a → w.subtree tree a ≡ none) where
      nothing-found : (a : Address) → 32 < level a → get_region w pool a ≡ ok none
      unfolding get_region
      nothing-found a h =
          rw (fetch-high w pool cap tree get_cap_ok cap_tree_ok a (omega arith), nothing_above a h)
            refl

      climb-runs_out :
          (fuel : ℕ) (a : Address)
          → 32 < level a
          → level a + fuel ≤ 255
          → climb w fuel pool a ≡ out_of_fuel
      unfolding climb
      climb-runs_out zero a h k = refl
      climb-runs_out (suc fuel) a h k =
          ap (at_found w (climb w fuel pool) a) (nothing-found a h)
          ∙ climb-runs_out fuel (addresses.parent a)
              (omega (arith, addresses.level-parent a (omega arith)))
              (omega (arith, addresses.level-parent a (omega arith)))

      -- Where the trees can be read but nothing is found above level 32, `reload_region` for an address
      -- above that level still climbs when its level has passed from the app's to any up to 255.
      pub reload_region-runs_out :
          (fuel : ℕ) (app : App Address Flags)
          → app.pool ≡ pool
          → 32 < level app.address
          → level app.address + fuel ≤ 255
          → reload_region w fuel app ≡ out_of_fuel
      unfolding reload_region
      reload_region-runs_out fuel app p h k =
          ap
            (λ r. then_do r (λ (region, _).
              done (record app { region = some (marked w app.block_boundaries region) })))
            (ap (λ q. climb w fuel q app.address) p ∙ climb-runs_out fuel app.address h k)
