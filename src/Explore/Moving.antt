-- ===== src/Explore/Moving.antt =====
-- The state of the explorer and its moves (`App` in src/commands/wallet/tree/explore.rs).
use zcash_devtool_sqlx.Base.{
  ℕ, zero, suc, Bool, true, false, Option, none, some, List, [], ◌∷◌, Result, ok, err, ltb,
  if◌then◌else◌, ◌+◌, ◌-◌, ◌==◌, ◌>>=◌,
}
use zcash_devtool_sqlx.Base.Maps.{lookup, or_insert}
use zcash_devtool_sqlx.Protocol.{ShieldedProtocol}
use zcash_devtool_sqlx.Explore.{Trees, FetchError, Node, fetch, shard_root_level}
use zcash_devtool_sqlx.Explore.Region.{Region, get_region}
use zcash_devtool_sqlx.Explore.Drawing.{N, add_block_boundaries}

pub data Direction : Type 0 where
  up left right down_left down_right : Direction

pub data Action : Type 0 where
  quit tick render : Action
  move : Direction → Action

-- The keys that the program names, of `crossterm`.
pub data KeyCode : Type 0 where
  char : ℕ → KeyCode
  up_key left_key right_key down_key other_key : KeyCode

-- The events of the terminal, less what the explorer does not read in them.
pub data Event : Type 0 where
  init error tick render focus_gained focus_lost paste mouse resize : Event
  pressed : KeyCode → Event

unfoldable pub for_char : ℕ → Option Action
for_char c =
    if c == 113
    then some quit
    else if c == 119
    then some (move up)
    else if c == 97
    then some (move left)
    else if c == 100
    then some (move right)
    else if c == 122
    then some (move down_left)
    else if c == 120
    then some (move down_right)
    else none

unfoldable pub for_event : Event → Option Action
for_event tick = some tick
for_event render = some render
for_event (pressed (char c)) = for_char c
for_event (pressed up_key) = some (move up)
for_event (pressed left_key) = some (move left)
for_event (pressed right_key) = some (move right)
for_event (pressed down_key) = some (move down_left)
for_event _ = none

-- A call returns, panics, or is still climbing when the fuel is used up.
pub data Outcome (A : Type 0) : Type 0 where
  done : A → Outcome A
  panics out_of_fuel : Outcome A

abbrev pub then_do : {A B : Type 0} → Outcome A → (A → Outcome B) → Outcome B
then_do (done a) f = f a
then_do panics f = panics
then_do out_of_fuel f = out_of_fuel

pub record App (A F : Type 0) : Type 0 where
  pub should_quit : Bool
  pub pool : ShieldedProtocol
  pub address : A
  pub block_boundaries : Option (List (ℕ × ℕ))
  pub region : Option (Region (Node A F))

-- Why there are no block boundaries.
pub data BoundaryError (E : Type 0) : Type 0 where
  storage : E → BoundaryError E
  tree_is_empty : BoundaryError E

abbrev pub lift_storage : {E A : Type 0} → Result E A → Result (BoundaryError E) A
lift_storage (ok a) = ok a
lift_storage (err e) = err (storage e)

abbrev pub scanned_range : {E : Type 0} → Option ℕ → Option ℕ → Result (BoundaryError E) (ℕ × ℕ)
scanned_range (some birthday_height) (some max_scanned) = ok (birthday_height, max_scanned)
scanned_range _ _ = err tree_is_empty

-- That many heights, from one on.
unfoldable pub heights : ℕ → ℕ → List ℕ
heights start zero = []
heights start (suc count) = start ∷ heights (start + 1) count

abbrev pub record_size : ℕ → Option (Option ℕ) → List (ℕ × ℕ) → List (ℕ × ℕ)
record_size height (some (some key)) m = or_insert key height m
record_size height _ m = m

module _ (w : Trees) where
  open w use {addresses, Error, Flags}
  open addresses use {Address, level, index, from_parts}

  abbrev pub at_found :
      (Address → Outcome (Region (N w) × Address))
      → Address
      → Result (FetchError Error Address) (Option (Region (N w)))
      → Outcome (Region (N w) × Address)
  at_found again address (err e) = panics
  at_found again address (ok none) = again (addresses.parent address)
  at_found again address (ok (some region)) = done (region, address)

  -- The loop of `reload_region`: up to an address that there is, and its region.
  unfoldable pub climb : ℕ → ShieldedProtocol → Address → Outcome (Region (N w) × Address)
  climb zero pool address = out_of_fuel
  climb (suc fuel) pool address = at_found (climb fuel pool) address (get_region w pool address)

  abbrev pub marked : Option (List (ℕ × ℕ)) → Region (N w) → Region (N w)
  marked none region = region
  marked (some boundaries) region = add_block_boundaries w (λ k. lookup k boundaries) region

  -- The address stays, also where the region is that of an ancestor.
  unfoldable pub reload_region : ℕ → App Address Flags → Outcome (App Address Flags)
  reload_region fuel app =
      then_do (climb fuel app.pool app.address)
        (λ (region, _). done (record app { region = some (marked app.block_boundaries region) }))

  abbrev pub at_node :
      App Address Flags
      → Address
      → Result (FetchError Error Address) (Option (N w))
      → Outcome (App Address Flags × Bool)
  at_node app address (err e) = panics
  at_node app address (ok none) = done (app, false)
  at_node app address (ok (some node)) =
      if addresses.same_address address node.address
      then done (record app { address = node.address }, true)
      else panics

  unfoldable pub set_address_if_valid :
      App Address Flags → Address → Outcome (App Address Flags × Bool)
  set_address_if_valid app address = at_node app address (fetch w app.pool address)

  abbrev pub to_child :
      App Address Flags
      → (Address × Address → Address)
      → Option (Address × Address)
      → Outcome (App Address Flags × Bool)
  to_child app which none = done (app, false)
  to_child app which (some pair) = set_address_if_valid app (which pair)

  unfoldable pub move_through_tree :
      App Address Flags → Direction → Outcome (App Address Flags × Bool)
  move_through_tree app up =
      if ltb (level app.address) 32
      then set_address_if_valid app (addresses.parent app.address)
      else done (app, false)
  move_through_tree app left =
      set_address_if_valid app (from_parts (level app.address) (index app.address - 1))
  move_through_tree app right = set_address_if_valid app (addresses.next_at_level app.address)
  move_through_tree app down_left = to_child app (λ p. p.0) (addresses.children app.address)
  move_through_tree app down_right = to_child app (λ p. p.1) (addresses.children app.address)

  abbrev pub after_move : ℕ → App Address Flags × Bool → Outcome (App Address Flags)
  after_move fuel (app, moved) = if moved then reload_region fuel app else done app

  unfoldable pub handle : ℕ → Action → App Address Flags → Outcome (App Address Flags)
  handle fuel quit app = done (record app { should_quit = true })
  handle fuel tick app = done app
  handle fuel render app = done app
  handle fuel (move direction) app = then_do (move_through_tree app direction) (after_move fuel)

  -- The loop, up to the first action to quit.
  unfoldable pub run : ℕ → List Action → App Address Flags → Outcome (App Address Flags)
  run fuel [] app = done app
  run fuel (action ∷ rest) app =
      then_do (handle fuel action app)
        (λ next. if next.should_quit then done next else run fuel rest next)

  abbrev pub start_address : Option Address → Address
  start_address none = addresses.above_position shard_root_level 0
  start_address (some address) = address

  unfoldable pub block_boundaries_of :
      ShieldedProtocol → List ℕ → List (ℕ × ℕ) → Result Error (List (ℕ × ℕ))
  block_boundaries_of pool [] m = ok m
  block_boundaries_of pool (height ∷ rest) m = do
    size ← w.tree_size pool height
    block_boundaries_of pool rest (record_size height size m)

  unfoldable pub cache_boundaries : ShieldedProtocol → Result (BoundaryError Error) (List (ℕ × ℕ))
  cache_boundaries pool = do
    birthday ← lift_storage w.get_wallet_birthday
    max_scanned ← lift_storage w.block_max_scanned
    (start, end) ← scanned_range birthday max_scanned
    lift_storage (block_boundaries_of pool (heights start (end + 1 - start)) [])

  abbrev pub shown_boundaries :
      Bool → ShieldedProtocol → Result (BoundaryError Error) (Option (List (ℕ × ℕ)))
  shown_boundaries false pool = ok none
  shown_boundaries true pool = do m ← cache_boundaries pool; ok (some m)

  unfoldable pub new :
      ℕ
      → ShieldedProtocol
      → Option Address
      → Bool
      → Result (BoundaryError Error) (Outcome (App Address Flags))
  new fuel pool address show_block_boundaries = do
    block_boundaries ← shown_boundaries show_block_boundaries pool
    ok (
        reload_region fuel (record {
          should_quit = false;
          pool = pool;
          address = start_address address;
          block_boundaries = block_boundaries;
          region = none;
        }))
