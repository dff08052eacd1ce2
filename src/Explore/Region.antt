-- ===== src/Explore/Region.antt =====
-- The nodes around a node: `Region`, `Parent` and `Sibling` of
-- src/commands/wallet/tree/explore.rs.
use zcash_devtool_sqlx.Base.{
  ℕ, zero, suc, Bool, true, false, Option, none, some, Result, ok, ◌>>=◌, if◌then◌else◌,
}
use zcash_devtool_sqlx.Base.Int.{ℤ, pos, negsuc, ◌+ℤ◌, ◌-ℤ◌}
use zcash_devtool_sqlx.Protocol.{ShieldedProtocol}
use zcash_devtool_sqlx.Explore.{Trees, FetchError, Node, fetch}

abbrev pub x_node : ℤ
x_node = pos 0

abbrev pub child_offset : ℤ
child_offset = pos 10

abbrev pub node_gap : ℤ
node_gap = pos 40

abbrev pub node_offset : ℤ
node_offset = pos 20

abbrev pub parent_gap : ℤ
parent_gap = pos 80

abbrev pub row_spacing : ℤ
row_spacing = pos 20

abbrev pub y_grandparent : ℤ
y_grandparent = pos 40

abbrev pub y_parent : ℤ
y_parent = row_spacing

abbrev pub y_node : ℤ
y_node = pos 0

abbrev pub y_child : ℤ
y_child = negsuc 19

pub record Sibling (N : Type 0) : Type 0 where
  pub x : ℤ
  pub y : ℤ
  pub node : N
  pub l : Option N
  pub r : Option N

pub record Parent (N : Type 0) : Type 0 where
  pub x : ℤ
  pub y : ℤ
  pub is_parent_of_region : Bool
  pub node : N
  pub grandparent : Option N
  pub sibling_child : Option (Sibling N)

pub record Region (N : Type 0) : Type 0 where
  pub pool : ShieldedProtocol
  pub node : N
  pub l : Option N
  pub r : Option N
  pub p : Option (Parent N)
  pub op : Option (Parent N)

module _ (w : Trees) (pool : ShieldedProtocol) where
  open w use {addresses, Error, Flags}
  open addresses use {Address, level, index, from_parts}

  abbrev pub Found : Type 0 → Type 0
  Found A = Result (FetchError Error Address) (Option A)

  -- The children, where there are any.
  unfoldable pub get_children :
      Option (Address × Address)
      → Result
          (FetchError Error Address)
          (Option (Node Address Flags) × Option (Node Address Flags))
  get_children none = ok (none, none)
  get_children (some (left, right)) = do l ← fetch w pool left; r ← fetch w pool right; ok (l, r)

  abbrev pub sibling_of :
      Address → Bool → Option (Node Address Flags) → Found (Sibling (Node Address Flags))
  sibling_of address is_left_of_region none = ok none
  sibling_of address is_left_of_region (some node) = do
    (l, r) ← get_children (addresses.children address)
    ok (
        some (record {
          x = (if is_left_of_region then x_node -ℤ node_gap else x_node +ℤ node_gap);
          y = y_node;
          node = node;
          l = l;
          r = r;
        }))

  unfoldable pub get_sibling : Address → Bool → Found (Sibling (Node Address Flags))
  get_sibling address is_left_of_region = do
    found ← fetch w pool address
    sibling_of address is_left_of_region found

  abbrev pub parent_x : Bool → Bool → ℤ
  parent_x is_parent_of_region sibling_is_left_of_region =
      if is_parent_of_region
      then (if sibling_is_left_of_region then x_node -ℤ node_offset else x_node +ℤ node_offset)
      else (if sibling_is_left_of_region
          then x_node +ℤ node_offset -ℤ parent_gap
          else x_node -ℤ node_offset +ℤ parent_gap)

  abbrev pub parent_of :
      Bool → Address → Bool → Option (Node Address Flags) → Found (Parent (Node Address Flags))
  parent_of is_parent_of_region sibling is_left none = ok none
  parent_of is_parent_of_region sibling is_left (some node) = do
    grandparent ← fetch w pool (addresses.parent (addresses.parent sibling))
    sibling_child ← get_sibling sibling is_left
    ok (
        some (record {
          x = parent_x is_parent_of_region is_left;
          y = y_parent;
          is_parent_of_region = is_parent_of_region;
          node = node;
          grandparent = grandparent;
          sibling_child = sibling_child;
        }))

  unfoldable pub get_parent : Bool → Address → Bool → Found (Parent (Node Address Flags))
  get_parent is_parent_of_region sibling sibling_is_left_of_region = do
    found ← fetch w pool (addresses.parent sibling)
    parent_of is_parent_of_region sibling sibling_is_left_of_region found

  abbrev pub before : Address → ℕ → Option Address
  before address zero = none
  before address (suc i) = some (from_parts (level address) i)

  -- The neighbour on the other side than the sibling.
  unfoldable pub other_sibling : Address → Option Address
  other_sibling address =
      if addresses.is_left_child address
      then before address (index address)
      else some (addresses.next_at_level address)

  unfoldable pub get_other_parent : Address → Option Address → Found (Parent (Node Address Flags))
  get_other_parent address none = ok none
  get_other_parent address (some addr) = get_parent false addr (addresses.is_left_child address)

  abbrev pub region_of : Address → Option (Node Address Flags) → Found (Region (Node Address Flags))
  region_of address none = ok none
  region_of address (some node) = do
    (l, r) ← get_children (addresses.children address)
    p ← get_parent true (addresses.sibling address) (addresses.is_right_child address)
    op ← get_other_parent address (other_sibling address)
    ok (some (record { pool = pool; node = node; l = l; r = r; p = p; op = op }))

  unfoldable pub get_region : Address → Found (Region (Node Address Flags))
  get_region address = do found ← fetch w pool address; region_of address found
