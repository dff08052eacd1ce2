-- ===== src/Explore.antt =====
-- The explorer of the note commitment trees (src/commands/wallet/tree/explore.rs): what it takes
-- from the tree crates, the nodes that it fetches, and the block boundaries that it shows.
pub mod Arguments
pub mod Region
pub mod Drawing
pub mod Moving
pub mod Fetched
pub mod Layout
pub mod Found
pub mod Reload
pub mod Moves
pub mod Shown
pub mod Boundaries
mod Sample
mod Tests
use zcash_devtool_sqlx.Base.{
  ℕ, ◌+◌, ◌-◌, ◌*◌, ◌/◌, ◌%◌, ◌^◌, ◌<◌, ◌≡◌, ◌==◌, Bool, true, false, Option, none, some, List, [],
  ◌∷◌, Result, ok, err, ltb, if◌then◌else◌, Text, ap, refl,
}
use zcash_devtool_sqlx.Protocol.{ShieldedProtocol}

-- Addresses of nodes, a type of the `incrementalmerkletree` crate, with what its documentation
-- says of them.
pub record Addresses : Type 1 where
  pub Address : Type 0
  pub level : Address → ℕ
  pub index : Address → ℕ
  pub from_parts : ℕ → ℕ → Address
  pub parent : Address → Address
  pub sibling : Address → Address
  pub next_at_level : Address → Address
  pub children : Address → Option (Address × Address)
  pub is_left_child : Address → Bool
  pub is_right_child : Address → Bool
  pub above_position : ℕ → ℕ → Address
  pub position_range_start : Address → ℕ
  pub max_position : Address → ℕ
  pub same_address : Address → Address → Bool
  pub same_address_eq : (a b : Address) → same_address a b ≡ true → a ≡ b
  pub same_address_self : (a : Address) → same_address a a ≡ true
  pub level-from_parts : (l i : ℕ) → level (from_parts l i) ≡ l
  pub index-from_parts : (l i : ℕ) → index (from_parts l i) ≡ i
  pub level-parent : (a : Address) → level a < 255 → level (parent a) ≡ level a + 1
  pub index-parent : (a : Address) → index (parent a) ≡ index a / 2
  pub level-sibling : (a : Address) → level (sibling a) ≡ level a
  pub index-sibling :
      (a : Address) → index (sibling a) ≡ (if index a % 2 == 0 then index a + 1 else index a - 1)
  pub level-next_at_level : (a : Address) → level (next_at_level a) ≡ level a
  pub index-next_at_level :
      (a : Address) → index a + 1 < 2 ^ 64 → index (next_at_level a) ≡ index a + 1
  pub children_lem :
      (a l r : Address)
      → children a ≡ some (l, r)
      → (level l + 1 ≡ level a)
        × (level r + 1 ≡ level a)
        × (index l ≡ 2 * index a)
        × (index r ≡ 2 * index a + 1)
  pub same_parts : (a b : Address) → level a ≡ level b → index a ≡ index b → a ≡ b
  pub is_left_child_lem : (a : Address) → is_left_child a ≡ (index a % 2 == 0)
  pub is_right_child_lem : (a : Address) → is_right_child a ≡ (index a % 2 == 1)

-- Why a node cannot be fetched.
pub data FetchError (E A : Type 0) : Type 0 where
  storage : E → FetchError E A
  not_contained : A → FetchError E A

-- The trees of the wallet, as the `shardtree` crate and the database give them.
pub record Trees : Type 1 where
  pub addresses : Addresses
  pub Error : Type 0
  pub Cap : Type 0
  pub LocatedTree : Type 0
  pub Flags : Type 0
  pub get_cap : ShieldedProtocol → Result Error Cap
  pub cap_tree : addresses.Address → Cap → Result addresses.Address LocatedTree
  pub get_shard : ShieldedProtocol → addresses.Address → Result Error (Option LocatedTree)
  pub subtree : LocatedTree → addresses.Address → Option LocatedTree
  pub root_addr : LocatedTree → addresses.Address
  -- The hashes in a root, encoded.
  pub annotation_of : LocatedTree → Option Text
  pub value_of : LocatedTree → Option Text
  pub flags_of : LocatedTree → Option Flags
  pub is_nil_tree : LocatedTree → Bool
  pub has_checkpoint : Flags → Bool
  pub is_marked : Flags → Bool
  pub is_ephemeral : Flags → Bool
  pub has_reference : Flags → Bool
  pub get_wallet_birthday : Result Error (Option ℕ)
  pub block_max_scanned : Result Error (Option ℕ)
  -- The size of a pool's tree after the block at a height, where the block and the size are known.
  pub tree_size : ShieldedProtocol → ℕ → Result Error (Option (Option ℕ))
  pub root_addr-subtree :
      (t s : LocatedTree) (a : addresses.Address) → subtree t a ≡ some s → root_addr s ≡ a

pub record Node (A F : Type 0) : Type 0 where
  pub address : A
  pub annotation : Option Text
  pub value : Option Text
  pub flags : Option F
  pub is_nil : Bool
  pub block_boundary : Option ℕ

abbrev pub shard_root_level : ℕ
shard_root_level = 16

module _ (w : Trees) where
  open w use {addresses, Error, Cap, LocatedTree, Flags}
  open addresses use {Address, level, from_parts, max_position}

  unfoldable pub new_node : LocatedTree → Node Address Flags
  new_node t = record {
    address = w.root_addr t;
    annotation = w.annotation_of t;
    value = w.value_of t;
    flags = w.flags_of t;
    is_nil = w.is_nil_tree t;
    block_boundary = none;
  }

  abbrev pub map_node : Option LocatedTree → Option (Node Address Flags)
  map_node none = none
  map_node (some t) = some (new_node t)

  abbrev pub in_tree :
      Address → Result Address LocatedTree → Result (FetchError Error Address) (Option LocatedTree)
  in_tree address (err at) = err (not_contained at)
  in_tree address (ok tree) = ok (w.subtree tree address)

  abbrev pub in_cap :
      Address → Result Error Cap → Result (FetchError Error Address) (Option LocatedTree)
  in_cap address (err e) = err (storage e)
  in_cap address (ok cap) = in_tree address (w.cap_tree (from_parts 32 0) cap)

  abbrev pub in_shard :
      Address
      → Result Error (Option LocatedTree)
      → Result (FetchError Error Address) (Option LocatedTree)
  in_shard address (err e) = err (storage e)
  in_shard address (ok none) = ok none
  in_shard address (ok (some shard)) = ok (w.subtree shard address)

  abbrev pub map_found :
      Result (FetchError Error Address) (Option LocatedTree)
      → Result (FetchError Error Address) (Option (Node Address Flags))
  map_found (err e) = err e
  map_found (ok found) = ok (map_node found)

  -- Nodes above the roots of the shards are in the cap, the others in a shard.
  unfoldable pub fetch :
      ShieldedProtocol → Address → Result (FetchError Error Address) (Option (Node Address Flags))
  fetch pool address = map_found (
      if ltb shard_root_level (level address)
      then in_cap address (w.get_cap pool)
      else in_shard address (
          w.get_shard pool
            (addresses.above_position shard_root_level (addresses.position_range_start address))))

  abbrev pub option_any : Option Flags → (Flags → Bool) → Bool
  option_any none p = false
  option_any (some f) p = p f

  unfoldable pub is_checkpoint : Node Address Flags → Bool
  is_checkpoint node = option_any node.flags w.has_checkpoint

  abbrev pub with_boundary : Node Address Flags → Option ℕ → Node Address Flags
  with_boundary node none = node
  with_boundary node (some height) = record node { block_boundary = some height }

  -- The position behind the node's last one, in 32 bits, as the size of a block's tree.
  unfoldable pub add_block_boundary : (ℕ → Option ℕ) → Node Address Flags → Node Address Flags
  add_block_boundary block_boundaries node =
      with_boundary node (block_boundaries ((max_position node.address % 2 ^ 32 + 1) % 2 ^ 32))
