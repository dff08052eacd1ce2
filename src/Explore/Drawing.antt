-- ===== src/Explore/Drawing.antt =====
-- What is drawn of a region: block boundaries, edges, nodes and details, as the calls of the
-- drawing crate in src/commands/wallet/tree/explore.rs. Its coordinates are whole numbers.
use zcash_devtool_sqlx.Base.{
  ℕ, ◌==◌, Bool, false, Option, none, some, List, [], ◌∷◌, ◌++◌, if◌then◌else◌, Text,
}
use zcash_devtool_sqlx.Base.Int.{ℤ, ◌+ℤ◌, ◌-ℤ◌}
use zcash_devtool_sqlx.Explore.{
  Trees, Node, shard_root_level, add_block_boundary, is_checkpoint, option_any,
}
use zcash_devtool_sqlx.Explore.Region.{
  Region, Parent, Sibling, x_node, y_node, y_parent, y_child, y_grandparent, child_offset, node_gap,
  row_spacing,
}

-- A drawn thing: `boundary_text` is the height below a line, `here` the circle around the node.
pub data Shape (A : Type 0) : Type 0 where
  edge : ℤ → ℤ → ℤ → ℤ → Shape A
  circle : ℤ → ℤ → A → Shape A
  shard_line : ℤ → Shape A
  checkpoint_line : ℤ → Shape A
  boundary_text : ℤ → ℕ → Shape A
  here : Shape A

-- A line of the details.
pub data Detail : Type 0 where
  nil_node ephemeral checkpoint marked reference : Detail
  leaf_node : Option Text → Detail
  parent_node : Option Text → Detail

abbrev pub map_option : {A B : Type 0} → (A → B) → Option A → Option B
map_option f none = none
map_option f (some a) = some (f a)

module _ (w : Trees) where
  open w use {addresses, Flags}
  open addresses use {Address, level}

  abbrev pub N : Type 0
  N = Node Address Flags

  module _ (block_boundaries : ℕ → Option ℕ) where
    abbrev mark : N → N
    mark = add_block_boundary w block_boundaries

    -- The lowest level that is there: the children, if there is a right one, or else the node.
    unfoldable pub mark_region_node : Region N → Region N
    mark_region_node region = elim region.r [
      | none ↦ record region { node = mark region.node }
      | some right ↦ record region { r = some (mark right); l = map_option mark region.l }
    ]

    unfoldable pub mark_sibling : Sibling N → Sibling N
    mark_sibling sibling = elim sibling.r [
      | none ↦ record sibling { node = mark sibling.node }
      | some right ↦ record sibling { r = some (mark right); l = map_option mark sibling.l }
    ]

    unfoldable pub mark_parent : Parent N → Parent N
    mark_parent parent = elim parent.sibling_child [
      | none ↦ record parent { node = mark parent.node }
      | some sibling ↦ record parent { sibling_child = some (mark_sibling sibling) }
    ]

    unfoldable pub add_block_boundaries : Region N → Region N
    add_block_boundaries region =
        let marked_node = mark_region_node region in
        record marked_node {
          p = map_option mark_parent region.p;
          op = map_option mark_parent region.op;
        }

  abbrev pub each_option :
      {A : Type 0} → (A → List (Shape Address)) → Option A → List (Shape Address)
  each_option f none = []
  each_option f (some a) = f a

  -- The block's boundary, or else the checkpoint, of a node in a column.
  unfoldable pub draw_marks : ℤ → N → List (Shape Address)
  draw_marks x node = elim node.block_boundary [
    | some height ↦ checkpoint_line x ∷ boundary_text x height ∷ []
    | none ↦ if is_checkpoint w node then checkpoint_line x ∷ [] else []
  ]

  unfoldable pub draw_child_edge : ℤ → ℤ → ℤ → ℤ → N → List (Shape Address)
  draw_child_edge x y x_to y_to child = edge x y x_to y_to ∷ draw_marks x_to child

  unfoldable pub sibling_edges : Sibling N → ℤ → ℤ → List (Shape Address)
  sibling_edges s parent_x parent_y =
      edge parent_x parent_y s.x s.y
      ∷ (draw_marks s.x s.node
          ++ (each_option (draw_child_edge s.x s.y (s.x -ℤ child_offset) (s.y -ℤ row_spacing)) s.l
              ++ each_option (draw_child_edge s.x s.y (s.x +ℤ child_offset) (s.y -ℤ row_spacing))
                  s.r))

  unfoldable pub sibling_nodes : Sibling N → List (Shape Address)
  sibling_nodes s =
      circle s.x s.y s.node.address
      ∷ (each_option (λ (l : N). circle (s.x -ℤ child_offset) (s.y -ℤ row_spacing) l.address ∷ [])
            s.l
          ++ each_option
              (λ (r : N). circle (s.x +ℤ child_offset) (s.y -ℤ row_spacing) r.address ∷ []) s.r)

  unfoldable pub grandparent_x : Parent N → ℤ
  grandparent_x parent =
      if addresses.is_left_child parent.node.address
      then parent.x +ℤ node_gap
      else parent.x -ℤ node_gap

  unfoldable pub grandparent_edge : Parent N → N → List (Shape Address)
  grandparent_edge parent grandparent =
      edge parent.x parent.y (grandparent_x parent) y_grandparent
      ∷ (if is_checkpoint w grandparent then checkpoint_line (grandparent_x parent) ∷ [] else [])

  unfoldable pub parent_edges : Parent N → List (Shape Address)
  parent_edges parent =
      (if parent.is_parent_of_region then edge x_node y_node parent.x parent.y ∷ [] else [])
      ++ (draw_marks parent.x parent.node
          ++ (each_option (grandparent_edge parent) parent.grandparent
              ++ each_option (λ s. sibling_edges s parent.x parent.y) parent.sibling_child))

  unfoldable pub parent_nodes : Parent N → List (Shape Address)
  parent_nodes parent =
      circle parent.x parent.y parent.node.address
      ∷ (each_option (λ (g : N). circle (grandparent_x parent) y_grandparent g.address ∷ [])
            parent.grandparent
          ++ each_option sibling_nodes parent.sibling_child)

  abbrev pub at_shard_root : N → Bool
  at_shard_root node = level node.address == shard_root_level

  abbrev pub is_some_and : Option N → (N → Bool) → Bool
  is_some_and none f = false
  is_some_and (some n) f = f n

  abbrev pub or_else : Option N → Option N → Option N
  or_else none o = o
  or_else (some n) o = some n

  unfoldable pub parent_shard_line : Option (Parent N) → List (Shape Address)
  parent_shard_line none = []
  parent_shard_line (some parent) =
      if at_shard_root parent.node
      then shard_line y_parent ∷ []
      else if is_some_and parent.grandparent at_shard_root
      then shard_line y_grandparent ∷ []
      else []

  -- The row in which the roots of the shards are, if it is drawn.
  unfoldable pub draw_shard_line : Region N → List (Shape Address)
  draw_shard_line region =
      if at_shard_root region.node
      then shard_line y_node ∷ []
      else if is_some_and (or_else region.l region.r) at_shard_root
      then shard_line y_child ∷ []
      else parent_shard_line region.p

  -- The layer of nodes.
  unfoldable pub region_nodes : Region N → List (Shape Address)
  region_nodes region =
      circle x_node y_node region.node.address
      ∷ (each_option (λ (l : N). circle (x_node -ℤ child_offset) y_child l.address ∷ []) region.l
          ++ (each_option (λ (r : N). circle (x_node +ℤ child_offset) y_child r.address ∷ [])
                region.r
              ++ (each_option parent_nodes region.p ++ each_option parent_nodes region.op)))

  -- The layer of lines, and the nodes on it.
  unfoldable pub render : Region N → List (Shape Address)
  render region =
      draw_shard_line region
      ++ (draw_marks x_node region.node
          ++ (each_option (draw_child_edge x_node y_node (x_node -ℤ child_offset) y_child) region.l
              ++ (each_option (draw_child_edge x_node y_node (x_node +ℤ child_offset) y_child)
                    region.r
                  ++ (each_option parent_edges region.p
                      ++ (each_option parent_edges region.op
                          ++ (region_nodes region ++ here ∷ []))))))

  abbrev pub detail_if : Bool → Detail → List Detail
  detail_if b d = if b then d ∷ [] else []

  abbrev pub kind_of : N → Option Flags → Detail
  kind_of node none = parent_node node.annotation
  kind_of node (some _) = leaf_node node.value

  -- The details of the node, line by line.
  unfoldable pub details : N → List Detail
  details node =
      (if node.is_nil then nil_node else kind_of node node.flags)
      ∷ (detail_if (option_any w node.flags w.is_ephemeral) ephemeral
          ++ (detail_if (option_any w node.flags w.has_checkpoint) checkpoint
              ++ (detail_if (option_any w node.flags w.is_marked) marked
                  ++ detail_if (option_any w node.flags w.has_reference) reference)))
