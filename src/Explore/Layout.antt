-- ===== src/Explore/Layout.antt =====
-- Where the nodes of a region stand on the screen of src/commands/wallet/tree/explore.rs.
mod Columns
use zcash_devtool_sqlx.Base.{
  ℕ, zero, suc, ◌+◌, ◌-◌, ◌*◌, ◌/◌, ◌%◌, ◌^◌, ◌==◌, ◌≤◌, ◌<◌, ◌≡◌, refl, sym, ap, subst, ◌∙◌, Bool,
  true, false, Option, none, some, List, [], ◌∷◌, ◌++◌, Result, ok, err, arith, if◌then◌else◌, ltb,
  All, All-append, IfOk, IfOk-ok, IfOk-err, IfOk-if, IfOk-then, IfOk-value, Bool-cases, inl, inr,
  Result-cases, Option-cases,
}
use zcash_devtool_sqlx.Base.Int.{ℤ, pos, negsuc, sub_ℕ, ◌+ℤ◌, ◌-ℤ◌}
use zcash_devtool_sqlx.Protocol.{ShieldedProtocol}
use zcash_devtool_sqlx.Explore.{
  Addresses, Trees, FetchError, Node, fetch, map_found, map_node, new_node, in_cap, in_tree,
  in_shard, shard_root_level,
}
use zcash_devtool_sqlx.Explore.Region.{
  Region, Parent, Sibling, get_region, get_parent, get_sibling, get_children, get_other_parent,
  sibling_of, parent_of, parent_x, region_of, x_node, node_gap, other_sibling, before,
}
use zcash_devtool_sqlx.Explore.Drawing.{
  Shape, circle, region_nodes, parent_nodes, sibling_nodes, N, each_option, grandparent_x,
}
use Columns.{left_of, right_of, twice, same_column, four_times, above}
use zcash_devtool_sqlx.Explore.Fetched.{HasAddress, fetch-HasAddress}

module _ (w : Trees) where
  open w use {addresses, Error, LocatedTree, Flags}
  open addresses use {Address, level, index}

  module _ (centre : Address) where
    -- A place on the screen that fits an address: the column is that of the middle of the leaves below
    -- it, counted from the middle of the leaves below the centre, and the row is that of its level.
    abbrev pub Placed : ℤ → ℤ → Address → Type 0
    Placed x y a =
        (d : ℕ) × (level a + 1 ≡ level centre + d)
        × (x ≡ sub_ℕ (10 * (2 * index a + 1) * 2 ^ d) (20 * (2 * index centre + 1)))
        × (y ≡ sub_ℕ (20 * d) 20)

    -- The nodes among shapes stand where they fit.
    abbrev pub IsPlaced : Shape Address → Type 0
    IsPlaced (circle x y a) = Placed x y a
    IsPlaced _ = Unit

    children-Placed :
        (a l r : Address) (x : ℤ)
        → addresses.children a ≡ some (l, r)
        → level a ≡ level centre
        → x ≡ sub_ℕ (20 * (2 * index a + 1)) (20 * (2 * index centre + 1))
        → Placed (x -ℤ pos 10) (negsuc 19) l × Placed (x +ℤ pos 10) (negsuc 19) r
    children-Placed a l r x e h k =
        let (ll, lr, il, ir) = addresses.children_lem a l r e in
        (
          (0, omega arith, rw (k, il) (left_of (index a) (index centre)), refl),
          (0, omega arith, rw (k, ir) (right_of (index a) (index centre)), refl),
        )

    -- The same of a node that may not be there.
    abbrev OptPlaced : ℤ → ℤ → Option (Node Address Flags) → Type 0
    OptPlaced x y none = Unit
    OptPlaced x y (some n) = Placed x y n.address

    found-Placed :
        (x y : ℤ) (a : Address) (o : Option (Node Address Flags))
        → HasAddress w a o
        → Placed x y a
        → OptPlaced x y o
    found-Placed x y a none h p = tt
    found-Placed x y a (some n) h p = subst (λ b. Placed x y b) (sym h) p

    circle-IsPlaced :
        (x y : ℤ) (o : Option (Node Address Flags))
        → OptPlaced x y o
        → All IsPlaced (each_option w (λ (n : N w). circle x y n.address ∷ []) o)
    circle-IsPlaced x y none h = tt
    circle-IsPlaced x y (some n) h = (h, tt)

    module _ (pool : ShieldedProtocol) (low : level centre ≤ 32) where
      abbrev Kids : ℤ → Option (Node Address Flags) × Option (Node Address Flags) → Type 0
      Kids x (l, r) = OptPlaced (x -ℤ pos 10) (negsuc 19) l × OptPlaced (x +ℤ pos 10) (negsuc 19) r

      get_children-Kids :
          (a : Address) (x : ℤ) (o : Option (Address × Address))
          → addresses.children a ≡ o
          → level a ≡ level centre
          → x ≡ sub_ℕ (20 * (2 * index a + 1)) (20 * (2 * index centre + 1))
          → IfOk (Kids x) (get_children w pool o)
      unfolding get_children
      get_children-Kids a x none e h k = IfOk-ok _ (tt, tt)
      get_children-Kids a x (some (left, right)) e h k =
          let (pl, pr) = children-Placed a left right x e h k in
          IfOk-then _ _ (fetch-HasAddress w pool left) (λ l hl.
            IfOk-then _ _ (fetch-HasAddress w pool right) (λ r hr.
              IfOk-ok (l, r) (found-Placed _ _ left l hl pl, found-Placed _ _ right r hr pr)))

      abbrev SiblingPlaced : Option (Sibling (N w)) → Type 0
      SiblingPlaced none = Unit
      SiblingPlaced (some s) = All IsPlaced (sibling_nodes w s)

      abbrev sibling_x : Bool → ℤ
      sibling_x left = if left then x_node -ℤ node_gap else x_node +ℤ node_gap

      sibling_of-Placed :
          (a : Address) (left : Bool) (o : Option (Node Address Flags))
          → HasAddress w a o
          → level a ≡ level centre
          → sibling_x left ≡ sub_ℕ (20 * (2 * index a + 1)) (20 * (2 * index centre + 1))
          → IfOk SiblingPlaced (sibling_of w pool a left o)
      unfolding sibling_nodes ◌-ℤ◌
      sibling_of-Placed a left none ha h k = IfOk-ok _ tt
      sibling_of-Placed a left (some n) ha h k =
          IfOk-then _ _ (get_children-Kids a (sibling_x left) _ refl h k) (λ (l, r) (pl, pr).
            IfOk-ok _ (
              found-Placed _ _ a (some n) ha (1, omega arith, k ∙ twice (index a) _, refl),
              All-append _ _ _ (circle-IsPlaced _ _ l pl) (circle-IsPlaced _ _ r pr),
            ))

      get_sibling-Placed :
          (a : Address) (left : Bool)
          → level a ≡ level centre
          → sibling_x left ≡ sub_ℕ (20 * (2 * index a + 1)) (20 * (2 * index centre + 1))
          → IfOk SiblingPlaced (get_sibling w pool a left)
      unfolding get_sibling
      get_sibling-Placed a left h k =
          IfOk-then _ _ (fetch-HasAddress w pool a) (λ o ho. sibling_of-Placed a left o ho h k)

      sibling-IsPlaced :
          (c : Option (Sibling (N w)))
          → SiblingPlaced c
          → All IsPlaced (each_option w (sibling_nodes w) c)
      sibling-IsPlaced none h = tt
      sibling-IsPlaced (some s) h = h

      abbrev ParentPlaced : Option (Parent (N w)) → Type 0
      ParentPlaced none = Unit
      ParentPlaced (some p) = All IsPlaced (parent_nodes w p)

      -- The column that a parent is given fits the address of the parent of a node.
      abbrev FitsParent : Bool → Bool → Address → Type 0
      FitsParent is_parent left s =
          parent_x w pool is_parent left
          ≡ sub_ℕ (40 * (2 * (index s / 2) + 1)) (20 * (2 * index centre + 1))

      grandparent_x-eq :
          (is_parent left : Bool) (s : Address) (p : Parent (N w))
          → p.node.address ≡ addresses.parent s
          → p.x ≡ parent_x w pool is_parent left
          → FitsParent is_parent left s
          → grandparent_x w p
            ≡ sub_ℕ (10 * (2 * (index s / 2 / 2) + 1) * 2 ^ 3) (20 * (2 * index centre + 1))
      unfolding grandparent_x
      grandparent_x-eq is_parent left s p ha hx fits =
          let e : addresses.is_left_child p.node.address ≡ (index s / 2 % 2 == 0) =
            addresses.is_left_child_lem p.node.address
            ∙ ap (λ (i : ℕ). i % 2 == 0) (ap index ha ∙ addresses.index-parent s) in
          subst
            (λ x.
              (if addresses.is_left_child p.node.address then x +ℤ node_gap else x -ℤ node_gap)
              ≡ sub_ℕ (10 * (2 * (index s / 2 / 2) + 1) * 2 ^ 3) (20 * (2 * index centre + 1)))
            (sym (hx ∙ fits)) (above (index s / 2) (index centre) _ (sym e))

      parent_of-Placed :
          (is_parent : Bool) (s : Address) (left : Bool) (o : Option (Node Address Flags))
          → HasAddress w (addresses.parent s) o
          → level s ≡ level centre
          → sibling_x left ≡ sub_ℕ (20 * (2 * index s + 1)) (20 * (2 * index centre + 1))
          → FitsParent is_parent left s
          → IfOk ParentPlaced (parent_of w pool is_parent s left o)
      unfolding parent_nodes
      parent_of-Placed is_parent s left none ha h k fits = IfOk-ok _ tt
      parent_of-Placed is_parent s left (some n) ha h k fits =
          IfOk-then _ _ (fetch-HasAddress w pool (addresses.parent (addresses.parent s))) (λ g hg.
            IfOk-then _ _ (get_sibling-Placed s left h k) (λ c hc. IfOk-ok _ (
              found-Placed _ _ (addresses.parent s) (some n) ha (
                2,
                omega (arith, addresses.level-parent s (omega arith)),
                rw (addresses.index-parent s) (fits ∙ four_times (index s / 2) _),
                refl,
              ),
              All-append _ _ _
                  (circle-IsPlaced _ _ g (
                    found-Placed _ _ (addresses.parent (addresses.parent s)) g hg (
                      3,
                      omega (
                        arith,
                        addresses.level-parent s (omega arith),
                        addresses.level-parent (addresses.parent s)
                            (omega (arith, addresses.level-parent s (omega arith))),
                      ),
                      rw (addresses.index-parent (addresses.parent s), addresses.index-parent s)
                          (grandparent_x-eq is_parent left s _ ha refl fits),
                      refl,
                    )))
                  (sibling-IsPlaced c hc),
            )))

      get_parent-Placed :
          (is_parent : Bool) (s : Address) (left : Bool)
          → level s ≡ level centre
          → sibling_x left ≡ sub_ℕ (20 * (2 * index s + 1)) (20 * (2 * index centre + 1))
          → FitsParent is_parent left s
          → IfOk ParentPlaced (get_parent w pool is_parent s left)
      unfolding get_parent
      get_parent-Placed is_parent s left h k fits =
          IfOk-then _ _ (fetch-HasAddress w pool (addresses.parent s))
            (λ o ho. parent_of-Placed is_parent s left o ho h k fits)

      -- A neighbour, to the left or to the right.
      abbrev IsNextTo : Bool → ℕ → Type 0
      IsNextTo true i = i + 1 ≡ index centre
      IsNextTo false i = i ≡ index centre + 1

      next_to-x :
          (left : Bool) (i : ℕ)
          → IsNextTo left i
          → sibling_x left ≡ sub_ℕ (20 * (2 * i + 1)) (20 * (2 * index centre + 1))
      unfolding ◌+ℤ◌ ◌-ℤ◌
      next_to-x true i h = ground (arith, h)
      next_to-x false i h = ground (arith, h)

      -- The parity of the centre, by whether the neighbour has the same parent.
      abbrev parity : Bool → Bool → ℕ
      parity true true = 1
      parity true false = 0
      parity false true = 0
      parity false false = 1

      next_to-parent :
          (is_parent left : Bool) (i : ℕ)
          → IsNextTo left i
          → index centre % 2 ≡ parity is_parent left
          → parent_x w pool is_parent left
            ≡ sub_ℕ (40 * (2 * (i / 2) + 1)) (20 * (2 * index centre + 1))
      unfolding ◌+ℤ◌ ◌-ℤ◌
      next_to-parent true true i h e = ground (arith, h, e)
      next_to-parent true false i h e = ground (arith, h, e)
      next_to-parent false true i h e = ground (arith, h, e)
      next_to-parent false false i h e = ground (arith, h, e)

      neighbour-Placed :
          (is_parent : Bool) (s : Address) (left : Bool)
          → level s ≡ level centre
          → IsNextTo left (index s)
          → index centre % 2 ≡ parity is_parent left
          → IfOk ParentPlaced (get_parent w pool is_parent s left)
      neighbour-Placed is_parent s left h k e =
          get_parent-Placed is_parent s left h (next_to-x left (index s) k)
            (next_to-parent is_parent left (index s) k e)

      sibling_part :
          (right : Bool)
          → (index centre % 2 == 1) ≡ right
          → IfOk ParentPlaced (get_parent w pool true (addresses.sibling centre) right)
      sibling_part true e =
          neighbour-Placed true _ true (addresses.level-sibling centre)
            (ground (arith, addresses.index-sibling centre)) (ground arith)
      sibling_part false e =
          neighbour-Placed true _ false (addresses.level-sibling centre)
            (ground (arith, addresses.index-sibling centre)) (ground arith)

      even_of : addresses.is_left_child centre ≡ true → index centre % 2 ≡ 0
      even_of e = ground (arith, addresses.is_left_child_lem centre)

      odd_of : addresses.is_left_child centre ≡ false → index centre % 2 ≡ 1
      odd_of e = ground (arith, addresses.is_left_child_lem centre)

      other_neighbour :
          (addr : Address) (left : Bool)
          → addresses.is_left_child centre ≡ left
          → level addr ≡ level centre
          → IsNextTo left (index addr)
          → index centre % 2 ≡ parity false left
          → IfOk ParentPlaced (get_other_parent w pool centre (some addr))
      unfolding get_other_parent
      other_neighbour addr left e h k q =
          subst (λ b. IfOk ParentPlaced (get_parent w pool false addr b)) (sym e)
            (neighbour-Placed false addr left h k q)

      before_part :
          (i : ℕ)
          → index centre ≡ i
          → addresses.is_left_child centre ≡ true
          → IfOk ParentPlaced (get_other_parent w pool centre (before w pool centre i))
      unfolding get_other_parent
      before_part zero e h = IfOk-ok _ tt
      before_part (suc i) e h =
          other_neighbour (addresses.from_parts (level centre) i) true h
            (addresses.level-from_parts (level centre) i)
            (omega (arith, addresses.index-from_parts (level centre) i)) (even_of h)

      other_part :
          (left : Bool)
          → addresses.is_left_child centre ≡ left
          → index centre + 1 < 2 ^ 64
          → IfOk ParentPlaced (
              get_other_parent w pool centre (
                if left
                then before w pool centre (index centre)
                else some (addresses.next_at_level centre)))
      other_part true e fits = before_part (index centre) refl e
      other_part false e fits =
          other_neighbour (addresses.next_at_level centre) false e
            (addresses.level-next_at_level centre) (addresses.index-next_at_level centre fits)
            (odd_of e)

      parent-IsPlaced :
          (p : Option (Parent (N w)))
          → ParentPlaced p
          → All IsPlaced (each_option w (parent_nodes w) p)
      parent-IsPlaced none h = tt
      parent-IsPlaced (some p) h = h

      -- What is drawn of a region that is found.
      abbrev pub RegionPlaced : Option (Region (N w)) → Type 0
      RegionPlaced none = Unit
      RegionPlaced (some region) = All IsPlaced (region_nodes w region)

      region_of-Placed :
          (o : Option (Node Address Flags))
          → HasAddress w centre o
          → index centre + 1 < 2 ^ 64
          → IfOk RegionPlaced (region_of w pool centre o)
      unfolding region_nodes other_sibling ◌-ℤ◌ ◌+ℤ◌
      region_of-Placed none h fits = IfOk-ok _ tt
      region_of-Placed (some n) h fits =
          IfOk-then _ _ (get_children-Kids centre x_node _ refl refl (same_column (index centre)))
            (λ (l, r) (pl, pr).
              IfOk-then _ _
                (sibling_part (addresses.is_right_child centre)
                  (sym (addresses.is_right_child_lem centre)))
                (λ p hp.
                  IfOk-then _ _ (other_part (addresses.is_left_child centre) refl fits) (λ op hop.
                    IfOk-ok _ (
                      found-Placed _ _ centre (some n) h
                          (1, refl, same_column (index centre) ∙ twice (index centre) _, refl),
                      All-append _ _ _ (circle-IsPlaced _ _ l pl) (
                          All-append _ _ _ (circle-IsPlaced _ _ r pr)
                            (All-append _ _ _ (parent-IsPlaced p hp) (parent-IsPlaced op hop))),
                    ))))

  -- Each node that is drawn of a region stands where its address fits: the column is that of the
  -- middle of the leaves below it, counted from the centre's, and the row is that of its level (for
  -- a level of 32 at most and an index below 2 ^ 64 - 1).
  pub get_region-Placed :
      (pool : ShieldedProtocol) (a : Address) (low : level a ≤ 32)
      → index a + 1 < 2 ^ 64
      → IfOk (RegionPlaced a pool low) (get_region w pool a)
  unfolding get_region
  get_region-Placed pool a low fits =
      IfOk-then _ _ (fetch-HasAddress w pool a) (λ o h. region_of-Placed a pool low o h fits)
