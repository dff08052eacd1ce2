-- ===== src/Explore/Found.antt =====
-- The queries of src/commands/wallet/tree/explore.rs, where the wallet's trees can be read.
use zcash_devtool_sqlx.Base.{
  ◌<◌, ◌≡◌, refl, ap, ◌∙◌, Bool, true, false, Option, none, some, Result, ok, err, arith, ltb,
  if◌then◌else◌, Succeeds, Finds, then-Succeeds, then-Finds,
}
use zcash_devtool_sqlx.Protocol.{ShieldedProtocol}
use zcash_devtool_sqlx.Explore.{
  Trees, FetchError, Node, fetch, map_found, map_node, in_cap, in_tree, in_shard, shard_root_level,
}
use zcash_devtool_sqlx.Explore.Region.{
  get_region, region_of, get_parent, parent_of, get_sibling, sibling_of, get_children,
  get_other_parent,
}

module _ (w : Trees) (pool : ShieldedProtocol) where
  open w use {addresses, Error, Cap, LocatedTree, Flags}
  open addresses use {Address, level, index, from_parts}

  if_ok :
      {A : Type 0} {E : Type 0} (b : Bool) (m n : Result E A)
      → Succeeds m
      → Succeeds n
      → Succeeds (if b then m else n)
  if_ok true m n h k = h
  if_ok false m n h k = k

  module _ (cap : Cap) (tree : LocatedTree) (get_cap_ok : w.get_cap pool ≡ ok cap)
      (cap_tree_ok : w.cap_tree (from_parts 32 0) cap ≡ ok tree) where
    in_cap_eq : (a : Address) → in_cap w a (w.get_cap pool) ≡ ok (w.subtree tree a)
    in_cap_eq a = ap (in_cap w a) get_cap_ok ∙ ap (in_tree w a) cap_tree_ok

    pub fetch-high :
        (a : Address) → 16 < level a → fetch w pool a ≡ ok (map_node w (w.subtree tree a))
    unfolding fetch
    fetch-high a h =
        let above : ltb 16 (level a) ≡ true = ground (arith, h) in
        rw above (ap (map_found w) (in_cap_eq a))

    module _ (get_shard_ok : (a : Address) → Succeeds (w.get_shard pool a)) where
      map_found-Succeeds :
          (r : Result (FetchError Error Address) (Option LocatedTree))
          → Succeeds r
          → Succeeds (map_found w r)
      map_found-Succeeds (ok o) h = (map_node w o, refl)
      map_found-Succeeds (err e) (a, h) = ground (arith, h)

      in_shard-Succeeds :
          (a : Address) (r : Result Error (Option LocatedTree))
          → Succeeds r
          → Succeeds (in_shard w a r)
      in_shard-Succeeds a (ok none) h = (none, refl)
      in_shard-Succeeds a (ok (some t)) h = (w.subtree t a, refl)
      in_shard-Succeeds a (err e) (o, h) = ground (arith, h)

      fetch-Succeeds : (a : Address) → Succeeds (fetch w pool a)
      unfolding fetch
      fetch-Succeeds a = map_found-Succeeds _ (
          if_ok (ltb shard_root_level (level a)) _ _ (_, in_cap_eq a)
            (in_shard-Succeeds a _ (get_shard_ok _)))

      get_children-Succeeds : (p : Option (Address × Address)) → Succeeds (get_children w pool p)
      unfolding get_children
      get_children-Succeeds none = (_, refl)
      get_children-Succeeds (some (l, r)) =
          then-Succeeds _ _ (fetch-Succeeds l)
            (λ _. then-Succeeds _ _ (fetch-Succeeds r) (λ _. (_, refl)))

      sibling_of-Succeeds :
          (a : Address) (left : Bool) (o : Option (Node Address Flags))
          → Succeeds (sibling_of w pool a left o)
      sibling_of-Succeeds a left none = (_, refl)
      sibling_of-Succeeds a left (some n) =
          then-Succeeds _ _ (get_children-Succeeds _) (λ (l, r). (_, refl))

      get_sibling-Succeeds : (a : Address) (left : Bool) → Succeeds (get_sibling w pool a left)
      unfolding get_sibling
      get_sibling-Succeeds a left =
          then-Succeeds _ _ (fetch-Succeeds a) (sibling_of-Succeeds a left)

      parent_of-Succeeds :
          (is_parent : Bool) (s : Address) (left : Bool) (o : Option (Node Address Flags))
          → Succeeds (parent_of w pool is_parent s left o)
      parent_of-Succeeds is_parent s left none = (_, refl)
      parent_of-Succeeds is_parent s left (some n) =
          then-Succeeds _ _ (fetch-Succeeds _)
            (λ _. then-Succeeds _ _ (get_sibling-Succeeds s left) (λ _. (_, refl)))

      get_parent-Succeeds :
          (is_parent : Bool) (s : Address) (left : Bool)
          → Succeeds (get_parent w pool is_parent s left)
      unfolding get_parent
      get_parent-Succeeds is_parent s left =
          then-Succeeds _ _ (fetch-Succeeds _) (parent_of-Succeeds is_parent s left)

      get_other_parent-Succeeds :
          (a : Address) (o : Option Address) → Succeeds (get_other_parent w pool a o)
      unfolding get_other_parent
      get_other_parent-Succeeds a none = (_, refl)
      get_other_parent-Succeeds a (some s) = get_parent-Succeeds false s _

      region_of-Finds : (a : Address) (n : Node Address Flags) → Finds (region_of w pool a (some n))
      region_of-Finds a n = then-Finds _ _ (get_children-Succeeds _) (λ (l, r).
          then-Finds _ _ (get_parent-Succeeds true _ _)
            (λ _. then-Finds _ _ (get_other_parent-Succeeds a _) (λ _. (_, refl))))

      region_of-Succeeds :
          (a : Address) (o : Option (Node Address Flags)) → Succeeds (region_of w pool a o)
      region_of-Succeeds a none = (_, refl)
      region_of-Succeeds a (some n) = let (r, e) = region_of-Finds a n in (some r, e)

      pub get_region-Succeeds : (a : Address) → Succeeds (get_region w pool a)
      unfolding get_region
      get_region-Succeeds a = then-Succeeds _ _ (fetch-Succeeds a) (region_of-Succeeds a)

      pub get_region-Finds :
          (a : Address) (n : Node Address Flags)
          → fetch w pool a ≡ ok (some n)
          → Finds (get_region w pool a)
      unfolding get_region
      get_region-Finds a n e = rw e (region_of-Finds a n)
