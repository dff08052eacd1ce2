-- ===== src/Explore/Fetched.antt =====
-- What the fetches of nodes give (`NodeFetcher` in src/commands/wallet/tree/explore.rs).
use zcash_devtool_sqlx.Base.{
  ◌≡◌, refl, Option, none, some, Result, ok, err, ltb, IfOk, IfOk-ok, IfOk-err, IfOk-if,
}
use zcash_devtool_sqlx.Protocol.{ShieldedProtocol}
use zcash_devtool_sqlx.Explore.{
  Trees, FetchError, Node, fetch, map_found, map_node, new_node, in_cap, in_tree, in_shard,
  shard_root_level,
}

module _ (w : Trees) where
  open w use {addresses, Error, LocatedTree, Flags}
  open addresses use {Address, level, index}

  -- What is found has the address that was asked for.
  abbrev pub HasAddress : Address → Option (Node Address Flags) → Type 0
  HasAddress a none = Unit
  HasAddress a (some n) = n.address ≡ a

  map_node-HasAddress :
      (a : Address) (t : LocatedTree) (o : Option LocatedTree)
      → w.subtree t a ≡ o
      → HasAddress a (map_node w o)
  unfolding new_node
  map_node-HasAddress a t none e = tt
  map_node-HasAddress a t (some s) e = w.root_addr-subtree t s a e

  map_found-HasAddress :
      (a : Address) (r : Result (FetchError Error Address) (Option LocatedTree))
      → IfOk (λ o. HasAddress a (map_node w o)) r
      → IfOk (HasAddress a) (map_found w r)
  map_found-HasAddress a (ok o) h = IfOk-ok _ h.holds
  map_found-HasAddress a (err e) h = IfOk-err _

  in_tree-HasAddress :
      (a : Address) (r : Result Address LocatedTree)
      → IfOk (λ o. HasAddress a (map_node w o)) (in_tree w a r)
  in_tree-HasAddress a (ok t) = IfOk-ok _ (map_node-HasAddress a t (w.subtree t a) refl)
  in_tree-HasAddress a (err at) = IfOk-err _

  in_cap-HasAddress :
      (a : Address) (r : Result Error w.Cap)
      → IfOk (λ o. HasAddress a (map_node w o)) (in_cap w a r)
  in_cap-HasAddress a (ok cap) = in_tree-HasAddress a _
  in_cap-HasAddress a (err e) = IfOk-err _

  in_shard-HasAddress :
      (a : Address) (r : Result Error (Option LocatedTree))
      → IfOk (λ o. HasAddress a (map_node w o)) (in_shard w a r)
  in_shard-HasAddress a (ok none) = IfOk-ok _ tt
  in_shard-HasAddress a (ok (some t)) = IfOk-ok _ (map_node-HasAddress a t (w.subtree t a) refl)
  in_shard-HasAddress a (err e) = IfOk-err _

  pub fetch-HasAddress :
      (pool : ShieldedProtocol) (a : Address) → IfOk (HasAddress a) (fetch w pool a)
  unfolding fetch
  fetch-HasAddress pool a = map_found-HasAddress a _ (
      IfOk-if (ltb shard_root_level (level a)) (in_cap w a (w.get_cap pool)) _
        (λ _. in_cap-HasAddress a (w.get_cap pool)) (λ _. in_shard-HasAddress a _))
