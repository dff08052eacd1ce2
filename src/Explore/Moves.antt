-- ===== src/Explore/Moves.antt =====
-- Moves through the tree, by the explorer of src/commands/wallet/tree/explore.rs.
use zcash_devtool_sqlx.Base.{
  ◌+◌, ◌/◌, ◌≤◌, ◌≡◌, refl, ap, subst, ◌∙◌, Bool, true, false, Option, none, some, Result, ok, err,
  if◌then◌else◌, arith, ltb, OkIs,
}
use zcash_devtool_sqlx.Explore.{Trees, FetchError, fetch}
use zcash_devtool_sqlx.Explore.Drawing.{N}
use zcash_devtool_sqlx.Explore.Fetched.{HasAddress, fetch-HasAddress}
use zcash_devtool_sqlx.Explore.Moving.{
  Outcome, done, panics, at_node, to_child, App, then_do, set_address_if_valid, move_through_tree,
  up, down_left, down_right,
}

module _ (w : Trees) where
  open w use {addresses, Error, LocatedTree, Flags}
  open addresses use {Address, level, index, from_parts}

  -- A call to move ends: with the address unchanged and `false` where there is no such node, with the
  -- new one and `true` where there is, and in a panic only where the query fails.
  abbrev pub MovesTo :
      App Address Flags
      → Address
      → Result (FetchError Error Address) (Option (N w))
      → Outcome (App Address Flags × Bool)
      → Type 0
  MovesTo app a (err e) r = r ≡ panics
  MovesTo app a (ok none) r = r ≡ done (app, false)
  MovesTo app a (ok (some node)) r = r ≡ done (record app { address = a }, true)

  pub at_node-MovesTo :
      (app : App Address Flags) (a : Address) (r : Result (FetchError Error Address) (Option (N w)))
      → OkIs (HasAddress w a) r
      → MovesTo app a r (at_node w app a r)
  at_node-MovesTo app a (err e) h = refl
  at_node-MovesTo app a (ok none) h = refl
  at_node-MovesTo app a (ok (some node)) h = rw (h, addresses.same_address_self a) refl

  set_address_if_valid-MovesTo :
      (app : App Address Flags) (a : Address)
      → MovesTo app a (fetch w app.pool a) (set_address_if_valid w app a)
  unfolding set_address_if_valid
  set_address_if_valid-MovesTo app a = at_node-MovesTo app a _ (fetch-HasAddress w app.pool a).holds

  goes :
      (app : App Address Flags) (a : Address) (n : N w)
      → fetch w app.pool a ≡ ok (some n)
      → set_address_if_valid w app a ≡ done (record app { address = a }, true)
  goes app a n e =
      subst (λ r. MovesTo app a r (set_address_if_valid w app a)) e
        (set_address_if_valid-MovesTo app a)

  parent_of_child :
      (a c : Address)
      → level c + 1 ≡ level a
      → index c / 2 ≡ index a
      → level a ≤ 255
      → addresses.parent c ≡ a
  parent_of_child a c h k m =
      addresses.same_parts _ _ (omega (arith, addresses.level-parent c (omega arith)))
        (addresses.index-parent c ∙ k)

  up_again :
      (app : App Address Flags) (c : Address) (n : N w)
      → level c + 1 ≡ level app.address
      → index c / 2 ≡ index app.address
      → level app.address ≤ 32
      → fetch w app.pool app.address ≡ ok (some n)
      → move_through_tree w (record app { address = c }) up ≡ done (app, true)
  unfolding move_through_tree
  up_again app c n h k m e =
      let below : ltb (level c) 32 ≡ true = ground arith in
      rw below (
        ap (set_address_if_valid w (record app { address = c }))
          (parent_of_child app.address c h k (omega arith))
        ∙ goes (record app { address = c }) app.address n e)

  -- Down to a child, left or right, and up again is back at the same node (where the node and that
  -- child are found, and the level is 32 at most).
  pub down-up :
      (app : App Address Flags) (at_left : Bool) (l r : Address) (n m : N w)
      → level app.address ≤ 32
      → addresses.children app.address ≡ some (l, r)
      → fetch w app.pool app.address ≡ ok (some n)
      → fetch w app.pool (if at_left then l else r) ≡ ok (some m)
      → then_do
          (move_through_tree w app (if at_left then down_left else down_right))
          (λ (moved, _). move_through_tree w moved up)
        ≡ done (app, true)
  unfolding move_through_tree
  down-up app true l r n m low c e found =
      let (hl, _, il, _) = addresses.children_lem app.address l r c in
      ap (λ o. then_do (to_child w app (λ p. p.0) o) (λ (moved, _). move_through_tree w moved up)) c
      ∙ ap (λ o. then_do o (λ (moved, _). move_through_tree w moved up)) (goes app l m found)
      ∙ up_again app l n hl (omega (arith, il)) low e
  down-up app false l r n m low c e found =
      let (_, hr, _, ir) = addresses.children_lem app.address l r c in
      ap (λ o. then_do (to_child w app (λ p. p.1) o) (λ (moved, _). move_through_tree w moved up)) c
      ∙ ap (λ o. then_do o (λ (moved, _). move_through_tree w moved up)) (goes app r m found)
      ∙ up_again app r n hr (omega (arith, ir)) low e
