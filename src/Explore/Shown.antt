-- ===== src/Explore/Shown.antt =====
-- What the explorer of src/commands/wallet/tree/explore.rs shows after its moves.
use zcash_devtool_sqlx.Base.{
  ℕ, zero, suc, ◌-◌, ◌≤◌, ◌≡◌, refl, sym, ap, subst, ◌∙◌, Bool, true, false, Option, none, some,
  Result, ok, err, arith, ltb, if◌then◌else◌, IfOk, IfOk-ok, IfOk-value, List, [], ◌∷◌, OkIs,
  IfOk-bind, ltb→lt, Bool-cases, inl, inr,
}
use zcash_devtool_sqlx.Base.Maps.{lookup}
use zcash_devtool_sqlx.Protocol.{ShieldedProtocol}
use zcash_devtool_sqlx.Explore.{Trees, FetchError, fetch, with_boundary, add_block_boundary}
use zcash_devtool_sqlx.Explore.Region.{
  Region, get_region, region_of, get_children, get_parent, get_other_parent, other_sibling,
}
use zcash_devtool_sqlx.Explore.Drawing.{N, add_block_boundaries, mark_region_node}
use zcash_devtool_sqlx.Explore.Fetched.{HasAddress, fetch-HasAddress}
use zcash_devtool_sqlx.Explore.Moving.{
  Outcome, done, panics, out_of_fuel, climb, at_found, at_node, to_child, App, reload_region,
  marked, then_do, set_address_if_valid, move_through_tree, Direction, up, left, right, down_left,
  down_right, after_move, handle, run, Action, quit, tick, render, move,
}
use zcash_devtool_sqlx.Explore.Moves.{at_node-MovesTo}

-- What a call returns has a property, if it returns.
abbrev pub IfDone : {A : Type 0} → (A → Type 0) → Outcome A → Type 0
IfDone P (done a) = P a
IfDone P panics = Unit
IfDone P out_of_fuel = Unit

IfDone-then :
    {A B : Type 0} {P : A → Type 0} (Q : B → Type 0) (o : Outcome A) (f : A → Outcome B)
    → IfDone P o
    → ((a : A) → P a → IfDone Q (f a))
    → IfDone Q (then_do o f)
IfDone-then Q (done a) f h k = k a h
IfDone-then Q panics f h k = tt
IfDone-then Q out_of_fuel f h k = tt

module _ (w : Trees) where
  open w use {addresses, Error, LocatedTree, Flags}
  open addresses use {Address, level, index, from_parts}

  -- A region is shown, of the node with the app's address, at level 32 at most.
  abbrev pub IsShown : App Address Flags → Type 0
  IsShown app =
      (level app.address ≤ 32)
      × ((region : Region (N w)) × (app.region ≡ some region) × (region.node.address ≡ app.address))

  -- An address is found, at level 32 at most.
  abbrev pub IsFound : App Address Flags → Type 0
  IsFound app =
      (level app.address ≤ 32) × ((n : N w) × (fetch w app.pool app.address ≡ ok (some n)))

  -- After a move that took place the address is found, and otherwise the app is the same.
  abbrev pub IsMoved : App Address Flags → App Address Flags × Bool → Type 0
  IsMoved app (next, true) = IsFound next
  IsMoved app (next, false) = next ≡ app

  at_node-IsMoved :
      (app : App Address Flags) (a : Address) (r : Result (FetchError Error Address) (Option (N w)))
      → level a ≤ 32
      → fetch w app.pool a ≡ r
      → IfDone (IsMoved app) (at_node w app a r)
  at_node-IsMoved app a (err e) h k = tt
  at_node-IsMoved app a (ok none) h k = refl
  at_node-IsMoved app a (ok (some n)) h k =
      subst (IfDone (IsMoved app))
        (sym (
          at_node-MovesTo w app a (ok (some n))
            (subst (OkIs (HasAddress w a)) k (fetch-HasAddress w app.pool a).holds)))
        (h, (n, k))

  to_child-IsMoved :
      (app : App Address Flags) (which : Address × Address → Address)
      (o : Option (Address × Address))
      → ((p : Address × Address) → o ≡ some p → level (which p) ≤ 32)
      → IfDone (IsMoved app) (to_child w app which o)
  unfolding set_address_if_valid
  to_child-IsMoved app which none h = refl
  to_child-IsMoved app which (some p) h = at_node-IsMoved app _ _ (h p refl) refl

  move-IsMoved :
      (app : App Address Flags) (d : Direction)
      → level app.address ≤ 32
      → IfDone (IsMoved app) (move_through_tree w app d)
  unfolding move_through_tree set_address_if_valid
  move-IsMoved app up h = elim (Bool-cases (ltb (level app.address) 32)) [
    | inl e ↦ rw e (
        at_node-IsMoved app _ _
          (omega (
            arith,
            addresses.level-parent app.address (ground arith),
            ltb→lt (level app.address) 32 e,
          ))
          refl)
    | inr e ↦ rw e refl
  ]
  move-IsMoved app left h =
      at_node-IsMoved app _ _
        (omega (arith, addresses.level-from_parts (level app.address) (index app.address - 1))) refl
  move-IsMoved app right h =
      at_node-IsMoved app _ _ (omega (arith, addresses.level-next_at_level app.address)) refl
  move-IsMoved app down_left h =
      to_child-IsMoved app _ _
        (λ (l, r) e. let (hl, hr, il, ir) = addresses.children_lem app.address l r e in omega arith)
  move-IsMoved app down_right h =
      to_child-IsMoved app _ _
        (λ (l, r) e. let (hl, hr, il, ir) = addresses.children_lem app.address l r e in omega arith)

  -- A region around a node.
  abbrev pub Around : N w → Option (Region (N w)) → Type 0
  Around n o = (region : Region (N w)) × (o ≡ some region) × (region.node ≡ n)

  region_of-Around :
      (pool : ShieldedProtocol) (a : Address) (n : N w)
      → IfOk (Around n) (region_of w pool a (some n))
  region_of-Around pool a n = IfOk-bind (get_children w pool (addresses.children a)) _ (λ (l, r).
      IfOk-bind (get_parent w pool true (addresses.sibling a) (addresses.is_right_child a)) _ (λ p.
        IfOk-bind (get_other_parent w pool a (other_sibling w pool a)) _
          (λ op. IfOk-ok _ (_, refl, refl))))

  get_region-Around :
      (pool : ShieldedProtocol) (a : Address) (n : N w)
      → fetch w pool a ≡ ok (some n)
      → IfOk (Around n) (get_region w pool a)
  unfolding get_region
  get_region-Around pool a n e = rw e (region_of-Around pool a n)

  -- A climb that did not leave its address.
  abbrev pub Stays : Address → Region (N w) × Address → Type 0
  Stays a (region, b) = region.node.address ≡ a

  at_found-Stays :
      (again : Address → Outcome (Region (N w) × Address)) (a : Address) (n : N w)
      (r : Result (FetchError Error Address) (Option (Region (N w))))
      → n.address ≡ a
      → IfOk (Around n) r
      → IfDone (Stays a) (at_found w again a r)
  at_found-Stays again a n (err e) h k = tt
  at_found-Stays again a n (ok o) h k =
      let (region, e, same) = k.holds in rw e (ap (λ (m : N w). m.address) same ∙ h)

  climb-Stays :
      (fuel : ℕ) (pool : ShieldedProtocol) (a : Address) (n : N w)
      → fetch w pool a ≡ ok (some n)
      → IfDone (Stays a) (climb w fuel pool a)
  unfolding climb
  climb-Stays zero pool a n e = tt
  climb-Stays (suc fuel) pool a n e =
      at_found-Stays (climb w fuel pool) a n _ (IfOk-value _ (some n) (fetch-HasAddress w pool a) e)
        (get_region-Around pool a n e)

  with_boundary-address : (n : N w) (o : Option ℕ) → (with_boundary w n o).address ≡ n.address
  with_boundary-address n none = refl
  with_boundary-address n (some h) = refl

  add_block_boundary-address :
      (f : ℕ → Option ℕ) (n : N w) → (add_block_boundary w f n).address ≡ n.address
  unfolding add_block_boundary
  add_block_boundary-address f n = with_boundary-address n _

  mark_region_node-address :
      (f : ℕ → Option ℕ) (o : Option (N w)) (region : Region (N w))
      → region.r ≡ o
      → (mark_region_node w f region).node.address ≡ region.node.address
  unfolding mark_region_node
  mark_region_node-address f none region e = rw e (add_block_boundary-address f region.node)
  mark_region_node-address f (some r) region e = rw e refl

  marked-address :
      (m : Option (List (ℕ × ℕ))) (region : Region (N w))
      → (marked w m region).node.address ≡ region.node.address
  unfolding add_block_boundaries
  marked-address none region = refl
  marked-address (some m) region = mark_region_node-address (λ k. lookup k m) region.r region refl

  reload-IsShown :
      (fuel : ℕ) (app : App Address Flags) → IsFound app → IfDone IsShown (reload_region w fuel app)
  unfolding reload_region
  reload-IsShown fuel app (h, (n, e)) =
      IfDone-then {P = Stays app.address} IsShown (climb w fuel app.pool app.address) _
        (climb-Stays fuel app.pool app.address n e)
        (λ (region, b) k. (
          h,
          (
            marked w app.block_boundaries region,
            refl,
            marked-address app.block_boundaries region ∙ k,
          ),
        ))

  after_move-IsShown :
      (fuel : ℕ) (app : App Address Flags)
      → IsShown app
      → (p : App Address Flags × Bool) → IsMoved app p
      → IfDone IsShown (after_move w fuel p)
  after_move-IsShown fuel app h (next, true) k = reload-IsShown fuel next k
  after_move-IsShown fuel app h (next, false) k = subst IsShown (sym k) h

  handle-IsShown :
      (fuel : ℕ) (action : Action) (app : App Address Flags)
      → IsShown app
      → IfDone IsShown (handle w fuel action app)
  unfolding handle
  handle-IsShown fuel quit app h = h
  handle-IsShown fuel tick app h = h
  handle-IsShown fuel render app h = h
  handle-IsShown fuel (move d) app h =
      IfDone-then {P = IsMoved app} IsShown _ _ (move-IsMoved app d h.0)
        (after_move-IsShown fuel app h)

  quit_or :
      (b : Bool) (rest : Outcome (App Address Flags)) (next : App Address Flags)
      → IsShown next
      → IfDone IsShown rest
      → IfDone IsShown (if b then done next else rest)
  quit_or true rest next h k = h
  quit_or false rest next h k = k

  -- Whatever the actions, an explorer that shows the region of its address, at level 32 at most, still
  -- shows the region of its address, at level 32 at most, where the run returns.
  pub run-IsShown :
      (fuel : ℕ) (actions : List Action) (app : App Address Flags)
      → IsShown app
      → IfDone IsShown (run w fuel actions app)
  unfolding run
  run-IsShown fuel [] app h = h
  run-IsShown fuel (action ∷ rest) app h =
      IfDone-then {P = IsShown} IsShown _ _ (handle-IsShown fuel action app h)
        (λ next k. quit_or next.should_quit _ next k (run-IsShown fuel rest next k))
