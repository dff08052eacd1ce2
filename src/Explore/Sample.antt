-- ===== src/Explore/Sample.antt =====
-- A tree with four leaves, for src/commands/wallet/tree/explore.rs.
use zcash_devtool_sqlx.Base.{
  ℕ, zero, suc, ◌+◌, ◌-◌, ◌*◌, ◌/◌, ◌%◌, ◌^◌, ◌≡◌, ◌==◌, refl, sym, ap, Bool, true, false, ◌&&◌,
  Option, none, some, ok, ltb, if◌then◌else◌, arith,
}
use zcash_devtool_sqlx.Explore.{Addresses, Trees}

abbrev or_some : {A : Type 0} → A → Option A → A
or_some a none = a
or_some a (some b) = b

abbrev children : ℕ × ℕ → Option ((ℕ × ℕ) × (ℕ × ℕ))
children (zero, i) = none
children (suc l, i) = some ((l, 2 * i), (l, 2 * i + 1))

pub parts : (a b : ℕ × ℕ) → a.0 ≡ b.0 → a.1 ≡ b.1 → a ≡ b
parts a b h k = λ i. (h i, k i)

pub same : (a b : ℕ × ℕ) → ((a.0 == b.0) && (a.1 == b.1)) ≡ true → a ≡ b
same a b h = parts a b (ground arith) (ground arith)

pub self : (a : ℕ × ℕ) → ((a.0 == a.0) && (a.1 == a.1)) ≡ true
self a = ground arith

pub children_below :
    (a l r : ℕ × ℕ)
    → children a ≡ some (l, r)
    → (l.0 + 1 ≡ a.0) × (r.0 + 1 ≡ a.0) × (l.1 ≡ 2 * a.1) × (r.1 ≡ 2 * a.1 + 1)
children_below (zero, i) l r h = ground (arith, h)
children_below (suc k, i) l r h =
    let e : (l, r) ≡ ((k, 2 * i), (k, 2 * i + 1)) = sym (ap (or_some ((k, 0), (k, 0))) h) in
    (
      omega (arith, ap (λ p. p.0.0) e),
      omega (arith, ap (λ p. p.1.0) e),
      ap (λ p. p.0.1) e,
      ap (λ p. p.1.1) e,
    )

abbrev pub pair_addresses : Addresses
pair_addresses = record {
  Address = ℕ × ℕ;
  level = λ (l, i). l;
  index = λ (l, i). i;
  from_parts = λ l i. (l, i);
  parent = λ (l, i). (l + 1, i / 2);
  sibling = λ (l, i). (l, if i % 2 == 0 then i + 1 else i - 1);
  next_at_level = λ (l, i). (l, i + 1);
  children = children;
  is_left_child = λ (l, i). i % 2 == 0;
  is_right_child = λ (l, i). i % 2 == 1;
  above_position = λ l p. (l, p / 2 ^ l);
  position_range_start = λ (l, i). i * 2 ^ l;
  max_position = λ (l, i). (i + 1) * 2 ^ l - 1;
  same_address = λ (l, i) (m, j). (l == m) && (i == j);
  same_address_eq = same;
  same_address_self = self;
  level-from_parts = λ l i. refl;
  index-from_parts = λ l i. refl;
  level-parent = λ a h. refl;
  index-parent = λ a. refl;
  level-sibling = λ a. refl;
  index-sibling = λ a. refl;
  level-next_at_level = λ a. refl;
  index-next_at_level = λ a h. refl;
  children_lem = children_below;
  same_parts = parts;
  is_left_child_lem = λ a. refl;
  is_right_child_lem = λ a. refl;
}

-- There is a node for each address below level 33 with one of the first four leaves under it.
abbrev pub subtree : ℕ × ℕ → ℕ × ℕ → Option (ℕ × ℕ)
subtree t (l, i) = if ltb l 33 && ltb (i * 2 ^ l) 4 then some (l, i) else none

chosen : (b : Bool) (a s : ℕ × ℕ) → (if b then some a else none) ≡ some s → s ≡ a
chosen true a s h = sym (ap (or_some a) h)
chosen false a s h = ground (arith, h)

pub subtree_eq : (t s a : ℕ × ℕ) → subtree t a ≡ some s → s ≡ a
subtree_eq t s a h = chosen (ltb a.0 33 && ltb (a.1 * 2 ^ a.0) 4) a s h

abbrev pub size_after : ℕ → Option (Option ℕ)
size_after height =
    if height == 100
    then some (some 3)
    else if height == 101
    then none
    else if height == 102
    then some (some 3)
    else some (some 5)

abbrev pub four_leaves : Trees
four_leaves = record {
  addresses = pair_addresses;
  Error = Unit;
  Cap = Unit;
  LocatedTree = ℕ × ℕ;
  Flags = Unit;
  get_cap = λ pool. ok tt;
  cap_tree = λ a cap. ok a;
  get_shard = λ pool a. ok (some a);
  subtree = subtree;
  root_addr = λ t. t;
  annotation_of = λ t. none;
  value_of = λ t. none;
  flags_of = λ t. none;
  is_nil_tree = λ t. false;
  has_checkpoint = λ f. false;
  is_marked = λ f. false;
  is_ephemeral = λ f. false;
  has_reference = λ f. false;
  get_wallet_birthday = ok (some 100);
  block_max_scanned = ok (some 103);
  tree_size = λ pool height. ok (size_after height);
  root_addr-subtree = subtree_eq;
}
