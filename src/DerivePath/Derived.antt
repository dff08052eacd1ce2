-- ===== src/DerivePath/Derived.antt =====
-- Which address the derive-path command shows (src/commands/wallet/derive_path.rs).
use zcash_devtool_sqlx.Base.{
  ℕ, ◌≡◌, ◌↔◌, refl, ap, subst, ◌∙◌, Bool, true, false, Option, none, some, List, [], ◌∷◌, Result,
  ok, err, ◌>>=◌, ◌&&◌, if◌then◌else◌, bind_ok, arith,
}
use zcash_devtool_sqlx.Protocol.{transparent, shielded, ShieldedProtocol, sapling, orchard}
use zcash_devtool_sqlx.DerivePath.{
  Keys, Ending, printed, failed, panicked, Note, derive_path, show_key, run_transparent,
  sapling_ending, run_sapling, orchard_ending, run_orchard, run_pool, show_transparent,
  show_shielded,
}
use zcash_devtool_sqlx.DerivePath.Shown.{
  Under, IsChainPath, IsAccountPath, show_transparent_iff, show_shielded_iff,
}

-- A property of the one account that is chosen.
of_account : (P : ℕ → Type 0) (acc : ℕ) → P acc ↔ (x : ℕ) × (some acc ≡ some x) × P x
of_account P acc = (λ h. (acc, refl, h), λ (x, e, h). subst P (ground (arith, e)) h)

iff_trans : {P Q R : Type 0} → P ↔ Q → Q ↔ R → P ↔ R
iff_trans (f, f') (g, g') = (λ p. g (f p), λ r. f' (g' r))

for_account :
    {P Q : ℕ → Type 0} (R : ℕ → Type 0)
    → ((x : ℕ) → P x ↔ Q x)
    → ((x : ℕ) × P x × R x) ↔ ((x : ℕ) × Q x × R x)
for_account R f = (λ (x, p, r). (x, (f x).0 p, r), λ (x, q, r). (x, (f x).1 q, r))

module _ {E A : Type 0} where
  -- The command ends without an error, and shows the address.
  abbrev pub Shows : Ending E A → A → Type 0
  Shows (printed notes (some b)) a = b ≡ a
  Shows (printed notes none) a = ⊥
  Shows (failed e) a = ⊥
  Shows panicked a = ⊥

  abbrev pub Panics : Ending E A → Type 0
  Panics (printed notes shown) = ⊥
  Panics (failed e) = ⊥
  Panics panicked = Unit

module _ (k : Keys) where
  open k use {Error, Seed, Key, Address}

  -- The indices that the protocol's crate accepts.
  abbrev pub in_range : ShieldedProtocol → ℕ → ℕ → Bool
  in_range sapling coin acc = k.can_harden coin && k.can_harden acc
  in_range orchard coin acc = k.is_account acc

  -- What the protocol's crate derives for an account.
  abbrev pub address_of : ShieldedProtocol → Seed → ℕ → ℕ → Option Address
  address_of sapling seed coin acc = some (k.sapling_address seed coin acc)
  address_of orchard seed coin acc = k.orchard_address seed coin acc

  -- An address is the one of an account whose indices are in range.
  abbrev pub Gives : ShieldedProtocol → Seed → ℕ → ℕ → Address → Type 0
  Gives p seed coin acc a = (in_range p coin acc ≡ true) × (address_of p seed coin acc ≡ some a)

  -- A key is reached from another by the children of a path.
  abbrev pub Follows : Key → List (ℕ × Bool) → Key → Type 0
  Follows key [] end = key ≡ end
  Follows key (index ∷ rest) end =
      (child : Key) × (k.derive_child key index ≡ ok child) × Follows child rest end

  derive_path-Follows :
      (key : Key) (path : List (ℕ × Bool)) (end : Key)
      → derive_path k key path ≡ ok end
      → Follows key path end
  unfolding derive_path
  derive_path-Follows key [] end e = ground (arith, e)
  derive_path-Follows key (index ∷ rest) end e =
      let (child, h, more) =
        bind_ok (k.derive_child key index) (λ child. derive_path k child rest) end e in
      (child, h, derive_path-Follows child rest end more)

  Follows-derive_path :
      (key : Key) (path : List (ℕ × Bool)) (end : Key)
      → Follows key path end
      → derive_path k key path ≡ ok end
  unfolding derive_path
  Follows-derive_path key [] end e = ap ok e
  Follows-derive_path key (index ∷ rest) end (child, h, more) =
      ap (λ r. r >>= (λ x. derive_path k x rest)) h ∙ Follows-derive_path child rest end more

  show_key_iff :
      (shown : List Note × Bool) (r : Result Error Key) (a : Address)
      → Shows (show_key k shown r) a
        ↔ (shown.1 ≡ true) × (key : Key) × (r ≡ ok key) × (k.p2pkh_address key ≡ a)
  show_key_iff shown (err e) a = ground arith
  show_key_iff (notes, false) (ok key) a = ground arith
  show_key_iff (notes, true) (ok key) a = (
    λ e. (refl, key, refl, e),
    λ (_, x, h, e). subst (λ y. k.p2pkh_address y ≡ a) (ground (arith, h)) e,
  )

  show_key-Panics :
      (shown : List Note × Bool) (r : Result Error Key) → ¬ Panics (show_key k shown r)
  show_key-Panics shown (ok key) h = h
  show_key-Panics shown (err e) h = h

  guarded-Shows :
      (notes : List Note) (b : Bool) (o : Option Address) (a : Address)
      → Shows {E = Error} (if b then printed notes o else panicked) a ↔ (b ≡ true) × (o ≡ some a)
  guarded-Shows notes true none a = ground arith
  guarded-Shows notes true (some b) a = (λ e. (refl, ap some e), λ (_, e). ground (arith, e))
  guarded-Shows notes false o a = ground arith

  guarded-Panics :
      (notes : List Note) (b : Bool) (o : Option Address)
      → Panics {E = Error} {A = Address} (if b then printed notes o else panicked) ↔ (b ≡ false)
  guarded-Panics notes true o = ground arith
  guarded-Panics notes false o = ground arith

  -- The endings of the two shielded pools.
  abbrev ending_of : ShieldedProtocol → Seed → ℕ → List Note × Option ℕ → Ending Error Address
  ending_of sapling = sapling_ending k
  ending_of orchard = orchard_ending k

  module _ (seed : Seed) (coin : ℕ) where
    ending_of-Shows :
        (p : ShieldedProtocol) (shown : List Note × Option ℕ) (a : Address)
        → Shows (ending_of p seed coin shown) a
          ↔ (acc : ℕ) × (shown.1 ≡ some acc) × Gives p seed coin acc a
    unfolding sapling_ending orchard_ending
    ending_of-Shows sapling (notes, none) a = ground arith
    ending_of-Shows orchard (notes, none) a = ground arith
    ending_of-Shows sapling (notes, some acc) a =
        iff_trans
          (guarded-Shows notes (in_range sapling coin acc) (address_of sapling seed coin acc) a)
          (of_account (λ x. Gives sapling seed coin x a) acc)
    ending_of-Shows orchard (notes, some acc) a =
        iff_trans
          (guarded-Shows notes (in_range orchard coin acc) (address_of orchard seed coin acc) a)
          (of_account (λ x. Gives orchard seed coin x a) acc)

    ending_of-Panics :
        (p : ShieldedProtocol) (shown : List Note × Option ℕ)
        → Panics (ending_of p seed coin shown)
          ↔ (acc : ℕ) × (shown.1 ≡ some acc) × (in_range p coin acc ≡ false)
    unfolding sapling_ending orchard_ending
    ending_of-Panics sapling (notes, none) = ground arith
    ending_of-Panics orchard (notes, none) = ground arith
    ending_of-Panics sapling (notes, some acc) =
        iff_trans
          (guarded-Panics notes (in_range sapling coin acc) (address_of sapling seed coin acc))
          (of_account (λ x. in_range sapling coin x ≡ false) acc)
    ending_of-Panics orchard (notes, some acc) =
        iff_trans
          (guarded-Panics notes (in_range orchard coin acc) (address_of orchard seed coin acc))
          (of_account (λ x. in_range orchard coin x ≡ false) acc)

    run_pool-ending_of :
        (p : ShieldedProtocol) (path : List (ℕ × Bool))
        → run_pool k (shielded p) seed coin path ≡ ending_of p seed coin (show_shielded coin path)
    unfolding run_pool run_sapling run_orchard
    run_pool-ending_of sapling path = refl
    run_pool-ending_of orchard path = refl

  -- For the Sapling and the Orchard pool the command shows an address for just the paths
  -- m/32'/coin/account with the coin type of the wallet's network, hardened or not behind the purpose,
  -- with indices in the range of the pool's crate: the address that the crate gives for the seed and
  -- that account. It panics for just the paths of that form with an index out of range.
  pub run_shielded_iff :
      (p : ShieldedProtocol) (seed : Seed) (coin : ℕ) (path : List (ℕ × Bool)) (a : Address)
      → (Shows (run_pool k (shielded p) seed coin path) a
          ↔ (acc : ℕ) × Under 32 (IsAccountPath coin acc) path × Gives p seed coin acc a)
        × (Panics (run_pool k (shielded p) seed coin path)
            ↔ (acc : ℕ) × Under 32 (IsAccountPath coin acc) path × (in_range p coin acc ≡ false))
  run_shielded_iff p seed coin path a = rw (run_pool-ending_of seed coin p path) (
    iff_trans (ending_of-Shows seed coin p (show_shielded coin path) a)
        (for_account (λ acc. Gives p seed coin acc a) (λ acc. show_shielded_iff coin acc path)),
    iff_trans (ending_of-Panics seed coin p (show_shielded coin path))
        (for_account (λ acc. in_range p coin acc ≡ false) (λ acc. show_shielded_iff coin acc path)),
  )

  -- For the transparent pool the command shows an address for just the paths
  -- m/44'/coin/account/chain/index with the coin type of the wallet's network, hardened or not behind
  -- the purpose, for which the seed has a master key and each child key from it down the path can be
  -- derived: the address of the last key. It never panics.
  pub run_transparent_iff :
      (seed : Seed) (coin : ℕ) (path : List (ℕ × Bool)) (a : Address)
      → (Shows (run_pool k transparent seed coin path) a
          ↔ Under 44 (IsChainPath coin) path
            × (m : Key) × (key : Key) × (k.master_key seed ≡ ok m)
            × Follows m path key
            × (k.p2pkh_address key ≡ a))
        × ¬ Panics (run_pool k transparent seed coin path)
  unfolding run_pool run_transparent
  run_transparent_iff seed coin path a =
      let derived = k.master_key seed >>= (λ key. derive_path k key path) in
      let (to, back) = show_key_iff (show_transparent coin path) derived a in
      let (under, over) = show_transparent_iff coin path in
      (
        (
          λ s.
              let (shown, key, h, e) = to s in
              let (m, g, f) = bind_ok (k.master_key seed) (λ x. derive_path k x path) key h in
              (under shown, m, key, g, derive_path-Follows m path key f, e),
          λ (u, m, key, h, f, e). back (
            over u,
            key,
            ap (λ r. r >>= (λ x. derive_path k x path)) h ∙ Follows-derive_path m path key f,
            e,
          ),
        ),
        show_key-Panics (show_transparent coin path) derived,
      )
