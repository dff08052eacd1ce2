-- ===== src/WithDerivation/Reached.antt =====
-- That src/commands/pczt/update_with_derivation.rs sets each derivation that can be set.
use zcash_devtool_sqlx.Base.{
  ℕ, ◌≡◌, sym, ap, ◌∙◌, Bool, true, false, Option, some, List, [], ◌∷◌, Result, ok, arith,
}
use zcash_devtool_sqlx.WithDerivation.{ArgumentError}
use zcash_devtool_sqlx.WithDerivation.Crates.{Crates, ShieldedPool, DescriptorKey, public, xpub}
use zcash_devtool_sqlx.WithDerivation.Outcomes.{Outcome, done, Failure, ◌>>=◌, lift}
use zcash_devtool_sqlx.WithDerivation.Inputs.{add_transparent, add_spends}
use zcash_devtool_sqlx.WithDerivation.Indexed.{if_any}
use zcash_devtool_sqlx.WithDerivation.Running.{
  parsed, expected, run_shielded, derive_children, descriptor_pubkey,
}
use zcash_devtool_sqlx.WithDerivation.Updated.{add_transparent-changed, add_spends-changed}
use zcash_devtool_sqlx.WithDerivation.Given.{
  Descends, Describes, HasBip32, HasZip32, HasDerivationFor,
}

-- A first step that gives a value goes on with it.
module _ {E A B : Type 0} (f : A → Outcome E B) (a : A) where
  pub after_done : (o : Outcome E A) → o ≡ done a → (o >>= f) ≡ f a
  after_done o h = ap (λ x. x >>= f) h

  pub after_ok : (r : Result E A) → r ≡ ok a → (lift r >>= f) ≡ f a
  after_ok r h = ap (λ x. lift x >>= f) h

  pub after_parsed : (r : Result ArgumentError A) → r ≡ ok a → (parsed r >>= f) ≡ f a
  after_parsed r h = ap (λ x. parsed x >>= f) h

  pub after_some : (e : Failure E) (o : Option A) → o ≡ some a → (expected e o >>= f) ≡ f a
  after_some e o h = ap (λ x. expected e x >>= f) h

if_any-found :
    {E A : Type 0} (b : Bool) (a out : A) → b ≡ true → out ≡ a → if_any {E = E} b a ≡ done out
if_any-found true a out h e = ap done (sym e)
if_any-found false a out h e = absurd (ground (arith, h))

module _ (c : Crates) where
  open c use {Error, Pczt, Pubkey, Bip32Derivation, Xpub, Child}

  Descends-derive_children :
      (key : Xpub) (child : List Child) (end : Xpub)
      → Descends c key child end
      → derive_children c key child ≡ done end
  unfolding derive_children
  Descends-derive_children key [] end e = ap done e
  Descends-derive_children key (child_number ∷ rest) end (next, e, h) =
      after_ok (λ curr_key. derive_children c curr_key rest) next (c.derive_child key child_number)
        e
      ∙ Descends-derive_children next rest end h

  pub Describes-descriptor_pubkey :
      (key : DescriptorKey Pubkey Xpub Child) (pubkey : Pubkey)
      → Describes c key pubkey
      → descriptor_pubkey c key ≡ done pubkey
  unfolding descriptor_pubkey
  Describes-descriptor_pubkey (public key) pubkey e = ap done e
  Describes-descriptor_pubkey (xpub key child) pubkey (end, h, e) =
      after_done (λ curr_key. done (c.public_key curr_key)) end (derive_children c key child)
        (Descends-derive_children key child end h)
      ∙ ap done e

  pub HasBip32-add_transparent :
      (pczt : Pczt) (pubkey : Pubkey) (derivation : Bip32Derivation) (out : Pczt)
      → HasBip32 c pczt pubkey derivation out
      → add_transparent c pczt pubkey derivation ≡ done out
  HasBip32-add_transparent pczt pubkey derivation out (copy, inputs, h, e, found, o) =
      add_transparent-changed c pczt pubkey derivation copy inputs h e
      ∙ if_any-found _ _ out found o

  module _ (pool : ShieldedPool Error Pczt c.Fingerprint) where
    open pool use {Key, Derivation}

    HasZip32-add_spends :
        (pczt : Pczt) (key : Key) (derivation : Derivation) (out : Pczt)
        → HasZip32 c pool pczt key derivation out
        → add_spends c pool pczt key derivation ≡ done out
    HasZip32-add_spends pczt key derivation out (copy, spends, h, e, found, o) =
        add_spends-changed c pool pczt key derivation copy spends h e ∙ if_any-found _ _ out found o

    pub HasDerivationFor-run_shielded :
        (key_of : c.Network → c.Seed → ℕ → Result Error Key) (pczt : Pczt) (params : c.Network)
        (seed : c.Seed) (seed_fp : c.Fingerprint) (path : List ℕ) (out : Pczt)
        → HasDerivationFor c pool key_of pczt params seed seed_fp path out
        → run_shielded c pool key_of pczt params seed seed_fp path ≡ done out
    unfolding run_shielded
    HasDerivationFor-run_shielded key_of pczt params seed seed_fp path out
          (derivation, account, key, e, a, g, h) =
        after_ok _ derivation _ e
        ∙ after_some _ account _ _ a
        ∙ after_ok _ key _ g
        ∙ HasZip32-add_spends pczt key derivation out h
