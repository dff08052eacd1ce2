-- ===== src/WithDerivation/Given.antt =====
-- Whose derivation src/commands/pczt/update_with_derivation.rs sets in a PCZT: the keys of the seed
-- for an account, and the inputs that use them.
use zcash_devtool_sqlx.Base.{ℕ, ◌≡◌, refl, true, some, List, [], ◌∷◌, map, Result, ok}
use zcash_devtool_sqlx.WithDerivation.Crates.{Crates, ShieldedPool, DescriptorKey, public, xpub}
use zcash_devtool_sqlx.WithDerivation.Inputs.{
  any, uses, set_input, add_transparent, is_received, set_spend, add_spends,
}
use zcash_devtool_sqlx.WithDerivation.Running.{
  hardened, run_shielded, derive_children, descriptor_pubkey,
}
use zcash_devtool_sqlx.WithDerivation.Updated.{
  IfDone, weaken, IfDone-given, IfDone-lift, IfDone-expected, copied, with_derivation, with_zip32,
}

module _ (c : Crates) where
  open c use {Error, Pczt, Input, Pubkey, Bip32Derivation, Xpub, Child}

  -- A key is reached from another by child keys.
  abbrev pub Descends : Xpub → List Child → Xpub → Type 0
  Descends key [] end = key ≡ end
  Descends key (child ∷ rest) end =
      (next : Xpub) × (c.derive_child key child ≡ ok next) × Descends next rest end

  -- The public key that a descriptor's key stands for.
  abbrev pub Describes : DescriptorKey Pubkey Xpub Child → Pubkey → Type 0
  Describes (public key) pubkey = key ≡ pubkey
  Describes (xpub key child) pubkey =
      (end : Xpub) × Descends key child end × (c.public_key end ≡ pubkey)

  derive_children-Descends :
      (key : Xpub) (child : List Child) → IfDone (Descends key child) (derive_children c key child)
  unfolding derive_children
  derive_children-Descends key [] = refl
  derive_children-Descends key (child_number ∷ rest) =
      IfDone-lift (Descends key (child_number ∷ rest)) _ (c.derive_child key child_number)
        (λ next e.
          weaken (Descends next rest) (Descends key (child_number ∷ rest)) (λ end h. (next, e, h)) _
            (derive_children-Descends next rest))

  pub descriptor_pubkey-Describes :
      (key : DescriptorKey Pubkey Xpub Child) → IfDone (Describes key) (descriptor_pubkey c key)
  unfolding descriptor_pubkey
  descriptor_pubkey-Describes (public key) = refl
  descriptor_pubkey-Describes (xpub key child) =
      IfDone-given (Describes (xpub key child)) _ (Descends key child) (derive_children c key child)
        (derive_children-Descends key child) (λ end h. (end, h, refl))

  -- A PCZT in which the inputs that use a key have a derivation, and nothing else is changed.
  abbrev pub HasBip32 : Pczt → Pubkey → Bip32Derivation → Pczt → Type 0
  HasBip32 pczt pubkey derivation out =
      (copy : Bip32Derivation) × (inputs : List Input) × (c.parse_derivation
          (c.seed_fingerprint derivation) (c.derivation_path derivation)
        ≡ ok copy)
      × (c.inputs pczt ≡ ok inputs)
      × (any (uses c pubkey) inputs ≡ true)
      × (out ≡ c.with_inputs pczt (map (with_derivation c pubkey copy) inputs))

  pub add_transparent-HasBip32 :
      (pczt : Pczt) (pubkey : Pubkey) (derivation : Bip32Derivation)
      → IfDone (HasBip32 pczt pubkey derivation) (add_transparent c pczt pubkey derivation)
  unfolding add_transparent set_input
  add_transparent-HasBip32 pczt pubkey derivation =
      IfDone-lift (HasBip32 pczt pubkey derivation) _ (c.inputs pczt) (λ inputs e.
        copied c.input_updates (HasBip32 pczt pubkey derivation) (uses c pubkey)
          (λ copy i. c.set_bip32_derivation i (c.serialize pubkey) copy) (c.with_inputs pczt) inputs
          (set_input c pubkey derivation)
          (c.parse_derivation (c.seed_fingerprint derivation) (c.derivation_path derivation))
          (λ x. refl) (λ copy h found. (copy, inputs, h, e, found, refl)))

  module _ (pool : ShieldedPool Error Pczt c.Fingerprint) where
    open pool use {Spend, Key, Derivation}

    -- The same of the spends of a shielded pool that are received by a key.
    abbrev pub HasZip32 : Pczt → Key → Derivation → Pczt → Type 0
    HasZip32 pczt key derivation out =
        (copy : Derivation) × (spends : List Spend) × (pool.parse_derivation
            (pool.seed_fingerprint derivation) (pool.derivation_path derivation)
          ≡ ok copy)
        × (pool.spends pczt ≡ ok spends)
        × (any (is_received c pool key) spends ≡ true)
        × (out ≡ pool.with_spends pczt (map (with_zip32 c pool key copy) spends))

    add_spends-HasZip32 :
        (pczt : Pczt) (key : Key) (derivation : Derivation)
        → IfDone (HasZip32 pczt key derivation) (add_spends c pool pczt key derivation)
    unfolding add_spends set_spend
    add_spends-HasZip32 pczt key derivation =
        IfDone-lift (HasZip32 pczt key derivation) _ (pool.spends pczt) (λ spends e.
          copied pool.spend_updates (HasZip32 pczt key derivation) (is_received c pool key)
            (λ copy s. pool.set_derivation s copy) (pool.with_spends pczt) spends
            (set_spend c pool derivation)
            (pool.parse_derivation (pool.seed_fingerprint derivation)
              (pool.derivation_path derivation))
            (λ x. refl) (λ copy h found. (copy, spends, h, e, found, refl)))

    module _ (key_of : c.Network → c.Seed → ℕ → Result Error Key) where
      -- For a path, and the key of its account.
      abbrev pub HasDerivationFor :
          Pczt → c.Network → c.Seed → c.Fingerprint → List ℕ → Pczt → Type 0
      HasDerivationFor pczt params seed seed_fp path out =
          (derivation : Derivation) × (account : ℕ) × (key : Key) × (pool.parse_derivation
              (c.to_bytes seed_fp) path
            ≡ ok derivation)
          × (pool.extract_account_index derivation seed_fp (hardened (c.coin_type params))
              ≡ some account)
          × (key_of params seed account ≡ ok key)
          × HasZip32 pczt key derivation out

      pub run_shielded-HasDerivationFor :
          (pczt : Pczt) (params : c.Network) (seed : c.Seed) (seed_fp : c.Fingerprint)
          (path : List ℕ)
          → IfDone
              (HasDerivationFor pczt params seed seed_fp path)
              (run_shielded c pool key_of pczt params seed seed_fp path)
      unfolding run_shielded
      run_shielded-HasDerivationFor pczt params seed seed_fp path =
          let P = HasDerivationFor pczt params seed seed_fp path in
          IfDone-lift P _ (pool.parse_derivation (c.to_bytes seed_fp) path) (λ derivation e.
            IfDone-expected P _ _
              (pool.extract_account_index derivation seed_fp (hardened (c.coin_type params)))
              (λ account a. IfDone-lift P _ (key_of params seed account) (λ key g.
                weaken (HasZip32 pczt key derivation) P
                  (λ out h. (derivation, account, key, e, a, g, h))
                  (add_spends c pool pczt key derivation)
                  (add_spends-HasZip32 pczt key derivation))))
