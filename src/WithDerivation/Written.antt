-- ===== src/WithDerivation/Written.antt =====
-- What the command of src/commands/pczt/update_with_derivation.rs writes.
use zcash_devtool_sqlx.Base.{
  ℕ, ◌≡◌, ◌↔◌, refl, ap, subst, ◌∙◌, ◌⊎◌, inl, inr, Option, none, some, List, ok, Text,
}
use zcash_devtool_sqlx.Protocol.{PoolType, transparent, shielded, sapling, orchard}
use zcash_devtool_sqlx.WithDerivation.{parse_path}
use zcash_devtool_sqlx.WithDerivation.Crates.{Crates}
use zcash_devtool_sqlx.WithDerivation.Running.{
  hardened, prefix_of, run_transparent, run, run_pool, bip_44_path, zip_48_path, descriptor_pubkey,
}
use zcash_devtool_sqlx.WithDerivation.Outcomes.{done, ◌>>=◌}
use zcash_devtool_sqlx.WithDerivation.Inputs.{add_transparent}
use zcash_devtool_sqlx.WithDerivation.Updated.{
  IfDone, weaken, IfDone-given, IfDone-lift, IfDone-parsed, IfDone-expected,
}
use zcash_devtool_sqlx.WithDerivation.Given.{
  Describes, descriptor_pubkey-Describes, HasBip32, HasDerivationFor, add_transparent-HasBip32,
  run_shielded-HasDerivationFor,
}
use zcash_devtool_sqlx.WithDerivation.Reached.{
  after_done, after_ok, after_parsed, after_some, Describes-descriptor_pubkey,
  HasBip32-add_transparent, HasDerivationFor-run_shielded,
}

module _ (c : Crates) where
  open c use {Error, Pczt, Input, Pubkey, Bip32Derivation, Network, Seed, Fingerprint, Scope}

  -- A public key is the one of the seed for a derivation: that of the account, scope and index of a
  -- BIP 44 path, or, where it is none, that of the account's key, scope and index of a ZIP 48 path.
  abbrev pub IsKeyAt : Network → Seed → Fingerprint → Bip32Derivation → Pubkey → Type 0
  IsKeyAt params seed seed_fp derivation pubkey =
      let coin = hardened (c.coin_type params) in
      ((account : ℕ) × (scope : Scope) × (index : ℕ) × (c.extract_bip_44_fields derivation seed_fp
            coin
          ≡ some (account, scope, index))
        × (c.transparent_pubkey params seed account scope index ≡ ok pubkey))
      ⊎ ((account : ℕ) × (scope : Scope) × (index : ℕ) × (key : c.AccountPrivKey)
          × (c.extract_bip_44_fields derivation seed_fp coin ≡ none)
          × (c.extract_zip_48_fields derivation seed_fp coin ≡ some (account, scope, index))
          × (c.account_priv_key params seed account ≡ ok key)
          × Describes c
              (c.key_expression_for_address key (prefix_of (c.network_type params)) scope index)
              pubkey)

  -- What the command may write for a pool, a seed and a path.
  abbrev pub IsResult : PoolType → Pczt → Network → Seed → Fingerprint → List ℕ → Pczt → Type 0
  IsResult transparent = λ pczt params seed seed_fp path out.
      (derivation : Bip32Derivation) × (pubkey : Pubkey) × (c.parse_derivation (c.to_bytes seed_fp)
          path
        ≡ ok derivation)
      × IsKeyAt params seed seed_fp derivation pubkey
      × HasBip32 c pczt pubkey derivation out
  IsResult (shielded sapling) = HasDerivationFor c c.sapling c.sapling_key
  IsResult (shielded orchard) = HasDerivationFor c c.orchard c.orchard_key

  module _ (pczt : Pczt) (params : Network) (seed : Seed) (seed_fp : Fingerprint)
      (derivation : Bip32Derivation) where
    -- Set for the key of the seed.
    abbrev HasKeyOfSeed : Pczt → Type 0
    HasKeyOfSeed out =
        (pubkey : Pubkey) × IsKeyAt params seed seed_fp derivation pubkey
        × HasBip32 c pczt pubkey derivation out

    add_transparent-HasKeyOfSeed :
        (pubkey : Pubkey)
        → IsKeyAt params seed seed_fp derivation pubkey
        → IfDone HasKeyOfSeed (add_transparent c pczt pubkey derivation)
    add_transparent-HasKeyOfSeed pubkey at =
        weaken (HasBip32 c pczt pubkey derivation) HasKeyOfSeed (λ out h. (pubkey, at, h)) _
          (add_transparent-HasBip32 c pczt pubkey derivation)

    zip_48-HasKeyOfSeed :
        (o : Option (ℕ × Scope × ℕ))
        → c.extract_bip_44_fields derivation seed_fp (hardened (c.coin_type params)) ≡ none
        → c.extract_zip_48_fields derivation seed_fp (hardened (c.coin_type params)) ≡ o
        → IfDone HasKeyOfSeed (zip_48_path c pczt params seed derivation o)
    zip_48-HasKeyOfSeed none n e = tt
    zip_48-HasKeyOfSeed (some (account, scope, index)) n e =
        IfDone-lift HasKeyOfSeed _ (c.account_priv_key params seed account) (λ key k.
          let expression =
            c.key_expression_for_address key (prefix_of (c.network_type params)) scope index in
          IfDone-given HasKeyOfSeed _ (Describes c expression) (descriptor_pubkey c expression)
            (descriptor_pubkey-Describes c expression)
            (λ pubkey d.
              add_transparent-HasKeyOfSeed pubkey (inr (account, scope, index, key, n, e, k, d))))

    bip_44-HasKeyOfSeed :
        (o : Option (ℕ × Scope × ℕ))
        → c.extract_bip_44_fields derivation seed_fp (hardened (c.coin_type params)) ≡ o
        → IfDone HasKeyOfSeed (bip_44_path c pczt params seed seed_fp derivation o)
    bip_44-HasKeyOfSeed none e =
        zip_48-HasKeyOfSeed
          (c.extract_zip_48_fields derivation seed_fp (hardened (c.coin_type params))) e refl
    bip_44-HasKeyOfSeed (some (account, scope, index)) e =
        IfDone-lift HasKeyOfSeed _ (c.transparent_pubkey params seed account scope index)
          (λ pubkey k. add_transparent-HasKeyOfSeed pubkey (inl (account, scope, index, e, k)))

  transparent-IsResult :
      (pczt : Pczt) (params : Network) (seed : Seed) (seed_fp : Fingerprint) (path : List ℕ)
      → IfDone
          (IsResult transparent pczt params seed seed_fp path)
          (run_transparent c pczt params seed seed_fp path)
  unfolding run_transparent
  transparent-IsResult pczt params seed seed_fp path =
      let P = IsResult transparent pczt params seed seed_fp path in
      IfDone-lift P _ (c.parse_derivation (c.to_bytes seed_fp) path) (λ derivation e.
        weaken (HasKeyOfSeed pczt params seed seed_fp derivation) P
          (λ out (pubkey, at, h). (derivation, pubkey, e, at, h)) _
          (bip_44-HasKeyOfSeed pczt params seed seed_fp derivation
            (c.extract_bip_44_fields derivation seed_fp (hardened (c.coin_type params))) refl))

  pool-IsResult :
      (pool : PoolType) (pczt : Pczt) (params : Network) (seed : Seed) (seed_fp : Fingerprint)
      (path : List ℕ)
      → IfDone
          (IsResult pool pczt params seed seed_fp path)
          (run_pool c pool pczt params seed seed_fp path)
  pool-IsResult transparent = transparent-IsResult
  pool-IsResult (shielded sapling) = run_shielded-HasDerivationFor c c.sapling c.sapling_key
  pool-IsResult (shielded orchard) = run_shielded-HasDerivationFor c c.orchard c.orchard_key

  IsKeyAt-bip_44_path :
      (pczt : Pczt) (params : Network) (seed : Seed) (seed_fp : Fingerprint)
      (derivation : Bip32Derivation) (pubkey : Pubkey) (out : Pczt)
      → IsKeyAt params seed seed_fp derivation pubkey
      → HasBip32 c pczt pubkey derivation out
      → bip_44_path c pczt params seed seed_fp derivation
          (c.extract_bip_44_fields derivation seed_fp (hardened (c.coin_type params)))
        ≡ done out
  IsKeyAt-bip_44_path pczt params seed seed_fp derivation pubkey out
        (inl (account, scope, index, e, k)) h =
      ap (bip_44_path c pczt params seed seed_fp derivation) e
      ∙ after_ok (λ p. add_transparent c pczt p derivation) pubkey
          (c.transparent_pubkey params seed account scope index) k
      ∙ HasBip32-add_transparent c pczt pubkey derivation out h
  IsKeyAt-bip_44_path pczt params seed seed_fp derivation pubkey out
        (inr (account, scope, index, key, n, e, k, d)) h =
      let prefix = prefix_of (c.network_type params) in
      ap (bip_44_path c pczt params seed seed_fp derivation) n
      ∙ ap (zip_48_path c pczt params seed derivation) e
      ∙ after_ok
          (λ x.
            descriptor_pubkey c (c.key_expression_for_address x prefix scope index)
            >>= (λ p. add_transparent c pczt p derivation))
          key (c.account_priv_key params seed account) k
      ∙ after_done (λ p. add_transparent c pczt p derivation) pubkey
          (descriptor_pubkey c (c.key_expression_for_address key prefix scope index))
          (Describes-descriptor_pubkey c (c.key_expression_for_address key prefix scope index)
            pubkey d)
      ∙ HasBip32-add_transparent c pczt pubkey derivation out h

  module _ (pczt : Pczt) (params : Network) (seed : Seed) (seed_fp : Fingerprint) (path : List ℕ)
      (out : Pczt) where
    IsResult-run_transparent :
        IsResult transparent pczt params seed seed_fp path out
        → run_transparent c pczt params seed seed_fp path ≡ done out
    unfolding run_transparent
    IsResult-run_transparent (derivation, pubkey, e, at, h) =
        after_ok _ derivation (c.parse_derivation (c.to_bytes seed_fp) path) e
        ∙ IsKeyAt-bip_44_path pczt params seed seed_fp derivation pubkey out at h

    IsResult-run_pool :
        (pool : PoolType)
        → IsResult pool pczt params seed seed_fp path out
        → run_pool c pool pczt params seed seed_fp path ≡ done out
    IsResult-run_pool transparent h = IsResult-run_transparent h
    IsResult-run_pool (shielded sapling) h =
        HasDerivationFor-run_shielded c c.sapling c.sapling_key pczt params seed seed_fp path out h
    IsResult-run_pool (shielded orchard) h =
        HasDerivationFor-run_shielded c c.orchard c.orchard_key pczt params seed seed_fp path out h

  abbrev pub IsWritten : PoolType → Text → Pczt → Type 0
  IsWritten pool text out =
      (path : List ℕ) × (params : Network) × (pczt : Pczt) × (seed : Seed) × (seed_fp : Fingerprint)
      × (parse_path c.child_number text ≡ ok path)
      × (c.read_config ≡ ok params)
      × (c.read_pczt ≡ ok pczt)
      × (c.identities ≡ ok tt)
      × (c.decrypt_seed ≡ ok (some seed))
      × (c.from_seed seed ≡ some seed_fp)
      × IsResult pool pczt params seed seed_fp path out

  run_lem : (pool : PoolType) (text : Text) → IfDone (IsWritten pool text) (run c pool text)
  unfolding run
  run_lem pool text =
      let P = IsWritten pool text in
      IfDone-parsed P _ (parse_path c.child_number text) (λ path e.
        IfDone-lift P _ c.read_config (λ params r. IfDone-lift P _ c.read_pczt (λ pczt p.
          IfDone-lift P _ c.identities (λ _ i. IfDone-lift P _ c.decrypt_seed (λ found d.
            IfDone-expected P _ _ found (λ seed s.
              IfDone-expected P _ _ (c.from_seed seed) (λ seed_fp f.
                weaken (IsResult pool pczt params seed seed_fp path) P
                  (λ out h. (path, params, pczt, seed, seed_fp, e, r, p, i, d ∙ ap ok s, f, h)) _
                  (pool-IsResult pool pczt params seed seed_fp path))))))))

  -- The command writes a PCZT just if its arguments, the configuration, the PCZT that it reads, the
  -- identities and the wallet's seed can be read, the seed has a fingerprint, the path makes a
  -- derivation, which its parts make again, and the PCZT that it writes is the one that it reads,
  -- with this derivation set at the inputs of the pool that use the key of that seed for the path,
  -- of which there is at least one, and without another change. The key can be derived: it is that
  -- of the account of the path (for a transparent input also of its scope and index, by BIP 44, and
  -- by ZIP 48, down each child, only where it is no BIP 44 path) for the coin type of the
  -- configured network.
  pub run-IsWritten :
      (pool : PoolType) (text : Text) (out : Pczt)
      → (run c pool text ≡ done out) ↔ IsWritten pool text out
  unfolding run
  run-IsWritten pool text out = (
    λ e. subst (IfDone (IsWritten pool text)) e (run_lem pool text),
    λ (path, params, pczt, seed, seed_fp, e, r, p, i, d, f, h).
        after_parsed _ path (parse_path c.child_number text) e
        ∙ after_ok _ params c.read_config r
        ∙ after_ok _ pczt c.read_pczt p
        ∙ after_ok _ tt c.identities i
        ∙ after_ok _ (some seed) c.decrypt_seed d
        ∙ after_some _ seed_fp _ (c.from_seed seed) f
        ∙ IsResult-run_pool pczt params seed seed_fp path out pool h,
  )
