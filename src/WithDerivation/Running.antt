-- ===== src/WithDerivation/Running.antt =====
-- `Command::run` of src/commands/pczt/update_with_derivation.rs: from the arguments to the PCZT that
-- is written.
use zcash_devtool_sqlx.Base.{
  ℕ, ◌+◌, ◌^◌, Option, none, some, List, [], ◌∷◌, Result, ok, err, if◌then◌else◌, ltb, Text,
}
use zcash_devtool_sqlx.Protocol.{PoolType, transparent, shielded, sapling, orchard}
use zcash_devtool_sqlx.WithDerivation.{ArgumentError, parse_path}
use zcash_devtool_sqlx.WithDerivation.Crates.{
  Crates, ShieldedPool, DescriptorKey, public, xpub, NetworkType, main_type, test_type,
  regtest_type, Prefix, xpub_prefix, tpub_prefix,
}
use zcash_devtool_sqlx.WithDerivation.Outcomes.{
  Outcome, done, failed, ◌>>=◌, lift, Failure, argument, no_seed, invalid_seed, not_bip_44,
  not_zip_32,
}
use zcash_devtool_sqlx.WithDerivation.Inputs.{add_transparent, add_spends}

abbrev pub parsed : {E A : Type 0} → Result ArgumentError A → Outcome E A
parsed (ok a) = done a
parsed (err e) = failed (argument e)

-- `ok_or`.
abbrev pub expected : {E A : Type 0} → Failure E → Option A → Outcome E A
expected e none = failed e
expected e (some a) = done a

-- A coin type with the flag of hardened numbers, the highest of 32 bits.
abbrev pub hardened : ℕ → ℕ
hardened n = if ltb n (2 ^ 31) then n + 2 ^ 31 else n

abbrev pub prefix_of : NetworkType → Prefix
prefix_of main_type = xpub_prefix
prefix_of test_type = tpub_prefix
prefix_of regtest_type = tpub_prefix

module _ (c : Crates) where
  open c use {Error, Network, Pczt, Seed, Fingerprint, Pubkey, Bip32Derivation, Xpub, Child}

  unfoldable pub derive_children : Xpub → List Child → Outcome Error Xpub
  derive_children key [] = done key
  derive_children key (child_number ∷ rest) = do
    curr_key ← lift (c.derive_child key child_number)
    derive_children curr_key rest

  unfoldable pub descriptor_pubkey : DescriptorKey Pubkey Xpub Child → Outcome Error Pubkey
  descriptor_pubkey (public key) = done key
  descriptor_pubkey (xpub key child) = do
    curr_key ← derive_children key child
    done (c.public_key curr_key)

  abbrev pub zip_48_path :
      Pczt → Network → Seed → Bip32Derivation → Option (ℕ × c.Scope × ℕ) → Outcome Error Pczt
  zip_48_path pczt params seed derivation none = failed not_bip_44
  zip_48_path pczt params seed derivation (some (account, scope, address_index)) = do
    key ← lift (c.account_priv_key params seed account)
    pubkey ←
        descriptor_pubkey
          (c.key_expression_for_address key (prefix_of (c.network_type params)) scope address_index)
    add_transparent c pczt pubkey derivation

  abbrev pub bip_44_path :
      Pczt
      → Network
      → Seed
      → Fingerprint
      → Bip32Derivation
      → Option (ℕ × c.Scope × ℕ)
      → Outcome Error Pczt
  bip_44_path pczt params seed seed_fp derivation none =
      zip_48_path pczt params seed derivation
        (c.extract_zip_48_fields derivation seed_fp (hardened (c.coin_type params)))
  bip_44_path pczt params seed seed_fp derivation (some (account, scope, address_index)) = do
    pubkey ← lift (c.transparent_pubkey params seed account scope address_index)
    add_transparent c pczt pubkey derivation

  unfoldable pub run_transparent : Pczt → Network → Seed → Fingerprint → List ℕ → Outcome Error Pczt
  run_transparent pczt params seed seed_fp path = do
    derivation ← lift (c.parse_derivation (c.to_bytes seed_fp) path)
    bip_44_path pczt params seed seed_fp derivation
        (c.extract_bip_44_fields derivation seed_fp (hardened (c.coin_type params)))

  -- The Sapling and the Orchard branch, with the keys of an account.
  unfoldable pub run_shielded :
      (pool : ShieldedPool Error Pczt Fingerprint)
      → (Network → Seed → ℕ → Result Error pool.Key)
      → Pczt
      → Network
      → Seed
      → Fingerprint
      → List ℕ
      → Outcome Error Pczt
  run_shielded pool key_of pczt params seed seed_fp path = do
    derivation ← lift (pool.parse_derivation (c.to_bytes seed_fp) path)
    account ←
        expected not_zip_32
          (pool.extract_account_index derivation seed_fp (hardened (c.coin_type params)))
    key ← lift (key_of params seed account)
    add_spends c pool pczt key derivation

  abbrev pub run_pool : PoolType → Pczt → Network → Seed → Fingerprint → List ℕ → Outcome Error Pczt
  run_pool transparent = run_transparent
  run_pool (shielded sapling) = run_shielded c.sapling c.sapling_key
  run_pool (shielded orchard) = run_shielded c.orchard c.orchard_key

  -- The PCZT that is written.
  unfoldable pub run : PoolType → Text → Outcome Error Pczt
  run pool text = do
    path ← parsed (parse_path c.child_number text)
    params ← lift c.read_config
    pczt ← lift c.read_pczt
    _ ← lift c.identities
    found ← lift c.decrypt_seed
    seed ← expected no_seed found
    seed_fp ← expected invalid_seed (c.from_seed seed)
    run_pool pool pczt params seed seed_fp path
