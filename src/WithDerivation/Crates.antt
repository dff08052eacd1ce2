-- ===== src/WithDerivation/Crates.antt =====
-- What src/commands/pczt/update_with_derivation.rs takes from the Zcash crates.
use zcash_devtool_sqlx.Base.{ℕ, Bool, Option, List, Result}
use zcash_devtool_sqlx.WithDerivation.Outcomes.{IndexUpdates}

-- The standard scripts that the command matches on; `other_script` is any other.
pub data ScriptKind : Type 0 where
  pub_key_hash : List ℕ → ScriptKind
  multi_sig : List (List ℕ) → ScriptKind
  pub_key : List ℕ → ScriptKind
  other_script : ScriptKind

-- A key of a descriptor: a public key, or an extended one with the steps below it.
pub data DescriptorKey (K X C : Type 0) : Type 0 where
  public : K → DescriptorKey K X C
  xpub : X → List C → DescriptorKey K X C

pub data NetworkType : Type 0 where
  main_type test_type regtest_type : NetworkType

pub data Prefix : Type 0 where
  xpub_prefix tpub_prefix : Prefix

-- A shielded pool: what can be spent in a PCZT, viewing keys, and derivations.
pub record ShieldedPool (Error Pczt Fingerprint : Type 0) : Type 1 where
  pub Spend : Type 0
  pub Address : Type 0
  pub Key : Type 0
  pub Owner : Type 0
  pub Derivation : Type 0
  pub spends : Pczt → Result Error (List Spend)
  pub with_spends : Pczt → List Spend → Pczt
  pub spend_updates : IndexUpdates Error Spend
  pub recipient : Spend → Option Address
  -- Whether an address belongs to a key, and how.
  pub owner : Key → Address → Option Owner
  pub set_derivation : Spend → Derivation → Spend
  pub parse_derivation : List ℕ → List ℕ → Result Error Derivation
  pub seed_fingerprint : Derivation → List ℕ
  pub derivation_path : Derivation → List ℕ
  -- The account, given the fingerprint of the seed and the coin type.
  pub extract_account_index : Derivation → Fingerprint → ℕ → Option ℕ

pub record Crates : Type 1 where
  pub Error : Type 0
  pub Network : Type 0
  pub Pczt : Type 0
  pub Seed : Type 0
  pub Fingerprint : Type 0
  pub child_number : ℕ → Bool → Option ℕ
  pub network_type : Network → NetworkType
  pub coin_type : Network → ℕ
  pub read_config : Result Error Network
  pub read_pczt : Result Error Pczt
  pub identities : Result Error (Unit {0})
  pub decrypt_seed : Result Error (Option Seed)
  pub from_seed : Seed → Option Fingerprint
  pub to_bytes : Fingerprint → List ℕ
  -- Transparent inputs.
  pub Input : Type 0
  pub Script : Type 0
  pub Refined : Type 0
  pub Pubkey : Type 0
  pub Scope : Type 0
  pub inputs : Pczt → Result Error (List Input)
  pub with_inputs : Pczt → List Input → Pczt
  pub input_updates : IndexUpdates Error Input
  pub redeem_script : Input → Option Script
  pub script_pubkey : Input → Script
  pub refine : Script → Option Refined
  pub standard : Refined → Option ScriptKind
  pub serialize : Pubkey → List ℕ
  pub pubkey_hash : Pubkey → List ℕ
  -- BIP 32 derivations.
  pub Bip32Derivation : Type 0
  pub set_bip32_derivation : Input → List ℕ → Bip32Derivation → Input
  pub parse_derivation : List ℕ → List ℕ → Result Error Bip32Derivation
  pub seed_fingerprint : Bip32Derivation → List ℕ
  pub derivation_path : Bip32Derivation → List ℕ
  pub extract_bip_44_fields : Bip32Derivation → Fingerprint → ℕ → Option (ℕ × Scope × ℕ)
  pub extract_zip_48_fields : Bip32Derivation → Fingerprint → ℕ → Option (ℕ × Scope × ℕ)
  pub transparent_pubkey : Network → Seed → ℕ → Scope → ℕ → Result Error Pubkey
  -- Keys of ZIP 48 accounts.
  pub AccountPrivKey : Type 0
  pub Xpub : Type 0
  pub Child : Type 0
  pub account_priv_key : Network → Seed → ℕ → Result Error AccountPrivKey
  pub key_expression_for_address :
      AccountPrivKey → Prefix → Scope → ℕ → DescriptorKey Pubkey Xpub Child
  pub derive_child : Xpub → Child → Result Error Xpub
  pub public_key : Xpub → Pubkey
  -- The shielded pools, and the viewing keys of an account.
  pub sapling : ShieldedPool Error Pczt Fingerprint
  pub orchard : ShieldedPool Error Pczt Fingerprint
  pub sapling_key : Network → Seed → ℕ → Result Error sapling.Key
  pub orchard_key : Network → Seed → ℕ → Result Error orchard.Key
