-- ===== src/Block/Report.antt =====
-- The report on a block (src/commands/inspect/block.rs): the checks of its header and of its
-- transactions, and what is printed of them.
pub mod Clean
pub mod Rules
pub mod Checks
pub mod Verdict
use zcash_devtool_sqlx.Base.{
  ℕ, zero, suc, ◌==◌, Bool, true, false, not, Option, none, some, List, [], ◌∷◌, ◌++◌, map, ltb,
  Result, ok, err, if◌then◌else◌, ◌and_then◌, Text, length,
}
use zcash_devtool_sqlx.Base.Int.{ℤ, pos, negsuc}
use zcash_devtool_sqlx.Protocol.{Network}
use zcash_devtool_sqlx.Block.Target.{Shift, PowError, check_proof_of_work, guess_params}
use zcash_devtool_sqlx.Block.Merkle.{Hasher, build_merkle_root}
use zcash_devtool_sqlx.Block.AuthRoot.{build_auth_data_root}
use zcash_devtool_sqlx.Inspect.Transaction.{
  Kinds, Scripts, Transaction, is_coinbase, extract_height_from_coinbase,
}

-- The upgrades that the checks depend on.
pub data NetworkUpgrade : Type 0 where
  heartwood nu5 : NetworkUpgrade

-- What the block checks take from the crates.
pub record Chain (k : Kinds) : Type 1 where
  pub sha : Hasher
  -- The hash of the tree of authorizing data, on the same hashes.
  pub hash_auth : sha.Hash → sha.Hash → sha.Hash
  -- The hash of a block commitment, over three hashes.
  pub hash_commitment : sha.Hash → sha.Hash → sha.Hash → sha.Hash
  pub txid_of : Transaction k → sha.Hash
  pub auth_commitment : Transaction k → sha.Hash
  pub shift : Shift
  pub is_nu_active : Network → NetworkUpgrade → ℕ → Bool
  pub activation_height : Network → NetworkUpgrade → Option ℕ

-- A header. Its hash is the number that the bytes stand for, and `equihash` the answer of the
-- `equihash` crate for each network.
pub record BlockHeader (Hash : Type 0) : Type 0 where
  pub hash : ℕ
  pub version : ℤ
  pub bits : ℕ
  pub merkle_root : Hash
  pub final_sapling_root : Hash
  pub check_equihash_solution : Network → Result Text (Unit {0})

pub record Block {k : Kinds} (c : Chain k) : Type 0 where
  pub header : BlockHeader c.sha.Hash
  pub txs : List (Transaction k)

-- What is printed, with the values that a line shows. The title is left out, and the lines that
-- follow a line to show the hashes of an error are part of it.
pub data Line (Hash : Type 0) : Type 0 where
  block_hash : ℕ → Line Hash
  block_version : ℤ → Line Hash
  version_too_low : Line Hash
  invalid_solution : Text → Line Hash
  high_hash : PowError → Line Hash
  add_network : Line Hash
  missing_coinbase : Line Hash
  transaction_count : ℕ → Line Hash
  first_not_coinbase : Line Hash
  block_height : ℕ → Line Hash
  no_height : Line Hash
  extra_coinbase : ℕ → Line Hash
  bad_merkle_root : Hash → Hash → Line Hash
  malleable : Line Hash
  expiry_mismatch : ℕ → ℕ → Line Hash
  -- The chain history root, the authorizing data root, the commitment and the header's.
  bad_commitments : Hash → Hash → Hash → Hash → Line Hash
  not_null_at_heartwood : Line Hash
  bad_history_root : Hash → Hash → Line Hash
  add_history_root : Line Hash

-- `MIN_BLOCK_VERSION`
abbrev min_block_version : ℕ
min_block_version = 4

unfoldable pub is_low_version : ℤ → Bool
is_low_version (pos v) = ltb v min_block_version
is_low_version (negsuc v) = true

abbrev pub error_line : {E L : Type 0} → (E → L) → Result E (Unit {0}) → List L
error_line f (ok _) = []
error_line f (err e) = f e ∷ []

module _ {k : Kinds} (s : Scripts k) (c : Chain k) where
  abbrev pub Hash : Type 0
  Hash = c.sha.Hash

  -- The checks that depend on the network.
  unfoldable pub network_checks : BlockHeader Hash → Option Network → List (Line Hash)
  network_checks header none = add_network ∷ []
  network_checks header (some params) =
      error_line invalid_solution (header.check_equihash_solution params)
      ++ error_line high_hash (check_proof_of_work c.shift header.bits header.hash params)

  unfoldable pub inspect_header_inner : BlockHeader Hash → Option Network → List (Line Hash)
  inspect_header_inner header params =
      block_hash header.hash
      ∷ block_version header.version
      ∷ ((if is_low_version header.version then version_too_low ∷ [] else [])
          ++ network_checks header params)

  -- `or_else` on the network of the context.
  unfoldable pub network_of : BlockHeader Hash → Option Network → Option Network
  network_of header context = elim (guess_params c.shift header.bits) [
    | none ↦ context
    | some params ↦ some params
  ]

  unfoldable pub inspect_header : BlockHeader Hash → Option Network → List (Line Hash)
  inspect_header header context = inspect_header_inner header (network_of header context)

  unfoldable pub height_lines : Option ℕ → List (Line Hash)
  height_lines none = no_height ∷ []
  height_lines (some h) = block_height h ∷ []

  unfoldable pub extract_height : List (Transaction k) → Option ℕ
  extract_height [] = none
  extract_height (tx ∷ _) = extract_height_from_coinbase s tx

  -- The height of the block, if it has one.
  unfoldable pub block_height_of : List (Transaction k) → Option ℕ
  block_height_of [] = none
  block_height_of (tx ∷ rest) = if is_coinbase s tx then extract_height (tx ∷ rest) else none

  unfoldable pub coinbase_lines : List (Transaction k) → List (Line Hash)
  coinbase_lines [] = missing_coinbase ∷ []
  coinbase_lines (tx ∷ rest) =
      transaction_count (length (tx ∷ rest))
      ∷ (if is_coinbase s tx
          then height_lines (extract_height (tx ∷ rest))
          else first_not_coinbase ∷ [])

  -- The transactions from an index on.
  unfoldable pub extra_coinbases : ℕ → List (Transaction k) → List (Line Hash)
  extra_coinbases i [] = []
  extra_coinbases i (tx ∷ rest) =
      (if is_coinbase s tx then extra_coinbase i ∷ [] else []) ++ extra_coinbases (suc i) rest

  abbrev pub skip_one : List (Transaction k) → List (Transaction k)
  skip_one [] = []
  skip_one (_ ∷ rest) = rest

  unfoldable pub merkle_lines : Hash → Hash × Bool → List (Line Hash)
  merkle_lines header_root (merkle_root, mutated) =
      (if c.sha.hash_eq merkle_root header_root
        then []
        else bad_merkle_root merkle_root header_root ∷ [])
      ++ (if mutated then malleable ∷ [] else [])

  abbrev pub auth_hasher : Hasher
  auth_hasher = record {
    Hash = c.sha.Hash;
    zero_hash = c.sha.zero_hash;
    hash_pair = c.hash_auth;
    hash_eq = c.sha.hash_eq;
  }

  -- The third of the hashes is 32 zero bytes.
  unfoldable pub derive_block_commitments_hash : Hash → Hash → Hash
  derive_block_commitments_hash chain_history_root auth_data_root =
      c.hash_commitment chain_history_root auth_data_root c.sha.zero_hash

  -- The commitment against the header.
  unfoldable pub commitment_lines : Hash → Hash → Hash → List (Line Hash)
  commitment_lines final_sapling_root history auth =
      let derived = derive_block_commitments_hash history auth in
      if c.sha.hash_eq derived final_sapling_root
      then []
      else bad_commitments history auth derived final_sapling_root ∷ []

  unfoldable pub nu5_commitments : Block c → Option Hash → Option (List (Line Hash))
  nu5_commitments block none = some (add_history_root ∷ [])
  nu5_commitments block (some history) =
      build_auth_data_root auth_hasher (map c.auth_commitment block.txs) and_then λ auth.
      some (commitment_lines block.header.final_sapling_root history auth)

  unfoldable pub expiry_lines : List (Transaction k) → ℕ → List (Line Hash)
  expiry_lines [] height = []
  expiry_lines (tx ∷ _) height =
      if tx.expiry_height == height then [] else expiry_mismatch tx.expiry_height height ∷ []

  unfoldable pub history_lines : Hash → Option Hash → List (Line Hash)
  history_lines final_sapling_root none = add_history_root ∷ []
  history_lines final_sapling_root (some history) =
      if c.sha.hash_eq history final_sapling_root
      then []
      else bad_history_root history final_sapling_root ∷ []

  abbrev pub is_at : ℕ → Option ℕ → Bool
  is_at height none = false
  is_at height (some h) = height == h

  -- The rules of the upgrade that is active at the height.
  unfoldable pub upgrade_lines : Block c → Option Hash → Network → ℕ → Option (List (Line Hash))
  upgrade_lines block history params height =
      let root = block.header.final_sapling_root in
      if c.is_nu_active params nu5 height
      then (nu5_commitments block history and_then λ lines.
          some (expiry_lines block.txs height ++ lines))
      else if is_at height (c.activation_height params heartwood)
      then some (if c.sha.hash_eq root c.sha.zero_hash then [] else not_null_at_heartwood ∷ [])
      else if c.is_nu_active params heartwood height
      then some (history_lines root history)
      else some []

  -- The rest of the checks, which are left out without a network and a height.
  unfoldable pub contextual_lines :
      Block c → Option Hash → Option Network → Option ℕ → Option (List (Line Hash))
  contextual_lines block history none height = some []
  contextual_lines block history (some params) none = some []
  contextual_lines block history (some params) (some height) =
      upgrade_lines block history params height

  -- The network and the chain history root are those of the context. `none` is a panic.
  unfoldable pub inspect : Block c → Option Network → Option Hash → Option (List (Line Hash))
  inspect block context history =
      let params = network_of block.header context in
      build_merkle_root c.sha (map c.txid_of block.txs) and_then λ root.
      contextual_lines block history params (block_height_of block.txs) and_then λ rest. some (
        inspect_header_inner block.header params
        ++ coinbase_lines block.txs
        ++ extra_coinbases 1 (skip_one block.txs)
        ++ merkle_lines block.header.merkle_root root
        ++ rest)
