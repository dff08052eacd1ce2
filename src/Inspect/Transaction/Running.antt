-- ===== src/Inspect/Transaction/Running.antt =====
-- `inspect` of src/commands/inspect/transaction.rs, part after part.
use zcash_devtool_sqlx.Base.{
  is_some, ℕ, Bool, true, false, ◌||◌, Option, none, some, List, [], ◌∷◌, ◌++◌, if◌then◌else◌, Text,
}
use zcash_devtool_sqlx.Protocol.{Network}
use zcash_devtool_sqlx.Inspect.Context.{Formats, TxOut, Context, NetworkType, network, addr_network}
use zcash_devtool_sqlx.Inspect.Transaction.{
  Kinds, Scripts, Transaction, is_coinbase, extract_height_from_coinbase, has_inputs, given_coins,
  spent_coins,
}
use zcash_devtool_sqlx.Inspect.Transaction.Lines.{
  Line, transaction_id, mined_in, version, branch_id, coinbase, coins_without_inputs,
  shielded_sighash,
}
use zcash_devtool_sqlx.Inspect.Transaction.Inputs.{
  Signing, shielded, sighash_of, inspect_transparent,
}
use zcash_devtool_sqlx.Inspect.Transaction.Shielded.{
  Shielded, prepend, both, inspect_sprout, inspect_sapling,
}
use zcash_devtool_sqlx.Inspect.Transaction.Orchard.{inspect_orchard}

-- Coins for a transaction that has no inputs.
unfoldable pub needless_coins : {k : Kinds} → Bool → Option (List TxOut) → List (Line k)
needless_coins true coins = []
needless_coins false none = []
needless_coins false (some _) = coins_without_inputs ∷ []

-- The network of the context, with that of its addresses.
unfoldable pub context_networks : Option Context → Option (Network × NetworkType)
context_networks none = none
context_networks (some ctx) = elim (network ctx) [
  | none ↦ none
  | some params ↦ elim (addr_network ctx) [ none ↦ none | some net ↦ some (params, net) ]
]

unfoldable pub context_addr_network : Option Context → Option NetworkType
context_addr_network none = none
context_addr_network (some ctx) = addr_network ctx

abbrev pub coinbase_height : {k : Kinds} → Scripts k → Transaction k → Option ℕ
coinbase_height s tx = if is_coinbase s tx then extract_height_from_coinbase s tx else none

module _ {k : Kinds} (f : Formats) (s : Scripts k) (g : Signing k) (c : Shielded k) where
  unfoldable pub common_sighash : Transaction k → Option (List TxOut) → Option k.Sighash
  common_sighash tx none = none
  common_sighash tx (some coins) = some (sighash_of g tx coins shielded)

  unfoldable pub sighash_line : Transaction k → Option k.Sighash → List (Line k)
  sighash_line tx none = []
  sighash_line tx (some sighash) =
      if is_some tx.sprout_bundle || is_some tx.sapling_bundle || is_some tx.orchard_bundle
      then shielded_sighash sighash ∷ []
      else []

  abbrev mined_line : Option (Text × ℕ) → List (Line k)
  mined_line none = []
  mined_line (some (chain, height)) = mined_in chain height ∷ []

  unfoldable pub head_lines : Transaction k → Option Context → Option (Text × ℕ) → List (Line k)
  head_lines tx ctx mined_height =
      let coins = spent_coins tx.transparent_bundle ctx in
      transaction_id tx.txid
      ∷ (mined_line mined_height
          ++ version
            ∷ ((if tx.is_v5 then branch_id ∷ [] else [])
                ++ (if is_coinbase s tx then coinbase ∷ [] else [])
                ++ needless_coins (has_inputs tx.transparent_bundle) (given_coins ctx)
                ++ sighash_line tx (common_sighash tx coins)))

  -- What is printed, or `none` where the inspection panics.
  unfoldable pub inspect :
      Transaction k → Option Context → Option (Text × ℕ) → Option (List (Line k))
  inspect tx ctx mined_height =
      let coins = spent_coins tx.transparent_bundle ctx in
      let sighash = common_sighash tx coins in
      let cb = is_coinbase s tx in
      prepend (head_lines tx ctx mined_height) (
        both (inspect_transparent s g f tx cb coins tx.transparent_bundle) (
          prepend (inspect_sprout c sighash tx.sprout_bundle) (
            both
              (inspect_sapling c cb (context_networks ctx) (coinbase_height s tx) sighash
                tx.sapling_bundle)
              (inspect_orchard c cb (context_addr_network ctx) sighash tx.orchard_bundle))))
