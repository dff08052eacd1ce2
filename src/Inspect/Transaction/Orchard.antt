-- ===== src/Inspect/Transaction/Orchard.antt =====
-- The Orchard part of `inspect` (src/commands/inspect/transaction.rs). A result of `none` is a
-- panic.
use zcash_devtool_sqlx.Base.{
  ℕ, suc, Bool, ltb, ◌==◌, Option, none, some, List, [], ◌∷◌, ◌++◌, ◌and_then◌, if◌then◌else◌, same,
  length,
}
use zcash_devtool_sqlx.Inspect.Context.{NetworkType}
use zcash_devtool_sqlx.Inspect.Transaction.{Kinds, OrchardBundle, Recovered, render_memo}
use zcash_devtool_sqlx.Inspect.Transaction.Lines.{
  Line, action_count, duplicated_nullifier, bad_action_sig, add_coins_for_actions,
  bad_orchard_proof, dummy_output, real_output, output_address, add_network_for_address,
  output_value, output_memo, not_recoverable,
}
use zcash_devtool_sqlx.Inspect.Transaction.Shielded.{Shielded, prepend, err_line}

-- The map from a nullifier to the indexes of its actions.
abbrev pub Indexes : Type 0
Indexes = List (List ℕ × List ℕ)

-- `entry(nullifier).or_insert_with(Vec::new).push(i)`
unfoldable pub push_index : List ℕ → ℕ → Indexes → Indexes
push_index key i [] = (key, i ∷ []) ∷ []
push_index key i ((other, l) ∷ m) =
    let rest = push_index key i m in
    if same other key then (other, l ++ i ∷ []) ∷ m else (other, l) ∷ rest

-- The nullifiers of the actions from an index on.
unfoldable pub group_from : ℕ → List (List ℕ) → Indexes → Indexes
group_from i [] m = m
group_from i (key ∷ keys) m = group_from (suc i) keys (push_index key i m)

module _ {k : Kinds} where
  unfoldable pub duplicates : Indexes → List (Line k)
  duplicates [] = []
  duplicates ((_, indices) ∷ m) =
      let rest = duplicates m in
      if ltb 1 (length indices) then duplicated_nullifier indices ∷ rest else rest

module _ {k : Kinds} (c : Shielded k) where
  abbrev pub nullifiers : List k.Action → List (List ℕ)
  nullifiers [] = []
  nullifiers (action ∷ rest) = c.nullifier action ∷ nullifiers rest

  unfoldable pub duplicated_nullifiers : List k.Action → List (Line k)
  duplicated_nullifiers actions = duplicates (c.iterate (group_from 0 (nullifiers actions) []))

  unfoldable pub address_lines : Option NetworkType → Recovered k.Address → Option (List (Line k))
  address_lines none note = some (add_network_for_address ∷ [])
  address_lines (some net) note =
      if c.same_address note.recipient note.address
      then some (output_address net note.address ∷ [])
      else none

  unfoldable pub orchard_note :
      ℕ → Option NetworkType → Option (Recovered k.Address) → Option (List (Line k))
  orchard_note i net none = some (not_recoverable i ∷ [])
  orchard_note i net (some note) =
      let memo = output_memo (render_memo note.memo) in
      if note.value == 0
      then some (dummy_output i ∷ memo ∷ [])
      else address_lines net note and_then λ address.
          some (real_output i ∷ (address ++ output_value note.value ∷ memo ∷ []))

  -- All coinbase outputs are to be decryptable with the all-zeros key.
  unfoldable pub coinbase_outputs : Option NetworkType → ℕ → List k.Action → Option (List (Line k))
  coinbase_outputs net i [] = some []
  coinbase_outputs net i (action ∷ rest) =
      orchard_note i net (c.recover_orchard action) and_then λ lines.
      prepend lines (coinbase_outputs net (suc i) rest)

  unfoldable pub check_actions : k.Sighash → ℕ → List k.Action → List (Line k)
  check_actions sighash i [] = []
  check_actions sighash i (action ∷ rest) =
      err_line (bad_action_sig i) (c.verify_action action sighash)
      ++ check_actions sighash (suc i) rest

  unfoldable pub action_signatures : Option k.Sighash → List k.Action → List (Line k)
  action_signatures none actions = add_coins_for_actions ∷ []
  action_signatures (some sighash) actions = check_actions sighash 0 actions

  unfoldable pub inspect_orchard :
      Bool
      → Option NetworkType
      → Option k.Sighash
      → Option (OrchardBundle k)
      → Option (List (Line k))
  inspect_orchard is_coinbase net sighash none = some []
  inspect_orchard is_coinbase net sighash (some bundle) =
      let outputs = if is_coinbase then coinbase_outputs net 0 bundle.actions else some [] in
      outputs and_then λ notes. some (
        action_count (length bundle.actions)
        ∷ (duplicated_nullifiers bundle.actions
            ++ notes
            ++ action_signatures sighash bundle.actions
            ++ err_line bad_orchard_proof (c.verify_proof bundle)))
