-- ===== src/Inspect/Transaction/Shielded.antt =====
-- The shielded parts of `inspect` (src/commands/inspect/transaction.rs). A result of `none` is a
-- panic.
use zcash_devtool_sqlx.Base.{
  ℕ, suc, Bool, ◌&&◌, ◌==◌, Option, none, some, List, [], ◌∷◌, ◌++◌, ◌and_then◌, Result, ok, err,
  if◌then◌else◌, Text, length,
}
use zcash_devtool_sqlx.Base.Int.{ℤ}
use zcash_devtool_sqlx.Protocol.{Network}
use zcash_devtool_sqlx.Inspect.Context.{NetworkType}
use zcash_devtool_sqlx.Inspect.Transaction.{
  Kinds, SproutBundle, SaplingBundle, OrchardBundle, Recovered, render_memo, is_empty,
}
use zcash_devtool_sqlx.Inspect.Transaction.Lines.{
  Line, joinsplit_count, bad_joinsplit_pubkey, bad_joinsplit_sig, add_coins_for_sprout,
  sapling_spend_count, bad_sapling_spend, add_coins_for_spends, sapling_output_count,
  add_network_for_coinbase, bad_sapling_output, bad_sapling_binding_sig, add_coins_for_binding_sig,
  dummy_output, real_output, output_address, output_value, output_memo, not_recoverable,
}

-- What the crates tell of the shielded parts.
pub record Shielded (k : Kinds) : Type 0 where
  pub sprout_key : List ℕ → Result Text k.VerificationKey
  pub verify_joinsplits : k.VerificationKey → List ℕ → k.Sighash → Result Text (Unit {0})
  pub new_context : k.SaplingContext
  -- The checks of a spend and of an output panic if a point or a proof cannot be read.
  pub check_spend : k.SaplingContext → k.Spend → k.Sighash → Option (Bool × k.SaplingContext)
  pub check_output : k.SaplingContext → k.Output → Option (Bool × k.SaplingContext)
  pub final_check : k.SaplingContext → ℤ → k.Sighash → k.SaplingSig → Bool
  -- `try_output_recovery_with_ovk` with the all-zeros key.
  pub recover_sapling : Network → ℕ → k.Output → Option (Recovered k.Address)
  pub recover_orchard : k.Action → Option (Recovered k.Address)
  pub same_address : k.Address → k.Address → Bool
  pub nullifier : k.Action → List ℕ
  pub verify_action : k.Action → k.Sighash → Result Text (Unit {0})
  pub verify_proof : OrchardBundle k → Result Text (Unit {0})
  -- The entries of a hash map, in the order of its iteration.
  pub iterate : List (List ℕ × List ℕ) → List (List ℕ × List ℕ)

module _ {k : Kinds} where
  abbrev pub prepend : List (Line k) → Option (List (Line k)) → Option (List (Line k))
  prepend l o = o and_then λ r. some (l ++ r)

  -- The lines of two parts, if neither panics.
  abbrev pub both : Option (List (Line k)) → Option (List (Line k)) → Option (List (Line k))
  both o o' = o and_then λ l. prepend l o'

  abbrev pub err_line : {A : Type 0} → (Text → Line k) → Result Text A → List (Line k)
  err_line f (ok _) = []
  err_line f (err e) = f e ∷ []

module _ {k : Kinds} (c : Shielded k) where
  unfoldable pub check_joinsplits :
      List ℕ → Option k.Sighash → Result Text k.VerificationKey → List (Line k)
  check_joinsplits sig sighash (err e) = bad_joinsplit_pubkey e ∷ []
  check_joinsplits sig (some sighash) (ok vk) =
      err_line bad_joinsplit_sig (c.verify_joinsplits vk sig sighash)
  check_joinsplits sig none (ok vk) = add_coins_for_sprout ∷ []

  unfoldable pub inspect_sprout : Option k.Sighash → Option SproutBundle → List (Line k)
  inspect_sprout sighash none = []
  inspect_sprout sighash (some bundle) =
      joinsplit_count bundle.joinsplits
      ∷ check_joinsplits bundle.joinsplit_sig sighash (c.sprout_key bundle.joinsplit_pubkey)

  abbrev pub State : Type 0
  State = Option (List (Line k) × k.SaplingContext)

  -- What a check with a state prints, in front of what follows in the new state.
  abbrev pub checked :
      Line k → Option (Bool × k.SaplingContext) → (k.SaplingContext → State) → State
  checked line o rest = o and_then λ (valid, ctx).
      (rest ctx) and_then λ (lines, ctx'). some ((if valid then [] else line ∷ []) ++ lines, ctx')

  unfoldable pub check_spends : k.Sighash → ℕ → List k.Spend → k.SaplingContext → State
  check_spends sighash i [] ctx = some ([], ctx)
  check_spends sighash i (spend ∷ rest) ctx =
      checked (bad_sapling_spend i) (c.check_spend ctx spend sighash)
        (λ ctx'. check_spends sighash (suc i) rest ctx')

  unfoldable pub sapling_note : ℕ → NetworkType → Option (Recovered k.Address) → List (Line k)
  sapling_note i net none = not_recoverable i ∷ []
  sapling_note i net (some note) =
      (if note.value == 0
        then dummy_output i ∷ []
        else real_output i ∷ output_address net note.address ∷ output_value note.value ∷ [])
      ++ output_memo (render_memo note.memo) ∷ []

  -- The height of a coinbase transaction is unwrapped.
  unfoldable pub sapling_coinbase_output :
      Option (Network × NetworkType) → Option ℕ → ℕ → k.Output → Option (List (Line k))
  sapling_coinbase_output none height i output = some (add_network_for_coinbase ∷ [])
  sapling_coinbase_output (some (params, net)) none i output = none
  sapling_coinbase_output (some (params, net)) (some height) i output =
      some (sapling_note i net (c.recover_sapling params height output))

  unfoldable pub check_outputs :
      Bool
      → Option (Network × NetworkType)
      → Option ℕ
      → ℕ
      → List k.Output
      → k.SaplingContext
      → State
  check_outputs is_coinbase net height i [] ctx = some ([], ctx)
  check_outputs is_coinbase net height i (output ∷ rest) ctx =
      let shown = if is_coinbase then sapling_coinbase_output net height i output else some [] in
      let printed =
        checked (bad_sapling_output i) (c.check_output ctx output)
          (λ ctx'. check_outputs is_coinbase net height (suc i) rest ctx') in
      shown and_then λ note. printed and_then λ (lines, ctx'). some (note ++ lines, ctx')

  unfoldable pub inspect_spends : Option k.Sighash → List k.Spend → k.SaplingContext → State
  inspect_spends sighash [] ctx = some ([], ctx)
  inspect_spends none (x ∷ l) ctx =
      some (sapling_spend_count (length (x ∷ l)) ∷ add_coins_for_spends ∷ [], ctx)
  inspect_spends (some sighash) (x ∷ l) ctx =
      (check_spends sighash 0 (x ∷ l) ctx) and_then λ (lines, ctx').
      some (sapling_spend_count (length (x ∷ l)) ∷ lines, ctx')

  unfoldable pub inspect_outputs :
      Bool → Option (Network × NetworkType) → Option ℕ → List k.Output → k.SaplingContext → State
  inspect_outputs is_coinbase net height [] ctx = some ([], ctx)
  inspect_outputs is_coinbase net height (x ∷ l) ctx =
      (check_outputs is_coinbase net height 0 (x ∷ l) ctx) and_then λ (lines, ctx').
      some (sapling_output_count (length (x ∷ l)) ∷ lines, ctx')

  unfoldable pub check_binding_sig :
      Option k.Sighash → SaplingBundle k → k.SaplingContext → List (Line k)
  check_binding_sig none bundle ctx = add_coins_for_binding_sig ∷ []
  check_binding_sig (some sighash) bundle ctx =
      if c.final_check ctx bundle.value_balance sighash bundle.binding_sig
      then []
      else bad_sapling_binding_sig ∷ []

  -- The parts of the Sapling bundle, in their order, on one verification context.
  unfoldable pub inspect_sapling :
      Bool
      → Option (Network × NetworkType)
      → Option ℕ
      → Option k.Sighash
      → Option (SaplingBundle k)
      → Option (List (Line k))
  inspect_sapling is_coinbase net height sighash none = some []
  inspect_sapling is_coinbase net height sighash (some bundle) =
      if is_empty bundle.shielded_spends && is_empty bundle.shielded_outputs
      then none
      else (inspect_spends sighash bundle.shielded_spends c.new_context) and_then λ (spends, ctx).
          (inspect_outputs is_coinbase net height bundle.shielded_outputs ctx)
          and_then λ (outputs, ctx').
              some (spends ++ outputs ++ check_binding_sig sighash bundle ctx')
