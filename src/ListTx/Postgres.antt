-- ===== src/ListTx/Postgres.antt =====
-- The rows of a shared database, as `run_postgres` of src/commands/wallet/list_tx.rs makes
-- transactions of them.
use zcash_devtool_sqlx.Base.{
  ℕ, ◌-◌, ◌^◌, ◌%◌, Bool, false, Option, none, some, List, [], ◌∷◌, Result, ok, err, ◌>>=◌, Text,
}
use zcash_devtool_sqlx.Base.Int.{ℤ, pos, negsuc}
use zcash_devtool_sqlx.ListTx.{
  ListMode, Error, WalletTxOutput, WalletTx, Crates, wallet_id, new, from_parts,
}
use zcash_devtool_sqlx.ListTx.Printing.{Printed, run}

-- A row of an output. The columns are integers of 32 or 64 bits.
pub record OutputRow : Type 0 where
  pub output_pool : ℤ
  pub output_index : ℤ
  pub from_account_uuid : Option Text
  pub from_account_name : Option Text
  pub to_account_uuid : Option Text
  pub to_account_name : Option Text
  pub to_address : Option Text
  pub value : Option ℤ
  pub is_change : Option Bool
  pub memo : Option (List ℕ)

-- A row of a transaction, with the rows of its outputs.
pub record TransactionRow : Type 0 where
  pub mined_height : Option ℤ
  pub txid : List ℕ
  pub expiry_height : Option ℤ
  pub account_balance_delta : Option ℤ
  pub fee_paid : Option ℤ
  pub sent_note_count : Option ℤ
  pub received_note_count : Option ℤ
  pub memo_count : Option ℤ
  pub block_time : Option ℤ
  pub expired_unmined : Option Bool
  pub outputs : List OutputRow

-- `as` to an unsigned integer of a number of bits, which wraps around.
unfoldable pub as_unsigned : ℕ → ℤ → ℕ
as_unsigned bits (pos n) = n % 2 ^ bits
as_unsigned bits (negsuc n) = 2 ^ bits - 1 - n % 2 ^ bits

abbrev unwrap_or {ℓ} : {A : Type ℓ} → Option A → A → A
unwrap_or none default = default
unwrap_or (some a) default = a

abbrev as_unsigned? : ℕ → Option ℤ → Option ℕ
as_unsigned? bits none = none
as_unsigned? bits (some n) = some (as_unsigned bits n)

-- The id of an account with its name, if there is an id.
abbrev named : Option Text → Option Text → Option (Text × Option Text)
named none name = none
named (some uuid) name = some (uuid, name)

module _ (c : Crates) where
  unfoldable pub output_of : OutputRow → Result Error WalletTxOutput
  output_of row =
      new c row.output_pool (as_unsigned 32 row.output_index)
        (named row.from_account_uuid row.from_account_name)
        (named row.to_account_uuid row.to_account_name) row.to_address (unwrap_or row.value (pos 0))
        (unwrap_or row.is_change false) row.memo

  -- The first error ends the collection.
  unfoldable pub outputs_of : List OutputRow → Result Error (List WalletTxOutput)
  outputs_of [] = ok []
  outputs_of (row ∷ rows) = output_of row >>= λ o. outputs_of rows >>= λ l. ok (o ∷ l)

  unfoldable pub transaction_of : TransactionRow → Result Error WalletTx
  transaction_of row = outputs_of row.outputs >>= λ outputs.
      from_parts c (as_unsigned? 32 row.mined_height) row.txid (as_unsigned? 32 row.expiry_height)
        (unwrap_or row.account_balance_delta (pos 0)) (as_unsigned? 64 row.fee_paid)
        (as_unsigned 64 (unwrap_or row.sent_note_count (pos 0)))
        (as_unsigned 64 (unwrap_or row.received_note_count (pos 0)))
        (as_unsigned 64 (unwrap_or row.memo_count (pos 0))) row.block_time
        (unwrap_or row.expired_unmined false) outputs

  unfoldable pub transactions_of : List TransactionRow → List (Result Error WalletTx)
  transactions_of [] = []
  transactions_of (row ∷ rows) = transaction_of row ∷ transactions_of rows

  -- The rows are those of the wallet that is chosen. Without a wallet, nothing is printed.
  unfoldable pub run_postgres :
      {WalletId : Type 0}
      → ListMode
      → Option WalletId
      → List WalletId
      → (WalletId → List TransactionRow)
      → Printed
  run_postgres mode pg_wallet_id wallets rows = elim (wallet_id pg_wallet_id wallets) [
    | err e ↦ ([], err e)
    | ok id ↦ run c mode (transactions_of (rows id))
  ]
