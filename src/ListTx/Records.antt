-- ===== src/ListTx/Records.antt =====
-- Which outputs of a transaction give a record.
use zcash_devtool_sqlx.Base.{
  is_some, ◌&&◌, ◌||◌, ◌≡◌, refl, Bool, true, false, Option, none, some, List, [], ◌∷◌, ◌++◌, map,
  All, Result, ok, err, ◌>>=◌, Succeeds, if◌then◌else◌, Text, codes, arith,
}
use zcash_devtool_sqlx.ListTx.{csv, Error, Account, WalletTxOutput, WalletTx, Crates}
use zcash_devtool_sqlx.ListTx.Printing.{
  action_of, header, date_text, record_text, record_if, output_csv, outputs_csv, print, print_rows,
  run,
}

module _ (c : Crates) where
  abbrev text_or_empty : Result Error Text → Text
  text_or_empty (ok t) = t
  text_or_empty (err e) = []

  -- What is printed for an output: nothing for change and for a transfer inside the wallet, and
  -- otherwise one record, of a receipt if an account of the wallet receives the output.
  unfoldable pub entry : WalletTx → WalletTxOutput → List Text
  entry tx o =
      if o.is_change || is_some o.from_account && is_some o.to_account
      then []
      else record_text c tx o (text_or_empty (date_text c tx.block_time))
          (if is_some o.to_account then codes "RECEIVE" else codes "SEND")
        ∷ []

  unfoldable pub entries : WalletTx → List WalletTxOutput → List Text
  entries tx [] = []
  entries tx (o ∷ rest) = entry tx o ++ entries tx rest

  unfoldable pub all_entries : List WalletTx → List Text
  all_entries [] = []
  all_entries (tx ∷ rest) = entries tx tx.outputs ++ all_entries rest

  -- An output that is change, or that an account of the wallet sends or receives.
  abbrev pub HasSide : WalletTxOutput → Type 0
  HasSide o = (o.is_change || (is_some o.from_account || is_some o.to_account)) ≡ true

  -- The time of the transaction can be written, and each of its outputs has a side.
  abbrev pub IsListed : WalletTx → Type 0
  IsListed tx = Succeeds (date_text c tx.block_time) × All HasSide tx.outputs

  output_csv_sides :
      (tx : WalletTx) (o : WalletTxOutput) (change : Bool) (from to : Option Account)
      → Succeeds (date_text c tx.block_time)
      → (change || (is_some from || is_some to)) ≡ true
      → (if change then ok [] else (action_of from to >>= λ action. record_if c tx o action))
        ≡ ok (
            if change || is_some from && is_some to
            then []
            else record_text c tx o
                (text_or_empty (date_text c tx.block_time))
                (if is_some to then codes "RECEIVE" else codes "SEND")
              ∷ [])
  unfolding action_of record_if
  output_csv_sides tx o true from to d h = refl
  output_csv_sides tx o false none none d h = absurd (ground (arith, h))
  output_csv_sides tx o false (some a) (some b) d h = refl
  output_csv_sides tx o false none (some b) (t, e) h = rw e refl
  output_csv_sides tx o false (some a) none (t, e) h = rw e refl

  output_csv-entry :
      (tx : WalletTx) (o : WalletTxOutput)
      → Succeeds (date_text c tx.block_time)
      → HasSide o
      → output_csv c tx o ≡ ok (entry tx o)
  unfolding output_csv entry
  output_csv-entry tx o d h = output_csv_sides tx o o.is_change o.from_account o.to_account d h

  outputs_csv-entries :
      (tx : WalletTx) (l : List WalletTxOutput)
      → Succeeds (date_text c tx.block_time)
      → All HasSide l
      → outputs_csv c tx l ≡ (entries tx l, ok tt)
  unfolding outputs_csv entries
  outputs_csv-entries tx [] d h = refl
  outputs_csv-entries tx (o ∷ rest) d (a, b) =
      rw (output_csv-entry tx o d a) (rw (outputs_csv-entries tx rest d b) refl)

  print_rows-all_entries :
      (txs : List WalletTx)
      → All IsListed txs
      → print_rows c csv (map ok txs) ≡ (all_entries txs, ok tt)
  unfolding print_rows print all_entries
  print_rows-all_entries [] h = refl
  print_rows-all_entries (tx ∷ rest) ((d, sides), h) =
      rw (outputs_csv-entries tx tx.outputs d sides) (rw (print_rows-all_entries rest h) refl)

  -- With transactions whose times can be written and whose outputs each are change or are sent or
  -- received by an account of the wallet, the listing succeeds, and prints the heading and one
  -- record for each output that is neither change nor a transfer inside the wallet, in order.
  pub run-all_entries :
      (txs : List WalletTx)
      → All IsListed txs
      → run c csv (map ok txs) ≡ (header ∷ all_entries txs, ok tt)
  unfolding run
  run-all_entries txs h = rw (print_rows-all_entries txs h) refl
