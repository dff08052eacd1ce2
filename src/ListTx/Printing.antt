-- ===== src/ListTx/Printing.antt =====
-- What list-tx prints of a transaction (src/commands/wallet/list_tx.rs), line by line. Lines that
-- come before an error are printed beside it. A memo may hold line breaks; it is one line here.
use zcash_devtool_sqlx.Base.{
  is_some, ℕ, ◌&&◌, Bool, true, false, Option, none, some, List, [], ◌∷◌, ◌++◌, Result, ok, err,
  ◌>>=◌, map_err, if◌then◌else◌, Text, codes, same, show_nat,
}
use zcash_devtool_sqlx.Base.Int.{ℤ, pos}
use zcash_devtool_sqlx.Ui.{format_zec}
use zcash_devtool_sqlx.ListTx.{
  ListMode, text, csv, Error, neither_source_nor_destination, time_invalid, Memo, empty, text_memo,
  future, arbitrary, Account, WalletTxOutput, WalletTx, Crates,
}

-- The name of an account in parentheses, behind a space.
abbrev name_text : Option Text → Text
name_text none = []
name_text (some n) = codes " (" ++ n ++ codes ")"

abbrev account_text : Account → Text
account_text (account_id, account_name) = account_id ++ name_text account_name

abbrev same_option : Option Text → Option Text → Bool
same_option none none = true
same_option none (some _) = false
same_option (some _) none = false
same_option (some a) (some b) = same a b

unfoldable pub same_account : Option Account → Option Account → Bool
same_account none none = true
same_account none (some _) = false
same_account (some _) none = false
same_account (some (a, m)) (some (b, n)) = same a b && same_option m n

unfoldable pub kind_text : WalletTxOutput → Text
kind_text o =
    if o.is_change
    then codes " (Change)"
    else if is_some o.from_account && is_some o.to_account
    then codes " (Wallet Internal Transfer)"
    else []

abbrev line_if : {A : Type 0} → (A → Text) → Option A → List Text
line_if f none = []
line_if f (some a) = f a ∷ []

-- The action of a record; a transfer inside the wallet has none.
unfoldable pub action_of : Option Account → Option Account → Result Error (Option Text)
action_of (some _) (some _) = ok none
action_of none none = err neither_source_nor_destination
action_of none (some _) = ok (some (codes "RECEIVE"))
action_of (some _) none = ok (some (codes "SEND"))

-- The account that receives, or else the one that sends.
unfoldable pub shown_account : Option Account → Option Account → Text
shown_account (some to) from = account_text to
shown_account none (some from) = account_text from
shown_account none none = []

unfoldable pub memo_text : Option Memo → Text
memo_text none = []
memo_text (some empty) = []
memo_text (some (text_memo t)) = t
memo_text (some future) = []
memo_text (some arbitrary) = []

abbrev pub fee_text : Option ℕ → Text
fee_text none = []
fee_text (some fee) = format_zec (pos fee)

-- Lines, and how the printing ended.
abbrev pub Printed : Type 0
Printed = List Text × Result Error (Unit {0})

abbrev pub continue : Result Error (List Text) → Printed → Printed
continue (err e) rest = ([], err e)
continue (ok lines) (more, end) = (lines ++ more, end)

-- What is printed after something that ended without an error.
abbrev followed : Printed → Printed → Printed
followed (lines, err e) rest = (lines, err e)
followed (lines, ok _) (more, end) = (lines ++ more, end)

abbrev pub header : Text
header = codes "Date,Action,Symbol,Volume,Currency,Account,Total,Price,Fee,FeeCurrency,Memo"

module _ (c : Crates) where
  -- `WalletTxOutput::print_text`
  unfoldable pub output_text : WalletTxOutput → List Text
  output_text o =
      (codes "  Output "
        ++ show_nat o.output_index
        ++ codes " ("
        ++ c.show_pool o.pool
        ++ codes ")")
      ∷ (codes "    Value: " ++ format_zec (pos o.value) ++ kind_text o)
      ∷ ((if same_account o.from_account o.to_account
            then []
            else line_if (λ a. codes "    Received by account: " ++ account_text a) o.to_account
              ++ line_if (λ a. codes "    Sent from account: " ++ account_text a) o.from_account)
          ++ line_if (λ addr. codes "    To: " ++ addr) o.to_address
          ++ line_if (λ m. codes "    Memo: " ++ c.debug_memo m) o.memo)

  unfoldable pub date_text : Option ℤ → Result Error Text
  date_text none = ok []
  date_text (some time) =
      map_err time_invalid (c.from_unix_timestamp time) >>= λ t. map_err time_invalid (c.format t)

  unfoldable pub record_text : WalletTx → WalletTxOutput → Text → Text → Text
  record_text tx o date action =
      date
      ++ codes ","
      ++ action
      ++ codes ","
      ++ codes "ZEC"
      ++ codes ","
      ++ format_zec (pos o.value)
      ++ codes ","
      ++ codes "USD"
      ++ codes ","
      ++ shown_account o.to_account o.from_account
      ++ codes ","
      ++ codes ","
      ++ codes ","
      ++ fee_text tx.fee_paid
      ++ codes ","
      ++ codes "ZEC"
      ++ codes ","
      ++ memo_text o.memo

  unfoldable pub record_if : WalletTx → WalletTxOutput → Option Text → Result Error (List Text)
  record_if tx o none = ok []
  record_if tx o (some action) =
      date_text tx.block_time >>= λ date. ok (record_text tx o date action ∷ [])

  -- `WalletTxOutput::print_csv`
  unfoldable pub output_csv : WalletTx → WalletTxOutput → Result Error (List Text)
  output_csv tx o =
      if o.is_change
      then ok []
      else action_of o.from_account o.to_account >>= λ action. record_if tx o action

  unfoldable pub outputs_csv : WalletTx → List WalletTxOutput → Printed
  outputs_csv tx [] = ([], ok tt)
  outputs_csv tx (o ∷ rest) = continue (output_csv tx o) (outputs_csv tx rest)

  abbrev height_text : Option ℕ → Text → Text
  height_text none default = default
  height_text (some h) default = show_nat h

  abbrev mined_text : ℕ → Result Text c.Time → Text
  mined_text height (ok time) =
      codes "     Mined: " ++ show_nat height ++ codes " (" ++ c.show_time time ++ codes ")"
  mined_text height (err e) =
      codes "     Mined: " ++ show_nat height ++ codes " (invalid block time: " ++ e ++ codes ")"

  abbrev unmined_text : WalletTx → Text
  unmined_text tx =
      codes "  "
      ++ (if tx.expired_unmined then codes " Expired" else codes " Unmined")
      ++ codes " (expiry height: "
      ++ height_text tx.expiry_height (codes "Unknown")
      ++ codes ")"

  -- A transaction is shown as mined if its height and its time are known.
  unfoldable pub status_text : WalletTx → Option ℕ → Option ℤ → Text
  status_text tx (some height) (some time) = mined_text height (c.from_unix_timestamp time)
  status_text tx (some height) none = unmined_text tx
  status_text tx none time = unmined_text tx

  abbrev fee_or_unknown : Option ℕ → Text
  fee_or_unknown none = codes "Unknown"
  fee_or_unknown (some fee) = format_zec (pos fee)

  abbrev outputs_text : List WalletTxOutput → List Text
  outputs_text [] = []
  outputs_text (o ∷ rest) = output_text o ++ outputs_text rest

  -- `WalletTx::print_text`
  unfoldable pub print_text : WalletTx → List Text
  print_text tx =
      c.show_txid tx.txid
      ∷ status_text tx tx.mined_height tx.block_time
      ∷ (codes "    Amount: " ++ format_zec tx.account_balance_delta)
      ∷ (codes "  Fee paid: " ++ fee_or_unknown tx.fee_paid)
      ∷ (codes "  Sent "
          ++ show_nat tx.sent_note_count
          ++ codes " notes, received "
          ++ show_nat tx.received_note_count
          ++ codes " notes, "
          ++ show_nat tx.memo_count
          ++ codes " memos")
      ∷ outputs_text tx.outputs

  unfoldable pub print : ListMode → WalletTx → Printed
  print text tx = (print_text tx, ok tt)
  print csv tx = outputs_csv tx tx.outputs

  abbrev first_line : ListMode → Text
  first_line text = codes "Transactions:"
  first_line csv = header

  -- The rows of the query are read and printed one after another.
  unfoldable pub print_rows : ListMode → List (Result Error WalletTx) → Printed
  print_rows mode [] = ([], ok tt)
  print_rows mode (err e ∷ rows) = ([], err e)
  print_rows mode (ok tx ∷ rows) = followed (print mode tx) (print_rows mode rows)

  unfoldable pub run : ListMode → List (Result Error WalletTx) → Printed
  run mode rows = let (lines, end) = print_rows mode rows in (first_line mode ∷ lines, end)
