-- ===== src/ListTx/Tests.antt =====
-- A listing, and the theorems on it at inputs that meet their hypotheses.
use zcash_devtool_sqlx.Base.{
  ◌≡◌, refl, true, false, none, some, List, [], ◌∷◌, map, length, ok, err, codes, split,
}
use zcash_devtool_sqlx.Base.Int.{ℤ, pos}
use zcash_devtool_sqlx.Protocol.{transparent}
use zcash_devtool_sqlx.Ui.{format_zec, with_sign, unsigned_abs, show_int, pad}
use zcash_devtool_sqlx.ListTx.{
  csv, mode_of, parse, invalid_printing_mode, text_memo, WalletTxOutput, WalletTx, Crates,
}
use zcash_devtool_sqlx.ListTx.Printing.{
  header, record_text, record_if, action_of, date_text, shown_account, output_csv, outputs_csv,
  print, print_rows, run, memo_text,
}
use zcash_devtool_sqlx.ListTx.Records.{all_entries, run-all_entries}
use zcash_devtool_sqlx.ListTx.Columns.{columns, is_comma_free-HasNoComma, record_text-columns}

-- `--mode json`
no_mode : mode_of (some (codes "json")) ≡ err invalid_printing_mode
unfolding mode_of parse
no_mode = refl

abbrev crates : Crates
crates = record {
  Time = ℤ;
  from_nonnegative_i64 = λ v. err (codes "negative");
  from_u64 = λ v. some v;
  balance_from_i64 = λ v. some v;
  read_memo = λ b. ok (text_memo b);
  from_unix_timestamp = λ t. ok t;
  format = λ t. ok (codes "1970");
  show_time = λ t. codes "1970";
  show_pool = λ p. codes "Transparent";
  debug_memo = λ m. codes "memo";
  show_txid = λ t. t;
}

abbrev received : WalletTxOutput
received = record {
  pool = transparent;
  output_index = 0;
  from_account = none;
  to_account = some (codes "a", none);
  to_address = none;
  value = 5;
  is_change = false;
  memo = some (text_memo (codes "rent"));
}

abbrev change : WalletTxOutput
change = record {
  pool = transparent;
  output_index = 1;
  from_account = none;
  to_account = none;
  to_address = none;
  value = 7;
  is_change = true;
  memo = none;
}

-- A memo with a comma.
abbrev comma_memo : WalletTxOutput
comma_memo = record {
  pool = transparent;
  output_index = 0;
  from_account = some (codes "a", none);
  to_account = none;
  to_address = none;
  value = 5;
  is_change = false;
  memo = some (text_memo (codes "rent, May"));
}

abbrev with_outputs : List WalletTxOutput → WalletTx
with_outputs outputs = record {
  mined_height = some 9;
  txid = [];
  expiry_height = none;
  account_balance_delta = pos 5;
  fee_paid = none;
  sent_note_count = 0;
  received_note_count = 1;
  memo_count = 1;
  block_time = some (pos 3);
  expired_unmined = false;
  outputs = outputs;
}

one_record :
    run crates csv (ok (with_outputs (received ∷ change ∷ [])) ∷ [])
    ≡ (header ∷ codes "1970,RECEIVE,ZEC,  0.00000005 ZEC,USD,a,,,,ZEC,rent" ∷ [], ok tt)
unfolding run print_rows print outputs_csv output_csv action_of record_if record_text date_text
    shown_account memo_text format_zec with_sign unsigned_abs show_int pad
one_record = refl

-- The memo with a comma gives a record of twelve columns.
twelve_columns :
    length
      (split 44 (record_text crates (with_outputs []) comma_memo (codes "1970") (codes "SEND")))
    ≡ 12
unfolding record_text shown_account memo_text format_zec with_sign unsigned_abs show_int pad
twelve_columns = refl

run-all_entries_example :
    run crates csv (map ok (with_outputs (received ∷ change ∷ []) ∷ []))
    ≡ (header ∷ all_entries crates (with_outputs (received ∷ change ∷ []) ∷ []), ok tt)
run-all_entries_example =
    run-all_entries crates (with_outputs (received ∷ change ∷ []) ∷ [])
      (((codes "1970", unfold date_text in refl), (refl, (refl, tt))), tt)

record_text-columns_example :
    (split 44 (record_text crates (with_outputs []) received (codes "1970") (codes "SEND"))
      ≡ columns crates (with_outputs []) received (codes "1970") (codes "SEND"))
    × (length
          (split 44 (record_text crates (with_outputs []) received (codes "1970") (codes "SEND")))
        ≡ length (split 44 header))
record_text-columns_example =
    record_text-columns crates (with_outputs []) received (codes "1970") (codes "SEND")
      (is_comma_free-HasNoComma (codes "1970") refl) (is_comma_free-HasNoComma (codes "SEND") refl)
      (unfold shown_account in is_comma_free-HasNoComma (codes "a") refl)
      (unfold memo_text in is_comma_free-HasNoComma (codes "rent") refl)
