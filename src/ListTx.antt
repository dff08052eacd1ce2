-- ===== src/ListTx.antt =====
-- The list-tx command (src/commands/wallet/list_tx.rs): the transactions of a wallet as a text or
-- as records of comma-separated values.
pub mod Printing
pub mod Records
pub mod Columns
pub mod Postgres
mod Tests
use zcash_devtool_sqlx.Base.{
  ℕ, ◌==◌, ◌&&◌, Bool, true, false, Option, none, some, List, [], ◌∷◌, ◌++◌, Result, ok, err, ◌>>=◌,
  ok_or, map_err, if◌then◌else◌, Text, codes, same, length,
}
use zcash_devtool_sqlx.Base.Int.{ℤ, pos, negsuc}
use zcash_devtool_sqlx.Protocol.{PoolType, transparent, shielded, sapling, orchard}

pub data ListMode : Type 0 where
  text csv : ListMode

-- `ListMode::parse`
unfoldable pub parse : Text → Option ListMode
parse value =
    if same value (codes "text")
    then some text
    else if same value (codes "csv")
    then some csv
    else none

-- The errors of the command; those of the crates are given by their texts.
pub data Error : Type 0 where
  invalid_printing_mode : Error
  no_wallets multiple_wallets : Error
  pool_code_not_recognized : ℤ → Error
  value_invalid : Text → Error
  memo_invalid : Text → Error
  invalid_txid : Error
  amount_out_of_range fee_out_of_range : Error
  neither_source_nor_destination : Error
  time_invalid : Text → Error

-- The mode of the command, which is the text unless it is given.
unfoldable pub mode_of : Option Text → Result Error ListMode
mode_of none = ok text
mode_of (some s) = ok_or (parse s) invalid_printing_mode

-- The wallet that is listed from a shared database: the one that is asked for, or the only one.
unfoldable pub wallet_id :
    {WalletId : Type 0} → Option WalletId → List WalletId → Result Error WalletId
wallet_id (some uuid) wallets = ok uuid
wallet_id none [] = err no_wallets
wallet_id none (w ∷ []) = ok w
wallet_id none (_ ∷ _ ∷ _) = err multiple_wallets

-- `parse_pool_code`
unfoldable pub parse_pool_code : ℤ → Option PoolType
parse_pool_code (pos n) =
    if n == 0
    then some transparent
    else if n == 2
    then some (shielded sapling)
    else if n == 3
    then some (shielded orchard)
    else none
parse_pool_code (negsuc n) = none

-- `Memo`, with the text of a text memo.
pub data Memo : Type 0 where
  empty : Memo
  text_memo : Text → Memo
  future arbitrary : Memo

-- An account: its id and its name, if it has one.
abbrev pub Account : Type 0
Account = Text × Option Text

pub record WalletTxOutput : Type 0 where
  pub pool : PoolType
  pub output_index : ℕ
  pub from_account : Option Account
  pub to_account : Option Account
  pub to_address : Option Text
  pub value : ℕ
  pub is_change : Bool
  pub memo : Option Memo

pub record WalletTx : Type 0 where
  pub mined_height : Option ℕ
  pub txid : List ℕ
  pub expiry_height : Option ℕ
  pub account_balance_delta : ℤ
  pub fee_paid : Option ℕ
  pub sent_note_count : ℕ
  pub received_note_count : ℕ
  pub memo_count : ℕ
  pub block_time : Option ℤ
  pub expired_unmined : Bool
  pub outputs : List WalletTxOutput

-- What the command takes from the crates.
pub record Crates : Type 1 where
  pub Time : Type 0
  -- `Zatoshis::from_nonnegative_i64`, `Zatoshis::from_u64` and `ZatBalance::from_i64`.
  pub from_nonnegative_i64 : ℤ → Result Text ℕ
  pub from_u64 : ℕ → Option ℕ
  pub balance_from_i64 : ℤ → Option ℤ
  -- `MemoBytes::from_bytes` and `Memo::try_from`.
  pub read_memo : List ℕ → Result Text Memo
  pub from_unix_timestamp : ℤ → Result Text Time
  -- `Time` in the format of the records, and as it is displayed.
  pub format : Time → Result Text Text
  pub show_time : Time → Text
  pub show_pool : PoolType → Text
  pub debug_memo : Memo → Text
  pub show_txid : List ℕ → Text

-- An item of a row that may be missing, read by a fallible function.
abbrev pub transpose : {A B : Type 0} → (A → Result Error B) → Option A → Result Error (Option B)
transpose f none = ok none
transpose f (some a) = f a >>= λ b. ok (some b)

module _ (c : Crates) where
  -- `WalletTxOutput::new`
  unfoldable pub new :
      ℤ
      → ℕ
      → Option Account
      → Option Account
      → Option Text
      → ℤ
      → Bool
      → Option (List ℕ)
      → Result Error WalletTxOutput
  new pool_code output_index from_account to_account to_address value is_change memo =
      ok_or (parse_pool_code pool_code) (pool_code_not_recognized pool_code) >>= λ pool.
      map_err value_invalid (c.from_nonnegative_i64 value) >>= λ zatoshis.
      transpose (λ b. map_err memo_invalid (c.read_memo b)) memo >>= λ m. ok (record {
        pool = pool;
        output_index = output_index;
        from_account = from_account;
        to_account = to_account;
        to_address = to_address;
        value = zatoshis;
        is_change = is_change;
        memo = m;
      })

  -- `WalletTx::from_parts`; the heights are numbers of 32 bits.
  unfoldable pub from_parts :
      Option ℕ
      → List ℕ
      → Option ℕ
      → ℤ
      → Option ℕ
      → ℕ
      → ℕ
      → ℕ
      → Option ℤ
      → Bool
      → List WalletTxOutput
      → Result Error WalletTx
  from_parts mined_height txid expiry_height delta fee sent received memos time expired outputs =
      (if length txid == 32 then ok txid else err invalid_txid) >>= λ id.
      ok_or (c.balance_from_i64 delta) amount_out_of_range >>= λ balance.
      transpose (λ v. ok_or (c.from_u64 v) fee_out_of_range) fee >>= λ paid. ok (record {
        mined_height = mined_height;
        txid = id;
        expiry_height = expiry_height;
        account_balance_delta = balance;
        fee_paid = paid;
        sent_note_count = sent;
        received_note_count = received;
        memo_count = memos;
        block_time = time;
        expired_unmined = expired;
        outputs = outputs;
      })
