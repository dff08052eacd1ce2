-- ===== src/Inspect/Context.antt =====
-- The context that the user gives to the inspection of blocks and transactions
-- (src/commands/inspect/context.rs): how its JSON values are read and written.
pub mod Trips
mod Tests
use mathlib.Core.List.{reverse}
use zcash_devtool_sqlx.Base.{
  map_err, ℕ, ◌^◌, Option, none, some, List, [], ◌∷◌, map, ltb, Result, ok, err, ◌>>=◌,
  if◌then◌else◌, Text, codes, same, length,
}
use zcash_devtool_sqlx.Base.Int.{ℤ, pos, negsuc}
use zcash_devtool_sqlx.Protocol.{Network, main_network, test_network}

-- `hex::FromHexError`, with the character that is not a digit and its index.
pub data FromHexError : Type 0 where
  invalid_hex_character : ℕ → ℕ → FromHexError
  odd_length : FromHexError
  invalid_string_length : FromHexError

-- `zcash_protocol::value::BalanceError`
pub data BalanceError : Type 0 where
  overflow underflow : BalanceError

-- What the readers call: hexadecimal texts, `AccountId::try_from` and `Zatoshis::from_u64`.
pub record Formats : Type 0 where
  pub encode : List ℕ → Text
  pub decode : Text → Result FromHexError (List ℕ)
  -- Into a slice of the given length.
  pub decode_to_slice : Text → ℕ → Result FromHexError (List ℕ)
  pub account_id : ℕ → Result Text ℕ
  pub zatoshis : ℕ → Result BalanceError ℕ

-- Why a value is refused. A length is the number of bytes of the text.
pub data ReadError : Type 0 where
  not_a_network : Text → ReadError
  out_of_u32 : ℤ → ReadError
  account_invalid : Text → ReadError
  not_hex : ℕ → ReadError
  not_even : ℕ → ReadError
  not_64_characters : ℕ → ReadError
  not_zatoshis : ℕ → ReadError
  negative_zatoshis : ℕ → ReadError

-- `JsonNetworkVisitor::visit_str`
unfoldable pub read_network : Text → Result ReadError Network
read_network v =
    if same v (codes "main")
    then ok main_network
    else if same v (codes "test")
    then ok test_network
    else err (not_a_network v)

-- `u32::try_from`
unfoldable pub to_u32 : ℤ → Option ℕ
to_u32 (pos n) = if ltb n (2 ^ 32) then some n else none
to_u32 (negsuc n) = none

unfoldable pub hex_error : ℕ → FromHexError → ReadError
hex_error len (invalid_hex_character c index) = not_hex c
hex_error len odd_length = not_even len
hex_error len invalid_string_length = not_64_characters len

unfoldable pub zatoshis_error : ℕ → BalanceError → ReadError
zatoshis_error v overflow = not_zatoshis v
zatoshis_error v underflow = negative_zatoshis v

-- `transparent::TxOut`: an amount and the bytes of a script.
pub record TxOut : Type 0 where
  pub value : ℕ
  pub script_pubkey : List ℕ

-- The numbers and the texts of a coin as JSON has them.
pub record JsonTxOut : Type 0 where
  pub value : ℕ
  pub script_pubkey : Text

module _ (f : Formats) where
  unfoldable pub checked_account : ℤ → Option ℕ → Result ReadError ℕ
  checked_account v none = err (out_of_u32 v)
  checked_account v (some a) = map_err account_invalid (f.account_id a)

  -- The visitors of `JsonAccountId`, for the integer types that JSON numbers come in.
  unfoldable pub visit_i64 : ℤ → Result ReadError ℕ
  visit_i64 v = checked_account v (to_u32 v)

  unfoldable pub visit_i128 : ℤ → Result ReadError ℕ
  visit_i128 v = checked_account v (to_u32 v)

  unfoldable pub visit_u64 : ℕ → Result ReadError ℕ
  visit_u64 v = checked_account (pos v) (to_u32 (pos v))

  unfoldable pub visit_u128 : ℕ → Result ReadError ℕ
  visit_u128 v = checked_account (pos v) (to_u32 (pos v))

  -- `ZUint256Visitor::visit_str`: hashes are written with their bytes in reverse.
  unfoldable pub read_uint256 : Text → Result ReadError (List ℕ)
  read_uint256 v = map_err (hex_error (length v)) (f.decode_to_slice v 32) >>= λ data_bytes.
      ok (reverse data_bytes)

  -- `Display` of `ZUint256`
  unfoldable pub show_uint256 : List ℕ → Text
  show_uint256 hash = f.encode (reverse hash)

  -- `ZOutputValueVisitor::visit_u64`
  unfoldable pub read_value : ℕ → Result ReadError ℕ
  read_value v = map_err (zatoshis_error v) (f.zatoshis v)

  -- `ZScriptVisitor::visit_str`
  unfoldable pub read_script : Text → Result ReadError (List ℕ)
  read_script v = map_err (hex_error (length v)) (f.decode v)

  -- `ZTxOut` from a `TxOut`, and what its derived `Serialize` writes.
  unfoldable pub write_coin : TxOut → JsonTxOut
  write_coin out = record { value = out.value; script_pubkey = f.encode out.script_pubkey }

  -- The derived `Deserialize` of `ZTxOut`.
  unfoldable pub read_coin : JsonTxOut → Result ReadError TxOut
  read_coin json = read_value json.value >>= λ v.
      read_script json.script_pubkey >>= λ s. ok (record { value = v; script_pubkey = s })

  -- The items of an array are read in order, and the first error ends the reading.
  unfoldable pub read_coins : List JsonTxOut → Result ReadError (List TxOut)
  read_coins [] = ok []
  read_coins (json ∷ rest) = read_coin json >>= λ c. read_coins rest >>= λ l. ok (c ∷ l)

pub data NetworkType : Type 0 where
  main test : NetworkType

-- A `Context`. Its newtypes are the values that they hold.
pub record Context : Type 0 where
  pub json_network : Option Network
  pub json_accounts : Option (List ℕ)
  pub chainhistoryroot : Option (List ℕ)
  pub transparentcoins : Option (List TxOut)

unfoldable pub network : Context → Option Network
network c = c.json_network

unfoldable pub type_of : Network → NetworkType
type_of main_network = main
type_of test_network = test

unfoldable pub addr_network : Context → Option NetworkType
addr_network c = elim (network c) [ none ↦ none | some params ↦ some (type_of params) ]

unfoldable pub accounts : Context → Option (List ℕ)
accounts c = c.json_accounts

unfoldable pub transparent_coins : Context → Option (List TxOut)
transparent_coins c = c.transparentcoins
