-- ===== src/Inspect/Transaction/Tests.antt =====
-- Runs of the inspection of transactions, and the theorems at inputs that meet their hypotheses.
use mathlib.Core.List.{Memᴰ}
use zcash_devtool_sqlx.Base.{
  ℕ, ◌≡◌, ◌≢◌, ◌↔◌, refl, none, some, List, [], ◌∷◌, All, get_elem?, arith,
}
use zcash_devtool_sqlx.Protocol.{main_network}
use zcash_devtool_sqlx.Inspect.Context.{Context, TxOut}
use zcash_devtool_sqlx.Inspect.Transaction.{TxIn, Transaction, is_coinbase}
use zcash_devtool_sqlx.Inspect.Transaction.Lines.{prevout, duplicated_nullifier}
use zcash_devtool_sqlx.Inspect.Transaction.Inputs.{check_input, two_pushes, signature_parts}
use zcash_devtool_sqlx.Inspect.Transaction.Orchard.{
  duplicated_nullifiers, duplicates, group_from, push_index, nullifiers,
}
use zcash_devtool_sqlx.Inspect.Transaction.Running.{context_networks, coinbase_height, inspect}
use zcash_devtool_sqlx.Inspect.Transaction.Nullifiers.{
  Iterates, IsJustified, duplicated_nullifiers_lem,
}
use zcash_devtool_sqlx.Inspect.Transaction.Checked.{PartsSigned, check_input_clean}
use zcash_devtool_sqlx.Inspect.Transaction.SaplingCases.{Reads, LacksHeight}
use zcash_devtool_sqlx.Inspect.Transaction.Finishes.{inspect_panics}
use zcash_devtool_sqlx.Inspect.Transaction.Sample.{
  kinds, formats, scripts, signing, shielded, coinbase_with, one_output,
}

-- The actions 0 and 2 have one nullifier.

two_reported :
    duplicated_nullifiers shielded (6 ∷ 5 ∷ 6 ∷ []) ≡ duplicated_nullifier (0 ∷ 2 ∷ []) ∷ []
unfolding duplicated_nullifiers duplicates group_from push_index
two_reported = refl

in_order : Iterates shielded
in_order = record { only = λ m e h. h; each = λ m e h. h }

duplicated_nullifiers_example :
    All
      (IsJustified kinds (nullifiers shielded (6 ∷ 5 ∷ 6 ∷ [])))
      (duplicated_nullifiers shielded (6 ∷ 5 ∷ 6 ∷ []))
    × ((i j : ℕ) (key : List ℕ)
        → i ≢ j
        → get_elem? (nullifiers shielded (6 ∷ 5 ∷ 6 ∷ [])) i ≡ some key
        → get_elem? (nullifiers shielded (6 ∷ 5 ∷ 6 ∷ [])) j ≡ some key
        → (l : List ℕ) × Memᴰ
            (duplicated_nullifier l)
            (duplicated_nullifiers shielded (6 ∷ 5 ∷ 6 ∷ []))
          × Memᴰ i l
          × Memᴰ j l)
duplicated_nullifiers_example = duplicated_nullifiers_lem shielded in_order (6 ∷ 5 ∷ 6 ∷ [])

abbrev spent : TxOut
spent = record { value = 5; script_pubkey = 3 ∷ [] }

-- The signature 5 of type 1, and the key 3.
abbrev signed_input : TxIn
signed_input = record { txid = []; index = 0; script_sig = 5 ∷ 1 ∷ 3 ∷ [] }

abbrev spending : Transaction kinds
spending = coinbase_with [] none

check_input_clean_example :
    (check_input scripts signing spending (spent ∷ []) 0 signed_input spent
      ≡ prevout signed_input ∷ [])
    ↔ PartsSigned scripts signing spending
        (spent ∷ [])
        0
        spent
        (3 ∷ [])
        []
        (signature_parts (two_pushes scripts (scripts.parse_sig (5 ∷ 1 ∷ 3 ∷ []))))
check_input_clean_example =
    check_input_clean scripts signing spending (spent ∷ []) 0 signed_input spent (3 ∷ []) refl

abbrev context : Context
context = record {
  json_network = some main_network;
  json_accounts = none;
  chainhistoryroot = none;
  transparentcoins = none;
}

all_read : Reads shielded
all_read = record {
  spends_read = λ ctx spend sighash. (_, refl);
  outputs_read = λ ctx output. (_, refl);
  addresses_match = λ action note h. absurd (ground (arith, h));
}

abbrev no_height : Transaction kinds
no_height = coinbase_with [] (some one_output)

inspect_panics_example :
    (inspect formats scripts signing shielded no_height (some context) none ≡ none)
    ↔ LacksHeight
        (is_coinbase scripts no_height)
        (context_networks (some context))
        (coinbase_height scripts no_height)
        (some one_output)
inspect_panics_example =
    inspect_panics formats scripts signing shielded all_read no_height (some context) none refl refl
