-- ===== src/Inspect/Transaction/Inputs.antt =====
-- The transparent part of `inspect` (src/commands/inspect/transaction.rs): the inputs against the
-- coins that they spend, and the outputs.
use zcash_devtool_sqlx.Base.{
  ℕ, suc, Bool, ◌&&◌, ◌||◌, ◌==◌, Option, none, some, List, [], ◌∷◌, ◌++◌, map, Result, ok, err,
  if◌then◌else◌, Text, unsnoc, length,
}
use zcash_devtool_sqlx.Inspect.Context.{Formats, TxOut, write_coin}
use zcash_devtool_sqlx.Inspect.Transaction.{
  Kinds, Scripts, ScriptKind, pub_key_hash, script_hash, multi_sig, null_data, pub_key, TxIn,
  TransparentBundle, Transaction, is_empty,
}
use zcash_devtool_sqlx.Inspect.Transaction.Lines.{
  Line, input_count, coins_length, prevout, bad_signature, bad_hash_type, bad_pubkey,
  pubkey_mismatch, invalid_spend, p2sh_coin, multi_sig_coin, null_data_coin, p2pk_coin,
  unknown_coin, add_coins, required_input, output_count, output_coin,
}

-- `SignableInput`: the shielded parts of a transaction, or a transparent input with the type of its
-- hash, its index, the script that is signed, the script of the coin, and the amount.
pub data SignableInput (k : Kinds) : Type 0 where
  shielded : SignableInput k
  transparent : k.HashType → ℕ → List ℕ → List ℕ → ℕ → SignableInput k

-- What the crates tell of the signatures of transparent inputs.
pub record Signing (k : Kinds) : Type 0 where
  pub signature_from_der : List ℕ → Result Text k.Signature
  pub parse_hash_type : ℕ → Option k.HashType
  pub pubkey_from_slice : List ℕ → Result Text k.PublicKey
  -- Whether the address of a public key is that of a hash.
  pub has_hash : k.PublicKey → List ℕ → Bool
  -- `signature_hash` of the transaction, written and read again (which a transaction that was read
  -- survives), with the amounts and the scripts
  -- of the coins that it spends.
  pub signature_hash : Transaction k → List ℕ → List (List ℕ) → SignableInput k → k.Sighash
  pub verify_ecdsa : k.Sighash → k.Signature → k.PublicKey → Result Text (Unit {0})

-- `TransparentAuth::input_amounts`
unfoldable pub input_amounts : List TxOut → List ℕ
input_amounts coins = map (λ prevout. prevout.value) coins

-- `TransparentAuth::input_scriptpubkeys`
unfoldable pub input_scriptpubkeys : List TxOut → List (List ℕ)
input_scriptpubkeys coins = map (λ prevout. prevout.script_pubkey) coins

-- The bytes of the signature with its type, and those of the public key.
unfoldable pub two_pushes :
    {k : Kinds} → Scripts k → Option (List k.Opcode) → Option (List ℕ × List ℕ)
two_pushes s (some (sig_and_type ∷ pubkey ∷ [])) = some (s.value sig_and_type, s.value pubkey)
two_pushes s (some (_ ∷ _ ∷ _ ∷ _)) = none
two_pushes s (some (_ ∷ [])) = none
two_pushes s (some []) = none
two_pushes s none = none

-- The type is the last byte.
unfoldable pub signature_parts : Option (List ℕ × List ℕ) → Option (List ℕ × ℕ × List ℕ)
signature_parts none = none
signature_parts (some (sig_and_type, pubkey)) = elim (unsnoc sig_and_type) [
  | none ↦ none
  | some (sig, hash_type) ↦ some (sig, hash_type, pubkey)
]

module _ {k : Kinds} (g : Signing k) where
  -- The hash of the transaction with the coins that it spends.
  unfoldable pub sighash_of : Transaction k → List TxOut → SignableInput k → k.Sighash
  sighash_of tx coins input =
      g.signature_hash tx (input_amounts coins) (input_scriptpubkeys coins) input

  unfoldable pub input_sighash : Transaction k → List TxOut → k.HashType → ℕ → TxOut → k.Sighash
  input_sighash tx coins hash_type i coin =
      sighash_of tx coins (transparent hash_type i coin.script_pubkey coin.script_pubkey coin.value)

module _ {k : Kinds} (s : Scripts k) (g : Signing k) where
  abbrev pub err_line : {A : Type 0} → (Text → Line k) → Result Text A → List (Line k)
  err_line f (ok _) = []
  err_line f (err e) = f e ∷ []

  abbrev pub none_line : {A : Type 0} → Line k → Option A → List (Line k)
  none_line l (some _) = []
  none_line l none = l ∷ []

  -- What is left to check when the signature, its type and the public key are encoded well.
  unfoldable pub check_spend :
      Transaction k
      → List TxOut
      → ℕ
      → TxOut
      → List ℕ
      → List ℕ
      → Result Text k.Signature
      → Option k.HashType
      → Result Text k.PublicKey
      → List (Line k)
  check_spend tx coins i coin hash pubkey_bytes (ok sig) (some hash_type) (ok pubkey) =
      let sighash = input_sighash g tx coins hash_type i coin in
      (if g.has_hash pubkey hash then [] else pubkey_mismatch i ∷ [])
      ++ err_line (λ e. invalid_spend i e sighash pubkey_bytes) (g.verify_ecdsa sighash sig pubkey)
  check_spend tx coins i coin hash pubkey_bytes (ok sig) (some hash_type) (err _) = []
  check_spend tx coins i coin hash pubkey_bytes (ok sig) none pubkey = []
  check_spend tx coins i coin hash pubkey_bytes (err _) hash_type pubkey = []

  -- A P2PKH coin of the given hash.
  unfoldable pub check_pub_key_hash :
      Transaction k → List TxOut → ℕ → TxOut → List ℕ → Option (List ℕ × ℕ × List ℕ) → List (Line k)
  check_pub_key_hash tx coins i coin hash none = []
  check_pub_key_hash tx coins i coin hash (some (sig_bytes, type_byte, pubkey_bytes)) =
      let sig = g.signature_from_der sig_bytes in
      let hash_type = g.parse_hash_type type_byte in
      let pubkey = g.pubkey_from_slice pubkey_bytes in
      err_line (bad_signature i) sig
      ++ none_line (bad_hash_type i) hash_type
      ++ err_line (bad_pubkey i) pubkey
      ++ check_spend tx coins i coin hash pubkey_bytes sig hash_type pubkey

  unfoldable pub check_kind :
      Transaction k → List TxOut → ℕ → TxIn → TxOut → Option ScriptKind → List (Line k)
  check_kind tx coins i txin coin (some (pub_key_hash hash)) =
      check_pub_key_hash tx coins i coin hash
        (signature_parts (two_pushes s (s.parse_sig txin.script_sig)))
  check_kind tx coins i txin coin (some script_hash) = p2sh_coin i ∷ []
  check_kind tx coins i txin coin (some (multi_sig required keys)) =
      multi_sig_coin i required keys ∷ []
  check_kind tx coins i txin coin (some (null_data pushes)) = null_data_coin i pushes ∷ []
  check_kind tx coins i txin coin (some pub_key) = p2pk_coin i ∷ []
  check_kind tx coins i txin coin none = unknown_coin i ∷ []

  unfoldable pub check_input : Transaction k → List TxOut → ℕ → TxIn → TxOut → List (Line k)
  check_input tx coins i txin coin =
      prevout txin ∷ check_kind tx coins i txin coin (s.standard coin.script_pubkey)

  -- The inputs from an index on, each with its coin.
  unfoldable pub check_inputs :
      Transaction k → List TxOut → ℕ → List TxIn → List TxOut → List (Line k)
  check_inputs tx coins i [] rest = []
  check_inputs tx coins i (txin ∷ vin) [] = []
  check_inputs tx coins i (txin ∷ vin) (coin ∷ rest) =
      check_input tx coins i txin coin ++ check_inputs tx coins (suc i) vin rest

  unfoldable pub inspect_inputs : Transaction k → List TxIn → Option (List TxOut) → List (Line k)
  inspect_inputs tx vin (some coins) =
      (if length vin == length coins then [] else coins_length (length coins) ∷ [])
      ++ check_inputs tx coins 0 vin coins
  inspect_inputs tx vin none = add_coins ∷ map required_input vin

  -- A bundle has an input or an output: `none` is the panic of an assertion.
  unfoldable pub inspect_transparent :
      Formats
      → Transaction k
      → Bool
      → Option (List TxOut)
      → Option TransparentBundle
      → Option (List (Line k))
  inspect_transparent f tx is_coinbase coins none = some []
  inspect_transparent f tx is_coinbase coins (some bundle) =
      if is_empty bundle.vin && is_empty bundle.vout
      then none
      else some (
          (if is_empty bundle.vin || is_coinbase
            then []
            else input_count (length bundle.vin) ∷ inspect_inputs tx bundle.vin coins)
          ++ (if is_empty bundle.vout
              then []
              else output_count (length bundle.vout)
                ∷ map (λ txout. output_coin (write_coin f txout)) bundle.vout))
