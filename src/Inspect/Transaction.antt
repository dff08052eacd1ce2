-- ===== src/Inspect/Transaction.antt =====
-- The inspection of a transaction (src/commands/inspect/transaction.rs): the parts of a
-- transaction, what a coinbase transaction is, and which coins its inputs spend.
pub mod Lines
pub mod Inputs
pub mod Shielded
pub mod Orchard
pub mod Nullifiers
pub mod Checked
pub mod SaplingCases
pub mod Finishes
pub mod Sample
mod Tests
pub mod Running
use zcash_devtool_sqlx.Base.{
  ℕ, zero, suc, Bool, true, false, not, Option, none, some, List, [], ◌∷◌, ◌++◌, Result, ok, err,
  if◌then◌else◌, Text, codes,
}
use zcash_devtool_sqlx.Base.Int.{ℤ, pos, negsuc}
use zcash_devtool_sqlx.Protocol.{Network}
use zcash_devtool_sqlx.Inspect.Context.{TxOut, Context, NetworkType, transparent_coins}

-- `solver::ScriptKind`
pub data ScriptKind : Type 0 where
  pub_key_hash : List ℕ → ScriptKind
  script_hash : ScriptKind
  multi_sig : ℕ → ℕ → ScriptKind
  null_data : ℕ → ScriptKind
  pub_key : ScriptKind

-- An input: the id and the index of the coin that it spends, and its script.
pub record TxIn : Type 0 where
  pub txid : List ℕ
  pub index : ℕ
  pub script_sig : List ℕ

pub record TransparentBundle : Type 0 where
  pub vin : List TxIn
  pub vout : List TxOut

pub record SproutBundle : Type 0 where
  pub joinsplits : ℕ
  pub joinsplit_pubkey : List ℕ
  pub joinsplit_sig : List ℕ

-- What `Memo::try_from` makes of the bytes of a memo; of the memos that are neither empty nor a
-- text, and of an error, what is printed.
pub data MemoReading : Type 0 where
  empty : MemoReading
  text : Text → MemoReading
  other : Text → MemoReading
  invalid : Text → MemoReading

-- `render_memo`
unfoldable pub render_memo : MemoReading → Text
render_memo empty = codes "No memo"
render_memo (text memo) = codes "Text memo: '" ++ memo ++ codes "'"
render_memo (other memo) = memo
render_memo (invalid e) = codes "Invalid memo: " ++ e

-- A note of an output that the all-zeros outgoing viewing key recovers, the address beside it and
-- its memo.
pub record Recovered (Address : Type 0) : Type 0 where
  pub value : ℕ
  pub recipient : Address
  pub address : Address
  pub memo : MemoReading

-- The types that the sources pass from one call of the crates to another.
pub record Kinds : Type 1 where
  pub Opcode : Type 0
  pub Signature : Type 0
  pub HashType : Type 0
  pub PublicKey : Type 0
  pub Spend : Type 0
  pub Output : Type 0
  pub SaplingSig : Type 0
  pub Action : Type 0
  pub OrchardProof : Type 0
  pub Address : Type 0
  pub Sighash : Type 0
  pub TxId : Type 0
  pub VerificationKey : Type 0
  pub SaplingContext : Type 0

pub record SaplingBundle (k : Kinds) : Type 0 where
  pub shielded_spends : List k.Spend
  pub shielded_outputs : List k.Output
  pub value_balance : ℤ
  pub binding_sig : k.SaplingSig

pub record OrchardBundle (k : Kinds) : Type 0 where
  pub actions : List k.Action
  pub proof : k.OrchardProof

pub record Transaction (k : Kinds) : Type 0 where
  pub txid : k.TxId
  pub is_v5 : Bool
  pub expiry_height : ℕ
  pub transparent_bundle : Option TransparentBundle
  pub sprout_bundle : Option SproutBundle
  pub sapling_bundle : Option (SaplingBundle k)
  pub orchard_bundle : Option (OrchardBundle k)

-- What the crates tell of scripts.
pub record Scripts (k : Kinds) : Type 0 where
  -- `TransparentBundle::is_coinbase`
  pub is_coinbase_bundle : TransparentBundle → Bool
  -- `script::Sig::parse`, if it succeeds.
  pub parse_sig : List ℕ → Option (List k.Opcode)
  -- `Opcode::to_num`, if it succeeds.
  pub to_num : k.Opcode → Option ℤ
  -- `BlockHeight::try_from` of a 64-bit integer, if it succeeds.
  pub to_height : ℤ → Option ℕ
  -- What an opcode of a script pushes.
  pub value : k.Opcode → List ℕ
  -- `script::PubKey::parse` and `solver::standard`, if both succeed.
  pub standard : List ℕ → Option ScriptKind

module _ {k : Kinds} (s : Scripts k) where
  unfoldable pub is_coinbase : Transaction k → Bool
  is_coinbase tx = elim tx.transparent_bundle [ none ↦ false | some b ↦ s.is_coinbase_bundle b ]

  -- 0 is no height.
  unfoldable pub height_of_num : ℤ → Option ℕ
  height_of_num (pos zero) = none
  height_of_num (pos (suc n)) = s.to_height (pos (suc n))
  height_of_num (negsuc n) = s.to_height (negsuc n)

  unfoldable pub first_num : Option (List k.Opcode) → Option ℤ
  first_num none = none
  first_num (some []) = none
  first_num (some (opcode ∷ _)) = s.to_num opcode

  unfoldable pub height_of_input : List TxIn → Option ℕ
  height_of_input [] = none
  height_of_input (input ∷ _) = elim (first_num (s.parse_sig input.script_sig)) [
    | none ↦ none
    | some v ↦ height_of_num v
  ]

  unfoldable pub extract_height_from_coinbase : Transaction k → Option ℕ
  extract_height_from_coinbase tx = elim tx.transparent_bundle [
    | none ↦ none
    | some bundle ↦ height_of_input bundle.vin
  ]

abbrev pub is_empty {ℓ} : {A : Type ℓ} → List A → Bool
is_empty [] = true
is_empty (_ ∷ _) = false

unfoldable pub has_inputs : Option TransparentBundle → Bool
has_inputs none = false
has_inputs (some b) = not (is_empty b.vin)

unfoldable pub given_coins : Option Context → Option (List TxOut)
given_coins none = none
given_coins (some ctx) = transparent_coins ctx

-- Without transparent inputs there are no coins, whatever the context says.
unfoldable pub spent_coins : Option TransparentBundle → Option Context → Option (List TxOut)
spent_coins bundle ctx = if has_inputs bundle then given_coins ctx else some []
