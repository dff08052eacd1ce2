-- ===== src/ManualPczt.antt =====
-- PCZTs that spend given coins (src/helpers/pczt/create_manual.rs, src/commands/pczt/pay_manual.rs):
-- the coins, the pool in which a recipient is paid, and the outputs.
pub mod Paying
pub mod Filtered
pub mod Tracked
pub mod Creating
mod Tests
use zcash_devtool_sqlx.Base.{
  ℕ, Bool, true, false, Option, none, some, List, [], ◌∷◌, Result, ok, err, ◌>>=◌, Text,
}
use zcash_devtool_sqlx.Protocol.{PoolType, transparent, shielded, sapling, orchard}

-- What the sources take from the crates of addresses, scripts and transactions.
pub record Crates : Type 1 where
  pub Error : Type 0
  pub TransparentAddress : Type 0
  pub SaplingAddress : Type 0
  pub OrchardAddress : Type 0
  pub PubkeyHash : Type 0
  pub public_key_hash : PubkeyHash → TransparentAddress
  pub Memo : Type 0
  pub empty_memo : Memo
  -- Errors of the sources.
  pub no_receivers : Error
  pub missing_spend_info : Error
  pub both_spend_infos : Error
  pub invalid_hash : Error
  pub invalid_amount : Error
  -- Hexadecimal texts, amounts and scripts.
  pub decode_hex : Text → Result Error (List ℕ)
  pub is_hash : List ℕ → Bool
  pub is_zatoshis : ℕ → Bool
  pub Pubkey : Type 0
  pub Script : Type 0
  pub parse_script : List ℕ → Result Error Script
  -- The builder of a transaction.
  pub Builder : Type 0
  pub add_transparent_output : Builder → TransparentAddress → ℕ → Result Error Builder
  pub add_sapling_output : Builder → SaplingAddress → ℕ → Memo → Result Error Builder
  pub add_orchard_output : Builder → OrchardAddress → ℕ → Memo → Result Error Builder

pub data Receiver (T S O : Type 0) : Type 0 where
  orchard_receiver : O → Receiver T S O
  sapling_receiver : S → Receiver T S O
  transparent_receiver : T → Receiver T S O

-- An address; of a unified one its receivers that are understood, in the crate's order.
pub data Address (T S O H : Type 0) : Type 0 where
  sapling_address : S → Address T S O H
  transparent_address : T → Address T S O H
  unified_address : List (Receiver T S O) → Address T S O H
  tex_address : H → Address T S O H

pub record Coin (P : Type 0) : Type 0 where
  pub txid : Text
  pub out_index : ℕ
  pub value : Option ℕ
  pub script_pubkey : Option Text
  pub pubkey : Option P
  pub redeem_script : Option Text

-- How a coin is spent.
pub data SpendInfo (P R : Type 0) : Type 0 where
  p2pkh : P → SpendInfo P R
  p2sh : R → SpendInfo P R

abbrev pub reverse_onto : {A : Type 0} → List A → List A → List A
reverse_onto acc [] = acc
reverse_onto acc (x ∷ xs) = reverse_onto (x ∷ acc) xs

module _ (c : Crates) where
  open c use {
    Error, TransparentAddress, SaplingAddress, OrchardAddress, PubkeyHash, Memo, Builder, Pubkey,
    Script,
  }

  abbrev pub Recipient : Type 0
  Recipient = Address TransparentAddress SaplingAddress OrchardAddress PubkeyHash

  abbrev pub checked : {A : Type 0} → Bool → Error → A → Result Error A
  checked true e a = ok a
  checked false e a = err e

  -- The hash of the transaction, and the index of the output in it.
  unfoldable pub outpoint : Coin Pubkey → Result Error (List ℕ × ℕ)
  outpoint coin = do
    bytes ← c.decode_hex coin.txid
    hash ← checked (c.is_hash (reverse_onto [] bytes)) c.invalid_hash (reverse_onto [] bytes)
    ok (hash, coin.out_index)

  abbrev pub tx_out : Option ℕ → Option Text → Result Error (Option (ℕ × List ℕ))
  tx_out (some value) (some script_pubkey) = do
    zatoshis ← checked (c.is_zatoshis value) c.invalid_amount value
    script ← c.decode_hex script_pubkey
    ok (some (zatoshis, script))
  tx_out _ _ = ok none

  -- The coin itself, if it is given.
  unfoldable pub coin_of : Coin Pubkey → Result Error (Option (ℕ × List ℕ))
  coin_of coin = tx_out coin.value coin.script_pubkey

  abbrev pub spend_by : Option Pubkey → Option Text → Result Error (SpendInfo Pubkey Script)
  spend_by none none = err c.missing_spend_info
  spend_by (some _) (some _) = err c.both_spend_infos
  spend_by (some pubkey) none = ok (p2pkh pubkey)
  spend_by none (some script_hex) = do
    script_bytes ← c.decode_hex script_hex
    redeem_script ← c.parse_script script_bytes
    ok (p2sh redeem_script)

  unfoldable pub spend_info : Coin Pubkey → Result Error (SpendInfo Pubkey Script)
  spend_info coin = spend_by coin.pubkey coin.redeem_script

  module _ {A : Type 0} (on_transparent : TransparentAddress → Result Error A)
      (on_sapling : SaplingAddress → Result Error A)
      (on_orchard : OrchardAddress → Result Error A) where
    -- What is done for a recipient; a unified address counts by its first receiver.
    abbrev pub handle_recipient : Recipient → Result Error A
    handle_recipient (sapling_address payment_address) = on_sapling payment_address
    handle_recipient (transparent_address address) = on_transparent address
    handle_recipient (unified_address []) = err c.no_receivers
    handle_recipient (unified_address (orchard_receiver address ∷ _)) = on_orchard address
    handle_recipient (unified_address (sapling_receiver payment_address ∷ _)) =
        on_sapling payment_address
    handle_recipient (unified_address (transparent_receiver address ∷ _)) = on_transparent address
    handle_recipient (tex_address hash) = on_transparent (c.public_key_hash hash)

  abbrev pub memo_or_empty : Option Memo → Memo
  memo_or_empty none = c.empty_memo
  memo_or_empty (some memo) = memo

  abbrev pub in_pool : PoolType → Result Error Builder → Result Error (Builder × PoolType)
  in_pool pool (ok builder) = ok (builder, pool)
  in_pool pool (err e) = err e

  -- Adds an output, and says in which pool.
  unfoldable pub add_recipient :
      Builder → Recipient → ℕ → Option Memo → Result Error (Builder × PoolType)
  add_recipient builder recipient value memo =
      handle_recipient (λ to. in_pool transparent (c.add_transparent_output builder to value))
        (λ to.
          in_pool (shielded sapling) (c.add_sapling_output builder to value (memo_or_empty memo)))
        (λ to.
          in_pool (shielded orchard) (c.add_orchard_output builder to value (memo_or_empty memo)))
        recipient
