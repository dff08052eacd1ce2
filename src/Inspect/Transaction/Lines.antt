-- ===== src/Inspect/Transaction/Lines.antt =====
-- What the inspection of a transaction prints, with the values that a line shows. The title is left
-- out, and the lines that follow a line to show more of the same error are part of it.
use zcash_devtool_sqlx.Base.{ℕ, List, Text}
use zcash_devtool_sqlx.Inspect.Context.{JsonTxOut, NetworkType}
use zcash_devtool_sqlx.Inspect.Transaction.{TxIn, Kinds}

module _ (k : Kinds) where
  pub data Line : Type 0 where
    transaction_id : k.TxId → Line
    mined_in : Text → ℕ → Line
    version branch_id coinbase : Line
    coins_without_inputs : Line
    shielded_sighash : k.Sighash → Line
    -- Transparent inputs and outputs.
    input_count : ℕ → Line
    coins_length : ℕ → Line
    prevout : TxIn → Line
    bad_signature : ℕ → Text → Line
    bad_hash_type : ℕ → Line
    bad_pubkey : ℕ → Text → Line
    pubkey_mismatch : ℕ → Line
    invalid_spend : ℕ → Text → k.Sighash → List ℕ → Line
    p2sh_coin : ℕ → Line
    multi_sig_coin : ℕ → ℕ → ℕ → Line
    null_data_coin : ℕ → ℕ → Line
    p2pk_coin : ℕ → Line
    unknown_coin : ℕ → Line
    add_coins : Line
    required_input : TxIn → Line
    output_count : ℕ → Line
    output_coin : JsonTxOut → Line
    -- Sprout.
    joinsplit_count : ℕ → Line
    bad_joinsplit_pubkey : Text → Line
    bad_joinsplit_sig : Text → Line
    add_coins_for_sprout : Line
    -- Sapling.
    sapling_spend_count : ℕ → Line
    bad_sapling_spend : ℕ → Line
    add_coins_for_spends : Line
    sapling_output_count : ℕ → Line
    add_network_for_coinbase : Line
    bad_sapling_output : ℕ → Line
    bad_sapling_binding_sig add_coins_for_binding_sig : Line
    -- Orchard.
    action_count : ℕ → Line
    duplicated_nullifier : List ℕ → Line
    bad_action_sig : ℕ → Text → Line
    add_coins_for_actions : Line
    bad_orchard_proof : Text → Line
    -- Outputs that the all-zeros key recovers.
    dummy_output : ℕ → Line
    real_output : ℕ → Line
    output_address : NetworkType → k.Address → Line
    add_network_for_address : Line
    output_value : ℕ → Line
    output_memo : Text → Line
    not_recoverable : ℕ → Line
