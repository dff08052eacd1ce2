-- ===== src/Redact/Keys.antt =====
-- The keys of src/commands/pczt/redact.rs, one function for each of its functions. Names behind the
-- ones that a function reads are ignored, as they are there.
use zcash_devtool_sqlx.Base.{
  ℕ, ◌==◌, Option, none, some, List, [], ◌∷◌, ◌++◌, err, if◌then◌else◌, Text, codes, length,
}
use zcash_devtool_sqlx.Redact.{
  Part, global, transparent_inputs, transparent_outputs, sapling_spends, sapling_outputs,
  sapling_bundle, orchard_actions, orchard_bundle, whole, of_spend, of_output, clear, redact_entry,
  empty_field, invalid_length, invalid_hex, Planned, choose, edit, proprietary, cannot, clears,
  indexed,
}

unfoldable pub redact_global : List Text → Planned
redact_global [] = err empty_field
redact_global (field ∷ key) = choose field (
    cannot (
      codes "tx_version"
      ∷ codes "version_group_id"
      ∷ codes "consensus_branch_id"
      ∷ codes "fallback_lock_time"
      ∷ codes "expiry_height"
      ∷ codes "coin_type"
      ∷ codes "tx_modifiable"
      ∷ [])
    ++ (codes "proprietary", proprietary global none whole key) ∷ [])

-- The `hex` crate, and the lengths of the keys of the crate's maps.
module _ (hex : Text → Option (List ℕ)) (key_length : Text → ℕ) where
  abbrev pub fitting : Part → Option ℕ → Text → Text → Option (List ℕ) → Planned
  fitting p i field key none = err (invalid_hex key)
  fitting p i field key (some bytes) =
      if length bytes == key_length field
      then edit p i (redact_entry field bytes)
      else err invalid_length

  -- One entry of a map, or all of them.
  unfoldable pub redact_map : Part → Option ℕ → Text → List Text → Planned
  redact_map p i field [] = edit p i (clear whole field)
  redact_map p i field (key ∷ rest) = fitting p i field key (hex key)

  unfoldable pub maps : Part → Option ℕ → List Text → List Text → List (Text × Planned)
  maps p i key [] = []
  maps p i key (name ∷ rest) = (name, redact_map p i name key) ∷ maps p i key rest

  unfoldable pub redact_transparent_input : Option ℕ → List Text → Planned
  redact_transparent_input index [] = err empty_field
  redact_transparent_input index (field ∷ key) = choose field (
      cannot (
        codes "prevout_txid"
        ∷ codes "prevout_index"
        ∷ codes "sequence"
        ∷ codes "required_time_lock_time"
        ∷ codes "required_height_lock_time"
        ∷ codes "value"
        ∷ codes "script_pubkey"
        ∷ codes "sighash_type"
        ∷ [])
      ++ clears transparent_inputs index whole (codes "script_sig" ∷ codes "redeem_script" ∷ [])
      ++ maps transparent_inputs index key (
          codes "partial_signatures"
          ∷ codes "bip32_derivation"
          ∷ codes "ripemd160_preimages"
          ∷ codes "sha256_preimages"
          ∷ codes "hash160_preimages"
          ∷ codes "hash256_preimages"
          ∷ [])
      ++ (codes "proprietary", proprietary transparent_inputs index whole key) ∷ [])

  unfoldable pub redact_transparent_output : Option ℕ → List Text → Planned
  redact_transparent_output index [] = err empty_field
  redact_transparent_output index (field ∷ key) = choose field (
      cannot (codes "value" ∷ codes "script_pubkey" ∷ [])
      ++ clears transparent_outputs index whole (codes "redeem_script" ∷ codes "user_address" ∷ [])
      ++ maps transparent_outputs index key (codes "bip32_derivation" ∷ [])
      ++ (codes "proprietary", proprietary transparent_outputs index whole key) ∷ [])

  unfoldable pub redact_transparent : List Text → Planned
  redact_transparent [] = err empty_field
  redact_transparent (field ∷ key) = choose field (
      (codes "inputs", redact_transparent_input none key)
      ∷ (codes "outputs", redact_transparent_output none key)
      ∷ [])

unfoldable pub redact_sapling_spend : Option ℕ → List Text → Planned
redact_sapling_spend index [] = err empty_field
redact_sapling_spend index (field ∷ key) = choose field (
    cannot (codes "cv" ∷ codes "nullifier" ∷ codes "rk" ∷ [])
    ++ clears sapling_spends index whole (
        codes "zkproof"
        ∷ codes "spend_auth_sig"
        ∷ codes "recipient"
        ∷ codes "value"
        ∷ codes "rcm"
        ∷ codes "rseed"
        ∷ codes "rcv"
        ∷ codes "proof_generation_key"
        ∷ codes "witness"
        ∷ codes "alpha"
        ∷ codes "zip32_derivation"
        ∷ codes "dummy_ask"
        ∷ [])
    ++ (codes "proprietary", proprietary sapling_spends index whole key) ∷ [])

unfoldable pub redact_sapling_output : Option ℕ → List Text → Planned
redact_sapling_output index [] = err empty_field
redact_sapling_output index (field ∷ key) = choose field (
    cannot (
      codes "cv"
      ∷ codes "cmu"
      ∷ codes "ephemeral_key"
      ∷ codes "enc_ciphertext"
      ∷ codes "out_ciphertext"
      ∷ [])
    ++ clears sapling_outputs index whole (
        codes "zkproof"
        ∷ codes "recipient"
        ∷ codes "value"
        ∷ codes "rseed"
        ∷ codes "rcv"
        ∷ codes "ock"
        ∷ codes "zip32_derivation"
        ∷ codes "user_address"
        ∷ [])
    ++ (codes "proprietary", proprietary sapling_outputs index whole key) ∷ [])

unfoldable pub redact_sapling : List Text → Planned
redact_sapling [] = err empty_field
redact_sapling (field ∷ key) = choose field (
    (codes "spends", redact_sapling_spend none key)
      ∷ (codes "spend", indexed redact_sapling_spend key)
      ∷ (codes "outputs", redact_sapling_output none key)
      ∷ (codes "output", indexed redact_sapling_output key)
      ∷ cannot (codes "value_sum" ∷ codes "anchor" ∷ [])
    ++ clears sapling_bundle none whole (codes "bsk" ∷ []))

unfoldable pub redact_orchard_spend : Option ℕ → List Text → Planned
redact_orchard_spend index [] = err empty_field
redact_orchard_spend index (field ∷ key) = choose field (
    cannot (codes "nullifier" ∷ codes "rk" ∷ [])
    ++ clears orchard_actions index of_spend (
        codes "spend_auth_sig"
        ∷ codes "recipient"
        ∷ codes "value"
        ∷ codes "rho"
        ∷ codes "rseed"
        ∷ codes "fvk"
        ∷ codes "witness"
        ∷ codes "alpha"
        ∷ codes "zip32_derivation"
        ∷ codes "dummy_sk"
        ∷ [])
    ++ (codes "proprietary", proprietary orchard_actions index of_spend key) ∷ [])

unfoldable pub redact_orchard_output : Option ℕ → List Text → Planned
redact_orchard_output index [] = err empty_field
redact_orchard_output index (field ∷ key) = choose field (
    cannot
      (codes "cmx" ∷ codes "ephemeral_key" ∷ codes "enc_ciphertext" ∷ codes "out_ciphertext" ∷ [])
    ++ clears orchard_actions index of_output (
        codes "recipient"
        ∷ codes "value"
        ∷ codes "rseed"
        ∷ codes "ock"
        ∷ codes "zip32_derivation"
        ∷ codes "user_address"
        ∷ [])
    ++ (codes "proprietary", proprietary orchard_actions index of_output key) ∷ [])

unfoldable pub redact_orchard_action : Option ℕ → List Text → Planned
redact_orchard_action index [] = err empty_field
redact_orchard_action index (field ∷ key) = choose field (
    cannot (codes "cv_net" ∷ [])
    ++ (codes "spend", redact_orchard_spend index key)
      ∷ (codes "output", redact_orchard_output index key)
      ∷ clears orchard_actions index whole (codes "rcv" ∷ []))

unfoldable pub redact_orchard : List Text → Planned
redact_orchard [] = err empty_field
redact_orchard (field ∷ key) = choose field (
    (codes "actions", redact_orchard_action none key)
      ∷ (codes "action", indexed redact_orchard_action key)
      ∷ cannot (codes "flags" ∷ codes "value_sum" ∷ codes "anchor" ∷ [])
    ++ clears orchard_bundle none whole (codes "zkproof" ∷ codes "bsk" ∷ []))

unfoldable pub redact_pczt : (Text → Option (List ℕ)) → (Text → ℕ) → List Text → Planned
redact_pczt hex key_length [] = err empty_field
redact_pczt hex key_length (field ∷ key) = choose field (
    (codes "global", redact_global key)
    ∷ (codes "transparent", redact_transparent hex key_length key)
    ∷ (codes "sapling", redact_sapling key)
    ∷ (codes "orchard", redact_orchard key)
    ∷ [])
