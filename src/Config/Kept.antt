-- ===== src/Config/Kept.antt =====
-- What src/config.rs keeps of a configuration.
use zcash_devtool_sqlx.Base.{
  ℕ, ◌≡◌, refl, sym, subst, ap, ◌∙◌, inl, inr, Option, none, some, List, [], ◌∷◌, Result, ok, err,
  ◌>>=◌, Result-cases, Text, arith,
}
use zcash_devtool_sqlx.Protocol.{Network as ConsensusNetwork, main_network, test_network}
use zcash_devtool_sqlx.Config.{
  Host, KeysFile, ConfigEncoding, encoding, written, write_config, in_dir, init_wallet_config,
  init_with_mnemonic, init_without_mnemonic, with_ciphertext, read_network, read_birthday,
  read_config, read, parse_network, name, from_consensus, to_consensus,
}

-- A call to initialise a wallet.
pub data Init (Mnemonic : Type 0) : Type 0 where
  with_mnemonic : Mnemonic → ℕ → ConsensusNetwork → Init Mnemonic
  without_mnemonic : ℕ → ConsensusNetwork → Init Mnemonic

module _ (host : Host) where
  open host use {Error, Mnemonic}

  read_network-name :
      (network : ConsensusNetwork)
      → read_network host (some (name (from_consensus network))) ≡ ok network
  unfolding read_network parse_network name from_consensus to_consensus
  read_network-name main_network = refl
  read_network-name test_network = refl

  init_keeps_file :
      (mnemonic : Option Text) (birthday : ℕ) (network : ConsensusNetwork) (s : Text)
      → (init_wallet_config host mnemonic birthday network (some s)).1 ≡ some s
  unfolding init_wallet_config
  init_keeps_file mnemonic birthday network s = go host.create_dir_all
    where
      go :
          (made : Result Error (Unit {0}))
          → (in_dir host (encoding host mnemonic birthday network) made (some s)).1 ≡ some s
      go (ok _) = refl
      go (err e) = refl

  read_encoding :
      (mnemonic : Option Text) (birthday : ℕ) (network : ConsensusNetwork)
      → read_config host (encoding host mnemonic birthday network)
        ≡ ok (record { network = network; seed_ciphertext = mnemonic; birthday = birthday })
  unfolding read_config read_birthday
  read_encoding mnemonic birthday network = rw (read_network-name network)

  module _ (mnemonic : Option Text) (birthday : ℕ) (network : ConsensusNetwork) where
    abbrev config : ConfigEncoding
    config = encoding host mnemonic birthday network

    -- If a result is a success, its file holds the configuration.
    abbrev Holds : Result Error (Unit {0}) × KeysFile → Type 0
    Holds (ok _, file) =
        read host file
        ≡ ok (record { network = network; seed_ciphertext = mnemonic; birthday = birthday })
    Holds (err e, file) = Unit

    written-Holds :
        (s : Text) (outcome : Option Error × Text)
        → host.from_str s ≡ ok config
        → (outcome.0 ≡ none → outcome.1 ≡ s)
        → Holds (written host outcome)
    unfolding read
    written-Holds s (none, t) h k =
        ap (λ u. host.from_str u >>= read_config host) (k refl)
        ∙ ap (λ c. c >>= read_config host) h
        ∙ read_encoding mnemonic birthday network
    written-Holds s (some e, t) h k = tt

    write-Holds :
        (o : Option Text)
        → ((s : Text) → o ≡ some s → host.from_str s ≡ ok config)
        → Holds (write_config host o)
    write-Holds none h = tt
    write-Holds (some s) h = written-Holds s (host.write s) (h s refl) (host.write_lem s)

    init-Holds :
        (made : Result Error (Unit {0})) (file : KeysFile) → Holds (in_dir host config made file)
    init-Holds (err e) file = tt
    init-Holds (ok _) (some s) = tt
    init-Holds (ok _) none = write-Holds (host.to_string config) (host.from_str-to_string config)

    -- Whatever the initialisation of a wallet reports as a success is read back: the network, the
    -- encrypted mnemonic, and the birthday.
    pub read-init_wallet_config :
        (file after : KeysFile)
        → init_wallet_config host mnemonic birthday network file ≡ (ok tt, after)
        → read host after
          ≡ ok (record { network = network; seed_ciphertext = mnemonic; birthday = birthday })
    unfolding init_wallet_config
    read-init_wallet_config file after e = subst Holds e (init-Holds host.create_dir_all file)

  -- One initialisation, and several one after another, whatever they return.
  abbrev pub initialise : Init Mnemonic → KeysFile → Result Error (Unit {0}) × KeysFile
  initialise (with_mnemonic mnemonic birthday network) =
      init_with_mnemonic host mnemonic birthday network
  initialise (without_mnemonic birthday network) = init_without_mnemonic host birthday network

  abbrev pub initialise_all : List (Init Mnemonic) → KeysFile → KeysFile
  initialise_all [] file = file
  initialise_all (init ∷ rest) file = initialise_all rest (initialise init file).1

  -- The configuration of an initialisation is read from a file.
  abbrev pub IsRead : Init Mnemonic → KeysFile → Type 0
  IsRead (with_mnemonic mnemonic birthday network) file =
      (ciphertext : Text) × (host.encrypt_mnemonic mnemonic ≡ ok ciphertext)
      × (read host file
          ≡ ok (record {
            network = network;
            seed_ciphertext = some ciphertext;
            birthday = birthday;
          }))
  IsRead (without_mnemonic birthday network) file =
      read host file
      ≡ ok (record { network = network; seed_ciphertext = none; birthday = birthday })

  initialise_keeps_file : (init : Init Mnemonic) (s : Text) → (initialise init (some s)).1 ≡ some s
  unfolding init_with_mnemonic init_without_mnemonic
  initialise_keeps_file (with_mnemonic mnemonic birthday network) s =
      elim (host.encrypt_mnemonic mnemonic)
        as (λ r. (with_ciphertext host birthday network r (some s)).1 ≡ some s) [
          | err e ↦ refl
          | ok ciphertext ↦ init_keeps_file (some ciphertext) birthday network s
        ]
  initialise_keeps_file (without_mnemonic birthday network) s =
      init_keeps_file none birthday network s

  initialise_all_keeps_file :
      (inits : List (Init Mnemonic)) (s : Text) → initialise_all inits (some s) ≡ some s
  initialise_all_keeps_file [] s = refl
  initialise_all_keeps_file (init ∷ rest) s =
      ap (initialise_all rest) (initialise_keeps_file init s) ∙ initialise_all_keeps_file rest s

  initialise-IsRead :
      (init : Init Mnemonic) (file after : KeysFile)
      → initialise init file ≡ (ok tt, after)
      → IsRead init after
  unfolding init_with_mnemonic init_without_mnemonic
  initialise-IsRead (without_mnemonic birthday network) file after e =
      read-init_wallet_config none birthday network file after e
  initialise-IsRead (with_mnemonic mnemonic birthday network) file after e =
      elim (Result-cases (host.encrypt_mnemonic mnemonic)) [
        | inl (ciphertext, h) ↦ (
          ciphertext,
          h,
          read-init_wallet_config (some ciphertext) birthday network file after
              (sym (ap (λ r. with_ciphertext host birthday network r file) h) ∙ e),
        )
        | inr (error, h) ↦
            absurd
              (ground (arith, sym (ap (λ r. with_ciphertext host birthday network r file) h) ∙ e))
      ]

  -- A file from which a configuration is read is there.
  IsRead-there :
      (init : Init Mnemonic) (file : KeysFile) → IsRead init file → (s : Text) × (file ≡ some s)
  unfolding read
  IsRead-there init (some s) h = (s, refl)
  IsRead-there (with_mnemonic _ _ _) none (_, _, h) = absurd (ground (arith, h))
  IsRead-there (without_mnemonic _ _) none h = absurd (ground (arith, h))

  -- After an initialisation of a wallet that reports a success, with a mnemonic or without, its
  -- network, birthday and encrypted mnemonic are what is read from the keys file, also after any
  -- further initialisations, with other mnemonics, networks and birthdays.
  pub initialise_all-IsRead :
      (init : Init Mnemonic) (later : List (Init Mnemonic)) (file after : KeysFile)
      → initialise init file ≡ (ok tt, after)
      → IsRead init (initialise_all later after)
  initialise_all-IsRead init later file after e =
      let h = initialise-IsRead init file after e in
      let (s, there) = IsRead-there init after h in
      subst (IsRead init)
        (there ∙ sym (initialise_all_keeps_file later s) ∙ ap (initialise_all later) (sym there)) h
