-- ===== src/Config/Tests.antt =====
-- A configuration format as numbers, and the theorems on the keys file with it.
use zcash_devtool_sqlx.Base.{
  ℕ, zero, suc, ◌≡◌, refl, sym, ap, ◌∙◌, Option, none, some, [], ◌∷◌, ok, Text, codes,
}
use zcash_devtool_sqlx.Protocol.{main_network, test_network}
use zcash_devtool_sqlx.Config.{
  Host, KeysFile, ConfigEncoding, trim, init_wallet_config, init_with_mnemonic, read, parse_network,
  name, from_consensus, main,
}
use zcash_devtool_sqlx.Config.Kept.{
  with_mnemonic, without_mnemonic, initialise, initialise_all, read-init_wallet_config,
  initialise_all-IsRead,
}

-- A text ends in 0.
abbrev put : Text → Text → Text
put [] rest = 0 ∷ rest
put (c ∷ s) rest = suc c ∷ put s rest

abbrev get : Text → Text × Text
get [] = ([], [])
get (zero ∷ rest) = ([], rest)
get (suc c ∷ s) = let (front, rest) = get s in (c ∷ front, rest)

get-put : (s rest : Text) → get (put s rest) ≡ (s, rest)
get-put [] rest = refl
get-put (c ∷ s) rest = ap (λ p. (c ∷ p.0, p.1)) (get-put s rest)

abbrev put_option : Option Text → Text → Text
put_option none rest = 0 ∷ rest
put_option (some s) rest = 1 ∷ put s rest

abbrev get_option : Text → Option Text × Text
get_option [] = (none, [])
get_option (zero ∷ rest) = (none, rest)
get_option (suc _ ∷ s) = let (front, rest) = get s in (some front, rest)

get-put_option : (o : Option Text) (rest : Text) → get_option (put_option o rest) ≡ (o, rest)
get-put_option none rest = refl
get-put_option (some s) rest = ap (λ p. (some p.0, p.1)) (get-put s rest)

abbrev put_number : Option ℕ → Text
put_number none = []
put_number (some n) = n ∷ []

abbrev get_number : Text → Option ℕ
get_number [] = none
get_number (n ∷ _) = some n

get-put_number : (o : Option ℕ) → get_number (put_number o) ≡ o
get-put_number none = refl
get-put_number (some n) = refl

abbrev encode : ConfigEncoding → Text
encode c = put_option c.mnemonic (put_option c.network (put_number c.birthday))

abbrev network_part : Option Text → Option Text × Text → ConfigEncoding
network_part mnemonic (network, rest) = record {
  mnemonic = mnemonic;
  network = network;
  birthday = get_number rest;
}

abbrev mnemonic_part : Option Text × Text → ConfigEncoding
mnemonic_part (mnemonic, rest) = network_part mnemonic (get_option rest)

decode-encode : (c : ConfigEncoding) → mnemonic_part (get_option (encode c)) ≡ c
decode-encode c =
    ap mnemonic_part (get-put_option c.mnemonic _)
    ∙ ap (network_part c.mnemonic) (get-put_option c.network _)
    ∙ ap (λ b. record { mnemonic = c.mnemonic; network = c.network; birthday = b })
        (get-put_number c.birthday)

abbrev or_empty : Option Text → Text
or_empty none = []
or_empty (some s) = s

abbrev host : Host
host = record {
  Error = ℕ;
  Mnemonic = Text;
  Seed = Text;
  already_exists = 1;
  not_found = 2;
  write_error = 3;
  invalid_keys_file = 4;
  create_dir_all = ok tt;
  write = λ s. (none, s);
  to_string = λ c. some (encode c);
  from_str = λ s. ok (mnemonic_part (get_option s));
  encrypt_mnemonic = ok;
  decrypt_seed_of = ok;
  sapling_activation = λ _. 280_000;
  write_lem = λ s h. refl;
  from_str-to_string = λ c s h.
      ap (λ o. ok (mnemonic_part (get_option (or_empty o)))) (sym h) ∙ ap ok (decode-encode c);
}

trimmed : parse_network (trim (codes " main\n")) ≡ some main
unfolding parse_network
trimmed = refl

abbrev saved : KeysFile
saved = some (
    encode
      (record { mnemonic = some (codes "age"); network = some (codes "main"); birthday = some 7 }))

saved_lem : init_wallet_config host (some (codes "age")) 7 main_network none ≡ (ok tt, saved)
unfolding init_wallet_config name from_consensus
saved_lem = refl

read-init_wallet_config_example :
    read host saved
    ≡ ok (record { network = main_network; seed_ciphertext = some (codes "age"); birthday = 7 })
read-init_wallet_config_example =
    read-init_wallet_config host (some (codes "age")) 7 main_network none saved saved_lem

-- A wallet of the main network, and later one of the test network.
first_saved : initialise host (with_mnemonic (codes "age") 7 main_network) none ≡ (ok tt, saved)
unfolding init_with_mnemonic init_wallet_config name from_consensus
first_saved = refl

initialise_all-IsRead_example :
    (ciphertext : Text) × (host.encrypt_mnemonic (codes "age") ≡ ok ciphertext)
    × (read host (
          initialise_all host
            (without_mnemonic 5 test_network ∷ with_mnemonic (codes "old") 9 test_network ∷ [])
            saved)
        ≡ ok (record { network = main_network; seed_ciphertext = some ciphertext; birthday = 7 }))
initialise_all-IsRead_example =
    initialise_all-IsRead host (with_mnemonic (codes "age") 7 main_network)
      (without_mnemonic 5 test_network ∷ with_mnemonic (codes "old") 9 test_network ∷ []) none saved
      first_saved
