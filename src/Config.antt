-- ===== src/Config.antt =====
-- The wallet's configuration file (src/config.rs) and the names of networks (src/data.rs).
pub mod Kept
mod Tests
use zcash_devtool_sqlx.Base.{
  ℕ, ◌==◌, ◌≡◌, Bool, true, false, ◌&&◌, ◌||◌, Option, none, some, List, [], ◌∷◌, ◌++◌, Result, ok,
  err, ◌>>=◌, if◌then◌else◌, Text, codes, same, leb, unsnoc,
}
use zcash_devtool_sqlx.Protocol.{Network as ConsensusNetwork, main_network, test_network}

pub data Network : Type 0 where
  test main : Network

unfoldable pub parse_network : Text → Option Network
parse_network name =
    if same name (codes "main")
    then some main
    else if same name (codes "test")
    then some test
    else none

unfoldable pub name : Network → Text
name test = codes "test"
name main = codes "main"

unfoldable pub to_consensus : Network → ConsensusNetwork
to_consensus test = test_network
to_consensus main = main_network

unfoldable pub from_consensus : ConsensusNetwork → Network
from_consensus test_network = test
from_consensus main_network = main

-- `char::is_whitespace`.
abbrev pub is_whitespace : ℕ → Bool
is_whitespace c =
    leb 9 c && leb c 13
    || c == 32
    || c == 133
    || c == 160
    || c == 5_760
    || leb 8_192 c && leb c 8_202
    || c == 8_232
    || c == 8_233
    || c == 8_239
    || c == 8_287
    || c == 12_288

abbrev pub trim_start : Text → Text
trim_start [] = []
trim_start (c ∷ s) = let rest = trim_start s in if is_whitespace c then rest else c ∷ s

-- A character before a text that is trimmed at its end.
abbrev pub before : ℕ → Text → Text
before c [] = if is_whitespace c then [] else c ∷ []
before c (d ∷ s) = c ∷ d ∷ s

abbrev pub trim_end : Text → Text
trim_end [] = []
trim_end (c ∷ s) = before c (trim_end s)

abbrev pub trim : Text → Text
trim s = trim_end (trim_start s)

pub record ConfigEncoding : Type 0 where
  pub mnemonic : Option Text
  pub network : Option Text
  pub birthday : Option ℕ

pub record WalletConfig : Type 0 where
  pub network : ConsensusNetwork
  pub seed_ciphertext : Option Text
  pub birthday : ℕ

-- The file system, the `toml` and `age` crates, and the consensus parameters.
pub record Host : Type 1 where
  pub Error : Type 0
  pub Mnemonic : Type 0
  pub Seed : Type 0
  pub already_exists : Error
  pub not_found : Error
  pub write_error : Error
  pub invalid_keys_file : Error
  pub create_dir_all : Result Error (Unit {0})
  -- A write gives an error, if there is one, and what the file has afterwards.
  pub write : Text → Option Error × Text
  pub to_string : ConfigEncoding → Option Text
  pub from_str : Text → Result Error ConfigEncoding
  pub encrypt_mnemonic : Mnemonic → Result Error Text
  pub decrypt_seed_of : Text → Result Error Seed
  pub sapling_activation : ConsensusNetwork → ℕ
  pub write_lem : (s : Text) → (write s).0 ≡ none → (write s).1 ≡ s
  pub from_str-to_string :
      (c : ConfigEncoding) (s : Text) → to_string c ≡ some s → from_str s ≡ ok c

-- What is in the keys file, if there is one.
abbrev pub KeysFile : Type 0
KeysFile = Option Text

module _ (host : Host) where
  open host use {Error, Mnemonic, Seed}

  abbrev pub encoding : Option Text → ℕ → ConsensusNetwork → ConfigEncoding
  encoding mnemonic birthday network = record {
    mnemonic = mnemonic;
    network = some (name (from_consensus network));
    birthday = some birthday;
  }

  abbrev pub written : Option Error × Text → Result Error (Unit {0}) × KeysFile
  written (none, s) = (ok tt, some s)
  written (some e, s) = (err e, some s)

  -- The file is there, and empty, before the configuration is encoded.
  abbrev pub write_config : Option Text → Result Error (Unit {0}) × KeysFile
  write_config none = (err host.write_error, some [])
  write_config (some s) = written (host.write s)

  -- A new file is made only where there is none.
  abbrev pub create_keys : ConfigEncoding → KeysFile → Result Error (Unit {0}) × KeysFile
  create_keys config (some s) = (err host.already_exists, some s)
  create_keys config none = write_config (host.to_string config)

  abbrev pub in_dir :
      ConfigEncoding → Result Error (Unit {0}) → KeysFile → Result Error (Unit {0}) × KeysFile
  in_dir config (err e) file = (err e, file)
  in_dir config (ok _) file = create_keys config file

  unfoldable pub init_wallet_config :
      Option Text → ℕ → ConsensusNetwork → KeysFile → Result Error (Unit {0}) × KeysFile
  init_wallet_config mnemonic birthday network file =
      in_dir (encoding mnemonic birthday network) host.create_dir_all file

  abbrev pub with_ciphertext :
      ℕ → ConsensusNetwork → Result Error Text → KeysFile → Result Error (Unit {0}) × KeysFile
  with_ciphertext birthday network (err e) file = (err e, file)
  with_ciphertext birthday network (ok ciphertext) file =
      init_wallet_config (some ciphertext) birthday network file

  unfoldable pub init_with_mnemonic :
      Mnemonic → ℕ → ConsensusNetwork → KeysFile → Result Error (Unit {0}) × KeysFile
  init_with_mnemonic mnemonic birthday network file =
      with_ciphertext birthday network (host.encrypt_mnemonic mnemonic) file

  unfoldable pub init_without_mnemonic :
      ℕ → ConsensusNetwork → KeysFile → Result Error (Unit {0}) × KeysFile
  init_without_mnemonic birthday network file = init_wallet_config none birthday network file

  abbrev pub known_network : Option Network → Result Error ConsensusNetwork
  known_network none = err host.invalid_keys_file
  known_network (some network) = ok (to_consensus network)

  -- No network is the test network.
  unfoldable pub read_network : Option Text → Result Error ConsensusNetwork
  read_network none = ok test_network
  read_network (some network_name) = known_network (parse_network (trim network_name))

  unfoldable pub read_birthday : Option ℕ → ConsensusNetwork → ℕ
  read_birthday none network = host.sapling_activation network
  read_birthday (some birthday) network = birthday

  unfoldable pub read_config : ConfigEncoding → Result Error WalletConfig
  read_config config = do
    network ← read_network config.network
    ok (record {
      network = network;
      seed_ciphertext = config.mnemonic;
      birthday = read_birthday config.birthday network;
    })

  unfoldable pub read : KeysFile → Result Error WalletConfig
  read none = err host.not_found
  read (some conf_str) = do config ← host.from_str conf_str; read_config config

  abbrev pub transpose : Option Text → Result Error (Option Seed)
  transpose none = ok none
  transpose (some ciphertext) = do seed ← host.decrypt_seed_of ciphertext; ok (some seed)

  unfoldable pub decrypt_seed : WalletConfig → Result Error (Option Seed)
  decrypt_seed config = transpose config.seed_ciphertext

  unfoldable pub get_wallet_network : KeysFile → Result Error ConsensusNetwork
  get_wallet_network file = do config ← read file; ok config.network

  unfoldable pub get_wallet_seed : KeysFile → Result Error (Option Seed)
  get_wallet_seed file = do config ← read file; decrypt_seed config
