-- ===== src/DerivePath.antt =====
-- The derive-path command (src/commands/wallet/derive_path.rs): the path that the user writes, what
-- the command says about it, and which address it shows.
pub mod Parse
pub mod Shown
pub mod Derived
mod Tests
use zcash_devtool_sqlx.Base.{
  ℕ, ◌==◌, ◌^◌, Bool, true, false, not, Option, none, some, List, [], ◌∷◌, ◌++◌, Result, ok, err,
  ◌>>=◌, ◌&&◌, if◌then◌else◌, Text, codes, same, strip_prefix, unsnoc, split, parse_uint,
}
use zcash_devtool_sqlx.Protocol.{
  PoolType, transparent, shielded, ShieldedProtocol, sapling, orchard,
}

pub data PathError : Type 0 where
  no_prefix bad_index bad_pool : PathError

unfoldable pub parse_pool_type : Text → Result PathError PoolType
parse_pool_type s =
    if same s (codes "transparent")
    then ok transparent
    else if same s (codes "sapling")
    then ok (shielded sapling)
    else if same s (codes "orchard")
    then ok (shielded orchard)
    else err bad_pool

unfoldable pub parse_index : Text → Bool → Result PathError (ℕ × Bool)
parse_index s hardened = elim (parse_uint (2 ^ 32) s) [
  | none ↦ err bad_index
  | some index ↦ ok (index, hardened)
]

-- A text and its last character.
abbrev pub parse_split : Text → Option (Text × ℕ) → Result PathError (ℕ × Bool)
parse_split s none = parse_index s false
parse_split s (some (front, last)) =
    if last == 39 then parse_index front true else parse_index s false

-- One piece of a path: a quote at its end makes it hardened.
unfoldable pub parse_piece : Text → Result PathError (ℕ × Bool)
parse_piece s = parse_split s (unsnoc s)

unfoldable pub parse_pieces : List Text → Result PathError (List (ℕ × Bool))
parse_pieces [] = ok []
parse_pieces (s ∷ rest) = do index ← parse_piece s; more ← parse_pieces rest; ok (index ∷ more)

unfoldable pub parse_path : Text → Result PathError (List (ℕ × Bool))
parse_path s = elim (strip_prefix (codes "m/") s) [
  | none ↦ err no_prefix
  | some rest ↦ parse_pieces (split 47 rest)
]

-- What the command prints about a path, by the lines of the source.
pub data Note : Type 0 where
  bip_44 zip_32 not_bip_44 not_zip_32 missing_coin_type missing_account : Note
  coin_type_not_hardened account_not_hardened : Note
  wrong_coin_type : ℕ → ℕ → Note
  account : ℕ → Note
  external_chain internal_chain ephemeral_chain unknown_kind kind_hardened : Note
  address_index : ℕ → Note
  address_index_hardened : Note

abbrev pub note_if : Bool → Note → List Note
note_if b n = if b then n ∷ [] else []

-- The notes on the coin type and the account, which the pools share.
unfoldable pub account_notes : ℕ → ℕ × Bool → ℕ × Bool → List Note
account_notes coin (coin_type, coin_type_hardened) (acc, account_hardened) =
    note_if (not coin_type_hardened) coin_type_not_hardened
    ++ note_if (not (coin_type == coin)) (wrong_coin_type coin_type coin)
    ++ account acc ∷ note_if (not account_hardened) account_not_hardened

unfoldable pub kind_note : ℕ → Note
kind_note kind =
    if kind == 0
    then external_chain
    else if kind == 1
    then internal_chain
    else if kind == 2
    then ephemeral_chain
    else unknown_kind

-- The notes on the chain and the address index; whether there are just these two.
unfoldable pub chain_notes : List (ℕ × Bool) → Option (List Note)
chain_notes ((kind, kind_is_hardened) ∷ (index, index_is_hardened) ∷ []) = some (
    kind_note kind ∷ note_if kind_is_hardened kind_hardened
    ++ address_index index ∷ note_if index_is_hardened address_index_hardened)
chain_notes _ = none

abbrev pub ending : List Note → Bool → Option (List Note) → List Note × Bool
ending notes network_match none = (notes, false)
ending notes network_match (some more) = (notes ++ more, network_match)

-- After the purpose 44': the notes, and whether to show the address.
unfoldable pub bip_44_notes : ℕ → List (ℕ × Bool) → List Note × Bool
bip_44_notes coin [] = (missing_coin_type ∷ [], false)
bip_44_notes coin (_ ∷ []) = (missing_account ∷ [], false)
bip_44_notes coin (coin_type ∷ acc ∷ subpath) =
    ending (account_notes coin coin_type acc) (coin_type.0 == coin) (chain_notes subpath)

-- The paths of the transparent pool.
unfoldable pub show_transparent : ℕ → List (ℕ × Bool) → List Note × Bool
show_transparent coin [] = (not_bip_44 ∷ [], false)
show_transparent coin ((purpose, false) ∷ subpath) = (not_bip_44 ∷ [], false)
show_transparent coin ((purpose, true) ∷ subpath) =
    let (notes, show) = bip_44_notes coin subpath in
    if purpose == 44 then (bip_44 ∷ notes, show) else (not_bip_44 ∷ [], false)

-- The account of the address to show, if any.
abbrev pub account_address : Bool → ℕ × Bool → List (ℕ × Bool) → Option ℕ
account_address network_match acc [] = if network_match then some acc.0 else none
account_address network_match acc (_ ∷ _) = none

-- After the purpose 32': the notes, and the account whose address is to be derived.
unfoldable pub zip_32_notes : ℕ → List (ℕ × Bool) → List Note × Option ℕ
zip_32_notes coin [] = (missing_coin_type ∷ [], none)
zip_32_notes coin (_ ∷ []) = (missing_account ∷ [], none)
zip_32_notes coin (coin_type ∷ acc ∷ subpath) =
    (account_notes coin coin_type acc, account_address (coin_type.0 == coin) acc subpath)

-- The paths of the Sapling and Orchard pools.
unfoldable pub show_shielded : ℕ → List (ℕ × Bool) → List Note × Option ℕ
show_shielded coin [] = (not_zip_32 ∷ [], none)
show_shielded coin ((purpose, false) ∷ subpath) = (not_zip_32 ∷ [], none)
show_shielded coin ((purpose, true) ∷ subpath) =
    let (notes, found) = zip_32_notes coin subpath in
    if purpose == 32 then (zip_32 ∷ notes, found) else (not_zip_32 ∷ [], none)

-- The crates that derive keys and read the wallet's configuration.
pub record Keys : Type 1 where
  pub Error : Type 0
  pub Seed : Type 0
  pub Key : Type 0
  pub Address : Type 0
  -- An error in the path.
  pub path_error : PathError → Error
  -- "Seed must be present"
  pub no_seed : Error
  pub read_config : Result Error ℕ
  pub decrypt_seed : Result Error (Option Seed)
  pub master_key : Seed → Result Error Key
  pub derive_child : Key → ℕ × Bool → Result Error Key
  pub p2pkh_address : Key → Address
  -- Whether an index can be hardened, and whether it is an account.
  pub can_harden : ℕ → Bool
  pub is_account : ℕ → Bool
  pub sapling_address : Seed → ℕ → ℕ → Address
  pub orchard_address : Seed → ℕ → ℕ → Option Address

-- How the command ends: with the notes and the address it shows, an error, or a panic.
pub data Ending (E A : Type 0) : Type 0 where
  printed : List Note → Option A → Ending E A
  failed : E → Ending E A
  panicked : Ending E A

module _ (k : Keys) where
  open k use {Error, Seed, Key, Address}

  unfoldable pub derive_path : Key → List (ℕ × Bool) → Result Error Key
  derive_path key [] = ok key
  derive_path key (index ∷ rest) = do child ← k.derive_child key index; derive_path child rest

  abbrev pub show_key : List Note × Bool → Result Error Key → Ending Error Address
  show_key shown (err e) = failed e
  show_key (notes, show) (ok key) =
      printed notes (if show then some (k.p2pkh_address key) else none)

  unfoldable pub run_transparent : Seed → ℕ → List (ℕ × Bool) → Ending Error Address
  run_transparent seed coin path =
      show_key (show_transparent coin path) (do key ← k.master_key seed; derive_path key path)

  -- The crate refuses to harden a child index that is too large.
  unfoldable pub sapling_ending : Seed → ℕ → List Note × Option ℕ → Ending Error Address
  sapling_ending seed coin (notes, none) = printed notes none
  sapling_ending seed coin (notes, some acc) =
      if k.can_harden coin && k.can_harden acc
      then printed notes (some (k.sapling_address seed coin acc))
      else panicked

  unfoldable pub run_sapling : Seed → ℕ → List (ℕ × Bool) → Ending Error Address
  run_sapling seed coin path = sapling_ending seed coin (show_shielded coin path)

  -- The account is expected to be in range.
  unfoldable pub orchard_ending : Seed → ℕ → List Note × Option ℕ → Ending Error Address
  orchard_ending seed coin (notes, none) = printed notes none
  orchard_ending seed coin (notes, some acc) =
      if k.is_account acc then printed notes (k.orchard_address seed coin acc) else panicked

  unfoldable pub run_orchard : Seed → ℕ → List (ℕ × Bool) → Ending Error Address
  run_orchard seed coin path = orchard_ending seed coin (show_shielded coin path)

  unfoldable pub run_pool : PoolType → Seed → ℕ → List (ℕ × Bool) → Ending Error Address
  run_pool transparent = run_transparent
  run_pool (shielded sapling) = run_sapling
  run_pool (shielded orchard) = run_orchard

  abbrev pub with_seed :
      PoolType → List (ℕ × Bool) → ℕ → Result Error (Option Seed) → Ending Error Address
  with_seed pool path coin (err e) = failed e
  with_seed pool path coin (ok none) = failed k.no_seed
  with_seed pool path coin (ok (some seed)) = run_pool pool seed coin path

  abbrev pub with_config : PoolType → List (ℕ × Bool) → Result Error ℕ → Ending Error Address
  with_config pool path (err e) = failed e
  with_config pool path (ok coin) = with_seed pool path coin k.decrypt_seed

  -- The configuration gives the network's coin type.
  unfoldable pub run : PoolType → Text → Ending Error Address
  run pool text = elim (parse_path text) [
    | err e ↦ failed (k.path_error e)
    | ok path ↦ with_config pool path k.read_config
  ]
