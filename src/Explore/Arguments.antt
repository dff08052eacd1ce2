-- ===== src/Explore/Arguments.antt =====
-- The arguments of the explorer (src/commands/wallet/tree/explore.rs): a pool, and an address.
use zcash_devtool_sqlx.Base.{
  ℕ, ◌^◌, ◌==◌, ◌||◌, Option, none, some, [], ◌∷◌, Result, ok, err, if◌then◌else◌, Text, codes,
  same, parse_uint,
}
use zcash_devtool_sqlx.Protocol.{ShieldedProtocol, sapling, orchard}
use zcash_devtool_sqlx.Explore.{Addresses}

pub data ArgumentError : Type 0 where
  unknown_pool unknown_level unknown_index unknown_address : Text → ArgumentError

unfoldable pub parse_pool : Text → Result ArgumentError ShieldedProtocol
parse_pool s =
    if same s (codes "s") || same s (codes "sapling")
    then ok sapling
    else if same s (codes "o") || same s (codes "orchard")
    then ok orchard
    else err (unknown_pool s)

abbrev pub cons_front : ℕ → Option (Text × Text) → Option (Text × Text)
cons_front c none = none
cons_front c (some (front, back)) = some (c ∷ front, back)

-- The parts before and after the first separator.
abbrev pub split_once : ℕ → Text → Option (Text × Text)
split_once sep [] = none
split_once sep (c ∷ s) =
    let rest = cons_front c (split_once sep s) in if c == sep then some ([], s) else rest

module _ (addresses : Addresses) where
  open addresses use {Address, from_parts}

  abbrev pub with_index : ℕ → Text → Option ℕ → Result ArgumentError Address
  with_index level index none = err (unknown_index index)
  with_index level index (some i) = ok (from_parts level i)

  abbrev pub with_level : Text → Text → Option ℕ → Result ArgumentError Address
  with_level level index none = err (unknown_level level)
  with_level level index (some l) = with_index l index (parse_uint (2 ^ 64) index)

  abbrev pub leaf : Text → Option ℕ → Result ArgumentError Address
  leaf s none = err (unknown_address s)
  leaf s (some i) = ok (from_parts 0 i)

  abbrev pub address_parts : Text → Option (Text × Text) → Result ArgumentError Address
  address_parts s none = leaf s (parse_uint (2 ^ 64) s)
  address_parts s (some (level, index)) = with_level level index (parse_uint (2 ^ 8) level)

  unfoldable pub parse_address : Text → Result ArgumentError Address
  parse_address s = address_parts s (split_once 58 s)
