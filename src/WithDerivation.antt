-- ===== src/WithDerivation.antt =====
-- The command that adds derivations to a PCZT (src/commands/pczt/update_with_derivation.rs): the
-- pool and the path that the user writes.
pub mod Outcomes
pub mod Crates
pub mod Inputs
pub mod Running
pub mod Paths
pub mod Indexed
pub mod Updated
pub mod Given
pub mod Reached
pub mod Written
mod Tests
use zcash_devtool_sqlx.Base.{
  ℕ, ◌==◌, ◌^◌, Bool, true, false, Option, none, some, List, [], ◌∷◌, Result, ok, err, ◌>>=◌,
  if◌then◌else◌, Text, codes, same, strip_prefix, unsnoc, split, parse_uint, ok_or,
}
use zcash_devtool_sqlx.Protocol.{PoolType, transparent, shielded, sapling, orchard}

pub data ArgumentError : Type 0 where
  invalid_pool no_prefix invalid_index : ArgumentError

unfoldable pub parse_pool_type : Text → Result ArgumentError PoolType
parse_pool_type s =
    if same s (codes "transparent")
    then ok transparent
    else if same s (codes "sapling")
    then ok (shielded sapling)
    else if same s (codes "orchard")
    then ok (shielded orchard)
    else err invalid_pool

-- `ChildNumber::new` of the `bip32` crate: the number of an index, hardened or not, if it has one.
module _ (child_number : ℕ → Bool → Option ℕ) where
  abbrev pub numbered : Bool → Option ℕ → Result ArgumentError ℕ
  numbered hardened none = err invalid_index
  numbered hardened (some index) = ok_or (child_number index hardened) invalid_index

  abbrev pub strip_suffix : Text → Option (Text × ℕ) → Text × Bool
  strip_suffix s none = (s, false)
  strip_suffix s (some (front, last)) = if last == 39 then (front, true) else (s, false)

  unfoldable pub parse_number : Text → Result ArgumentError ℕ
  parse_number s =
      let (index, hardened) = strip_suffix s (unsnoc s) in
      numbered hardened (parse_uint (2 ^ 32) index)

  unfoldable pub parse_numbers : List Text → Result ArgumentError (List ℕ)
  parse_numbers [] = ok []
  parse_numbers (s ∷ rest) = do
    number ← parse_number s
    more ← parse_numbers rest
    ok (number ∷ more)

  unfoldable pub parse_path : Text → Result ArgumentError (List ℕ)
  parse_path s = do
    path ← ok_or (strip_prefix (codes "m/") s) no_prefix
    parse_numbers (split 47 path)
