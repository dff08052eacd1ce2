-- ===== src/Block/Target.antt =====
-- The proof-of-work target of src/commands/inspect/block.rs: the compact encoding of `nBits`,
-- the limits of the two networks, and the checks on a header's hash.
mod Value
pub mod Checks
use zcash_devtool_sqlx.Base.{
  ℕ, ◌-◌, ◌*◌, ◌/◌, ◌^◌, ◌%◌, ◌≡◌, Bool, not, ◌&&◌, ◌||◌, Option, none, some, ltb, leb, ◌==◌,
  if◌then◌else◌, Result, ok, err,
}
use zcash_devtool_sqlx.Protocol.{Network, main_network, test_network}

-- The `<<` of the 256-bit integer type that the `uint` crate generates: bits that are shifted
-- out are dropped.
pub record Shift : Type 0 where
  pub shl : ℕ → ℕ → ℕ
  pub shl_lem : (x n : ℕ) → shl x n ≡ x * 2 ^ n % 2 ^ 256

-- `pow_limit`
unfoldable pub pow_limit : Network → ℕ
pow_limit main_network = 0x0007ffffffffffffffffffffffffffffffffffffffffffffffffffffffffffff
pow_limit test_network = 0x07ffffffffffffffffffffffffffffffffffffffffffffffffffffffffffffff

-- What `U256::from_compact` returns.
pub record Compact : Type 0 where
  pub target : ℕ
  pub is_negative : Bool
  pub did_overflow : Bool

-- `compact >> 24`
abbrev pub size_of : ℕ → ℕ
size_of compact = compact / 2 ^ 24

-- `compact & 0x007fffff`
abbrev pub word_of : ℕ → ℕ
word_of compact = compact % 2 ^ 23

-- `(compact & 0x00800000) != 0`
abbrev pub sign_bit : ℕ → Bool
sign_bit compact = compact / 2 ^ 23 % 2 == 1

unfoldable pub overflows : ℕ → ℕ → Bool
overflows word size =
    not (word == 0)
    && (ltb 34 size || ltb 0xff word && ltb 33 size || ltb 0xffff word && ltb 32 size)

unfoldable pub shifted : Shift → ℕ → ℕ → ℕ
shifted s word size =
    if leb size 3 then word / 2 ^ (8 * (3 - size)) else s.shl word (8 * (size - 3))

unfoldable pub from_compact : Shift → ℕ → Compact
from_compact s compact = record {
  target = shifted s (word_of compact) (size_of compact);
  is_negative = not (word_of compact == 0) && sign_bit compact;
  did_overflow = overflows (word_of compact) (size_of compact);
}

-- The errors of `check_proof_of_work`.
pub data PowError : Type 0 where
  bits_negative target_zero bits_overflowed target_above_limit hash_above_target : PowError

-- The header's hash is given as the number that its bytes stand for.
unfoldable pub check_proof_of_work : Shift → ℕ → ℕ → Network → Result PowError (Unit {0})
check_proof_of_work s bits hash params =
    let c = from_compact s bits in
    if c.is_negative
    then err bits_negative
    else if c.target == 0
    then err target_zero
    else if c.did_overflow
    then err bits_overflowed
    else if ltb (pow_limit params) c.target
    then err target_above_limit
    else if ltb c.target hash
    then err hash_above_target
    else ok tt

unfoldable pub guess_params : Shift → ℕ → Option Network
guess_params s bits =
    let c = from_compact s bits in
    if not (c.is_negative || c.did_overflow)
      && ltb (pow_limit main_network) c.target
      && leb c.target (pow_limit test_network)
    then some test_network
    else none
