-- ===== src/Block/Target/Checks.antt =====
-- What the checks on a block header's target and hash accept.
use zcash_devtool_sqlx.Base.{ℕ, ◌^◌, ◌≤◌, ◌<◌, ◌≡◌, ◌↔◌, ◌≢◌, true, false, some, ok, arith}
use zcash_devtool_sqlx.Protocol.{Network, main_network, test_network}
use zcash_devtool_sqlx.Block.Target.{
  Shift, pow_limit, size_of, word_of, from_compact, check_proof_of_work, guess_params,
}
use zcash_devtool_sqlx.Block.Target.Value.{value, overflows_iff, shifted_exact}

-- The number that `bits` stands for, as a floating-point number in base 256 rounded down.
abbrev pub bits_value : ℕ → ℕ
bits_value bits = value (word_of bits) (size_of bits)

-- The overflow flag is raised exactly when the number that `bits` stands for needs more than 256
-- bits, and the target is that number whenever the flag is not raised.
pub from_compact_exact :
    (s : Shift) (bits : ℕ)
    → (((from_compact s bits).did_overflow ≡ true) ↔ (2 ^ 256 ≤ bits_value bits))
      × ((from_compact s bits).did_overflow ≡ false
          → (from_compact s bits).target ≡ bits_value bits)
unfolding from_compact
from_compact_exact s bits = (
  overflows_iff (word_of bits) (size_of bits) (omega arith),
  shifted_exact s (word_of bits) (size_of bits) (omega arith),
)

limit_fits : (n : Network) → pow_limit n < 2 ^ 256
unfolding pow_limit
limit_fits main_network = omega arith
limit_fits test_network = omega arith

-- A header passes exactly when `bits` is not flagged as negative, stands for a number from 1 to
-- the network's limit, and the hash is at most that number.
pub check_proof_of_work_ok :
    (s : Shift) (bits hash : ℕ) (params : Network)
    → (check_proof_of_work s bits hash params ≡ ok tt) ↔ (
        ((from_compact s bits).is_negative ≡ false)
        × (0 < bits_value bits)
        × (bits_value bits ≤ pow_limit params)
        × (hash ≤ bits_value bits))
unfolding check_proof_of_work
check_proof_of_work_ok s bits hash params =
    ground (arith, from_compact_exact s bits, limit_fits params)

-- The testnet is guessed exactly when `bits` is not flagged as negative and stands for a number
-- above the main network's limit and at most the test network's; the main network never is.
pub guess_params_lem :
    (s : Shift) (bits : ℕ)
    → ((guess_params s bits ≡ some test_network) ↔ (
        ((from_compact s bits).is_negative ≡ false)
        × (pow_limit main_network < bits_value bits)
        × (bits_value bits ≤ pow_limit test_network)))
      × (guess_params s bits ≢ some main_network)
unfolding guess_params
guess_params_lem s bits =
    (ground (arith, from_compact_exact s bits, limit_fits test_network), ground arith)
