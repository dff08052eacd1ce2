-- ===== src/Block/Tests.antt =====
-- Runs of the block checks, and the theorems at inputs that meet their hypotheses.
use zcash_devtool_sqlx.Base.{
  ℕ, ◌+◌, ◌*◌, ◌^◌, ◌%◌, ◌≤◌, ◌<◌, ◌≡◌, ◌≢◌, ◌↔◌, refl, Bool, true, false, some, [], ◌∷◌, ok, err,
  ◌==◌,
}
use zcash_devtool_sqlx.Protocol.{main_network, test_network}
use zcash_devtool_sqlx.Block.Target.{
  Shift, pow_limit, from_compact, overflows, shifted, check_proof_of_work, guess_params,
  hash_above_target,
}
use zcash_devtool_sqlx.Block.Target.Checks.{
  bits_value, from_compact_exact, check_proof_of_work_ok, guess_params_lem,
}
use zcash_devtool_sqlx.Block.Merkle.{
  Hasher, build_merkle_root, build_rows, merge_row, partner, marks,
}
use zcash_devtool_sqlx.Block.Merkle.Rows.{IsMerkle}
use zcash_devtool_sqlx.Block.Merkle.Refine.{build_merkle_root-IsMerkle}
use zcash_devtool_sqlx.Block.Merkle.Malleable.{repeated_last_flagged}
use zcash_devtool_sqlx.Base.{◌-◌, List, none, replicate, leb, arith}
use zcash_devtool_sqlx.Base.Int.{pos}
use zcash_devtool_sqlx.Inspect.Transaction.{
  is_coinbase, extract_height_from_coinbase, height_of_input, first_num, height_of_num,
}
use zcash_devtool_sqlx.Inspect.Transaction.Sample.{kinds, scripts, coinbase_with}
use zcash_devtool_sqlx.Block.AuthRoot.{
  build_auth_data_root, next_pow2, shift_one, leading_zeros, bit_and, resize, node_count,
  hash_layers, hash_layer,
}
use zcash_devtool_sqlx.Block.AuthRoot.Perfect.{perfect_root, take, drop}
use zcash_devtool_sqlx.Block.AuthRoot.Refine.{build_auth_data_root_lem}
use zcash_devtool_sqlx.Block.Report.{
  derive_block_commitments_hash, Chain, Block, Line, block_hash, block_version, high_hash,
  transaction_count, block_height, inspect, network_of, inspect_header_inner, is_low_version,
  network_checks, coinbase_lines, extract_height, height_lines, extra_coinbases, merkle_lines,
  block_height_of, contextual_lines, upgrade_lines, nu5_commitments, commitment_lines, expiry_lines,
}
use zcash_devtool_sqlx.Block.Report.Clean.{HasNoWarning}
use zcash_devtool_sqlx.Block.Report.Rules.{KeepsRules}
use zcash_devtool_sqlx.Block.Report.Verdict.{inspect-KeepsRules}

abbrev wide : Shift
wide = record { shl = λ x n. x * 2 ^ n % 2 ^ 256; shl_lem = λ x n. refl }

-- The bits of the main network's limit.
abbrev easiest : ℕ
easiest = 0x1f07ffff

easiest_target :
    (from_compact wide easiest).target
    ≡ 0x0007ffff00000000000000000000000000000000000000000000000000000000
unfolding from_compact shifted
easiest_target = refl

too_large : (from_compact wide 0x23000001).did_overflow ≡ true
unfolding from_compact overflows
too_large = refl

hash_too_large : check_proof_of_work wide easiest (2 ^ 252) main_network ≡ err hash_above_target
unfolding check_proof_of_work from_compact overflows shifted pow_limit
hash_too_large = refl

from_compact_exact_example :
    (((from_compact wide easiest).did_overflow ≡ true) ↔ (2 ^ 256 ≤ bits_value easiest))
    × ((from_compact wide easiest).did_overflow ≡ false
        → (from_compact wide easiest).target ≡ bits_value easiest)
from_compact_exact_example = from_compact_exact wide easiest

check_proof_of_work_ok_example : (check_proof_of_work wide easiest 7 main_network ≡ ok tt) ↔ (
    ((from_compact wide easiest).is_negative ≡ false)
    × (0 < bits_value easiest)
    × (bits_value easiest ≤ pow_limit main_network)
    × (7 ≤ bits_value easiest))
check_proof_of_work_ok_example = check_proof_of_work_ok wide easiest 7 main_network

guess_params_example :
    ((guess_params wide 0x2007ffff ≡ some test_network) ↔ (
      ((from_compact wide 0x2007ffff).is_negative ≡ false)
      × (pow_limit main_network < bits_value 0x2007ffff)
      × (bits_value 0x2007ffff ≤ pow_limit test_network)))
    × (guess_params wide 0x2007ffff ≢ some main_network)
guess_params_example = guess_params_lem wide 0x2007ffff

-- A stand-in for the hash, under which different trees have different roots.
abbrev toy : Hasher
toy = record {
  Hash = ℕ;
  zero_hash = 0;
  hash_pair = λ a b. a * 100 + b + 1;
  hash_eq = λ a b. a == b;
}

three_leaves : build_merkle_root toy (1 ∷ 2 ∷ 3 ∷ []) ≡ some (10605, false)
unfolding build_merkle_root build_rows merge_row partner marks
three_leaves = refl

build_merkle_root_example :
    (h : ℕ) × (m : Bool) × (build_merkle_root toy (1 ∷ 2 ∷ 3 ∷ []) ≡ some (h, m))
    × IsMerkle toy (1 ∷ 2 ∷ 3 ∷ []) h m
build_merkle_root_example = build_merkle_root-IsMerkle toy 1 (2 ∷ 3 ∷ [])

repeated_last_example :
    (h : ℕ) × (m : Bool) × (build_merkle_root toy (1 ∷ 2 ∷ 3 ∷ []) ≡ some (h, m))
    × (build_merkle_root toy (1 ∷ 2 ∷ 3 ∷ 3 ∷ []) ≡ some (h, true))
repeated_last_example = repeated_last_flagged toy 0 1 2 [] 3 refl refl

-- Five leaves, padded to eight.
five_leaves :
    build_auth_data_root toy (1 ∷ 2 ∷ 3 ∷ 4 ∷ 5 ∷ [])
    ≡ some (perfect_root toy 3 (1 ∷ 2 ∷ 3 ∷ 4 ∷ 5 ∷ 0 ∷ 0 ∷ 0 ∷ []))
unfolding build_auth_data_root next_pow2 shift_one leading_zeros bit_and resize node_count
    hash_layers hash_layer perfect_root take drop
five_leaves = refl

build_auth_data_root_example :
    (k : ℕ) × (3 ≤ 2 ^ k)
    × ((m : ℕ) → 3 ≤ 2 ^ m → k ≤ m)
    × (build_auth_data_root toy (1 ∷ 2 ∷ 3 ∷ [])
        ≡ some (perfect_root toy k (1 ∷ 2 ∷ 3 ∷ replicate (2 ^ k - 3) 0)))
build_auth_data_root_example = build_auth_data_root_lem toy (1 ∷ 2 ∷ 3 ∷ []) (omega arith)

abbrev chain : Chain kinds
chain = record {
  sha = toy;
  hash_auth = λ a b. a * 100 + b + 2;
  hash_commitment = λ a b c. a + b + c;
  txid_of = λ tx. tx.txid;
  auth_commitment = λ tx. tx.txid + 1;
  shift = wide;
  is_nu_active = λ params upgrade height. leb 5 height;
  activation_height = λ params upgrade. some 5;
}

-- A block of one coinbase transaction at height 7, whose proof of work is too weak.
abbrev weak_block : Block chain
weak_block = record {
  header = record {
    hash = 2 ^ 252;
    version = pos 4;
    bits = easiest;
    merkle_root = 9;
    final_sapling_root = 12;
    check_equihash_solution = λ params. ok tt;
  };
  txs = coinbase_with (7 ∷ []) none ∷ [];
}

weak_block_report :
    inspect scripts chain weak_block (some main_network) (some 2)
    ≡ some (
        block_hash (2 ^ 252)
        ∷ block_version (pos 4)
        ∷ high_hash hash_above_target
        ∷ transaction_count 1
        ∷ block_height 7
        ∷ [])
unfolding inspect network_of guess_params from_compact shifted overflows pow_limit
    inspect_header_inner is_low_version network_checks check_proof_of_work coinbase_lines
    extract_height extract_height_from_coinbase height_of_input first_num height_of_num height_lines
    is_coinbase extra_coinbases merkle_lines build_merkle_root build_rows block_height_of
    contextual_lines upgrade_lines nu5_commitments commitment_lines derive_block_commitments_hash
    expiry_lines build_auth_data_root next_pow2 shift_one leading_zeros bit_and resize node_count
    hash_layers
weak_block_report = refl

inspect-KeepsRules_example :
    (lines : List (Line ℕ)) × (inspect scripts chain weak_block (some main_network) (some 2)
      ≡ some lines)
    × (HasNoWarning lines ↔ KeepsRules scripts chain weak_block (some main_network) (some 2))
inspect-KeepsRules_example =
    inspect-KeepsRules scripts chain weak_block (some main_network) (some 2) (omega arith)
