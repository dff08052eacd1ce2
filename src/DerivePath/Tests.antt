-- ===== src/DerivePath/Tests.antt =====
-- Runs of the derive-path command, and the theorems on paths at one path each.
use zcash_devtool_sqlx.Base.{
  ℕ, ◌^◌, ◌≡◌, ◌↔◌, refl, true, false, some, List, [], ◌∷◌, map, ok, err, arith, ltb, codes,
}
use zcash_devtool_sqlx.Protocol.{transparent, shielded, sapling, orchard}
use zcash_devtool_sqlx.DerivePath.{
  Keys, PathError, bad_index, no_prefix, parse_path, parse_pieces, parse_piece, parse_index,
  parse_pool_type, run, run_pool, run_orchard, orchard_ending, show_shielded, zip_32_notes,
  account_notes, panicked,
}
use zcash_devtool_sqlx.DerivePath.Parse.{Piece, path_text, meant, parse_path-path_text}
use zcash_devtool_sqlx.DerivePath.Shown.{Under, IsChainPath, IsAccountPath}
use zcash_devtool_sqlx.DerivePath.Derived.{
  Shows, Panics, Follows, Gives, in_range, run_transparent_iff, run_shielded_iff,
}

-- m/32'/133'/7
abbrev steps : List Piece
steps =
    record { digit = 3; digits = 2 ∷ []; hardened = true }
    ∷ record { digit = 1; digits = 3 ∷ 3 ∷ []; hardened = true }
    ∷ record { digit = 7; digits = []; hardened = false }
    ∷ []

parsed : parse_path (codes "m/32'/133'/+7") ≡ ok ((32, true) ∷ (133, true) ∷ (7, false) ∷ [])
unfolding parse_path parse_pieces parse_piece parse_index
parsed = refl

refused : parse_path (codes "m/4294967296") ≡ err bad_index
unfolding parse_path parse_pieces parse_piece parse_index
refused = refl

pool_named : parse_pool_type (codes "sapling") ≡ ok (shielded sapling)
unfolding parse_pool_type
pool_named = refl

-- A wallet whose keys are numbers.
abbrev numbers : Keys
numbers = record {
  Error = PathError;
  Seed = ℕ;
  Key = ℕ;
  Address = ℕ;
  path_error = λ e. e;
  no_seed = no_prefix;
  read_config = ok 133;
  decrypt_seed = ok (some 5);
  master_key = ok;
  derive_child = λ key index. ok index.0;
  p2pkh_address = λ key. key;
  can_harden = λ i. ltb i (2 ^ 31);
  is_account = λ i. ltb i (2 ^ 31);
  sapling_address = λ seed coin acc. acc;
  orchard_address = λ seed coin acc. some acc;
}

-- An account above the range of accounts ends the command with a panic.
account_out_of_range : run numbers (shielded orchard) (codes "m/32'/133'/2147483648'") ≡ panicked
unfolding run run_pool run_orchard orchard_ending show_shielded zip_32_notes account_notes
    parse_path parse_pieces parse_piece parse_index
account_out_of_range = refl

parse_path-path_text_example : parse_path (path_text steps) ≡ ok (map meant steps)
parse_path-path_text_example =
    parse_path-path_text (record { digit = 3; digits = 2 ∷ []; hardened = true })
      (record { digit = 1; digits = 3 ∷ 3 ∷ []; hardened = true }
        ∷ record { digit = 7; digits = []; hardened = false }
        ∷ [])
      (
        ((omega arith, (omega arith, tt)), omega arith),
        (
          ((omega arith, (omega arith, (omega arith, tt))), omega arith),
          (((omega arith, tt), omega arith), tt),
        ),
      )

run_transparent_iff_example :
    (Shows
        (run_pool numbers transparent 5 133
          ((44, true) ∷ (133, true) ∷ (0, true) ∷ (0, false) ∷ (2, false) ∷ []))
        2
      ↔ Under 44
          (IsChainPath 133)
          ((44, true) ∷ (133, true) ∷ (0, true) ∷ (0, false) ∷ (2, false) ∷ [])
        × (m : ℕ) × (key : ℕ) × (numbers.master_key 5 ≡ ok m)
        × Follows numbers m
            ((44, true) ∷ (133, true) ∷ (0, true) ∷ (0, false) ∷ (2, false) ∷ [])
            key
        × (key ≡ 2))
    × ¬ Panics (
        run_pool numbers transparent 5 133
          ((44, true) ∷ (133, true) ∷ (0, true) ∷ (0, false) ∷ (2, false) ∷ []))
run_transparent_iff_example =
    run_transparent_iff numbers 5 133
      ((44, true) ∷ (133, true) ∷ (0, true) ∷ (0, false) ∷ (2, false) ∷ []) 2

run_shielded_iff_example :
    (Shows
        (run_pool numbers
          (shielded orchard)
          5
          133
          ((32, true) ∷ (133, true) ∷ (2_147_483_648, true) ∷ []))
        4
      ↔ (acc : ℕ) × Under 32
          (IsAccountPath 133 acc)
          ((32, true) ∷ (133, true) ∷ (2_147_483_648, true) ∷ [])
        × Gives numbers orchard 5 133 acc 4)
    × (Panics (
          run_pool numbers
            (shielded orchard)
            5
            133
            ((32, true) ∷ (133, true) ∷ (2_147_483_648, true) ∷ []))
        ↔ (acc : ℕ) × Under 32
            (IsAccountPath 133 acc)
            ((32, true) ∷ (133, true) ∷ (2_147_483_648, true) ∷ [])
          × (in_range numbers orchard 133 acc ≡ false))
run_shielded_iff_example =
    run_shielded_iff numbers orchard 5 133 ((32, true) ∷ (133, true) ∷ (2_147_483_648, true) ∷ []) 4
