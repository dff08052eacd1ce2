-- ===== src/WithDerivation/Tests.antt =====
-- A PCZT of numbers, and src/commands/pczt/update_with_derivation.rs run on it.
use zcash_devtool_sqlx.Base.{
  ℕ, ◌and_then◌, zero, suc, ◌≤◌, ◌++◌, ap, ◌∙◌, length, ◌+◌, ◌^◌, ◌≡◌, ◌↔◌, ◌==◌, refl, Bool, true,
  Option, none, some, List, [], ◌∷◌, map, ok, ltb, if◌then◌else◌, Text, codes, arith,
}
use zcash_devtool_sqlx.Protocol.{transparent, shielded, sapling, orchard}
use zcash_devtool_sqlx.DerivePath as Derive
use zcash_devtool_sqlx.DerivePath.Parse.{Piece}
use zcash_devtool_sqlx.WithDerivation.{parse_path, parse_number, parse_numbers}
use zcash_devtool_sqlx.WithDerivation.Crates.{Crates, ShieldedPool, pub_key_hash, public, main_type}
use zcash_devtool_sqlx.WithDerivation.Outcomes.{
  IndexUpdates, invalid_index, panicked, ◌>>=◌, Outcome, done, failed, nothing_matched,
}
use zcash_devtool_sqlx.WithDerivation.Inputs.{
  matching, update_all, any, uses, set_input, add_transparent, is_received, set_spend, add_spends,
}
use zcash_devtool_sqlx.WithDerivation.Indexed.{if_any}
use zcash_devtool_sqlx.WithDerivation.Running.{run, run_transparent, run_shielded}
use zcash_devtool_sqlx.WithDerivation.Updated.{with_derivation, add_transparent-changed}
use zcash_devtool_sqlx.WithDerivation.Written.{IsWritten, run-IsWritten}
use zcash_devtool_sqlx.WithDerivation.Paths.{value, numbers_of, parse_path-same}

abbrev update_at : {E A : Type 0} → ℕ → (A → Outcome E A) → List A → Outcome E (List A)
update_at i f [] = failed invalid_index
update_at zero f (x ∷ xs) = f x >>= (λ y. done (y ∷ xs))
update_at (suc i) f (x ∷ xs) = update_at i f xs >>= (λ ys. done (x ∷ ys))

after :
    {E A : Type 0} (x : A) (pre xs : List A) (o : Outcome E A)
    → ((o >>= (λ y. done (pre ++ y ∷ xs))) >>= (λ ys. done (x ∷ ys)))
      ≡ (o >>= (λ y. done (x ∷ pre ++ y ∷ xs)))
after x pre xs (done y) = refl
after x pre xs (failed e) = refl
after x pre xs panicked = refl

update_at-there :
    {E A : Type 0} (f : A → Outcome E A) (pre : List A) (x : A) (xs : List A)
    → update_at (length pre) f (pre ++ x ∷ xs) ≡ (f x >>= (λ y. done (pre ++ y ∷ xs)))
update_at-there f [] x xs = refl
update_at-there f (z ∷ pre) x xs =
    ap (λ (o : Outcome _ (List _)). o >>= (λ ys. done (z ∷ ys))) (update_at-there f pre x xs)
    ∙ after z pre xs (f x)

update_at-beyond :
    {E A : Type 0} (f : A → Outcome E A) (i : ℕ) (xs : List A)
    → length xs ≤ i
    → update_at i f xs ≡ failed invalid_index
update_at-beyond f i [] h = refl
update_at-beyond f zero (x ∷ xs) h = absurd (omega arith)
update_at-beyond f (suc i) (x ∷ xs) h =
    ap (λ (o : Outcome _ (List _)). o >>= (λ ys. done (x ∷ ys)))
      (update_at-beyond f i xs (omega arith))

abbrev by_index : {E A : Type 0} → IndexUpdates E A
by_index = record {
  update_with = update_at;
  update_with-at = update_at-there;
  update_with-beyond = update_at-beyond;
}

abbrev child_number : ℕ → Bool → Option ℕ
child_number index hardened =
    if ltb index (2 ^ 31) then some (if hardened then index + 2 ^ 31 else index) else none

-- Spends are their recipient and the path that is set; the key 7 owns the address 7.
abbrev pool : ShieldedPool (Unit {0}) (List (ℕ × List ℕ)) ℕ
pool = record {
  Spend = ℕ × List ℕ;
  Address = ℕ;
  Key = ℕ;
  Owner = Unit;
  Derivation = List ℕ × List ℕ;
  spends = λ pczt. ok pczt;
  with_spends = λ pczt spends. spends;
  recipient = λ spend. some spend.0;
  owner = λ key addr. if key == addr then some tt else none;
  spend_updates = by_index;
  set_derivation = λ (addr, _) derivation. (addr, derivation.1);
  parse_derivation = λ seed_fp path. ok (seed_fp, path);
  seed_fingerprint = λ d. d.0;
  derivation_path = λ d. d.1;
  extract_account_index = λ d seed_fp coin_type. some 0;
}

-- Inputs are a hash and the path that is set.
abbrev crates : Crates
crates = record {
  Error = Unit;
  Network = Unit;
  Pczt = List (ℕ × List ℕ);
  Seed = ℕ;
  Fingerprint = ℕ;
  child_number = child_number;
  network_type = λ _. main_type;
  coin_type = λ _. 133;
  read_config = ok tt;
  read_pczt = ok ((7, []) ∷ (8, []) ∷ (7, []) ∷ []);
  identities = ok tt;
  decrypt_seed = ok (some 5);
  from_seed = λ seed. some seed;
  to_bytes = λ seed_fp. seed_fp ∷ [];
  Input = ℕ × List ℕ;
  Script = ℕ;
  Refined = ℕ;
  Pubkey = ℕ;
  Scope = ℕ;
  inputs = λ pczt. ok pczt;
  with_inputs = λ pczt inputs. inputs;
  redeem_script = λ input. none;
  script_pubkey = λ input. input.0;
  refine = λ script. some script;
  standard = λ script. some (pub_key_hash (script ∷ []));
  serialize = λ pubkey. pubkey ∷ [];
  pubkey_hash = λ pubkey. pubkey ∷ [];
  Bip32Derivation = List ℕ × List ℕ;
  input_updates = by_index;
  set_bip32_derivation = λ (hash, _) key derivation. (hash, derivation.1);
  parse_derivation = λ seed_fp path. ok (seed_fp, path);
  seed_fingerprint = λ d. d.0;
  derivation_path = λ d. d.1;
  extract_bip_44_fields = λ d seed_fp coin_type. some (0, 0, 0);
  extract_zip_48_fields = λ d seed_fp coin_type. none;
  transparent_pubkey = λ params seed account scope index. ok 7;
  AccountPrivKey = Unit;
  Xpub = ℕ;
  Child = ℕ;
  account_priv_key = λ params seed account. ok tt;
  key_expression_for_address = λ key prefix scope index. public 7;
  derive_child = λ key child. ok key;
  public_key = λ key. key;
  sapling = pool;
  orchard = pool;
  sapling_key = λ params seed account. ok 9;
  orchard_key = λ params seed account. ok 7;
}

abbrev written_path : Text
written_path = codes "m/44'/133'/0'"

-- The two inputs of the key have the derivation; no spend is received by the key 9.
run_test :
    (run crates transparent (codes "m/1") ≡ done ((7, 1 ∷ []) ∷ (8, []) ∷ (7, 1 ∷ []) ∷ []))
    × (run crates (shielded sapling) (codes "m/1") ≡ failed nothing_matched)
    × (run crates (shielded orchard) (codes "m/1'")
        ≡ done ((7, (2 ^ 31 + 1) ∷ []) ∷ (8, []) ∷ (7, (2 ^ 31 + 1) ∷ []) ∷ []))
unfolding run run_transparent run_shielded parse_path parse_numbers parse_number add_transparent
    add_spends matching update_all set_input set_spend uses is_received
run_test = (refl, refl, refl)

abbrev two_inputs : List (ℕ × List ℕ)
two_inputs = (7, []) ∷ (8, []) ∷ []

add_transparent-changed_example :
    add_transparent crates two_inputs 8 (5 ∷ [], 1 ∷ [])
    ≡ if_any
        (any (uses crates 8) two_inputs)
        (map (with_derivation crates 8 (5 ∷ [], 1 ∷ [])) two_inputs)
add_transparent-changed_example =
    add_transparent-changed crates two_inputs 8 (5 ∷ [], 1 ∷ []) (5 ∷ [], 1 ∷ []) two_inputs refl
      refl

abbrev first_path : Text
first_path = codes "m/1"

run-IsWritten_example :
    (run crates transparent first_path ≡ done ((7, 1 ∷ []) ∷ (8, []) ∷ (7, 1 ∷ []) ∷ []))
    ↔ IsWritten crates transparent first_path ((7, 1 ∷ []) ∷ (8, []) ∷ (7, 1 ∷ []) ∷ [])
run-IsWritten_example =
    run-IsWritten crates transparent first_path ((7, 1 ∷ []) ∷ (8, []) ∷ (7, 1 ∷ []) ∷ [])

parse_path-same_example :
    value (parse_path child_number written_path)
    ≡ (value (Derive.parse_path written_path) and_then numbers_of child_number)
parse_path-same_example = parse_path-same child_number written_path

abbrev purpose : Piece
purpose = record { digit = 4; digits = 4 ∷ []; hardened = true }

purpose_numbers : numbers_of child_number ((44, true) ∷ []) ≡ some ((2 ^ 31 + 44) ∷ [])
unfolding numbers_of
purpose_numbers = refl
