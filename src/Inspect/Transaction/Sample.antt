-- ===== src/Inspect/Transaction/Sample.antt =====
-- Stand-ins for the crates, and transactions, for the tests.
use zcash_devtool_sqlx.Base.{
  ℕ, ◌+◌, ◌==◌, Bool, true, false, Option, none, some, List, [], ◌∷◌, length, ok, err, codes, same,
  leb, ltb, if◌then◌else◌,
}
use zcash_devtool_sqlx.Base.Int.{ℤ, pos, negsuc}
use zcash_devtool_sqlx.Inspect.Context.{Formats, invalid_string_length, overflow}
use zcash_devtool_sqlx.Inspect.Transaction.{
  Kinds, Scripts, pub_key_hash, TxIn, SaplingBundle, Transaction,
}
use zcash_devtool_sqlx.Inspect.Transaction.Inputs.{Signing}
use zcash_devtool_sqlx.Inspect.Transaction.Shielded.{Shielded}

abbrev pub kinds : Kinds
kinds = record {
  Opcode = List ℕ;
  Signature = List ℕ;
  HashType = ℕ;
  PublicKey = List ℕ;
  Spend = ℕ;
  Output = ℕ;
  SaplingSig = ℕ;
  Action = ℕ;
  OrchardProof = ℕ;
  Address = ℕ;
  Sighash = ℕ;
  TxId = ℕ;
  VerificationKey = List ℕ;
  SaplingContext = ℕ;
}

-- Texts that are the bytes themselves, and amounts and accounts with their bounds.
abbrev pub formats : Formats
formats = record {
  encode = λ l. l;
  decode = λ t. ok t;
  decode_to_slice = λ t n. if length t == n then ok t else err invalid_string_length;
  account_id = λ n. if ltb n 2147483648 then ok n else err (codes "out of range");
  zatoshis = λ n. if leb n 2100000000000000 then ok n else err overflow;
}

-- A number below 100 of one push.
abbrev num_of : List ℕ → Option ℤ
num_of [] = none
num_of (n ∷ _) = some (pos n)

-- The pushes of a script are its bytes, one each but for the first, which has two.
abbrev pushes : List ℕ → Option (List (List ℕ))
pushes [] = none
pushes (a ∷ []) = some ((a ∷ []) ∷ [])
pushes (a ∷ b ∷ []) = some ((a ∷ []) ∷ (b ∷ []) ∷ [])
pushes (a ∷ b ∷ c ∷ _) = some ((a ∷ b ∷ []) ∷ (c ∷ []) ∷ [])

-- A height that fits in 32 bits.
abbrev height_of : ℤ → Option ℕ
height_of (pos n) = if ltb n 4294967296 then some n else none
height_of (negsuc n) = none

-- A first input that spends the coin of index 255 makes a coinbase transaction.
abbrev spends_nothing : List TxIn → Bool
spends_nothing [] = false
spends_nothing (input ∷ _) = input.index == 255

abbrev pub scripts : Scripts kinds
scripts = record {
  is_coinbase_bundle = λ b. spends_nothing b.vin;
  parse_sig = pushes;
  to_num = num_of;
  to_height = height_of;
  value = λ l. l;
  standard = λ l. some (pub_key_hash l);
}

abbrev sum_of : List ℕ → ℕ
sum_of [] = 0
sum_of (n ∷ l) = n + sum_of l

abbrev pub signing : Signing kinds
signing = record {
  signature_from_der = λ l. ok l;
  parse_hash_type = λ n. if n == 1 then some n else none;
  pubkey_from_slice = λ l. ok l;
  has_hash = λ key hash. same key hash;
  signature_hash = λ tx amounts script_pubkeys input. sum_of amounts;
  verify_ecdsa = λ sighash sig key. if same sig (sighash ∷ []) then ok tt else err (codes "bad");
}

abbrev pub shielded : Shielded kinds
shielded = record {
  sprout_key = λ l. ok l;
  verify_joinsplits = λ key sig sighash. ok tt;
  new_context = 0;
  check_spend = λ ctx spend sighash. some (true, ctx + spend);
  check_output = λ ctx output. some (true, ctx + output);
  final_check = λ ctx balance sighash sig. true;
  recover_sapling = λ net height output. none;
  recover_orchard = λ action. none;
  same_address = λ a b. a == b;
  nullifier = λ action. action ∷ [];
  verify_action = λ action sighash. ok tt;
  verify_proof = λ bundle. ok tt;
  iterate = λ m. m;
}

abbrev pub coinbase_with : List ℕ → Option (SaplingBundle kinds) → Transaction kinds
coinbase_with script sapling = record {
  txid = 9;
  is_v5 = true;
  expiry_height = 7;
  transparent_bundle = some (record {
    vin = record { txid = []; index = 255; script_sig = script } ∷ [];
    vout = record { value = 5; script_pubkey = 3 ∷ [] } ∷ [];
  });
  sprout_bundle = none;
  sapling_bundle = sapling;
  orchard_bundle = none;
}

-- One output.
abbrev pub one_output : SaplingBundle kinds
one_output = record {
  shielded_spends = [];
  shielded_outputs = 4 ∷ [];
  value_balance = pos 0;
  binding_sig = 0;
}
