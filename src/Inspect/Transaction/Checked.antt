-- ===== src/Inspect/Transaction/Checked.antt =====
-- When the check of an input that spends a P2PKH coin prints nothing.
use zcash_devtool_sqlx.Base.{
  ℕ, ◌≡◌, ◌↔◌, refl, sym, ap, ◌∙◌, Bool, true, false, Option, none, some, List, [], ◌∷◌, ◌++◌, Text,
  Result, ok, err, if◌then◌else◌, arith,
}
use zcash_devtool_sqlx.Inspect.Context.{TxOut}
use zcash_devtool_sqlx.Inspect.Transaction.{Kinds, Scripts, TxIn, Transaction, pub_key_hash}
use zcash_devtool_sqlx.Inspect.Transaction.Lines.{
  Line, prevout, bad_signature, bad_hash_type, bad_pubkey, pubkey_mismatch,
}
use zcash_devtool_sqlx.Inspect.Transaction.Inputs.{
  Signing, input_sighash, err_line, none_line, two_pushes, signature_parts, check_spend,
  check_pub_key_hash, check_kind, check_input,
}

nil-append {ℓ} : {A : Type ℓ} (l r : List A) → l ++ r ≡ [] → (l ≡ []) × (r ≡ [])
nil-append [] r h = (refl, h)
nil-append (x ∷ l) r h = absurd (ground (arith, h))

module _ {k : Kinds} (s : Scripts k) (g : Signing k) where
  -- The signature of an input is one by the key of the coin's hash, over the transaction.
  pub record IsSigned (tx : Transaction k) (coins : List TxOut) (i : ℕ) (coin : TxOut)
      (hash sig_bytes : List ℕ) (type_byte : ℕ) (pubkey_bytes : List ℕ) : Type 0 where
    pub sig : k.Signature
    pub hash_type : k.HashType
    pub pubkey : k.PublicKey
    pub sig_encoded : g.signature_from_der sig_bytes ≡ ok sig
    pub type_known : g.parse_hash_type type_byte ≡ some hash_type
    pub pubkey_encoded : g.pubkey_from_slice pubkey_bytes ≡ ok pubkey
    pub key_matches : g.has_hash pubkey hash ≡ true
    pub verified : g.verify_ecdsa (input_sighash g tx coins hash_type i coin) sig pubkey ≡ ok tt

  module _ (tx : Transaction k) (coins : List TxOut) (i : ℕ) (coin : TxOut)
      (hash pubkey_bytes : List ℕ) where
    err_line-nil :
        {A : Type 0} (f : Text → Line k) (r : Result Text A)
        → err_line s g f r ≡ []
        → (a : A) × (r ≡ ok a)
    err_line-nil f (ok a) h = (a, refl)
    err_line-nil f (err e) h = absurd (ground (arith, h))

    none_line-nil :
        {A : Type 0} (l : Line k) (o : Option A) → none_line s g l o ≡ [] → (a : A) × (o ≡ some a)
    none_line-nil l (some a) h = (a, refl)
    none_line-nil l none h = absurd (ground (arith, h))

    if_nil : (b : Bool) (l : Line k) → (if b then [] else l ∷ []) ≡ [] → b ≡ true
    if_nil true l h = refl
    if_nil false l h = absurd (ground (arith, h))

    spend_checked :
        (sig : k.Signature) (hash_type : k.HashType) (pubkey : k.PublicKey)
        → check_spend s g tx coins i coin hash pubkey_bytes (ok sig) (some hash_type) (ok pubkey)
          ≡ []
        → (g.has_hash pubkey hash ≡ true)
          × (g.verify_ecdsa (input_sighash g tx coins hash_type i coin) sig pubkey ≡ ok tt)
    unfolding check_spend
    spend_checked sig hash_type pubkey h =
        let (key, verify) = nil-append _ _ h in
        let (done, e) = err_line-nil _ _ verify in
        (if_nil (g.has_hash pubkey hash) (pubkey_mismatch i) key, e)

    check_parts :
        (sig_bytes : List ℕ) (type_byte : ℕ)
        → check_pub_key_hash s g tx coins i coin hash (some (sig_bytes, type_byte, pubkey_bytes))
          ≡ []
        → IsSigned tx coins i coin hash sig_bytes type_byte pubkey_bytes
    unfolding check_pub_key_hash
    check_parts sig_bytes type_byte h =
        let spend = check_spend s g tx coins i coin hash pubkey_bytes in
        let (front, last) = nil-append _ _ h in
        let (encodings, third) = nil-append _ _ front in
        let (first, second) = nil-append _ _ encodings in
        let (sig, a) = err_line-nil (bad_signature i) (g.signature_from_der sig_bytes) first in
        let (hash_type, b) = none_line-nil (bad_hash_type i) (g.parse_hash_type type_byte) second in
        let (pubkey, c) = err_line-nil (bad_pubkey i) (g.pubkey_from_slice pubkey_bytes) third in
        let (key, verify) = spend_checked sig hash_type pubkey (
          ap (λ t. spend t (some hash_type) (ok pubkey)) (sym a)
          ∙ ap (λ t. spend (g.signature_from_der sig_bytes) t (ok pubkey)) (sym b)
          ∙ ap (spend (g.signature_from_der sig_bytes) (g.parse_hash_type type_byte)) (sym c)
          ∙ last) in
        record {
          sig = sig;
          hash_type = hash_type;
          pubkey = pubkey;
          sig_encoded = a;
          type_known = b;
          pubkey_encoded = c;
          key_matches = key;
          verified = verify;
        }

    parts_checked :
        (sig_bytes : List ℕ) (type_byte : ℕ)
        → IsSigned tx coins i coin hash sig_bytes type_byte pubkey_bytes
        → check_pub_key_hash s g tx coins i coin hash (some (sig_bytes, type_byte, pubkey_bytes))
          ≡ []
    unfolding check_pub_key_hash check_spend
    parts_checked sig_bytes type_byte signed = rw signed.sig_encoded (
        rw signed.type_known
          (rw signed.pubkey_encoded (rw signed.key_matches (rw signed.verified refl))))

    -- The parts of the script of an input, if they are there, are those of a good signature.
    abbrev pub PartsSigned : Option (List ℕ × ℕ × List ℕ) → Type 0
    PartsSigned none = Unit
    PartsSigned (some (sig_bytes, type_byte, pubkey)) =
        IsSigned tx coins i coin hash sig_bytes type_byte pubkey

  parts_clean :
      (tx : Transaction k) (coins : List TxOut) (i : ℕ) (coin : TxOut) (hash : List ℕ)
      (parts : Option (List ℕ × ℕ × List ℕ))
      → (check_pub_key_hash s g tx coins i coin hash parts ≡ [])
        ↔ PartsSigned tx coins i coin hash [] parts
  parts_clean tx coins i coin hash none = (λ h. tt, λ h. unfold check_pub_key_hash in refl)
  parts_clean tx coins i coin hash (some (sig_bytes, type_byte, pubkey)) = (
    check_parts tx coins i coin hash pubkey sig_bytes type_byte,
    parts_checked tx coins i coin hash pubkey sig_bytes type_byte,
  )

  -- An input that spends a P2PKH coin is printed with no complaint exactly when its script is not
  -- two pushes of which the first is not empty, or else these are a signature with a known type
  -- and the public key of the coin's hash, and the signature is one over the transaction.
  pub check_input_clean :
      (tx : Transaction k) (coins : List TxOut) (i : ℕ) (txin : TxIn) (coin : TxOut) (hash : List ℕ)
      → s.standard coin.script_pubkey ≡ some (pub_key_hash hash)
      → (check_input s g tx coins i txin coin ≡ prevout txin ∷ [])
        ↔ PartsSigned tx coins i coin hash []
            (signature_parts (two_pushes s (s.parse_sig txin.script_sig)))
  check_input_clean tx coins i txin coin hash p2pkh =
      let parts = signature_parts (two_pushes s (s.parse_sig txin.script_sig)) in
      let (there, back) = parts_clean tx coins i coin hash parts in
      let e : check_input s g tx coins i txin coin
          ≡ prevout txin ∷ check_pub_key_hash s g tx coins i coin hash parts =
        unfold check_input check_kind in rw p2pkh refl in
      (
        λ h. there (ground (arith, sym e ∙ h)),
        λ signed. e ∙ ap (λ t. prevout txin ∷ t) (back signed),
      )
