-- ===== src/Inspect/Context/Trips.antt =====
-- What is read back from what was written.
use mathlib.Core.List.{reverse, reverse-cons, reverse-reverse}
use zcash_devtool_sqlx.Base.{
  ℕ, ◌^◌, ◌≤◌, ◌<◌, ◌≡◌, ◌↔◌, refl, sym, ap, ◌∙◌, List, [], ◌∷◌, map, length, length-append,
  All-append, subst, ltb, lt→ltb, Bool-cases, inl, inr, ◌⊎◌, ok, err, All, arith,
}
use zcash_devtool_sqlx.Base.Int.{ℤ, pos, negsuc}
use zcash_devtool_sqlx.Inspect.Context.{
  Formats, TxOut, ReadError, account_invalid, out_of_u32, to_u32, checked_account, visit_i64,
  read_uint256, show_uint256, read_value, read_script, write_coin, read_coin, read_coins,
}

-- What the hexadecimal crate documents: what is encoded is decoded again.
pub record HexTrips (f : Formats) : Type 0 where
  pub decode_encode : (l : List ℕ) → All (λ b. b < 256) l → f.decode (f.encode l) ≡ ok l
  pub decode_to_slice_encode :
      (l : List ℕ) → All (λ b. b < 256) l → f.decode_to_slice (f.encode l) (length l) ≡ ok l

-- What the crate of amounts documents: those up to the supply of coins are valid.
pub record Amounts (f : Formats) : Type 0 where
  pub max_money : ℕ
  pub zatoshis_ok : (n : ℕ) → n ≤ max_money → f.zatoshis n ≡ ok n

-- Account indexes are those below 2 ^ 31.
pub record AccountIds (f : Formats) : Type 0 where
  pub account_ok : (n : ℕ) → n < 2 ^ 31 → f.account_id n ≡ ok n
  pub account_err : (n : ℕ) → 2 ^ 31 ≤ n → (e : List ℕ) × (f.account_id n ≡ err e)

All-reverse : (P : ℕ → Type 0) (l : List ℕ) → All P l → All P (reverse l)
All-reverse P [] a = tt
All-reverse P (x ∷ l) (a, b) =
    subst (All P) (sym (reverse-cons x l))
      (All-append P (reverse l) (x ∷ []) (All-reverse P l b) (a, tt))

length-reverse : (l : List ℕ) → length (reverse l) ≡ length l
length-reverse [] = refl
length-reverse (x ∷ l) =
    ap length (reverse-cons x l)
    ∙ length-append (reverse l) (x ∷ [])
    ∙ omega (arith, length-reverse l)

module _ (f : Formats) (h : HexTrips f) where
  -- A hash of 32 bytes that is printed is read back.
  pub read-show_uint256 :
      (hash : List ℕ)
      → length hash ≡ 32
      → All (λ b. b < 256) hash
      → read_uint256 f (show_uint256 f hash) ≡ ok hash
  unfolding read_uint256 show_uint256
  read-show_uint256 hash len bytes =
      let backwards = reverse hash in
      let same_length : 32 ≡ length backwards = sym (length-reverse hash ∙ len) in
      let decoded : f.decode_to_slice (f.encode backwards) 32 ≡ ok backwards =
        ap (f.decode_to_slice (f.encode backwards)) same_length
        ∙ h.decode_to_slice_encode backwards (All-reverse (λ b. b < 256) hash bytes) in
      rw decoded (ap ok (reverse-reverse hash))

module _ (f : Formats) (h : HexTrips f) (m : Amounts f) where
  abbrev pub IsCoin : TxOut → Type 0
  IsCoin out = (out.value ≤ m.max_money) × All (λ b. b < 256) out.script_pubkey

  read-write_coin : (out : TxOut) → IsCoin out → read_coin f (write_coin f out) ≡ ok out
  unfolding read_coin write_coin read_value read_script
  read-write_coin out (v, s) =
      rw (m.zatoshis_ok out.value v) (rw (h.decode_encode out.script_pubkey s) refl)

  -- The coins that are printed for the outputs of a transaction are read back as those outputs
  -- (given that hexadecimal texts are decoded again, that the amounts are at most the supply and
  -- that the scripts are bytes).
  pub read-write_coins :
      (outs : List TxOut) → All IsCoin outs → read_coins f (map (write_coin f) outs) ≡ ok outs
  unfolding read_coins
  read-write_coins [] a = refl
  read-write_coins (o ∷ r) (a, b) = rw (read-write_coin o a) (rw (read-write_coins r b) refl)

module _ (f : Formats) (ids : AccountIds f) where
  account_read : (n : ℕ) → n < 2 ^ 31 → visit_i64 f (pos n) ≡ ok n
  unfolding visit_i64 checked_account to_u32
  account_read n h = rw (lt→ltb n (2 ^ 32) (omega arith)) (rw (ids.account_ok n h) refl)

  account_refused : (n : ℕ) → 2 ^ 31 ≤ n → (e : ReadError) × (visit_i64 f (pos n) ≡ err e)
  unfolding visit_i64 checked_account to_u32
  account_refused n h = elim (Bool-cases (ltb n (2 ^ 32))) [
    | inl small ↦
        let (e, refused) = ids.account_err n h in (account_invalid e, rw small (rw refused refl))
    | inr large ↦ (out_of_u32 (pos n), rw large refl)
  ]

  negative_refused : (n : ℕ) → visit_i64 f (negsuc n) ≡ err (out_of_u32 (negsuc n))
  unfolding visit_i64 checked_account to_u32
  negative_refused n = refl

  account_is :
      (n a : ℕ)
      → (n < 2 ^ 31) ⊎ (2 ^ 31 ≤ n)
      → visit_i64 f (pos n) ≡ ok a
      → (pos n ≡ pos a) × (a < 2 ^ 31)
  account_is n a (inl h) e = ground (arith, account_read n h, e)
  account_is n a (inr h) e =
      let (x, refused) = account_refused n h in absurd (ground (arith, refused, e))

  -- An integer is read as the account of that index, if there is one, and otherwise refused.
  visit_i64_ok : (v : ℤ) (a : ℕ) → (visit_i64 f v ≡ ok a) ↔ ((v ≡ pos a) × (a < 2 ^ 31))
  visit_i64_ok (negsuc n) a =
      (λ e. absurd (ground (arith, negative_refused n, e)), λ (e, _). absurd (ground (arith, e)))
  visit_i64_ok (pos n) a = (
    λ e. account_is n a (ground arith) e,
    λ (e, h). subst (λ v. visit_i64 f v ≡ ok a) (sym e) (account_read a h),
  )
