-- ===== src/QrPacket/Tests.antt =====
-- A small code of items, for src/commands/pczt/qr.rs.
use zcash_devtool_sqlx.Base.{
  ℕ, zero, suc, ◌≡◌, refl, ap, false, some, List, [], ◌∷◌, ◌++◌, Result, ok, err, ◌>>=◌, length,
}
use zcash_devtool_sqlx.Base.Int.{pos}
use zcash_devtool_sqlx.QrPacket.{Cbor, encode, decode, cbor_map, entries_loop, read_entry}
use zcash_devtool_sqlx.QrPacket.Packets.{decode-encode}

abbrev take_bytes : ℕ → List ℕ → Result (Unit {0}) (List ℕ × List ℕ)
take_bytes zero d = ok ([], d)
take_bytes (suc n) [] = err tt
take_bytes (suc n) (x ∷ d) = take_bytes n d >>= (λ (bytes, rest). ok (x ∷ bytes, rest))

pub take_bytes-append : (d r : List ℕ) → take_bytes (length d) (d ++ r) ≡ ok (d, r)
take_bytes-append [] r = refl
take_bytes-append (x ∷ d) r =
    ap (λ (o : Result (Unit {0}) (List ℕ × List ℕ)). o >>= (λ (bytes, rest). ok (x ∷ bytes, rest)))
      (take_bytes-append d r)

abbrev head : List ℕ → Result (Unit {0}) (ℕ × List ℕ)
head [] = err tt
head (x ∷ d) = ok (x, d)

-- A map is its number of entries, an integer itself, and bytes have their length before them.
abbrev items : Cbor
items = record {
  Error = Unit;
  message = tt;
  encode_map = λ n. n ∷ [];
  encode_int = λ n. n ∷ [];
  encode_bytes = λ d. length d ∷ d;
  read_map = λ d. head d >>= (λ (n, rest). ok (some n, rest));
  read_int = λ d. head d >>= (λ (n, rest). ok (pos n, rest));
  read_bytes = λ d. head d >>= (λ (n, rest). take_bytes n rest);
  next_is_break = λ d. ok false;
  skip = λ d. ok d;
  read_map-encode = λ n r. refl;
  read_int-encode = λ n r. refl;
  read_bytes-encode = λ d r. take_bytes-append d r;
  read_int-end = (tt, refl);
}

decode-encode_example :
    decode items 1 (encode items (5 ∷ 6 ∷ []) ++ 9 ∷ []) ≡ ok (some (5 ∷ 6 ∷ [], 9 ∷ []))
decode-encode_example = decode-encode items 0 (5 ∷ 6 ∷ []) (9 ∷ [])

-- The value 7 of the unknown key 2 is taken for the next key.
unknown_key_test : decode items 3 (2 ∷ 2 ∷ 7 ∷ 1 ∷ 0 ∷ []) ≡ ok (some ([], 1 ∷ 0 ∷ []))
unfolding decode cbor_map entries_loop read_entry
unknown_key_test = refl
