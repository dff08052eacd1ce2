-- ===== src/QrPacket.antt =====
-- The packet of a PCZT in QR codes (`ZcashPczt` in src/commands/pczt/qr.rs): its encoding as a CBOR
-- map, and the reader of maps.
pub mod Packets
mod Tests
use zcash_devtool_sqlx.Base.{
  ℕ, zero, suc, ◌+◌, ◌^◌, ◌≡◌, ◌==◌, Bool, true, false, Option, none, some, List, [], ◌∷◌, ◌++◌,
  Result, ok, err, ◌>>=◌, ltb, if◌then◌else◌,
}
use zcash_devtool_sqlx.Base.Int.{ℤ, pos, negsuc}

-- The encoder and the decoder of the `minicbor` crate, with what it documents: each item is read back,
-- and the decoder stands behind it.
pub record Cbor : Type 1 where
  pub Error : Type 0
  pub message : Error
  pub encode_map : ℕ → List ℕ
  pub encode_int : ℕ → List ℕ
  pub encode_bytes : List ℕ → List ℕ
  -- The number of entries, unless the map ends with a break.
  pub read_map : List ℕ → Result Error (Option ℕ × List ℕ)
  pub read_int : List ℕ → Result Error (ℤ × List ℕ)
  pub read_bytes : List ℕ → Result Error (List ℕ × List ℕ)
  pub next_is_break : List ℕ → Result Error Bool
  pub skip : List ℕ → Result Error (List ℕ)
  pub read_map-encode : (n : ℕ) (r : List ℕ) → read_map (encode_map n ++ r) ≡ ok (some n, r)
  pub read_int-encode : (n : ℕ) (r : List ℕ) → read_int (encode_int n ++ r) ≡ ok (pos n, r)
  pub read_bytes-encode : (d r : List ℕ) → read_bytes (encode_bytes d ++ r) ≡ ok (d, r)
  -- Nothing is read at the end.
  pub read_int-end : (e : Error) × (read_int [] ≡ err e)

abbrev pub data_key : ℕ
data_key = 1

-- `u8::try_from`.
abbrev pub to_u8 : ℤ → Option ℕ
to_u8 (pos n) = if ltb n (2 ^ 8) then some n else none
to_u8 (negsuc n) = none

abbrev pub is_last : Option ℕ → ℕ → Bool
is_last none index = false
is_last (some len) index = len == index

module _ (w : Cbor) where
  open w use {Error}

  unfoldable pub encode : List ℕ → List ℕ
  encode bytes = w.encode_map 1 ++ (w.encode_int data_key ++ w.encode_bytes bytes)

  abbrev pub at_key : List ℕ → Option ℕ → List ℕ → Result Error (List ℕ × List ℕ)
  at_key obj none d = err w.message
  at_key obj (some key) d = if key == data_key then w.read_bytes d else ok (obj, d)

  -- An entry: the value of a key that is not known is not read.
  unfoldable pub read_entry : ℤ → List ℕ → List ℕ → Result Error (List ℕ × List ℕ)
  read_entry key obj d = at_key obj (to_u8 key) d

  abbrev pub at_break :
      Bool
      → List ℕ
      → List ℕ
      → Result Error (Option (List ℕ × List ℕ))
      → Result Error (Option (List ℕ × List ℕ))
  at_break true obj d again = do rest ← w.skip d; ok (some (obj, rest))
  at_break false obj d again = again

  abbrev pub after_entry :
      Bool
      → List ℕ
      → List ℕ
      → Result Error (Option (List ℕ × List ℕ))
      → Result Error (Option (List ℕ × List ℕ))
  after_entry true obj d again = ok (some (obj, d))
  after_entry false obj d again = do break ← w.next_is_break d; at_break break obj d again

  -- The loop of `cbor_map`: what it has read, or none where the fuel is used up.
  unfoldable pub entries_loop :
      ℕ → Option ℕ → ℕ → List ℕ → List ℕ → Result Error (Option (List ℕ × List ℕ))
  entries_loop zero entries index obj d = ok none
  entries_loop (suc fuel) entries index obj d = do
    (key, d1) ← w.read_int d
    (obj1, d2) ← read_entry key obj d1
    after_entry (is_last entries (index + 1)) obj1 d2
        (entries_loop fuel entries (index + 1) obj1 d2)

  unfoldable pub cbor_map : ℕ → List ℕ → List ℕ → Result Error (Option (List ℕ × List ℕ))
  cbor_map fuel obj d = do (entries, rest) ← w.read_map d; entries_loop fuel entries 0 obj rest

  unfoldable pub decode : ℕ → List ℕ → Result Error (Option (List ℕ × List ℕ))
  decode fuel d = cbor_map fuel [] d
