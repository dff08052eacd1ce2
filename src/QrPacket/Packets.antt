-- ===== src/QrPacket/Packets.antt =====
-- Which packets `ZcashPczt` of src/commands/pczt/qr.rs reads.
use zcash_devtool_sqlx.Base.{ℕ, suc, ◌≡◌, refl, ap, ◌∙◌, some, List, [], ◌∷◌, ◌++◌, ok, err}
use zcash_devtool_sqlx.QrPacket.{Cbor, encode, decode, cbor_map, entries_loop, read_entry, data_key}

append_assoc : (xs ys zs : List ℕ) → (xs ++ ys) ++ zs ≡ xs ++ (ys ++ zs)
append_assoc [] ys zs = refl
append_assoc (x ∷ xs) ys zs = ap (λ l. x ∷ l) (append_assoc xs ys zs)

module _ (w : Cbor) where
  encode-behind :
      (bytes r : List ℕ)
      → encode w bytes ++ r
        ≡ w.encode_map 1 ++ (w.encode_int data_key ++ (w.encode_bytes bytes ++ r))
  unfolding encode
  encode-behind bytes r =
      append_assoc (w.encode_map 1) (w.encode_int data_key ++ w.encode_bytes bytes) r
      ∙ ap (λ l. w.encode_map 1 ++ l)
          (append_assoc (w.encode_int data_key) (w.encode_bytes bytes) r)

  -- An encoded packet is read back, whatever follows it, in one round of the loop.
  pub decode-encode :
      (fuel : ℕ) (bytes r : List ℕ)
      → decode w (suc fuel) (encode w bytes ++ r) ≡ ok (some (bytes, r))
  unfolding decode cbor_map entries_loop read_entry
  decode-encode fuel bytes r =
      rw
        (
          encode-behind bytes r,
          w.read_map-encode 1 (w.encode_int data_key ++ (w.encode_bytes bytes ++ r)),
          w.read_int-encode data_key (w.encode_bytes bytes ++ r),
          w.read_bytes-encode bytes r,
        )
        refl

  -- A map without entries, at the end of the message, is not read: the loop asks for a key first.
  decode-empty : (fuel : ℕ) → (e : w.Error) × (decode w (suc fuel) (w.encode_map 0 ++ []) ≡ err e)
  unfolding decode cbor_map entries_loop
  decode-empty fuel = let (e, h) = w.read_int-end in (e, rw (w.read_map-encode 0 [], h) refl)
