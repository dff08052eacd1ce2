-- ===== src/Enhance/Handled.antt =====
-- What src/commands/wallet/enhance.rs has done for a request.
use zcash_devtool_sqlx.Base.{
  ℕ, ◌≡◌, ◌⊎◌, inl, inr, refl, Option, none, some, List, [], ◌∷◌, All, Result, ok, err,
}
use zcash_devtool_sqlx.Base.Effects.Ends.{
  Ends, EndsAt, Ends-pure, Ends-lift, Ends-ask, Ends-call, Ends-emit, Ends-bind,
}
use zcash_devtool_sqlx.Enhance.{
  Request, get_status, enhancement, transactions_involving_address, Effect, status_set, stored,
  Services, Step, History, RawTransaction, satisfy, filter_of, status_of, txid_not_recognized,
  found_or_none, parse_found, parse_raw_transaction, store_stream, enhance_found, fetch_transaction,
}

module _ (w : Services) where
  open w use {TxId, Tia, Tx, Error}

  -- An effect took place.
  abbrev pub Happened : Effect TxId Tia Tx → History w → Type 0
  Happened v [] = ⊥
  Happened v (u ∷ t) = (u ≡ v) ⊎ Happened v t

  module _ (chain_tip : ℕ) where
    -- What the server has answered for a transaction at some time.
    abbrev pub Answered : TxId → Option (Tx × Option ℕ) → Type 0
    Answered txid found =
        (t : History w) × (raw : Option RawTransaction) × (found_or_none w
            (w.get_transaction txid t)
          ≡ ok raw)
        × (parse_found w chain_tip raw ≡ ok found)

    abbrev pub Enhanced : TxId → Option (Tx × Option ℕ) → History w → Type 0
    Enhanced txid none t = Happened (status_set txid txid_not_recognized) t
    Enhanced txid (some (tx, height)) t = Happened (stored tx height) t

    -- The transactions of a stream are read and stored.
    abbrev pub AllStored : List (Result Error RawTransaction) → History w → Type 0
    AllStored [] t = Unit
    AllStored (item ∷ rest) t =
        ((raw : RawTransaction) × (tx : Tx) × (height : Option ℕ) × (item ≡ ok raw)
          × (parse_raw_transaction w chain_tip raw ≡ ok (tx, height))
          × Happened (stored tx height) t)
        × AllStored rest t

    -- A request is handled: the status that the server's answer means is set, the transaction that it
    -- gives is stored, or not recognised, or all those of the stream for the address are stored.
    abbrev pub IsHandled : Request TxId Tia → History w → Type 0
    IsHandled (get_status txid) t =
        (found : Option (Tx × Option ℕ)) × Answered txid found
        × Happened (status_set txid (status_of found)) t
    IsHandled (enhancement txid) t =
        (found : Option (Tx × Option ℕ)) × Answered txid found × Enhanced txid found t
    IsHandled (transactions_involving_address tia) t =
        (stream : List (Result Error RawTransaction)) × (earlier : History w)
        × (w.get_taddress_txids (filter_of w tia) earlier ≡ ok stream)
        × AllStored stream t

    AllStored-later :
        (v : Effect TxId Tia Tx) (stream : List (Result Error RawTransaction)) (t : History w)
        → AllStored stream t
        → AllStored stream (v ∷ t)
    AllStored-later v [] t h = tt
    AllStored-later v (item ∷ rest) t ((raw, tx, height, e, p, h), hs) =
        ((raw, tx, height, e, p, inr h), AllStored-later v rest t hs)

    IsHandled-later :
        (v : Effect TxId Tia Tx) (r : Request TxId Tia) (t : History w)
        → IsHandled r t
        → IsHandled r (v ∷ t)
    IsHandled-later v (get_status txid) t (found, a, h) = (found, a, inr h)
    IsHandled-later v (enhancement txid) t (none, a, h) = (none, a, inr h)
    IsHandled-later v (enhancement txid) t (some tx, a, h) = (some tx, a, inr h)
    IsHandled-later v (transactions_involving_address tia) t (stream, earlier, e, h) =
        (stream, earlier, e, AllStored-later v stream t h)

    abbrev pub AllHandled : List (Request TxId Tia) → History w → Type 0
    AllHandled satisfied t = All (λ r. IsHandled r t) satisfied

    pub AllHandled-later :
        (v : Effect TxId Tia Tx) (rs : List (Request TxId Tia)) (t : History w)
        → AllHandled rs t
        → AllHandled rs (v ∷ t)
    AllHandled-later v [] t h = tt
    AllHandled-later v (r ∷ rs) t (h, hs) = (IsHandled-later v r t h, AllHandled-later v rs t hs)

    weaken :
        {A : Type 0} (Q P : A → History w → Type 0)
        → ((a : A) (t : History w) → P a t → Q a t)
        → (p : Result Error A × History w) → EndsAt P (λ _. Unit) p
        → EndsAt Q (λ _. Unit) p
    weaken Q P f (ok a, t) h = f a t h
    weaken Q P f (err e, t) h = tt

    pub Ends-weaken :
        {A : Type 0} {Q : A → History w → Type 0} {P : A → History w → Type 0} (m : Step w A)
        (t : History w)
        → ((a : A) (t : History w) → P a t → Q a t)
        → Ends P (λ _. Unit) m t
        → Ends Q (λ _. Unit) m t
    Ends-weaken {Q} {P} m t f h = record { at_end = weaken Q P f (m t) h.at_end }

    fetch-Answered :
        (txid : TxId) (P : History w → Type 0)
        (later : (v : Effect TxId Tia Tx) (t : History w) → P t → P (v ∷ t)) (t : History w)
        → P t
        → Ends
            (λ found t. Answered txid found × P t)
            (λ _. Unit)
            (fetch_transaction w chain_tip txid)
            t
    unfolding fetch_transaction
    fetch-Answered txid P later t h =
        Ends-bind {P = λ _. P} _ _ t (Ends-emit t _ (later _ t h)) (λ _ t k.
          Ends-bind {P = λ raw t. (found_or_none w (w.get_transaction txid t) ≡ ok raw) × P t} _ _ t
            (Ends-ask t _ (λ raw e. (e, k)) tt)
            (λ raw t (e, k). Ends-lift t _ (λ found p. ((t, raw, e, p), k)) tt))

    store_stream-AllStored :
        (stream : List (Result Error RawTransaction)) (P : History w → Type 0)
        (later : (v : Effect TxId Tia Tx) (t : History w) → P t → P (v ∷ t)) (t : History w)
        → P t
        → Ends (λ _ t. AllStored stream t × P t) (λ _. Unit) (store_stream w chain_tip stream) t
    unfolding store_stream
    store_stream-AllStored [] P later t h = Ends-pure t _ (tt, h)
    store_stream-AllStored (item ∷ rest) P later t h =
        Ends-bind {P = λ raw t. (item ≡ ok raw) × P t} _ _ t (Ends-lift t _ (λ raw e. (e, h)) tt)
          (λ raw t (e, h).
            Ends-bind {P = λ tx t. (parse_raw_transaction w chain_tip raw ≡ ok tx) × P t} _ _ t
              (Ends-lift t _ (λ tx p. (p, h)) tt)
              (λ (tx, height) t (p, h).
                Ends-bind {P = λ _ t. Happened (stored tx height) t × P t} _ _ t
                  (Ends-call t _ _ (λ _ _. (inl refl, later _ t h)) tt)
                  (λ _ t k.
                    Ends-weaken _ t
                      (λ _ t (all, (here, h)). (((raw, tx, height, e, p, here), all), h))
                      (store_stream-AllStored rest (λ t. Happened (stored tx height) t × P t)
                        (λ v t (here, h). (inr here, later v t h)) t k))))

    enhance_found-Enhanced :
        (txid : TxId) (found : Option (Tx × Option ℕ)) (t : History w)
        (sat : List (Request TxId Tia))
        → AllHandled sat t
        → Ends
            (λ _ t. Enhanced txid found t × AllHandled sat t)
            (λ _. Unit)
            (enhance_found w txid found)
            t
    enhance_found-Enhanced txid none t sat h =
        Ends-call t _ _ (λ _ _. (inl refl, AllHandled-later _ sat t h)) tt
    enhance_found-Enhanced txid (some (tx, height)) t sat h =
        Ends-call t _ _ (λ _ _. (inl refl, AllHandled-later _ sat t h)) tt

    pub satisfy-IsHandled :
        (r : Request TxId Tia) (sat : List (Request TxId Tia)) (t : History w)
        → AllHandled sat t
        → Ends (λ _ t. IsHandled r t × AllHandled sat t) (λ _. Unit) (satisfy w chain_tip r) t
    unfolding satisfy
    satisfy-IsHandled (get_status txid) sat t h =
        Ends-bind _ _ t (fetch-Answered txid (AllHandled sat) (λ v. AllHandled-later v sat) t h)
          (λ found t (a, h).
            Ends-call t _ _ (λ _ _. ((found, a, inl refl), AllHandled-later _ sat t h)) tt)
    satisfy-IsHandled (enhancement txid) sat t h =
        Ends-bind _ _ t (fetch-Answered txid (AllHandled sat) (λ v. AllHandled-later v sat) t h)
          (λ found t (a, h).
            Ends-weaken _ t (λ _ t (e, h). ((found, a, e), h))
              (enhance_found-Enhanced txid found t sat h))
    satisfy-IsHandled (transactions_involving_address tia) sat t h =
        Ends-bind
          {P = λ stream now.
            (w.get_taddress_txids (filter_of w tia) t ≡ ok stream) × AllHandled sat now}
          _ _ t (Ends-call t _ _ (λ stream e. (e, AllHandled-later _ sat t h)) tt)
          (λ stream now (e, h).
            Ends-weaken _ now (λ _ _ (all, h). ((stream, t, e, all), h))
              (store_stream-AllStored stream (AllHandled sat) (λ v. AllHandled-later v sat) now h))
