-- ===== src/Enhance.antt =====
-- The enhancement of transactions (src/commands/wallet/enhance.rs): the requests of the wallet for
-- data of transactions, the queries to the server that answer them, and the loop over the requests.
pub mod Rounds
pub mod Handled
pub mod Complete
mod Tests
use zcash_devtool_sqlx.Base.{
  ℕ, zero, suc, ◌≡◌, ◌^◌, ◌==◌, Bool, true, false, ◌&&◌, Option, none, some, List, [], ◌∷◌, Result,
  ok, err, ltb, if◌then◌else◌, Text, ok_or,
}
use zcash_devtool_sqlx.Base.Effects.{Run, ◌>>=◌, ◌>>◌, pure, raise, lift, ask, see, emit, call}

-- A request of the wallet, by the id of a transaction or by an address and a range of blocks.
pub data Request (TxId Tia : Type 0) : Type 0 where
  get_status enhancement : TxId → Request TxId Tia
  transactions_involving_address : Tia → Request TxId Tia

pub data TransactionStatus : Type 0 where
  txid_not_recognized not_in_main_chain : TransactionStatus
  mined : ℕ → TransactionStatus

-- A transaction as the server sends it.
pub record RawTransaction : Type 0 where
  pub height : ℕ
  pub bytes : List ℕ

-- What the server is asked for an address: both ends of the range are included.
pub record AddressFilter : Type 0 where
  pub address : Text
  pub start : ℕ
  pub end : Option ℕ

pub data Effect (TxId Tia Tx : Type 0) : Type 0 where
  listed : List (Request TxId Tia) → Effect TxId Tia Tx
  asked : TxId → Effect TxId Tia Tx
  streamed : AddressFilter → Effect TxId Tia Tx
  status_set : TxId → TransactionStatus → Effect TxId Tia Tx
  stored : Tx → Option ℕ → Effect TxId Tia Tx

-- The wallet's database, the server and the transaction crate; those that others change answer from
-- the history of effects.
pub record Services : Type 1 where
  pub TxId : Type 0
  pub Tia : Type 0
  pub Tx : Type 0
  pub BranchId : Type 0
  pub Error : Type 0
  pub Status : Type 0
  pub same_request : Request TxId Tia → Request TxId Tia → Bool
  pub same_request_self : (r : Request TxId Tia) → same_request r r ≡ true
  pub same_request_eq : (r s : Request TxId Tia) → same_request r s ≡ true → r ≡ s
  pub encode_address : Tia → Text
  pub block_range_start : Tia → ℕ
  pub block_range_end : Tia → Option ℕ
  -- A height less one, as the crate computes it.
  pub before_height : ℕ → ℕ
  pub open_wallet : Result Error (Unit {0})
  pub chain_height : List (Effect TxId Tia Tx) → Result Error (Option ℕ)
  pub no_chain_height : Error
  pub connect : List (Effect TxId Tia Tx) → Result Error (Unit {0})
  pub transaction_data_requests : List (Effect TxId Tia Tx) → Result Error (List (Request TxId Tia))
  pub get_transaction : TxId → List (Effect TxId Tia Tx) → Result Status RawTransaction
  pub is_not_found : Status → Bool
  pub status_error : Status → Error
  pub get_taddress_txids :
      AddressFilter → List (Effect TxId Tia Tx) → Result Error (List (Result Error RawTransaction))
  pub branch_for_height : ℕ → BranchId
  pub read_transaction : List ℕ → BranchId → Result Error Tx
  pub set_transaction_status :
      TxId → TransactionStatus → List (Effect TxId Tia Tx) → Result Error (Unit {0})
  pub decrypt_and_store : Tx → Option ℕ → List (Effect TxId Tia Tx) → Result Error (Unit {0})

-- The height of a transaction that is mined: 0 and heights that do not fit in 32 bits are none.
unfoldable pub mined_height : ℕ → Option ℕ
mined_height height = if ltb 0 height && ltb height (2 ^ 32) then some height else none

abbrev pub or_tip : Option ℕ → ℕ → ℕ
or_tip none chain_tip = chain_tip
or_tip (some height) chain_tip = height

abbrev pub status_of_height : Option ℕ → TransactionStatus
status_of_height none = not_in_main_chain
status_of_height (some height) = mined height

abbrev pub status_of : {Tx : Type 0} → Option (Tx × Option ℕ) → TransactionStatus
status_of none = txid_not_recognized
status_of (some (_, height)) = status_of_height height

module _ (w : Services) where
  open w use {TxId, Tia, Tx, Error, Status}

  abbrev pub Step : Type 0 → Type 0
  Step = Run Error (Effect TxId Tia Tx)

  abbrev pub History : Type 0
  History = List (Effect TxId Tia Tx)

  abbrev pub with_height : Option ℕ → Result Error Tx → Result Error (Tx × Option ℕ)
  with_height height (ok tx) = ok (tx, height)
  with_height height (err e) = err e

  unfoldable pub parse_raw_transaction : ℕ → RawTransaction → Result Error (Tx × Option ℕ)
  parse_raw_transaction chain_tip raw = with_height (mined_height raw.height) (
      w.read_transaction raw.bytes
        (w.branch_for_height (or_tip (mined_height raw.height) chain_tip)))

  abbrev pub found_or_none : Result Status RawTransaction → Result Error (Option RawTransaction)
  found_or_none (ok raw) = ok (some raw)
  found_or_none (err status) =
      if w.is_not_found status then ok none else err (w.status_error status)

  abbrev pub parse_found : ℕ → Option RawTransaction → Result Error (Option (Tx × Option ℕ))
  parse_found chain_tip none = ok none
  parse_found chain_tip (some raw) = elim (parse_raw_transaction chain_tip raw) [
    | ok tx ↦ ok (some tx)
    | err e ↦ err e
  ]

  unfoldable pub fetch_transaction : ℕ → TxId → Step (Option (Tx × Option ℕ))
  fetch_transaction chain_tip txid = do
    emit (asked txid)
    raw ← ask (λ t. found_or_none (w.get_transaction txid t))
    lift (parse_found chain_tip raw)

  abbrev pub set_status : TxId → TransactionStatus → Step (Unit {0})
  set_status txid status = call (w.set_transaction_status txid status) (status_set txid status)

  abbrev pub store : Tx × Option ℕ → Step (Unit {0})
  store (tx, height) = call (w.decrypt_and_store tx height) (stored tx height)

  abbrev pub enhance_found : TxId → Option (Tx × Option ℕ) → Step (Unit {0})
  enhance_found txid none = set_status txid txid_not_recognized
  enhance_found txid (some tx) = store tx

  abbrev pub map_end : Option ℕ → Option ℕ
  map_end none = none
  map_end (some h) = some (w.before_height h)

  unfoldable pub filter_of : Tia → AddressFilter
  filter_of tia = record {
    address = w.encode_address tia;
    start = w.block_range_start tia;
    end = map_end (w.block_range_end tia);
  }

  unfoldable pub store_stream : ℕ → List (Result Error RawTransaction) → Step (Unit {0})
  store_stream chain_tip [] = pure tt
  store_stream chain_tip (item ∷ rest) = do
    raw ← lift item
    tx ← lift (parse_raw_transaction chain_tip raw)
    store tx
    store_stream chain_tip rest

  -- The branches of the match on a request.
  unfoldable pub satisfy : ℕ → Request TxId Tia → Step (Unit {0})
  satisfy chain_tip (get_status txid) = do
    found ← fetch_transaction chain_tip txid
    set_status txid (status_of found)
  satisfy chain_tip (enhancement txid) = do
    found ← fetch_transaction chain_tip txid
    enhance_found txid found
  satisfy chain_tip (transactions_involving_address tia) = do
    stream ← call (w.get_taddress_txids (filter_of tia)) (streamed (filter_of tia))
    store_stream chain_tip stream

  abbrev pub contains : List (Request TxId Tia) → Request TxId Tia → Bool
  contains [] r = false
  contains (s ∷ rest) r =
      let in_rest = contains rest r in if w.same_request r s then true else in_rest

  -- `continue` where a request is satisfied.
  abbrev pub unless : {A : Type 0} → Bool → Step A → Step A → Step A
  unless true next m = next
  unless false next m = m

  -- The requests of a round: which are satisfied then, and whether one of them was new.
  unfoldable pub round :
      ℕ
      → List (Request TxId Tia)
      → List (Request TxId Tia)
      → Bool
      → Step (List (Request TxId Tia) × Bool)
  round chain_tip [] satisfied encountered = pure (satisfied, encountered)
  round chain_tip (data_request ∷ rest) satisfied encountered =
      unless (contains satisfied data_request) (round chain_tip rest satisfied encountered)
        (satisfy chain_tip data_request >> round chain_tip rest (data_request ∷ satisfied) true)

  unfoldable pub list_requests : Step (List (Request TxId Tia))
  list_requests = do
    requests ← ask w.transaction_data_requests
    emit (listed requests)
    pure requests

  abbrev pub after_round :
      Step (Option (List (Request TxId Tia)))
      → List (Request TxId Tia)
      → Bool
      → Step (Option (List (Request TxId Tia)))
  after_round next satisfied true = next
  after_round next satisfied false = pure (some satisfied)

  -- The loop: what is satisfied in the end, or none where the fuel is used up.
  unfoldable pub rounds : ℕ → ℕ → List (Request TxId Tia) → Step (Option (List (Request TxId Tia)))
  rounds zero chain_tip satisfied = pure none
  rounds (suc fuel) chain_tip satisfied = do
    requests ← list_requests
    (now_satisfied, new_request_encountered) ← round chain_tip requests satisfied false
    after_round (rounds fuel chain_tip now_satisfied) now_satisfied new_request_encountered

  unfoldable pub run : ℕ → Step (Option (List (Request TxId Tia)))
  run fuel = do
    lift w.open_wallet
    height ← ask w.chain_height
    chain_tip ← lift (ok_or height w.no_chain_height)
    ask w.connect
    rounds fuel chain_tip []
