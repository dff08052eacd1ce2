-- ===== src/Enhance/Tests.antt =====
-- A wallet with requests for two transactions and an address, and src/commands/wallet/enhance.rs run
-- for it.
use zcash_devtool_sqlx.Base.{
  ℕ, ◌≡◌, ◌==◌, refl, ap, Bool, true, false, none, some, List, [], ◌∷◌, ok, err, if◌then◌else◌,
  arith, codes, IfOk-ok,
}
use zcash_devtool_sqlx.Base.Effects.{◌>>=◌, pure, lift, ask, emit, call}
use zcash_devtool_sqlx.Base.Effects.Ends.{Ends}
use zcash_devtool_sqlx.Enhance.{
  Request, get_status, enhancement, transactions_involving_address, listed, asked, streamed,
  status_set, stored, Services, mined, txid_not_recognized, satisfy, round, rounds, list_requests,
  run, filter_of, parse_raw_transaction, store_stream, fetch_transaction, mined_height,
}
use zcash_devtool_sqlx.Enhance.Rounds.{IsSome, run-ends}
use zcash_devtool_sqlx.Enhance.Complete.{IsComplete, run-IsComplete}

abbrev same : Request ℕ ℕ → Request ℕ ℕ → Bool
same (get_status a) (get_status b) = a == b
same (enhancement a) (enhancement b) = a == b
same (transactions_involving_address a) (transactions_involving_address b) = a == b
same _ _ = false

pub same_self : (r : Request ℕ ℕ) → same r r ≡ true
same_self (get_status a) = ground arith
same_self (enhancement a) = ground arith
same_self (transactions_involving_address a) = ground arith

pub same_eq : (r s : Request ℕ ℕ) → same r s ≡ true → r ≡ s
same_eq (get_status a) (get_status b) h = ap get_status (ground (arith, h))
same_eq (enhancement a) (enhancement b) h = ap enhancement (ground (arith, h))
same_eq (transactions_involving_address a) (transactions_involving_address b) h =
    ap transactions_involving_address (ground (arith, h))
same_eq (get_status a) (enhancement b) h = ground (arith, h)
same_eq (get_status a) (transactions_involving_address b) h = ground (arith, h)
same_eq (enhancement a) (get_status b) h = ground (arith, h)
same_eq (enhancement a) (transactions_involving_address b) h = ground (arith, h)
same_eq (transactions_involving_address a) (get_status b) h = ground (arith, h)
same_eq (transactions_involving_address a) (enhancement b) h = ground (arith, h)

abbrev requests : List (Request ℕ ℕ)
requests = get_status 1 ∷ enhancement 2 ∷ transactions_involving_address 5 ∷ []

-- The transaction 1 is mined at height 7, the address has the transaction 9, and no other is known.
abbrev services : Services
services = record {
  TxId = ℕ;
  Tia = ℕ;
  Tx = List ℕ;
  BranchId = Unit;
  Error = Unit;
  Status = Bool;
  same_request = same;
  same_request_self = same_self;
  same_request_eq = same_eq;
  encode_address = λ tia. codes "t";
  block_range_start = λ tia. tia;
  block_range_end = λ tia. none;
  before_height = λ h. h;
  open_wallet = ok tt;
  chain_height = λ t. ok (some 100);
  no_chain_height = tt;
  connect = λ t. ok tt;
  transaction_data_requests = λ t. ok requests;
  get_transaction =
      λ txid t. if txid == 1 then ok (record { height = 7; bytes = 1 ∷ [] }) else err true;
  is_not_found = λ status. status;
  status_error = λ status. tt;
  get_taddress_txids = λ filter t. ok (ok (record { height = 0; bytes = 9 ∷ [] }) ∷ []);
  branch_for_height = λ height. tt;
  read_transaction = λ bytes branch. ok bytes;
  set_transaction_status = λ txid status t. ok tt;
  decrypt_and_store = λ tx height t. ok tt;
}

run_test : run services 3 [] ≡ (
  ok (some (transactions_involving_address 5 ∷ enhancement 2 ∷ get_status 1 ∷ [])),
  listed requests
      ∷ stored (9 ∷ []) none
      ∷ streamed (filter_of services 5)
      ∷ status_set 2 txid_not_recognized
      ∷ asked 2
      ∷ status_set 1 (mined 7)
      ∷ asked 1
      ∷ listed requests
      ∷ [],
)
unfolding run rounds round list_requests satisfy fetch_transaction store_stream
    parse_raw_transaction mined_height pure ◌>>=◌ lift ask emit call
run_test = refl

run-ends_example : Ends (λ o _. IsSome services o) (λ _. Unit) (run services 4) []
run-ends_example =
    run-ends services requests 4 [] (λ t. IfOk-ok requests (refl, (refl, (refl, tt)))) (omega arith)

run-IsComplete_example :
    Ends
      (λ o now. (chain_tip : ℕ) × IsComplete services chain_tip o now)
      (λ _. Unit)
      (run services 4)
      []
run-IsComplete_example = run-IsComplete services 4 []
