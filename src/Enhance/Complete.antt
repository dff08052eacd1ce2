-- ===== src/Enhance/Complete.antt =====
-- What src/commands/wallet/enhance.rs has done when it ends: all that the wallet asked for.
use zcash_devtool_sqlx.Base.{
  ℕ, zero, suc, ◌≡◌, inl, inr, refl, sym, ap, ◌∙◌, subst, Bool, true, false, Option, none, some,
  List, [], ◌∷◌, arith, if◌then◌else◌, Bool-cases, ok, ok_or,
}
use zcash_devtool_sqlx.Base.Effects.{ask, lift}
use zcash_devtool_sqlx.Base.Effects.Ends.{Ends, Ends-pure, Ends-ask, Ends-emit, Ends-bind}
use zcash_devtool_sqlx.Enhance.{
  Request, listed, Services, History, contains, round, rounds, after_round, list_requests, run,
}
use zcash_devtool_sqlx.Enhance.Rounds.{Ends-unless, anyhow}
use zcash_devtool_sqlx.Enhance.Handled.{
  IsHandled, AllHandled, AllHandled-later, Ends-weaken, satisfy-IsHandled,
}

module _ (w : Services) where
  open w use {TxId, Tia, Tx, Error}

  module _ (chain_tip : ℕ) where
    -- A round that meets no new request has no effect, and what it was given is satisfied.
    abbrev pub Rounded :
        List (Request TxId Tia)
        → List (Request TxId Tia)
        → Bool
        → History w
        → List (Request TxId Tia) × Bool
        → History w
        → Type 0
    Rounded rs sat met t (now, met_now) t' =
        AllHandled w chain_tip now t'
        × (met_now ≡ false → (met ≡ false) × (t' ≡ t) × AllHandled w chain_tip rs t)

    contains-IsHandled :
        (r : Request TxId Tia) (sat : List (Request TxId Tia)) (t : History w)
        → contains w sat r ≡ true
        → AllHandled w chain_tip sat t
        → IsHandled w chain_tip r t
    contains-IsHandled r [] t e h = ground (arith, e)
    contains-IsHandled r (s ∷ sat) t e (h, hs) = elim (Bool-cases (w.same_request r s)) [
      | inl same ↦ subst (λ x. IsHandled w chain_tip x t) (sym (w.same_request_eq r s same)) h
      | inr other ↦
          contains-IsHandled r sat t
            (subst (λ b. (if b then true else contains w sat r) ≡ true) other e) hs
    ]

    round-Rounded :
        (rs sat : List (Request TxId Tia)) (met : Bool) (t : History w)
        → AllHandled w chain_tip sat t
        → Ends (Rounded rs sat met t) (λ _. Unit) (round w chain_tip rs sat met) t
    unfolding round
    round-Rounded [] sat met t h = Ends-pure t _ (h, λ e. (e, refl, tt))
    round-Rounded (r ∷ rs) sat met t h =
        Ends-unless w t (contains w sat r) _ _
          (λ e.
            Ends-weaken w chain_tip _ t
              (λ (now, met_now) _ (all, k).
                (all, λ q. let (m, s, hs) = k q in (m, s, (contains-IsHandled r sat t e h, hs))))
              (round-Rounded rs sat met t h))
          (λ e. Ends-bind _ _ t (satisfy-IsHandled w chain_tip r sat t h) (λ _ now k.
            Ends-weaken w chain_tip _ now (λ (_, _) _ (all, k). (all, λ q. ground (arith, (k q).0)))
              (round-Rounded rs (r ∷ sat) true now k)))

    -- The last effect was a list of requests from the wallet, and all of them are handled.
    abbrev pub IsComplete : Option (List (Request TxId Tia)) → History w → Type 0
    IsComplete none t = Unit
    IsComplete (some satisfied) t =
        (requests : List (Request TxId Tia)) × (earlier : History w) × (w.transaction_data_requests
            earlier
          ≡ ok requests)
        × (t ≡ listed requests ∷ earlier)
        × AllHandled w chain_tip requests t

    after :
        (fuel : ℕ) (met : Bool) (sat : List (Request TxId Tia)) (t : History w)
        → Ends IsComplete (λ _. Unit) (rounds w fuel chain_tip sat) t
        → (met ≡ false → IsComplete (some sat) t)
        → Ends IsComplete (λ _. Unit) (after_round w (rounds w fuel chain_tip sat) sat met) t
    after fuel true sat t h k = h
    after fuel false sat t h k = Ends-pure t _ (k refl)

    rounds-IsComplete :
        (fuel : ℕ) (sat : List (Request TxId Tia)) (t : History w)
        → AllHandled w chain_tip sat t
        → Ends IsComplete (λ _. Unit) (rounds w fuel chain_tip sat) t
    unfolding rounds list_requests
    rounds-IsComplete zero sat t h = Ends-pure t _ tt
    rounds-IsComplete (suc fuel) sat t h =
        Ends-bind
          {P = λ rs now.
            (w.transaction_data_requests t ≡ ok rs)
            × (now ≡ listed rs ∷ t)
            × AllHandled w chain_tip sat now}
          _ _ t
          (Ends-bind {P = λ rs now. (w.transaction_data_requests t ≡ ok rs) × (now ≡ t)} _ _ t
            (Ends-ask t _ (λ rs e. (e, refl)) tt)
            (λ rs now (e, same).
              Ends-bind {P = λ _ later. later ≡ listed rs ∷ t} _ _ now
                (Ends-emit now _ (ap (λ l. listed rs ∷ l) same))
                (λ _ later q. Ends-pure later rs (
                  e,
                  q,
                  subst (AllHandled w chain_tip sat) (sym q)
                      (AllHandled-later w chain_tip _ sat t h),
                ))))
          (λ rs now (e, q, h).
            Ends-bind _ _ now (round-Rounded rs sat false now h) (λ (sat', met) later (all, k).
              after fuel met sat' later (rounds-IsComplete fuel sat' later all) (λ m.
                let (_, s, hs) = k m in
                (rs, t, e, s ∙ q, subst (AllHandled w chain_tip rs) (sym s) hs))))

  -- When the command ends without a failure, the last that it did was to list the wallet's requests,
  -- and each of these is handled, by answers that the server gave: the status of its transaction is
  -- set, its transaction is stored or marked as not recognised, or all the transactions that the
  -- server sent for its address are stored.
  pub run-IsComplete :
      (fuel : ℕ) (t : History w)
      → Ends (λ o now. (chain_tip : ℕ) × IsComplete chain_tip o now) (λ _. Unit) (run w fuel) t
  unfolding run
  run-IsComplete fuel t = Ends-bind _ _ t (anyhow w (lift w.open_wallet) t) (λ _ t _.
      Ends-bind _ _ t (anyhow w (ask w.chain_height) t) (λ height t _.
        Ends-bind _ _ t (anyhow w (lift (ok_or height w.no_chain_height)) t) (λ chain_tip t _.
          Ends-bind _ _ t (anyhow w (ask w.connect) t) (λ _ t _.
            Ends-weaken w chain_tip _ t (λ o now h. (chain_tip, h))
              (rounds-IsComplete chain_tip fuel [] t tt)))))
