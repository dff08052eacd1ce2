-- ===== src/Enhance/Rounds.antt =====
-- The rounds of src/commands/wallet/enhance.rs end.
use zcash_devtool_sqlx.Base.{
  ℕ, zero, suc, ◌≡◌, ◌≤◌, ◌<◌, inl, inr, refl, ap, subst, Bool, true, false, Option, some, List, [],
  ◌∷◌, arith, if◌then◌else◌, All, Bool-cases, Result, ok, err, length, IfOk, IfOk-value, ok_or,
}
use zcash_devtool_sqlx.Base.Effects.{ask, lift}
use zcash_devtool_sqlx.Base.Effects.Ends.{Ends, EndsAt, Ends-pure, Ends-ask, Ends-emit, Ends-bind}
use zcash_devtool_sqlx.Enhance.{
  Request, Services, Step, History, contains, satisfy, round, rounds, after_round, unless,
  list_requests, run,
}

module _ (w : Services) where
  open w use {TxId, Tia, Tx, Error}

  -- How many of some requests are not satisfied.
  abbrev pub missing : List (Request TxId Tia) → List (Request TxId Tia) → ℕ
  missing satisfied [] = 0
  missing satisfied (r ∷ all) =
      let rest = missing satisfied all in if contains w satisfied r then rest else suc rest

  missing-less :
      (r : Request TxId Tia) (satisfied all : List (Request TxId Tia))
      → missing (r ∷ satisfied) all ≤ missing satisfied all
  missing-less r satisfied [] = omega arith
  missing-less r satisfied (a ∷ all) = ground (arith, missing-less r satisfied all)

  missing-drops :
      (r : Request TxId Tia) (satisfied all : List (Request TxId Tia))
      → contains w satisfied r ≡ false
      → contains w all r ≡ true
      → missing (r ∷ satisfied) all < missing satisfied all
  missing-drops r satisfied [] h k = ground (arith, k)
  missing-drops r satisfied (a ∷ all) h k = elim (Bool-cases (w.same_request r a)) [
    | inl e ↦
        let same : r ≡ a = w.same_request_eq r a e in
        let here : w.same_request a r ≡ true =
          subst (λ x. w.same_request x r ≡ true) same (w.same_request_self r) in
        let open_still : contains w satisfied a ≡ false =
          subst (λ x. contains w satisfied x ≡ false) same h in
        ground (arith, here, open_still, missing-less r satisfied all)
    | inr e ↦
        let further : contains w all r ≡ true =
          subst (λ b. (if b then true else contains w all r) ≡ true) e k in
        ground (arith, missing-drops r satisfied all h further)
  ]

  missing-all : (all : List (Request TxId Tia)) → missing [] all ≡ length all
  missing-all [] = refl
  missing-all (r ∷ all) = ap suc (missing-all all)

  abbrev pub IsSome : {A : Type 0} → Option A → Type 0
  IsSome {A} o = (a : A) × (o ≡ some a)

  ended : {A : Type 0} (p : Result Error A × History w) → EndsAt (λ _ _. Unit) (λ _. Unit) p
  ended (ok a, t) = tt
  ended (err e, t) = tt

  pub anyhow : {A : Type 0} (m : Step w A) (t : History w) → Ends (λ _ _. Unit) (λ _. Unit) m t
  anyhow m t = record { at_end = ended (m t) }

  pub Ends-unless :
      {A : Type 0} {Q : A → History w → Type 0} {R : History w → Type 0} (t : History w) (b : Bool)
      (next m : Step w A)
      → (b ≡ true → Ends Q R next t)
      → (b ≡ false → Ends Q R m t)
      → Ends Q R (unless w b next m) t
  Ends-unless t true next m h k = h refl
  Ends-unless t false next m h k = k refl

  module _ (chain_tip : ℕ) (all : List (Request TxId Tia)) where
    -- At most a number of requests are missing, and fewer after a new one was met.
    abbrev pub Fewer : ℕ → List (Request TxId Tia) × Bool → Type 0
    Fewer bound (satisfied, encountered) =
        (missing satisfied all ≤ bound) × (encountered ≡ true → missing satisfied all < bound)

    round-Fewer :
        (bound : ℕ) (rs satisfied : List (Request TxId Tia)) (encountered : Bool) (t : History w)
        → All (λ r. contains w all r ≡ true) rs
        → Fewer bound (satisfied, encountered)
        → Ends (λ p _. Fewer bound p) (λ _. Unit) (round w chain_tip rs satisfied encountered) t
    unfolding round
    round-Fewer bound [] satisfied encountered t known h = Ends-pure t _ h
    round-Fewer bound (r ∷ rs) satisfied encountered t (k, known) (h, g) =
        Ends-unless t (contains w satisfied r) _ _
          (λ e. round-Fewer bound rs satisfied encountered t known (h, g))
          (λ e.
            let drops : missing (r ∷ satisfied) all < missing satisfied all =
              missing-drops r satisfied all e k in
            Ends-bind _ _ t (anyhow (satisfy w chain_tip r) t) (λ _ t' _.
              round-Fewer bound rs (r ∷ satisfied) true t' known (omega arith, λ _. omega arith)))

    module _
        (known : (t : History w)
          → IfOk (All (λ r. contains w all r ≡ true)) (w.transaction_data_requests t)) where
      list_requests-known :
          (t : History w)
          → Ends (λ rs _. All (λ r. contains w all r ≡ true) rs) (λ _. Unit) (list_requests w) t
      unfolding list_requests
      list_requests-known t =
          Ends-bind _ _ t
            (Ends-ask {Q = λ rs _. All (λ r. contains w all r ≡ true) rs} t
              w.transaction_data_requests (λ rs e. IfOk-value _ rs (known t) e) tt)
            (λ rs t' h.
              Ends-bind {P = λ _ _. Unit} _ _ t' (Ends-emit t' _ tt)
                (λ _ t'' _. Ends-pure t'' rs h))

      after :
          (met : Bool) (fuel : ℕ) (s : List (Request TxId Tia)) (t : History w)
          → (met ≡ true → Ends (λ o _. IsSome o) (λ _. Unit) (rounds w fuel chain_tip s) t)
          → Ends (λ o _. IsSome o) (λ _. Unit) (after_round w (rounds w fuel chain_tip s) s met) t
      after true fuel s t h = h refl
      after false fuel s t h = Ends-pure t _ (s, refl)

      rounds-end :
          (fuel : ℕ) (satisfied : List (Request TxId Tia)) (t : History w)
          → missing satisfied all < fuel
          → Ends (λ o _. IsSome o) (λ _. Unit) (rounds w fuel chain_tip satisfied) t
      unfolding rounds
      rounds-end zero satisfied t h = absurd (omega arith)
      rounds-end (suc fuel) satisfied t h = Ends-bind _ _ t (list_requests-known t) (λ rs t' k.
          Ends-bind _ _ t'
            (round-Fewer (missing satisfied all) rs satisfied false t' k
              (omega arith, λ e. ground (arith, e)))
            (λ (s, met) t'' (l, f).
              after met fuel s t'' (λ e. rounds-end fuel s t'' (omega (arith, f e)))))

  -- If all the requests that the wallet ever makes are among some requests, the loop stops after at most
  -- one round more than there are of these, unless the run fails before.
  pub run-ends :
      (all : List (Request TxId Tia)) (fuel : ℕ) (t : History w)
      (known : (t : History w)
        → IfOk (All (λ r. contains w all r ≡ true)) (w.transaction_data_requests t))
      → length all < fuel
      → Ends (λ o _. IsSome o) (λ _. Unit) (run w fuel) t
  unfolding run
  run-ends all fuel t known h = Ends-bind _ _ t (anyhow (lift w.open_wallet) t) (λ _ t _.
      Ends-bind _ _ t (anyhow (ask w.chain_height) t) (λ height t _.
        Ends-bind _ _ t (anyhow (lift (ok_or height w.no_chain_height)) t) (λ chain_tip t _.
          Ends-bind _ _ t (anyhow (ask w.connect) t)
            (λ _ t _. rounds-end chain_tip all known fuel [] t (omega (arith, missing-all all))))))
