-- ===== src/ManualPczt/Paying.antt =====
-- The outputs of a payment request and of the change (src/commands/pczt/pay_manual.rs): how each is
-- added, and where in its pool it is found again.
use zcash_devtool_sqlx.Base.{
  ℕ, ◌+◌, Bool, true, false, Option, none, some, List, [], ◌∷◌, Result, ok, err, ◌>>=◌,
  if◌then◌else◌, Text,
}
use zcash_devtool_sqlx.Base.Maps.{insert, lookup}
use zcash_devtool_sqlx.Protocol.{PoolType, transparent, shielded, sapling, orchard}
use zcash_devtool_sqlx.ManualPczt.{Crates, Recipient, handle_recipient, add_recipient}

abbrev pub same_pool : PoolType → PoolType → Bool
same_pool transparent transparent = true
same_pool (shielded sapling) (shielded sapling) = true
same_pool (shielded orchard) (shielded orchard) = true
same_pool _ _ = false

-- The last index that is given out in each pool.
abbrev pub Counts : Type 0
Counts = PoolType → Option ℕ

abbrev pub no_counts : Counts
no_counts pool = none

-- `and_modify` and `or_default`.
abbrev pub next_index : Option ℕ → ℕ
next_index none = 0
next_index (some n) = n + 1

unfoldable pub counted : PoolType → Counts → Counts
counted pool counts q = if same_pool pool q then some (next_index (counts pool)) else counts q

-- An output: an amount, its recipient and a memo.
pub record Output (A M : Type 0) : Type 0 where
  pub value : ℕ
  pub address : A
  pub memo : Option M

-- The state of the loops over the outputs: the builder, the counts and the mapping.
pub record Tracking (B : Type 0) : Type 0 where
  pub builder : B
  pub output_counts : Counts
  pub mapping : List (ℕ × ℕ)

-- Where the outputs of a pool are in the transaction that was built, and the updater.
pub record Updates (E : Type 0) : Type 1 where
  pub Updater : Type 0
  pub sapling_index : ℕ → Option ℕ
  pub orchard_index : ℕ → Option ℕ
  pub set_address : PoolType → Updater → ℕ → Text → Result E Updater

-- A call returns, fails or panics.
pub data Outcome (E A : Type 0) : Type 0 where
  done : A → Outcome E A
  fails : E → Outcome E A
  panics : Outcome E A

abbrev pub outcome : {E A : Type 0} → Result E A → Outcome E A
outcome (ok a) = done a
outcome (err e) = fails e

abbrev pub and_then : {E A B : Type 0} → Outcome E A → (A → Outcome E B) → Outcome E B
and_then (done a) f = f a
and_then (fails e) f = fails e
and_then panics f = panics

abbrev pub or_panic : {E A : Type 0} → Option ℕ → (ℕ → Outcome E A) → Outcome E A
or_panic none f = panics
or_panic (some n) f = f n

abbrev pub through : Option ℕ → (ℕ → Option ℕ) → Option ℕ
through none f = none
through (some n) f = f n

module _ (c : Crates) where
  open c use {Error, TransparentAddress, SaplingAddress, OrchardAddress, Memo, Builder}

  abbrev pub Sent : Type 0
  Sent = Output (Recipient c) Memo

  -- The amounts and recipients of a pool, for the computation of the balance.
  unfoldable pub transparent_outputs : List Sent → Result Error (List (ℕ × TransparentAddress))
  transparent_outputs [] = ok []
  transparent_outputs (o ∷ os) = do
    found ←
        handle_recipient c {A = Option (ℕ × TransparentAddress)}
          (λ taddr. ok (some (o.value, taddr))) (λ _. ok none) (λ _. ok none) o.address
    rest ← transparent_outputs os
    ok (elim found [ none ↦ rest | some b ↦ b ∷ rest ])

  unfoldable pub output_values : Bool → List Sent → Result Error (List ℕ)
  output_values is_sapling [] = ok []
  output_values is_sapling (o ∷ os) = do
    found ←
        handle_recipient c {A = Option ℕ} (λ _. ok none)
          (λ _. ok (if is_sapling then some o.value else none))
          (λ _. ok (if is_sapling then none else some o.value)) o.address
    rest ← output_values is_sapling os
    ok (elim found [ none ↦ rest | some b ↦ b ∷ rest ])

  unfoldable pub track : ℕ → Tracking Builder → Sent → Result Error (Tracking Builder)
  track i t o = do
    (builder, pool) ← add_recipient c t.builder o.address o.value o.memo
    ok (record {
      builder = builder;
      output_counts = counted pool t.output_counts;
      mapping = insert i (next_index (t.output_counts pool)) t.mapping;
    })

  -- The loop over the outputs, from an index on.
  unfoldable pub track_all : ℕ → Tracking Builder → List Sent → Result Error (Tracking Builder)
  track_all i t [] = ok t
  track_all i t (o ∷ os) = do next ← track i t o; track_all (i + 1) next os

  -- The loop over the outputs of the request, and that over the change, which goes on counting: the
  -- builder and the two mappings.
  unfoldable pub add_outputs :
      Builder → List Sent → List Sent → Result Error (Builder × List (ℕ × ℕ) × List (ℕ × ℕ))
  add_outputs builder outputs change = do
    paid ←
        track_all 0 (record { builder = builder; output_counts = no_counts; mapping = [] }) outputs
    changed ←
        track_all 0
          (record { builder = paid.builder; output_counts = paid.output_counts; mapping = [] })
          change
    ok (changed.builder, paid.mapping, changed.mapping)

  module _ (u : Updates Error) (encode : Recipient c → Text) where
    -- The address of an output is set where the mapping says that the output is.
    unfoldable pub set_verification_address :
        u.Updater → Recipient c → ℕ → List (ℕ × ℕ) → Outcome Error u.Updater
    set_verification_address updater recipient i mappings =
        and_then
          (outcome (
            handle_recipient c (λ _. ok (transparent, lookup i mappings))
              (λ _. ok (shielded sapling, through (lookup i mappings) u.sapling_index))
              (λ _. ok (shielded orchard, through (lookup i mappings) u.orchard_index)) recipient))
          (λ (pool, index).
            or_panic index (λ n. outcome (u.set_address pool updater n (encode recipient))))

    unfoldable pub set_all :
        ℕ → u.Updater → List (Recipient c) → List (ℕ × ℕ) → Outcome Error u.Updater
    set_all i updater [] mappings = done updater
    set_all i updater (recipient ∷ rest) mappings =
        and_then (set_verification_address updater recipient i mappings)
          (λ next. set_all (i + 1) next rest mappings)
