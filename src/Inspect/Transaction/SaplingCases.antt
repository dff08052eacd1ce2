-- ===== src/Inspect/Transaction/SaplingCases.antt =====
-- When the Sapling part of the inspection panics.
use zcash_devtool_sqlx.Base.{
  ℕ, suc, ◌≡◌, ◌⊎◌, inl, inr, refl, Bool, true, false, ◌&&◌, Option, none, some, List, [], ◌∷◌,
  if◌then◌else◌, Bool-cases, Gives, and_then-Gives, ◌and_then◌, arith,
}
use zcash_devtool_sqlx.Protocol.{Network}
use zcash_devtool_sqlx.Inspect.Context.{NetworkType}
use zcash_devtool_sqlx.Inspect.Transaction.{
  Kinds, TransparentBundle, SaplingBundle, Recovered, is_empty,
}
use zcash_devtool_sqlx.Inspect.Transaction.Lines.{Line}
use zcash_devtool_sqlx.Inspect.Transaction.Shielded.{
  Shielded, checked, State, check_spends, check_outputs, inspect_spends, inspect_outputs,
  inspect_sapling, sapling_coinbase_output,
}

module _ {k : Kinds} where
  -- A coinbase transaction has a Sapling output, no height in its script, and the network that
  -- its rules are to be checked for is given.
  abbrev pub LacksHeight :
      Bool → Option (Network × NetworkType) → Option ℕ → Option (SaplingBundle k) → Type 0
  LacksHeight true (some net) none (some bundle) = is_empty bundle.shielded_outputs ≡ false
  LacksHeight true (some net) none none = ⊥
  LacksHeight true (some net) (some height) bundle = ⊥
  LacksHeight true none height bundle = ⊥
  LacksHeight false net height bundle = ⊥

  -- A Sapling bundle has a spend or an output.
  abbrev pub Filled : Option (SaplingBundle k) → Type 0
  Filled none = Unit
  Filled (some b) = (is_empty b.shielded_spends && is_empty b.shielded_outputs) ≡ false

-- A transparent bundle has an input or an output.
abbrev pub HasParts : Option TransparentBundle → Type 0
HasParts none = Unit
HasParts (some b) = (is_empty b.vin && is_empty b.vout) ≡ false

if_none : {A : Type 0} (b : Bool) (o : Option A) → o ≡ none → (if b then none else o) ≡ none
if_none true o h = refl
if_none false o h = h

and_then-none :
    {A B : Type 0} (o : Option A) (f : A → Option B)
    → ((a : A) → f a ≡ none)
    → (o and_then f) ≡ none
and_then-none none f h = refl
and_then-none (some a) f h = h a

module _ {k : Kinds} (c : Shielded k) where
  -- The points and proofs of a transaction that was read can be read, and an Orchard note is
  -- recovered with the address that it was sent to.
  pub record Reads : Type 0 where
    pub spends_read :
        (ctx : k.SaplingContext) (spend : k.Spend) (sighash : k.Sighash)
        → (r : Bool × k.SaplingContext) × (c.check_spend ctx spend sighash ≡ some r)
    pub outputs_read :
        (ctx : k.SaplingContext) (output : k.Output)
        → (r : Bool × k.SaplingContext) × (c.check_output ctx output ≡ some r)
    pub addresses_match :
        (action : k.Action) (note : Recovered k.Address)
        → c.recover_orchard action ≡ some note
        → c.same_address note.recipient note.address ≡ true

  module _ (reads : Reads) where
    checked-Gives :
        (line : Line k) (o : Option (Bool × k.SaplingContext)) (rest : k.SaplingContext → State c)
        → Gives o
        → ((ctx : k.SaplingContext) → Gives (rest ctx))
        → Gives (checked c line o rest)
    checked-Gives line o rest read h =
        and_then-Gives o _ read
          (λ (valid, ctx). and_then-Gives (rest ctx) _ (h ctx) (λ r. (_, refl)))

    check_spends-Gives :
        (sighash : k.Sighash) (i : ℕ) (l : List k.Spend) (ctx : k.SaplingContext)
        → Gives (check_spends c sighash i l ctx)
    unfolding check_spends
    check_spends-Gives sighash i [] ctx = (([], ctx), refl)
    check_spends-Gives sighash i (x ∷ l) ctx =
        checked-Gives _ (c.check_spend ctx x sighash) _ (reads.spends_read ctx x sighash)
          (λ ctx'. check_spends-Gives sighash (suc i) l ctx')

    inspect_spends-Gives :
        (sighash : Option k.Sighash) (l : List k.Spend) (ctx : k.SaplingContext)
        → Gives (inspect_spends c sighash l ctx)
    unfolding inspect_spends
    inspect_spends-Gives sighash [] ctx = (([], ctx), refl)
    inspect_spends-Gives none (x ∷ l) ctx = (_, refl)
    inspect_spends-Gives (some sighash) (x ∷ l) ctx =
        let (r, e) = check_spends-Gives sighash 0 (x ∷ l) ctx in rw e (_, refl)

    check_outputs-Gives :
        (is_coinbase : Bool) (net : Option (Network × NetworkType)) (height : Option ℕ)
        → ((i : ℕ) (x : k.Output)
            → Gives (if is_coinbase then sapling_coinbase_output c net height i x else some []))
        → (i : ℕ) (l : List k.Output) (ctx : k.SaplingContext)
        → Gives (check_outputs c is_coinbase net height i l ctx)
    unfolding check_outputs
    check_outputs-Gives cb net height shown i [] ctx = (([], ctx), refl)
    check_outputs-Gives cb net height shown i (x ∷ l) ctx =
        and_then-Gives (if cb then sapling_coinbase_output c net height i x else some []) _
          (shown i x)
          (λ note.
            and_then-Gives _ _
              (checked-Gives (Line.bad_sapling_output i) (c.check_output ctx x)
                (λ ctx'. check_outputs c cb net height (suc i) l ctx') (reads.outputs_read ctx x)
                (λ ctx'. check_outputs-Gives cb net height shown (suc i) l ctx'))
              (λ r. (_, refl)))

    inspect_outputs-Gives :
        (is_coinbase : Bool) (net : Option (Network × NetworkType)) (height : Option ℕ)
        → ((i : ℕ) (x : k.Output)
            → Gives (if is_coinbase then sapling_coinbase_output c net height i x else some []))
        → (l : List k.Output) (ctx : k.SaplingContext)
        → Gives (inspect_outputs c is_coinbase net height l ctx)
    unfolding inspect_outputs
    inspect_outputs-Gives cb net height shown [] ctx = (_, refl)
    inspect_outputs-Gives cb net height shown (x ∷ l) ctx =
        and_then-Gives _ _ (check_outputs-Gives cb net height shown 0 (x ∷ l) ctx) (λ r. (_, refl))

    no_bundle :
        (cb : Bool) (net : Option (Network × NetworkType)) (height : Option ℕ)
        → ¬ LacksHeight {k = k} cb net height none
    no_bundle false net height h = h
    no_bundle true none height h = h
    no_bundle true (some net) none h = h
    no_bundle true (some net) (some height) h = h

    shown_if_height :
        (is_coinbase : Bool) (net : Option (Network × NetworkType)) (height : Option ℕ)
        → ((is_coinbase ≡ true) → Gives net → Gives height)
        → (i : ℕ) (x : k.Output)
        → Gives (if is_coinbase then sapling_coinbase_output c net height i x else some [])
    unfolding sapling_coinbase_output
    shown_if_height false net height h i x = (_, refl)
    shown_if_height true none height h i x = (_, refl)
    shown_if_height true (some n) (some b) h i x = (_, refl)
    shown_if_height true (some n) none h i x =
        let (b, e) = h refl (n, refl) in absurd (ground (arith, e))

    sapling-Gives :
        (cb : Bool) (net : Option (Network × NetworkType)) (height : Option ℕ)
        (sighash : Option k.Sighash) (bundle : SaplingBundle k)
        → (is_empty bundle.shielded_spends && is_empty bundle.shielded_outputs) ≡ false
        → ((ctx : k.SaplingContext)
            → Gives (inspect_outputs c cb net height bundle.shielded_outputs ctx))
        → Gives (inspect_sapling c cb net height sighash (some bundle))
    unfolding inspect_sapling
    sapling-Gives cb net height sighash bundle filled outputs = rw filled (
        and_then-Gives _ _ (inspect_spends-Gives sighash bundle.shielded_spends c.new_context)
          (λ (spends, ctx). and_then-Gives _ _ (outputs ctx) (λ r. (_, refl))))

    no_outputs :
        (net : Network × NetworkType) (l : List k.Output) (ctx : k.SaplingContext)
        → is_empty l ≡ true
        → Gives (inspect_outputs c true (some net) none l ctx)
    unfolding inspect_outputs
    no_outputs net [] ctx h = (_, refl)
    no_outputs net (x ∷ l) ctx h = absurd (ground (arith, h))

    outputs_panic :
        (net : Network × NetworkType) (l : List k.Output) (ctx : k.SaplingContext)
        → is_empty l ≡ false
        → inspect_outputs c true (some net) none l ctx ≡ none
    unfolding inspect_outputs check_outputs sapling_coinbase_output
    outputs_panic net [] ctx h = absurd (ground (arith, h))
    outputs_panic net (x ∷ l) ctx h = refl

    sapling_panics :
        (net : Network × NetworkType) (sighash : Option k.Sighash) (bundle : SaplingBundle k)
        → is_empty bundle.shielded_outputs ≡ false
        → inspect_sapling c true (some net) none sighash (some bundle) ≡ none
    unfolding inspect_sapling
    sapling_panics net sighash bundle h =
        if_none (is_empty bundle.shielded_spends && is_empty bundle.shielded_outputs) _ (
          and_then-none (inspect_spends c sighash bundle.shielded_spends c.new_context) _
            (λ (spends, ctx). rw (outputs_panic net bundle.shielded_outputs ctx h) refl))

    -- The Sapling part is printed, or its panic is that of a missing height.
    pub sapling_cases :
        (cb : Bool) (net : Option (Network × NetworkType)) (height : Option ℕ)
        (sighash : Option k.Sighash) (bundle : Option (SaplingBundle k))
        → Filled bundle
        → (Gives (inspect_sapling c cb net height sighash bundle)
            × (¬ LacksHeight cb net height bundle))
          ⊎ ((inspect_sapling c cb net height sighash bundle ≡ none)
              × LacksHeight cb net height bundle)
    sapling_cases cb net height sighash none h =
        inl (([], unfold inspect_sapling in refl), no_bundle cb net height)
    sapling_cases false net height sighash (some b) h = inl (
      sapling-Gives false net height sighash b h (
          inspect_outputs-Gives false net height
            (shown_if_height false net height (λ e. absurd (ground (arith, e))))
            b.shielded_outputs),
      λ lacks. lacks,
    )
    sapling_cases true none height sighash (some b) h = inl (
      sapling-Gives true none height sighash b h (
          inspect_outputs-Gives true none height
            (shown_if_height true none height (λ _ (n, e). absurd (ground (arith, e))))
            b.shielded_outputs),
      λ lacks. lacks,
    )
    sapling_cases true (some net) (some n) sighash (some b) h = inl (
      sapling-Gives true (some net) (some n) sighash b h (
          inspect_outputs-Gives true (some net) (some n)
            (shown_if_height true (some net) (some n) (λ _ _. (n, refl))) b.shielded_outputs),
      λ lacks. lacks,
    )
    sapling_cases true (some net) none sighash (some b) h =
        elim (Bool-cases (is_empty b.shielded_outputs)) [
          | inl e ↦ inl (
            sapling-Gives true (some net) none sighash b h
                (λ ctx. no_outputs net b.shielded_outputs ctx e),
            λ lacks. absurd (ground (arith, e, lacks)),
          )
          | inr e ↦ inr (sapling_panics net sighash b e, e)
        ]
