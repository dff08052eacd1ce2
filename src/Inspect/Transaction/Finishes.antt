-- ===== src/Inspect/Transaction/Finishes.antt =====
-- When the inspection of a transaction panics.
use zcash_devtool_sqlx.Base.{
  ℕ, suc, ◌≡◌, ◌↔◌, inl, inr, refl, Bool, true, false, Option, none, some, List, [], ◌∷◌, Text,
  if◌then◌else◌, ◌==◌, Bool-cases, Gives, and_then-Gives, arith,
}
use zcash_devtool_sqlx.Inspect.Context.{Formats, TxOut, Context, NetworkType}
use zcash_devtool_sqlx.Inspect.Transaction.{
  Kinds, Scripts, Transaction, TransparentBundle, OrchardBundle, Recovered, is_coinbase,
  spent_coins,
}
use zcash_devtool_sqlx.Inspect.Transaction.Lines.{Line}
use zcash_devtool_sqlx.Inspect.Transaction.Inputs.{Signing, inspect_transparent}
use zcash_devtool_sqlx.Inspect.Transaction.Shielded.{
  Shielded, prepend, both, inspect_sapling, inspect_sprout,
}
use zcash_devtool_sqlx.Inspect.Transaction.Orchard.{
  address_lines, orchard_note, coinbase_outputs, inspect_orchard,
}
use zcash_devtool_sqlx.Inspect.Transaction.Running.{
  context_networks, context_addr_network, common_sighash, head_lines, coinbase_height, inspect,
}
use zcash_devtool_sqlx.Inspect.Transaction.SaplingCases.{
  Reads, LacksHeight, Filled, HasParts, sapling_cases,
}

module _ {k : Kinds} (c : Shielded k) where
  module _ (reads : Reads c) where
    note_Gives :
        (i : ℕ) (net : Option NetworkType) (action : k.Action) (r : Option (Recovered k.Address))
        → c.recover_orchard action ≡ r
        → Gives (orchard_note c i net r)
    unfolding orchard_note address_lines
    note_Gives i net action none e = (_, refl)
    note_Gives i none action (some note) e = elim (Bool-cases (note.value == 0)) [
      | inl z ↦ rw z (_, refl)
      | inr z ↦ rw z (_, refl)
    ]
    note_Gives i (some net) action (some note) e = elim (Bool-cases (note.value == 0)) [
      | inl z ↦ rw z (_, refl)
      | inr z ↦ rw z (rw (reads.addresses_match action note e) (_, refl))
    ]

    coinbase_outputs-Gives :
        (net : Option NetworkType) (i : ℕ) (l : List k.Action) → Gives (coinbase_outputs c net i l)
    unfolding coinbase_outputs
    coinbase_outputs-Gives net i [] = (_, refl)
    coinbase_outputs-Gives net i (x ∷ l) =
        and_then-Gives _ _ (note_Gives i net x (c.recover_orchard x) refl)
          (λ lines. and_then-Gives _ _ (coinbase_outputs-Gives net (suc i) l) (λ r. (_, refl)))

    outputs_if_coinbase :
        (cb : Bool) (net : Option NetworkType) (l : List k.Action)
        → Gives (if cb then coinbase_outputs c net 0 l else some [])
    outputs_if_coinbase true net l = coinbase_outputs-Gives net 0 l
    outputs_if_coinbase false net l = (_, refl)

    orchard-Gives :
        (cb : Bool) (net : Option NetworkType) (sighash : Option k.Sighash)
        (bundle : Option (OrchardBundle k))
        → Gives (inspect_orchard c cb net sighash bundle)
    unfolding inspect_orchard
    orchard-Gives cb net sighash none = (_, refl)
    orchard-Gives cb net sighash (some bundle) =
        and_then-Gives _ _ (outputs_if_coinbase cb net bundle.actions) (λ r. (_, refl))

transparent-Gives :
    {k : Kinds} (f : Formats) (s : Scripts k) (g : Signing k) (tx : Transaction k) (cb : Bool)
    (coins : Option (List TxOut)) (bundle : Option TransparentBundle)
    → HasParts bundle
    → Gives (inspect_transparent s g f tx cb coins bundle)
unfolding inspect_transparent
transparent-Gives f s g tx cb coins none h = (_, refl)
transparent-Gives f s g tx cb coins (some bundle) h = rw h (_, refl)

-- The lines of the parts, when the other parts do not panic.
around_none :
    {k : Kinds} (head sprout : List (Line k)) (t sapling orchard : Option (List (Line k)))
    → Gives t
    → Gives orchard
    → (prepend head (both t (prepend sprout (both sapling orchard))) ≡ none) ↔ (sapling ≡ none)
around_none head sprout none sapling orchard (t, e) o = absurd (ground (arith, e))
around_none head sprout (some t) sapling none e (o, e') = absurd (ground (arith, e'))
around_none head sprout (some t) none (some o) e e' = (λ _. refl, λ _. refl)
around_none head sprout (some t) (some l) (some o) e e' =
    (λ h. absurd (ground (arith, h)), λ h. absurd (ground (arith, h)))

module _ {k : Kinds} (f : Formats) (s : Scripts k) (g : Signing k) (c : Shielded k) where
  -- For a transaction with a part in each bundle, which can be written and read again, whose points
  -- and proofs can be read, and whose Orchard notes are recovered with the address that they were
  -- sent to, the inspection panics exactly when the transaction is a coinbase transaction with a
  -- Sapling output, the context names a network, and no height can be read from the coinbase script.
  pub inspect_panics :
      Reads c
      → (tx : Transaction k) (ctx : Option Context) (mined_height : Option (Text × ℕ))
      → HasParts tx.transparent_bundle
      → Filled tx.sapling_bundle
      → (inspect f s g c tx ctx mined_height ≡ none)
        ↔ LacksHeight
            (is_coinbase s tx)
            (context_networks ctx)
            (coinbase_height s tx)
            tx.sapling_bundle
  unfolding inspect
  inspect_panics reads tx ctx mined_height parts filled =
      let cb = is_coinbase s tx in
      let coins = spent_coins tx.transparent_bundle ctx in
      let sighash = common_sighash f s g c tx coins in
      let sapling =
        inspect_sapling c cb (context_networks ctx) (coinbase_height s tx) sighash
          tx.sapling_bundle in
      let (there, back) =
        around_none (head_lines f s g c tx ctx mined_height)
          (inspect_sprout c sighash tx.sprout_bundle)
          (inspect_transparent s g f tx cb coins tx.transparent_bundle) sapling
          (inspect_orchard c cb (context_addr_network ctx) sighash tx.orchard_bundle)
          (transparent-Gives f s g tx cb coins tx.transparent_bundle parts)
          (orchard-Gives c reads cb (context_addr_network ctx) sighash tx.orchard_bundle) in
      elim (sapling_cases c reads cb (context_networks ctx) (coinbase_height s tx) sighash
        tx.sapling_bundle filled) [
          | inl ((l, e), fine) ↦
              (λ h. absurd (ground (arith, there h, e)), λ lacks. absurd (fine lacks))
          | inr (e, lacks) ↦ (λ h. lacks, λ _. back e)
        ]
