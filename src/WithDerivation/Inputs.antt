-- ===== src/WithDerivation/Inputs.antt =====
-- Which inputs a key is for, and their update (`add_transparent`, `add_sapling` and `add_orchard` in
-- src/commands/pczt/update_with_derivation.rs).
use zcash_devtool_sqlx.Base.{
  ℕ, ◌+◌, Bool, true, false, Option, none, some, List, [], ◌∷◌, if◌then◌else◌, same,
}
use zcash_devtool_sqlx.WithDerivation.Outcomes.{
  nothing_matched, Outcome, done, failed, ◌>>=◌, lift, expect, IndexUpdates,
}
use zcash_devtool_sqlx.WithDerivation.Crates.{
  Crates, ShieldedPool, ScriptKind, pub_key_hash, multi_sig, pub_key, other_script,
}

abbrev pub enumerate : {A : Type 0} → ℕ → List A → List (ℕ × A)
enumerate i [] = []
enumerate i (x ∷ xs) = (i, x) ∷ enumerate (i + 1) xs

abbrev pub filter_index : {A : Type 0} → (A → Bool) → List (ℕ × A) → List ℕ
filter_index p [] = []
filter_index p ((i, x) ∷ xs) = let rest = filter_index p xs in if p x then i ∷ rest else rest

-- The indexes of the items that match.
unfoldable pub matching : {A : Type 0} → (A → Bool) → List A → List ℕ
matching p xs = filter_index p (enumerate 0 xs)

-- The loop over the indexes.
unfoldable pub update_all :
    {E A : Type 0} → IndexUpdates E A → List ℕ → (A → Outcome E A) → List A → Outcome E (List A)
update_all u [] f xs = done xs
update_all u (i ∷ is) f xs = do ys ← u.update_with i f xs; update_all u is f ys

abbrev pub if_found : {E A : Type 0} → List ℕ → A → Outcome E A
if_found [] a = failed nothing_matched
if_found (_ ∷ _) a = done a

abbrev pub any : {A : Type 0} → (A → Bool) → List A → Bool
any p [] = false
any p (x ∷ xs) = let rest = any p xs in if p x then true else rest

module _ (c : Crates) where
  open c use {Error, Pczt, Input, Pubkey, Bip32Derivation}

  abbrev pub script_of : Input → Option c.Script → c.Script
  script_of input none = c.script_pubkey input
  script_of input (some redeem_script) = redeem_script

  abbrev pub kind_of : Option c.Refined → Option ScriptKind
  kind_of none = none
  kind_of (some script) = c.standard script

  abbrev pub script_uses : Pubkey → Option ScriptKind → Bool
  script_uses pubkey (some (pub_key_hash hash)) = same hash (c.pubkey_hash pubkey)
  script_uses pubkey (some (multi_sig pubkeys)) = any (λ pk. same pk (c.serialize pubkey)) pubkeys
  script_uses pubkey (some (pub_key bytes)) = same bytes (c.serialize pubkey)
  script_uses pubkey (some other_script) = false
  script_uses pubkey none = false

  -- Whether the script of an input, the redeem script if there is one, uses a public key.
  unfoldable pub uses : Pubkey → Input → Bool
  uses pubkey input =
      script_uses pubkey (kind_of (c.refine (script_of input (c.redeem_script input))))

  unfoldable pub set_input : Pubkey → Bip32Derivation → Input → Outcome Error Input
  set_input pubkey derivation input = do
    copy ←
        expect (c.parse_derivation (c.seed_fingerprint derivation) (c.derivation_path derivation))
    done (c.set_bip32_derivation input (c.serialize pubkey) copy)

  unfoldable pub add_transparent : Pczt → Pubkey → Bip32Derivation → Outcome Error Pczt
  add_transparent pczt pubkey derivation = do
    inputs ← lift (c.inputs pczt)
    let inputs_to_update = matching (uses pubkey) inputs
    updated ← update_all c.input_updates inputs_to_update (set_input pubkey derivation) inputs
    if_found inputs_to_update (c.with_inputs pczt updated)

  module _ (pool : ShieldedPool Error Pczt c.Fingerprint) where
    open pool use {Spend, Address, Key, Derivation}

    abbrev pub owns : Key → Option Address → Bool
    owns key none = false
    owns key (some addr) = elim (pool.owner key addr) [ none ↦ false | some _ ↦ true ]

    unfoldable pub is_received : Key → Spend → Bool
    is_received key spend = owns key (pool.recipient spend)

    unfoldable pub set_spend : Derivation → Spend → Outcome Error Spend
    set_spend derivation spend = do
      copy ← expect (
          pool.parse_derivation (pool.seed_fingerprint derivation)
            (pool.derivation_path derivation))
      done (pool.set_derivation spend copy)

    unfoldable pub add_spends : Pczt → Key → Derivation → Outcome Error Pczt
    add_spends pczt key derivation = do
      spends ← lift (pool.spends pczt)
      let inputs_to_update = matching (is_received key) spends
      updated ← update_all pool.spend_updates inputs_to_update (set_spend derivation) spends
      if_found inputs_to_update (pool.with_spends pczt updated)

  abbrev pub add_sapling : Pczt → c.sapling.Key → c.sapling.Derivation → Outcome Error Pczt
  add_sapling = add_spends c.sapling

  abbrev pub add_orchard : Pczt → c.orchard.Key → c.orchard.Derivation → Outcome Error Pczt
  add_orchard = add_spends c.orchard
