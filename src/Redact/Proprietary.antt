-- ===== src/Redact/Proprietary.antt =====
-- What the redactions of src/commands/pczt/redact.rs do to the items of a transaction, given the
-- crate's redactors.
use zcash_devtool_sqlx.Base.{
  ℕ, zero, suc, ◌==◌, ◌≡◌, ◌≢◌, refl, sym, ap, ◌∙◌, true, false, Option, none, some, List, [], ◌∷◌,
  map, Result, ok, err, ◌>>=◌, if◌then◌else◌, ltb, arith, Text, codes, same, split, IfOk, IfOk-ok,
  IfOk-err, IfOk-value,
}
use zcash_devtool_sqlx.Redact.{
  Part, section_name, Op, RedactError, Plan, Closure, Planned, Side, clear_proprietary,
  redact_proprietary, proprietary_closure, proprietary, part_code, whole, of_spend, of_output,
  global, transparent_inputs, transparent_outputs, sapling_spends, sapling_outputs, sapling_bundle,
  orchard_actions, orchard_bundle, choose, cannot, clears,
}
use zcash_devtool_sqlx.Redact.Keys.{
  redact_pczt, redact_transparent, redact_transparent_input, redact_transparent_output,
  redact_sapling, redact_sapling_spend, redact_sapling_output, redact_orchard,
  redact_orchard_action, redact_orchard_spend, redact_orchard_output, maps,
}
use zcash_devtool_sqlx.Redact.Sections.{redact_pczt-section}

-- One call of the closure for each item, in order.
abbrev pub each : {Item : Type 0} → (Op → Item → Item) → Closure → List Text → List Item → List Item
each act closure key [] = []
each act closure key (x ∷ xs) = let (op, rest) = closure key in act op x ∷ each act closure rest xs

-- One call, for the item at a place, if there is one.
abbrev pub at_place :
    {Item : Type 0} → (Op → Item → Item) → Closure → List Text → ℕ → List Item → List Item
at_place act closure key i [] = []
at_place act closure key zero (x ∷ xs) = let (op, rest) = closure key in act op x ∷ xs
at_place act closure key (suc i) (x ∷ xs) = x ∷ at_place act closure key i xs

-- The redactors of the `pczt` crate.
pub record Redactor : Type 1 where
  pub Pczt : Type 0
  pub Item : Type 0
  pub items : Part → Pczt → List Item
  pub act : Op → Item → Item
  pub redact_all : Part → Closure → List Text → Pczt → Pczt
  pub redact_one : Part → ℕ → Closure → List Text → Pczt → Pczt
  pub all_lem :
      (p : Part) (f : Closure) (key : List Text) (t : Pczt)
      → items p (redact_all p f key t) ≡ each act f key (items p t)
  pub one_lem :
      (p : Part) (i : ℕ) (f : Closure) (key : List Text) (t : Pczt)
      → items p (redact_one p i f key t) ≡ at_place act f key i (items p t)
  pub all_other :
      (p q : Part) (f : Closure) (key : List Text) (t : Pczt)
      → part_code p ≢ part_code q
      → items q (redact_all p f key t) ≡ items q t
  pub one_other :
      (p q : Part) (i : ℕ) (f : Closure) (key : List Text) (t : Pczt)
      → part_code p ≢ part_code q
      → items q (redact_one p i f key t) ≡ items q t

-- The parts whose items have proprietary fields that a key without an index reaches.
pub data Target : Type 0 where
  input_fields output_fields spend_fields sapling_output_fields action_spend_fields
        action_output_fields :
      Target

abbrev pub part_of : Target → Part
part_of input_fields = transparent_inputs
part_of output_fields = transparent_outputs
part_of spend_fields = sapling_spends
part_of sapling_output_fields = sapling_outputs
part_of action_spend_fields = orchard_actions
part_of action_output_fields = orchard_actions

abbrev pub side_of : Target → Side
side_of action_spend_fields = of_spend
side_of action_output_fields = of_output
side_of _ = whole

-- The names of the key of a proprietary field.
abbrev pub names_of : Target → Text → List Text
names_of input_fields name = codes "transparent" ∷ codes "inputs" ∷ codes "proprietary" ∷ name ∷ []
names_of output_fields name =
    codes "transparent" ∷ codes "outputs" ∷ codes "proprietary" ∷ name ∷ []
names_of spend_fields name = codes "sapling" ∷ codes "spends" ∷ codes "proprietary" ∷ name ∷ []
names_of sapling_output_fields name =
    codes "sapling" ∷ codes "outputs" ∷ codes "proprietary" ∷ name ∷ []
names_of action_spend_fields name =
    codes "orchard" ∷ codes "actions" ∷ codes "spend" ∷ codes "proprietary" ∷ name ∷ []
names_of action_output_fields name =
    codes "orchard" ∷ codes "actions" ∷ codes "output" ∷ codes "proprietary" ∷ name ∷ []

target_planned :
    (hex : Text → Option (List ℕ)) (key_length : Text → ℕ) (target : Target) (name : Text)
    → redact_pczt hex key_length (names_of target name)
      ≡ proprietary (part_of target) none (side_of target) (name ∷ [])
unfolding redact_pczt redact_transparent redact_transparent_input redact_transparent_output
    redact_sapling redact_sapling_spend redact_sapling_output redact_orchard redact_orchard_action
    redact_orchard_spend redact_orchard_output choose cannot clears maps
target_planned hex key_length input_fields name = refl
target_planned hex key_length output_fields name = refl
target_planned hex key_length spend_fields name = refl
target_planned hex key_length sapling_output_fields name = refl
target_planned hex key_length action_spend_fields name = refl
target_planned hex key_length action_output_fields name = refl

abbrev section_of_code : ℕ → Text
section_of_code c =
    if c == 0
    then codes "global"
    else if ltb c 3
    then codes "transparent"
    else if ltb c 6
    then codes "sapling"
    else codes "orchard"

section_of_part : (p : Part) → section_name p ≡ section_of_code (part_code p)
section_of_part global = refl
section_of_part transparent_inputs = refl
section_of_part transparent_outputs = refl
section_of_part sapling_spends = refl
section_of_part sapling_outputs = refl
section_of_part sapling_bundle = refl
section_of_part orchard_actions = refl
section_of_part orchard_bundle = refl

section_by_code : (p q : Part) → part_code p ≡ part_code q → section_name p ≡ section_name q
section_by_code p q e = section_of_part p ∙ ap section_of_code e ∙ sym (section_of_part q)

true_not_false : true ≢ false
true_not_false e = ground (arith, e)

module _ (r : Redactor) where
  open r use {Pczt, Item, items, act}

  abbrev pub at_index : Part → Option ℕ → Closure → List Text → Pczt → Pczt
  at_index p none = r.redact_all p
  at_index p (some i) = r.redact_one p i

  unfoldable pub redact : Plan → Pczt → Pczt
  redact plan t = at_index plan.part plan.index plan.closure plan.key t

  module _ (hex : Text → Option (List ℕ)) (key_length : Text → ℕ) where
    -- One key, with dots between its names.
    unfoldable pub redact_key : Pczt → Text → Result RedactError Pczt
    redact_key t key = do plan ← redact_pczt hex key_length (split 46 key); ok (redact plan t)

    -- All keys of the command, up to the first that fails, which the error names.
    unfoldable pub run : Pczt → List Text → Result (Text × RedactError) Pczt
    run t [] = ok t
    run t (key ∷ rest) = elim (redact_key t key) [ ok t' ↦ run t' rest | err e ↦ err (key, e) ]

    index_other :
        (p q : Part) (i : Option ℕ) (f : Closure) (key : List Text) (t : Pczt)
        → part_code p ≢ part_code q
        → items q (at_index p i f key t) ≡ items q t
    index_other p q none f key t h = r.all_other p q f key t h
    index_other p q (some i) f key t h = r.one_other p q i f key t h

    frame_planned :
        (field : Text) (q : Part) (t : Pczt) (a : Planned)
        → ((plan : Plan) → a ≡ ok plan → same field (section_name plan.part) ≡ true)
        → same field (section_name q) ≡ false
        → IfOk (λ t'. items q t' ≡ items q t) (a >>= λ plan. ok (redact plan t))
    unfolding redact
    frame_planned field q t (ok plan) h n = IfOk-ok _ (
        index_other plan.part q plan.index plan.closure plan.key t (λ e.
          true_not_false (sym (h plan refl) ∙ ap (same field) (section_by_code plan.part q e) ∙ n)))
    frame_planned field q t (err x) h n = IfOk-err _

    -- A key whose first name is not the name of a part's section leaves the items of the part as
    -- they are.
    pub redact_key_frame :
        (t t' : Pczt) (key field : Text) (names : List Text) (q : Part)
        → split 46 key ≡ field ∷ names
        → redact_key t key ≡ ok t'
        → same field (section_name q) ≡ false
        → items q t' ≡ items q t
    unfolding redact_key
    redact_key_frame t t' key field names q e h n =
        IfOk-value (redact_pczt hex key_length (field ∷ names) >>= λ plan. ok (redact plan t)) t'
          (frame_planned field q t _ (redact_pczt-section hex key_length field names) n)
          (ap (λ l. redact_pczt hex key_length l >>= λ plan. ok (redact plan t)) (sym e) ∙ h)

  cleared_rest :
      (side : Side) (xs : List Item)
      → each act (proprietary_closure side) [] xs ≡ map (act (clear_proprietary side)) xs
  unfolding proprietary_closure
  cleared_rest side [] = refl
  cleared_rest side (x ∷ xs) = ap (λ l. act (clear_proprietary side) x ∷ l) (cleared_rest side xs)

  proprietary_all :
      (p : Part) (side : Side) (name : Text) (t : Pczt) (first : Item) (others : List Item)
      → items p t ≡ first ∷ others
      → items p (r.redact_all p (proprietary_closure side) (name ∷ []) t)
        ≡ act (redact_proprietary side name) first ∷ map (act (clear_proprietary side)) others
  unfolding proprietary_closure
  proprietary_all p side name t first others e =
      r.all_lem p (proprietary_closure side) (name ∷ []) t
      ∙ ap (each act (proprietary_closure side) (name ∷ [])) e
      ∙ ap (λ l. act (redact_proprietary side name) first ∷ l) (cleared_rest side others)

  -- A key that names one proprietary field of all items of a part is accepted, but it redacts that
  -- field of the first item only, and all proprietary fields of every other item.
  pub redact_key_proprietary :
      (hex : Text → Option (List ℕ)) (key_length : Text → ℕ) (target : Target) (name key : Text)
      (t : Pczt) (first : Item) (others : List Item)
      → split 46 key ≡ names_of target name
      → items (part_of target) t ≡ first ∷ others
      → (t' : Pczt) × (redact_key hex key_length t key ≡ ok t')
        × (items (part_of target) t'
            ≡ act (redact_proprietary (side_of target) name) first
              ∷ map (act (clear_proprietary (side_of target))) others)
  unfolding redact_key redact proprietary
  redact_key_proprietary hex key_length target name key t first others e h = (
    r.redact_all (part_of target) (proprietary_closure (side_of target)) (name ∷ []) t,
    ap (λ l. redact_pczt hex key_length l >>= λ plan. ok (redact plan t)) e
        ∙ ap (λ a. a >>= λ plan. ok (redact plan t)) (target_planned hex key_length target name),
    proprietary_all (part_of target) (side_of target) name t first others h,
  )
