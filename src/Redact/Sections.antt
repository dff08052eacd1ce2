-- ===== src/Redact/Sections.antt =====
-- The sections that the keys of src/commands/pczt/redact.rs redact in.
use zcash_devtool_sqlx.Base.{
  ℕ, ◌==◌, ◌≡◌, refl, ap, ◌∙◌, true, Option, none, some, List, [], ◌∷◌, ◌++◌, ok, err,
  if◌then◌else◌, Text, codes, same, length, All, All-append, IfOk, IfOk-ok, IfOk-err, IfOk-if,
  IfOk-value, parse_uint, ◌^◌,
}
use zcash_devtool_sqlx.Redact.{
  Part, global, transparent_inputs, transparent_outputs, sapling_spends, sapling_outputs,
  sapling_bundle, orchard_actions, orchard_bundle, section_name, Side, whole, of_spend, of_output,
  Op, redact_entry, unknown_field, invalid_length, Plan, Planned, choose, edit, proprietary, cannot,
  clears, indexed, with_index,
}
use zcash_devtool_sqlx.Redact.Keys.{
  redact_global, fitting, redact_map, maps, redact_transparent_input, redact_transparent_output,
  redact_transparent, redact_sapling_spend, redact_sapling_output, redact_sapling,
  redact_orchard_spend, redact_orchard_output, redact_orchard_action, redact_orchard, redact_pczt,
}

-- The part of the plan is in a section, or there is an error.
abbrev pub Within : Text → Planned → Type 0
Within name = IfOk (λ plan. section_name plan.part ≡ name)

-- The same of each row of a table.
record Rows (name : Text) (rows : List (Text × Planned)) : Type 0 where
  each : All (λ row. Within name row.1) rows

no_rows : {name : Text} → Rows name []
no_rows = record { each = tt }

row :
    {name n : Text} {a : Planned} {rows : List (Text × Planned)}
    → Within name a
    → Rows name rows
    → Rows name ((n, a) ∷ rows)
row h hs = record { each = (h, hs.each) }

both :
    {name : Text} {xs ys : List (Text × Planned)}
    → Rows name xs
    → Rows name ys
    → Rows name (xs ++ ys)
both {xs} {ys} h k = record { each = All-append _ xs ys h.each k.each }

choose-Within :
    {name : Text} (field : Text) {rows : List (Text × Planned)}
    → Rows name rows
    → Within name (choose field rows)
unfolding choose
choose-Within field {rows = []} h = IfOk-err _
choose-Within field {rows = r ∷ rest} h =
    IfOk-if (same field r.0) r.1 (choose field rest) (λ _. h.each.0)
      (λ _. choose-Within field {rows = rest} (record { each = h.each.1 }))

edit-Within : (p : Part) (i : Option ℕ) (op : Op) → Within (section_name p) (edit p i op)
unfolding edit
edit-Within p i op = IfOk-ok _ refl

cannot-Within : {name : Text} (l : List Text) → Rows name (cannot l)
unfolding cannot
cannot-Within [] = no_rows
cannot-Within (x ∷ l) = row (IfOk-err _) (cannot-Within l)

clears-Within :
    (p : Part) (i : Option ℕ) (side : Side) (l : List Text)
    → Rows (section_name p) (clears p i side l)
unfolding clears
clears-Within p i side [] = no_rows
clears-Within p i side (x ∷ l) = row (edit-Within p i _) (clears-Within p i side l)

proprietary-Within :
    (p : Part) (i : Option ℕ) (side : Side) (key : List Text)
    → Within (section_name p) (proprietary p i side key)
unfolding proprietary
proprietary-Within p i side key = IfOk-ok _ refl

indexed-Within :
    (name : Text) (f : Option ℕ → List Text → Planned) (key : List Text)
    → ((i : Option ℕ) (key : List Text) → Within name (f i key))
    → Within name (indexed f key)
unfolding indexed
indexed-Within name f [] h = IfOk-err _
indexed-Within name f (s ∷ key) h = with_index-Within (parse_uint (2 ^ 64) s)
  where
    with_index-Within : (o : Option ℕ) → Within name (with_index s (λ i. f (some i) key) o)
    with_index-Within none = IfOk-err _
    with_index-Within (some i) = h (some i) key

global-Within : (key : List Text) → Within (codes "global") (redact_global key)
unfolding redact_global
global-Within [] = IfOk-err _
global-Within (field ∷ key) =
    choose-Within field
      (both (cannot-Within _) (row (proprietary-Within global none whole key) no_rows))

module _ (hex : Text → Option (List ℕ)) (key_length : Text → ℕ) where
  fitting-Within :
      (p : Part) (i : Option ℕ) (field key : Text) (o : Option (List ℕ))
      → Within (section_name p) (fitting hex key_length p i field key o)
  fitting-Within p i field key none = IfOk-err _
  fitting-Within p i field key (some bytes) =
      IfOk-if (length bytes == key_length field) (edit p i (redact_entry field bytes))
        (err invalid_length) (λ _. edit-Within p i _) (λ _. IfOk-err _)

  redact_map-Within :
      (p : Part) (i : Option ℕ) (field : Text) (key : List Text)
      → Within (section_name p) (redact_map hex key_length p i field key)
  unfolding redact_map
  redact_map-Within p i field [] = edit-Within p i _
  redact_map-Within p i field (k ∷ rest) = fitting-Within p i field k (hex k)

  maps-Within :
      (p : Part) (i : Option ℕ) (key l : List Text)
      → Rows (section_name p) (maps hex key_length p i key l)
  unfolding maps
  maps-Within p i key [] = no_rows
  maps-Within p i key (x ∷ l) = row (redact_map-Within p i x key) (maps-Within p i key l)

  transparent_input-Within :
      (i : Option ℕ) (key : List Text)
      → Within (codes "transparent") (redact_transparent_input hex key_length i key)
  unfolding redact_transparent_input
  transparent_input-Within i [] = IfOk-err _
  transparent_input-Within i (field ∷ key) = choose-Within field (
      both
        (both (both (cannot-Within _) (clears-Within transparent_inputs i whole _))
          (maps-Within transparent_inputs i key _))
        (row (proprietary-Within transparent_inputs i whole key) no_rows))

  transparent_output-Within :
      (i : Option ℕ) (key : List Text)
      → Within (codes "transparent") (redact_transparent_output hex key_length i key)
  unfolding redact_transparent_output
  transparent_output-Within i [] = IfOk-err _
  transparent_output-Within i (field ∷ key) = choose-Within field (
      both
        (both (both (cannot-Within _) (clears-Within transparent_outputs i whole _))
          (maps-Within transparent_outputs i key _))
        (row (proprietary-Within transparent_outputs i whole key) no_rows))

  transparent-Within :
      (key : List Text) → Within (codes "transparent") (redact_transparent hex key_length key)
  unfolding redact_transparent
  transparent-Within [] = IfOk-err _
  transparent-Within (field ∷ key) =
      choose-Within field
        (row (transparent_input-Within none key) (row (transparent_output-Within none key) no_rows))

sapling_spend-Within :
    (i : Option ℕ) (key : List Text) → Within (codes "sapling") (redact_sapling_spend i key)
unfolding redact_sapling_spend
sapling_spend-Within i [] = IfOk-err _
sapling_spend-Within i (field ∷ key) = choose-Within field (
    both (both (cannot-Within _) (clears-Within sapling_spends i whole _))
      (row (proprietary-Within sapling_spends i whole key) no_rows))

sapling_output-Within :
    (i : Option ℕ) (key : List Text) → Within (codes "sapling") (redact_sapling_output i key)
unfolding redact_sapling_output
sapling_output-Within i [] = IfOk-err _
sapling_output-Within i (field ∷ key) = choose-Within field (
    both (both (cannot-Within _) (clears-Within sapling_outputs i whole _))
      (row (proprietary-Within sapling_outputs i whole key) no_rows))

sapling-Within : (key : List Text) → Within (codes "sapling") (redact_sapling key)
unfolding redact_sapling
sapling-Within [] = IfOk-err _
sapling-Within (field ∷ key) = choose-Within field (
    both
      (row (sapling_spend-Within none key) (
        row (indexed-Within _ _ key sapling_spend-Within) (
          row (sapling_output-Within none key)
            (row (indexed-Within _ _ key sapling_output-Within) (cannot-Within _)))))
      (clears-Within sapling_bundle none whole _))

orchard_spend-Within :
    (i : Option ℕ) (key : List Text) → Within (codes "orchard") (redact_orchard_spend i key)
unfolding redact_orchard_spend
orchard_spend-Within i [] = IfOk-err _
orchard_spend-Within i (field ∷ key) = choose-Within field (
    both (both (cannot-Within _) (clears-Within orchard_actions i of_spend _))
      (row (proprietary-Within orchard_actions i of_spend key) no_rows))

orchard_output-Within :
    (i : Option ℕ) (key : List Text) → Within (codes "orchard") (redact_orchard_output i key)
unfolding redact_orchard_output
orchard_output-Within i [] = IfOk-err _
orchard_output-Within i (field ∷ key) = choose-Within field (
    both (both (cannot-Within _) (clears-Within orchard_actions i of_output _))
      (row (proprietary-Within orchard_actions i of_output key) no_rows))

orchard_action-Within :
    (i : Option ℕ) (key : List Text) → Within (codes "orchard") (redact_orchard_action i key)
unfolding redact_orchard_action
orchard_action-Within i [] = IfOk-err _
orchard_action-Within i (field ∷ key) = choose-Within field (
    both (cannot-Within _) (
      row (orchard_spend-Within i key)
        (row (orchard_output-Within i key) (clears-Within orchard_actions i whole _))))

orchard-Within : (key : List Text) → Within (codes "orchard") (redact_orchard key)
unfolding redact_orchard
orchard-Within [] = IfOk-err _
orchard-Within (field ∷ key) = choose-Within field (
    both
      (row (orchard_action-Within none key)
        (row (indexed-Within _ _ key orchard_action-Within) (cannot-Within _)))
      (clears-Within orchard_bundle none whole _))

-- A row that is chosen by its name.
abbrev Named : Text → Planned → Type 0
Named field = IfOk (λ plan. same field (section_name plan.part) ≡ true)

Named-row :
    (field name : Text) (a : Planned) → Within name a → same field name ≡ true → Named field a
Named-row field name (ok plan) h e = IfOk-ok _ (ap (same field) h.holds ∙ e)
Named-row field name (err x) h e = IfOk-err _

pczt-Named :
    (hex : Text → Option (List ℕ)) (key_length : Text → ℕ) (field : Text) (key : List Text)
    → Named field (redact_pczt hex key_length (field ∷ key))
unfolding redact_pczt choose
pczt-Named hex key_length field key =
    let g = redact_global key in
    let t = redact_transparent hex key_length key in
    let s = redact_sapling key in
    let o = redact_orchard key in
    let none_of = err (unknown_field field) in
    let from_o = if same field (codes "orchard") then o else none_of in
    let from_s = if same field (codes "sapling") then s else from_o in
    let from_t = if same field (codes "transparent") then t else from_s in
    IfOk-if (same field (codes "global")) g from_t (Named-row field _ g (global-Within key)) (λ _.
      IfOk-if (same field (codes "transparent")) t from_s
        (Named-row field _ t (transparent-Within hex key_length key))
        (λ _.
          IfOk-if (same field (codes "sapling")) s from_o (Named-row field _ s (sapling-Within key))
            (λ _.
              IfOk-if (same field (codes "orchard")) o none_of
                (Named-row field _ o (orchard-Within key)) (λ _. IfOk-err _))))

-- A key redacts nothing outside the section that its first name names: global, transparent, sapling
-- or orchard.
pub redact_pczt-section :
    (hex : Text → Option (List ℕ)) (key_length : Text → ℕ) (field : Text) (key : List Text)
    (plan : Plan)
    → redact_pczt hex key_length (field ∷ key) ≡ ok plan
    → same field (section_name plan.part) ≡ true
redact_pczt-section hex key_length field key plan e =
    IfOk-value _ plan (pczt-Named hex key_length field key) e
