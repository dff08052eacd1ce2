-- ===== src/Redact/Tests.antt =====
-- Transactions as lists of what was done to each item, and redactions of them.
use zcash_devtool_sqlx.Base.{
  ℕ, ◌==◌, ◌≡◌, ◌≢◌, refl, arith, true, Option, none, some, List, [], ◌∷◌, map, ok, err, Text,
  codes, same, if◌then◌else◌, ==_iff,
}
use zcash_devtool_sqlx.Redact.{
  Part, part_code, section_name, sapling_spends, orchard_actions, Op, clear, redact_proprietary,
  clear_proprietary, whole, Plan, cannot_redact, choose, cannot, clears, indexed, edit,
}
use zcash_devtool_sqlx.Redact.Keys.{redact_pczt, redact_sapling, redact_sapling_spend}
use zcash_devtool_sqlx.Redact.Sections.{redact_pczt-section}
use zcash_devtool_sqlx.Redact.Proprietary.{
  Redactor, each, at_place, redact, redact_key, redact_key_frame, redact_key_proprietary,
  spend_fields,
}

abbrev Log : Type 0
Log = Part → List (List Op)

abbrev note : Op → List Op → List Op
note op done = op ∷ done

abbrev only : Part → (List (List Op) → List (List Op)) → Log → Log
only p f t = λ q. if part_code p == part_code q then f (t q) else t q

only_here : (p : Part) (f : List (List Op) → List (List Op)) (t : Log) → only p f t p ≡ f (t p)
only_here p f t = rw ((==_iff (part_code p) (part_code p)).1 refl)

only_elsewhere :
    (p q : Part) (f : List (List Op) → List (List Op)) (t : Log)
    → part_code p ≢ part_code q
    → only p f t q ≡ t q
only_elsewhere p q f t h = ground (arith, h)

abbrev logs : Redactor
logs = record {
  Pczt = Log;
  Item = List Op;
  items = λ p t. t p;
  act = note;
  redact_all = λ p f key. only p (each note f key);
  redact_one = λ p i f key. only p (at_place note f key i);
  all_lem = λ p f key t. only_here p (each note f key) t;
  one_lem = λ p i f key t. only_here p (at_place note f key i) t;
  all_other = λ p q f key t h. only_elsewhere p q (each note f key) t h;
  one_other = λ p q i f key t h. only_elsewhere p q (at_place note f key i) t h;
}

-- Two items in each part.
abbrev pair : Log
pair = λ _. [] ∷ [] ∷ []

abbrev no_hex : Text → Option (List ℕ)
no_hex _ = none

abbrev short : Text → ℕ
short _ = 4

abbrev second_value : Plan
second_value = record {
  part = sapling_spends;
  index = some 1;
  closure = λ rest. (clear whole (codes "value"), rest);
  key = [];
}

planned :
    redact_pczt no_hex short (codes "sapling" ∷ codes "spend" ∷ codes "1" ∷ codes "value" ∷ [])
    ≡ ok second_value
unfolding redact_pczt redact_sapling redact_sapling_spend choose cannot clears indexed edit
planned = refl

refused :
    redact_key logs no_hex short pair (codes "sapling.spend.1.rk")
    ≡ err (cannot_redact (codes "rk"))
unfolding redact_key redact_pczt redact_sapling redact_sapling_spend choose cannot clears indexed
    edit
refused = refl

redacted :
    redact_key logs no_hex short pair (codes "sapling.spend.1.value")
    ≡ ok (redact logs second_value pair)
unfolding redact_key redact_pczt redact_sapling redact_sapling_spend choose cannot clears indexed
    edit
redacted = refl

redact_pczt-section_example : same (codes "sapling") (section_name sapling_spends) ≡ true
redact_pczt-section_example =
    redact_pczt-section no_hex short (codes "sapling")
      (codes "spend" ∷ codes "1" ∷ codes "value" ∷ []) second_value planned

redact_key_frame_example : redact logs second_value pair orchard_actions ≡ pair orchard_actions
redact_key_frame_example =
    redact_key_frame logs no_hex short pair (redact logs second_value pair)
      (codes "sapling.spend.1.value") (codes "sapling")
      (codes "spend" ∷ codes "1" ∷ codes "value" ∷ []) orchard_actions refl redacted refl

redact_key_proprietary_example :
    (t' : Log) × (redact_key logs no_hex short pair (codes "sapling.spends.proprietary.tag")
      ≡ ok t')
    × (t' sapling_spends
        ≡ note (redact_proprietary whole (codes "tag")) []
          ∷ map (note (clear_proprietary whole)) ([] ∷ []))
redact_key_proprietary_example =
    redact_key_proprietary logs no_hex short spend_fields (codes "tag")
      (codes "sapling.spends.proprietary.tag") pair [] ([] ∷ []) refl refl
