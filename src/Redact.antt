-- ===== src/Redact.antt =====
-- The pczt redact command (src/commands/pczt/redact.rs): keys in foo.bar.baz notation, and the
-- redactions that they ask for.
pub mod Keys
pub mod Sections
pub mod Proprietary
mod Tests
use zcash_devtool_sqlx.Base.{
  ℕ, zero, suc, ◌==◌, ◌^◌, ◌≡◌, Bool, true, false, Option, none, some, List, [], ◌∷◌, ◌++◌, Result,
  ok, err, ◌>>=◌, if◌then◌else◌, Text, codes, same, split, parse_uint, length,
}

-- The parts of a transaction with items to redact. The global part and the bundles are one item.
pub data Part : Type 0 where
  global transparent_inputs transparent_outputs : Part
  sapling_spends sapling_outputs sapling_bundle orchard_actions orchard_bundle : Part

-- The first name of the keys of a part.
abbrev pub section_name : Part → Text
section_name global = codes "global"
section_name transparent_inputs = codes "transparent"
section_name transparent_outputs = codes "transparent"
section_name sapling_spends = codes "sapling"
section_name sapling_outputs = codes "sapling"
section_name sapling_bundle = codes "sapling"
section_name orchard_actions = codes "orchard"
section_name orchard_bundle = codes "orchard"

-- A number for each part.
abbrev pub part_code : Part → ℕ
part_code global = 0
part_code transparent_inputs = 1
part_code transparent_outputs = 2
part_code sapling_spends = 3
part_code sapling_outputs = 4
part_code sapling_bundle = 5
part_code orchard_actions = 6
part_code orchard_bundle = 7

-- An Orchard action has a spend and an output.
pub data Side : Type 0 where
  whole of_spend of_output : Side

-- What is done to an item, by the methods of the crate's redactors.
pub data Op : Type 0 where
  clear : Side → Text → Op
  redact_entry : Text → List ℕ → Op
  redact_proprietary : Side → Text → Op
  clear_proprietary : Side → Op

pub data RedactError : Type 0 where
  cannot_redact unknown_field : Text → RedactError
  empty_field missing_index invalid_length : RedactError
  invalid_index invalid_hex : Text → RedactError

-- A closure over the names of the key that are left, which a call may consume.
abbrev pub Closure : Type 0
Closure = List Text → Op × List Text

-- A redaction of the items of a part, or of one of them.
pub record Plan : Type 0 where
  pub part : Part
  pub index : Option ℕ
  pub closure : Closure
  pub key : List Text

abbrev pub Planned : Type 0
Planned = Result RedactError Plan

-- What a name stands for; otherwise the last value.
unfoldable pub choose : Text → List (Text × Planned) → Planned
choose field [] = err (unknown_field field)
choose field ((name, a) ∷ rest) =
    let later = choose field rest in if same field name then a else later

unfoldable pub edit : Part → Option ℕ → Op → Planned
edit p i op = ok (record { part = p; index = i; closure = λ rest. (op, rest); key = [] })

-- The closure of the proprietary fields: it takes the next name each time that it is called.
unfoldable pub proprietary_closure : Side → Closure
proprietary_closure side [] = (clear_proprietary side, [])
proprietary_closure side (name ∷ key) = (redact_proprietary side name, key)

unfoldable pub proprietary : Part → Option ℕ → Side → List Text → Planned
proprietary p i side key =
    ok (record { part = p; index = i; closure = proprietary_closure side; key = key })

-- Fields that cannot be redacted, and fields that are cleared.
unfoldable pub cannot : List Text → List (Text × Planned)
cannot [] = []
cannot (name ∷ rest) = (name, err (cannot_redact name)) ∷ cannot rest

unfoldable pub clears : Part → Option ℕ → Side → List Text → List (Text × Planned)
clears p i side [] = []
clears p i side (name ∷ rest) = (name, edit p i (clear side name)) ∷ clears p i side rest

-- The number of an item.
abbrev pub with_index : Text → (ℕ → Planned) → Option ℕ → Planned
with_index s f none = err (invalid_index s)
with_index s f (some i) = f i

unfoldable pub indexed : (Option ℕ → List Text → Planned) → List Text → Planned
indexed f [] = err missing_index
indexed f (s ∷ key) = with_index s (λ i. f (some i) key) (parse_uint (2 ^ 64) s)
