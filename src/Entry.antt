-- ===== src/Entry.antt =====
-- inflow/entry.go: the values of a flow's entry form, from the defaults of its schema to the submitted
-- values. `validate` stands for compiling the schema and validating against it, which the source does
-- with the package jsonschema; it answers the message of a failure.
pub mod Defaults
pub mod Store
pub mod Seed
pub mod View
mod Examples
use morph_api.Prelude.{
  String, Bool, true, false, not, ◌||◌, Option, none, some, List, [], ◌∷◌, ◌==◌, if◌then◌else◌,
}
use morph_api.Json.{
  Value, null, str, arr, obj, Items, nil, cons, Fields, end, field, lookup, insert, merge,
}
use morph_api.Patch.Values.{get}
use morph_api.Preferences.{EntryForm, has_form, is_schema, is_filled}

unfoldable pub names_object : Items → Bool
names_object nil = false
names_object (cons v vs) = elim v [ str s ↦ s == "object" || names_object vs | _ ↦ names_object vs ]

abbrev pub has_key : Option Value → Bool
has_key none = false
has_key (some v) = true

unfoldable pub schema_declares_object : Fields → Bool
schema_declares_object prop = elim (get "type" prop) [
  | str t ↦ t == "object"
  | arr vs ↦ names_object vs
  | null ↦ has_key (lookup "properties" prop)
  | _ ↦ false
]

-- The recursion goes down the schema: the search for its key `properties` is a part of it.
unfoldable mutual
  pub schema_defaults : Fields → Fields
  schema_defaults end = end
  schema_defaults (field k v schema) =
      let later = schema_defaults schema in
      let here = defaults_below v in if k == "properties" then here else later

  pub defaults_below : Value → Fields
  defaults_below (obj props) = property_defaults props
  defaults_below _ = end

  -- one round of the loop for each property
  pub property_defaults : Fields → Fields
  property_defaults end = end
  property_defaults (field name raw props) =
      let rest = property_defaults props in
      elim (default_of raw) [ none ↦ rest | some d ↦ insert name d rest ]

  -- what a property contributes
  pub default_of : Value → Option Value
  default_of (obj prop) =
      let nested = schema_defaults prop in
      elim (lookup "default" prop) [
        | some d ↦ some d
        | none ↦
            if schema_declares_object prop
            then if is_filled nested then some (obj nested) else none
            else none
      ]
  default_of _ = none

abbrev pub schema_of : Option EntryForm → Fields
schema_of none = end
schema_of (some e) = e.schema

unfoldable pub entry_defaults : Option EntryForm → Fields
entry_defaults entry =
    if not (has_form entry)
    then end
    else if not (is_schema entry)
    then merge end (schema_of entry)
    else schema_defaults (schema_of entry)

pub data Prepared : Type 0 where
  no_entry : Prepared
  ready : (values : Fields) → Prepared
  refused : (message : String) → Prepared

unfoldable pub prepare_entry_values :
    (validate : Fields → Fields → Option String) → Option EntryForm → Fields → Prepared
prepare_entry_values validate entry values =
    let merged = merge (entry_defaults entry) values in
    if not (has_form entry)
    then no_entry
    else if not (is_schema entry)
    then ready merged
    else elim (validate (schema_of entry) merged) [
      | none ↦ ready merged
      | some message ↦ refused message
    ]
