-- ===== src/Entry/Defaults.antt =====
-- The defaults of a schema, and the submitted values over them.
use morph_api.Prelude.{
  String, true, false, Option, none, some, ◌==◌, ◌≡◌, refl, ◌⊎◌, sym, arith, eq_iff, inl, inr,
  Bool-cases, Option-cases,
}
use morph_api.Json.{Value, obj, Fields, end, field, lookup, merge}
use morph_api.Json.Laws.{or_else, lookup-merge, lookup-insert, is_map}
use morph_api.Preferences.{EntryForm, has_form, is_schema}
use morph_api.Entry.{
  schema_defaults, defaults_below, property_defaults, default_of, schema_of, entry_defaults, ready,
  prepare_entry_values,
}

-- What a property contributes, nothing if the schema has no such property.
abbrev pub default_at : Option Value → Option Value
default_at none = none
default_at (some raw) = default_of raw

property_defaults-missing :
    (name : String) (props : Fields)
    → lookup name props ≡ none
    → lookup name (property_defaults props) ≡ none
unfolding property_defaults lookup
property_defaults-missing name end h = refl
property_defaults-missing name (field k v props) h = elim (Option-cases (default_of v)) [
  | inl e ↦ rw e (property_defaults-missing name props (ground arith))
  | inr (d, e) ↦
      rw (e, lookup-insert k name d (property_defaults props))
        (ground (arith, property_defaults-missing name props (ground arith)))
]

property_defaults-lookup :
    (name : String) (props : Fields)
    → is_map props ≡ true
    → lookup name (property_defaults props) ≡ default_at (lookup name props)
unfolding property_defaults lookup is_map
property_defaults-lookup name end h = refl
property_defaults-lookup name (field k v props) h =
    let absent : lookup k props ≡ none = ground arith in
    let below = property_defaults-lookup name props (ground arith) in
    elim (Bool-cases (k == name)) [
      | inl e ↦
          let same : k ≡ name = ground (arith, eq_iff k name) in
          let missing = property_defaults-missing name props (rw same at absent) in
          elim (Option-cases (default_of v)) [
            | inl n ↦ rw (n, e, n, missing) refl
            | inr (d, n) ↦ rw (n, e, n, lookup-insert k name d (property_defaults props), e) refl
          ]
      | inr e ↦ elim (Option-cases (default_of v)) [
        | inl n ↦ rw (n, e) below
        | inr (d, n) ↦ rw (n, lookup-insert k name d (property_defaults props), e) below
      ]
    ]

schema_defaults-properties :
    (schema props : Fields)
    → lookup "properties" schema ≡ some (obj props)
    → schema_defaults schema ≡ property_defaults props
unfolding schema_defaults lookup defaults_below
schema_defaults-properties end props h = ground arith
schema_defaults-properties (field k v schema) props h = elim (Bool-cases (k == "properties")) [
  | inl e ↦ let same : v ≡ obj props = ground arith in rw (e, same) refl
  | inr e ↦ rw e (schema_defaults-properties schema props (rw (e, lookup) at h))
]

-- The defaults of a schema, one property at a time: a field has the default that its property
-- declares, or else, if that declares an object, the defaults found below it, when there are any.
pub schema_defaults-lookup :
    (schema props : Fields) (name : String)
    → lookup "properties" schema ≡ some (obj props)
    → is_map props ≡ true
    → lookup name (schema_defaults schema) ≡ default_at (lookup name props)
schema_defaults-lookup schema props name h u =
    rw (schema_defaults-properties schema props h) (property_defaults-lookup name props u)

-- Prepared values hold, for each field, what was submitted, or else its default; and values that a
-- schema governs have passed its validation.
pub prepare-ready :
    (validate : Fields → Fields → Option String) (entry : Option EntryForm) (values out : Fields)
    → prepare_entry_values validate entry values ≡ ready out
    → (has_form entry ≡ true)
      × ((k : String) → lookup k out ≡ or_else (lookup k values) (lookup k (entry_defaults entry)))
      × ((is_schema entry ≡ false) ⊎ (validate (schema_of entry) out ≡ none))
unfolding prepare_entry_values
prepare-ready validate entry values out h =
    let merged = merge (entry_defaults entry) values in
    let same : merged ≡ out = ground arith in
    (ground arith, λ k. rw (sym same) (lookup-merge (entry_defaults entry) values k), ground arith)
