-- ===== src/Preferences.antt =====
-- models/flow_preferences.go: the entry form that a flow declares, and its defaults.
pub mod Laws
mod Examples
use morph_api.Prelude.{String, Bool, true, false, not, Option, none, some, ◌==◌, if◌then◌else◌}
use morph_api.Prelude.Text.{trim_space}
use morph_api.Json.{Value, obj, Fields, end, field, lookup}

abbrev pub entry_target_default : String
entry_target_default = "$._entry"

-- `PrefillMode` is a text in the source, of which two are named.
abbrev pub prefill_default : String
prefill_default = "default"

abbrev pub prefill_live : String
prefill_live = "live"

-- The form's schema only: its UI schema is not read here.
pub record EntryForm : Type 0 where
  pub title : String
  pub description : String
  pub schema : Fields
  pub target : String
  pub prefill : String
  pub required : Bool

pub record FlowPreferences : Type 0 where
  pub entry : Option EntryForm

-- whether `len(m) > 0`
unfoldable pub is_filled : Fields → Bool
is_filled end = false
is_filled (field k v m) = true

-- The methods are safe on nil, which is `none`.
unfoldable pub has_form : Option EntryForm → Bool
has_form none = false
has_form (some e) = is_filled e.schema

unfoldable pub entry_or_nil : Option FlowPreferences → Option EntryForm
entry_or_nil none = none
entry_or_nil (some p) = if has_form p.entry then p.entry else none

unfoldable pub target_path : Option EntryForm → String
target_path none = entry_target_default
target_path (some e) = let t = trim_space e.target in if t == "" then entry_target_default else t

unfoldable pub prefill_or_default : Option EntryForm → String
prefill_or_default none = prefill_default
prefill_or_default (some e) = if e.prefill == prefill_live then prefill_live else prefill_default

-- what `Normalize` does to an entry that has a form
unfoldable pub normalize_entry : EntryForm → EntryForm
normalize_entry e =
    let target = trim_space e.target in
    record e {
      title = trim_space e.title;
      description = trim_space e.description;
      target = if target == entry_target_default then "" else target;
      prefill = if e.prefill == prefill_live then e.prefill else "";
    }

abbrev normalize_some : Option EntryForm → Option EntryForm
normalize_some none = none
normalize_some (some e) = some (normalize_entry e)

-- The receiver is changed in place in the source and returned.
unfoldable pub normalize : Option FlowPreferences → Option FlowPreferences
normalize none = none
normalize (some p) =
    some (record { entry = if has_form p.entry then normalize_some p.entry else none })

unfoldable pub is_unset : Option FlowPreferences → Bool
is_unset none = true
is_unset (some p) = elim p.entry [ none ↦ true | some e ↦ false ]

unfoldable pub is_schema_document : Fields → Bool
is_schema_document doc = if not (is_filled doc) then false else elim (lookup "$schema" doc) [
  | some v ↦ true
  | none ↦ elim (lookup "properties" doc) [
    | none ↦ false
    | some v ↦ elim v [ obj props ↦ is_filled props | _ ↦ false ]
  ]
]

unfoldable pub is_schema : Option EntryForm → Bool
is_schema none = false
is_schema (some e) = is_schema_document e.schema
