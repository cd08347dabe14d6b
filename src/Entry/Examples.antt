-- ===== src/Entry/Examples.antt =====
-- The theorems on entry forms, over a store of one row.
use morph_api.Prelude.{
  String, true, inl, ◌≢◌, arith, eq_iff, Option, none, some, List, [], ◌∷◌, ◌≡◌, refl,
}
use morph_api.Prelude.Text.{trim_space, trim, trim_left, trim_right, is_space}
use morph_api.Json.{num, str, obj, Fields, end, field, lookup, insert, merge}
use morph_api.Json.Laws.{or_else}
use morph_api.ContextPath.{ok, parse_context_path, value_at_context_path}
use morph_api.ContextPath.Parse.{parse_entry, parse_other}
use morph_api.ContextPath.Write.{set_at-member}
use morph_api.Preferences.{
  EntryForm, FlowPreferences, has_form, target_path, prefill_or_default, is_filled, entry_or_nil,
  is_schema, is_schema_document,
}
use morph_api.Entry.{entry_defaults, prepare_entry_values, ready}
use morph_api.Entry.Store.{ContextRecord, Body, malformed, document, rows_store, find_row}
use morph_api.Entry.Seed.{Process, seed_entry, load, not_an_object}
use morph_api.Entry.Seed.Laws.{document_of, seed_entry-written}
use morph_api.Entry.View.{resolve_entry_view}
use morph_api.Entry.View.Laws.{seed_entry-resolve}

abbrev order : EntryForm
order = record {
  title = "Order";
  description = "";
  schema = field "amount" (num "1") (field "note" (str "") end);
  target = "";
  prefill = "live";
  required = true;
}

abbrev row_of : Body → ContextRecord
row_of b = record {
  id = "c1";
  title = "";
  context = b;
  header = end;
  updated_by = record { by = "user"; address = "" };
}

abbrev holding : List ContextRecord
holding = row_of (document (field "other" (num "7") end)) ∷ []

abbrev unreadable : List ContextRecord
unreadable = row_of (malformed "[1]") ∷ []

abbrev submitted : Fields
submitted = field "amount" (num "5") end

refuses :
    (seed_entry rows_store unreadable (some order) " c1 " submitted).1 ≡ some (not_an_object "c1")
unfolding seed_entry rows_store find_row load has_form is_filled trim_space trim trim_left
    trim_right is_space
refuses = refl

abbrev firing : Process
firing = record { flow_id = "f1"; context_id = "c1"; meta = field "entry" (obj submitted) end }

abbrev flows : String → Option (Option FlowPreferences)
flows id = some (some (record { entry = some order }))

default_target : target_path (some order) ≡ "$._entry"
unfolding target_path trim_space trim trim_left trim_right
default_target = refl

target_parses : parse_context_path (target_path (some order)) ≡ ok ("_entry" ∷ [])
target_parses = rw default_target parse_entry

succeeds : (seed_entry rows_store holding (some order) "c1" submitted).1 ≡ none
unfolding seed_entry rows_store find_row load has_form is_filled trim_space trim trim_left
    trim_right is_space
succeeds =
    rw
      (set_at-member (field "other" (num "7") end) (target_path (some order)) (obj submitted)
        "_entry" target_parses)
      refl

abbrev seeded_key : String
seeded_key = "_entry"

entry_ne_other : seeded_key ≢ "other"
entry_ne_other e = ground (arith, e, eq_iff seeded_key "other")

seed_entry-written_example :
    let t = (seed_entry rows_store holding (some order) "c1" submitted).0 in
    (doc : Fields) × (doc' : Fields) × (document_of (rows_store.get_by_id holding (trim_space "c1"))
      ≡ some doc)
    × (document_of (rows_store.get_by_id t (trim_space "c1")) ≡ some doc')
    × (value_at_context_path (some doc') (target_path (some order)) ≡ some (obj submitted))
    × (value_at_context_path (some doc') "other" ≡ value_at_context_path (some doc) "other")
unfolding has_form is_filled
seed_entry-written_example =
    seed_entry-written rows_store holding (some order) "c1" submitted "_entry" [] "other"
      ("other" ∷ []) refl refl target_parses parse_other (inl entry_ne_other) succeeds

seed_entry-resolve_example :
    let p : Option FlowPreferences = some (record { entry = some order }) in
    let view =
      resolve_entry_view rows_store
        (seed_entry rows_store holding (some order) "c1" submitted).0
        p
        "c1" in
    (view.source ≡ "context")
    × ((k : String)
        → lookup k view.values
          ≡ or_else (lookup k submitted) (lookup k (entry_defaults (some order))))
unfolding has_form is_filled entry_or_nil prefill_or_default trim_space trim trim_left trim_right
    is_space
seed_entry-resolve_example =
    seed_entry-resolve rows_store holding (some (record { entry = some order })) order "c1"
      submitted "_entry" [] refl refl refl refl target_parses refl refl succeeds

abbrev fields_of : Fields
fields_of = field "amount" (obj (field "default" (num "1") end)) (
    field "address"
      (obj
        (field "properties" (obj (field "city" (obj (field "default" (str "Rome") end)) end)) end))
      end)

abbrev schema : Fields
schema = field "type" (str "object") (field "properties" (obj fields_of) end)

abbrev accept_all : Fields → Fields → Option String
accept_all s v = none

abbrev merged : Fields
merged = field "note" (str "") (field "amount" (num "5") end)

prepares : prepare_entry_values accept_all (some order) submitted ≡ ready merged
unfolding prepare_entry_values has_form is_filled is_schema is_schema_document entry_defaults merge
    insert lookup
prepares = refl
