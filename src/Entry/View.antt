-- ===== src/Entry/View.antt =====
-- `ResolveEntryView` of inflow/entry.go: what a launcher shows.
pub mod Laws
use morph_api.Prelude.{
  String, Bool, true, false, not, ◌||◌, Option, none, some, ◌==◌, if◌then◌else◌,
}
use morph_api.Prelude.Text.{trim_space}
use morph_api.Json.{Value, obj, Fields, end, merge}
use morph_api.ContextPath.{value_at_context_path}
use morph_api.Preferences.{
  EntryForm, FlowPreferences, entry_or_nil, target_path, prefill_or_default, entry_target_default,
  prefill_default, prefill_live,
}
use morph_api.Entry.{entry_defaults}
use morph_api.Entry.Store.{
  ContextStore, ContextRecord, Fetched, found, not_found, failed, Body, blank, null_text, malformed,
  document,
}

pub record EntryView : Type 0 where
  pub entry : Option EntryForm
  pub target : String
  pub prefill : String
  pub values : Fields
  pub source : String

abbrev pub read_object : Option Value → Option Fields
read_object none = none
read_object (some v) = elim v [ obj m ↦ some m | _ ↦ none ]

-- Reading `null` leaves a nil document, at which no path holds anything.
abbrev pub read_body : Body → String → Option Fields
read_body blank target = read_object (value_at_context_path (some end) target)
read_body null_text target = read_object (value_at_context_path none target)
read_body (malformed text) target = none
read_body (document doc) target = read_object (value_at_context_path (some doc) target)

abbrev pub read_fetched : Fetched → String → Option Fields
read_fetched (found rec) target = read_body rec.context target
read_fetched not_found target = none
read_fetched failed target = none

module _ {S : Type 0} (store : ContextStore S) where
  unfoldable pub entry_values_in_context : S → String → String → Option Fields
  entry_values_in_context s context_id target =
      if trim_space context_id == ""
      then none
      else read_fetched (store.get_by_id s context_id) target

  abbrev pub prefilled : Option Fields → EntryView → EntryView
  prefilled none view = view
  prefilled (some held) view = record view { values = merge view.values held; source = "context" }

  -- `resolve_entry_view` of a flow whose entry form is given
  unfoldable pub view_of : S → Option EntryForm → String → EntryView
  view_of s none context_id = record {
    entry = none;
    target = entry_target_default;
    prefill = prefill_default;
    values = end;
    source = "none";
  }
  view_of s (some e) context_id =
      let view : EntryView = record {
        entry = some e;
        target = target_path (some e);
        prefill = prefill_or_default (some e);
        values = entry_defaults (some e);
        source = "default";
      } in
      if not (prefill_or_default (some e) == prefill_live) || trim_space context_id == ""
      then view
      else prefilled (entry_values_in_context s context_id (target_path (some e))) view

  unfoldable pub resolve_entry_view : S → Option FlowPreferences → String → EntryView
  resolve_entry_view s preferences context_id = view_of s (entry_or_nil preferences) context_id
