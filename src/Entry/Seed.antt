-- ===== src/Entry/Seed.antt =====
-- `SeedEntry` of inflow/entry.go: the values of a launch are written to the context document.
pub mod Laws
pub mod Scheduled
use morph_api.Prelude.{
  String, Bool, true, false, not, ◌||◌, Option, none, some, ◌==◌, if◌then◌else◌,
}
use morph_api.Prelude.Text.{trim_space}
use morph_api.Json.{Value, obj, Fields, end}
use morph_api.ContextPath.{PathError, set_at}
use morph_api.Patch.Values.{get}
use morph_api.Preferences.{
  EntryForm, FlowPreferences, entry_or_nil, has_form, target_path, is_filled,
}
use morph_api.Entry.Store.{
  ContextStore, ContextRecord, Fetched, found, not_found, failed, Body, blank, null_text, malformed,
  document,
}

pub data SeedError : Type 0 where
  no_context : SeedError
  load_failed : (id : String) → SeedError
  not_an_object : (id : String) → SeedError
  not_written : PathError → SeedError
  save_failed : (id : String) → SeedError
  flow_not_loaded : (id : String) → SeedError

pub data Loaded : Type 0 where
  loaded : ContextRecord → Fields → Loaded
  refused : SeedError → Loaded

abbrev pub blank_record : String → ContextRecord
blank_record id = record {
  id = id;
  title = "";
  context = blank;
  header = end;
  updated_by = record { by = ""; address = "" };
}

abbrev pub decode : String → ContextRecord → Body → Loaded
decode id rec blank = loaded rec end
decode id rec null_text = loaded rec end
decode id rec (malformed text) = refused (not_an_object id)
decode id rec (document doc) = loaded rec doc

-- the row and its document, a new one where there is none
unfoldable pub load : String → Fetched → Loaded
load id (found rec) = decode id rec rec.context
load id not_found = loaded (blank_record id) end
load id failed = refused (load_failed id)

module _ {S : Type 0} (store : ContextStore S) where
  abbrev pub saved_as : S → String → Option S → S × Option SeedError
  saved_as s id none = (s, some (save_failed id))
  saved_as s id (some t) = (t, none)

  abbrev pub save_written :
      S → String → ContextRecord → Fields → Option PathError → S × Option SeedError
  save_written s id rec doc (some p) = (s, some (not_written p))
  save_written s id rec doc none = saved_as s id (
      store.upsert s (record rec {
        context = document doc;
        updated_by = record { by = "flow"; address = "entry" };
      }))

  abbrev pub write_loaded : String → String → Value → S → Loaded → S × Option SeedError
  write_loaded id target v s (refused e) = (s, some e)
  write_loaded id target v s (loaded rec doc) =
      save_written s id rec (set_at doc target v).0 (set_at doc target v).1

  unfoldable pub seed_entry : S → Option EntryForm → String → Fields → S × Option SeedError
  seed_entry s entry context_id values =
      let id = trim_space context_id in
      if not (has_form entry) || not (is_filled values)
      then (s, none)
      else if id == ""
      then (s, some no_context)
      else write_loaded id (target_path entry) (obj values) s (load id (store.get_by_id s id))

-- The fields of a scheduled `Process` that are read here.
pub record Process : Type 0 where
  pub flow_id : String
  pub context_id : String
  pub meta : Fields

-- the values that were kept under the meta key `entry`, none where there are none to seed
abbrev pub kept_values : Fields → Option Fields
kept_values meta = elim (get "entry" meta) [
  | obj values ↦ if is_filled values then some values else none
  | _ ↦ none
]

-- `flows` answers the preferences of a flow, `none` when the flow cannot be loaded.
module _ {S : Type 0} (store : ContextStore S)
    (flows : String → Option (Option FlowPreferences)) where
  -- A flow that has dropped its form is not seeded.
  abbrev pub seed_form : S → Process → Fields → Option EntryForm → S × Option SeedError
  seed_form s rec values none = (s, none)
  seed_form s rec values (some e) = seed_entry store s (some e) rec.context_id values

  abbrev pub seed_flow :
      S → Process → Fields → Option (Option FlowPreferences) → S × Option SeedError
  seed_flow s rec values none = (s, some (flow_not_loaded rec.flow_id))
  seed_flow s rec values (some preferences) = seed_form s rec values (entry_or_nil preferences)

  unfoldable pub seed_scheduled_entry : S → Process → S × Option SeedError
  seed_scheduled_entry s rec = elim (kept_values rec.meta) [
    | none ↦ (s, none)
    | some values ↦ seed_flow s rec values (flows rec.flow_id)
  ]
