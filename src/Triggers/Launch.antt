-- ===== src/Triggers/Launch.antt =====
-- `LaunchTrigger` of inflow/trigger.go: a run of a trigger's flow, with its context.
pub mod Laws
use morph_api.Prelude.{
  ℕ, String, Bool, true, false, Option, none, some, List, [], ◌∷◌, ◌==◌, if◌then◌else◌,
}
use morph_api.Prelude.Int.{pos}
use morph_api.Json.{Fields, end, field, merge}
use morph_api.Entry.Store.{
  ContextStore, ContextRecord, LastChange, Fetched, found, not_found, failed, Body, blank,
  null_text, malformed, document,
}
use morph_api.Runs.Rows.{LaunchError, ProcessRecord, ProcessStore}
use morph_api.Runs.Engine.{RunSettings, Engine, FlowRecord, World, Outcome}
use morph_api.Runs.Launch.{start_workflow}
use morph_api.Runs.Params.{StartParams}
use morph_api.Runs.Schedule.{default_settings}
use morph_api.Triggers.{Trigger}

pub data TriggerError : Type 0 where
  no_context_selected not_loaded not_merged not_created : TriggerError
  not_started : LaunchError → TriggerError

pub data Resolved (C : Type 0) : Type 0 where
  resolved : C → String → Resolved C
  unresolved : TriggerError → Resolved C
  panicked : Resolved C

unfoldable pub trigger_run_settings : Option RunSettings → RunSettings
trigger_run_settings none = default_settings
trigger_run_settings (some s) = s

-- The document with a payload laid over it; what is no object is overwritten. A null text is decoded to a
-- nil map, which a key cannot be written to.
unfoldable pub merged : Fields → Body → Option Body
merged payload (document doc) = some (document (merge doc payload))
merged payload blank = some (document (merge end payload))
merged payload (malformed text) = some (document (merge end payload))
merged end null_text = some null_text
merged (field k v m) null_text = none

abbrev pub by_flow : LastChange
by_flow = record { by = "flow"; address = "" }

abbrev pub or_object : Option Fields → Fields
or_object none = end
or_object (some payload) = payload

-- `existing`, or a new context in any other mode
abbrev pub is_existing : Trigger → Bool
is_existing t = t.context_mode == "existing"

module _ {C : Type 0} (contexts : ContextStore C) where
  abbrev pub kept_at : String → TriggerError → Option C → Resolved C
  kept_at id e none = unresolved e
  kept_at id e (some c) = resolved c id

  abbrev pub save_merged : C → String → ContextRecord → Option Body → Resolved C
  save_merged c id r none = panicked
  save_merged c id r (some body) =
      kept_at id not_merged (contexts.upsert c (record r { context = body; updated_by = by_flow }))

  abbrev pub merge_into : C → String → Fields → Fetched → Resolved C
  merge_into c id payload (found r) = save_merged c id r (merged payload r.context)
  merge_into c id payload not_found = unresolved not_loaded
  merge_into c id payload failed = unresolved not_loaded

  abbrev pub merge_payload : C → String → Option Fields → Resolved C
  merge_payload c id none = resolved c id
  merge_payload c id (some payload) = merge_into c id payload (contexts.get_by_id c id)

  abbrev pub new_context : Trigger → String → Option Fields → String → ContextRecord
  new_context t title payload minted = record {
    id = minted;
    title = if t.context_title == "" then title else t.context_title;
    context = document (or_object payload);
    header = end;
    updated_by = by_flow;
  }

  -- `minted` is the id that the repository gives to a new context.
  unfoldable pub resolve_trigger_context :
      C → Trigger → String → Option Fields → String → Resolved C
  resolve_trigger_context c t title payload minted =
      if is_existing t
      then (if t.context_id == ""
          then unresolved no_context_selected
          else merge_payload c t.context_id payload)
      else kept_at minted not_created (contexts.upsert c (new_context t title payload minted))

unfoldable pub trigger_params : Trigger → String → StartParams
trigger_params t context_id = record {
  flow_id = t.flow_id;
  context_id = context_id;
  start_node_ids = t.start_node_id ∷ [];
  instance_id = "";
  req_meta = ("trigger", t.id) ∷ [];
  record_meta = end;
  entry = end;
  entry_skip = false;
  scheduled_at = pos 0;
  resume = none;
  settings = trigger_run_settings t.settings;
}

pub data Launched (P C : Type 0) : Type 0 where
  launched : Outcome P C → Launched P C
  not_launched : TriggerError → Launched P C
  crashed : Launched P C

module _ {P C : Type 0} (rows : ProcessStore P) (contexts : ContextStore C)
    (flows : String → Option FlowRecord) (validate : Fields → Fields → Option String)
    (engine : Engine) where
  abbrev pub start_in : World P C → Trigger → String → (ℕ → ℕ) → Resolved C → Launched P C
  start_in w t pid now panicked = crashed
  start_in w t pid now (unresolved e) = not_launched e
  start_in w t pid now (resolved c id) = launched (
      start_workflow rows contexts flows validate engine (record w { contexts = c })
        (trigger_params t id) pid now)

  unfoldable pub launch_trigger :
      World P C → Trigger → String → Option Fields → String → String → (ℕ → ℕ) → Launched P C
  launch_trigger w t title payload minted pid now =
      start_in w t pid now (resolve_trigger_context contexts w.contexts t title payload minted)
