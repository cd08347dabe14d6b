-- ===== src/Runs/Launch.antt =====
-- `StartWorkflow` of inflow/process.go. `now` is the clock, by the number of times that it was read in
-- the call, and `minted` the new UUID.
pub mod Laws
pub mod Stored
pub mod Sent
use morph_api.Prelude.{
  ℕ, ◌+◌, String, Bool, true, false, not, ◌&&◌, ◌||◌, Option, none, some, List, [], ◌∷◌, ◌==◌,
  if◌then◌else◌,
}
use morph_api.Prelude.Text.{trim_space}
use morph_api.Prelude.Decimal.{decimal}
use morph_api.Prelude.Int.{ℤ, is_positive, is_zero}
use morph_api.Json.{Value, bool, obj, strs, Fields, end, insert, merge}
use morph_api.Patch.Values.{is_blank}
use morph_api.Preferences.{EntryForm, FlowPreferences, entry_or_nil, target_path, is_filled}
use morph_api.Entry.{Prepared, no_entry, ready, refused, entry_defaults, prepare_entry_values}
use morph_api.Entry.Store.{ContextStore}
use morph_api.Entry.Seed.{SeedError, seed_entry}
use morph_api.Entry.View.{entry_values_in_context}
use morph_api.Compile.Flow.{get_start_node_id}
use morph_api.Compile.Nodes.{find, put}
use morph_api.Runs.Rows.{
  Status, scheduled, running, failed, LaunchError, no_flow_id, no_context_id, no_start_node,
  not_recorded, request_not_recorded, flow_not_loaded, entry_refused, entry_required, not_seeded,
  not_built, not_dispatched, RowError, engine_text, launch_error, ProcessRecord, ProcessStore,
}
use morph_api.Runs.Starts.{non_empty}
use morph_api.Runs.Engine.{
  RunSettings, Request, prepared, unprepared, Reply, echoed, unanswered, Engine, FlowRecord, World,
  Outcome, refuse, woken, sending,
}
use morph_api.Runs.Params.{
  StartParams, start_of_flow, starts_on, form_of, has_ids, EntryValues, submitted, or_end,
  flag_resume, kept_meta, put_missing, put_absent, instance_of, request_meta, request_of, first_of,
  new_row, failed_row, values, not_allowed,
}

module _ {P C : Type 0} (rows : ProcessStore P) (contexts : ContextStore C)
    (flows : String → Option FlowRecord) (validate : Fields → Fields → Option String)
    (engine : Engine) where
  abbrev pub or_kept : World P C → Option P → World P C
  or_kept w none = w
  or_kept w (some t) = record w { rows = t }

  -- a write whose failure is ignored
  abbrev pub try_update : World P C → ProcessRecord → World P C
  try_update w r = or_kept w (rows.update w.rows r)

  abbrev pub fail : World P C → LaunchError → ℕ → ProcessRecord → Outcome P C
  fail w e now r = record {
    world = try_update w (failed_row e now r);
    row = some (failed_row e now r);
    error = some e;
  }

  abbrev pub sync_pid : World P C → ProcessRecord → String → Outcome P C
  sync_pid w r pid =
      if pid == "" || pid == r.pid
      then record { world = w; row = some r; error = none }
      else record {
        world = try_update w (record r { pid = pid });
        row = some (record r { pid = pid });
        error = none;
      }

  abbrev pub answered : World P C → ProcessRecord → (ℕ → ℕ) → Reply → Outcome P C
  answered w r now (unanswered text) = fail w (not_dispatched text) (now 1) r
  answered w r now (echoed pid) = sync_pid w r pid

  -- A scheduled row is recorded and not sent.
  abbrev pub dispatch : World P C → StartParams → Request → ProcessRecord → (ℕ → ℕ) → Outcome P C
  dispatch w p q r now =
      if is_positive p.scheduled_at
      then record { world = woken w; row = some r; error = none }
      else answered (sending w q) r now (engine.exec q)

  abbrev pub requested :
      World P C → StartParams → Request → ProcessRecord → (ℕ → ℕ) → Option P → Outcome P C
  requested w p q r now none = record { world = w; row = some r; error = some request_not_recorded }
  requested w p q r now (some t) = dispatch (record w { rows = t }) p q r now

  abbrev pub built :
      World P C
      → StartParams
      → Request
      → ProcessRecord
      → (ℕ → ℕ)
      → morph_api.Runs.Engine.Prepared
      → Outcome P C
  built w p q r now (unprepared text) = fail w (not_built text) (now 1) r
  built w p q r now (prepared pid url stored) =
      let filled = record r { pid = pid; resource_url = url; request = stored } in
      requested w p q filled now (rows.update w.rows filled)

  -- the run with its row and its seeded context, up to its answer
  unfoldable pub send :
      World P C → StartParams → List String → ProcessRecord → String → (ℕ → ℕ) → Outcome P C
  send w p ids r minted now =
      let q = request_of p ids r.index minted in
      built w p q (record r { instance_id = instance_of p.instance_id minted }) now
        (engine.new_process q)

  abbrev pub seeded :
      World P C
      → StartParams
      → List String
      → ProcessRecord
      → String
      → (ℕ → ℕ)
      → C × Option SeedError
      → Outcome P C
  seeded w p ids r minted now (c, none) = send (record w { contexts = c }) p ids r minted now
  seeded w p ids r minted now (c, some e) =
      fail (record w { contexts = c }) (not_seeded e) (now 1) r

  abbrev pub seed_now :
      World P C
      → StartParams
      → List String
      → Option EntryForm
      → Fields
      → ProcessRecord
      → String
      → (ℕ → ℕ)
      → Outcome P C
  seed_now w p ids form entry r minted now =
      if is_zero p.scheduled_at && is_filled entry
      then seeded w p ids r minted now (seed_entry contexts w.contexts form p.context_id entry)
      else send w p ids r minted now

  abbrev pub recorded :
      World P C
      → StartParams
      → List String
      → Option EntryForm
      → Fields
      → String
      → (ℕ → ℕ)
      → Option (P × ℕ)
      → Outcome P C
  recorded w p ids form entry minted now none = refuse w not_recorded
  recorded w p ids form entry minted now (some (t, index)) =
      seed_now (record w { rows = t }) p ids form entry
        (record (new_row p ids entry (now 0)) { index = index }) minted now

  abbrev pub with_values :
      World P C
      → StartParams
      → List String
      → Option EntryForm
      → String
      → (ℕ → ℕ)
      → EntryValues
      → Outcome P C
  with_values w p ids form minted now (not_allowed e) = refuse w e
  with_values w p ids form minted now (values entry) =
      recorded w p ids form entry minted now (rows.create w.rows (new_row p ids entry (now 0)))

  -- What the context holds at the target decides before the defaults do.
  abbrev pub decide : StartParams → EntryForm → Option Fields → EntryValues
  decide p e held =
      if is_filled p.entry
      then submitted (prepare_entry_values validate (some e) p.entry)
      else if is_filled (or_end held)
      then values end
      else if e.required
      then not_allowed (entry_required p.flow_id)
      else values (entry_defaults (some e))

  abbrev pub entry_values : C → StartParams → Option EntryForm → EntryValues
  entry_values c p none = values end
  entry_values c p (some e) =
      decide p e (entry_values_in_context contexts c p.context_id (target_path (some e)))

  abbrev pub started :
      World P C
      → StartParams
      → Option FlowRecord
      → String
      → (ℕ → ℕ)
      → Option (List String)
      → Outcome P C
  started w p flow minted now none = refuse w no_start_node
  started w p flow minted now (some ids) =
      with_values w p ids (form_of p.entry_skip flow) minted now
        (entry_values w.contexts p (form_of p.entry_skip flow))

  abbrev pub with_flow :
      World P C → StartParams → String → (ℕ → ℕ) → Option FlowRecord → Outcome P C
  with_flow w p minted now none = refuse w (flow_not_loaded p.flow_id)
  with_flow w p minted now (some flow) =
      started w p (some flow) minted now (starts_on (non_empty p.start_node_ids) (some flow))

  unfoldable pub start_workflow : World P C → StartParams → String → (ℕ → ℕ) → Outcome P C
  start_workflow w p minted now =
      if is_blank p.flow_id
      then refuse w no_flow_id
      else if is_blank p.context_id
      then refuse w no_context_id
      else if has_ids (non_empty p.start_node_ids) && p.entry_skip
      then started w p none minted now (starts_on (non_empty p.start_node_ids) none)
      else with_flow w p minted now (flows p.flow_id)
