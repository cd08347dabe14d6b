-- ===== src/Runs/Schedule.antt =====
-- inflow/scheduler.go: the rows whose time has come are sent. `clock` is the clock when a row is claimed
-- and when it fails.
pub mod Laws
use morph_api.Prelude.{
  ℕ, ◌+◌, String, Bool, true, false, not, ◌&&◌, ◌||◌, Option, none, some, List, [], ◌∷◌, ◌==◌,
  if◌then◌else◌,
}
use morph_api.Json.{Value, str, obj, Fields, end, field}
use morph_api.Patch.Values.{get, as_str}
use morph_api.Preferences.{FlowPreferences}
use morph_api.Entry.Store.{ContextStore}
use morph_api.Entry.Seed.{Process, SeedError, seed_scheduled_entry}
use morph_api.Compile.Nodes.{put}
use morph_api.Runs.Rows.{
  Status, scheduled, running, failed, LaunchError, not_claimed, not_seeded, not_built,
  not_dispatched, launch_not_recorded, launch_error, ProcessRecord, ProcessStore,
}
use morph_api.Runs.Starts.{start_nodes_for, load_resume_snapshot}
use morph_api.Runs.Engine.{
  RunSettings, Request, Prepared, prepared, unprepared, Reply, echoed, unanswered, Engine,
  FlowRecord, World, sending,
}
use morph_api.Runs.Params.{failed_row}

pub record Launched (P C : Type 0) : Type 0 where
  pub world : World P C
  pub row : ProcessRecord
  pub error : Option LaunchError

-- the texts of the meta that was recorded with the request
unfoldable pub carried : Fields → List (String × String)
carried end = []
carried (field k (str s) m) = put k s (carried m)
carried (field k _ m) = carried m

abbrev pub carried_meta : Value → List (String × String)
carried_meta (obj m) = carried m
carried_meta _ = []

abbrev pub default_settings : RunSettings
default_settings = record {
  execute_timeout = 0;
  node_limit = 0;
  request_timeout = 0;
  stop_on_error = false;
}

abbrev pub seed_process : ProcessRecord → Process
seed_process r = record { flow_id = r.flow_id; context_id = r.context_id; meta = r.meta }

abbrev pub preferences_of : Option FlowRecord → Option (Option FlowPreferences)
preferences_of none = none
preferences_of (some f) = some f.preferences

abbrev pub claimed_row : ℕ → ProcessRecord → ProcessRecord
claimed_row now r = record r { status = running; started_at = now }

abbrev pub echo_pid : String → ProcessRecord → ProcessRecord
echo_pid pid r = if pid == "" || pid == r.pid then r else record r { pid = pid }

module _ {P C : Type 0} (rows : ProcessStore P) (contexts : ContextStore C)
    (flows : String → Option FlowRecord) (decode : Fields → Option Fields) (engine : Engine) where
  -- a continuation resumes from the snapshot of the run that parked
  unfoldable pub launch_request : P → ProcessRecord → Request
  launch_request s r = record {
    start_nodes = start_nodes_for r;
    flow_id = r.flow_id;
    context_id = r.context_id;
    meta = carried_meta (get "meta" r.request);
    pid = r.pid;
    resume = load_resume_snapshot rows decode s (as_str (get "sourcePid" r.meta));
    settings = default_settings;
  }

  abbrev pub launch_written : World P C → ProcessRecord → Option P → Launched P C
  launch_written w r none = record { world = w; row = r; error = some launch_not_recorded }
  launch_written w r (some t) = record { world = record w { rows = t }; row = r; error = none }

  abbrev pub launch_answered : World P C → ProcessRecord → Reply → Launched P C
  launch_answered w r (unanswered text) = record {
    world = w;
    row = r;
    error = some (not_dispatched text);
  }
  launch_answered w r (echoed pid) =
      launch_written w (echo_pid pid r) (rows.update w.rows (echo_pid pid r))

  abbrev pub launch_built : World P C → Request → ProcessRecord → Prepared → Launched P C
  launch_built w q r (unprepared text) = record {
    world = w;
    row = r;
    error = some (not_built text);
  }
  launch_built w q r (prepared pid url stored) =
      launch_answered (sending w q) (record r { resource_url = url; request = stored })
        (engine.exec q)

  abbrev pub launch_seeded : World P C → ProcessRecord → C × Option SeedError → Launched P C
  launch_seeded w r (c, some e) = record {
    world = record w { contexts = c };
    row = r;
    error = some (not_seeded e);
  }
  launch_seeded w r (c, none) =
      launch_built (record w { contexts = c }) (launch_request w.rows r) r
        (engine.new_process (launch_request w.rows r))

  -- The row is claimed before anything else is done for it.
  abbrev pub launch_claimed : World P C → ProcessRecord → Option P → Launched P C
  launch_claimed w r none = record { world = w; row = r; error = some not_claimed }
  launch_claimed w r (some t) =
      launch_seeded (record w { rows = t }) r
        (seed_scheduled_entry contexts (λ id. preferences_of (flows id)) w.contexts
          (seed_process r))

  unfoldable pub launch : World P C → ProcessRecord → ℕ → Launched P C
  launch w r now = launch_claimed w (claimed_row now r) (rows.update w.rows (claimed_row now r))

  abbrev pub or_kept : World P C → Option P → World P C
  or_kept w none = w
  or_kept w (some t) = record w { rows = t }

  -- a row whose launch failed is marked, so that it is not taken again
  abbrev pub mark : Launched P C → Option LaunchError → ℕ → World P C
  mark o none now = o.world
  mark o (some e) now = or_kept o.world (rows.update o.world.rows (failed_row e now o.row))

  unfoldable pub dispatch_one : World P C → ProcessRecord → ℕ → ℕ → World P C
  dispatch_one w r claimed_at failed_at =
      mark (launch w r claimed_at) (launch w r claimed_at).error failed_at

  unfoldable pub dispatch_all : World P C → List ProcessRecord → (ℕ → ℕ × ℕ) → ℕ → World P C
  dispatch_all w [] clock n = w
  dispatch_all w (r ∷ rs) clock n =
      dispatch_all (dispatch_one w r (clock n).0 (clock n).1) rs clock (n + 1)

  abbrev pub dispatch_listed : World P C → (ℕ → ℕ × ℕ) → Option (List ProcessRecord) → World P C
  dispatch_listed w clock none = w
  dispatch_listed w clock (some rs) = dispatch_all w rs clock 0

  unfoldable pub dispatch_due : World P C → ℕ → (ℕ → ℕ × ℕ) → World P C
  dispatch_due w now clock = dispatch_listed w clock (rows.list_due w.rows now)
