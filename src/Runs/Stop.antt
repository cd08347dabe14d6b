-- ===== src/Runs/Stop.antt =====
-- `StopWorkflow` of inflow/process.go, and the closing of a run by the engine's event in
-- inflow/events.go.
pub mod Endings
pub mod Laws
use morph_api.Prelude.{
  ℕ, String, Bool, true, false, ◌||◌, Option, none, some, List, ◌∷◌, ◌==◌, eqb, ltb, if◌then◌else◌,
}
use morph_api.Runs.Rows.{
  Status, scheduled, running, waiting, finished, stopped, failed, RowError, engine_text,
  ProcessRecord, ProcessStore,
}
use morph_api.Runs.Engine.{
  Engine, Stopping, halted, accepted, unhalted, Traced, trace_failed, no_trace, trace, World, woken,
}

pub data StopError : Type 0 where
  no_row no_pid not_recorded : StopError
  not_stopped : (text : String) → StopError
  still_running : (text : String) → StopError

pub record Stopped (P C : Type 0) : Type 0 where
  pub world : World P C
  pub row : Option ProcessRecord
  pub error : Option StopError

-- the engine's word for the end of a run
unfoldable pub finish_status : Engine → String → Status
finish_status engine status =
    if status == engine.finish_completed
    then finished
    else if status == engine.finish_stopped
    then stopped
    else if status == engine.finish_failed
    then failed
    else finished

abbrev pub stopped_row : ℕ → ProcessRecord → ProcessRecord
stopped_row now r = record r { status = stopped; finished_at = now }

abbrev pub traced_row : Status → ℕ → ℕ → ProcessRecord → ProcessRecord
traced_row status finish_at duration r = record r {
  status = status;
  finished_at = finish_at;
  duration = duration;
}

module _ {P C : Type 0} (rows : ProcessStore P) (engine : Engine) where
  abbrev pub closed : World P C → ProcessRecord → Option P → Stopped P C
  closed w r none = record { world = w; row = some r; error = some not_recorded }
  closed w r (some t) = record { world = record w { rows = t }; row = some r; error = none }

  -- the row written as it is to be
  abbrev pub close : World P C → ProcessRecord → Stopped P C
  close w r = closed w r (rows.update w.rows r)

  -- a cancelled row may have been the one that the scheduler waits for
  abbrev pub cancelled : World P C → ProcessRecord → Option P → Stopped P C
  cancelled w r none = record { world = w; row = some r; error = some not_recorded }
  cancelled w r (some t) = record {
    world = woken (record w { rows = t });
    row = some r;
    error = none;
  }

  abbrev pub unstopped : World P C → ProcessRecord → StopError → Stopped P C
  unstopped w r e = record { world = w; row = some r; error = some e }

  -- The engine does not know the pid: the trace of the run decides.
  abbrev pub by_trace : World P C → ProcessRecord → ℕ → String → Traced → Stopped P C
  by_trace w r now text trace_failed = unstopped w r (not_stopped text)
  by_trace w r now text no_trace = close w (stopped_row now r)
  by_trace w r now text (trace finish_at status duration) =
      if ltb 0 finish_at
      then close w (traced_row (finish_status engine status) finish_at duration r)
      else unstopped w r (still_running text)

  abbrev pub by_answer : World P C → ProcessRecord → ℕ → Stopping → Stopped P C
  by_answer w r now halted = close w (stopped_row now r)
  by_answer w r now accepted = close w (stopped_row now r)
  by_answer w r now (unhalted text) = by_trace w r now text (engine.fetch_trace r.pid)

  abbrev pub stop_live : World P C → ProcessRecord → ℕ → Stopped P C
  stop_live w r now =
      if r.pid == ""
      then unstopped w r no_pid
      else by_answer (record w { stops = r.pid ∷ w.stops }) r now
          (engine.stop_process r.pid r.resource_url)

  abbrev pub by_status : World P C → ProcessRecord → ℕ → Status → Stopped P C
  by_status w r now finished = record { world = w; row = some r; error = none }
  by_status w r now stopped = record { world = w; row = some r; error = none }
  by_status w r now failed = record { world = w; row = some r; error = none }
  by_status w r now scheduled =
      cancelled w (stopped_row now r) (rows.update w.rows (stopped_row now r))
  by_status w r now running = stop_live w r now
  by_status w r now waiting = stop_live w r now

  abbrev pub stop_found : World P C → ℕ → Option ProcessRecord → Stopped P C
  stop_found w now none = record { world = w; row = none; error = some no_row }
  stop_found w now (some r) = by_status w r now r.status

  unfoldable pub stop_workflow : World P C → ℕ → ℕ → Stopped P C
  stop_workflow w index now = stop_found w now (rows.get_by_index w.rows index)

module _ {P : Type 0} (rows : ProcessStore P) where
  abbrev pub or_running : P → String → Option ProcessRecord → Option ProcessRecord
  or_running s pid (some r) = some r
  or_running s pid none = rows.running_by_pid s pid

  -- The row that an event closes; `index` is the header of the event as a number, when it is one.
  unfoldable pub resolve_finished_record : P → Option ℕ → String → Option ProcessRecord
  resolve_finished_record s none pid = rows.running_by_pid s pid
  resolve_finished_record s (some index) pid = or_running s pid (rows.get_by_index s index)
