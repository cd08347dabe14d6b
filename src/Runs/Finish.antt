-- ===== src/Runs/Finish.antt =====
-- `handleProcFinish` of inflow/events.go: an event of the engine closes the row of a run.
pub mod Laws
use morph_api.Prelude.{ℕ, String, Option, none, some, eqb, if◌then◌else◌}
use morph_api.Runs.Rows.{engine_text, ProcessRecord, ProcessStore}
use morph_api.Runs.Engine.{Engine, World}
use morph_api.Runs.Stop.{finish_status, resolve_finished_record}

-- `ProcFinish`, as inflow-fusion reads it off the event
pub record ProcFinish : Type 0 where
  pub pid : String
  pub status : String
  pub ts : ℕ
  pub duration : ℕ
  pub error : String

abbrev pub finished_row : Engine → ProcFinish → ℕ → ProcessRecord → ProcessRecord
finished_row engine f now r = record r {
  status = finish_status engine f.status;
  finished_at = if eqb f.ts 0 then now else f.ts;
  duration = f.duration;
  error = engine_text f.error;
}

module _ {P C : Type 0} (rows : ProcessStore P) (engine : Engine) where
  abbrev pub write_finished : World P C → Option P → World P C
  write_finished w none = w
  write_finished w (some t) = record w { rows = t }

  abbrev pub finish_found : World P C → ProcFinish → ℕ → Option ProcessRecord → World P C
  finish_found w f now none = w
  finish_found w f now (some r) =
      write_finished w (rows.update w.rows (finished_row engine f now r))

  unfoldable pub handle_proc_finish : World P C → Option ℕ → ProcFinish → ℕ → World P C
  handle_proc_finish w index f now =
      finish_found w f now (resolve_finished_record rows w.rows index f.pid)
