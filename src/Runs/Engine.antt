-- ===== src/Runs/Engine.antt =====
-- What a launch asks of the engine of inflow-fusion, and what the launches of this program change.
use morph_api.Prelude.{ℕ, ◌+◌, String, Bool, Option, none, some, List, ◌∷◌}
use morph_api.Json.{Fields}
use morph_api.Graph.{Node}
use morph_api.Preferences.{FlowPreferences}
use morph_api.Runs.Rows.{ProcessRecord, LaunchError}

-- The caller's settings of a run, where zero leaves the engine's default.
pub record RunSettings : Type 0 where
  pub execute_timeout : ℕ
  pub node_limit : ℕ
  pub request_timeout : ℕ
  pub stop_on_error : Bool

-- The options that a process request is built with.
pub record Request : Type 0 where
  pub start_nodes : List String
  pub flow_id : String
  pub context_id : String
  pub meta : List (String × String)
  pub pid : String
  pub resume : Option Fields
  pub settings : RunSettings

-- `fuse.NewProcess`: the request with its resource, or the text of the failure. `stored` is the
-- request as it is kept on the row, by way of its JSON.
pub data Prepared : Type 0 where
  prepared : (pid : String) → (resource_url : String) → (stored : Fields) → Prepared
  unprepared : (text : String) → Prepared

-- `Exec`: the pid that the engine echoes, empty when it echoes none, or the text of the failure.
pub data Reply : Type 0 where
  echoed : (pid : String) → Reply
  unanswered : (text : String) → Reply

-- `fuse.StopProcess`; `accepted` is the decoding error of an answer without a pid.
pub data Stopping : Type 0 where
  halted : Stopping
  accepted : Stopping
  unhalted : (text : String) → Stopping

-- `fetchInfraTrace`
pub data Traced : Type 0 where
  trace_failed : Traced
  no_trace : Traced
  trace : (finish_at : ℕ) → (status : String) → (duration : ℕ) → Traced

pub record Engine : Type 0 where
  pub new_process : Request → Prepared
  pub exec : Request → Reply
  pub stop_process : (pid : String) → (resource_url : String) → Stopping
  pub fetch_trace : (pid : String) → Traced
  pub finish_completed : String
  pub finish_stopped : String
  pub finish_failed : String

-- The parts of a flow's record that a launch reads.
pub record FlowRecord : Type 0 where
  pub nodes : List Node
  pub preferences : Option FlowPreferences

-- The stores, the requests that were sent to the engine and the pids that it was asked to stop, the
-- last first, and how often the scheduler was woken.
pub record World (P C : Type 0) : Type 0 where
  pub rows : P
  pub contexts : C
  pub sent : List Request
  pub stops : List String
  pub wakes : ℕ

-- what an operation on runs comes to: the row that it returns, and its error
pub record Outcome (P C : Type 0) : Type 0 where
  pub world : World P C
  pub row : Option ProcessRecord
  pub error : Option LaunchError

abbrev pub refuse : {P C : Type 0} → World P C → LaunchError → Outcome P C
refuse w e = record { world = w; row = none; error = some e }

abbrev pub woken : {P C : Type 0} → World P C → World P C
woken w = record w { wakes = w.wakes + 1 }

abbrev pub sending : {P C : Type 0} → World P C → Request → World P C
sending w q = record w { sent = q ∷ w.sent }
