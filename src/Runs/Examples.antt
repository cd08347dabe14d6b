-- ===== src/Runs/Examples.antt =====
-- The theorems on runs, over lists of rows and of contexts and an engine that takes what it is sent.
use morph_api.Prelude.{ℕ, String, ◌≡◌, refl, true, false, Option, none, some, List, [], ◌∷◌, All}
use morph_api.Prelude.Int.{ℤ, pos}
use morph_api.Json.{Value, null, Fields, end}
use morph_api.Entry.Store.{ContextRecord, rows_store}
use morph_api.Runs.Rows.{Status, scheduled, running, engine_text, ProcessRecord}
use morph_api.Runs.Rows.Memory.{list_store, row_at, rows_where, next_index}
use morph_api.Runs.Starts.{Next, non_empty, next_ids, next_node_ids}
use morph_api.Prelude.Text.{trim_space}
use morph_api.Runs.Engine.{prepared, echoed, unhalted, no_trace, Engine, FlowRecord, World}
use morph_api.Runs.Launch.{send, start_workflow}
use morph_api.Runs.Params.{StartParams, new_row}
use morph_api.Runs.Launch.Laws.{launch}
use morph_api.Runs.Launch.Stored.{Reliable, Settled, start_workflow-Settled}
use morph_api.Runs.Launch.Sent.{Sends, start_workflow-Sends}
use morph_api.Runs.Schedule.{default_settings, dispatch_due}
use morph_api.Runs.Schedule.Laws.{Kept, IsTaken, dispatch_due-takes}
use morph_api.Runs.Stop.{stop_workflow}
use morph_api.Runs.Stop.Endings.{Closes, Ended}
use morph_api.Runs.Stop.Laws.{stop_workflow-Halts}
use morph_api.Runs.Finish.{ProcFinish, handle_proc_finish}
use morph_api.Runs.Finish.Laws.{Told, handle_proc_finish-row}
use morph_api.Runs.Resume.{
  ContinuePayload, Headers, ExtNode, StopHere, ParkedTask, handle_continue_after, continue_params,
  scheduled_time,
}
use morph_api.Runs.Resume.Laws.{resume, continue, Waits, handle_continue_after-Waits}

abbrev engine : Engine
engine = record {
  new_process = λ q. prepared q.pid "nats://engine" end;
  exec = λ q. echoed q.pid;
  stop_process = λ pid url. unhalted "not found";
  fetch_trace = λ pid. no_trace;
  finish_completed = "completed";
  finish_stopped = "stopped";
  finish_failed = "failed";
}

abbrev flows : String → Option FlowRecord
flows id = none

abbrev validate : Fields → Fields → Option String
validate schema vs = none

abbrev decode : Fields → Option Fields
decode m = some m

abbrev encode_nexts : List Next → Value
encode_nexts ns = null

abbrev encode_time : ℤ → Value
encode_time t = null

abbrev row : ℕ → String → Status → ProcessRecord
row i pid status = record {
  index = i;
  pid = pid;
  instance_id = pid;
  flow_id = "f";
  context_id = "c";
  start_node_id = "n";
  status = status;
  resource_url = "nats://engine";
  request = end;
  meta = end;
  snapshot = end;
  error = engine_text "";
  scheduled_at = pos 50;
  started_at = 0;
  finished_at = 0;
  duration = 0;
}

abbrev Contexts : Type 0
Contexts = List ContextRecord

abbrev world : World (List ProcessRecord) Contexts
world = record {
  rows = row 2 "p2" scheduled ∷ row 1 "p1" running ∷ [];
  contexts = [];
  sent = [];
  stops = [];
  wakes = 0;
}

abbrev clock : ℕ → ℕ
clock n = 100

abbrev params : StartParams
params = record {
  flow_id = "f";
  context_id = "c";
  start_node_ids = "n" ∷ "m" ∷ [];
  instance_id = "";
  req_meta = [];
  record_meta = end;
  entry = end;
  entry_skip = true;
  scheduled_at = pos 0;
  resume = none;
  settings = default_settings;
}

sure : Reliable list_store
unfolding list_store
sure s r e = cc e

start_workflow-Settled_example :
    Settled list_store rows_store flows validate engine sure params
      (launch list_store rows_store flows validate engine world params "p3" clock)
start_workflow-Settled_example =
    start_workflow-Settled list_store rows_store flows validate engine sure world params "p3" clock

start_workflow-Sends_example :
    Sends list_store rows_store flows validate engine "p3" world.sent params
      (launch list_store rows_store flows validate engine world params "p3" clock)
start_workflow-Sends_example =
    start_workflow-Sends list_store rows_store flows validate engine "p3" world params clock

stop_workflow-Halts_example :
    let o = stop_workflow list_store engine world 1 100 in
    (old : ProcessRecord) × (r : ProcessRecord) × (list_store.get_by_index world.rows 1 ≡ some old)
    × (o.row ≡ some r)
    × Ended r.status
    × (list_store.get_by_index o.world.rows 1 ≡ some r)
    × Closes engine 100 world o.world old r
unfolding stop_workflow list_store row_at
stop_workflow-Halts_example = stop_workflow-Halts list_store engine world 1 100 refl

abbrev event : ProcFinish
event = record { pid = "p1"; status = "completed"; ts = 90; duration = 7; error = "" }

handle_proc_finish-row_example :
    Told engine event 100 1
      (list_store.running_by_pid world.rows "p1")
      (list_store.get_by_index world.rows 1)
      (list_store.get_by_index (handle_proc_finish list_store engine world none event 100).rows 1)
handle_proc_finish-row_example = handle_proc_finish-row list_store engine sure world event 100 1

abbrev pair_clock : ℕ → ℕ × ℕ
pair_clock n = (100, 101)

dispatch_due-takes_example :
    All
      (λ r.
        Kept list_store rows_store flows decode engine sure IsTaken
          (dispatch_due list_store rows_store flows decode engine world 60 pair_clock).rows
          r.index)
      (row 2 "p2" scheduled ∷ [])
unfolding list_store rows_where row_at
dispatch_due-takes_example =
    dispatch_due-takes list_store rows_store flows decode engine sure world 60 pair_clock
      (row 2 "p2" scheduled ∷ []) refl

abbrev task : ParkedTask
task = record {
  id = "t";
  continues = false;
  nexts = record { node_id = "a"; tags = [] } ∷ record { node_id = "b"; tags = [] } ∷ [];
  flow_id = "f";
  context_id = "c";
  node_id = "h";
  pid = "p1";
  instance_id = "p1";
}

abbrev headers : Headers
headers = record { flow_id = "f"; context_id = "c"; pid = "p1"; instance_id = "" }

abbrev wait_five : ContinuePayload
wait_five = record { mode = "seconds"; continue_at = pos 0; delay_seconds = pos 5 }

abbrev until_node : Option ExtNode
until_node = some (record { id = "u"; nexts = record { node_id = "a"; tags = [] } ∷ [] })

abbrev answer : StopHere
answer = record { index = 3; status = scheduled; scheduled_at = pos 5100 }

handle_continue_after-Waits_example :
    Waits encode_nexts encode_time list_store rows_store flows validate decode engine world
      (continue encode_nexts encode_time list_store rows_store flows validate decode engine world
        headers wait_five until_node "p5" clock).0
      answer
unfolding scheduled_time handle_continue_after trim_space start_workflow continue_params non_empty
    next_node_ids next_ids list_store send new_row rows_store next_index
handle_continue_after-Waits_example =
    handle_continue_after-Waits encode_nexts encode_time list_store rows_store flows validate decode
      engine sure world headers wait_five until_node "p5" clock answer refl refl
