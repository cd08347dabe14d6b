-- ===== src/Runs/Resume.antt =====
-- The two ways in which a parked flow goes on: inflow/continue.go, at a time, and
-- inflow/hitl_resume.go, when a person is done. Every time is taken to be small enough for 64 bits.
pub mod Laws
use morph_api.Prelude.{
  ℕ, ◌+◌, ◌*◌, ◌-◌, suc, String, Bool, true, false, not, ◌&&◌, ◌||◌, Option, none, some, List, [],
  ◌∷◌, ◌==◌, leb, if◌then◌else◌,
}
use morph_api.Prelude.Int.{ℤ, pos, negsuc, is_positive}
use morph_api.Json.{Value, num, str, Fields, end, field}
use morph_api.Patch.Values.{is_blank}
use morph_api.Entry.Store.{ContextStore}
use morph_api.Runs.Rows.{Status, LaunchError, ProcessRecord, ProcessStore}
use morph_api.Runs.Starts.{Next, next_node_ids, load_resume_snapshot}
use morph_api.Runs.Engine.{Engine, FlowRecord, World, Outcome}
use morph_api.Runs.Launch.{start_workflow}
use morph_api.Runs.Params.{StartParams}
use morph_api.Runs.Schedule.{default_settings}

-- the operation of a Continue After node, decoded
pub record ContinuePayload : Type 0 where
  pub mode : String
  pub continue_at : ℤ
  pub delay_seconds : ℤ

-- the headers of a call of a service
pub record Headers : Type 0 where
  pub flow_id : String
  pub context_id : String
  pub pid : String
  pub instance_id : String

-- the node of the request, which may be missing
pub record ExtNode : Type 0 where
  pub id : String
  pub nexts : List Next

-- `now + seconds * 1000`
unfoldable pub after_delay : ℕ → ℤ → ℤ
after_delay now (pos d) = pos (now + d * 1000)
after_delay now (negsuc d) =
    if leb ((d + 1) * 1000) now
    then pos (now - (d + 1) * 1000)
    else negsuc ((d + 1) * 1000 - now - 1)

unfoldable pub scheduled_time : ContinuePayload → ℕ → ℤ
unfolding after_delay
scheduled_time op now =
    if is_positive op.continue_at then op.continue_at else after_delay now op.delay_seconds

abbrev pub node_id_of : Option ExtNode → String
node_id_of none = ""
node_id_of (some n) = n.id

abbrev pub nexts_of : Option ExtNode → List Next
nexts_of none = []
nexts_of (some n) = n.nexts

abbrev pub instance_or_pid : Headers → String
instance_or_pid h = if is_blank h.instance_id then h.pid else h.instance_id

pub data ParkError : Type 0 where
  no_identity : (flow_id : String) → (context_id : String) → ParkError
  not_resumed : LaunchError → ParkError

-- What the runtime is answered: to stop here, with what was recorded.
pub record StopHere : Type 0 where
  pub index : ℕ
  pub status : Status
  pub scheduled_at : ℤ

pub data Parked : Type 0 where
  stop_here : StopHere → Parked
  not_parked : ParkError → Parked

-- The fields of a `HumanTask` that a resumption reads.
pub record ParkedTask : Type 0 where
  pub id : String
  pub continues : Bool
  pub nexts : List Next
  pub flow_id : String
  pub context_id : String
  pub node_id : String
  pub pid : String
  pub instance_id : String

pub record Resumed (P C : Type 0) : Type 0 where
  pub world : World P C
  pub row : Option ProcessRecord
  pub error : Option ParkError

-- `encode_nexts` and `encode_time` are the values that the meta of a row keeps of the edges and of the
-- time.
module _ (encode_nexts : List Next → Value) (encode_time : ℤ → Value) where
  unfoldable pub continue_params : Headers → ContinuePayload → Option ExtNode → ℕ → StartParams
  continue_params h op node now = record {
    flow_id = h.flow_id;
    context_id = h.context_id;
    start_node_ids = next_node_ids (nexts_of node);
    instance_id = instance_or_pid h;
    req_meta = [];
    record_meta = field "origin" (str "continue_after") (
        field "sourceFlowId" (str h.flow_id) (
          field "sourceNodeId" (str (node_id_of node)) (
            field "sourcePid" (str h.pid) (
              field "mode" (str op.mode) (
                field "scheduledAt" (encode_time (scheduled_time op now))
                  (field "nextNodes" (encode_nexts (nexts_of node)) end))))));
    entry = end;
    entry_skip = true;
    scheduled_at = scheduled_time op now;
    resume = none;
    settings = default_settings;
  }

  unfoldable pub resume_params : ParkedTask → Option Fields → StartParams
  resume_params t snapshot = record {
    flow_id = t.flow_id;
    context_id = t.context_id;
    start_node_ids = next_node_ids t.nexts;
    instance_id = t.instance_id;
    req_meta = [];
    record_meta = field "origin" (str "hitl_resume") (
        field "sourceFlowId" (str t.flow_id) (
          field "sourceNodeId" (str t.node_id) (
            field "sourcePid" (str t.pid)
              (field "humanTaskId" (str t.id) (field "nextNodes" (encode_nexts t.nexts) end)))));
    entry = end;
    entry_skip = true;
    scheduled_at = pos 0;
    resume = snapshot;
    settings = default_settings;
  }

  module _ {P C : Type 0} (rows : ProcessStore P) (contexts : ContextStore C)
      (flows : String → Option FlowRecord) (validate : Fields → Fields → Option String)
      (decode : Fields → Option Fields) (engine : Engine) where
    abbrev pub parked : Outcome P C → ℤ → Option ProcessRecord → Option LaunchError → Parked
    parked o at row (some e) = not_parked (not_resumed e)
    parked o at none none = not_parked (no_identity "" "")
    parked o at (some r) none =
        stop_here (record { index = r.index; status = r.status; scheduled_at = at })

    unfoldable pub handle_continue_after :
        World P C
        → Headers
        → ContinuePayload
        → Option ExtNode
        → String
        → (ℕ → ℕ)
        → World P C × Parked
    handle_continue_after w h op node minted now =
        let o =
          start_workflow rows contexts flows validate engine w (continue_params h op node (now 0))
            minted (λ n. now (n + 1)) in
        if is_blank h.flow_id || is_blank h.context_id
        then (w, not_parked (no_identity h.flow_id h.context_id))
        else (o.world, parked o (scheduled_time op (now 0)) o.row o.error)

    abbrev pub resumed : Outcome P C → Option LaunchError → Resumed P C
    resumed o none = record { world = o.world; row = o.row; error = none }
    resumed o (some e) = record { world = o.world; row = o.row; error = some (not_resumed e) }

    abbrev pub resume_on : World P C → ParkedTask → String → (ℕ → ℕ) → List String → Resumed P C
    resume_on w t minted now [] = record { world = w; row = none; error = none }
    resume_on w t minted now (id ∷ ids) =
        let o =
          start_workflow rows contexts flows validate engine w
            (resume_params t (load_resume_snapshot rows decode w.rows t.pid)) minted now in
        if is_blank t.flow_id || is_blank t.context_id
        then record { world = w; row = none; error = some (no_identity t.flow_id t.context_id) }
        else resumed o o.error

    -- A task that let its flow go on, or that was the end of the line, has nothing to resume.
    unfoldable pub resume_human_task :
        World P C → Option ParkedTask → String → (ℕ → ℕ) → Resumed P C
    resume_human_task w none minted now = record { world = w; row = none; error = none }
    resume_human_task w (some t) minted now =
        if t.continues
        then record { world = w; row = none; error = none }
        else resume_on w t minted now (next_node_ids t.nexts)
