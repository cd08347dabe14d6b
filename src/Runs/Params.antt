-- ===== src/Runs/Params.antt =====
-- What `StartWorkflow` of inflow/process.go is given, and the row and the request that it makes of it.
use morph_api.Prelude.{
  ℕ, String, Bool, true, false, Option, none, some, List, [], ◌∷◌, ◌==◌, if◌then◌else◌,
}
use morph_api.Prelude.Text.{trim_space}
use morph_api.Prelude.Decimal.{decimal}
use morph_api.Prelude.Int.{ℤ, is_positive}
use morph_api.Json.{bool, obj, strs, Fields, end, insert, merge}
use morph_api.Preferences.{EntryForm, entry_or_nil, is_filled}
use morph_api.Entry.{Prepared, no_entry, ready, refused}
use morph_api.Compile.Flow.{get_start_node_id}
use morph_api.Compile.Nodes.{find, put}
use morph_api.Runs.Rows.{
  scheduled, running, failed, LaunchError, entry_refused, engine_text, launch_error, ProcessRecord,
}
use morph_api.Runs.Engine.{RunSettings, Request, FlowRecord}

pub record StartParams : Type 0 where
  pub flow_id : String
  pub context_id : String
  pub start_node_ids : List String
  pub instance_id : String
  pub req_meta : List (String × String)
  pub record_meta : Fields
  pub entry : Fields
  pub entry_skip : Bool
  pub scheduled_at : ℤ
  pub resume : Option Fields
  pub settings : RunSettings

-- the nodes to start on, where the flow may have been left unread
abbrev pub start_of_flow : Option String → Option (List String)
start_of_flow none = none
start_of_flow (some id) = some (id ∷ [])

abbrev pub starts_on : List String → Option FlowRecord → Option (List String)
starts_on (id ∷ ids) flow = some (id ∷ ids)
starts_on [] none = none
starts_on [] (some flow) = start_of_flow (get_start_node_id flow.nodes)

abbrev pub form_of : Bool → Option FlowRecord → Option EntryForm
form_of skip none = none
form_of true (some flow) = none
form_of false (some flow) = entry_or_nil flow.preferences

abbrev pub has_ids : List String → Bool
has_ids [] = false
has_ids (id ∷ ids) = true

pub data EntryValues : Type 0 where
  values : Fields → EntryValues
  not_allowed : LaunchError → EntryValues

abbrev pub submitted : Prepared → EntryValues
submitted no_entry = values end
submitted (ready vs) = values vs
submitted (refused message) = not_allowed (entry_refused message)

abbrev pub or_end : Option Fields → Fields
or_end none = end
or_end (some m) = m

abbrev pub flag_resume : Option Fields → Fields → Fields
flag_resume none meta = meta
flag_resume (some snapshot) meta = insert "resume" (bool true) meta

-- the meta kept on the row
unfoldable pub kept_meta : StartParams → List String → Fields → Fields
kept_meta p ids entry =
    let meta = flag_resume p.resume (insert "startNodeIds" (strs ids) (merge end p.record_meta)) in
    if is_filled entry then insert "entry" (obj entry) meta else meta

abbrev pub put_missing :
    String → String → List (String × String) → Option String → List (String × String)
put_missing k v meta none = put k v meta
put_missing k v meta (some w) = meta

abbrev pub put_absent : String → String → List (String × String) → List (String × String)
put_absent k v meta = put_missing k v meta (find k meta)

abbrev pub instance_of : String → String → String
instance_of instance_id pid = if trim_space instance_id == "" then pid else trim_space instance_id

-- the meta of the request: the index and the pid are this run's whatever the caller supplies
unfoldable pub request_meta : StartParams → ℕ → String → List (String × String)
request_meta p index pid = put "instanceId" (instance_of p.instance_id pid) (
    put "pid" pid (
      put_absent "contextId" p.context_id
        (put_absent "flowId" p.flow_id (put "indexId" (decimal index) p.req_meta))))

unfoldable pub request_of : StartParams → List String → ℕ → String → Request
request_of p ids index pid = record {
  start_nodes = ids;
  flow_id = p.flow_id;
  context_id = p.context_id;
  meta = request_meta p index pid;
  pid = pid;
  resume = p.resume;
  settings = p.settings;
}

abbrev pub first_of : List String → String
first_of [] = ""
first_of (id ∷ ids) = id

-- The row before it has an index; a row that is to be scheduled has not started.
unfoldable pub new_row : StartParams → List String → Fields → ℕ → ProcessRecord
new_row p ids entry now = record {
  index = 0;
  pid = "";
  instance_id = "";
  flow_id = p.flow_id;
  context_id = p.context_id;
  start_node_id = first_of ids;
  status = if is_positive p.scheduled_at then scheduled else running;
  resource_url = "";
  request = end;
  meta = kept_meta p ids entry;
  snapshot = end;
  error = engine_text "";
  scheduled_at = p.scheduled_at;
  started_at = if is_positive p.scheduled_at then 0 else now;
  finished_at = 0;
  duration = 0;
}

abbrev pub failed_row : LaunchError → ℕ → ProcessRecord → ProcessRecord
failed_row e now r = record r { status = failed; error = launch_error e; finished_at = now }
