-- ===== src/Flowfile/Examples.antt =====
-- The theorems on flowfile/flowfile.go and on the saving of a flow at a small document.
use morph_api.Prelude.{
  ℕ, ◌+◌, String, ◌≡◌, refl, ap, sym, true, false, Option, none, some, List, [], ◌∷◌, ◌==◌,
  if◌then◌else◌, length, Pointwise, eqb,
}
use morph_api.Json.{str, obj, Fields, end, field, lookup}
use morph_api.Patch.Values.{get, as_str}
use morph_api.Graph.{Node, Flow, at}
use morph_api.Patch.{PatchNode}
use morph_api.Diagnostics.{Issue, compile_err}
use morph_api.Patch.Merge.{NodeKind}
use morph_api.Compile.Read.{Floats}
use morph_api.Compile.Rules.{Fusion}
use morph_api.Compile.Flow.{CompileResult, node_builder, finish, compile_flow}
use morph_api.Compile.Nodes.{Graph, Built, Walked}
use morph_api.Flowfile.Import.{Input, count_type, import_flow}
use morph_api.Flowfile.Import.Laws.{Imports, Lands, stamped, planned, drafted, import_flow-Lands}
use morph_api.Workflows.{FlowRecord, stored, Found, found, not_found, FlowTable, upsert}
use morph_api.Workflows.Laws.{Reliable, Saves, Renews, upsert-Renews}
use morph_api.Flowfile.{ExtensionRecord}
use morph_api.Flowfile.Identity.{stamp_identities}
use morph_api.Flowfile.Identity.Laws.{Stamps, stamp_identities-Stamps}
use morph_api.Flowfile.Identity.Told.{AllTold}
use morph_api.Flowfile.Identity.Tally.{callers, open_nodes, stamp_identities-tally}
use morph_api.Flowfile.Profiles.{NodeSetting, resolve_settings_profiles}
use morph_api.Flowfile.Profiles.Laws.{ResolvesNode, resolve_settings_profiles-Resolves}
use morph_api.Compile.Flow.{
  add_build_issues, build_errors, crashes, get_start_node_id, guarded, keep_walk_errors,
}
use morph_api.Compile.Nodes.{keys, sorted_keys}
use morph_api.Diagnostics.{add}
use morph_api.Flowfile.Identity.{resolution, stamp_node, stamp_nodes, stamp_plugin}
use morph_api.Flowfile.Import.{record_of}
use morph_api.Flowfile.Profiles.{resolve_nodes}
use morph_api.Flowfile.Rows.{by_action, by_plugin_action, plugin_key}
use morph_api.Graph.Normalize.{all_unplaced, normalize_graph, normalize_node}
use morph_api.Patch.Merge.{kind_by_name, merge_data, stamp_kind}
use morph_api.Patch.Plan.{accept, find, plan_edges, plan_node, plan_nodes, plan_patch}
use morph_api.Prelude.Membership.{mem}
use morph_api.Prelude.Sort.{sort_by}
use morph_api.Prelude.Text.{trim_space}

abbrev row : String → String → String → ExtensionRecord
row id plugin_id action = record {
  id = id;
  type = "plugin";
  name = "Mail";
  plugin_id = plugin_id;
  action = action;
  schema = end;
  ui = end;
  outbound = [];
}

abbrev exts : List ExtensionRecord
exts = row "r1" "p1" "mail.send" ∷ row "r2" "p1" "sql.query" ∷ row "r3" "p2" "sql.query" ∷ []

abbrev calls : String → String → PatchNode
calls ref action = record {
  ref = ref;
  kind = "plugin";
  title = "";
  key = "";
  scope = "";
  position = none;
  payload = field "pluginId" (str "elsewhere") (field "action" (str action) end);
  note = "";
}

abbrev nodes : List PatchNode
nodes = calls "a" "mail.send" ∷ calls "b" "sql.query" ∷ calls "c" "git.push" ∷ []

stamp_identities-Stamps_example :
    Pointwise (Stamps exts) nodes (stamp_identities exts [] [] nodes).nodes
stamp_identities-Stamps_example = stamp_identities-Stamps exts [] [] nodes

stamp_identities-tally_example :
    let s = stamp_identities exts [] [] nodes in
    AllTold exts 0 nodes s.missing s.unbound
    × (open_nodes s.nodes ≡ callers s.missing + length s.unbound)
stamp_identities-tally_example = stamp_identities-tally exts [] [] nodes

abbrev profiles : String → Option NodeSetting
profiles id =
    if id == "work"
    then some (record { title = "Work"; settings = field "token" (str "s3cret") end })
    else none

abbrev placed : String → String → Fields → Node
placed id kind held = record {
  id = id;
  kind = kind;
  payload = obj held;
  position = record { x = at 0; y = at 0 };
  computed = record { x = at 0; y = at 0 };
  width = at 0;
  height = at 0;
  initialized = true;
}

abbrev with_profiles : Flow
with_profiles = record {
  nodes =
      placed "n1" "hitl" (field "settingsId" (str "work") (field "settings" (obj end) end))
      ∷ placed "n2" "llm" (field "settingsId" (str "work") end)
      ∷ [];
  edges = [];
  zoom = at 1;
}

resolve_settings_profiles-Resolves_example :
    Pointwise
      (ResolvesNode profiles)
      with_profiles.nodes
      (resolve_settings_profiles profiles with_profiles).nodes
resolve_settings_profiles-Resolves_example =
    resolve_settings_profiles-Resolves profiles with_profiles

-- a table as a function of the id
abbrev put_at : String → Found → (String → Found) → String → Found
put_at id a s = λ k. if id == k then a else s k

abbrev at_key : String → Option (String → Found) → Found
at_key id none = not_found
at_key id (some s) = s id

abbrev table : FlowTable (String → Found)
table = record {
  read = λ s id. s id;
  write = λ s w. some (put_at w.id (found (stored w)) s);
  read-write = λ s t w id e. ap (at_key id) (sym e);
}

sure : Reliable table
sure s w e = absurd (cc e)

abbrev record_at : String → Option (List String) → ℕ → FlowRecord
record_at id tags created_at = record {
  id = id;
  title = "Mailing";
  tags = tags;
  preferences = none;
  plugins = [];
  created_at = created_at;
  updated_at = 0;
  graph = with_profiles;
}

abbrev flows : String → Found
flows = put_at "f1" (found (record_at "f1" (some ("gdpr" ∷ [])) 5)) (λ id. not_found)

upsert-Renews_example :
    Saves table
      (Renews table (record_at "f1" (some ("gdpr" ∷ [])) 5) (record_at "f1" none 0))
      (upsert table flows 9 "f2" (record_at "f1" none 0))
upsert-Renews_example =
    upsert-Renews table sure flows 9 "f2" (record_at "f1" (some ("gdpr" ∷ [])) 5)
      (record_at "f1" none 0) refl refl

abbrev catalog : List NodeKind
catalog =
    record { kind = "startNode"; defaults = none }
    ∷ record { kind = "plugin"; defaults = none }
    ∷ []

abbrev begin : PatchNode
begin = record {
  ref = "s";
  kind = "startNode";
  title = "";
  key = "";
  scope = "";
  position = none;
  payload = end;
  note = "";
}

abbrev input : Input
input = record {
  doc = record {
    title = "Mailing";
    tags = none;
    preferences = none;
    plugins = [];
    nodes = begin ∷ calls "a" "mail.send" ∷ [];
    edges = [];
    notes = [];
  };
  id = "";
  title = "";
  tags = none;
  preferences = none;
  dry_run = false;
}

abbrev floats : Floats
floats = record { scan = λ s. none; truncate = λ n. n; is_positive = λ n. true; times = λ n k. n }

abbrev fusion : Fusion
fusion = record {
  js_lang = "js";
  opa_lang = "opa";
  get_svc = λ s. "";
  svc_topic = λ s. s;
  action_subject = λ s a. s;
  new_plugin = λ title id minutes. none;
}

abbrev parse_time : String → String → Option String
parse_time layout s = none

abbrev walk : (Node → Built) → String → Flow → Walked
walk hook id flow = record { visited = []; graph = none; errors = [] }

abbrev guard : String → Graph → List Issue
guard id g = []

abbrev message_of : Issue → String
message_of i = i.message

abbrev short_id : ℕ → String
short_id n = if eqb n 0 then "1" else "2"

abbrev draft : FlowRecord
draft =
    drafted floats parse_time fusion walk guard message_of catalog short_id profiles table exts []
      input

abbrev lowered : CompileResult
lowered =
    finish floats parse_time fusion walk guard true draft.graph "n-1"
      (walk (node_builder floats parse_time fusion) "n-1" draft.graph)

one_start :
    count_type "startNode"
      (planned floats parse_time fusion walk guard message_of catalog short_id profiles table exts
        [] input).0.nodes
    ≡ 1
unfolding count_type plan_patch plan_edges plan_nodes stamp_identities stamp_nodes stamp_node
    stamp_plugin trim_space as_str get lookup resolution by_plugin_action plugin_key by_action mem
    plan_node find kind_by_name accept
one_start = refl

compiles : compile_flow floats parse_time fusion walk guard true draft.graph ≡ some lowered
unfolding compile_flow get_start_node_id record_of normalize_graph resolve_settings_profiles
    resolve_nodes plan_patch plan_edges plan_nodes stamp_identities stamp_nodes stamp_node
    stamp_plugin trim_space as_str get lookup resolution by_plugin_action plugin_key by_action mem
    count_type plan_node find kind_by_name accept normalize_node all_unplaced merge_data stamp_kind
    crashes finish add_build_issues sorted_keys sort_by keys keep_walk_errors build_errors guarded
    add
compiles = refl

abbrev no_flows : String → Found
no_flows id = not_found

import_flow-Lands_example :
    Imports table
      (λ t q.
        Lands table false no_flows draft t q.flow
        × (q.problems
            ≡ (planned floats parse_time fusion walk guard message_of catalog short_id profiles
                table exts [] input).1)
        × (q.missing
            ≡ (stamped floats parse_time fusion walk guard message_of catalog short_id profiles
                table exts [] input).missing)
        × (q.unbound
            ≡ (stamped floats parse_time fusion walk guard message_of catalog short_id profiles
                table exts [] input).unbound)
        × (q.validation ≡ lowered.diagnostics)
        × (q.compile_error ≡ compile_err message_of lowered.diagnostics))
      (import_flow floats parse_time fusion walk guard message_of catalog short_id profiles table
        (some (exts, []))
        no_flows
        9
        "f2"
        input)
import_flow-Lands_example =
    import_flow-Lands floats parse_time fusion walk guard message_of catalog short_id profiles table
      exts [] sure no_flows 9 "f2" input lowered refl one_start compiles (λ text e. absurd (cc e))
