-- ===== src/Compile/Examples.antt =====
-- The theorems on inflow/compiler.go and inflow/node_builders.go at a small flow, which is walked one
-- node after the other.
use morph_api.Prelude.{
  String, ◌≡◌, ◌↔◌, refl, true, false, Bool, Option, none, some, List, [], ◌∷◌, if◌then◌else◌,
}
use morph_api.Prelude.Membership.{mem}
use morph_api.Json.{str, num, obj, Fields, end, field, lookup}
use morph_api.Json.Laws.{or_else}
use morph_api.Patch.Values.{get, as_str}
use morph_api.Prelude.Text.{has_prefix}
use morph_api.Graph.{at, Node, Edge, Flow}
use morph_api.Diagnostics.{Issue, err, compile_err, warning, depend_self}
use morph_api.Compile.Read.{Floats, get_str, get_map}
use morph_api.Compile.Settings.{llm_settings_body, http_settings_body, decision_settings_body}
use morph_api.Compile.Settings.Laws.{LlmContract, HttpContract, DecisionContract, settings-contract}
use morph_api.Compile.Payloads.{store_keys, store_action, store_payload}
use morph_api.Compile.Payloads.Laws.{store_payload-lookup}
use morph_api.Compile.Rules.{Fusion, cast, plugin_type, plugin_call, find_kind}
use morph_api.Compile.Bodies.{plugin_unique_id, cast_body}
use morph_api.Compile.Build.{lower_kind, plugin_node}
use morph_api.Compile.Build.Laws.{Fits, lower_kind-Sound}
use morph_api.Compile.Flow.{crashes, node_builder, CompileResult, get_start_node_id, compile_flow}
use morph_api.Compile.Nodes.{find}
use morph_api.Compile.Nodes.{Graph, Walked, Built, built, Compiled, or_no_nodes}
use morph_api.Compile.Flow.Joins.{is_join, Wired}
use morph_api.Compile.Flow.Laws.{
  compiled, walked, Reports, result, compile_flow-joins, compile_flow-err_iff, compile_flow-guard,
}
use morph_api.Compile.Flow.Panics.{all_sound, compile_flow-panics_iff}

abbrev floats : Floats
floats = record { scan = λ s. none; truncate = λ n. n; is_positive = λ n. true; times = λ n k. n }

abbrev fusion : Fusion
fusion = record {
  js_lang = "js";
  opa_lang = "opa";
  get_svc = λ s. "";
  svc_topic = λ s. s;
  action_subject = λ s a. s;
  new_plugin = λ title id minutes. none;
}

abbrev parse_time : String → String → Option String
parse_time layout s = none

abbrev node : String → String → Fields → Node
node id kind fields = record {
  id = id;
  kind = kind;
  payload = obj fields;
  position = record { x = at 0; y = at 0 };
  computed = record { x = at 0; y = at 0 };
  width = at 0;
  height = at 0;
  initialized = true;
}

abbrev edge : String → String → String → Edge
edge id source target = record {
  id = id;
  source = source;
  target = target;
  source_handle = "";
  tags = [];
}

abbrev compiled_of : Node → Built → String × Option Compiled
compiled_of n (built c) = (n.id, some c)
compiled_of n _ = (n.id, none)

unfoldable graph_of : (Node → Built) → List Node → Graph
graph_of hook [] = []
graph_of hook (n ∷ ns) = compiled_of n (hook n) ∷ graph_of hook ns

abbrev walk : (Node → Built) → String → Flow → Walked
walk hook id flow = record {
  visited = flow.nodes;
  graph = some (graph_of hook flow.nodes);
  errors = [];
}

abbrev self_wait : Issue
self_wait = record {
  code = depend_self;
  severity = warning;
  node_id = "join";
  message = "m";
  suggestion = "";
}

abbrev guard : String → Graph → List Issue
guard id g = self_wait ∷ []

abbrev flow : Flow
flow = record {
  nodes =
      node "s" "startNode" end
      ∷ node "a" "cast" (field "storeId" (str "st") end)
      ∷ node "b" "void" end
      ∷ node "join" "promissall" end
      ∷ [];
  edges = edge "e1" "a" "join" ∷ edge "e2" "b" "join" ∷ [];
  zoom = at 1;
}

abbrev message_of : Issue → String
message_of i = i.message

abbrev plain : CompileResult
plain = result floats parse_time fusion walk guard false flow "s"

abbrev checked : CompileResult
checked = result floats parse_time fusion walk guard true flow "s"

starts : get_start_node_id flow.nodes ≡ some "s"
unfolding get_start_node_id
starts = refl

compiles :
    (on : Bool)
    → compiled floats parse_time fusion walk guard on flow
      ≡ some (result floats parse_time fusion walk guard on flow "s")
unfolding get_start_node_id compile_flow crashes node_builder lower_kind find_kind plugin_node
compiles on = refl

compile_flow-joins_example :
    Wired
      (is_join flow.nodes "join")
      flow.edges
      "join"
      (find "join" (or_no_nodes (walked floats parse_time fusion walk guard "s" flow).graph))
      (find "join" plain.nodes)
compile_flow-joins_example =
    compile_flow-joins floats parse_time fusion walk guard false flow plain "s" "join" starts
      (compiles false)

compile_flow-err_iff_example :
    Reports floats parse_time fusion walk guard message_of
      (walked floats parse_time fusion walk guard "s" flow)
      plain.diagnostics
compile_flow-err_iff_example =
    compile_flow-err_iff floats parse_time fusion walk guard message_of flow plain "s" starts
      (compiles false)

compile_flow-guard_example :
    (checked.nodes ≡ plain.nodes)
    × (checked.start_node_id ≡ plain.start_node_id)
    × ((compile_err message_of checked.diagnostics ≡ none)
        ↔ (err message_of plain.diagnostics ≡ none))
compile_flow-guard_example =
    compile_flow-guard floats parse_time fusion walk guard message_of flow checked plain "s"
      (λ g. (λ e. refl, tt)) starts (compiles true) (compiles false)

compile_flow-panics_iff_example :
    (compiled floats parse_time fusion walk guard true flow ≡ none) ↔ (
      (id : String) × (get_start_node_id flow.nodes ≡ some id)
      × (all_sound fusion (walked floats parse_time fusion walk guard id flow).visited ≡ false))
compile_flow-panics_iff_example =
    compile_flow-panics_iff floats parse_time fusion walk guard true flow

abbrev call : Fields
call = field "pluginId" (str "p") (field "title" (str "t") end)

lower_kind-Sound_example : Fits plugin_type (plugin_call "t" "p" "run" end)
unfolding lower_kind plugin_node plugin_unique_id get_str get as_str lookup cast_body get_map
lower_kind-Sound_example =
    lower_kind-Sound floats parse_time fusion (some cast) "n" call plugin_type
      (plugin_call "t" "p" "run" end) refl

store_payload-lookup_example : lookup "query" (store_payload call) ≡ (
    if mem "query" store_keys
    then or_else
        (lookup "query" call)
        (lookup "query" (field "action" (str (store_action call)) end))
    else lookup "query" (field "action" (str (store_action call)) end))
unfolding has_prefix
store_payload-lookup_example = store_payload-lookup "query" call refl

abbrev profile : Fields
profile =
    field "provider" (str "openai")
      (field "model" (str "m") (field "token" (str "t") (field "max_retries" (num "0") end)))

settings-contract_example :
    LlmContract floats profile (llm_settings_body floats profile)
    × HttpContract floats profile (http_settings_body floats profile)
    × DecisionContract floats profile (decision_settings_body floats profile)
settings-contract_example = settings-contract floats profile
