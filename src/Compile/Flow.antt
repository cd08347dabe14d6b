-- ===== src/Compile/Flow.antt =====
-- `NodeBuilder` and `CompileFlow` of inflow/compiler.go. The walk of the graph and the guard of
-- inflow-fusion are parameters: the walk answers the nodes it called the hook on, in order, with the
-- graph and the errors it ends with.
pub mod Maps
pub mod Joins
pub mod Refusals
pub mod Blame
pub mod Laws
pub mod Panics
use morph_api.Prelude.{
  String, Bool, true, false, not, ◌&&◌, ◌||◌, Option, none, some, List, [], ◌∷◌, ◌++◌, ◌==◌,
  if◌then◌else◌,
}
use morph_api.Prelude.Text.{append, quote, trim_space}
use morph_api.Prelude.Sort.{text_less, sort_by}
use morph_api.Json.{Value, obj, Fields}
use morph_api.Graph.{Node, Edge, Flow}
use morph_api.Diagnostics.{
  Issue, Diagnostics, error, warning, start_node_missing, node_build_failed,
  plugin_account_unresolved, node_unreachable, add, err,
}
use morph_api.Compile.Read.{Floats, get_str}
use morph_api.Compile.Rules.{
  NodeType, Rule, BuildError, invalid_fields, account_unavailable, no_action, error_text, Lowered,
  lowered, refused, panicked, Fusion, kinds, find_kind,
}
use morph_api.Compile.Build.{lower_kind}
use morph_api.Compile.Nodes.{
  find, put, sorted_keys, Compiled, Built, scaffold, has_crashed, Failure, Graph, Walked,
  or_no_nodes, built, not_built, crashed, by_builder, by_walk,
}

unfoldable pub get_start_node_id : List Node → Option String
get_start_node_id [] = none
get_start_node_id (n ∷ ns) =
    let rest = get_start_node_id ns in
    if n.kind == "startNode" then (if n.id == "" then none else some n.id) else rest

-- every source of an edge into the node
unfoldable pub inbound_sources : List Edge → String → List String
inbound_sources [] id = []
inbound_sources (e ∷ es) id =
    let rest = inbound_sources es id in if e.target == id then e.source ∷ rest else rest

abbrev pub title_of : Value → String
title_of (obj fields) = trim_space (get_str fields "title")
title_of _ = ""

abbrev pub label_text : String → String → String
label_text title kind =
    if title == ""
    then append "node " (quote kind)
    else append "node " (append (quote title) (append " (" (append kind ")")))

unfoldable pub node_label : List Node → String → String
node_label [] id = append "node " id
node_label (n ∷ ns) id =
    let rest = node_label ns id in
    if n.id == id then label_text (title_of n.payload) n.kind else rest

abbrev pub failure_text : Failure → String
failure_text (by_builder e) = error_text e
failure_text (by_walk text) = text

abbrev pub is_account : Failure → Bool
is_account (by_builder (account_unavailable cause)) = true
is_account _ = false

-- one refusal as an issue
unfoldable pub build_issue : List Node → String → Failure → Issue
build_issue nodes id f = record {
  code = if is_account f then plugin_account_unresolved else node_build_failed;
  severity = error;
  node_id = id;
  message = append (node_label nodes id) (append " could not be compiled: " (failure_text f));
  suggestion =
      if is_account f
      then "this is the inflow runtime being unreachable, not a mistake in the flow: check the engine connection and try again."
      else "open the node and complete what it is missing — the steps after it are not compiled while it fails.";
}

abbrev pub add_found : List Node → String → Option Failure → Diagnostics → Diagnostics
add_found nodes id none d = d
add_found nodes id (some f) d = add d (build_issue nodes id f ∷ [])

-- the loop over the ids with a refusal
unfoldable pub add_build_issues :
    List Node → List (String × Failure) → List String → Diagnostics → Diagnostics
add_build_issues nodes errs [] d = d
add_build_issues nodes errs (id ∷ ids) d =
    add_build_issues nodes errs ids (add_found nodes id (find id errs) d)

abbrev pub unreachable_issue : List Node → String → Issue
unreachable_issue nodes id = record {
  code = node_unreachable;
  severity = warning;
  node_id = id;
  message = append (node_label nodes id) " is not reachable from the start node, so it never runs";
  suggestion = "connect it to the flow, or remove it.";
}

-- `all` are the nodes of the flow, for the labels
unfoldable pub unreachable_issues : List Node → Graph → List Node → List Issue
unreachable_issues all g [] = []
unreachable_issues all g (n ∷ ns) =
    let rest = unreachable_issues all g ns in
    elim (find n.id g) [ none ↦ unreachable_issue all n.id ∷ rest | some c ↦ rest ]

-- the loop over the errors of the walk: one is kept, if no builder refused
unfoldable pub keep_walk_errors :
    List (String × String) → List (String × Failure) → List (String × Failure)
keep_walk_errors es (e ∷ errs) = e ∷ errs
keep_walk_errors [] [] = []
keep_walk_errors ((id, text) ∷ es) [] = (id, by_walk text) ∷ []

-- a fan-in that was compiled waits on every node with an edge into it
abbrev pub join_at : List Edge → Node → Graph → Option (Option Compiled) → Graph
join_at edges n g (some (some c)) =
    if n.kind == "promissall"
    then put n.id (some (record c { depends = inbound_sources edges n.id })) g
    else g
join_at edges n g _ = g

unfoldable pub wire_joins : List Edge → List Node → Graph → Graph
wire_joins edges [] g = g
wire_joins edges (n ∷ ns) g = wire_joins edges ns (join_at edges n g (find n.id g))

pub record CompileResult : Type 0 where
  pub start_node_id : String
  pub nodes : Graph
  pub diagnostics : Diagnostics

abbrev pub clean : String → Diagnostics
clean id = record { ok = true; start_node_id = id; issues = []; error_count = 0; warning_count = 0 }

abbrev pub start_missing : Issue
start_missing = record {
  code = start_node_missing;
  severity = error;
  node_id = "";
  message = "start node is required";
  suggestion = "add a Start node and connect it to the first step of the flow.";
}

module _ (floats : Floats) (parse_time : String → String → Option String) (fusion : Fusion) where
  abbrev pub build_payload : Node → Value → Built
  build_payload n (obj fields) =
      scaffold n.id fields
        (lower_kind floats parse_time fusion (find_kind kinds n.kind) n.id fields)
  build_payload n _ = not_built invalid_fields

  unfoldable pub node_builder : Node → Built
  node_builder n = build_payload n n.payload

  abbrev pub record_error : Node → Built → List (String × Failure) → List (String × Failure)
  record_error n (not_built e) errs = put n.id (by_builder e) errs
  record_error n _ errs = errs

  -- the hook's errors, over the nodes that it was called on
  unfoldable pub build_errors : List Node → List (String × Failure) → List (String × Failure)
  build_errors [] errs = errs
  build_errors (n ∷ ns) errs = build_errors ns (record_error n (node_builder n) errs)

  -- a builder that panics takes the compilation with it
  unfoldable pub crashes : List Node → Bool
  crashes [] = false
  crashes (n ∷ ns) = has_crashed (node_builder n) || crashes ns

  module _ (walk : (Node → Built) → String → Flow → Walked)
      (guard : String → Graph → List Issue) where
    abbrev pub no_failures : List (String × Failure) → Bool
    no_failures [] = true
    no_failures (e ∷ es) = false

    -- what the guard finds, and then the nodes that were not reached
    unfoldable pub guarded :
        Bool → Flow → String → Graph → List (String × Failure) → Diagnostics → Diagnostics
    guarded on flow id g errs d =
        let checked = add d (guard id g) in
        if not on
        then d
        else if no_failures errs
        then add checked (unreachable_issues flow.nodes g flow.nodes)
        else checked

    unfoldable pub finish : Bool → Flow → String → Walked → CompileResult
    finish on flow id w =
        let errs = keep_walk_errors w.errors (build_errors w.visited []) in
        let g = wire_joins flow.edges flow.nodes (or_no_nodes w.graph) in
        record {
          start_node_id = id;
          nodes = g;
          diagnostics =
              guarded on flow id g errs
                (add_build_issues flow.nodes errs (sorted_keys errs) (clean id));
        }

    abbrev pub unless_crashed : Bool → CompileResult → Option CompileResult
    unless_crashed true r = none
    unless_crashed false r = some r

    unfoldable pub pass : Bool → Flow → Option String → Option CompileResult
    pass on flow none = some (record {
      start_node_id = "";
      nodes = [];
      diagnostics = add (clean "") (start_missing ∷ []);
    })
    pass on flow (some id) =
        let w = walk node_builder id flow in
        unless_crashed (crashes w.visited) (finish on flow id w)

    -- `on` is the option `WithGuard`; none is the panic of a builder.
    unfoldable pub compile_flow : Bool → Flow → Option CompileResult
    unfolding pass
    compile_flow on flow = pass on flow (get_start_node_id flow.nodes)

    -- the lowered graph with one error text, without the guard
    unfoldable pub flow_compiler : (Issue → String) → Flow → Option (String × Graph × Option String)
    flow_compiler issue_error flow = elim (compile_flow false flow) [
      | none ↦ none
      | some r ↦ some (r.start_node_id, r.nodes, err issue_error r.diagnostics)
    ]
