-- ===== src/Flowfile/Import.antt =====
-- `Import` of flowfile/flowfile.go: a document is stamped, planned, laid out, compiled and saved.
pub mod Laws
use morph_api.Prelude.{
  ℕ, ◌+◌, String, Bool, true, false, not, ◌&&◌, Option, none, some, List, [], ◌∷◌, ◌==◌, eqb,
  if◌then◌else◌,
}
use morph_api.Prelude.Text.{trim_space}
use morph_api.Graph.{Node, Edge, Flow, at}
use morph_api.Graph.Normalize.{normalize_graph}
use morph_api.Diagnostics.{Issue, Diagnostics, compile_err}
use morph_api.Patch.{PatchNode, PatchEdge, Patch, Problem}
use morph_api.Patch.Values.{is_blank}
use morph_api.Patch.Merge.{NodeKind}
use morph_api.Patch.Plan.{plan_patch}
use morph_api.Preferences.{FlowPreferences, normalize}
use morph_api.Plugins.{FlowPlugin, collect_flow_plugins}
use morph_api.Compile.Read.{Floats}
use morph_api.Compile.Rules.{Fusion}
use morph_api.Compile.Flow.{CompileResult, compile_flow}
use morph_api.Compile.Nodes.{Graph, Built, Walked}
use morph_api.Workflows.{FlowRecord, FlowTable, Save, saved, not_read, not_written, upsert}
use morph_api.Flowfile.{PluginManifestEntry, MissingAction, UnboundNode, ExtensionRecord}
use morph_api.Flowfile.Identity.{Stamped, stamp_identities}
use morph_api.Flowfile.Profiles.{NodeSetting, resolve_settings_profiles}

-- The header is not read back.
pub record Document : Type 0 where
  pub title : String
  pub tags : Option (List String)
  pub preferences : Option FlowPreferences
  pub plugins : List PluginManifestEntry
  pub nodes : List PatchNode
  pub edges : List PatchEdge
  pub notes : List String

pub record Input : Type 0 where
  pub doc : Document
  pub id : String
  pub title : String
  pub tags : Option (List String)
  pub preferences : Option FlowPreferences
  pub dry_run : Bool

-- The graph is compiled where `compile_error` is none.
pub record Result : Type 0 where
  pub flow : FlowRecord
  pub problems : List Problem
  pub missing : List MissingAction
  pub unbound : List UnboundNode
  pub compile_error : Option String
  pub start_node_id : String
  pub compiled : Option Graph
  pub dry_run : Bool
  pub validation : Diagnostics

pub data ImportError : Type 0 where
  no_nodes not_one_start not_listed not_saved : ImportError

-- `crashed` is the panic of a builder of nodes.
pub data Imported (S : Type 0) : Type 0 where
  imported : S → Result → Imported S
  refused : ImportError → Imported S
  crashed : Imported S

unfoldable pub count_type : String → List Node → ℕ
count_type kind [] = 0
count_type kind (n ∷ ns) = (if n.kind == kind then 1 else 0) + count_type kind ns

abbrev pub title_of : Input → String
title_of i =
    if not (is_blank i.title)
    then trim_space i.title
    else if not (is_blank i.doc.title)
    then trim_space i.doc.title
    else "Imported workflow"

abbrev pub or_given {ℓ} : {A : Type ℓ} → Option A → Option A → Option A
or_given none a = a
or_given (some b) a = some b

abbrev pub nothing_there : Flow
nothing_there = record { nodes = []; edges = []; zoom = at 0 }

abbrev pub lowered_as : Option String → CompileResult → Result → Result
lowered_as none c r = record r {
  validation = c.diagnostics;
  start_node_id = c.start_node_id;
  compiled = some c.nodes;
}
lowered_as (some text) c r = record r { validation = c.diagnostics; compile_error = some text }

module _ (catalog : List NodeKind) (short_id : ℕ → String) where
  abbrev pub plan_of : List PatchNode → Document → Flow × List Problem
  plan_of nodes doc =
      plan_patch catalog short_id (record { nodes = nodes; edges = doc.edges; notes = doc.notes })
        nothing_there

module _ (profiles : String → Option NodeSetting) where
  -- the record to be saved, from the graph that was planned
  unfoldable pub record_of : Input → Flow → FlowRecord
  record_of i graph =
      let laid = normalize_graph (resolve_settings_profiles profiles graph) in
      record {
        id = trim_space i.id;
        title = title_of i;
        tags = or_given i.tags i.doc.tags;
        preferences = normalize (or_given i.preferences i.doc.preferences);
        plugins = collect_flow_plugins laid;
        created_at = 0;
        updated_at = 0;
        graph = laid;
      }

  abbrev pub result_of : Input → Stamped → Flow × List Problem → Result
  result_of i st plan = record {
    flow = record_of i plan.0;
    problems = plan.1;
    missing = st.missing;
    unbound = st.unbound;
    compile_error = none;
    start_node_id = "";
    compiled = none;
    dry_run = i.dry_run;
    validation = record {
      ok = false;
      start_node_id = "";
      issues = [];
      error_count = 0;
      warning_count = 0;
    };
  }

abbrev pub stamp_with :
    Option (List ExtensionRecord × List ExtensionRecord) → Input → Option Stamped
stamp_with none i = none
stamp_with (some (exts, builtins)) i =
    some (stamp_identities exts builtins i.doc.plugins i.doc.nodes)

abbrev pub is_none_of : List PatchNode → Bool
is_none_of [] = true
is_none_of (n ∷ ns) = false

module _ {S : Type 0} (table : FlowTable S) where
  abbrev pub with_saved : Result → Save S → Imported S
  with_saved r (saved t flow) = imported t (record r { flow = flow })
  with_saved r (not_read text) = refused not_saved
  with_saved r not_written = refused not_saved

  -- a dry run saves nothing
  abbrev pub save : Bool → S → ℕ → String → Result → Imported S
  save true s now minted r = imported s r
  save false s now minted r = with_saved r (upsert table s now minted r.flow)

  -- Compiling is no condition of the import.
  abbrev pub compiled_as :
      (Issue → String) → S → ℕ → String → Result → Option CompileResult → Imported S
  compiled_as issue_error s now minted r none = crashed
  compiled_as issue_error s now minted r (some c) =
      save r.dry_run s now minted (lowered_as (compile_err issue_error c.diagnostics) c r)

module _ (floats : Floats) (parse_time : String → String → Option String) (fusion : Fusion)
    (walk : (Node → Built) → String → Flow → Walked) (guard : String → Graph → List Issue)
    (issue_error : Issue → String) (catalog : List NodeKind) (short_id : ℕ → String)
    (profiles : String → Option NodeSetting) where
  module _ {S : Type 0} (table : FlowTable S) where
    abbrev pub land : S → ℕ → String → Input → Stamped → Flow × List Problem → Imported S
    land s now minted i st plan =
        if eqb (count_type "startNode" plan.0.nodes) 1
        then compiled_as table issue_error s now minted (result_of profiles i st plan) (
            compile_flow floats parse_time fusion walk guard true
              (record_of profiles i plan.0).graph)
        else refused not_one_start

    abbrev pub land_stamped : S → ℕ → String → Input → Option Stamped → Imported S
    land_stamped s now minted i none = refused not_listed
    land_stamped s now minted i (some st) =
        land s now minted i st (plan_of catalog short_id st.nodes i.doc)

    -- `listed` is the install's extension rows and its builtin rows, none when they cannot be read.
    unfoldable pub import_flow :
        Option (List ExtensionRecord × List ExtensionRecord) → S → ℕ → String → Input → Imported S
    import_flow listed s now minted i =
        if is_none_of i.doc.nodes
        then refused no_nodes
        else land_stamped s now minted i (stamp_with listed i)
