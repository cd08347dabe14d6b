-- ===== src/Patch/Plan.antt =====
-- `PlanPatch` of designer/patch.go: the two loops over the nodes and the edges of a patch.
pub mod Nodes
pub mod Edges
mod Examples
use morph_api.Prelude.{
  ℕ, ◌+◌, String, Bool, true, false, not, ◌&&◌, ◌||◌, Option, none, some, List, [], ◌∷◌, ◌++◌, ◌==◌,
  if◌then◌else◌,
}
use morph_api.Prelude.Text.{append, trim_space}
use morph_api.Prelude.Decimal.{decimal}
use morph_api.Json.{Value, obj, Fields, end}
use morph_api.Graph.{at, Point, Node, Edge, Flow}
use morph_api.Patch.{
  PatchNode, PatchEdge, Patch, Problem, error, duplicate_ref, unknown_kind, missing_end,
}
use morph_api.Patch.Ports.{Resolved, resolve_port}
use morph_api.Patch.Merge.{NodeKind, kind_by_name, merge_data}
use morph_api.Patch.Inspect.{inspect_scope, inspect_row_refs, inspect_convergence}

-- What the loops carry: the graph so far, the maps from refs to ids and from ids to kinds and data,
-- the problems, and the place in the supply of short ids.
pub record Plan : Type 0 where
  pub nodes : List Node
  pub edges : List Edge
  pub id_by_ref : List (String × String)
  pub type_by_id : List (String × String)
  pub data_by_id : List (String × Fields)
  pub problems : List Problem
  pub supply : ℕ

-- `m[k]`, the newest entry at the head
unfoldable pub find {ℓ} : {A : Type ℓ} → String → List (String × A) → Option A
find k [] = none
find k ((j, a) ∷ m) = if j == k then some a else find k m

abbrev pub origin : Point
origin = record { x = at 0; y = at 0 }

abbrev pub ref_of : ℕ → PatchNode → String
ref_of i raw =
    let ref = trim_space raw.ref in if ref == "" then append "node" (decimal (i + 1)) else ref

abbrev pub complain : Problem → Plan → Plan
complain p s = record s { problems = s.problems ++ p ∷ [] }

abbrev pub is_known : List NodeKind → String → Bool
is_known catalog kind = elim (kind_by_name catalog kind) [ none ↦ kind == "plugin" | some k ↦ true ]

abbrev pub has_ref {ℓ} : {A : Type ℓ} → Option A → Bool
has_ref none = false
has_ref (some a) = true

-- whether a node of the list has the id
unfoldable pub has_id : String → List Node → Bool
has_id id [] = false
has_id id (n ∷ ns) = n.id == id || has_id id ns

-- The node is planned: its data is merged, an id is drawn, and it is inspected.
unfoldable pub accept :
    (catalog : List NodeKind) (short_id : ℕ → String) → String → PatchNode → Plan → Plan
accept catalog short_id ref raw s =
    let (payload, drawn) = merge_data short_id catalog s.supply raw in
    let id = append "n-" (short_id drawn) in
    record s {
      nodes =
          s.nodes
          ++ record {
            id = id;
            kind = raw.kind;
            payload = obj payload;
            position = elim raw.position [ none ↦ origin | some p ↦ p ];
            computed = origin;
            width = at 0;
            height = at 0;
            initialized = false;
          }
            ∷ [];
      id_by_ref = (ref, id) ∷ s.id_by_ref;
      type_by_id = (id, raw.kind) ∷ s.type_by_id;
      data_by_id = (id, payload) ∷ s.data_by_id;
      problems = s.problems ++ (inspect_scope raw payload ++ inspect_row_refs raw payload);
      supply = drawn + 1;
    }

-- one round over the nodes
unfoldable pub plan_node :
    (catalog : List NodeKind) (short_id : ℕ → String) → ℕ → PatchNode → Plan → Plan
plan_node catalog short_id i raw s =
    let ref = ref_of i raw in
    if has_ref (find ref s.id_by_ref)
    then complain (record { level = error; at = ref; message = duplicate_ref ref }) s
    else if is_known catalog raw.kind
    then accept catalog short_id ref raw s
    else complain (record { level = error; at = ref; message = unknown_kind raw.kind }) s

unfoldable pub plan_nodes :
    (catalog : List NodeKind) (short_id : ℕ → String) → ℕ → List PatchNode → Plan → Plan
plan_nodes catalog short_id i [] s = s
plan_nodes catalog short_id i (raw ∷ raws) s =
    plan_nodes catalog short_id (i + 1) raws (plan_node catalog short_id i raw s)

-- a node of the patch, or else one on the canvas by its own id
abbrev pub on_canvas : String → List Node → Option String → String
on_canvas key existing (some id) = id
on_canvas key existing none = if has_id key existing then key else ""

-- the id that an end of an edge names, the empty text if none
unfoldable pub resolve_endpoint : String → List (String × String) → List Node → String
resolve_endpoint ref id_by_ref existing =
    let key = trim_space ref in
    if key == "" then "" else on_canvas key existing (find key id_by_ref)

abbrev pub type_of : Option String → String
type_of none = ""
type_of (some kind) = kind

abbrev pub data_of : Option Fields → Fields
data_of none = end
data_of (some m) = m

abbrev pub label_of : PatchEdge → String
label_of raw = append raw.from (append " → " raw.to)

-- `prob.At = label`, and the problem is kept
abbrev pub report_at : String → Option Problem → Plan → Plan
report_at label none s = s
report_at label (some p) s = complain (record p { at = label }) s

unfoldable pub add_edge :
    (short_id : ℕ → String) → (source target : String) → Resolved → Plan → Plan
add_edge short_id source target r s = record s {
  edges =
      s.edges
      ++ record {
        id = append "e-" (short_id s.supply);
        source = source;
        target = target;
        source_handle = r.handle;
        tags = r.tags;
      }
        ∷ [];
  supply = s.supply + 1;
}

-- what `resolvePort` answers, reported and, unless it drops the edge, added
unfoldable pub wire :
    (short_id : ℕ → String) → (label source target : String) → Resolved → Plan → Plan
wire short_id label source target r s =
    let reported = report_at label r.problem s in
    if r.drop then reported else add_edge short_id source target r reported

-- one round over the edges; `existing` is the canvas, empty where the source has none
unfoldable pub plan_edge : (short_id : ℕ → String) → Flow → PatchEdge → Plan → Plan
plan_edge short_id existing raw s =
    let source = resolve_endpoint raw.from s.id_by_ref existing.nodes in
    let target = resolve_endpoint raw.to s.id_by_ref existing.nodes in
    let missing = if source == "" then raw.from else raw.to in
    let r =
      resolve_port (type_of (find source s.type_by_id)) (data_of (find source s.data_by_id))
        raw.port in
    if source == "" || target == ""
    then complain (record { level = error; at = label_of raw; message = missing_end missing }) s
    else wire short_id (label_of raw) source target r s

unfoldable pub plan_edges : (short_id : ℕ → String) → Flow → List PatchEdge → Plan → Plan
plan_edges short_id existing [] s = s
plan_edges short_id existing (raw ∷ raws) s =
    plan_edges short_id existing raws (plan_edge short_id existing raw s)

abbrev pub start : Plan
start = record {
  nodes = [];
  edges = [];
  id_by_ref = [];
  type_by_id = [];
  data_by_id = [];
  problems = [];
  supply = 0;
}

-- The graph has no place for a zoom yet: the zero one is `NormalizeGraph`'s to fill.
unfoldable pub plan_patch :
    (catalog : List NodeKind) (short_id : ℕ → String) → Patch → Flow → Flow × List Problem
plan_patch catalog short_id patch existing =
    let placed = plan_nodes catalog short_id 0 patch.nodes start in
    let wired = plan_edges short_id existing patch.edges placed in
    (
      record { nodes = wired.nodes; edges = wired.edges; zoom = at 0 },
      wired.problems ++ inspect_convergence wired.nodes wired.edges existing,
    )
