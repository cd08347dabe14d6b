-- ===== src/Patch/Plan/Examples.antt =====
-- The theorems on `PlanPatch`, at a patch with an unknown kind and an edge to nowhere.
use morph_api.Prelude.{◌≡◌, List, [], ◌∷◌, String, true, none, All}
use morph_api.Prelude.Decimal.{decimal}
use morph_api.Json.{end}
use morph_api.Graph.{at, Flow}
use morph_api.Patch.{PatchNode, PatchEdge, Patch}
use morph_api.Patch.Merge.{NodeKind}
use morph_api.Patch.Plan.{plan_patch, is_known}
use morph_api.Patch.Plan.Edges.{Joins, plan_patch-Joins}

abbrev kinds : List NodeKind
kinds = record { kind = "js"; defaults = none } ∷ []

abbrev drawn_node : String → String → PatchNode
drawn_node ref kind = record {
  ref = ref;
  kind = kind;
  title = "";
  key = "";
  scope = "";
  position = none;
  payload = end;
  note = "";
}

abbrev joined : String → String → PatchEdge
joined from to = record { from = from; to = to; port = ""; note = "" }

abbrev proposal : Patch
proposal = record {
  nodes = drawn_node "a" "js" ∷ drawn_node "b" "js" ∷ drawn_node "c" "nosuch" ∷ [];
  edges = joined "a" "b" ∷ joined "b" "c" ∷ [];
  notes = [];
}

abbrev bare_canvas : Flow
bare_canvas = record { nodes = []; edges = []; zoom = at 0 }

plan_patch-Joins_example :
    let flow = (plan_patch kinds decimal proposal bare_canvas).0 in
    All (Joins flow.nodes bare_canvas) flow.edges
    × All (λ n. is_known kinds n.kind ≡ true) flow.nodes
plan_patch-Joins_example = plan_patch-Joins kinds decimal proposal bare_canvas
