-- ===== src/Graph/Normalize/Examples.antt =====
-- The theorems on inflow/graph_normalize.go at concrete graphs.
use morph_api.Prelude.{◌≡◌, refl, false, [], ◌∷◌, String}
use morph_api.Json.{null}
use morph_api.Graph.{at, below, Point, Node, Flow}
use morph_api.Graph.Normalize.{normalize_graph}
use morph_api.Graph.Normalize.Laws.{normalize_graph-IsPlaced}

abbrev origin : Point
origin = record { x = at 0; y = at 0 }

abbrev bare : String → Node
bare id = record {
  id = id;
  kind = "js";
  payload = null;
  position = origin;
  computed = origin;
  width = at 0;
  height = at 0;
  initialized = false;
}

abbrev drawn : Flow
drawn = record {
  nodes =
      record (bare "a") { computed = record { x = below 3; y = at 7 }; width = at 9; height = at 5 }
      ∷ [];
  edges = [];
  zoom = at 2;
}

abbrev headless : Flow
headless = record {
  nodes = bare "a" ∷ bare "b" ∷ bare "c" ∷ bare "d" ∷ bare "e" ∷ [];
  edges = [];
  zoom = at 0;
}

normalize_graph-IsPlaced_example : normalize_graph drawn ≡ drawn
normalize_graph-IsPlaced_example =
    normalize_graph-IsPlaced drawn (record { placed = refl; wide = refl; high = refl }, tt) refl
