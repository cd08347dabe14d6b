-- ===== src/Graph/Normalize.antt =====
-- inflow/graph_normalize.go
pub mod Laws
mod Examples
use morph_api.Prelude.{
  ℕ, ◌+◌, ◌*◌, ◌/◌, ◌%◌, Bool, true, false, not, ◌&&◌, ◌||◌, List, [], ◌∷◌, eqb, if◌then◌else◌,
}
use morph_api.Graph.{Coord, at, below, Point, Node, Flow}

-- `c == 0`
abbrev pub is_zero : Coord → Bool
is_zero (at n) = eqb n 0
is_zero (below n) = false

abbrev pub at_origin : Point → Bool
at_origin p = is_zero p.x && is_zero p.y

-- the loop that finds a node with a real position
unfoldable pub all_unplaced : List Node → Bool
all_unplaced [] = true
all_unplaced (n ∷ ns) = at_origin n.position && at_origin n.computed && all_unplaced ns

-- The place of the i-th node of a graph with no placement: rows of 4, 320 apart and 160 down.
abbrev pub grid : ℕ → Point
grid i = record { x = at (i % 4 * 320); y = at (i / 4 * 160) }

pub place : Bool → ℕ → Node → Node
place unplaced i n = if unplaced then record n { position = grid i; initialized = true } else n

pub follow : Node → Node
follow n = if at_origin n.computed then record n { computed = n.position } else n

abbrev default_to : ℕ → Coord → Coord
default_to d c = if is_zero c then at d else c

pub measure : Node → Node
measure n = record n { width = default_to 240 n.width; height = default_to 120 n.height }

-- one round of the second loop
unfoldable pub normalize_node : Bool → ℕ → Node → Node
unfolding place follow measure
normalize_node unplaced i n = measure (follow (place unplaced i n))

pub normalize_from : Bool → ℕ → List Node → List Node
normalize_from unplaced i [] = []
normalize_from unplaced i (n ∷ ns) =
    normalize_node unplaced i n ∷ normalize_from unplaced (i + 1) ns

unfoldable pub normalize_graph : Flow → Flow
unfolding normalize_from
normalize_graph f = record f {
  nodes = normalize_from (all_unplaced f.nodes) 0 f.nodes;
  zoom = default_to 1 f.zoom;
}
