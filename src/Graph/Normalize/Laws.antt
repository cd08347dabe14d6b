-- ===== src/Graph/Normalize/Laws.antt =====
-- Normalising fills what is missing, keeps what is there, and is done after one pass.
use morph_api.Prelude.{
  ℕ, ◌+◌, ◌≡◌, refl, inl, inr, Bool, true, false, ◌&&◌, List, [], ◌∷◌, arith, Bool-cases, All, map,
}
use morph_api.Graph.{Point, Node, Flow}
use morph_api.Graph.Normalize.{
  is_zero, at_origin, all_unplaced, grid, normalize_node, normalize_from, normalize_graph,
}

-- A graph in which some node is placed keeps each position, and a node that is placed and sized,
-- is left exactly as it is.
pub record IsPlaced (n : Node) : Type 0 where
  pub placed : at_origin n.computed ≡ false
  pub wide : is_zero n.width ≡ false
  pub high : is_zero n.height ≡ false

normalize_node-IsPlaced : (i : ℕ) (n : Node) → IsPlaced n → normalize_node false i n ≡ n
unfolding normalize_node
normalize_node-IsPlaced i n h = ground arith

abbrev pub grid_from : ℕ → List Node → List Point
grid_from i [] = []
grid_from i (n ∷ ns) = grid i ∷ grid_from (i + 1) ns

-- A second round, by either branch, changes nothing after the first one placed the node; and after
-- one that placed none.
normalize_node_idem :
    (v : Bool) (i : ℕ) (n : Node)
    → normalize_node v i (normalize_node true i n) ≡ normalize_node true i n
unfolding normalize_node
normalize_node_idem true i n = ground arith
normalize_node_idem false i n = ground arith

normalize_node_idem_placed :
    (i : ℕ) (n : Node)
    → normalize_node false i (normalize_node false i n) ≡ normalize_node false i n
unfolding normalize_node
normalize_node_idem_placed i n = ground arith

all_unplaced-normalize_from :
    (i : ℕ) (ns : List Node) → all_unplaced (normalize_from false i ns) ≡ all_unplaced ns
unfolding all_unplaced normalize_from
all_unplaced-normalize_from i [] = refl
all_unplaced-normalize_from i (n ∷ ns) = step n (all_unplaced-normalize_from (i + 1) ns)
  where
    step :
        (n : Node) {r s : Bool}
        → r ≡ s
        → (at_origin (normalize_node false i n).position
            && at_origin (normalize_node false i n).computed
            && r)
          ≡ (at_origin n.position && at_origin n.computed && s)
    step n e = unfold normalize_node in ground arith

normalize_from_idem :
    (v : Bool) (i : ℕ) (ns : List Node)
    → normalize_from v i (normalize_from true i ns) ≡ normalize_from true i ns
unfolding normalize_from
normalize_from_idem v i [] = refl
normalize_from_idem v i (n ∷ ns) = cc (normalize_node_idem v i n, normalize_from_idem v (i + 1) ns)

normalize_from_idem_placed :
    (i : ℕ) (ns : List Node)
    → normalize_from false i (normalize_from false i ns) ≡ normalize_from false i ns
unfolding normalize_from
normalize_from_idem_placed i [] = refl
normalize_from_idem_placed i (n ∷ ns) =
    cc (normalize_node_idem_placed i n, normalize_from_idem_placed (i + 1) ns)

normalize_from-IsPlaced :
    (i : ℕ) (ns : List Node) → All IsPlaced ns → normalize_from false i ns ≡ ns
unfolding normalize_from
normalize_from-IsPlaced i [] h = refl
normalize_from-IsPlaced i (n ∷ ns) (p, h) =
    cc (normalize_node-IsPlaced i n p, normalize_from-IsPlaced (i + 1) ns h)

normalize_from-All-IsPlaced :
    (ns : List Node) → All IsPlaced ns → normalize_from (all_unplaced ns) 0 ns ≡ ns
unfolding all_unplaced
normalize_from-All-IsPlaced [] h = unfold normalize_from in refl
normalize_from-All-IsPlaced (n ∷ ns) (p, h) =
    let seen : all_unplaced (n ∷ ns) ≡ false = ground arith in
    rw seen (normalize_from-IsPlaced 0 (n ∷ ns) (p, h))

normalize_from-grid :
    (i : ℕ) (ns : List Node) → map (λ n. n.position) (normalize_from true i ns) ≡ grid_from i ns
unfolding normalize_from
normalize_from-grid i [] = refl
normalize_from-grid i (n ∷ ns) = cc (step, normalize_from-grid (i + 1) ns)
  where
    step : (normalize_node true i n).position ≡ grid i
    step = unfold normalize_node in ground arith

-- Normalising a graph a second time changes nothing: neither a layout, nor a size, nor the zoom.
pub normalize_graph_idem : (f : Flow) → normalize_graph (normalize_graph f) ≡ normalize_graph f
unfolding normalize_graph
normalize_graph_idem f = elim (Bool-cases (all_unplaced f.nodes)) [
  | inl u ↦
      ground (arith, normalize_from_idem (all_unplaced (normalize_from true 0 f.nodes)) 0 f.nodes)
  | inr u ↦
      ground (arith, all_unplaced-normalize_from 0 f.nodes, normalize_from_idem_placed 0 f.nodes)
]

-- A graph with a real zoom, all of whose nodes are placed and sized, passes through untouched.
pub normalize_graph-IsPlaced :
    (f : Flow) → All IsPlaced f.nodes → is_zero f.zoom ≡ false → normalize_graph f ≡ f
unfolding normalize_graph
normalize_graph-IsPlaced f h z = ground (arith, normalize_from-All-IsPlaced f.nodes h)

-- In a graph with no placement at all, the nodes land on the grid in their order.
pub normalize_graph-grid :
    (f : Flow)
    → all_unplaced f.nodes ≡ true
    → map (λ n. n.position) (normalize_graph f).nodes ≡ grid_from 0 f.nodes
unfolding normalize_graph
normalize_graph-grid f u = rw u (normalize_from-grid 0 f.nodes)
