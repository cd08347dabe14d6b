-- ===== src/Patch/Plan/Edges.antt =====
-- The loop over the edges of a patch, and the planned graph as a whole.
use morph_api.Prelude.{
  ℕ, ◌+◌, String, ◌≡◌, refl, ◌∙◌, inl, inr, Bool, true, false, ◌||◌, Option, none, some, List, [],
  ◌∷◌, ◌==◌, if◌then◌else◌, arith, length, length-append, All, All-append, Bool-cases,
}
use morph_api.Prelude.Text.{append, trim_space}
use morph_api.Graph.{Node, Edge, Flow}
use morph_api.Patch.{PatchEdge, Patch, Problem}
use morph_api.Patch.Ports.{Resolved}
use morph_api.Patch.Ports.Laws.{reports_error, resolve_port-drop}
use morph_api.Patch.Merge.{NodeKind}
use morph_api.Patch.Plan.{
  Plan, find, has_id, complain, resolve_endpoint, label_of, report_at, add_edge, on_canvas, wire,
  plan_nodes, plan_edge, plan_edges, plan_patch, start, is_known,
}
use morph_api.Patch.Plan.Nodes.{
  is_error, error_count, error_count-complain, plan_nodes-IsPlanned, plan_nodes-edges,
}

-- The id of a planned node or of one on the canvas.
abbrev pub is_endpoint : List Node → Flow → String → Bool
is_endpoint nodes existing id = has_id id nodes || has_id id existing.nodes

-- Both ends of the edge are nodes.
abbrev pub Joins : List Node → Flow → Edge → Type 0
Joins nodes existing e =
    (is_endpoint nodes existing e.source ≡ true) × (is_endpoint nodes existing e.target ≡ true)

on_canvas-known :
    (key : String) (o : Option String) (ns : List Node) (existing : Flow)
    → ((id : String) → o ≡ some id → has_id id ns ≡ true)
    → (on_canvas key existing.nodes o == "") ≡ false
    → is_endpoint ns existing (on_canvas key existing.nodes o) ≡ true
on_canvas-known key (some id) ns existing led ne = ground (arith, led id refl)
on_canvas-known key none ns existing led ne = elim (Bool-cases (has_id key existing.nodes)) [
  | inl e ↦ rw e (ground (arith, e))
  | inr e ↦ cc (rw e at ne)
]

resolve_endpoint-known :
    (ref : String) (m : List (String × String)) (ns : List Node) (existing : Flow)
    → ((r id : String) → find r m ≡ some id → has_id id ns ≡ true)
    → (resolve_endpoint ref m existing.nodes == "") ≡ false
    → is_endpoint ns existing (resolve_endpoint ref m existing.nodes) ≡ true
unfolding resolve_endpoint
resolve_endpoint-known ref m ns existing led ne = elim (Bool-cases (trim_space ref == "")) [
  | inl e ↦ cc (rw e at ne)
  | inr e ↦ rw e (
      on_canvas-known (trim_space ref) (find (trim_space ref) m) ns existing
        (λ id f. led (trim_space ref) id f) (rw e at ne))
]

report_at-keeps :
    (label : String) (p : Option Problem) (s : Plan)
    → ((report_at label p s).nodes ≡ s.nodes)
      × ((report_at label p s).edges ≡ s.edges)
      × ((report_at label p s).id_by_ref ≡ s.id_by_ref)
report_at-keeps label none s = (refl, refl, refl)
report_at-keeps label (some p) s = (refl, refl, refl)

report_at-count :
    (label : String) (p : Option Problem) (s : Plan)
    → error_count (report_at label p s).problems
      ≡ error_count s.problems + (if reports_error p then 1 else 0)
report_at-count label none s = omega arith
report_at-count label (some p) s = error_count-complain s (record p { at = label })

wire-count :
    (short_id : ℕ → String) (label source target : String) (r : Resolved) (s : Plan)
    → r.drop ≡ reports_error r.problem
    → let s' = wire short_id label source target r s in
      length s'.edges + error_count s'.problems ≡ length s.edges + error_count s.problems + 1
unfolding wire add_edge
wire-count short_id label source target r s d = ground (
  arith,
  report_at-keeps label r.problem s,
  report_at-count label r.problem s,
  length-append (report_at label r.problem s).edges (
      record {
        id = append "e-" (short_id (report_at label r.problem s).supply);
        source = source;
        target = target;
        source_handle = r.handle;
        tags = r.tags;
      }
      ∷ []),
)

complain-edge-count :
    (s : Plan) (p : Problem)
    → is_error p ≡ true
    → length s.edges + error_count (complain p s).problems
      ≡ length s.edges + error_count s.problems + 1
complain-edge-count s p e = ground (arith, error_count-complain s p)

module _ (short_id : ℕ → String) (existing : Flow) where
  abbrev unresolved : PatchEdge → Plan → Bool
  unresolved raw s =
      resolve_endpoint raw.from s.id_by_ref existing.nodes == ""
      || resolve_endpoint raw.to s.id_by_ref existing.nodes == ""

  -- A round over an edge leaves the nodes and the refs alone.
  plan_edge-keeps :
      (raw : PatchEdge) (s : Plan)
      → ((plan_edge short_id existing raw s).nodes ≡ s.nodes)
        × ((plan_edge short_id existing raw s).id_by_ref ≡ s.id_by_ref)
  unfolding plan_edge wire add_edge
  plan_edge-keeps raw s = ground arith

  -- One more edge, or one more error.
  plan_edge-count :
      (raw : PatchEdge) (s : Plan)
      → let s' = plan_edge short_id existing raw s in
        length s'.edges + error_count s'.problems ≡ length s.edges + error_count s.problems + 1
  unfolding plan_edge
  plan_edge-count raw s = elim (Bool-cases (unresolved raw s)) [
    | inl e ↦ rw e (complain-edge-count s _ refl)
    | inr e ↦ rw e (wire-count short_id (label_of raw) _ _ _ s (resolve_port-drop _ _ raw.port).1)
  ]

  -- Adding edges keeps their ends among the nodes.
  wire-Joins :
      (label source target : String) (r : Resolved) (s : Plan) (ns : List Node)
      → is_endpoint ns existing source ≡ true
      → is_endpoint ns existing target ≡ true
      → All (Joins ns existing) s.edges
      → All (Joins ns existing) (wire short_id label source target r s).edges
  unfolding wire
  wire-Joins label source target r s ns p q h =
      let kept : All (Joins ns existing) (report_at label r.problem s).edges =
        rw (report_at-keeps label r.problem s).1 h in
      elim (Bool-cases r.drop) [
        | inl e ↦ rw e kept
        | inr e ↦ rw e (
            unfold add_edge in
            All-append (Joins ns existing) (report_at label r.problem s).edges kept (p, q))
      ]

  plan_edge-Joins :
      (raw : PatchEdge) (s : Plan)
      → ((r id : String) → find r s.id_by_ref ≡ some id → has_id id s.nodes ≡ true)
      → All (Joins s.nodes existing) s.edges
      → All (Joins s.nodes existing) (plan_edge short_id existing raw s).edges
  unfolding plan_edge
  plan_edge-Joins raw s led h = elim (Bool-cases (unresolved raw s)) [
    | inl e ↦ rw e h
    | inr e ↦ rw e (
        wire-Joins (label_of raw) _ _ _ s s.nodes
          (resolve_endpoint-known raw.from s.id_by_ref s.nodes existing led (ground arith))
          (resolve_endpoint-known raw.to s.id_by_ref s.nodes existing led (ground arith)) h)
  ]

  plan_edges-Joins :
      (raws : List PatchEdge) (s : Plan)
      → ((r id : String) → find r s.id_by_ref ≡ some id → has_id id s.nodes ≡ true)
      → All (Joins s.nodes existing) s.edges
      → let s' = plan_edges short_id existing raws s in
        (s'.nodes ≡ s.nodes) × All (Joins s.nodes existing) s'.edges
  unfolding plan_edges plan_edge
  plan_edges-Joins [] s led h = (refl, h)
  plan_edges-Joins (raw ∷ raws) s led h =
      let t = plan_edge short_id existing raw s in
      let (same, refs) = plan_edge-keeps raw s in
      let (e, j) =
        plan_edges-Joins raws t (λ r id f. rw same (led r id (rw refs at f)))
          (rw same (plan_edge-Joins raw s led h)) in
      (e ∙ same, rw same at j)

  plan_edges-nodes :
      (raws : List PatchEdge) (s : Plan) → (plan_edges short_id existing raws s).nodes ≡ s.nodes
  unfolding plan_edges
  plan_edges-nodes [] s = refl
  plan_edges-nodes (raw ∷ raws) s =
      plan_edges-nodes raws (plan_edge short_id existing raw s) ∙ (plan_edge-keeps raw s).0

  plan_edges-count :
      (raws : List PatchEdge) (s : Plan)
      → let s' = plan_edges short_id existing raws s in
        length s'.edges + error_count s'.problems
        ≡ length s.edges + error_count s.problems + length raws
  unfolding plan_edges
  plan_edges-count [] s = omega arith
  plan_edges-count (raw ∷ raws) s =
      omega
        (arith, plan_edges-count raws (plan_edge short_id existing raw s), plan_edge-count raw s)

module _ (catalog : List NodeKind) (short_id : ℕ → String) where
  -- In a planned graph both ends of each edge are nodes, of the plan or of the canvas, and each node's
  -- kind is of the catalog or a plugin's.
  pub plan_patch-Joins :
      (patch : Patch) (existing : Flow)
      → let flow = (plan_patch catalog short_id patch existing).0 in
        All (Joins flow.nodes existing) flow.edges
        × All (λ n. is_known catalog n.kind ≡ true) flow.nodes
  unfolding plan_patch
  plan_patch-Joins patch existing =
      let placed = plan_nodes catalog short_id 0 patch.nodes start in
      let h =
        plan_nodes-IsPlanned catalog short_id 0 patch.nodes start
          (record { known = tt; led = λ r id e. unfold find in cc }) in
      let none_yet : All (Joins placed.nodes existing) placed.edges =
        rw (plan_nodes-edges catalog short_id 0 patch.nodes start) tt in
      let (same, joins) = plan_edges-Joins short_id existing patch.edges placed h.led none_yet in
      (rw same joins, rw same h.known)
