-- ===== src/Compile/Flow/Laws.antt =====
-- What a compile pass answers: the graph, and when it reports an error.
use morph_api.Prelude.{
  String, ◌≡◌, ◌≢◌, ◌↔◌, refl, subst, ap, inl, inr, Bool, true, false, Option, none, some, List, [],
  ◌∷◌, arith, length, All, Bool-cases, Option-cases,
}
use morph_api.Graph.{Node, Flow}
use morph_api.Diagnostics.{Issue, Diagnostics, select, errors, add, err, compile_err}
use morph_api.Diagnostics.Laws.{IsConsistent, add-IsConsistent, All-add_iff}
use morph_api.Diagnostics.Verdicts.{IsVerdict, compile_err-eq-none_iff, err-none_iff}
use morph_api.Compile.Read.{Floats}
use morph_api.Compile.Rules.{Fusion}
use morph_api.Compile.Flow.{
  CompileResult, get_start_node_id, keep_walk_errors, build_errors, node_builder, crashes, clean,
  start_missing, add_build_issues, unreachable_issues, wire_joins, guarded, finish, pass,
  compile_flow,
}
use morph_api.Compile.Nodes.{find, sorted_keys}
use morph_api.Compile.Nodes.{Graph, Walked, Built, Failure, or_no_nodes}
use morph_api.Compile.Flow.Joins.{is_join, Wired, waiting-Wired, find-wire_joins}
use morph_api.Compile.Flow.Blame.{
  Refuses, Builds, Blamed, hook, failures-nil_iff, failures-name, failures-Blamed,
  add_build_issues-names, names-add_build_issues,
}
use morph_api.Compile.Flow.Refusals.{
  IsOwn, IsOwn-errors, IsOwn-verdicts, length-nil_iff, add_build_issues-IsOwn, IsOwn-errors,
  IsOwn-verdicts, length-nil_iff, add_build_issues-IsConsistent, length-add_build_issues,
  sorted_keys-found, length-sorted_keys,
}

module _ (floats : Floats) (parse_time : String → String → Option String) (fusion : Fusion)
    (walk : (Node → Built) → String → Flow → Walked) (guard : String → Graph → List Issue) where
  abbrev pub walked : String → Flow → Walked
  walked id flow = walk (node_builder floats parse_time fusion) id flow

  abbrev pub compiled : Bool → Flow → Option CompileResult
  compiled on flow = compile_flow floats parse_time fusion walk guard on flow

  abbrev pub result : Bool → Flow → String → CompileResult
  result on flow id = finish floats parse_time fusion walk guard on flow id (walked id flow)

  compiled-result :
      (on : Bool) (flow : Flow) (r : CompileResult) (id : String)
      → get_start_node_id flow.nodes ≡ some id
      → compiled on flow ≡ some r
      → result on flow id ≡ r
  unfolding compile_flow pass
  compiled-result on flow r id s h =
      elim (Bool-cases (crashes floats parse_time fusion (walked id flow).visited)) [
        | inl e ↦ cc (rw (s, pass, e) at h)
        | inr e ↦ cc (rw (s, pass, e) at h)
      ]

  abbrev missing : CompileResult
  missing = record {
    start_node_id = "";
    nodes = [];
    diagnostics = add (clean "") (start_missing ∷ []);
  }

  missing-result :
      (on : Bool) (flow : Flow) (r : CompileResult)
      → get_start_node_id flow.nodes ≡ none
      → compiled on flow ≡ some r
      → missing ≡ r
  unfolding compile_flow pass
  missing-result on flow r s h = cc (rw (s, pass) at h)

  abbrev pub failures : Walked → List (String × Failure)
  failures w = keep_walk_errors w.errors (build_errors floats parse_time fusion w.visited [])

  lowering : Flow → String → Walked → Diagnostics
  lowering flow id w =
      add_build_issues flow.nodes (failures w) (sorted_keys (failures w)) (clean id)

  lowering-IsConsistent :
      (flow : Flow) (id : String) (w : Walked) → IsConsistent (lowering flow id w)
  unfolding lowering select
  lowering-IsConsistent flow id w =
      add_build_issues-IsConsistent flow.nodes (failures w) (sorted_keys (failures w)) (clean id)
        (record { sorted = refl; errors_counted = refl; others_counted = refl; flagged = refl })

  lowering-IsOwn : (flow : Flow) (id : String) (w : Walked) → All IsOwn (lowering flow id w).issues
  unfolding lowering
  lowering-IsOwn flow id w =
      add_build_issues-IsOwn flow.nodes (failures w) (sorted_keys (failures w)) (clean id) tt

  length-lowering :
      (flow : Flow) (id : String) (w : Walked)
      → length (lowering flow id w).issues ≡ length (failures w)
  unfolding lowering
  length-lowering flow id w = omega (
    arith,
    length-add_build_issues flow.nodes (failures w) (sorted_keys (failures w)) (clean id)
        (sorted_keys-found (failures w)),
    length-sorted_keys (failures w),
  )

  guarded-IsConsistent :
      (on : Bool) (flow : Flow) (id : String) (g : Graph) (errs : List (String × Failure))
      (d : Diagnostics)
      → IsConsistent d
      → IsConsistent (guarded floats parse_time fusion walk guard on flow id g errs d)
  unfolding guarded
  guarded-IsConsistent false flow id g errs d c = c
  guarded-IsConsistent true flow id g [] d c =
      add-IsConsistent (add d (guard id g)) (unreachable_issues flow.nodes g flow.nodes)
  guarded-IsConsistent true flow id g (e ∷ errs) d c = add-IsConsistent d (guard id g)

  -- The nodes of a compiled flow: those that the walk left, in which a compiled fan-in waits for exactly
  -- the nodes from which an edge of the flow leads into it, and which are otherwise as the walk left
  -- them, with the guard or without it.
  pub compile_flow-joins :
      (on : Bool) (flow : Flow) (r : CompileResult) (id j : String)
      → get_start_node_id flow.nodes ≡ some id
      → compiled on flow ≡ some r
      → Wired
          (is_join flow.nodes j)
          flow.edges
          j
          (find j (or_no_nodes (walked id flow).graph))
          (find j r.nodes)
  unfolding finish
  compile_flow-joins on flow r id j s h =
      let before = find j (or_no_nodes (walked id flow).graph) in
      subst (λ x. Wired (is_join flow.nodes j) flow.edges j before (find j x.nodes))
        (compiled-result on flow r id s h)
        (rw (find-wire_joins flow.edges flow.nodes (or_no_nodes (walked id flow).graph) j)
          (waiting-Wired (is_join flow.nodes j) flow.edges j before))

  -- Whatever a pass comes to, its diagnosis is consistent: the list, the counts and the flag belong
  -- together.
  pub compile_flow-IsConsistent :
      (on : Bool) (flow : Flow) (r : CompileResult)
      → compiled on flow ≡ some r
      → IsConsistent r.diagnostics
  unfolding finish compile_flow pass lowering
  compile_flow-IsConsistent on flow r h = elim (Option-cases (get_start_node_id flow.nodes)) [
    | inl e ↦
        let same : add (clean "") (start_missing ∷ []) ≡ r.diagnostics =
          ap (λ x. x.diagnostics) (missing-result on flow r e h) in
        subst IsConsistent same (add-IsConsistent (clean "") (start_missing ∷ []))
    | inr (id, e) ↦
        subst (λ x. IsConsistent x.diagnostics) (compiled-result on flow r id e h)
          (guarded-IsConsistent on flow id _ (failures (walked id flow)) _
            (lowering-IsConsistent flow id (walked id flow)))
  ]

  lowering-names :
      (flow : Flow) (id k : String) (w : Walked)
      → Refuses (hook floats parse_time fusion) k w.visited
      → ¬ All (λ i. i.node_id ≢ k) (lowering flow id w).issues
  unfolding lowering
  lowering-names flow id k w r h =
      failures-name floats parse_time fusion k w.visited w.errors r
        (names-add_build_issues flow.nodes (failures w) (λ j. j ≢ k) (sorted_keys (failures w))
          (clean id) (sorted_keys-found (failures w)) h).0

  lowering-blames :
      (flow : Flow) (id : String) (w : Walked)
      → All
          (λ i. Blamed (hook floats parse_time fusion) w.visited w.errors i.node_id)
          (lowering flow id w).issues
  unfolding lowering
  lowering-blames flow id w =
      add_build_issues-names flow.nodes (failures w)
        (Blamed (hook floats parse_time fusion) w.visited w.errors) (sorted_keys (failures w))
        (clean id) (failures-Blamed floats parse_time fusion w.visited w.errors) tt

  -- What the diagnosis of a pass without the guard says of the walk.
  abbrev pub Reports : (Issue → String) → Walked → Diagnostics → Type 0
  Reports text w d =
      ((err text d ≡ none) ↔ ((w.errors ≡ []) × Builds (hook floats parse_time fusion) w.visited))
      × ((k : String)
          → Refuses (hook floats parse_time fusion) k w.visited
          → ¬ All (λ i. i.node_id ≢ k) d.issues)
      × All (λ i. Blamed (hook floats parse_time fusion) w.visited w.errors i.node_id) d.issues
      × All IsOwn d.issues

  -- When the start node is there, a pass without the guard reports no error exactly when the walk had
  -- none and the hook refused no node that it was called on. Not one of the refused nodes is missing
  -- from the issues; each issue names a refused node or, if there is none, the node of the walk's first
  -- error; and all are errors, none a guard's verdict.
  pub compile_flow-err_iff :
      (text : Issue → String) (flow : Flow) (r : CompileResult) (id : String)
      → get_start_node_id flow.nodes ≡ some id
      → compiled false flow ≡ some r
      → Reports text (walked id flow) r.diagnostics
  unfolding finish guarded errors lowering add_build_issues
  compile_flow-err_iff text flow r id s h =
      let w = walked id flow in
      let own = lowering-IsOwn flow id w in
      let (to, from) = err-none_iff text (lowering flow id w) in
      let (to', from') = IsOwn-errors (lowering flow id w).issues own in
      let (to'', from'') =
        length-nil_iff (lowering flow id w).issues (failures w) (length-lowering flow id w) in
      let (clear, back) = failures-nil_iff floats parse_time fusion w.visited w.errors in
      subst (λ x. Reports text w x.diagnostics) (compiled-result false flow r id s h)
        (
          (λ e. clear (to'' (to' (to e))), λ e. from (from' (from'' (back e)))),
          λ k. lowering-names flow id k w,
          lowering-blames flow id w,
          own,
        )

  unreachable-IsVerdict :
      (all : List Node) (g : Graph) (ns : List Node) → All IsVerdict (unreachable_issues all g ns)
  unfolding unreachable_issues
  unreachable-IsVerdict all g [] = tt
  unreachable-IsVerdict all g (n ∷ ns) = elim (Option-cases (find n.id g)) [
    | inl e ↦ rw (e, All) (λ p. refl, unreachable-IsVerdict all g ns)
    | inr (c, e) ↦ rw (e, All) (unreachable-IsVerdict all g ns)
  ]

  guarded-verdicts :
      (flow : Flow) (id : String) (g : Graph) (errs : List (String × Failure)) (d : Diagnostics)
      → All IsVerdict (guard id g)
      → All IsVerdict (guarded floats parse_time fusion walk guard true flow id g errs d).issues
        ↔ All IsVerdict d.issues
  unfolding guarded
  guarded-verdicts flow id g (e ∷ errs) d v =
      let (to, from) = All-add_iff IsVerdict d (guard id g) in (λ h. (to h).0, λ h. from (h, v))
  guarded-verdicts flow id g [] d v =
      let (to, from) = All-add_iff IsVerdict d (guard id g) in
      let missed = unreachable_issues flow.nodes g flow.nodes in
      let (to', from') = All-add_iff IsVerdict (add d (guard id g)) missed in
      (
        λ h. (to (to' h).0).0,
        λ h. from' (from (h, v), unreachable-IsVerdict flow.nodes g flow.nodes),
      )

  SameLowering : (Issue → String) → CompileResult → CompileResult → Type 0
  SameLowering text r plain =
      (r.nodes ≡ plain.nodes)
      × (r.start_node_id ≡ plain.start_node_id)
      × ((compile_err text r.diagnostics ≡ none) ↔ (err text plain.diagnostics ≡ none))

  result-guard :
      (text : Issue → String) (flow : Flow) (id : String)
      → ((g : Graph) → All IsVerdict (guard id g))
      → SameLowering text (result true flow id) (result false flow id)
  unfolding SameLowering finish guarded lowering errors
  result-guard text flow id v =
      let w = walked id flow in
      let g = wire_joins flow.edges flow.nodes (or_no_nodes w.graph) in
      let d = lowering flow id w in
      let own = lowering-IsOwn flow id w in
      let (to, from) =
        compile_err-eq-none_iff text
          (guarded floats parse_time fusion walk guard true flow id g (failures w) d) in
      let (kept, back) = guarded-verdicts flow id g (failures w) d (v g) in
      let (nil, verdicts) = IsOwn-verdicts d.issues own in
      let (nil', none') = err-none_iff text d in
      let (empty, errors') = IsOwn-errors d.issues own in
      (
        refl,
        refl,
        (λ e. none' (errors' (nil (kept (to e)))), λ e. from (back (verdicts (empty (nil' e))))),
      )

  -- A guard that gives verdicts changes neither the graph nor what `CompileErr` says of the pass: a
  -- guarded pass has a compile error exactly when the plain pass has an error.
  pub compile_flow-guard :
      (text : Issue → String) (flow : Flow) (r plain : CompileResult) (id : String)
      → ((g : Graph) → All IsVerdict (guard id g))
      → get_start_node_id flow.nodes ≡ some id
      → compiled true flow ≡ some r
      → compiled false flow ≡ some plain
      → (r.nodes ≡ plain.nodes)
        × (r.start_node_id ≡ plain.start_node_id)
        × ((compile_err text r.diagnostics ≡ none) ↔ (err text plain.diagnostics ≡ none))
  unfolding SameLowering
  compile_flow-guard text flow r plain id v s h k =
      subst (λ x. SameLowering text x plain) (compiled-result true flow r id s h)
        (subst (λ y. SameLowering text (result true flow id) y)
          (compiled-result false flow plain id s k) (result-guard text flow id v))
