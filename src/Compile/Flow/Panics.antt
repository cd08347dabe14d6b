-- ===== src/Compile/Flow/Panics.antt =====
-- When a compile pass panics.
use morph_api.Prelude.{
  String, ◌≡◌, ◌↔◌, refl, subst, ◌∙◌, Bool, true, false, not, ◌&&◌, Option, none, some, List, [],
  ◌∷◌, arith,
}
use morph_api.Json.{Value, obj, Fields}
use morph_api.Graph.{Node, Flow}
use morph_api.Diagnostics.{Issue}
use morph_api.Compile.Read.{Floats}
use morph_api.Compile.Rules.{Kind, Fusion, Lowered, lowered, refused, panicked, kinds, find_kind}
use morph_api.Compile.Build.Panics.{is_readable, is_panicked, lower_kind-panics}
use morph_api.Compile.Flow.{
  CompileResult, get_start_node_id, node_builder, build_payload, crashes, unless_crashed, pass,
  compile_flow,
}
use morph_api.Compile.Nodes.{Graph, Walked, Built, has_crashed, scaffold}
use morph_api.Compile.Flow.Laws.{walked, compiled, result}

-- data that is an object is readable as the kind of its node asks; other data is refused, not read
abbrev pub is_sound : Fusion → Option Kind → Value → Bool
is_sound fusion k (obj fields) = is_readable fusion k fields
is_sound fusion k _ = true

unfoldable pub all_sound : Fusion → List Node → Bool
all_sound fusion [] = true
all_sound fusion (n ∷ ns) =
    is_sound fusion (find_kind kinds n.kind) n.payload && all_sound fusion ns

scaffold-crashed :
    (id : String) (fields : Fields) (l : Lowered)
    → has_crashed (scaffold id fields l) ≡ is_panicked l
scaffold-crashed id fields (lowered t r) = refl
scaffold-crashed id fields (refused e) = refl
scaffold-crashed id fields panicked = refl

module _ (floats : Floats) (parse_time : String → String → Option String) (fusion : Fusion) where
  build_payload-crashed :
      (n : Node) (v : Value)
      → has_crashed (build_payload floats parse_time fusion n v)
        ≡ not (is_sound fusion (find_kind kinds n.kind) v)
  build_payload-crashed n (obj fields) =
      scaffold-crashed n.id fields _
      ∙ lower_kind-panics floats parse_time fusion (find_kind kinds n.kind) n.id fields
  build_payload-crashed n _ = refl

  crashes_sound : (ns : List Node) → crashes floats parse_time fusion ns ≡ not (all_sound fusion ns)
  unfolding crashes all_sound node_builder
  crashes_sound [] = refl
  crashes_sound (n ∷ ns) = ground (arith, build_payload-crashed n n.payload, crashes_sound ns)

  module _ (walk : (Node → Built) → String → Flow → Walked)
      (guard : String → Graph → List Issue) where
    unless_crashed-none :
        (b : Bool) (r : CompileResult)
        → (unless_crashed floats parse_time fusion walk guard b r ≡ none) ↔ (b ≡ true)
    unless_crashed-none true r = (λ e. refl, λ e. refl)
    unless_crashed-none false r = (λ e. cc e, λ e. cc e)

    pass-none_iff :
        (on : Bool) (flow : Flow) (o : Option String)
        → (pass floats parse_time fusion walk guard on flow o ≡ none) ↔ (
            (id : String) × (o ≡ some id)
            × (all_sound fusion (walked floats parse_time fusion walk guard id flow).visited
                ≡ false))
    unfolding pass
    pass-none_iff on flow none = (λ e. cc e, λ h. cc h.1)
    pass-none_iff on flow (some id) =
        let w = walked floats parse_time fusion walk guard id flow in
        let (to, from) =
          unless_crashed-none (crashes floats parse_time fusion w.visited)
            (result floats parse_time fusion walk guard on flow id) in
        (
          λ e. (id, refl, ground (arith, to e, crashes_sound w.visited)),
          λ h.
              let same : h.0 ≡ id = cc h.1 in
              let unsound : all_sound fusion w.visited ≡ false =
                subst
                  (λ i.
                    all_sound fusion (walked floats parse_time fusion walk guard i flow).visited
                    ≡ false)
                  same h.2 in
              from (ground (arith, unsound, crashes_sound w.visited)),
        )

    -- A pass panics, with the guard or without it, exactly when the flow has a start node and the
    -- walk visits a node whose data is not readable for its kind.
    pub compile_flow-panics_iff :
        (on : Bool) (flow : Flow)
        → (compiled floats parse_time fusion walk guard on flow ≡ none) ↔ (
            (id : String) × (get_start_node_id flow.nodes ≡ some id)
            × (all_sound fusion (walked floats parse_time fusion walk guard id flow).visited
                ≡ false))
    unfolding compile_flow
    compile_flow-panics_iff on flow = pass-none_iff on flow (get_start_node_id flow.nodes)
