-- ===== src/Patch/Inspect.antt =====
-- The design mistakes that designer/patch.go reports.
use morph_api.Prelude.{
  ℕ, ◌+◌, String, code, Bool, true, false, not, ◌&&◌, ◌||◌, Option, none, some, List, [], ◌∷◌, ◌++◌,
  ◌==◌, eqb, ltb, leb, if◌then◌else◌,
}
use morph_api.Prelude.Text.{has_prefix, contains, trim_space, join}
use morph_api.Json.{
  Value, str, arr, obj, rows, Items, nil, cons, Fields, end, field, Rows, no_rows, row,
}
use morph_api.Graph.{Node, Edge, Flow}
use morph_api.Patch.{
  PatchNode, Problem, error, warn, many_scope_routes, many_scope_roots, runs_many_times,
  nothing_to_join, waits_on_many,
}
use morph_api.Patch.Values.{get, as_rows, as_str, or_empty, first_str, is_many_scope}
use morph_api.Patch.Ports.{decision_ports, is_decision_kind}
use morph_api.Prelude.Membership.{mem}
use morph_api.Patch.Reach.{loop_closing_edges}

abbrev has_rows : String → Fields → Bool
has_rows key m = elim (or_empty (as_rows (get key m))) [ [] ↦ false | r ∷ rs ↦ true ]

abbrev has_ports : Fields → Bool
has_ports m = elim (decision_ports m) [ [] ↦ false | p ∷ ps ↦ true ]

-- whether a node of that kind and data picks its branch by its result
unfoldable pub routes : String → Fields → Bool
routes kind m =
    kind == "llm" && has_rows "functions" m
    || is_decision_kind kind && has_ports m
    || kind == "rule" && has_rows "handlers" m
    || kind == "plugin" && has_rows "outbound" m

abbrev warning_at : PatchNode → (String → Problem) → List Problem
warning_at raw problem = problem (first_str (str raw.ref ∷ str raw.title ∷ str raw.kind ∷ [])) ∷ []

unfoldable pub inspect_scope : PatchNode → Fields → List Problem
inspect_scope raw m =
    let scope = as_str (get "scope" m) in
    if is_many_scope scope && routes raw.kind m
    then warning_at raw
        (λ ref. record { level = warn; at = ref; message = many_scope_routes ref scope })
    else []

-- `\s*\$\.` at the start
root_after : String → Bool
root_after String.[] = false
root_after (String.◌∷◌ c s) =
    has_prefix "$." (String.◌∷◌ c s)
    || (eqb (code c) 9 || eqb (code c) 10 || eqb (code c) 12 || eqb (code c) 13 || eqb (code c) 32)
      && root_after s

after_braces : String → Bool
unfolding root_after
after_braces String.[] = false
after_braces (String.◌∷◌ c s) = eqb (code c) b'{' && root_after s

-- whether `\{\{\s*\$\.` matches somewhere
unfoldable pub has_root_ref : String → Bool
unfolding after_braces
has_root_ref String.[] = false
has_root_ref (String.◌∷◌ c s) = eqb (code c) b'{' && after_braces s || has_root_ref s

abbrev is_code_key : String → Bool
is_code_key k = k == "logic_rule" || k == "opa_result"

-- A map's texts come in the order of its fields; the source has no order for them. A `[]string` is
-- none of the cases of the source.
unfoldable mutual
  pub collect_strings : Value → List String
  collect_strings (str s) = s ∷ []
  collect_strings (obj m) = collect_fields m
  collect_strings (arr vs) = collect_items vs
  collect_strings (rows rs) = collect_rows rs
  collect_strings _ = []

  pub collect_items : Items → List String
  collect_items nil = []
  collect_items (cons v vs) = collect_strings v ++ collect_items vs

  pub collect_fields : Fields → List String
  collect_fields end = []
  collect_fields (field k v m) =
      if is_code_key k then collect_fields m else collect_strings v ++ collect_fields m

  pub collect_rows : Rows → List String
  collect_rows no_rows = []
  collect_rows (row r rs) = collect_fields r ++ collect_rows rs

unfoldable pub inspect_row_refs : PatchNode → Fields → List Problem
inspect_row_refs raw m =
    let scope = as_str (get "scope" m) in
    let joined = join "\n" (collect_strings (obj m)) in
    if is_many_scope scope && has_root_ref joined && not (contains "$this" joined)
    then warning_at raw
        (λ ref. record { level = warn; at = ref; message = many_scope_roots ref scope })
    else []

-- the trimmed title, or the id
unfoldable pub node_label : Node → String
node_label n =
    let title : String = elim n.payload [ obj m ↦ trim_space (as_str (get "title" m)) | _ ↦ "" ] in
    if title == "" then n.id else title

-- `info[id]`, in which a later node replaces an earlier one
unfoldable pub find_node : List Node → String → Option Node
find_node [] id = none
find_node (n ∷ ns) id =
    let later = find_node ns id in
    elim later [ some l ↦ some l | none ↦ if n.id == id then some n else none ]

-- `inbound[id]`, over the edges and their marks
unfoldable pub inbound : String → List Edge → List Bool → ℕ
inbound id [] marks = 0
inbound id (e ∷ es) [] = 0
inbound id (e ∷ es) (back ∷ marks) =
    (if not back && e.target == id then 1 else 0) + inbound id es marks

-- the targets of some edges, each once, in the order of the first edge into it
unfoldable pub distinct_targets : List String → List Edge → List String
distinct_targets done [] = []
distinct_targets done (e ∷ es) =
    let skip = distinct_targets done es in
    let keep = distinct_targets (e.target ∷ done) es in
    if mem e.target done then skip else e.target ∷ keep

module _ (info : List Node) (count : String → ℕ) where
  -- The source walks a map here, in no order; the model takes the order of the edges.
  converging : List String → List Problem
  converging [] = []
  converging (id ∷ ids) =
      let rest = converging ids in
      elim (find_node info id) [
        | none ↦ rest
        | some n ↦
            if n.kind == "promissall" || leb (count id) 1
            then rest
            else record {
              level = warn;
              at = node_label n;
              message = runs_many_times (count id) (node_label n);
            }
              ∷ rest
      ]

  idle_joins : List Node → List Problem
  idle_joins [] = []
  idle_joins (n ∷ ns) =
      let rest = idle_joins ns in
      if n.kind == "promissall" && ltb (count n.id) 2
      then record {
        level = warn;
        at = node_label n;
        message = nothing_to_join (node_label n) (count n.id);
      }
        ∷ rest
      else rest

  -- the label that a missing node has is the empty one
  abbrev label_of : String → String
  label_of id = elim (find_node info id) [ none ↦ "" | some n ↦ node_label n ]

  stalled_joins : List Edge → List Problem
  stalled_joins [] = []
  stalled_joins (e ∷ es) =
      let rest = stalled_joins es in
      elim (find_node info e.target) [
        | none ↦ rest
        | some t ↦
            if t.kind == "promissall" && ltb 1 (count e.source)
            then record {
              level = error;
              at = node_label t;
              message = waits_on_many (node_label t) (label_of e.source);
            }
              ∷ rest
            else rest
      ]

-- `existing` is the canvas, empty where the source has none.
unfoldable pub inspect_convergence : List Node → List Edge → Flow → List Problem
unfolding converging idle_joins stalled_joins
inspect_convergence nodes edges existing =
    let info = nodes ++ existing.nodes in
    let all = existing.edges ++ edges in
    let count = λ (id : String). inbound id all (loop_closing_edges all) in
    converging info count (distinct_targets [] edges)
    ++ (idle_joins info count nodes ++ stalled_joins info count edges)
