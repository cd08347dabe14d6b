-- ===== src/Plugins/Listed.antt =====
-- What the list of plugins holds of a node that calls an imported plugin.
use Prim.Native.String.{[], ◌∷◌}
use morph_api.Prelude.{
  String, code, eqb, Bool, true, false, not, Option, none, some, List, [], ◌∷◌, ◌==◌, ◌≡◌, refl,
  ◌∙◌, ap, ◌⊎◌, inl, inr, arith, eq_iff, eq_refl, if-split, All, Bool-cases, Option-cases,
}
use morph_api.Prelude.Text.{append, trim_space}
use morph_api.Prelude.Text.Laws.{append_cancel_left}
use morph_api.Prelude.Any.{Any, Any-sort_by, mem-Any}
use morph_api.Prelude.Membership.{mem, mem-append}
use morph_api.Prelude.Sort.{text_less}
use morph_api.Graph.{Node, Edge, Flow}
use morph_api.Plugins.{
  ExtensionKind, builtin, extension, FlowPlugin, Group, plugin_backed_node_type, is_connected,
  plugin_id_of, action_of, group_key, new_group, count_node, put_node, served_as, put_served,
  group_nodes, finish_all, listed_before, collect_flow_plugins,
}

-- an edge of the flow ends or starts at the node
abbrev pub Touches : String → List Edge → Type 0
Touches id es = Any (λ (e : Edge). (e.source ≡ id) ⊎ (e.target ≡ id)) es

-- The entry is that of an imported plugin, with this id, and has the action.
abbrev pub Lists : String → String → FlowPlugin → Type 0
Lists plugin_id action p =
    (p.kind ≡ extension) × (p.plugin_id ≡ plugin_id) × Any (λ a. a ≡ action) p.actions

Touches-is_connected :
    (id : String) (es : List Edge) → (id == "") ≡ false → Touches id es → is_connected es id ≡ true
unfolding is_connected
Touches-is_connected id [] ne h = absurd h
Touches-is_connected id (e ∷ es) ne (inl (inl s)) = ground (arith, s, ne, eq_iff e.source id)
Touches-is_connected id (e ∷ es) ne (inl (inr t)) = ground (arith, t, ne, eq_iff e.target id)
Touches-is_connected id (e ∷ es) ne (inr h) = ground (arith, Touches-is_connected id es ne h)

plugin_kind :
    (kind : String)
    → trim_space kind ≡ "plugin"
    → plugin_backed_node_type kind ≡ some ("plugin", extension)
unfolding plugin_backed_node_type
plugin_kind kind k = rw (plugin_backed_node_type, k) refl

-- the first letter tells the keys of imported plugins from the others
abbrev first_is_p : String → Bool
first_is_p [] = false
first_is_p (c ∷ s) = eqb (code c) 112

abbrev key_is_p : Option String → Bool
key_is_p none = false
key_is_p (some s) = first_is_p s

not_p : (o : Option String) (t : String) → key_is_p o ≡ false → o ≡ some (append "plugin:" t) → ⊥
not_p o t e h = let same : key_is_p o ≡ true = ap key_is_p h in absurd (cc (e, same))

module _ (plugin_id action : String) (named : (plugin_id == "") ≡ false)
    (acts : (action == "") ≡ false) where
  abbrev own_key : String
  own_key = append "plugin:" plugin_id

  -- what a group with the key of the plugin is
  abbrev Sound : Group → Type 0
  Sound g = g.key ≡ own_key → (g.entry.kind ≡ extension) × (g.entry.plugin_id ≡ plugin_id)

  abbrev Has : Group → Type 0
  Has g =
      (g.entry.kind ≡ extension)
      × (g.entry.plugin_id ≡ plugin_id)
      × (mem action g.entry.actions ≡ true)

  count_node-Has :
      (n : Node) (g : Group)
      → action_of n ≡ action
      → (g.entry.kind ≡ extension) × (g.entry.plugin_id ≡ plugin_id)
      → Has (count_node extension n g)
  unfolding mem
  count_node-Has n g a (k, p) = (
    k,
    ground (arith, named, p),
    ground (arith, acts, a, mem-append action g.entry.actions (action_of n ∷ []), eq_refl action),
  )

  count_node-keeps :
      (kind : ExtensionKind) (n : Node) (g : Group) → Has g → Has (count_node kind n g)
  count_node-keeps builtin n g (k, p, a) = (k, ground (arith, named, p), a)
  count_node-keeps extension n g (k, p, a) = (
    k,
    ground (arith, named, p),
    ground (arith, a, mem-append action g.entry.actions (action_of n ∷ [])),
  )

  count_node-Sound :
      (kind : ExtensionKind) (n : Node) (g : Group) → Sound g → Sound (count_node kind n g)
  count_node-Sound kind n g s e = let (k, p) = s e in (k, ground (arith, named, p))

  put_node-Sound :
      (key type : String) (kind : ExtensionKind) (n : Node) (gs : List Group)
      → (key ≡ own_key → (kind ≡ extension) × (plugin_id_of n ≡ plugin_id))
      → All Sound gs
      → All Sound (put_node key (type, kind) n gs)
  unfolding put_node
  put_node-Sound key type kind n [] own h =
      (count_node-Sound kind n (new_group key (type, kind) n) own, tt)
  put_node-Sound key type kind n (g ∷ gs) own (s, h) =
      if-split (All Sound) (g.key == key) _ _ (λ e. (count_node-Sound kind n g s, h))
        (λ e. (s, put_node-Sound key type kind n gs own h))

  put_node-Has :
      (type : String) (n : Node) (gs : List Group)
      → plugin_id_of n ≡ plugin_id
      → action_of n ≡ action
      → All Sound gs
      → Any Has (put_node own_key (type, extension) n gs)
  unfolding put_node
  put_node-Has type n [] p a h =
      inl (count_node-Has n (new_group own_key (type, extension) n) a (refl, p))
  put_node-Has type n (g ∷ gs) p a (s, h) =
      if-split (Any Has) (g.key == own_key) _ _
        (λ e. inl (count_node-Has n g a (s (ground (arith, eq_iff g.key own_key)))))
        (λ e. inr (put_node-Has type n gs p a h))

  put_node-keeps :
      (key type : String) (kind : ExtensionKind) (n : Node) (gs : List Group)
      → Any Has gs
      → Any Has (put_node key (type, kind) n gs)
  unfolding put_node
  put_node-keeps key type kind n [] h = absurd h
  put_node-keeps key type kind n (g ∷ gs) (inl p) =
      if-split (Any Has) (g.key == key) _ _ (λ e. inl (count_node-keeps kind n g p)) (λ e. inl p)
  put_node-keeps key type kind n (g ∷ gs) (inr h) =
      if-split (Any Has) (g.key == key) _ _ (λ e. inr h)
        (λ e. inr (put_node-keeps key type kind n gs h))

  group_key-own :
      (type : String) (kind : ExtensionKind) (n : Node)
      → group_key (type, kind) n ≡ some own_key
      → (kind ≡ extension) × (plugin_id_of n ≡ plugin_id)
  unfolding group_key
  group_key-own type builtin n h = absurd (not_p (some (append "builtin:" type)) plugin_id refl h)
  group_key-own type extension n h =
      if-split
        (λ (o : Option String).
          o ≡ some own_key → (extension ≡ extension) × (plugin_id_of n ≡ plugin_id))
        (not (plugin_id_of n == "")) _ _
        (λ e k. (refl, append_cancel_left "plugin:" (plugin_id_of n) plugin_id (cc k)))
        (λ e k. absurd (
          not_p _ plugin_id
            (if-split (λ (o : Option String). key_is_p o ≡ false) (not (action_of n == "")) _ _
              (λ f. refl) (λ f. refl))
            k))
        h

  served_as-own :
      (edges : List Edge) (n : Node) (type : String) (kind : ExtensionKind)
      → served_as edges n ≡ some (own_key, type, kind)
      → (kind ≡ extension) × (plugin_id_of n ≡ plugin_id)
  unfolding served_as
  served_as-own edges n type kind h = elim (Option-cases (plugin_backed_node_type n.kind)) [
    | inl e ↦ absurd (cc (rw (served_as, e) at h))
    | inr ((t, k), e) ↦ elim (Bool-cases (is_connected edges n.id)) [
      | inr c ↦ absurd (cc (rw (served_as, e, c) at h))
      | inl c ↦ elim (Option-cases (group_key (t, k) n)) [
        | inl g ↦ absurd (cc (rw (served_as, e, c, g) at h))
        | inr (key, g) ↦
            let same : some (key, t, k) ≡ some (own_key, type, kind) =
              rw (served_as, e, c, g) at h in
            group_key-own type kind n (ground (arith, g, same))
      ]
    ]
  ]

  put_served-Sound :
      (edges : List Edge) (n : Node) (gs : List Group)
      (o : Option (String × String × ExtensionKind))
      → served_as edges n ≡ o
      → All Sound gs
      → All Sound (put_served o n gs)
  put_served-Sound edges n gs none e h = h
  put_served-Sound edges n gs (some (key, type, kind)) e h =
      put_node-Sound key type kind n gs
        (λ k. served_as-own edges n type kind (e ∙ ap (λ x. some (x, type, kind)) k)) h

  put_served-keeps :
      (n : Node) (gs : List Group) (o : Option (String × String × ExtensionKind))
      → Any Has gs
      → Any Has (put_served o n gs)
  put_served-keeps n gs none h = h
  put_served-keeps n gs (some (key, type, kind)) h = put_node-keeps key type kind n gs h

  group_nodes-keeps :
      (edges : List Edge) (ns : List Node) (gs : List Group)
      → Any Has gs
      → Any Has (group_nodes edges ns gs)
  unfolding group_nodes
  group_nodes-keeps edges [] gs h = h
  group_nodes-keeps edges (n ∷ ns) gs h =
      group_nodes-keeps edges ns _ (put_served-keeps n gs (served_as edges n) h)

  -- a node that calls the action of the plugin, and that an edge touches
  abbrev pub Calls : List Edge → Node → Type 0
  Calls edges n =
      (trim_space n.kind ≡ "plugin")
      × (plugin_id_of n ≡ plugin_id)
      × (action_of n ≡ action)
      × ((n.id == "") ≡ false)
      × Touches n.id edges

  Calls-group_key :
      (n : Node) → plugin_id_of n ≡ plugin_id → group_key ("plugin", extension) n ≡ some own_key
  unfolding group_key
  Calls-group_key n p =
      if-split (λ (o : Option String). o ≡ some own_key) (not (plugin_id_of n == "")) _ _
        (λ e. ap (λ x. some (append "plugin:" x)) p) (λ e. absurd (ground (arith, e, p, named)))

  Calls-served_as :
      (edges : List Edge) (n : Node)
      → Calls edges n
      → served_as edges n ≡ some (own_key, "plugin", extension)
  unfolding served_as
  Calls-served_as edges n (k, p, a, ne, t) =
      rw
        (served_as, plugin_kind n.kind k, Touches-is_connected n.id edges ne t, Calls-group_key n p)
        refl

  group_nodes-Has :
      (edges : List Edge) (ns : List Node) (gs : List Group)
      → Any (Calls edges) ns
      → All Sound gs
      → Any Has (group_nodes edges ns gs)
  unfolding group_nodes
  group_nodes-Has edges [] gs c h = absurd c
  group_nodes-Has edges (n ∷ ns) gs (inl c) h =
      group_nodes-keeps edges ns _
        (rw (Calls-served_as edges n c) (put_node-Has "plugin" n gs c.1 c.2 h))
  group_nodes-Has edges (n ∷ ns) gs (inr c) h =
      group_nodes-Has edges ns _ c (put_served-Sound edges n gs (served_as edges n) refl h)

  finish_all-Lists : (gs : List Group) → Any Has gs → Any (Lists plugin_id action) (finish_all gs)
  unfolding finish_all
  finish_all-Lists [] h = h
  finish_all-Lists (g ∷ gs) (inl (k, p, a)) = inl (
    k,
    p,
    Any-sort_by text_less (λ x. x ≡ action) g.entry.actions (mem-Any action g.entry.actions a),
  )
  finish_all-Lists (g ∷ gs) (inr h) = inr (finish_all-Lists gs h)

  -- If a plugin node of a flow, which some edge starts or ends at, calls an action of an imported
  -- plugin, the list of the flow's plugins has an entry of that plugin, and the action is among its
  -- actions, whatever other nodes are grouped with it.
  pub collect-Lists :
      (flow : Flow)
      → Any (Calls flow.edges) flow.nodes
      → Any (Lists plugin_id action) (collect_flow_plugins flow)
  unfolding collect_flow_plugins
  collect-Lists flow c =
      Any-sort_by listed_before (Lists plugin_id action) _
        (finish_all-Lists _ (group_nodes-Has flow.edges flow.nodes [] c tt))
