-- ===== src/Plugins.antt =====
-- models/flow_plugins.go: the plugins that a flow's graph uses.
pub mod Groups
pub mod Listed
mod Examples
use Prim.Native.String.{[], ◌∷◌}
use morph_api.Prelude.{
  ℕ, ◌+◌, String, code, Bool, true, false, not, ◌&&◌, ◌||◌, Option, none, some, List, [], ◌∷◌, ◌++◌,
  ◌==◌, eqb, ltb, if◌then◌else◌,
}
use morph_api.Prelude.Text.{append, trim_space, is_empty, join}
use morph_api.Prelude.Membership.{mem}
use morph_api.Prelude.Sort.{text_less, sort_by}
use morph_api.Json.{Value, obj, Fields, end, lookup}
use morph_api.Patch.Values.{get, as_str}
use morph_api.Graph.{Node, Edge, Flow}

pub data ExtensionKind : Type 0 where
  builtin extension : ExtensionKind

pub record FlowPlugin : Type 0 where
  pub kind : ExtensionKind
  pub type : String
  pub plugin_id : String
  pub actions : List String
  pub node_count : ℕ

abbrev pub is_builtin : FlowPlugin → Bool
is_builtin p = elim p.kind [ builtin ↦ true | extension ↦ false ]

abbrev pub decision_type : String
decision_type = "ai-decision"

-- the canonical type and the kind, for a type that a plugin serves
unfoldable pub plugin_backed_node_type : String → Option (String × ExtensionKind)
plugin_backed_node_type node_type =
    let t = trim_space node_type in
    if t == "plugin"
    then some ("plugin", extension)
    else if mem t ("llm" ∷ "mcp" ∷ "cast" ∷ "http" ∷ decision_type ∷ [])
    then some (t, builtin)
    else if t == "jev"
    then some (decision_type, builtin)
    else none

-- `connected[id]`: the keys are never the empty text
unfoldable pub is_connected : List Edge → String → Bool
is_connected [] id = false
is_connected (e ∷ es) id =
    not (e.source == "") && e.source == id
    || not (e.target == "") && e.target == id
    || is_connected es id

-- the text before the first dot, and whether there is one
unfoldable pub before_dot : String → Option String
before_dot [] = none
before_dot (c ∷ s) =
    let rest = before_dot s in
    if eqb (code c) b'.' then some [] else elim rest [ none ↦ none | some t ↦ some (c ∷ t) ]

-- a dot at the very start does not count
unfoldable pub plugin_namespace : String → String
plugin_namespace action = elim (before_dot action) [
  | none ↦ action
  | some t ↦ if is_empty t then action else t
]

abbrev pub data_of : Node → Fields
data_of n = elim n.payload [ obj m ↦ m | _ ↦ end ]

abbrev pub plugin_id_of : Node → String
plugin_id_of n = trim_space (as_str (get "pluginId" (data_of n)))

abbrev pub action_of : Node → String
action_of n = trim_space (as_str (get "action" (data_of n)))

-- The key that a node is grouped by, none where nothing says which plugin it means.
unfoldable pub group_key : String × ExtensionKind → Node → Option String
group_key (type, builtin) n = some (append "builtin:" type)
group_key (type, extension) n =
    if not (plugin_id_of n == "")
    then some (append "plugin:" (plugin_id_of n))
    else if not (action_of n == "")
    then some (append "action:" (plugin_namespace (action_of n)))
    else none

-- An entry in the making, with its key. Its actions are a set here.
pub record Group : Type 0 where
  pub key : String
  pub entry : FlowPlugin

abbrev pub new_group : String → String × ExtensionKind → Node → Group
new_group key (type, kind) n = record {
  key = key;
  entry = record {
    kind = kind;
    type = type;
    plugin_id = plugin_id_of n;
    actions = [];
    node_count = 0;
  };
}

-- the actions of the group with that of an imported plugin's node
abbrev pub with_action : ExtensionKind → String → List String → List String
with_action builtin action actions = actions
with_action extension action actions =
    if action == "" || mem action actions then actions else actions ++ action ∷ []

-- the node counted into its group
abbrev pub count_node : ExtensionKind → Node → Group → Group
count_node kind n g = record g {
  entry = record g.entry {
    node_count = g.entry.node_count + 1;
    actions = with_action kind (action_of n) g.entry.actions;
    plugin_id = if g.entry.plugin_id == "" then plugin_id_of n else g.entry.plugin_id;
  };
}

unfoldable pub put_node : String → String × ExtensionKind → Node → List Group → List Group
put_node key (type, kind) n [] = count_node kind n (new_group key (type, kind) n) ∷ []
put_node key (type, kind) n (g ∷ gs) =
    let rest = put_node key (type, kind) n gs in
    if g.key == key then count_node kind n g ∷ gs else g ∷ rest

-- what a node is counted as, if it is
unfoldable pub served_as : List Edge → Node → Option (String × String × ExtensionKind)
served_as edges n = elim (plugin_backed_node_type n.kind) [
  | none ↦ none
  | some (type, kind) ↦
      if not (is_connected edges n.id)
      then none
      else elim (group_key (type, kind) n) [ none ↦ none | some key ↦ some (key, type, kind) ]
]

abbrev pub put_served : Option (String × String × ExtensionKind) → Node → List Group → List Group
put_served none n gs = gs
put_served (some (key, type, kind)) n gs = put_node key (type, kind) n gs

-- The loop over the nodes. The source keeps the groups in a map; here they are in the order of the
-- first node of each.
unfoldable pub group_nodes : List Edge → List Node → List Group → List Group
group_nodes edges [] gs = gs
group_nodes edges (n ∷ ns) gs = group_nodes edges ns (put_served (served_as edges n) n gs)

abbrev pub finish : Group → FlowPlugin
finish g = record g.entry { actions = sort_by text_less g.entry.actions }

unfoldable pub finish_all : List Group → List FlowPlugin
finish_all [] = []
finish_all (g ∷ gs) = finish g ∷ finish_all gs

-- the order of the list
unfoldable pub listed_before : FlowPlugin → FlowPlugin → Bool
listed_before a b =
    if not (is_builtin a) && is_builtin b || is_builtin a && not (is_builtin b)
    then is_builtin a
    else if not (a.type == b.type)
    then text_less a.type b.type
    else if not (a.plugin_id == b.plugin_id)
    then text_less a.plugin_id b.plugin_id
    else text_less (join "," a.actions) (join "," b.actions)

-- An empty list is nil in the source.
unfoldable pub collect_flow_plugins : Flow → List FlowPlugin
collect_flow_plugins flow =
    sort_by listed_before (finish_all (group_nodes flow.edges flow.nodes []))
