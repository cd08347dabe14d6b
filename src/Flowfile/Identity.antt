-- ===== src/Flowfile/Identity.antt =====
-- `stampIdentities` of flowfile/flowfile.go: the nodes of a document get the extension rows of this
-- install.
pub mod Bindings
pub mod Served
pub mod Laws
pub mod Told
pub mod Tally
use Prim.Native.String.{[], ◌∷◌}
use morph_api.Prelude.{
  ℕ, ◌+◌, suc, String, Bool, true, false, not, ◌&&◌, ◌||◌, Option, none, some, List, [], ◌∷◌, ◌++◌,
  ◌==◌, if◌then◌else◌,
}
use morph_api.Prelude.Text.{append, trim_space, is_empty}
use morph_api.Prelude.Decimal.{decimal}
use morph_api.Prelude.Membership.{mem}
use morph_api.Prelude.Sort.{text_less, sort_by}
use morph_api.Json.{Value, str, arr, obj, Items, nil, cons, Fields, end, field, insert, erase}
use morph_api.Patch.{PatchNode}
use morph_api.Patch.Values.{get, as_str, is_blank}
use morph_api.Plugins.{before_dot}
use morph_api.Flowfile.{
  PluginManifestEntry, MissingAction, UnboundNode, OutboundPort, ExtensionRecord,
}
use morph_api.Flowfile.Rows.{
  plugin_key, row_key, is_served, last_row, by_plugin_action, by_action, plugin_name, by_type,
  choice_name, choices_from, plugin_choices, texts, outbound_row, outbound_rows, namespace_or,
  namespace_of, manifest_for,
}

-- What becomes of a plugin node that names an action.
pub data Resolution : Type 0 where
  bound : ExtensionRecord → Resolution
  missing : Resolution
  held_back : List ExtensionRecord → Resolution

-- An exact pair is bound, and so is an only candidate unless the document asks for the pick to be made here.
unfoldable pub resolution : Option ExtensionRecord → Bool → List ExtensionRecord → Resolution
resolution (some r) manual cands = bound r
resolution none manual [] = missing
resolution none false (c ∷ []) = bound c
resolution none true (c ∷ []) = held_back (c ∷ [])
resolution none manual (c ∷ d ∷ cs) = held_back (c ∷ d ∷ cs)

-- the identity that a document carried is cleared
unfoldable pub cleared : Fields → Fields
cleared held =
    erase "missingPlugin"
      (erase "outbound" (erase "form" (erase "pluginId" (erase "extensionId" held))))

abbrev pub with_outbound : List OutboundPort → Fields → Fields
with_outbound [] held = held
with_outbound (p ∷ ps) held = insert "outbound" (arr (outbound_rows (p ∷ ps))) held

abbrev pub with_title : String → String → Fields → Fields
with_title title name held =
    if is_blank title && is_blank (as_str (get "title" held))
    then insert "title" (str name) held
    else held

unfoldable pub bind : String → ExtensionRecord → Fields → Fields
bind title r held = with_outbound r.outbound (
    insert "form" (obj (field "schema" (obj r.schema) (field "ui" (obj r.ui) end))) (
      with_title title r.name (
        insert "action" (str r.action) (
          insert "pluginId" (str r.plugin_id)
            (insert "extensionId" (str r.id) (erase "bindPlugin" held))))))

abbrev pub missing_marker : PluginManifestEntry → Fields
missing_marker m =
    field "name" (str m.name)
      (field "repo" (str m.repo) (field "ref" (str m.ref) (field "subdir" (str m.subdir) end)))

-- a caller of an action, under the action it calls
unfoldable pub add_missing :
    PluginManifestEntry → String → String → List MissingAction → List MissingAction
add_missing entry action label [] =
    record {
      action = action;
      plugin = entry.name;
      repo = entry.repo;
      ref = entry.ref;
      subdir = entry.subdir;
      nodes = label ∷ [];
    }
    ∷ []
add_missing entry action label (m ∷ ms) =
    let later = add_missing entry action label ms in
    if m.action == action then record m { nodes = m.nodes ++ label ∷ [] } ∷ ms else m ∷ later

-- The nodes so far, and what was found about them.
pub record Stamped : Type 0 where
  pub nodes : List PatchNode
  pub missing : List MissingAction
  pub unbound : List UnboundNode

abbrev pub label_of : ℕ → PatchNode → String
label_of i n =
    if not (is_blank n.ref)
    then trim_space n.ref
    else if not (is_blank n.title)
    then trim_space n.title
    else append "node" (decimal (i + 1))

abbrev pub ref_of : ℕ → PatchNode → String
ref_of i n = if is_blank n.ref then label_of i n else trim_space n.ref

abbrev pub keep_node : PatchNode → Fields → Stamped → Stamped
keep_node n held s = record s { nodes = s.nodes ++ record n { payload = held } ∷ [] }

abbrev pub action_of : Fields → String
action_of held = trim_space (as_str (get "action" held))

abbrev pub hint_of : Fields → String
hint_of held = trim_space (as_str (get "pluginId" held))

abbrev pub is_manual : Fields → Bool
is_manual held = trim_space (as_str (get "bindPlugin" held)) == "manual"

abbrev pub pair_row : List ExtensionRecord → Fields → Option ExtensionRecord
pair_row exts held = by_plugin_action (plugin_key (hint_of held) (action_of held)) exts

abbrev pub candidates : List ExtensionRecord → Fields → List ExtensionRecord
candidates exts held = by_action (action_of held) [] exts

abbrev pub resolution_of : List ExtensionRecord → Fields → Resolution
resolution_of exts held = resolution (pair_row exts held) (is_manual held) (candidates exts held)

abbrev pub builtin_data : Option ExtensionRecord → Fields → Fields
builtin_data none held = held
builtin_data (some r) held =
    let stamped = insert "extensionId" (str r.id) held in
    if r.plugin_id == "" then stamped else insert "pluginId" (str r.plugin_id) stamped

module _ (exts builtins : List ExtensionRecord) (manifest : List PluginManifestEntry) where
  abbrev pub unbound_node : ℕ → PatchNode → String → Bool → List ExtensionRecord → UnboundNode
  unbound_node i n action manual cands = record {
    ref = ref_of i n;
    title = trim_space n.title;
    action = action;
    plugin = (manifest_for manifest action).name;
    choices = plugin_choices exts cands;
    withheld = manual;
  }

  abbrev pub resolved : ℕ → PatchNode → String → Bool → Fields → Stamped → Resolution → Stamped
  resolved i n action manual held s (bound r) = keep_node n (bind n.title r held) s
  resolved i n action manual held s missing =
      let entry = manifest_for manifest action in
      keep_node n (insert "missingPlugin" (obj (missing_marker entry)) (erase "bindPlugin" held))
        (record s { missing = add_missing entry action (label_of i n) s.missing })
  resolved i n action manual held s (held_back cands) =
      keep_node n (insert "bindPlugin" (str "manual") held)
        (record s { unbound = s.unbound ++ unbound_node i n action manual cands ∷ [] })

  unfoldable pub stamp_plugin : ℕ → PatchNode → Stamped → Stamped
  stamp_plugin i n s =
      if action_of n.payload == ""
      then keep_node n (cleared n.payload) s
      else resolved i n (action_of n.payload) (is_manual n.payload) (cleared n.payload) s
          (resolution_of exts n.payload)

  unfoldable pub stamp_node : ℕ → PatchNode → Stamped → Stamped
  stamp_node i n s =
      if n.kind == "plugin"
      then stamp_plugin i n s
      else keep_node n (builtin_data (by_type n.kind builtins) n.payload) s

  unfoldable pub stamp_nodes : ℕ → List PatchNode → Stamped → Stamped
  stamp_nodes i [] s = s
  stamp_nodes i (n ∷ ns) s = stamp_nodes (suc i) ns (stamp_node i n s)

  unfoldable pub stamp_identities : List PatchNode → Stamped
  stamp_identities ns = stamp_nodes 0 ns (record { nodes = []; missing = []; unbound = [] })
