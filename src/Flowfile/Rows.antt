-- ===== src/Flowfile/Rows.antt =====
-- The indexes of the rows of an install that `stampIdentities` of flowfile/flowfile.go builds, and what a
-- row or a manifest entry contributes to a node.
use Prim.Native.String.{[], ◌∷◌}
use morph_api.Prelude.{
  String, Bool, not, ◌&&◌, Option, none, some, List, [], ◌∷◌, ◌==◌, if◌then◌else◌,
}
use morph_api.Prelude.Text.{append, trim_space, is_empty}
use morph_api.Prelude.Membership.{mem}
use morph_api.Prelude.Sort.{text_less, sort_by}
use morph_api.Json.{str, arr, obj, Items, nil, cons, Fields, end, field, insert}
use morph_api.Plugins.{before_dot}
use morph_api.Flowfile.{PluginManifestEntry, OutboundPort, ExtensionRecord}

-- the key of a row, as the source joins it
unfoldable pub plugin_key : String → String → String
plugin_key plugin_id action = append plugin_id (append "\0" action)

abbrev pub row_key : ExtensionRecord → String
row_key r = plugin_key r.plugin_id r.action

-- A row of an action, of a plugin that has an id.
abbrev pub is_served : ExtensionRecord → Bool
is_served r = not (r.plugin_id == "") && not (r.action == "")

abbrev pub last_row : Option ExtensionRecord → Option ExtensionRecord → Option ExtensionRecord
last_row (some later) r = some later
last_row none r = r

-- `byPluginAction[key]`: the last row is the one kept.
unfoldable pub by_plugin_action : String → List ExtensionRecord → Option ExtensionRecord
by_plugin_action key [] = none
by_plugin_action key (r ∷ rs) =
    last_row (by_plugin_action key rs) (if is_served r && row_key r == key then some r else none)

-- `byAction[action]`: a row whose key was seen is another registration of the same action.
unfoldable pub by_action : String → List String → List ExtensionRecord → List ExtensionRecord
by_action action seen [] = []
by_action action seen (r ∷ rs) =
    let rest = by_action action (if is_served r then row_key r ∷ seen else seen) rs in
    if is_served r && not (mem (row_key r) seen) && r.action == action then r ∷ rest else rest

-- the last registration of the plugin that has a name
unfoldable pub plugin_name : String → List ExtensionRecord → String
plugin_name id [] = ""
plugin_name id (r ∷ rs) =
    let later = plugin_name id rs in
    if not (later == "")
    then later
    else if not (r.plugin_id == "") && r.plugin_id == id && r.action == ""
    then trim_space r.name
    else ""

-- `byType[kind]`: the first row is the one kept.
unfoldable pub by_type : String → List ExtensionRecord → Option ExtensionRecord
by_type kind [] = none
by_type kind (r ∷ rs) = let later = by_type kind rs in if r.type == kind then some r else later

abbrev pub choice_name : List ExtensionRecord → ExtensionRecord → String
choice_name exts r =
    if plugin_name r.plugin_id exts == "" then r.plugin_id else plugin_name r.plugin_id exts

unfoldable pub choices_from :
    List ExtensionRecord → List String → List ExtensionRecord → List String
choices_from exts seen [] = []
choices_from exts seen (r ∷ rs) =
    let name = choice_name exts r in
    let kept = choices_from exts (name ∷ seen) rs in
    let rest = choices_from exts seen rs in if mem name seen then rest else name ∷ kept

unfoldable pub plugin_choices : List ExtensionRecord → List ExtensionRecord → List String
plugin_choices exts rows = sort_by text_less (choices_from exts [] rows)

abbrev pub texts : List String → Items
texts [] = nil
texts (t ∷ ts) = cons (str t) (texts ts)

abbrev pub outbound_row : OutboundPort → Fields
outbound_row p =
    let base = field "title" (str p.title) (field "tags" (arr (texts p.tags)) end) in
    if p.description == "" then base else insert "description" (str p.description) base

unfoldable pub outbound_rows : List OutboundPort → Items
outbound_rows [] = nil
outbound_rows (p ∷ ps) = cons (obj (outbound_row p)) (outbound_rows ps)

-- the text before the first dot, unless the dot comes first
abbrev pub namespace_or : String → Option String → String
namespace_or action none = if action == "" then "plugin" else action
namespace_or action (some t) = if is_empty t then action else t

unfoldable pub namespace_of : String → String
namespace_of action = namespace_or action (before_dot action)

unfoldable pub manifest_for : List PluginManifestEntry → String → PluginManifestEntry
manifest_for [] action = record {
  name = namespace_of action;
  actions = [];
  repo = "";
  ref = "";
  subdir = "";
}
manifest_for (p ∷ ps) action =
    let later = manifest_for ps action in
    if mem action p.actions
    then (if p.name == "" then record p { name = namespace_of action } else p)
    else later
