-- ===== src/Flowfile/Profiles.antt =====
-- `resolveSettingsProfiles` of flowfile/flowfile.go: the settings that a node names by id.
pub mod Laws
use morph_api.Prelude.{
  String, Bool, true, false, Option, none, some, List, [], ◌∷◌, ◌==◌, if◌then◌else◌,
}
use morph_api.Prelude.Text.{trim_space}
use morph_api.Json.{Value, str, obj, Fields, end, insert, erase, merge}
use morph_api.Patch.Values.{get, as_str}
use morph_api.Graph.{Node, Flow}

-- The fields of a `NodeSetting` that are read.
pub record NodeSetting : Type 0 where
  pub title : String
  pub settings : Fields

-- `referenceOnlySettings`
abbrev pub reference_only : String → Bool
reference_only kind = kind == "hitl"

-- a node with its profile: the values are copied only where the node is to carry them
unfoldable pub with_profile : Bool → Option NodeSetting → Fields → Fields
with_profile true none held = insert "settingsName" (str "") held
with_profile false none held = insert "settings" (obj end) (insert "settingsName" (str "") held)
with_profile true (some p) held = insert "settingsName" (str p.title) held
with_profile false (some p) held =
    insert "settings" (obj (merge end p.settings)) (insert "settingsName" (str p.title) held)

abbrev pub stripped : Bool → Fields → Fields
stripped true held = erase "settings" held
stripped false held = held

abbrev pub settings_id : Fields → String
settings_id held = trim_space (as_str (get "settingsId" held))

-- `profiles` is the store's answer to each id in the call; a failed look-up is none.
module _ (profiles : String → Option NodeSetting) where
  unfoldable pub resolve_profile : String → Fields → Fields
  resolve_profile kind held =
      let only = reference_only kind in
      if settings_id held == ""
      then held
      else with_profile only (profiles (settings_id held)) (stripped only held)

  abbrev pub resolve_data : String → Value → Value
  resolve_data kind (obj held) = obj (resolve_profile kind held)
  resolve_data kind v = v

  unfoldable pub resolve_nodes : List Node → List Node
  resolve_nodes [] = []
  resolve_nodes (n ∷ ns) = record n { payload = resolve_data n.kind n.payload } ∷ resolve_nodes ns

  unfoldable pub resolve_settings_profiles : Flow → Flow
  resolve_settings_profiles f = record f { nodes = resolve_nodes f.nodes }
