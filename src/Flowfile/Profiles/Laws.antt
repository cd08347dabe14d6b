-- ===== src/Flowfile/Profiles/Laws.antt =====
-- Where the values of a settings profile may go.
use morph_api.Prelude.{
  String, ◌≡◌, refl, Bool, true, false, Option, none, some, List, [], ◌∷◌, ◌==◌, if◌then◌else◌, ◌∙◌,
  arith, eq_iff, if-split, Pointwise,
}
use morph_api.Json.{Value, null, bool, num, str, arr, obj, rows, strs, Fields, end, lookup, merge}
use morph_api.Json.Laws.{lookup-insert_same, lookup-insert_ne, lookup-erase_same}
use morph_api.Graph.{Node, Flow}
use morph_api.Flowfile.Profiles.{
  NodeSetting, with_profile, stripped, reference_only, settings_id, resolve_profile, resolve_data,
  resolve_nodes, resolve_settings_profiles,
}

abbrev pub title_of : Option NodeSetting → String
title_of none = ""
title_of (some p) = p.title

abbrev pub values_of : Option NodeSetting → Fields
values_of none = end
values_of (some p) = merge end p.settings

-- A node with a profile: one that goes by reference holds no values, and any other holds the values of the profile.
abbrev pub Settled : Bool → Option NodeSetting → Fields → Type 0
Settled only p m =
    (lookup "settings" m ≡ (if only then none else some (obj (values_of p))))
    × (lookup "settingsName" m ≡ some (str (title_of p)))

with_profile-Settled :
    (only : Bool) (p : Option NodeSetting) (held : Fields)
    → Settled only p (with_profile only p (stripped only held))
unfolding with_profile
with_profile-Settled true none held = (
  lookup-insert_ne "settingsName" "settings" _ _ refl ∙ lookup-erase_same "settings" held,
  lookup-insert_same "settingsName" _ _,
)
with_profile-Settled true (some p) held = (
  lookup-insert_ne "settingsName" "settings" _ _ refl ∙ lookup-erase_same "settings" held,
  lookup-insert_same "settingsName" _ _,
)
with_profile-Settled false none held = (
  lookup-insert_same "settings" _ _,
  lookup-insert_ne "settings" "settingsName" _ _ refl ∙ lookup-insert_same "settingsName" _ _,
)
with_profile-Settled false (some p) held = (
  lookup-insert_same "settings" _ _,
  lookup-insert_ne "settings" "settingsName" _ _ refl ∙ lookup-insert_same "settingsName" _ _,
)

module _ (profiles : String → Option NodeSetting) where
  -- what becomes of a node's data
  abbrev pub Resolves : String → Value → Value → Type 0
  Resolves kind (obj held) (obj m) =
      (settings_id held ≡ "" → m ≡ held)
      × ((settings_id held == "") ≡ false
          → Settled (reference_only kind) (profiles (settings_id held)) m)
  Resolves kind v w = w ≡ v

  abbrev pub ResolvesNode : Node → Node → Type 0
  ResolvesNode n m = (m.kind ≡ n.kind) × (m.id ≡ n.id) × Resolves n.kind n.payload m.payload

  resolve_profile-Resolves :
      (kind : String) (held : Fields)
      → Resolves kind (obj held) (obj (resolve_profile profiles kind held))
  unfolding resolve_profile
  resolve_profile-Resolves kind held =
      if-split (λ (m : Fields). Resolves kind (obj held) (obj m)) (settings_id held == "") _ _
        (λ e. (λ blank. refl, λ named. absurd (cc (e, named))))
        (λ e. (
          λ blank. absurd (ground (arith, eq_iff (settings_id held) "")),
          λ named. with_profile-Settled (reference_only kind) (profiles (settings_id held)) held,
        ))

  resolve_data-Resolves :
      (kind : String) (v : Value) → Resolves kind v (resolve_data profiles kind v)
  resolve_data-Resolves kind (obj held) = resolve_profile-Resolves kind held
  resolve_data-Resolves kind null = refl
  resolve_data-Resolves kind (bool b) = refl
  resolve_data-Resolves kind (num s) = refl
  resolve_data-Resolves kind (str s) = refl
  resolve_data-Resolves kind (arr vs) = refl
  resolve_data-Resolves kind (rows rs) = refl
  resolve_data-Resolves kind (strs ss) = refl

  resolve_nodes-Resolves : (ns : List Node) → Pointwise ResolvesNode ns (resolve_nodes profiles ns)
  unfolding resolve_nodes
  resolve_nodes-Resolves [] = tt
  resolve_nodes-Resolves (n ∷ ns) =
      ((refl, refl, resolve_data-Resolves n.kind n.payload), resolve_nodes-Resolves ns)

  -- A node that names a settings profile holds the name of the profile and, unless it goes by
  -- reference, its values, with nothing for a profile that is not there. A node that goes by
  -- reference holds no values at all, whatever it came with. A node that names none is left as
  -- it was.
  pub resolve_settings_profiles-Resolves :
      (f : Flow) → Pointwise ResolvesNode f.nodes (resolve_settings_profiles profiles f).nodes
  unfolding resolve_settings_profiles
  resolve_settings_profiles-Resolves f = resolve_nodes-Resolves f.nodes
