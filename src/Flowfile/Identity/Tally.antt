-- ===== src/Flowfile/Identity/Tally.antt =====
-- The nodes of a document that are left without a plugin, against what is told of them.
use morph_api.Prelude.{
  ℕ, ◌+◌, suc, String, ◌≡◌, refl, Bool, true, false, not, ◌&&◌, Option, none, some, List, [], ◌∷◌,
  ◌++◌, ◌==◌, if◌then◌else◌, arith, eq_iff, if-split, ◌∙◌, length, length-append,
}
use morph_api.Prelude.Sort.{sum}
use morph_api.Json.{Value, str, obj, Fields, lookup, insert, erase}
use morph_api.Json.Laws.{lookup-insert_ne, lookup-erase_ne}
use morph_api.Patch.{PatchNode}
use morph_api.Patch.Values.{get}
use morph_api.Flowfile.{PluginManifestEntry, MissingAction, ExtensionRecord}
use morph_api.Flowfile.Identity.{
  Resolution, bound, missing, held_back, cleared, bind, missing_marker, add_missing, Stamped,
  keep_node, unbound_node, resolved, action_of, is_manual, resolution_of, stamp_plugin,
  builtin_data, label_of, stamp_node, stamp_nodes, stamp_identities,
}
use morph_api.Flowfile.Rows.{manifest_for, by_type}
use morph_api.Flowfile.Identity.Told.{AllTold, stamp_nodes-Told}
use morph_api.Flowfile.Identity.Bindings.{bind-BoundTo, cleared-Unbound}

-- the callers of the missing actions
unfoldable pub callers : List MissingAction → ℕ
callers ms = sum (λ (m : MissingAction). length m.nodes) ms

abbrev pub is_absent : Option Value → Bool
is_absent none = true
is_absent (some v) = false

-- a plugin node that names an action and holds no plugin
abbrev pub is_open : PatchNode → Bool
is_open n =
    n.kind == "plugin" && not (action_of n.payload == "") && is_absent (lookup "pluginId" n.payload)

unfoldable pub open_nodes : List PatchNode → ℕ
open_nodes [] = 0
open_nodes (n ∷ ns) = (if is_open n then 1 else 0) + open_nodes ns

open_nodes-append :
    (ns : List PatchNode) (n : PatchNode)
    → open_nodes (ns ++ n ∷ []) ≡ open_nodes ns + (if is_open n then 1 else 0)
unfolding open_nodes
open_nodes-append [] n = omega arith
open_nodes-append (m ∷ ns) n = omega (arith, open_nodes-append ns n)

callers-add :
    (entry : PluginManifestEntry) (action label : String) (ms : List MissingAction)
    → callers (add_missing entry action label ms) ≡ suc (callers ms)
unfolding callers add_missing
callers-add entry action label [] = omega arith
callers-add entry action label (m ∷ ms) =
    if-split (λ (xs : List MissingAction). callers xs ≡ suc (callers (m ∷ ms))) (m.action == action)
      _ _ (λ e. omega (arith, length-append m.nodes (label ∷ [])))
      (λ e. omega (arith, callers-add entry action label ms))

-- The action that a node names is untouched by what is done to another key.
action_of-cong :
    (m held : Fields) → lookup "action" m ≡ lookup "action" held → action_of m ≡ action_of held
unfolding get
action_of-cong m held h = rw (h, get) refl

cleared_action : (held : Fields) → lookup "action" (cleared held) ≡ lookup "action" held
unfolding cleared
cleared_action held =
    lookup-erase_ne "missingPlugin" "action" _ refl
    ∙ lookup-erase_ne "outbound" "action" _ refl
    ∙ lookup-erase_ne "form" "action" _ refl
    ∙ lookup-erase_ne "pluginId" "action" _ refl
    ∙ lookup-erase_ne "extensionId" "action" held refl

abbrev pub Tally : Stamped → Type 0
Tally s = open_nodes s.nodes ≡ callers s.missing + length s.unbound

-- A plugin node whose action is kept, and that holds no plugin.
left_open :
    (n : PatchNode) (m : Fields)
    → n.kind ≡ "plugin"
    → (action_of n.payload == "") ≡ false
    → lookup "action" m ≡ lookup "action" n.payload
    → lookup "pluginId" m ≡ none
    → is_open (record n { payload = m }) ≡ true
left_open n m k ne a p = rw (k, action_of-cong m n.payload a, ne, p) refl

kept-Tally :
    (s : Stamped) (n : PatchNode) (held : Fields)
    → is_open (record n { payload = held }) ≡ false
    → Tally s
    → Tally (keep_node n held s)
kept-Tally s n held shut h = ground (arith, open_nodes-append s.nodes (record n { payload = held }))

module _ (exts builtins : List ExtensionRecord) (manifest : List PluginManifestEntry) where
  resolved-Tally :
      (i : ℕ) (n : PatchNode) (action : String) (manual : Bool) (s : Stamped) (res : Resolution)
      → n.kind ≡ "plugin"
      → (action_of n.payload == "") ≡ false
      → Tally s
      → Tally (resolved exts builtins manifest i n action manual (cleared n.payload) s res)
  resolved-Tally i n action manual s (bound r) k ne h =
      let there = (bind-BoundTo n.title r (cleared n.payload)).1 in
      kept-Tally s n (bind n.title r (cleared n.payload)) (rw (there) (ground arith)) h
  resolved-Tally i n action manual s missing k ne h =
      let entry = manifest_for manifest action in
      let m =
        insert "missingPlugin" (obj (missing_marker entry))
          (erase "bindPlugin" (cleared n.payload)) in
      let stays : is_open (record n { payload = m }) ≡ true =
        left_open n m k ne
          (lookup-insert_ne "missingPlugin" "action" _ _ refl
            ∙ lookup-erase_ne "bindPlugin" "action" _ refl
            ∙ cleared_action n.payload)
          (lookup-insert_ne "missingPlugin" "pluginId" _ _ refl
            ∙ lookup-erase_ne "bindPlugin" "pluginId" _ refl
            ∙ (cleared-Unbound n.payload).1) in
      ground (
        arith,
        open_nodes-append s.nodes (record n { payload = m }),
        callers-add entry action (label_of i n) s.missing,
      )
  resolved-Tally i n action manual s (held_back cands) k ne h =
      let m = insert "bindPlugin" (str "manual") (cleared n.payload) in
      let stays : is_open (record n { payload = m }) ≡ true =
        left_open n m k ne
          (lookup-insert_ne "bindPlugin" "action" _ _ refl ∙ cleared_action n.payload)
          (lookup-insert_ne "bindPlugin" "pluginId" _ _ refl ∙ (cleared-Unbound n.payload).1) in
      ground (
        arith,
        open_nodes-append s.nodes (record n { payload = m }),
        length-append s.unbound (unbound_node exts builtins manifest i n action manual cands ∷ []),
      )

  stamp_node-Tally :
      (i : ℕ) (n : PatchNode) (s : Stamped)
      → Tally s
      → Tally (stamp_node exts builtins manifest i n s)
  unfolding stamp_node stamp_plugin
  stamp_node-Tally i n s h =
      if-split Tally (n.kind == "plugin") _ _
        (λ is.
          if-split Tally (action_of n.payload == "") _ _
            (λ e.
              kept-Tally s n (cleared n.payload)
                (rw (action_of-cong (cleared n.payload) n.payload (cleared_action n.payload), e)
                  (ground arith))
                h)
            (λ e.
              resolved-Tally i n (action_of n.payload) (is_manual n.payload) s
                (resolution_of exts n.payload) (ground (arith, eq_iff n.kind "plugin")) e h))
        (λ isnt. kept-Tally s n (builtin_data (by_type n.kind builtins) n.payload) (ground arith) h)

  stamp_nodes-Tally :
      (i : ℕ) (ns : List PatchNode) (s : Stamped)
      → Tally s
      → Tally (stamp_nodes exts builtins manifest i ns s)
  unfolding stamp_nodes
  stamp_nodes-Tally i [] s h = h
  stamp_nodes-Tally i (n ∷ ns) s h =
      stamp_nodes-Tally (suc i) ns (stamp_node exts builtins manifest i n s)
        (stamp_node-Tally i n s h)

  -- Every plugin node that names an action is bound to a row, or is told of under its label: among the
  -- callers of its action when that is missing, or with its action among the nodes to bind when the pick
  -- is open. The label is the node's name or else its title, trimmed, or else its number. And each node
  -- that is left without a plugin is told of once: there are as many of them as callers and nodes to
  -- bind together.
  pub stamp_identities-tally :
      (ns : List PatchNode)
      → let s = stamp_identities exts builtins manifest ns in
        AllTold exts 0 ns s.missing s.unbound
        × (open_nodes s.nodes ≡ callers s.missing + length s.unbound)
  unfolding stamp_identities open_nodes callers
  stamp_identities-tally ns =
      let none_yet : Stamped = record { nodes = []; missing = []; unbound = [] } in
      (stamp_nodes-Told exts builtins manifest 0 ns none_yet, stamp_nodes-Tally 0 ns none_yet refl)
