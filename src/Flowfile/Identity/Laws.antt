-- ===== src/Flowfile/Identity/Laws.antt =====
-- What a plugin node of a document is bound to.
use mathlib.Core.List.{append-nil, append_assoc}
use morph_api.Prelude.{
  ℕ, suc, String, ◌≡◌, ◌≢◌, ap, refl, sym, subst, ◌⊎◌, inl, inr, Bool, true, false, Option, none,
  some, List, [], ◌∷◌, ◌++◌, ◌==◌, arith, eq_iff, if-split, Pointwise, Pointwise-append, ◌∙◌,
}
use morph_api.Prelude.Membership.{mem}
use morph_api.Json.{str, obj, Fields, lookup, insert, erase}
use morph_api.Json.Laws.{lookup-insert_same, lookup-insert_ne, lookup-erase_same}
use morph_api.Patch.{PatchNode}
use morph_api.Flowfile.{PluginManifestEntry, ExtensionRecord}
use morph_api.Flowfile.Identity.{
  Resolution, bound, missing, held_back, resolution, cleared, bind, missing_marker, Stamped,
  resolved, action_of, hint_of, is_manual, pair_row, candidates, resolution_of, stamp_plugin,
  stamp_node, stamp_nodes, stamp_identities,
}
use morph_api.Flowfile.Rows.{row_key, manifest_for}
use morph_api.Flowfile.Identity.Bindings.{
  BoundTo, Unbound, bind-BoundTo, cleared-Unbound, insert-Unbound, erase-Unbound,
}
use morph_api.Flowfile.Identity.Served.{
  In, Serves, Pairs, Hidden, Caught, by_plugin_action-Pairs, by_plugin_action-none,
  by_action-Serves, by_action-apart, by_action-Caught, row_key-plugin_id, plugin_id-row_key,
}

-- No row is the one that the node names.
abbrev pub NoPair : List ExtensionRecord → Fields → Type 0
NoPair exts held = (q : ExtensionRecord) → ¬ Pairs exts (hint_of held) (action_of held) q

-- Why a node with this data is resolved as it is.
pub data Fits (exts : List ExtensionRecord) (held : Fields) : Resolution → Type 0 where
  -- the document names the row
  fits_pair :
      (r : ExtensionRecord)
      → Pairs exts (hint_of held) (action_of held) r
      → Fits exts held (bound r)
  -- every row of the action is of the one plugin, and the document does not ask for the pick
  fits_only :
      (r : ExtensionRecord)
      → NoPair exts held
      → is_manual held ≡ false
      → Serves exts (action_of held) r
      → ((q : ExtensionRecord)
          → Serves exts (action_of held) q
          → (q.plugin_id ≡ r.plugin_id) ⊎ Hidden exts q)
      → Fits exts held (bound r)
  -- nothing serves the action
  fits_missing :
      NoPair exts held
      → ((q : ExtensionRecord) → Serves exts (action_of held) q → Hidden exts q)
      → Fits exts held missing
  -- the document asks for the pick
  fits_manual :
      (cands : List ExtensionRecord) (r : ExtensionRecord)
      → NoPair exts held
      → is_manual held ≡ true
      → Serves exts (action_of held) r
      → Fits exts held (held_back cands)
  -- two plugins serve the action
  fits_several :
      (cands : List ExtensionRecord) (r s : ExtensionRecord)
      → NoPair exts held
      → Serves exts (action_of held) r
      → Serves exts (action_of held) s
      → r.plugin_id ≢ s.plugin_id
      → Fits exts held (held_back cands)

-- What a node holds afterwards.
abbrev pub Holds : Fields → Resolution → Type 0
Holds m (bound r) = BoundTo r m
Holds m missing = Unbound m × (lookup "bindPlugin" m ≡ none)
Holds m (held_back cands) = Unbound m × (lookup "bindPlugin" m ≡ some (str "manual"))

-- One node before and after.
abbrev pub Stamps : List ExtensionRecord → PatchNode → PatchNode → Type 0
Stamps exts n m =
    (m.kind ≡ n.kind)
    × (n.kind ≡ "plugin" → action_of n.payload ≡ "" → Unbound m.payload)
    × (n.kind ≡ "plugin"
        → (action_of n.payload == "") ≡ false
        → (res : Resolution) × Fits exts n.payload res × Holds m.payload res)

-- a row that the index lists, and what the rows that serve the action have to do with the list
module _ (exts : List ExtensionRecord) (held : Fields) (cands : List ExtensionRecord)
    (listed : candidates exts held ≡ cands) where
  serves : (r : ExtensionRecord) → In r cands → Serves exts (action_of held) r
  serves r h =
      (by_action-Serves (action_of held) [] exts r
        (subst (λ (xs : List ExtensionRecord). In r xs) (sym listed) h)).0

  caught :
      (q : ExtensionRecord)
      → Serves exts (action_of held) q
      → ((c : ExtensionRecord) × In c cands × (row_key c ≡ row_key q)) ⊎ Hidden exts q
  unfolding mem
  caught q h =
      elim (subst (λ (xs : List ExtensionRecord). Caught (action_of held) [] exts xs q) listed
        (by_action-Caught (action_of held) [] exts q h)) [
          | inl old ↦ absurd (cc old)
          | inr found ↦ found
        ]

pub resolution-Fits :
    (exts : List ExtensionRecord) (held : Fields) (pair : Option ExtensionRecord) (manual : Bool)
    (cands : List ExtensionRecord)
    → pair_row exts held ≡ pair
    → is_manual held ≡ manual
    → candidates exts held ≡ cands
    → Fits exts held (resolution pair manual cands)
unfolding resolution
resolution-Fits exts held (some r) manual cands p q c =
    fits_pair r (by_plugin_action-Pairs (hint_of held) (action_of held) exts r p)
resolution-Fits exts held none manual [] p q c =
    fits_missing (λ x. by_plugin_action-none (hint_of held) (action_of held) exts x p)
      (λ x h. elim (caught exts held [] c x h) [
        | inl (y, here, key) ↦ absurd here
        | inr hidden ↦ hidden
      ])
resolution-Fits exts held none false (r ∷ []) p q c =
    let mine = serves exts held (r ∷ []) c r (inl refl) in
    fits_only r (λ x. by_plugin_action-none (hint_of held) (action_of held) exts x p) q mine
      (λ x h. elim (caught exts held (r ∷ []) c x h) [
        | inl (y, inl here, key) ↦
            inl
              (row_key-plugin_id x r (sym key ∙ ap (λ z. row_key z) (sym here)) (h.1 ∙ sym mine.1))
        | inl (y, inr there, key) ↦ absurd there
        | inr hidden ↦ inr hidden
      ])
resolution-Fits exts held none true (r ∷ []) p q c =
    fits_manual (r ∷ []) r (λ x. by_plugin_action-none (hint_of held) (action_of held) exts x p) q
      (serves exts held (r ∷ []) c r (inl refl))
resolution-Fits exts held none manual (r ∷ s ∷ cs) p q c =
    let first = serves exts held (r ∷ s ∷ cs) c r (inl refl) in
    let second = serves exts held (r ∷ s ∷ cs) c s (inr (inl refl)) in
    fits_several (r ∷ s ∷ cs) r s
      (λ x. by_plugin_action-none (hint_of held) (action_of held) exts x p) first second
      (λ same.
        by_action-apart (action_of held) [] exts r s cs c
          (plugin_id-row_key r s same (first.1 ∙ sym second.1)))

-- What a plugin node that names an action holds, for each resolution.
resolved_data : String → Fields → PluginManifestEntry → Resolution → Fields
resolved_data title held entry (bound r) = bind title r held
resolved_data title held entry missing =
    insert "missingPlugin" (obj (missing_marker entry)) (erase "bindPlugin" held)
resolved_data title held entry (held_back cands) = insert "bindPlugin" (str "manual") held

resolved_data-Holds :
    (title : String) (held : Fields) (entry : PluginManifestEntry) (res : Resolution)
    → Holds (resolved_data title (cleared held) entry res) res
unfolding resolved_data
resolved_data-Holds title held entry (bound r) = bind-BoundTo title r (cleared held)
resolved_data-Holds title held entry missing = (
  insert-Unbound "missingPlugin" _ _ refl
      (erase-Unbound "bindPlugin" _ refl (cleared-Unbound held)),
  lookup-insert_ne "missingPlugin" "bindPlugin" _ _ refl ∙ lookup-erase_same "bindPlugin" _,
)
resolved_data-Holds title held entry (held_back cands) = (
  insert-Unbound "bindPlugin" _ _ refl (cleared-Unbound held),
  lookup-insert_same "bindPlugin" _ _,
)

module _ (exts builtins : List ExtensionRecord) (manifest : List PluginManifestEntry) where
  resolved-nodes :
      (i : ℕ) (n : PatchNode) (action : String) (manual : Bool) (held : Fields) (s : Stamped)
      (res : Resolution)
      → (resolved exts builtins manifest i n action manual held s res).nodes
        ≡ s.nodes
          ++ record n { payload = resolved_data n.title held (manifest_for manifest action) res }
            ∷ []
  unfolding resolved_data
  resolved-nodes i n action manual held s (bound r) = refl
  resolved-nodes i n action manual held s missing = refl
  resolved-nodes i n action manual held s (held_back cands) = refl

  resolved-Stamps :
      (i : ℕ) (n : PatchNode)
      → (ns : List PatchNode) (s : Stamped) → Pointwise (Stamps exts) ns s.nodes
      → (action_of n.payload == "") ≡ false
      → Pointwise
          (Stamps exts)
          (ns ++ n ∷ [])
          (resolved exts builtins manifest i n
            (action_of n.payload)
            (is_manual n.payload)
            (cleared n.payload)
            s
            (resolution_of exts n.payload)).nodes
  resolved-Stamps i n ns s h ne =
      rw
        (resolved-nodes i n (action_of n.payload) (is_manual n.payload) (cleared n.payload) s
          (resolution_of exts n.payload))
        (Pointwise-append (Stamps exts) ns s.nodes n _ h (
          refl,
          λ k e. absurd (ground (arith, eq_iff (action_of n.payload) "")),
          λ k e. (
            resolution_of exts n.payload,
            resolution-Fits exts n.payload _ _ _ refl refl refl,
            resolved_data-Holds n.title n.payload (manifest_for manifest (action_of n.payload))
                (resolution_of exts n.payload),
          ),
        ))

  stamp_node-Stamps :
      (i : ℕ) (n : PatchNode) (ns : List PatchNode) (s : Stamped)
      → Pointwise (Stamps exts) ns s.nodes
      → Pointwise (Stamps exts) (ns ++ n ∷ []) (stamp_node exts builtins manifest i n s).nodes
  unfolding stamp_node stamp_plugin
  stamp_node-Stamps i n ns s h =
      let Kept = λ (t : Stamped). Pointwise (Stamps exts) (ns ++ n ∷ []) t.nodes in
      if-split Kept (n.kind == "plugin") _ _
        (λ is.
          if-split Kept (action_of n.payload == "") _ _
            (λ e.
              Pointwise-append (Stamps exts) ns s.nodes n _ h
                (refl, λ k a. cleared-Unbound n.payload, λ k a. absurd (cc (e, a))))
            (λ e. resolved-Stamps i n ns s h e))
        (λ isnt. Pointwise-append (Stamps exts) ns s.nodes n _ h (
          refl,
          λ k a. absurd (ground (arith, eq_iff n.kind "plugin")),
          λ k a. absurd (ground (arith, eq_iff n.kind "plugin")),
        ))

  stamp_nodes-Stamps :
      (i : ℕ) (ns before : List PatchNode) (s : Stamped)
      → Pointwise (Stamps exts) before s.nodes
      → Pointwise (Stamps exts) (before ++ ns) (stamp_nodes exts builtins manifest i ns s).nodes
  unfolding stamp_nodes
  stamp_nodes-Stamps i [] before s h =
      subst (λ (xs : List PatchNode). Pointwise (Stamps exts) xs s.nodes) (sym (append-nil before))
        h
  stamp_nodes-Stamps i (n ∷ ns) before s h =
      subst
        (λ (xs : List PatchNode).
          Pointwise (Stamps exts) xs
            (stamp_nodes exts builtins manifest (suc i) ns
              (stamp_node exts builtins manifest i n s)).nodes)
        (append_assoc before (n ∷ []) ns)
        (stamp_nodes-Stamps (suc i) ns (before ++ n ∷ []) (stamp_node exts builtins manifest i n s)
          (stamp_node-Stamps i n before s h))

  -- A plugin node of a document is bound to a row of this install for its action only when the document
  -- names that plugin and action, or when no other plugin serves the action and the document does
  -- not ask for the pick; otherwise it holds nothing of the identity that it came with. It is taken
  -- for a missing plugin only when nothing serves the action, and is held back only when the document
  -- asks for the pick or two plugins serve the action. A row that shares its joined key with a row of
  -- another action, which takes a NUL in an id or an action, may be passed over.
  pub stamp_identities-Stamps :
      (ns : List PatchNode)
      → Pointwise (Stamps exts) ns (stamp_identities exts builtins manifest ns).nodes
  unfolding stamp_identities
  stamp_identities-Stamps ns =
      stamp_nodes-Stamps 0 ns [] (record { nodes = []; missing = []; unbound = [] }) tt
