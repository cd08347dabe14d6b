-- ===== src/Flowfile/Identity/Told.antt =====
-- What an import tells of the nodes that are left without a plugin.
use Prim.Native.String.{[]}
use morph_api.Prelude.{
  ℕ, ◌+◌, suc, String, ◌≡◌, refl, ◌⊎◌, inl, inr, Bool, true, false, not, List, [], ◌∷◌, ◌++◌, ◌==◌,
  arith, eq_iff, eq_refl, if-split,
}
use morph_api.Prelude.Text.{append, trim_space}
use morph_api.Prelude.Decimal.{decimal}
use morph_api.Prelude.Membership.{mem, mem-append}
use morph_api.Json.{Fields}
use morph_api.Patch.{PatchNode}
use morph_api.Patch.Values.{is_blank}
use morph_api.Flowfile.{PluginManifestEntry, MissingAction, UnboundNode, ExtensionRecord}
use morph_api.Flowfile.Identity.{
  Resolution, bound, missing, held_back, cleared, add_missing, Stamped, unbound_node, resolved,
  action_of, resolution_of, label_of, ref_of, stamp_plugin, stamp_node, stamp_nodes,
}
use morph_api.Flowfile.Rows.{manifest_for}
use morph_api.Flowfile.Identity.Laws.{Fits, resolution-Fits}

-- The label is among the callers of the action.
abbrev pub Calls : String → String → List MissingAction → Type 0
Calls action label [] = ⊥
Calls action label (m ∷ ms) =
    ((m.action ≡ action) × (mem label m.nodes ≡ true)) ⊎ Calls action label ms

-- The label and the action stand among the nodes to bind.
abbrev pub Awaits : String → String → List UnboundNode → Type 0
Awaits action label [] = ⊥
Awaits action label (u ∷ us) = ((u.action ≡ action) × (u.ref ≡ label)) ⊎ Awaits action label us

-- What the node at a position is called: its name or else its title, trimmed, or else its number.
pub data Labelled (i : ℕ) (n : PatchNode) : String → Type 0 where
  by_ref : is_blank n.ref ≡ false → Labelled i n (trim_space n.ref)
  by_title : is_blank n.ref ≡ true → is_blank n.title ≡ false → Labelled i n (trim_space n.title)
  by_number :
      is_blank n.ref ≡ true
      → is_blank n.title ≡ true
      → Labelled i n (append "node" (decimal (i + 1)))

-- How a node is told of: a plugin node that names an action is bound, or told of by its label.
pub data Told (exts : List ExtensionRecord) (i : ℕ) (n : PatchNode) (ms : List MissingAction)
    (us : List UnboundNode) : Type 0 where
  no_plugin : (n.kind == "plugin") ≡ false → Told exts i n ms us
  no_action : action_of n.payload ≡ "" → Told exts i n ms us
  has_row : (r : ExtensionRecord) → Fits exts n.payload (bound r) → Told exts i n ms us
  told_missing :
      (label : String)
      → Fits exts n.payload missing
      → Labelled i n label
      → Calls (action_of n.payload) label ms
      → Told exts i n ms us
  told_unbound :
      (cands : List ExtensionRecord) (label : String)
      → Fits exts n.payload (held_back cands)
      → Labelled i n label
      → Awaits (action_of n.payload) label us
      → Told exts i n ms us

-- each node from the position on
abbrev pub AllTold :
    List ExtensionRecord → ℕ → List PatchNode → List MissingAction → List UnboundNode → Type 0
AllTold exts i [] ms us = Unit
AllTold exts i (n ∷ ns) ms us = Told exts i n ms us × AllTold exts (suc i) ns ms us

label_of-Labelled : (i : ℕ) (n : PatchNode) → Labelled i n (label_of i n)
label_of-Labelled i n =
    if-split (Labelled i n) (not (is_blank n.ref)) _ _ (λ e. by_ref (ground (arith, e)))
      (λ e.
        if-split (Labelled i n) (not (is_blank n.title)) _ _
          (λ f. by_title (ground (arith, e)) (ground (arith, f)))
          (λ f. by_number (ground (arith, e)) (ground (arith, f))))

ref_of-Labelled : (i : ℕ) (n : PatchNode) → Labelled i n (ref_of i n)
ref_of-Labelled i n =
    if-split (Labelled i n) (is_blank n.ref) _ _ (λ e. label_of-Labelled i n) (λ e. by_ref e)

add_missing-Calls :
    (entry : PluginManifestEntry) (action label : String) (ms : List MissingAction)
    → Calls action label (add_missing entry action label ms)
unfolding add_missing mem
add_missing-Calls entry action label [] = inl (refl, rw (eq_refl label) refl)
add_missing-Calls entry action label (m ∷ ms) =
    if-split (Calls action label) (m.action == action) _ _
      (λ e. inl (
        ground (arith, eq_iff m.action action),
        ground (arith, mem-append label m.nodes (label ∷ []), eq_refl label),
      ))
      (λ e. inr (add_missing-Calls entry action label ms))

add_missing-keeps :
    (entry : PluginManifestEntry) (action label b l : String) (ms : List MissingAction)
    → Calls b l ms
    → Calls b l (add_missing entry action label ms)
unfolding add_missing mem
add_missing-keeps entry action label b l [] h = absurd h
add_missing-keeps entry action label b l (m ∷ ms) (inl (a, k)) =
    if-split (Calls b l) (m.action == action) _ _
      (λ e. inl (a, ground (arith, mem-append l m.nodes (label ∷ []), k))) (λ e. inl (a, k))
add_missing-keeps entry action label b l (m ∷ ms) (inr h) =
    if-split (Calls b l) (m.action == action) _ _ (λ e. inr h)
      (λ e. inr (add_missing-keeps entry action label b l ms h))

Awaits-last :
    (action label : String) (u : UnboundNode) (us : List UnboundNode)
    → u.action ≡ action
    → u.ref ≡ label
    → Awaits action label (us ++ u ∷ [])
Awaits-last action label u [] a r = inl (a, r)
Awaits-last action label u (v ∷ us) a r = inr (Awaits-last action label u us a r)

Awaits-append :
    (action label : String) (us vs : List UnboundNode)
    → Awaits action label us
    → Awaits action label (us ++ vs)
Awaits-append action label [] vs h = absurd h
Awaits-append action label (u ∷ us) vs (inl h) = inl h
Awaits-append action label (u ∷ us) vs (inr h) = inr (Awaits-append action label us vs h)

-- What was told before is told after.
abbrev Grows : Stamped → Stamped → Type 0
Grows s t =
    ((a l : String) → Calls a l s.missing → Calls a l t.missing)
    × ((a l : String) → Awaits a l s.unbound → Awaits a l t.unbound)

Told-Grows :
    (exts : List ExtensionRecord) (i : ℕ) (n : PatchNode) (s t : Stamped)
    → Grows s t
    → Told exts i n s.missing s.unbound
    → Told exts i n t.missing t.unbound
Told-Grows exts i n s t g (no_plugin e) = no_plugin e
Told-Grows exts i n s t g (no_action e) = no_action e
Told-Grows exts i n s t g (has_row r f) = has_row r f
Told-Grows exts i n s t g (told_missing label f l c) =
    told_missing label f l (g.0 (action_of n.payload) label c)
Told-Grows exts i n s t g (told_unbound cands label f l c) =
    told_unbound cands label f l (g.1 (action_of n.payload) label c)

module _ (exts builtins : List ExtensionRecord) (manifest : List PluginManifestEntry) where
  resolved-Grows :
      (i : ℕ) (n : PatchNode) (action : String) (manual : Bool) (held : Fields) (s : Stamped)
      (res : Resolution)
      → Grows s (resolved exts builtins manifest i n action manual held s res)
  resolved-Grows i n action manual held s (bound r) = (λ a l h. h, λ a l h. h)
  resolved-Grows i n action manual held s missing = (
    λ a l h. add_missing-keeps (manifest_for manifest action) action (label_of i n) a l s.missing h,
    λ a l h. h,
  )
  resolved-Grows i n action manual held s (held_back cands) = (
    λ a l h. h,
    λ a l h.
        Awaits-append a l s.unbound
          (unbound_node exts builtins manifest i n action manual cands ∷ []) h,
  )

  stamp_node-Grows :
      (i : ℕ) (n : PatchNode) (s : Stamped) → Grows s (stamp_node exts builtins manifest i n s)
  unfolding stamp_node stamp_plugin
  stamp_node-Grows i n s =
      if-split (Grows s) (n.kind == "plugin") _ _
        (λ is.
          if-split (Grows s) (action_of n.payload == "") _ _ (λ e. (λ a l h. h, λ a l h. h))
            (λ e. resolved-Grows i n _ _ (cleared n.payload) s (resolution_of exts n.payload)))
        (λ isnt. (λ a l h. h, λ a l h. h))

  stamp_nodes-Grows :
      (i : ℕ) (ns : List PatchNode) (s : Stamped)
      → Grows s (stamp_nodes exts builtins manifest i ns s)
  unfolding stamp_nodes
  stamp_nodes-Grows i [] s = (λ a l h. h, λ a l h. h)
  stamp_nodes-Grows i (n ∷ ns) s =
      let t = stamp_node exts builtins manifest i n s in
      let (m, u) = stamp_node-Grows i n s in
      let (m', u') = stamp_nodes-Grows (suc i) ns t in
      (λ a l h. m' a l (m a l h), λ a l h. u' a l (u a l h))

  resolved-Told :
      (i : ℕ) (n : PatchNode) (manual : Bool) (held : Fields) (s : Stamped) (res : Resolution)
      → Fits exts n.payload res
      → let t = resolved exts builtins manifest i n (action_of n.payload) manual held s res in
        Told exts i n t.missing t.unbound
  resolved-Told i n manual held s (bound r) f = has_row r f
  resolved-Told i n manual held s missing f =
      told_missing (label_of i n) f (label_of-Labelled i n) (
        add_missing-Calls (manifest_for manifest (action_of n.payload)) (action_of n.payload)
          (label_of i n) s.missing)
  resolved-Told i n manual held s (held_back cands) f =
      told_unbound cands (ref_of i n) f (ref_of-Labelled i n) (
        Awaits-last (action_of n.payload) (ref_of i n)
          (unbound_node exts builtins manifest i n (action_of n.payload) manual cands) s.unbound
          refl refl)

  stamp_node-Told :
      (i : ℕ) (n : PatchNode) (s : Stamped)
      → let t = stamp_node exts builtins manifest i n s in Told exts i n t.missing t.unbound
  unfolding stamp_node stamp_plugin
  stamp_node-Told i n s =
      let Goal : Stamped → Type 0 = λ t. Told exts i n t.missing t.unbound in
      if-split Goal (n.kind == "plugin") _ _
        (λ is.
          if-split Goal (action_of n.payload == "") _ _
            (λ e. no_action (ground (arith, eq_iff (action_of n.payload) "")))
            (λ e.
              resolved-Told i n _ (cleared n.payload) s (resolution_of exts n.payload)
                (resolution-Fits exts n.payload _ _ _ refl refl refl)))
        (λ isnt. no_plugin isnt)

  pub stamp_nodes-Told :
      (i : ℕ) (ns : List PatchNode) (s : Stamped)
      → let t = stamp_nodes exts builtins manifest i ns s in AllTold exts i ns t.missing t.unbound
  unfolding stamp_nodes
  stamp_nodes-Told i [] s = tt
  stamp_nodes-Told i (n ∷ ns) s =
      let t = stamp_node exts builtins manifest i n s in
      (
        Told-Grows exts i n t (stamp_nodes exts builtins manifest (suc i) ns t)
            (stamp_nodes-Grows (suc i) ns t) (stamp_node-Told i n s),
        stamp_nodes-Told (suc i) ns t,
      )
