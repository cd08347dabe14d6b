-- ===== src/Triggers/Launch/Laws.antt =====
-- What a webhook's payload leaves in the context that a trigger reuses.
use morph_api.Prelude.{
  String, ◌≡◌, ◌≢◌, refl, true, false, Option, none, some, ◌==◌, arith, eq_iff, ap, ◌∙◌,
}
use morph_api.Json.{Fields, end, field, lookup, merge}
use morph_api.Json.Laws.{or_else, lookup-merge}
use morph_api.Entry.Store.{
  ContextStore, ContextRecord, found, document, Body, blank, null_text, malformed,
}
use morph_api.Triggers.{Trigger}
use morph_api.Triggers.Launch.{
  not_merged, Resolved, resolved, panicked, save_merged, merged, by_flow, is_existing, kept_at,
  resolve_trigger_context,
}

module _ {C : Type 0} (contexts : ContextStore C) where
  -- No write to the store fails.
  abbrev pub Reliable : Type 0
  Reliable = (c : C) (r : ContextRecord) → contexts.upsert c r ≢ none

  -- the context as it is after the payload
  abbrev pub Carries : String → ContextRecord → Fields → Fields → Resolved C → Type 0
  Carries id r doc payload a =
      (d : C) × (out : Fields) × (a ≡ resolved d id)
      × (contexts.get_by_id d id
          ≡ found (record r { context = document out; updated_by = by_flow }))
      × ((k : String) → lookup k out ≡ or_else (lookup k payload) (lookup k doc))

  -- What a fold of the payload into a context with the text `body` comes to.
  abbrev pub Folds : String → ContextRecord → Body → Fields → Resolved C → Type 0
  Folds id r (document doc) payload a = Carries id r doc payload a
  Folds id r blank payload a = Carries id r end payload a
  Folds id r (malformed text) payload a = Carries id r end payload a
  Folds id r null_text (field k v m) a = a ≡ panicked
  Folds id r null_text end a =
      (d : C) × (a ≡ resolved d id)
      × (contexts.get_by_id d id ≡ found (record r { context = null_text; updated_by = by_flow }))

  kept_at-Carries :
      (sure : Reliable) (c : C) (id : String) (r : ContextRecord) (doc payload : Fields)
      (o : Option C)
      → (id == "") ≡ false
      → r.id ≡ id
      → contexts.upsert c
          (record r { context = document (merge doc payload); updated_by = by_flow })
        ≡ o
      → Carries id r doc payload (kept_at contexts id not_merged o)
  kept_at-Carries sure c id r doc payload none ne same u =
      absurd (sure c (record r { context = document (merge doc payload); updated_by = by_flow }) u)
  kept_at-Carries sure c id r doc payload (some d) ne same u = (
    d,
    merge doc payload,
    refl,
    contexts.get-upsert c d
          (record r { context = document (merge doc payload); updated_by = by_flow }) id
          (ap (λ (i : String). i == "") same ∙ ne) u
        ∙ ground (arith, eq_iff r.id id),
    lookup-merge doc payload,
  )

  kept_at-null :
      (sure : Reliable) (c : C) (id : String) (r : ContextRecord) (o : Option C)
      → (id == "") ≡ false
      → r.id ≡ id
      → contexts.upsert c (record r { context = null_text; updated_by = by_flow }) ≡ o
      → Folds id r null_text end (kept_at contexts id not_merged o)
  kept_at-null sure c id r none ne same u =
      absurd (sure c (record r { context = null_text; updated_by = by_flow }) u)
  kept_at-null sure c id r (some d) ne same u = (
    d,
    refl,
    contexts.get-upsert c d (record r { context = null_text; updated_by = by_flow }) id
          (ap (λ (i : String). i == "") same ∙ ne) u
        ∙ ground (arith, eq_iff r.id id),
  )

  save_merged-Folds :
      (sure : Reliable) (c : C) (id : String) (r : ContextRecord) (body : Body) (payload : Fields)
      → (id == "") ≡ false
      → r.id ≡ id
      → Folds id r body payload (save_merged contexts c id r (merged payload body))
  unfolding merged
  save_merged-Folds sure c id r (document doc) payload ne same =
      kept_at-Carries sure c id r doc payload _ ne same refl
  save_merged-Folds sure c id r blank payload ne same =
      kept_at-Carries sure c id r end payload _ ne same refl
  save_merged-Folds sure c id r (malformed text) payload ne same =
      kept_at-Carries sure c id r end payload _ ne same refl
  save_merged-Folds sure c id r null_text end ne same = kept_at-null sure c id r _ ne same refl
  save_merged-Folds sure c id r null_text (field k v m) ne same = refl

  -- A webhook that runs on a context that is there folds its payload into it: if no write fails, the run
  -- gets that context, which now holds each key of the payload with the payload's value, and every other
  -- key as it was if it held an object; what else it held is gone, so of a blank or malformed text no
  -- key is left. If its text is a null and the payload has a key, the call panics; if the payload has
  -- none, the run gets the context with the null.
  pub resolve_trigger_context-Carries :
      (sure : Reliable) (c : C) (t : Trigger) (title minted : String) (payload : Fields)
      (r : ContextRecord)
      → is_existing t ≡ true
      → (t.context_id == "") ≡ false
      → contexts.get_by_id c t.context_id ≡ found r
      → Folds t.context_id r r.context payload
          (resolve_trigger_context contexts c t title (some payload) minted)
  unfolding resolve_trigger_context
  resolve_trigger_context-Carries sure c t title minted payload r existing named there =
      rw (existing, named, there)
        (save_merged-Folds sure c t.context_id r r.context payload named
          (contexts.get-id c t.context_id r there))
