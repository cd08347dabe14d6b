-- ===== src/HumanContext/Laws.antt =====
-- What binding an outcome writes.
use morph_api.Prelude.{
  String, false, some, ◌==◌, if◌then◌else◌, ◌≡◌, refl, sym, subst, inl, inr, arith, Option-cases,
  eq_refl,
}
use morph_api.Prelude.Text.{trim_space}
use morph_api.Json.{obj, Fields, lookup, insert}
use morph_api.Json.Laws.{lookup-insert}
use morph_api.Entry.Store.{ContextStore, ContextRecord, found, document}
use morph_api.HumanContext.{
  HumanTask, human_task_outcome, written, saved_as, save_bound, write_human_task_context,
}

module _ {S : Type 0} (store : ContextStore S) where
  bound-written :
      (s : S) (task : HumanTask) (rec : ContextRecord) (doc : Fields)
      → (trim_space task.context_id == "") ≡ false
      → rec.id ≡ trim_space task.context_id
      → (save_bound store s task rec doc).1 ≡ written
      → (row : ContextRecord) × (store.get_by_id
            (save_bound store s task rec doc).0
            (trim_space task.context_id)
          ≡ found row)
        × (row.context
            ≡ document (insert (trim_space task.key) (obj (human_task_outcome task)) doc))
  bound-written s task rec doc c named h =
      let id = trim_space task.context_id in
      let saved = record rec {
        context = document (insert (trim_space task.key) (obj (human_task_outcome task)) doc);
        updated_by = record { by = "flow"; address = task.node_id };
      } in
      elim (Option-cases (store.upsert s saved)) [
        | inl u ↦ absurd (ground arith)
        | inr (t, u) ↦
            subst
              (λ o.
                (row : ContextRecord) × (store.get_by_id (saved_as store s id o).0 id ≡ found row)
                × (row.context
                    ≡ document (insert (trim_space task.key) (obj (human_task_outcome task)) doc)))
              (sym u)
              (
                saved,
                rw (store.get-upsert s t saved id (rw named c) u, named, eq_refl id) refl,
                refl,
              )
      ]

  -- A write into a row that holds a document, when it succeeds, leaves a document in which the task's
  -- key holds the outcome and each other key holds what it held.
  pub write-bound :
      (s : S) (task : HumanTask) (rec : ContextRecord) (doc : Fields) (k : String)
      → (trim_space task.key == "") ≡ false
      → (trim_space task.context_id == "") ≡ false
      → store.get_by_id s (trim_space task.context_id) ≡ found rec
      → rec.context ≡ document doc
      → (write_human_task_context store s (some task)).1 ≡ written
      → let t = (write_human_task_context store s (some task)).0 in
        (row : ContextRecord) × (doc' : Fields) × (store.get_by_id t (trim_space task.context_id)
          ≡ found row)
        × (row.context ≡ document doc')
        × (lookup k doc' ≡ (
            if trim_space task.key == k
            then some (obj (human_task_outcome task))
            else lookup k doc))
  unfolding write_human_task_context
  write-bound s task rec doc k key c f d h =
      let id = trim_space task.context_id in
      let (row, stored, held) =
        bound-written s task rec doc c (store.get-id s id rec f) (rw (key, c, f, d) at h) in
      rw (key, c, f, d)
        (
          row,
          insert (trim_space task.key) (obj (human_task_outcome task)) doc,
          stored,
          held,
          lookup-insert (trim_space task.key) k (obj (human_task_outcome task)) doc,
        )
