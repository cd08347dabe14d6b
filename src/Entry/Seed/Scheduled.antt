-- ===== src/Entry/Seed/Scheduled.antt =====
-- The seed of a scheduled row when it fires.
use morph_api.Prelude.{String, false, Option, none, some, ◌==◌, ◌≡◌, refl, inl, inr, Option-cases}
use morph_api.Prelude.Text.{trim_space}
use morph_api.Json.{Fields}
use morph_api.Preferences.{EntryForm, FlowPreferences, entry_or_nil}
use morph_api.Entry.Store.{ContextStore}
use morph_api.Entry.Seed.{Process, kept_values, seed_form, seed_flow, seed_scheduled_entry}
use morph_api.Entry.Seed.Laws.{seed_entry-others}

module _ {S : Type 0} (store : ContextStore S)
    (flows : String → Option (Option FlowPreferences)) where
  seed_form-others :
      (s : S) (rec : Process) (values : Fields) (form : Option EntryForm) (j : String)
      → (trim_space rec.context_id == j) ≡ false
      → store.get_by_id (seed_form store flows s rec values form).0 j ≡ store.get_by_id s j
  seed_form-others s rec values none j ne = refl
  seed_form-others s rec values (some e) j ne =
      seed_entry-others store s (some e) rec.context_id values j ne

  seed_flow-others :
      (s : S) (rec : Process) (values : Fields) (o : Option (Option FlowPreferences)) (j : String)
      → (trim_space rec.context_id == j) ≡ false
      → store.get_by_id (seed_flow store flows s rec values o).0 j ≡ store.get_by_id s j
  seed_flow-others s rec values none j ne = refl
  seed_flow-others s rec values (some p) j ne = seed_form-others s rec values (entry_or_nil p) j ne

  -- Whatever becomes of the seed of a scheduled row, the contexts of every other id stay as they were.
  pub seed_scheduled-others :
      (s : S) (rec : Process) (j : String)
      → (trim_space rec.context_id == j) ≡ false
      → store.get_by_id (seed_scheduled_entry store flows s rec).0 j ≡ store.get_by_id s j
  unfolding seed_scheduled_entry
  seed_scheduled-others s rec j ne = elim (Option-cases (kept_values rec.meta)) [
    | inl e ↦ rw (seed_scheduled_entry, e) refl
    | inr (values, e) ↦
        rw (seed_scheduled_entry, e) (seed_flow-others s rec values (flows rec.flow_id) j ne)
  ]
