-- ===== src/Entry/View/Laws.antt =====
-- What a launcher shows after a seed.
use morph_api.Prelude.{String, true, false, Option, none, some, List, ◌∷◌, ◌==◌, ◌≡◌, refl, eq_refl}
use morph_api.Prelude.Text.{trim_space}
use morph_api.Json.{obj, Fields, lookup}
use morph_api.Json.Laws.{or_else, lookup-merge}
use morph_api.ContextPath.{ok, parse_context_path}
use morph_api.ContextPath.Write.{value_at-set_at}
use morph_api.Preferences.{
  EntryForm, FlowPreferences, entry_or_nil, has_form, target_path, is_filled, prefill_or_default,
  prefill_live,
}
use morph_api.Entry.{entry_defaults}
use morph_api.Entry.Store.{ContextStore}
use morph_api.Entry.Seed.{seed_entry}
use morph_api.Entry.Seed.Laws.{Seeded, seeded}
use morph_api.Entry.View.{entry_values_in_context, view_of, resolve_entry_view}

module _ {S : Type 0} (store : ContextStore S) where
  stored_values_read :
      (s t : S) (id target : String) (values : Fields) (m : String) (ms : List String)
      → parse_context_path target ≡ ok (m ∷ ms)
      → (trim_space id == "") ≡ false
      → Seeded store s t id target (obj values)
      → entry_values_in_context store t id target ≡ some values
  unfolding entry_values_in_context
  stored_values_read s t id target values m ms p ne w =
      rw (ne, w.stored, w.held, value_at-set_at w.doc target (obj values) m ms p w.written) refl

  -- A launcher in live mode shows what the last seed wrote: after a seed that has something to write,
  -- and succeeds at a target below the root, the view of the same flow and context comes from the
  -- context, each field showing its seeded value, or its default where none was seeded.
  pub seed_entry-resolve :
      (s : S) (preferences : Option FlowPreferences) (e : EntryForm) (id : String) (values : Fields)
      (m : String) (ms : List String)
      → entry_or_nil preferences ≡ some e
      → has_form (some e) ≡ true
      → prefill_or_default (some e) ≡ prefill_live
      → is_filled values ≡ true
      → parse_context_path (target_path (some e)) ≡ ok (m ∷ ms)
      → trim_space id ≡ id
      → (id == "") ≡ false
      → (seed_entry store s (some e) id values).1 ≡ none
      → let view =
          resolve_entry_view store (seed_entry store s (some e) id values).0 preferences id in
        (view.source ≡ "context")
        × ((k : String)
            → lookup k view.values ≡ or_else (lookup k values) (lookup k (entry_defaults (some e))))
  unfolding resolve_entry_view view_of
  seed_entry-resolve s preferences e id values m ms given form live filled p trimmed ne h =
      let t = (seed_entry store s (some e) id values).0 in
      let w = rw trimmed at (seeded store s (some e) id values form filled h) in
      let held = stored_values_read s t id (target_path (some e)) values m ms p (rw trimmed ne) w in
      let is_live : (prefill_or_default (some e) == prefill_live) ≡ true =
        rw live (eq_refl prefill_live) in
      rw (given, is_live, trimmed, ne, held)
        (refl, λ k. lookup-merge (entry_defaults (some e)) values k)
