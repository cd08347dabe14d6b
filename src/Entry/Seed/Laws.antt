-- ===== src/Entry/Seed/Laws.antt =====
-- What `SeedEntry` changes, and what it leaves alone.
use morph_api.Prelude.{
  String, true, false, not, ◌||◌, Option, none, some, List, ◌∷◌, ◌==◌, ◌≡◌, refl, ◌⊎◌, inl, inr,
  Bool-cases, Option-cases, arith, eq_refl,
}
use morph_api.Prelude.Text.{trim_space}
use morph_api.Json.{Value, obj, Fields, end}
use morph_api.ContextPath.{ok, set_at, parse_context_path, value_at_context_path}
use morph_api.ContextPath.Write.{Diverge, value_at-set_at, value_at-set_at_ne}
use morph_api.Preferences.{EntryForm, has_form, target_path, is_filled}
use morph_api.Entry.Store.{
  ContextStore, ContextRecord, Fetched, found, not_found, failed, Body, blank, null_text, malformed,
  document,
}
use morph_api.Entry.Seed.{
  SeedError, Loaded, loaded, refused, decode, load, blank_record, saved_as, write_loaded,
  seed_entry, load_failed,
}

-- The document that a row holds, an empty one where there is no row yet.
abbrev pub body_document : Body → Option Fields
body_document blank = some end
body_document null_text = some end
body_document (malformed text) = none
body_document (document doc) = some doc

abbrev pub document_of : Fetched → Option Fields
document_of (found rec) = body_document rec.context
document_of not_found = some end
document_of failed = none

decode_cases :
    (id : String) (rec : ContextRecord) (b : Body)
    → ((doc : Fields) × (decode id rec b ≡ loaded rec doc) × (body_document b ≡ some doc))
      ⊎ ((e : SeedError) × (decode id rec b ≡ refused e))
decode_cases id rec blank = inl (end, refl, refl)
decode_cases id rec null_text = inl (end, refl, refl)
decode_cases id rec (malformed text) = inr (_, refl)
decode_cases id rec (document doc) = inl (doc, refl, refl)

module _ {S : Type 0} (store : ContextStore S) where
  write_loaded-error :
      (id target : String) (v : Value) (s : S) (l : Loaded) (e : SeedError)
      → (write_loaded store id target v s l).1 ≡ some e
      → (write_loaded store id target v s l).0 ≡ s
  write_loaded-error id target v s (refused d) e h = refl
  write_loaded-error id target v s (loaded rec doc) e h = ground arith

  -- A seed that fails leaves the store as it was.
  pub seed_entry-error :
      (s : S) (entry : Option EntryForm) (context_id : String) (values : Fields) (e : SeedError)
      → (seed_entry store s entry context_id values).1 ≡ some e
      → (seed_entry store s entry context_id values).0 ≡ s
  unfolding seed_entry
  seed_entry-error s entry context_id values e h =
      elim (Bool-cases (not (has_form entry) || not (is_filled values))) [
        | inl skip ↦ rw skip refl
        | inr go ↦ elim (Bool-cases (trim_space context_id == "")) [
          | inl unnamed ↦ rw (go, unnamed) refl
          | inr named ↦
              rw (go, named)
                (write_loaded-error (trim_space context_id) (target_path entry) (obj values) s _ e
                  (rw (go, named) at h))
        ]
      ]

  -- What is loaded is a row of that id, with the document that the store holds.
  record IsLoaded (s : S) (id : String) : Type 0 where
    row : ContextRecord
    doc : Fields
    eq : load id (store.get_by_id s id) ≡ loaded row doc
    named : row.id ≡ id
    held : document_of (store.get_by_id s id) ≡ some doc

  fetched_cases :
      (s : S) (id : String) (f : Fetched)
      → store.get_by_id s id ≡ f
      → IsLoaded s id ⊎ ((e : SeedError) × (load id (store.get_by_id s id) ≡ refused e))
  unfolding load
  fetched_cases s id (found rec) h = elim (decode_cases id rec rec.context) [
    | inl (doc, d, b) ↦ inl (record {
      row = rec;
      doc = doc;
      eq = rw h d;
      named = store.get-id s id rec h;
      held = rw h b;
    })
    | inr (e, d) ↦ inr (e, rw h d)
  ]
  fetched_cases s id not_found h =
      inl (record {
        row = blank_record id;
        doc = end;
        eq = rw h refl;
        named = refl;
        held = rw h refl;
      })
  fetched_cases s id failed h = inr (load_failed id, rw h refl)

  -- How a seed that has something to write ends, when it succeeds.
  pub record Seeded (s t : S) (id target : String) (v : Value) : Type 0 where
    pub doc : Fields
    pub row : ContextRecord
    pub written : (set_at doc target v).1 ≡ none
    pub before : document_of (store.get_by_id s id) ≡ some doc
    pub stored : store.get_by_id t id ≡ found row
    pub held : row.context ≡ document (set_at doc target v).0

  loaded-Seeded :
      (id target : String) (v : Value) (s : S) (row : ContextRecord) (doc : Fields)
      → (id == "") ≡ false
      → row.id ≡ id
      → document_of (store.get_by_id s id) ≡ some doc
      → (write_loaded store id target v s (loaded row doc)).1 ≡ none
      → Seeded s (write_loaded store id target v s (loaded row doc)).0 id target v
  loaded-Seeded id target v s row doc ne named held h =
      elim (Option-cases (set_at doc target v).1) [
        | inr (p, e) ↦ absurd (ground arith)
        | inl e ↦
            let saved = record row {
              context = document (set_at doc target v).0;
              updated_by = record { by = "flow"; address = "entry" };
            } in
            elim (Option-cases (store.upsert s saved)) [
              | inl u ↦ absurd (ground arith)
              | inr (t, u) ↦
                  rw (e, u)
                    (record {
                      doc = doc;
                      row = saved;
                      written = e;
                      before = held;
                      stored =
                          rw (store.get-upsert s t saved id (rw named ne) u, named, eq_refl id)
                            refl;
                      held = refl;
                    })
            ]
      ]

  write_loaded-Seeded :
      (id target : String) (v : Value) (s : S)
      → (id == "") ≡ false
      → (write_loaded store id target v s (load id (store.get_by_id s id))).1 ≡ none
      → Seeded s (write_loaded store id target v s (load id (store.get_by_id s id))).0 id target v
  write_loaded-Seeded id target v s ne h = elim (fetched_cases s id (store.get_by_id s id) refl) [
    | inr (e, l) ↦ absurd (ground (arith, rw l at h))
    | inl l ↦ rw l.eq (loaded-Seeded id target v s l.row l.doc ne l.named l.held (rw l.eq at h))
  ]

  pub seeded :
      (s : S) (entry : Option EntryForm) (context_id : String) (values : Fields)
      → has_form entry ≡ true
      → is_filled values ≡ true
      → (seed_entry store s entry context_id values).1 ≡ none
      → Seeded s
          (seed_entry store s entry context_id values).0
          (trim_space context_id)
          (target_path entry)
          (obj values)
  unfolding seed_entry
  seeded s entry context_id values form filled h = elim (Bool-cases (trim_space context_id == "")) [
    | inl unnamed ↦ absurd (ground arith)
    | inr named ↦
        rw (form, filled, named)
          (write_loaded-Seeded (trim_space context_id) (target_path entry) (obj values) s named
            (rw (form, filled, named) at h))
  ]

  -- A seed that has something to write, and succeeds at a target below the root, leaves a document in
  -- which the target holds the values, and a location that parts ways with the target holds what it
  -- held in the document before.
  pub seed_entry-written :
      (s : S) (entry : Option EntryForm) (context_id : String) (values : Fields) (m : String)
      (ms : List String) (other : String) (ns : List String)
      → has_form entry ≡ true
      → is_filled values ≡ true
      → parse_context_path (target_path entry) ≡ ok (m ∷ ms)
      → parse_context_path other ≡ ok ns
      → Diverge (m ∷ ms) ns
      → (seed_entry store s entry context_id values).1 ≡ none
      → let id = trim_space context_id in
        let t = (seed_entry store s entry context_id values).0 in
        (doc : Fields) × (doc' : Fields) × (document_of (store.get_by_id s id) ≡ some doc)
        × (document_of (store.get_by_id t id) ≡ some doc')
        × (value_at_context_path (some doc') (target_path entry) ≡ some (obj values))
        × (value_at_context_path (some doc') other ≡ value_at_context_path (some doc) other)
  seed_entry-written s entry context_id values m ms other ns form filled p q d h =
      let w = seeded s entry context_id values form filled h in
      (
        w.doc,
        (set_at w.doc (target_path entry) (obj values)).0,
        w.before,
        rw (w.stored, w.held) refl,
        value_at-set_at w.doc (target_path entry) (obj values) m ms p w.written,
        value_at-set_at_ne w.doc (target_path entry) other (obj values) m ms ns p q d,
      )

  saved_as-others :
      (s : S) (id j : String) (rec : ContextRecord)
      → (rec.id == "") ≡ false
      → (rec.id == j) ≡ false
      → store.get_by_id (saved_as store s id (store.upsert s rec)).0 j ≡ store.get_by_id s j
  saved_as-others s id j rec filled ne = elim (Option-cases (store.upsert s rec)) [
    | inl u ↦ rw u refl
    | inr (t, u) ↦ rw u (rw (store.get-upsert s t rec j filled u, ne) refl)
  ]

  write_loaded-others :
      (id target : String) (v : Value) (s : S) (j : String)
      → (id == "") ≡ false
      → (id == j) ≡ false
      → store.get_by_id (write_loaded store id target v s (load id (store.get_by_id s id))).0 j
        ≡ store.get_by_id s j
  write_loaded-others id target v s j filled ne =
      elim (fetched_cases s id (store.get_by_id s id) refl) [
        | inr (e, l) ↦ rw l refl
        | inl l ↦ rw l.eq (elim (Option-cases (set_at l.doc target v).1) [
          | inr (p, e) ↦ rw e refl
          | inl e ↦ rw e (saved_as-others s id j _ (rw l.named filled) (rw l.named ne))
        ])
      ]

  -- Whatever becomes of a seed, the row of each other id stays as it was.
  pub seed_entry-others :
      (s : S) (entry : Option EntryForm) (context_id : String) (values : Fields) (j : String)
      → (trim_space context_id == j) ≡ false
      → store.get_by_id (seed_entry store s entry context_id values).0 j ≡ store.get_by_id s j
  unfolding seed_entry
  seed_entry-others s entry context_id values j ne =
      let id = trim_space context_id in
      elim (Bool-cases (not (has_form entry) || not (is_filled values))) [
        | inl skip ↦ rw skip refl
        | inr go ↦ elim (Bool-cases (id == "")) [
          | inl unnamed ↦ rw (go, unnamed) refl
          | inr named ↦
              rw (go, named) (write_loaded-others id (target_path entry) (obj values) s j named ne)
        ]
      ]
