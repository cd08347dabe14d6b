-- ===== src/Workflows/Laws.antt =====
-- What a save keeps of the flow that was there, and what it writes.
use morph_api.Prelude.{
  ℕ, String, ◌≡◌, ◌≢◌, refl, false, Option, none, some, ◌==◌, arith, eq_iff, if-split,
}
use morph_api.Tags.{normalize_tags}
use morph_api.Preferences.{normalize}
use morph_api.Plugins.{collect_flow_plugins}
use morph_api.Workflows.{
  FlowRecord, stored, Found, found, not_found, unreadable, FlowTable, Save, saved, or_stored, born,
  keep_stored, derived, written, write_row, over, upsert,
}

module _ {S : Type 0} (table : FlowTable S) where
  -- A record as it was written, where it is found.
  abbrev pub Written : S → FlowRecord → Type 0
  Written t r = (table.read t r.id ≡ found (stored r)) × (r.plugins ≡ collect_flow_plugins r.graph)

  -- No write to the table fails.
  abbrev pub Reliable : Type 0
  Reliable = (s : S) (w : FlowRecord) → table.write s w ≢ none

  abbrev pub Saves : (S → FlowRecord → Type 0) → Save S → Type 0
  Saves Q a = (t : S) × (r : FlowRecord) × (a ≡ saved t r) × Q t r

  written-Saves :
      (Q : S → FlowRecord → Type 0) (sure : Reliable) (s : S) (w : FlowRecord) (o : Option S)
      → table.write s w ≡ o
      → ((t : S) → table.read t w.id ≡ found (stored w) → Q t w)
      → Saves Q (written table w o)
  written-Saves Q sure s w none e q = absurd (sure s w e)
  written-Saves Q sure s w (some t) e q =
      (t, w, refl, q t (ground (arith, table.read-write s t w w.id e, eq_iff w.id w.id)))

  -- A record that was written, with the title and the graph that the save was given.
  abbrev pub Keeps : FlowRecord → S → FlowRecord → Type 0
  Keeps w t r = Written t r × (r.title ≡ w.title) × (r.graph ≡ w.graph)

  write_row-Keeps :
      (sure : Reliable) (s : S) (now : ℕ) (w : FlowRecord)
      → Saves (Keeps w) (write_row table s now w)
  unfolding derived
  write_row-Keeps sure s now w =
      written-Saves (Keeps w) sure s (derived now w) _ refl (λ t h. ((h, refl), refl, refl))

  over-Keeps :
      (sure : Reliable) (s : S) (now : ℕ) (w : FlowRecord) (there : Found)
      → ((text : String) → there ≢ unreadable text)
      → Saves (Keeps w) (over table s now w there)
  over-Keeps sure s now w (found old) h = write_row-Keeps sure s now (keep_stored old w)
  over-Keeps sure s now w not_found h = write_row-Keeps sure s now (born now w)
  over-Keeps sure s now w (unreadable text) h = absurd (h text refl)

  -- A save succeeds if the table can be read and written, and its row is read back.
  pub upsert-Keeps :
      (sure : Reliable) (s : S) (now : ℕ) (minted : String) (w : FlowRecord)
      → ((text : String) → table.read s w.id ≢ unreadable text)
      → Saves (Keeps w) (upsert table s now minted w)
  unfolding upsert
  upsert-Keeps sure s now minted w h =
      if-split (Saves (Keeps w)) (w.id == "") _ _
        (λ e. write_row-Keeps sure s now (born now (record w { id = minted })))
        (λ e. over-Keeps sure s now w (table.read s w.id) h)

  -- What a field becomes that the save may leave unsaid.
  abbrev pub Updates :
      {A : Type 0} → (Option A → Option A) → Option A → Option A → Option A → Type 0
  Updates tidy old none new = new ≡ tidy old
  Updates tidy old (some a) new = new ≡ tidy (some a)

  abbrev pub Renews : FlowRecord → FlowRecord → S → FlowRecord → Type 0
  Renews old w t r =
      Written t r
      × (r.id ≡ w.id)
      × (r.title ≡ w.title)
      × (r.graph ≡ w.graph)
      × (r.created_at ≡ old.created_at)
      × Updates normalize_tags old.tags w.tags r.tags
      × Updates normalize old.preferences w.preferences r.preferences

  or_stored-Updates :
      {A : Type 0} (tidy : Option A → Option A) (old new : Option A)
      → Updates tidy old new (tidy (or_stored new old))
  or_stored-Updates tidy old none = refl
  or_stored-Updates tidy old (some a) = refl

  write_kept-Renews :
      (sure : Reliable) (s : S) (now : ℕ) (old w : FlowRecord)
      → Saves (Renews old w) (write_row table s now (keep_stored old w))
  unfolding derived
  write_kept-Renews sure s now old w =
      written-Saves (Renews old w) sure s (derived now (keep_stored old w)) _ refl (λ t h. (
        (h, refl),
        refl,
        refl,
        refl,
        refl,
        or_stored-Updates normalize_tags old.tags w.tags,
        or_stored-Updates normalize old.preferences w.preferences,
      ))

  -- When no write fails, a save over a flow that is there succeeds. It keeps the time of the
  -- flow's creation, and keeps its tags and its preferences where the save says nothing of them; what
  -- it says replaces them, in normal form, also when it says that there are none. The row is read back
  -- at the same id with the new title and graph, and with the plugins of that graph.
  pub upsert-Renews :
      (sure : Reliable) (s : S) (now : ℕ) (minted : String) (old w : FlowRecord)
      → (w.id == "") ≡ false
      → table.read s w.id ≡ found old
      → Saves (Renews old w) (upsert table s now minted w)
  unfolding upsert
  upsert-Renews sure s now minted old w named there =
      rw (named, there) (write_kept-Renews sure s now old w)
