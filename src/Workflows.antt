-- ===== src/Workflows.antt =====
-- repository/sqlite/workflow.go, with its twin of postgres: the saving of a flow. The engine's table is
-- a parameter, which holds what the columns keep of a record.
pub mod Laws
use morph_api.Prelude.{
  ℕ, String, ◌≡◌, Bool, true, false, Option, none, some, List, [], ◌∷◌, ◌==◌, eqb, if◌then◌else◌,
}
use morph_api.Graph.{Flow}
use morph_api.Tags.{normalize_tags}
use morph_api.Preferences.{FlowPreferences, normalize, is_unset}
use morph_api.Plugins.{FlowPlugin, collect_flow_plugins}

-- Nil tags or preferences say nothing, and empty ones say that there are none.
pub record FlowRecord : Type 0 where
  pub id : String
  pub title : String
  pub tags : Option (List String)
  pub preferences : Option FlowPreferences
  pub plugins : List FlowPlugin
  pub created_at : ℕ
  pub updated_at : ℕ
  pub graph : Flow

-- what the column of the tags gives back: empty tags are read as nil
unfoldable pub stored_tags : Option (List String) → Option (List String)
stored_tags none = none
stored_tags (some []) = none
stored_tags (some (t ∷ ts)) = some (t ∷ ts)

unfoldable pub stored_preferences : Option FlowPreferences → Option FlowPreferences
stored_preferences p = if is_unset p then none else if is_unset (normalize p) then none else p

unfoldable pub stored : FlowRecord → FlowRecord
stored w = record w { tags = stored_tags w.tags; preferences = stored_preferences w.preferences }

pub data Found : Type 0 where
  found : FlowRecord → Found
  not_found : Found
  unreadable : (text : String) → Found

-- A written row is read back, and the others stay. The statement leaves the creation time of a row that is
-- there as it was, which is the time that a record carries that is saved over it; a new id has no row.
pub record FlowTable (S : Type 0) : Type 0 where
  pub read : S → String → Found
  pub write : S → FlowRecord → Option S
  pub read-write :
      (s t : S) (w : FlowRecord) (id : String)
      → write s w ≡ some t
      → read t id ≡ (if w.id == id then found (stored w) else read s id)

pub data Save (S : Type 0) : Type 0 where
  saved : S → FlowRecord → Save S
  not_read : (text : String) → Save S
  not_written : Save S

abbrev pub or_stored {ℓ} : {A : Type ℓ} → Option A → Option A → Option A
or_stored none old = old
or_stored (some a) old = some a

abbrev pub born : ℕ → FlowRecord → FlowRecord
born now w = record w { created_at = if eqb w.created_at 0 then now else w.created_at }

-- what a save takes over from the row that is there
abbrev pub keep_stored : FlowRecord → FlowRecord → FlowRecord
keep_stored old w = record w {
  created_at = old.created_at;
  tags = or_stored w.tags old.tags;
  preferences = or_stored w.preferences old.preferences;
}

-- The list of plugins is derived from the graph, whatever the record came with.
unfoldable pub derived : ℕ → FlowRecord → FlowRecord
derived now w = record w {
  updated_at = now;
  tags = normalize_tags w.tags;
  preferences = normalize w.preferences;
  plugins = collect_flow_plugins w.graph;
}

module _ {S : Type 0} (table : FlowTable S) where
  abbrev pub written : FlowRecord → Option S → Save S
  written w none = not_written
  written w (some t) = saved t w

  abbrev pub write_row : S → ℕ → FlowRecord → Save S
  write_row s now w = written (derived now w) (table.write s (derived now w))

  abbrev pub over : S → ℕ → FlowRecord → Found → Save S
  over s now w (found old) = write_row s now (keep_stored old w)
  over s now w not_found = write_row s now (born now w)
  over s now w (unreadable text) = not_read text

  -- `minted` is the new id.
  unfoldable pub upsert : S → ℕ → String → FlowRecord → Save S
  upsert s now minted w =
      if w.id == ""
      then write_row s now (born now (record w { id = minted }))
      else over s now w (table.read s w.id)
