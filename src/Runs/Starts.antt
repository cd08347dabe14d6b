-- ===== src/Runs/Starts.antt =====
-- The start nodes of a run and the snapshot it resumes from, in inflow/process.go.
use morph_api.Prelude.{String, Bool, false, Option, none, some, List, [], ◌∷◌, if◌then◌else◌}
use morph_api.Json.{Value, bool, str, arr, strs, Items, nil, cons, Fields, lookup}
use morph_api.Patch.Values.{is_blank}
use morph_api.Preferences.{is_filled}
use morph_api.Runs.Rows.{ProcessRecord, ProcessStore}

unfoldable pub non_empty : List String → List String
non_empty [] = []
non_empty (id ∷ ids) = let rest = non_empty ids in if is_blank id then rest else id ∷ rest

-- The fields of an outbound edge that are read here.
pub record Next : Type 0 where
  pub node_id : String
  pub tags : List String

unfoldable pub next_ids : List Next → List String
next_ids [] = []
next_ids (n ∷ ns) = n.node_id ∷ next_ids ns

unfoldable pub next_node_ids : List Next → List String
next_node_ids nexts = non_empty (next_ids nexts)

unfoldable pub texts : Items → List String
texts nil = []
texts (cons (str s) vs) = s ∷ texts vs
texts (cons _ vs) = texts vs

abbrev pub kept_ids : Value → List String
kept_ids (arr vs) = non_empty (texts vs)
kept_ids (strs ids) = non_empty ids
kept_ids _ = []

abbrev pub or_column : List String → String → List String
or_column [] id = non_empty (id ∷ [])
or_column (i ∷ is) id = i ∷ is

abbrev pub kept_under : Option Value → List String
kept_under none = []
kept_under (some v) = kept_ids v

-- the set that the meta keeps, or else the one node of the column
unfoldable pub start_nodes_for : ProcessRecord → List String
start_nodes_for rec = or_column (kept_under (lookup "startNodeIds" rec.meta)) rec.start_node_id

abbrev pub is_resume : Option Value → Bool
is_resume (some (bool b)) = b
is_resume _ = false

unfoldable pub resume_for : ProcessRecord → Bool
resume_for rec = is_resume (lookup "resume" rec.meta)

-- `decode` reads the stored snapshot as the engine's type, by way of its JSON.
module _ {S : Type 0} (rows : ProcessStore S) (decode : Fields → Option Fields) where
  abbrev pub snapshot_of : Option ProcessRecord → Option Fields
  snapshot_of none = none
  snapshot_of (some rec) = if is_filled rec.snapshot then decode rec.snapshot else none

  unfoldable pub load_resume_snapshot : S → String → Option Fields
  load_resume_snapshot s pid = if is_blank pid then none else snapshot_of (rows.by_pid s pid)
