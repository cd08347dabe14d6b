-- ===== src/HumanContext/Examples.antt =====
-- The theorems on binding an outcome, over a store of one row.
use morph_api.Prelude.{◌≡◌, refl, [], ◌∷◌, some, ◌==◌, if◌then◌else◌}
use morph_api.Prelude.Text.{trim_space, trim, trim_left, trim_right, is_space}
use morph_api.Json.{num, obj, Fields, end, field, lookup}
use morph_api.Entry.Store.{ContextRecord, Body, document, found, rows_store, find_row}
use morph_api.HumanContext.{HumanTask, human_task_outcome, written, write_human_task_context}
use morph_api.HumanContext.Laws.{write-bound}

abbrev settled : HumanTask
settled = record {
  status = "closed";
  node_id = "n-1";
  context_id = "c1";
  key = "review";
  questions = record { id = "q"; text = "How many?"; answer = "3"; answered_at = 5 } ∷ [];
  messages = record { id = "m"; role = "human"; text = "3"; at = 5 } ∷ [];
  closed_at = 6;
}

abbrev row_of : Body → ContextRecord
row_of b = record {
  id = "c1";
  title = "";
  context = b;
  header = end;
  updated_by = record { by = "user"; address = "" };
}

abbrev kept : Fields
kept = field "other" (num "7") end

writes :
    (write_human_task_context rows_store (row_of (document kept) ∷ []) (some settled)).1 ≡ written
unfolding write_human_task_context rows_store find_row trim_space trim trim_left trim_right is_space
writes = refl

write-bound_example :
    let t = (write_human_task_context rows_store (row_of (document kept) ∷ []) (some settled)).0 in
    (row : ContextRecord) × (doc' : Fields) × (rows_store.get_by_id t (trim_space "c1") ≡ found row)
    × (row.context ≡ document doc')
    × (lookup "other" doc' ≡ (
        if trim_space "review" == "other"
        then some (obj (human_task_outcome settled))
        else lookup "other" kept))
unfolding rows_store find_row trim_space trim trim_left trim_right is_space
write-bound_example =
    write-bound rows_store (row_of (document kept) ∷ []) settled (row_of (document kept)) kept
      "other" refl refl refl refl writes
