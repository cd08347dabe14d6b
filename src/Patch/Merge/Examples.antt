-- ===== src/Patch/Merge/Examples.antt =====
-- The theorems on `mergeData`, at an LLM node with both shorthands and at a legacy rule handler.
use morph_api.Prelude.{◌≡◌, refl, List, [], ◌∷◌, some, none}
use morph_api.Prelude.Membership.{mem}
use morph_api.Prelude.Text.{trim_space, trim, trim_left, trim_right, is_space}
use morph_api.Prelude.Decimal.{decimal}
use morph_api.Json.{str, arr, cons, nil, Fields, end, field, lookup}
use morph_api.Json.Laws.{or_else}
use morph_api.Patch.{PatchNode}
use morph_api.Patch.Values.{get, as_rows, as_object}
use morph_api.Patch.Merge.{
  NodeKind, shorthand, add_messages, has_role, system_first, body_messages, pick_messages,
  message_row, merge_data, defaults_for,
}
use morph_api.Patch.Merge.Keys.{merge_data-lookup}

abbrev llm : List NodeKind
llm =
    record {
      kind = "llm";
      defaults = some (field "model" (str "m1") (field "retries" (str "2") end));
    }
    ∷ []

abbrev asked : Fields
asked =
    field "prompt" (str "Hello") (field "system" (str "Be brief") (field "model" (str "m2") end))

abbrev ask : PatchNode
ask = record {
  ref = "a";
  kind = "llm";
  title = "Ask";
  key = "";
  scope = "";
  position = none;
  payload = asked;
  note = "";
}

merge_data-lookup_example :
    lookup "model" (merge_data decimal llm 0 ask).0
    ≡ or_else (lookup "model" asked) (lookup "model" (defaults_for llm "llm"))
unfolding mem
merge_data-lookup_example = merge_data-lookup "model" refl decimal llm 0 ask

abbrev picked : List Fields
picked = message_row "system" "Be brief" ∷ message_row "user" "Hello" ∷ []

picks : pick_messages asked ≡ some picked
unfolding pick_messages body_messages shorthand add_messages has_role system_first get lookup
    as_rows as_object trim_space trim trim_left trim_right is_space
picks = refl

abbrev legacy : Fields
legacy = field "tags" (arr (cons (str "yes") nil)) end
