-- ===== src/Patch/Merge.antt =====
-- `mergeData` of designer/patch.go: the data of a planned node. A short id of a new UUID is the next
-- one of a supply, so each function that draws ids takes the place in the supply and returns it.
pub mod Keys
pub mod Messages
pub mod Ids
mod Examples
use morph_api.Prelude.{
  ℕ, ◌+◌, String, Bool, true, false, ◌&&◌, ◌||◌, Option, none, some, List, [], ◌∷◌, ◌++◌, ◌==◌, map,
  if◌then◌else◌,
}
use morph_api.Prelude.Text.{append}
use morph_api.Prelude.Decimal.{decimal}
use morph_api.Json.{
  Value, null, str, obj, rows, strs, Fields, end, field, lookup, insert, merge, erase,
}
use morph_api.Patch.{PatchNode}
use morph_api.Patch.Values.{get, to_rows, as_object, as_rows, as_str, or_empty, is_blank}
use morph_api.Patch.Ports.{handler_tags, is_decision_kind}

-- One entry of the embedded catalog: the kind and its parsed defaults, `none` where there are none
-- or they do not parse to an object.
pub record NodeKind : Type 0 where
  pub kind : String
  pub defaults : Option Fields

-- `kindByName[kind]`, in which a later entry replaces an earlier one
unfoldable pub kind_by_name : List NodeKind → String → Option NodeKind
kind_by_name [] kind = none
kind_by_name (k ∷ ks) kind =
    let later = kind_by_name ks kind in
    elim later [ some l ↦ some l | none ↦ if k.kind == kind then some k else none ]

unfoldable pub defaults_for : List NodeKind → String → Fields
defaults_for catalog kind = elim (kind_by_name catalog kind) [
  | none ↦ end
  | some k ↦ elim k.defaults [ none ↦ end | some d ↦ d ]
]

abbrev pub message_row : String → String → Fields
message_row role content = field "role" (str role) (field "content" (str content) end)

-- `m["role"] == role`, and so for other keys
abbrev pub holds_text : String → String → Fields → Bool
holds_text k s m = elim (get k m) [ str t ↦ t == s | _ ↦ false ]

unfoldable pub has_role : String → List Fields → Bool
has_role role [] = false
has_role role (r ∷ rs) = holds_text "role" role r || has_role role rs

-- a row for a text that is not blank
unfoldable pub shorthand : String → Value → List Fields
shorthand role (str s) = if is_blank s then [] else message_row role s ∷ []
shorthand role _ = []

-- the loop over the explicit messages
unfoldable pub add_messages : List Fields → List Fields → List Fields
add_messages picked [] = picked
add_messages picked (m ∷ ms) =
    let role = if holds_text "role" "system" m then "system" else "user" in
    let content = as_str (get "content" m) in
    add_messages
      (if is_blank content || has_role role picked
        then picked
        else picked ++ message_row role content ∷ [])
      ms

-- the system row before the user row
unfoldable pub system_first : List Fields → List Fields
system_first (a ∷ b ∷ []) =
    if holds_text "role" "user" a && holds_text "role" "system" b then b ∷ a ∷ [] else a ∷ b ∷ []
system_first rs = rs

body_messages : Fields → Option (List Fields)
body_messages payload = elim (as_object (get "body" payload)) [
  | none ↦ none
  | some body ↦ as_rows (get "messages" body)
]

-- With no row, a list of messages in the data itself is reset to an empty one.
abbrev settle : List Fields → Bool → Option (List Fields)
settle [] reset = if reset then some [] else none
settle (r ∷ rs) reset = some (system_first (r ∷ rs))

unfoldable pub pick_messages : Fields → Option (List Fields)
unfolding body_messages
pick_messages payload =
    let short =
      shorthand "system" (get "system" payload) ++ shorthand "user" (get "prompt" payload) in
    elim (as_rows (get "messages" payload)) [
      | some given ↦ settle (add_messages short given) true
      | none ↦ settle (add_messages short (or_empty (body_messages payload))) false
    ]

-- title, key and scope over the data
unfoldable pub hoist : PatchNode → Fields → Fields
hoist raw m =
    let titled = if is_blank raw.title then m else insert "title" (str raw.title) m in
    let keyed = if raw.key == "" then titled else insert "key" (str raw.key) titled in
    if raw.scope == ""
    then elim (lookup "scope" keyed) [ none ↦ insert "scope" (str "$") keyed | some v ↦ keyed ]
    else insert "scope" (str raw.scope) keyed

abbrev body_of : Fields → Fields
body_of m = elim (as_object (get "body" m)) [ none ↦ end | some body ↦ body ]

abbrev put_messages : Option (List Fields) → Fields → Fields
put_messages none m = m
put_messages (some msgs) m =
    insert "body" (obj (insert "messages" (rows (to_rows msgs)) (body_of m))) m

-- the prompt shorthand, moved into `body.messages`
unfoldable pub fold_prompt : Fields → Fields
fold_prompt m =
    erase "messages" (erase "prompt" (erase "system" (put_messages (pick_messages m) m)))

-- `h["tags"] = handlerTags(h)`, a `[]string`
abbrev pub retag : Fields → Fields
retag h = insert "tags" (strs (handler_tags h)) h

module _ (short_id : ℕ → String) where
  stamp_row : String → ℕ → ℕ → Fields → Fields × ℕ
  stamp_row prefix n i r =
      if is_blank (as_str (get "id" r))
      then (
        insert "id"
            (str (append prefix (append "-" (append (short_id n) (append "-" (decimal i)))))) r,
        n + 1,
      )
      else (r, n)

  stamp_from : String → ℕ → ℕ → List Fields → List Fields × ℕ
  unfolding stamp_row
  stamp_from prefix n i [] = ([], n)
  stamp_from prefix n i (r ∷ rs) =
      let (r', n') = stamp_row prefix n i r in
      let (rs', n'') = stamp_from prefix n' (i + 1) rs in (r' ∷ rs', n'')

  unfoldable pub stamp_ids : String → ℕ → Value → List Fields × ℕ
  unfolding stamp_from
  stamp_ids prefix n v = stamp_from prefix n 0 (or_empty (as_rows v))

  -- `m[key] = stampIDs(m[key], prefix)`
  stamp_key : String → String → ℕ → Fields → Fields × ℕ
  stamp_key key prefix n m =
      let (rs, n') = stamp_ids prefix n (get key m) in (insert key (rows (to_rows rs)) m, n')

  abbrev is_null : Value → Bool
  is_null null = true
  is_null _ = false

  -- the same where the key holds something
  stamp_present : String → String → ℕ → Fields → Fields × ℕ
  unfolding stamp_key
  stamp_present key prefix n m = if is_null (get key m) then (m, n) else stamp_key key prefix n m

  stamp_question : ℕ → Fields → Fields × ℕ
  unfolding stamp_key stamp_present
  stamp_question n q =
      let (q', n') = stamp_key "options" "opt" n q in stamp_present "references" "ref" n' q'

  stamp_questions : ℕ → List Fields → List Fields × ℕ
  unfolding stamp_question
  stamp_questions n [] = ([], n)
  stamp_questions n (q ∷ qs) =
      let (q', n') = stamp_question n q in let (qs', n'') = stamp_questions n' qs in (q' ∷ qs', n'')

  stamp_decision : ℕ → Fields → Fields × ℕ
  unfolding stamp_questions stamp_present
  stamp_decision n m =
      let (qs, n') = stamp_questions n (or_empty (as_rows (get "questions" m))) in
      stamp_present "evidence" "ev" n' (insert "questions" (rows (to_rows qs)) m)

  stamp_rule : ℕ → Fields → Fields × ℕ
  stamp_rule n m =
      let (hs, n') = stamp_ids "h" n (get "handlers" m) in
      (insert "handlers" (rows (to_rows (map retag hs))) m, n')

  -- the stamping that a kind asks for
  unfoldable pub stamp_kind : String → ℕ → Fields → Fields × ℕ
  unfolding stamp_key stamp_decision stamp_rule
  stamp_kind kind n m =
      if kind == "llm"
      then stamp_key "functions" "fn" n m
      else if is_decision_kind kind
      then stamp_decision n m
      else if kind == "rule"
      then stamp_rule n m
      else (m, n)

  unfoldable pub merge_data : List NodeKind → ℕ → PatchNode → Fields × ℕ
  merge_data catalog n raw =
      let hoisted = hoist raw (merge (defaults_for catalog raw.kind) raw.payload) in
      let folded =
        if raw.kind == "llm" || raw.kind == "mcp" then fold_prompt hoisted else hoisted in
      stamp_kind raw.kind n folded
