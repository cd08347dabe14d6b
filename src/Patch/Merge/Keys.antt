-- ===== src/Patch/Merge/Keys.antt =====
-- Where the keys of a planned node's data come from.
use morph_api.Prelude.{
  ℕ, String, false, ◌||◌, Option, none, some, List, [], ◌∷◌, ◌==◌, if◌then◌else◌, ◌≡◌, refl, ◌∙◌,
  arith, inl, inr, Bool-cases,
}
use morph_api.Prelude.Membership.{mem}
use morph_api.Json.{Value, str, strs, Fields, lookup, insert, merge, erase}
use morph_api.Json.Laws.{or_else, lookup-insert, lookup-insert_ne, lookup-erase_ne, lookup-merge}
use morph_api.Patch.{PatchNode}
use morph_api.Patch.Values.{get, as_str, as_slice, is_blank}
use morph_api.Patch.Ports.{handler_tags, trimmed_tags, is_decision_kind}
use morph_api.Patch.Merge.{
  NodeKind, defaults_for, put_messages, pick_messages, hoist, fold_prompt, retag, is_null,
  stamp_key, stamp_present, stamp_decision, stamp_rule, stamp_kind, merge_data,
}

-- The keys that the merge writes by itself.
abbrev pub reserved : List String
reserved =
    "title" ∷ "key" ∷ "scope" ∷ "system" ∷ "prompt" ∷ "messages" ∷ "body" ∷ "functions"
    ∷ "questions" ∷ "evidence" ∷ "handlers" ∷ []

pub get-insert :
    (k j : String) (v : Value) (m : Fields) → get j (insert k v m) ≡ (if k == j then v else get j m)
unfolding get
get-insert k j v m = rw (get, lookup-insert k j v m) (ground arith)

module _ (k : String) (free : mem k reserved ≡ false) where
  hoist-lookup : (raw : PatchNode) (m : Fields) → lookup k (hoist raw m) ≡ lookup k m
  unfolding hoist mem
  hoist-lookup raw m =
      let titled = if is_blank raw.title then m else insert "title" (str raw.title) m in
      let keyed = if raw.key == "" then titled else insert "key" (str raw.key) titled in
      ground (
        arith,
        lookup-insert_ne "title" k (str raw.title) m (ground arith),
        lookup-insert_ne "key" k (str raw.key) titled (ground arith),
        lookup-insert_ne "scope" k (str "$") keyed (ground arith),
        lookup-insert_ne "scope" k (str raw.scope) keyed (ground arith),
      )

  put_messages-lookup :
      (o : Option (List Fields)) (m : Fields) → lookup k (put_messages o m) ≡ lookup k m
  unfolding mem
  put_messages-lookup none m = refl
  put_messages-lookup (some msgs) m = lookup-insert_ne "body" k _ m (ground arith)

  fold_prompt-lookup : (m : Fields) → lookup k (fold_prompt m) ≡ lookup k m
  unfolding fold_prompt mem
  fold_prompt-lookup m =
      let a = put_messages (pick_messages m) m in
      lookup-erase_ne "messages" k (erase "prompt" (erase "system" a)) (ground arith)
      ∙ (lookup-erase_ne "prompt" k (erase "system" a) (ground arith)
          ∙ (lookup-erase_ne "system" k a (ground arith) ∙ put_messages-lookup (pick_messages m) m))

  -- Each kind stamps its own keys only.
  stamp_key-lookup :
      (short_id : ℕ → String) (key prefix : String) (n : ℕ) (m : Fields)
      → (key == k) ≡ false
      → lookup k (stamp_key short_id key prefix n m).0 ≡ lookup k m
  unfolding stamp_key
  stamp_key-lookup short_id key prefix n m ne = lookup-insert_ne key k _ m ne

  stamp_present-lookup :
      (short_id : ℕ → String) (key prefix : String) (n : ℕ) (m : Fields)
      → (key == k) ≡ false
      → lookup k (stamp_present short_id key prefix n m).0 ≡ lookup k m
  unfolding stamp_present
  stamp_present-lookup short_id key prefix n m ne =
      elim (Bool-cases (is_null short_id (get key m))) [
        | inl e ↦ rw e refl
        | inr e ↦ rw e (stamp_key-lookup short_id key prefix n m ne)
      ]

  stamp_decision-lookup :
      (short_id : ℕ → String) (n : ℕ) (m : Fields)
      → lookup k (stamp_decision short_id n m).0 ≡ lookup k m
  unfolding stamp_decision mem
  stamp_decision-lookup short_id n m =
      stamp_present-lookup short_id "evidence" "ev" _ _ (ground arith)
      ∙ lookup-insert_ne "questions" k _ m (ground arith)

  stamp_kind-lookup :
      (short_id : ℕ → String) (kind : String) (n : ℕ) (m : Fields)
      → lookup k (stamp_kind short_id kind n m).0 ≡ lookup k m
  unfolding stamp_kind mem
  stamp_kind-lookup short_id kind n m = elim (Bool-cases (kind == "llm")) [
    | inl l ↦ rw l (stamp_key-lookup short_id "functions" "fn" n m (ground arith))
    | inr l ↦ elim (Bool-cases (is_decision_kind kind)) [
      | inl d ↦ rw (l, d) (stamp_decision-lookup short_id n m)
      | inr d ↦ elim (Bool-cases (kind == "rule")) [
        | inl r ↦
            rw (l, d, r) (unfold stamp_rule in lookup-insert_ne "handlers" k _ m (ground arith))
        | inr r ↦ rw (l, d, r) refl
      ]
    ]
  ]

  -- A key of a planned node's data that the merge does not write by itself holds what the patch gives
  -- it, or else the default of the kind.
  pub merge_data-lookup :
      (short_id : ℕ → String) (catalog : List NodeKind) (n : ℕ) (raw : PatchNode)
      → lookup k (merge_data short_id catalog n raw).0
        ≡ or_else (lookup k raw.payload) (lookup k (defaults_for catalog raw.kind))
  unfolding merge_data
  merge_data-lookup short_id catalog n raw =
      let merged = merge (defaults_for catalog raw.kind) raw.payload in
      let kept =
        hoist-lookup raw merged ∙ lookup-merge (defaults_for catalog raw.kind) raw.payload k in
      elim (Bool-cases (raw.kind == "llm" || raw.kind == "mcp")) [
        | inl e ↦ rw e (
            stamp_kind-lookup short_id raw.kind n _
            ∙ (fold_prompt-lookup (hoist raw merged) ∙ kept))
        | inr e ↦ rw e (stamp_kind-lookup short_id raw.kind n _ ∙ kept)
      ]

-- A handler that is tagged anew has its tags read again only when it has a name: a legacy handler,
-- which has tags and no name, loses them, since the tags are stored as another type of list.
pub handler_tags-retag :
    (h : Fields)
    → handler_tags (retag h) ≡ (if is_blank (as_str (get "name" h)) then [] else handler_tags h)
unfolding handler_tags
handler_tags-retag h =
    rw
      (
        get-insert "tags" "name" (strs (handler_tags h)) h,
        get-insert "tags" "tags" (strs (handler_tags h)) h,
      )
      (unfold as_slice trimmed_tags in ground arith)
