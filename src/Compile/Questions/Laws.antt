-- ===== src/Compile/Questions/Laws.antt =====
-- What the body of a decision holds.
use morph_api.Prelude.{
  String, ◌≡◌, refl, ap, ◌∙◌, inl, inr, true, false, Option, none, some, List, [], ◌∷◌, ◌==◌,
  if◌then◌else◌, arith, Bool-cases, eq_iff, map,
}
use morph_api.Json.{Value, null, bool, num, obj, rows, Fields, end, field, lookup, insert}
use morph_api.Json.Laws.{lookup-insert, lookup-merge, or_else}
use morph_api.Patch.Values.{get, to_rows, as_str}
use morph_api.Compile.Read.{Floats, get_str, get_map, get_float, rows_of}
use morph_api.Compile.Settings.{decision_settings_body}
use morph_api.Compile.Questions.{
  put_route, put_confidence, decision_evidence, question, question_rows, decision_questions,
  put_evidence, decision_body,
}

abbrev pub id_of : Fields → String
id_of row = get_str row "id"

-- the texts that are not empty
abbrev pub filled : List String → List String
filled [] = []
filled (s ∷ ss) = if s == "" then filled ss else s ∷ filled ss

abbrev or_null : Option Value → Value
or_null none = null
or_null (some v) = v

get_str-insert :
    (j k : String) (v : Value) (m : Fields)
    → (k == j) ≡ false
    → get_str (insert k v m) j ≡ get_str m j
unfolding get_str get as_str
get_str-insert j k v m h =
    let same : lookup j (insert k v m) ≡ lookup j m = ground (arith, lookup-insert k j v m) in
    ap as_str (ap or_null same)

id-put_route : (v : Value) (q : Fields) → id_of (put_route v q) ≡ id_of q
id-put_route (bool false) q = get_str-insert "id" "route" (bool false) q refl
id-put_route (bool true) q = refl
id-put_route _ q = refl

module _ (floats : Floats) where
  id-put_confidence : (mc : String) (q : Fields) → id_of (put_confidence floats mc q) ≡ id_of q
  id-put_confidence mc q = elim (Bool-cases (floats.is_positive mc)) [
    | inl e ↦ rw e (get_str-insert "id" "min_confidence" (num mc) q refl)
    | inr e ↦ rw e refl
  ]

  id-question : (row : Fields) → id_of (question floats row) ≡ id_of row
  unfolding question get_str get lookup
  id-question row =
      id-put_confidence (get_float floats row "min_confidence") _ ∙ id-put_route (get "route" row) _

  ids-question_rows :
      (rs : List Fields) → map id_of (question_rows floats rs) ≡ filled (map id_of rs)
  unfolding question_rows
  ids-question_rows [] = refl
  ids-question_rows (r ∷ rs) = elim (Bool-cases (id_of r == "")) [
    | inl e ↦ rw e (ids-question_rows rs)
    | inr e ↦ rw (e, id-question r, ids-question_rows rs) refl
  ]

  -- The questions that are shipped are those with an id, in their order and under their ids.
  pub decision_questions-ids :
      (fields : Fields)
      → map id_of (decision_questions floats fields)
        ≡ filled (map id_of (rows_of (get "questions" fields)))
  unfolding decision_questions
  decision_questions-ids fields = ids-question_rows (rows_of (get "questions" fields))

  abbrev pub evidence_at : String → List Fields → Option Value
  evidence_at j [] = none
  evidence_at j (e ∷ es) = if j == "evidence" then some (rows (to_rows (e ∷ es))) else none

  lookup-put_evidence :
      (j : String) (es : List Fields) (body : Fields)
      → lookup j (put_evidence floats es body) ≡ or_else (evidence_at j es) (lookup j body)
  lookup-put_evidence j [] body = refl
  lookup-put_evidence j (e ∷ es) body = ground (
    arith,
    eq_iff j "evidence",
    eq_iff "evidence" j,
    lookup-insert "evidence" j (rows (to_rows (e ∷ es))) body,
  )

  -- The body of a decision, one field at a time: the collected evidence if there is any, or else what
  -- the drawer's body holds, or else the settings and the questions.
  pub decision_body-lookup :
      (j : String) (fields : Fields)
      → lookup j (decision_body floats fields)
        ≡ or_else (evidence_at j (decision_evidence fields)) (
            or_else (lookup j (get_map fields "body")) (
              lookup j (
                field "settings"
                  (obj (decision_settings_body floats (get_map fields "settings")))
                  (field "questions" (rows (to_rows (decision_questions floats fields))) end))))
  unfolding decision_body
  decision_body-lookup j fields =
      lookup-put_evidence j (decision_evidence fields) _
      ∙ ap (or_else (evidence_at j (decision_evidence fields)))
          (lookup-merge _ (get_map fields "body") j)
