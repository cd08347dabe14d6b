-- ===== src/Compile/Questions.antt =====
-- The rows of a node that inflow/node_builders.go lowers to the body of a plugin: bound functions,
-- and the questions and the evidence of a decision.
pub mod Laws
use morph_api.Prelude.{
  String, Bool, true, false, not, ◌||◌, Option, none, some, List, [], ◌∷◌, ◌==◌, if◌then◌else◌,
}
use morph_api.Prelude.Text.{trim_space}
use morph_api.Json.{
  Value, bool, num, str, arr, obj, rows, Fields, end, field, Rows, no_rows, insert, merge,
}
use morph_api.Patch.Values.{get, as_slice, objects, to_rows, is_blank}
use morph_api.Preferences.{is_filled}
use morph_api.Compile.Read.{Floats, get_str, get_map, get_float, rows_of}
use morph_api.Compile.Settings.{decision_settings_body}

-- the schema of a row's parameters, where it has one
unfoldable pub parameters_of : Fields → Option Fields
parameters_of row = elim (get "parameters" row) [
  | obj p ↦ some p
  | _ ↦ elim (get "inputSchema" row) [ obj p ↦ some p | _ ↦ none ]
]

abbrev pub put_parameters : Bool → Fields → Option Fields → Fields
put_parameters false fn p = fn
put_parameters true fn none = fn
put_parameters true fn (some p) = insert "parameters" (obj p) fn

unfoldable pub bound_function : Bool → Fields → Fields
bound_function with_params row =
    put_parameters with_params
      (field "name" (str (get_str row "name"))
        (field "description" (str (get_str row "description")) end))
      (parameters_of row)

-- a row without a name is skipped
unfoldable pub bound_rows : Bool → List Fields → List Fields
bound_rows with_params [] = []
bound_rows with_params (row ∷ more) =
    let rest = bound_rows with_params more in
    if get_str row "name" == "" then rest else bound_function with_params row ∷ rest

unfoldable pub bound_functions : Fields → Bool → List Fields
bound_functions fields with_params =
    bound_rows with_params (objects (as_slice (get "functions" fields)))

unfoldable pub option_rows : List Fields → List Fields
option_rows [] = []
option_rows (o ∷ more) =
    let rest = option_rows more in
    if get_str o "name" == ""
    then rest
    else field "name" (str (get_str o "name"))
        (field "description" (str (get_str o "description")) end)
      ∷ rest

-- A text and the two kinds of list and the object pass; anything else is the empty text.
unfoldable pub instructions_of : Value → Value
instructions_of (str s) = str s
instructions_of (obj m) = obj m
instructions_of (arr vs) = arr vs
instructions_of (rows rs) = rows rs
instructions_of _ = str ""

-- the loop over the references, which fills `out`
unfoldable pub put_references : Fields → List Fields → Fields
put_references out [] = out
put_references out (r ∷ refs) =
    let name = trim_space (get_str r "name") in
    put_references
      (if name == "" || name == "question" then out else insert name (str (get_str r "value")) out)
      refs

abbrev pub question_field : String → Fields
question_field text = if is_blank text then end else field "question" (str text) end

abbrev pub or_text : String → Fields → Value
or_text text out = if is_filled out then obj out else str text

-- The text of the question with its references. What is structured already is passed on.
abbrev pub with_references : Value → List Fields → Value
with_references instructions [] = instructions
with_references (str text) (r ∷ refs) =
    or_text text (put_references (question_field text) (r ∷ refs))
with_references instructions (r ∷ refs) = instructions

unfoldable pub instructions_with_references : Fields → Value
instructions_with_references row =
    with_references (instructions_of (get "instructions" row)) (rows_of (get "references" row))

unfoldable pub evidence_rows : List Fields → List Fields
evidence_rows [] = []
evidence_rows (row ∷ more) =
    let rest = evidence_rows more in
    if is_blank (get_str row "text")
    then rest
    else field "source" (str (get_str row "source")) (field "text" (str (get_str row "text")) end)
      ∷ rest

unfoldable pub decision_evidence : Fields → List Fields
decision_evidence fields = evidence_rows (rows_of (get "evidence" fields))

-- only a `route` that is turned off is shipped
abbrev pub put_route : Value → Fields → Fields
put_route (bool false) q = insert "route" (bool false) q
put_route _ q = q

module _ (floats : Floats) where
  abbrev pub put_confidence : String → Fields → Fields
  put_confidence mc q = if floats.is_positive mc then insert "min_confidence" (num mc) q else q

  unfoldable pub question : Fields → Fields
  question row = put_confidence (get_float floats row "min_confidence") (
      put_route (get "route" row) (
        field "id" (str (get_str row "id")) (
          field "type" (str (get_str row "type")) (
            field "options" (rows (to_rows (option_rows (rows_of (get "options" row)))))
              (field "instructions" (instructions_with_references row) end)))))

  -- a question without an id is skipped
  unfoldable pub question_rows : List Fields → List Fields
  question_rows [] = []
  question_rows (row ∷ more) =
      let rest = question_rows more in if get_str row "id" == "" then rest else question row ∷ rest

  unfoldable pub decision_questions : Fields → List Fields
  decision_questions fields = question_rows (rows_of (get "questions" fields))

  abbrev pub put_evidence : List Fields → Fields → Fields
  put_evidence [] body = body
  put_evidence (e ∷ es) body = insert "evidence" (rows (to_rows (e ∷ es))) body

  unfoldable pub decision_body : Fields → Fields
  decision_body fields = put_evidence (decision_evidence fields) (
      merge
        (field "settings" (obj (decision_settings_body floats (get_map fields "settings")))
          (field "questions" (rows (to_rows (decision_questions fields))) end))
        (get_map fields "body"))
