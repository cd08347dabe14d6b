-- ===== src/Diagnostics.antt =====
-- inflow/validate.go
pub mod Laws
pub mod Verdicts
mod Examples
use morph_api.Prelude.{
  ℕ, ◌+◌, String, Bool, true, false, not, ◌&&◌, ◌||◌, Option, none, some, List, [], ◌∷◌, ◌++◌, ◌==◌,
  eqb, map, if◌then◌else◌,
}
use morph_api.Prelude.Text.{append, join}
use morph_api.Prelude.Decimal.{decimal}

pub data Severity : Type 0 where
  error warning : Severity
  other_severity : String → Severity

-- The codes of this repository and of the guard of inflow-fusion.
pub data Code : Type 0 where
  start_node_missing node_build_failed plugin_account_unresolved node_unreachable : Code
  depend_deadlock depend_unreachable depend_unknown_node depend_self depend_without_edge : Code
  other_code : String → Code

-- The fields of a `ValidationIssue` that this repository reads or writes.
pub record Issue : Type 0 where
  pub code : Code
  pub severity : Severity
  pub node_id : String
  pub message : String
  pub suggestion : String

pub record Diagnostics : Type 0 where
  pub ok : Bool
  pub start_node_id : String
  pub issues : List Issue
  pub error_count : ℕ
  pub warning_count : ℕ

abbrev pub is_error : Issue → Bool
is_error i = elim i.severity [ error ↦ true | warning ↦ false | other_severity s ↦ false ]

abbrev pub is_warning : Issue → Bool
is_warning i = elim i.severity [ error ↦ false | warning ↦ true | other_severity s ↦ false ]

unfoldable pub has_errors : Diagnostics → Bool
has_errors d = not (eqb d.error_count 0)

abbrev pub is_guard_code : Code → Bool
is_guard_code depend_deadlock = true
is_guard_code depend_unreachable = true
is_guard_code depend_unknown_node = true
is_guard_code depend_self = true
is_guard_code depend_without_edge = true
is_guard_code node_unreachable = true
is_guard_code _ = false

-- `bySeverity`, over the test for the severity
unfoldable pub select : (Issue → Bool) → List Issue → List Issue
select p [] = []
select p (i ∷ is) = let rest = select p is in if p i then i ∷ rest else rest

unfoldable pub errors : Diagnostics → List Issue
errors d = select is_error d.issues

unfoldable pub warnings : Diagnostics → List Issue
warnings d = select is_warning d.issues

-- `sort.SliceStable` by a `less`: an issue moves left past those that it is less than.
insert_stable : (Issue → Issue → Bool) → Issue → List Issue → List Issue
insert_stable less i [] = i ∷ []
insert_stable less i (j ∷ js) =
    let later = insert_stable less i js in if less j i then j ∷ later else i ∷ j ∷ js

pub sort_stable : (Issue → Issue → Bool) → List Issue → List Issue
unfolding insert_stable
sort_stable less [] = []
sort_stable less (i ∷ is) = insert_stable less i (sort_stable less is)

abbrev pub error_first : Issue → Issue → Bool
error_first a b = is_error a && not (is_error b)

-- the loop that counts errors and the rest
pub count : (Issue → Bool) → List Issue → ℕ
count p [] = 0
count p (i ∷ is) = (if p i then 1 else 0) + count p is

unfoldable pub add : Diagnostics → List Issue → Diagnostics
add d new =
    let sorted = sort_stable error_first (d.issues ++ new) in
    let n = count is_error sorted in
    record d {
      issues = sorted;
      error_count = n;
      warning_count = count (λ i. not (is_error i)) sorted;
      ok = eqb n 0;
    }

-- `issue_error` is the `Error` method of an issue, which inflow-fusion defines.
module _ (issue_error : Issue → String) where
  unfoldable pub issue_text : Issue → String
  issue_text i =
      if i.node_id == ""
      then issue_error i
      else append "node " (append i.node_id (append ": " (issue_error i)))

  -- the text of the issues, or no error where there is none
  unfoldable pub joined : List Issue → Option String
  unfolding issue_text
  joined [] = none
  joined (i ∷ is) = some (join "; " (map issue_text (i ∷ is)))

  unfoldable pub err : Diagnostics → Option String
  err d = joined (errors d)

  unfoldable pub compile_err : Diagnostics → Option String
  compile_err d = joined (select (λ i. not (is_guard_code i.code)) (errors d))

  abbrev pub plural : ℕ → String → String
  plural n word =
      if eqb n 1 then append "1 " word else append (decimal n) (append " " (append word "s"))

  -- `none` where the source indexes an empty list
  abbrev pub first_text : List Issue → Option String
  first_text [] = none
  first_text (i ∷ is) = some (issue_text i)

  unfoldable pub summary : Diagnostics → Option String
  summary d =
      if eqb d.error_count 0 && eqb d.warning_count 0
      then some "no issues"
      else if eqb d.error_count 1 && eqb d.warning_count 0
      then first_text (errors d)
      else if eqb d.error_count 0 && eqb d.warning_count 1
      then first_text (warnings d)
      else some
          (append (plural d.error_count "error") (append ", " (plural d.warning_count "warning")))
