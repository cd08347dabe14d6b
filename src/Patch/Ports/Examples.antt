-- ===== src/Patch/Ports/Examples.antt =====
-- The theorems on ports, at a rule node with two handlers.
use morph_api.Prelude.{◌≡◌, ◌≢◌, ◌↔◌, ◌⊎◌, refl, [], ◌∷◌, true, false, sym, ◌∙◌, arith, All}
use morph_api.Prelude.Text.{trim_space, trim, trim_left, trim_right, is_space, equal_fold}
use morph_api.Prelude.Decimal.{decimal}
use morph_api.Json.{str, arr, obj, nil, cons, Fields, end, field, lookup}
use morph_api.Patch.Values.{get, as_rows, as_str, items, objects, first_str, contains_fold}
use morph_api.Patch.Ports.{
  trimmed_tags, name_tag, handler_tags, ports_from, derived_ports, find_port, resolve_port,
  handler_port, resolve_named, resolve_ports,
}
use morph_api.Patch.Ports.Laws.{
  resolve_port-drop, resolve_port-Leaves, reports_error, is_named, Leaves,
}

abbrev yes_no : Fields
yes_no =
    field "handlers"
      (arr (
        cons (obj (field "id" (str "h-1") (field "name" (str "Yes") end)))
          (cons (obj (field "name" (str "No") end)) nil)))
      end

rule_ports :
    derived_ports "rule" yes_no
    ≡ record { id = "h-1"; tags = "Yes" ∷ [] } ∷ record { id = "h1"; tags = "No" ∷ [] } ∷ []
unfolding derived_ports ports_from handler_port get lookup as_rows objects items handler_tags as_str
    name_tag trim_space trim_left trim_right trim is_space first_str trimmed_tags decimal
rule_ports = refl

resolve_port-drop_example :
    let r = resolve_port "rule" yes_no "maybe" in
    let ports = derived_ports "rule" yes_no in
    let want = trim_space "maybe" in
    ((r.drop ≡ true) ↔ (ports ≢ []) × ((want ≡ "") ⊎ All (λ p. is_named want p ≡ false) ports))
    × (r.drop ≡ reports_error r.problem)
resolve_port-drop_example = resolve_port-drop "rule" yes_no "maybe"

rule_kept : (resolve_port "rule" yes_no " yes ").drop ≡ false
unfolding resolve_port resolve_ports resolve_named derived_ports ports_from handler_port get lookup
    as_rows objects items handler_tags as_str name_tag trim_space trim_left trim_right trim is_space
    first_str trimmed_tags find_port contains_fold equal_fold decimal
rule_kept = refl

resolve_port-Leaves_example :
    Leaves (derived_ports "rule" yes_no) (trim_space " yes ") (resolve_port "rule" yes_no " yes ")
resolve_port-Leaves_example =
    resolve_port-Leaves "rule" yes_no " yes " (λ e. ground (arith, sym rule_ports ∙ e)) rule_kept
