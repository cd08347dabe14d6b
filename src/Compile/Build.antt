-- ===== src/Compile/Build.antt =====
-- The builders of inflow/node_builders.go that `NodeBuilder` of inflow/compiler.go dispatches to. The
-- maps that a builder changes in place are values here, so what it writes into the data of its node is
-- seen in the rule alone.
pub mod Laws
pub mod Panics
use morph_api.Prelude.{String, Bool, Option, none, some, ◌==◌, if◌then◌else◌}
use morph_api.Json.{Value, str, arr, obj, Items, nil, cons, Fields, end, insert}
use morph_api.Patch.Values.{get}
use morph_api.Compile.Read.{Floats, get_str}
use morph_api.Compile.Questions.{decision_body}
use morph_api.Compile.Payloads.{hitl_payload, store_action, store_payload, until_payload}
use morph_api.Compile.Rules.{
  Kind, start, promise_all, void, js, opa, contract, rule, goto, llm, mcp, cast, http, decision,
  plugin, hitl, docstore, vecstore, until, untyped, void_type, code_type, rule_type, goto_type,
  plugin_type, extrinsic_type, no_rule, js_code, opa_code, js_contract, opa_contract, goto_nowhere,
  goto_flow, plugin_call, extrinsic, account_unavailable, no_action, Lowered, lowered, refused,
  panicked, Fusion,
}
use morph_api.Compile.Bodies.{
  or_default, plugin_unique_id, mcp_request, llm_body, mcp_body, http_body, cast_body, action_body,
  action_request,
}

abbrev pub text_of : Value → Option String
text_of (str s) = some s
text_of _ = none

-- `m[k].(string)`, none for the panic
unfoldable pub must_str : Fields → String → Option String
must_str fields key = text_of (get key fields)

abbrev pub put_criterion : Option String → Value → Fields → Option Fields
put_criterion none v out = none
put_criterion (some k) v out = some (insert k v out)

-- one condition; none is the panic, which ends the loop
abbrev pub add_criterion : Value → Option Fields → Option Fields
add_criterion v none = none
add_criterion (obj row) (some out) = put_criterion (must_str row "key") (get "value" row) out
add_criterion _ (some out) = some out

unfoldable pub criteria_from : Items → Option Fields → Option Fields
criteria_from nil out = out
criteria_from (cons v vs) out = criteria_from vs (add_criterion v out)

abbrev pub criteria_of : Value → Option Fields
criteria_of (arr conds) = criteria_from conds (some end)
criteria_of _ = some end

unfoldable pub conditions_criteria : Fields → Option Fields
conditions_criteria fields = criteria_of (get "conditions" fields)

-- The field `lang` when it is a text.
abbrev pub lang_of : Fields → Option String
lang_of fields = must_str fields "lang"

abbrev pub js_code_of : Option String → Lowered
js_code_of none = panicked
js_code_of (some logic) = lowered code_type (js_code logic)

abbrev pub opa_code_of : Option String → Option String → Option Fields → Lowered
opa_code_of (some logic) (some result) (some criteria) =
    lowered code_type (opa_code logic result criteria)
opa_code_of _ _ _ = panicked

abbrev pub js_contract_of : Option String → Fields → Lowered
js_contract_of none criteria = panicked
js_contract_of (some logic) criteria = lowered rule_type (js_contract logic criteria)

abbrev pub opa_contract_of : Option String → Option String → Fields → Lowered
opa_contract_of (some result) (some logic) criteria =
    lowered rule_type (opa_contract result logic criteria)
opa_contract_of _ _ criteria = panicked

abbrev pub goto_of : Option String → Option String → Option String → Lowered
goto_of (some flow) (some from) (some to) = lowered goto_type (goto_flow flow from to)
goto_of _ _ _ = panicked

abbrev pub goto_target : Value → Lowered
goto_target (obj target) =
    goto_of (must_str target "flowId") (must_str target "from_nodeId")
      (must_str target "end_nodeId")
goto_target _ = lowered goto_type goto_nowhere

unfoldable pub build_goto_node : Fields → Lowered
build_goto_node fields = goto_target (get "goto" fields)

module _ (fusion : Fusion) where
  abbrev pub code_in : Fields → Option String → Lowered
  code_in fields none = lowered code_type no_rule
  code_in fields (some lang) =
      if lang == fusion.js_lang
      then js_code_of (must_str fields "logic_rule")
      else if lang == fusion.opa_lang
      then opa_code_of (must_str fields "logic_rule") (must_str fields "opa_result")
          (conditions_criteria fields)
      else lowered code_type no_rule

  unfoldable pub build_code_node : Fields → Lowered
  build_code_node fields = code_in fields (lang_of fields)

  abbrev pub rule_in : Fields → Fields → Option String → Lowered
  rule_in fields criteria none = lowered rule_type no_rule
  rule_in fields criteria (some lang) =
      if lang == fusion.js_lang
      then js_contract_of (must_str fields "logic_rule") criteria
      else if lang == fusion.opa_lang
      then opa_contract_of (must_str fields "opa_result") (must_str fields "logic_rule") criteria
      else lowered rule_type no_rule

  -- The criteria are read first, whatever the language.
  abbrev pub rule_with : Fields → Option Fields → Lowered
  rule_with fields none = panicked
  rule_with fields (some criteria) = rule_in fields criteria (lang_of fields)

  unfoldable pub build_rule_node : Fields → Lowered
  build_rule_node fields = rule_with fields (conditions_criteria fields)

  abbrev pub registered : String → Fields → String → Fields → Option String → Lowered
  registered node_id fields request body (some cause) = refused (account_unavailable cause)
  registered node_id fields request body none =
      lowered plugin_type
        (plugin_call (get_str fields "title") (plugin_unique_id fields node_id) request body)

  -- a plugin node with its request and body, once it is registered
  unfoldable pub plugin_node : String → Fields → String → Fields → Lowered
  plugin_node node_id fields request body =
      registered node_id fields request body
        (fusion.new_plugin (get_str fields "title") (plugin_unique_id fields node_id) 15)

  -- The node is registered before it is asked for its action.
  abbrev pub called : String → String → Lowered → Lowered
  called node_id request (lowered type r) =
      if request == "" then refused (no_action node_id) else lowered type r
  called node_id request other = other

  unfoldable pub build_plugin_action_node : String → Fields → Lowered
  build_plugin_action_node node_id fields =
      called node_id (action_request fields)
        (plugin_node node_id fields (action_request fields) (action_body fields))

  unfoldable pub build_hitl_node : String → Fields → Lowered
  build_hitl_node node_id fields = lowered extrinsic_type (
      extrinsic (or_default (fusion.get_svc "hitl") (fusion.svc_topic "svc.hitl.add")) node_id 10
        (hitl_payload node_id (get_str fields "key") fields))

  unfoldable pub build_store_node : String → Fields → Lowered
  build_store_node template fields = lowered extrinsic_type (
      extrinsic (fusion.action_subject template (store_action fields)) "" 30 (store_payload fields))

module _ (floats : Floats) (parse_time : String → String → Option String) (fusion : Fusion) where
  unfoldable pub build_until_node : String → Fields → Lowered
  build_until_node node_id fields =
      lowered extrinsic_type
        (extrinsic "svc.continue.at" node_id 10 (until_payload parse_time floats fields))

  -- the switch over the kinds
  unfoldable pub lower_kind : Option Kind → String → Fields → Lowered
  lower_kind none id fields = lowered untyped no_rule
  lower_kind (some start) id fields = lowered void_type no_rule
  lower_kind (some promise_all) id fields = lowered void_type no_rule
  lower_kind (some void) id fields = lowered void_type no_rule
  lower_kind (some js) id fields = build_code_node fusion fields
  lower_kind (some opa) id fields = build_code_node fusion fields
  lower_kind (some contract) id fields = build_rule_node fusion fields
  lower_kind (some rule) id fields = build_rule_node fusion fields
  lower_kind (some goto) id fields = build_goto_node fields
  lower_kind (some llm) id fields =
      plugin_node fusion id fields (or_default (get_str fields "request") "run")
        (llm_body floats fields)
  lower_kind (some mcp) id fields =
      plugin_node fusion id fields (mcp_request fields)
        (mcp_body floats (mcp_request fields) fields)
  lower_kind (some cast) id fields =
      plugin_node fusion id fields (or_default (get_str fields "request") "run") (cast_body fields)
  lower_kind (some http) id fields =
      plugin_node fusion id fields (or_default (get_str fields "request") "run")
        (http_body floats fields)
  lower_kind (some decision) id fields =
      plugin_node fusion id fields (or_default (get_str fields "request") "run")
        (decision_body floats fields)
  lower_kind (some plugin) id fields = build_plugin_action_node fusion id fields
  lower_kind (some hitl) id fields = build_hitl_node fusion id fields
  lower_kind (some docstore) id fields = build_store_node fusion "svc.store.doc.{ACTION}" fields
  lower_kind (some vecstore) id fields = build_store_node fusion "svc.store.vec.{ACTION}" fields
  lower_kind (some until) id fields = build_until_node id fields
