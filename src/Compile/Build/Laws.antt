-- ===== src/Compile/Build/Laws.antt =====
-- The rule that a node is lowered to belongs to its type.
use morph_api.Prelude.{
  ℕ, ◌<◌, String, ◌≡◌, refl, subst, inl, inr, Bool, true, false, Option, none, some, ◌==◌,
  if◌then◌else◌, arith, Bool-cases,
}
use morph_api.Json.{Value, obj, Fields}
use morph_api.Compile.Read.{Floats, get_str}
use morph_api.Compile.Questions.{decision_body}
use morph_api.Patch.Values.{get}
use morph_api.Compile.Rules.{
  Kind, start, promise_all, void, js, opa, contract, rule, goto, llm, mcp, cast, http, decision,
  plugin, hitl, docstore, vecstore, until, NodeType, untyped, void_type, code_type, rule_type,
  goto_type, plugin_type, extrinsic_type, Rule, no_rule, js_code, opa_code, js_contract,
  opa_contract, goto_nowhere, goto_flow, plugin_call, extrinsic, Lowered, lowered, Fusion,
}
use morph_api.Compile.Bodies.{
  or_default, mcp_request, llm_body, mcp_body, http_body, cast_body, action_body, action_request,
}
use morph_api.Compile.Build.{
  must_str, conditions_criteria, js_code_of, opa_code_of, js_contract_of, opa_contract_of, goto_of,
  goto_target, build_goto_node, code_in, rule_in, registered, build_code_node, rule_with,
  build_rule_node, plugin_node, called, build_plugin_action_node, build_hitl_node, build_store_node,
  build_until_node, lower_kind,
}

-- A rule fits its type: a call of a plugin names a request, and a call of a service has a timeout.
pub data Fits : NodeType → Rule → Type 0 where
  fits_none : Fits untyped no_rule
  fits_void : Fits void_type no_rule
  fits_code : Fits code_type no_rule
  fits_js : {l : String} → Fits code_type (js_code l)
  fits_opa : {l r : String} {c : Fields} → Fits code_type (opa_code l r c)
  fits_rule : Fits rule_type no_rule
  fits_js_rule : {l : String} {c : Fields} → Fits rule_type (js_contract l c)
  fits_opa_rule : {l r : String} {c : Fields} → Fits rule_type (opa_contract r l c)
  fits_nowhere : Fits goto_type goto_nowhere
  fits_goto : {a b c : String} → Fits goto_type (goto_flow a b c)
  fits_plugin :
      {title id request : String} {body : Fields}
      → (request == "") ≡ false
      → Fits plugin_type (plugin_call title id request body)
  fits_extrinsic :
      {subject id : String} {timeout : ℕ} {payload : Fields}
      → 0 < timeout
      → Fits extrinsic_type (extrinsic subject id timeout payload)

abbrev pub Sound : Lowered → Type 0
Sound (lowered type r) = Fits type r
Sound _ = Unit

js_code_of-Sound : (o : Option String) → Sound (js_code_of o)
js_code_of-Sound none = tt
js_code_of-Sound (some l) = fits_js

opa_code_of-Sound : (a b : Option String) (c : Option Fields) → Sound (opa_code_of a b c)
opa_code_of-Sound (some l) (some r) (some c) = fits_opa
opa_code_of-Sound (some l) (some r) none = tt
opa_code_of-Sound (some l) none c = tt
opa_code_of-Sound none b c = tt

js_contract_of-Sound : (o : Option String) (c : Fields) → Sound (js_contract_of o c)
js_contract_of-Sound none c = tt
js_contract_of-Sound (some l) c = fits_js_rule

opa_contract_of-Sound : (a b : Option String) (c : Fields) → Sound (opa_contract_of a b c)
opa_contract_of-Sound (some r) (some l) c = fits_opa_rule
opa_contract_of-Sound (some r) none c = tt
opa_contract_of-Sound none b c = tt

goto_of-Sound : (a b c : Option String) → Sound (goto_of a b c)
goto_of-Sound (some a) (some b) (some c) = fits_goto
goto_of-Sound (some a) (some b) none = tt
goto_of-Sound (some a) none c = tt
goto_of-Sound none b c = tt

or_default-filled : (s d : String) → (d == "") ≡ false → (or_default s d == "") ≡ false
or_default-filled s d h = elim (Bool-cases (s == "")) [ inl e ↦ rw e h | inr e ↦ rw e e ]

mcp_request-filled : (fields : Fields) → (mcp_request fields == "") ≡ false
unfolding mcp_request
mcp_request-filled fields =
    or_default-filled (get_str fields "request") _
      (elim (Bool-cases (get_str fields "mcpMode" == "llm")) [
        | inl e ↦ rw e refl
        | inr e ↦ rw e refl
      ])

goto_target-Sound : (v : Value) → Sound (goto_target v)
goto_target-Sound (obj t) =
    goto_of-Sound (must_str t "flowId") (must_str t "from_nodeId") (must_str t "end_nodeId")
goto_target-Sound _ = fits_nowhere

Sound-if : (b : Bool) (x y : Lowered) → Sound x → Sound y → Sound (if b then x else y)
Sound-if true x y p q = p
Sound-if false x y p q = q

module _ (fusion : Fusion) where
  code_in-Sound : (fields : Fields) (o : Option String) → Sound (code_in fusion fields o)
  code_in-Sound fields none = fits_code
  code_in-Sound fields (some lang) =
      Sound-if (lang == fusion.js_lang) _ _ (js_code_of-Sound (must_str fields "logic_rule")) (
        Sound-if (lang == fusion.opa_lang) _ _
          (opa_code_of-Sound (must_str fields "logic_rule") (must_str fields "opa_result")
            (conditions_criteria fields))
          fits_code)

  rule_in-Sound : (fields c : Fields) (o : Option String) → Sound (rule_in fusion fields c o)
  rule_in-Sound fields c none = fits_rule
  rule_in-Sound fields c (some lang) =
      Sound-if (lang == fusion.js_lang) _ _ (js_contract_of-Sound (must_str fields "logic_rule") c)
        (Sound-if (lang == fusion.opa_lang) _ _
          (opa_contract_of-Sound (must_str fields "opa_result") (must_str fields "logic_rule") c)
          fits_rule)

  rule_with-Sound : (fields : Fields) (c : Option Fields) → Sound (rule_with fusion fields c)
  rule_with-Sound fields none = tt
  rule_with-Sound fields (some c) = rule_in-Sound fields c (must_str fields "lang")

  registered-Sound :
      (id : String) (fields : Fields) (request : String) (body : Fields) (o : Option String)
      → (request == "") ≡ false
      → Sound (registered fusion id fields request body o)
  registered-Sound id fields request body none h = fits_plugin h
  registered-Sound id fields request body (some cause) h = tt

  plugin_node-Sound :
      (id : String) (fields : Fields) (request : String) (body : Fields)
      → (request == "") ≡ false
      → Sound (plugin_node fusion id fields request body)
  unfolding plugin_node
  plugin_node-Sound id fields request body h = registered-Sound id fields request body _ h

  -- the request is checked after the registration
  called-Sound :
      (id : String) (fields : Fields) (request : String) (body : Fields) (o : Option String)
      → Sound (called fusion id request (registered fusion id fields request body o))
  called-Sound id fields request body (some cause) = tt
  called-Sound id fields request body none = elim (Bool-cases (request == "")) [
    | inl e ↦ rw (e, Sound) tt
    | inr e ↦ rw (e, Sound) (fits_plugin e)
  ]

module _ (floats : Floats) (parse_time : String → String → Option String) (fusion : Fusion) where
  lowered-Sound :
      (k : Option Kind) (id : String) (fields : Fields)
      → Sound (lower_kind floats parse_time fusion k id fields)
  unfolding lower_kind build_code_node build_rule_node build_goto_node build_hitl_node
      build_store_node build_until_node build_plugin_action_node plugin_node
  lowered-Sound none id fields = fits_none
  lowered-Sound (some start) id fields = fits_void
  lowered-Sound (some promise_all) id fields = fits_void
  lowered-Sound (some void) id fields = fits_void
  lowered-Sound (some js) id fields = code_in-Sound fusion fields (must_str fields "lang")
  lowered-Sound (some opa) id fields = code_in-Sound fusion fields (must_str fields "lang")
  lowered-Sound (some contract) id fields =
      rule_with-Sound fusion fields (conditions_criteria fields)
  lowered-Sound (some rule) id fields = rule_with-Sound fusion fields (conditions_criteria fields)
  lowered-Sound (some goto) id fields = goto_target-Sound (get "goto" fields)
  lowered-Sound (some llm) id fields =
      plugin_node-Sound fusion id fields _ (llm_body floats fields)
        (or_default-filled (get_str fields "request") "run" refl)
  lowered-Sound (some cast) id fields =
      plugin_node-Sound fusion id fields _ (cast_body fields)
        (or_default-filled (get_str fields "request") "run" refl)
  lowered-Sound (some http) id fields =
      plugin_node-Sound fusion id fields _ (http_body floats fields)
        (or_default-filled (get_str fields "request") "run" refl)
  lowered-Sound (some decision) id fields =
      plugin_node-Sound fusion id fields _ (decision_body floats fields)
        (or_default-filled (get_str fields "request") "run" refl)
  lowered-Sound (some mcp) id fields =
      plugin_node-Sound fusion id fields _ (mcp_body floats (mcp_request fields) fields)
        (mcp_request-filled fields)
  lowered-Sound (some plugin) id fields =
      called-Sound fusion id fields (action_request fields) (action_body fields) _
  lowered-Sound (some hitl) id fields = fits_extrinsic (omega arith)
  lowered-Sound (some docstore) id fields = fits_extrinsic (omega arith)
  lowered-Sound (some vecstore) id fields = fits_extrinsic (omega arith)
  lowered-Sound (some until) id fields = fits_extrinsic (omega arith)

  -- Whatever the kind of a node and whatever its data, the rule that it is lowered to belongs to the
  -- type that the node gets: a call of a plugin names a request, and a call of a service has a
  -- timeout.
  pub lower_kind-Sound :
      (k : Option Kind) (id : String) (fields : Fields) (type : NodeType) (r : Rule)
      → lower_kind floats parse_time fusion k id fields ≡ lowered type r
      → Fits type r
  lower_kind-Sound k id fields type r h = subst Sound h (lowered-Sound k id fields)
