-- ===== src/Compile/Build/Panics.antt =====
-- When a builder fails a type assertion.
use morph_api.Prelude.{
  String, ◌≡◌, refl, ap, ◌∙◌, inl, inr, Bool, true, false, not, ◌&&◌, Option, none, some, List, [],
  ◌∷◌, ◌==◌, if◌then◌else◌, arith, Bool-cases,
}
use morph_api.Json.{Value, str, arr, obj, Items, nil, cons, Fields, end}
use morph_api.Patch.Values.{get}
use morph_api.Compile.Read.{Floats, get_str}
use morph_api.Compile.Rules.{
  Kind, start, promise_all, void, js, opa, contract, rule, goto, llm, mcp, cast, http, decision,
  plugin, hitl, docstore, vecstore, until, Lowered, lowered, refused, panicked, Fusion,
}
use morph_api.Compile.Bodies.{plugin_unique_id, action_request, action_body}
use morph_api.Compile.Build.{
  text_of, must_str, put_criterion, criteria_from, criteria_of, conditions_criteria, js_code_of,
  opa_code_of, js_contract_of, opa_contract_of, goto_of, goto_target, build_goto_node, code_in,
  build_code_node, rule_in, rule_with, build_rule_node, registered, plugin_node, called,
  build_plugin_action_node, build_hitl_node, build_store_node, build_until_node, lower_kind,
}

abbrev pub is_text : Value → Bool
is_text (str s) = true
is_text _ = false

-- each of the fields is a text
unfoldable pub all_texts : List String → Fields → Bool
all_texts [] fields = true
all_texts (k ∷ ks) fields = is_text (get k fields) && all_texts ks fields

-- each object among the conditions has a text for its key
unfoldable pub all_keyed : Items → Bool
all_keyed nil = true
all_keyed (cons (obj row) vs) = is_text (get "key" row) && all_keyed vs
all_keyed (cons _ vs) = all_keyed vs

abbrev pub is_keyed : Value → Bool
is_keyed (arr conds) = all_keyed conds
is_keyed _ = true

abbrev pub is_goto : Value → Bool
is_goto (obj target) = all_texts ("flowId" ∷ "from_nodeId" ∷ "end_nodeId" ∷ []) target
is_goto _ = true

-- What the language of a node asks for: a text for its logic, and for Rego also the name of its
-- result; `keyed` is asked for Rego alone.
abbrev pub speaks : Fusion → Fields → Bool → Value → Bool
speaks fusion fields keyed (str lang) =
    if lang == fusion.js_lang
    then all_texts ("logic_rule" ∷ []) fields
    else if lang == fusion.opa_lang
    then all_texts ("logic_rule" ∷ "opa_result" ∷ []) fields && keyed
    else true
speaks fusion fields keyed _ = true

-- The data of a node is readable when nothing that its kind asserts to be a text is something else.
abbrev pub is_readable : Fusion → Option Kind → Fields → Bool
is_readable fusion (some js) fields =
    speaks fusion fields (is_keyed (get "conditions" fields)) (get "lang" fields)
is_readable fusion (some opa) fields =
    speaks fusion fields (is_keyed (get "conditions" fields)) (get "lang" fields)
is_readable fusion (some contract) fields =
    is_keyed (get "conditions" fields) && speaks fusion fields true (get "lang" fields)
is_readable fusion (some rule) fields =
    is_keyed (get "conditions" fields) && speaks fusion fields true (get "lang" fields)
is_readable fusion (some goto) fields = is_goto (get "goto" fields)
is_readable fusion _ fields = true

abbrev pub is_panicked : Lowered → Bool
is_panicked panicked = true
is_panicked _ = false

abbrev pub has {ℓ} : {A : Type ℓ} → Option A → Bool
has none = false
has (some a) = true

has-text_of : (v : Value) → has (text_of v) ≡ is_text v
has-text_of (str s) = refl
has-text_of _ = refl

has-must_str : (k : String) (fields : Fields) → has (must_str fields k) ≡ is_text (get k fields)
unfolding must_str
has-must_str k fields = has-text_of (get k fields)

criteria_from-none : (vs : Items) → criteria_from vs none ≡ none
unfolding criteria_from
criteria_from-none nil = refl
criteria_from-none (cons v vs) = criteria_from-none vs

has-criteria_keyed :
    (row out : Fields) (vs : Items) (o : Option String)
    → ((out : Fields) → has (criteria_from vs (some out)) ≡ all_keyed vs)
    → has (criteria_from vs (put_criterion o (get "value" row) out)) ≡ (has o && all_keyed vs)
has-criteria_keyed row out vs none h = ap has (criteria_from-none vs)
has-criteria_keyed row out vs (some k) h = h _

has-criteria_from : (vs : Items) (out : Fields) → has (criteria_from vs (some out)) ≡ all_keyed vs
unfolding criteria_from all_keyed must_str
has-criteria_from nil out = refl
has-criteria_from (cons (obj row) vs) out =
    has-criteria_keyed row out vs (must_str row "key") (has-criteria_from vs)
    ∙ ap (λ b. b && all_keyed vs) (has-must_str "key" row)
has-criteria_from (cons _ vs) out = has-criteria_from vs out

has-criteria_of : (v : Value) → has (criteria_of v) ≡ is_keyed v
has-criteria_of (arr vs) = has-criteria_from vs end
has-criteria_of _ = refl

-- The outcome of each builder for what it reads.
opa_code-panics :
    (a b : Option String) (c : Option Fields)
    → is_panicked (opa_code_of a b c) ≡ not (has a && has b && has c)
opa_code-panics none b c = refl
opa_code-panics (some a) none c = refl
opa_code-panics (some a) (some b) none = refl
opa_code-panics (some a) (some b) (some c) = refl

opa_contract-panics :
    (a b : Option String) (c : Fields) → is_panicked (opa_contract_of a b c) ≡ not (has b && has a)
opa_contract-panics none none c = refl
opa_contract-panics none (some b) c = refl
opa_contract-panics (some a) none c = refl
opa_contract-panics (some a) (some b) c = refl

js_code-panics : (a : Option String) → is_panicked (js_code_of a) ≡ not (has a)
js_code-panics none = refl
js_code-panics (some a) = refl

js_contract-panics :
    (a : Option String) (c : Fields) → is_panicked (js_contract_of a c) ≡ not (has a)
js_contract-panics none c = refl
js_contract-panics (some a) c = refl

goto-panics : (a b c : Option String) → is_panicked (goto_of a b c) ≡ not (has a && has b && has c)
goto-panics none b c = refl
goto-panics (some a) none c = refl
goto-panics (some a) (some b) none = refl
goto-panics (some a) (some b) (some c) = refl

goto_target-panics : (v : Value) → is_panicked (goto_target v) ≡ not (is_goto v)
unfolding all_texts
goto_target-panics (obj t) = ground (
  arith,
  goto-panics (must_str t "flowId") (must_str t "from_nodeId") (must_str t "end_nodeId"),
  has-must_str "flowId" t,
  has-must_str "from_nodeId" t,
  has-must_str "end_nodeId" t,
)
goto_target-panics _ = refl

module _ (fusion : Fusion) where
  code_in-panics :
      (fields : Fields) (v : Value)
      → is_panicked (code_in fusion fields (text_of v))
        ≡ not (speaks fusion fields (is_keyed (get "conditions" fields)) v)
  unfolding all_texts conditions_criteria
  code_in-panics fields (str lang) = ground (
    arith,
    js_code-panics (must_str fields "logic_rule"),
    opa_code-panics (must_str fields "logic_rule") (must_str fields "opa_result")
        (conditions_criteria fields),
    has-must_str "logic_rule" fields,
    has-must_str "opa_result" fields,
    has-criteria_of (get "conditions" fields),
  )
  code_in-panics fields _ = refl

  rule_in-panics :
      (fields c : Fields) (v : Value)
      → is_panicked (rule_in fusion fields c (text_of v)) ≡ not (speaks fusion fields true v)
  unfolding all_texts
  rule_in-panics fields c (str lang) = ground (
    arith,
    js_contract-panics (must_str fields "logic_rule") c,
    opa_contract-panics (must_str fields "opa_result") (must_str fields "logic_rule") c,
    has-must_str "logic_rule" fields,
    has-must_str "opa_result" fields,
  )
  rule_in-panics fields c _ = refl

  rule_with-panics :
      (fields : Fields) (o : Option Fields)
      → is_panicked (rule_with fusion fields o)
        ≡ not (has o && speaks fusion fields true (get "lang" fields))
  unfolding must_str
  rule_with-panics fields none = refl
  rule_with-panics fields (some c) = rule_in-panics fields c (get "lang" fields)

  registered-panics :
      (id : String) (fields : Fields) (request : String) (body : Fields) (o : Option String)
      → is_panicked (registered fusion id fields request body o) ≡ false
  registered-panics id fields request body none = refl
  registered-panics id fields request body (some cause) = refl

  called-panics :
      (id request : String) (l : Lowered)
      → is_panicked l ≡ false
      → is_panicked (called fusion id request l) ≡ false
  called-panics id request (lowered t r) h = elim (Bool-cases (request == "")) [
    | inl e ↦ rw e refl
    | inr e ↦ rw e refl
  ]
  called-panics id request (refused e) h = refl
  called-panics id request panicked h = h

module _ (floats : Floats) (parse_time : String → String → Option String) (fusion : Fusion) where
  -- A builder panics exactly when the data of its node is not readable for its kind.
  pub lower_kind-panics :
      (k : Option Kind) (id : String) (fields : Fields)
      → is_panicked (lower_kind floats parse_time fusion k id fields)
        ≡ not (is_readable fusion k fields)
  unfolding lower_kind build_code_node build_rule_node build_goto_node build_hitl_node
      build_store_node build_until_node build_plugin_action_node plugin_node must_str
      conditions_criteria
  lower_kind-panics none id fields = refl
  lower_kind-panics (some start) id fields = refl
  lower_kind-panics (some promise_all) id fields = refl
  lower_kind-panics (some void) id fields = refl
  lower_kind-panics (some hitl) id fields = refl
  lower_kind-panics (some docstore) id fields = refl
  lower_kind-panics (some vecstore) id fields = refl
  lower_kind-panics (some until) id fields = refl
  lower_kind-panics (some js) id fields = code_in-panics fusion fields (get "lang" fields)
  lower_kind-panics (some opa) id fields = code_in-panics fusion fields (get "lang" fields)
  lower_kind-panics (some contract) id fields =
      rule_with-panics fusion fields (criteria_of (get "conditions" fields))
      ∙ ap (λ b. not (b && speaks fusion fields true (get "lang" fields)))
          (has-criteria_of (get "conditions" fields))
  lower_kind-panics (some rule) id fields =
      rule_with-panics fusion fields (criteria_of (get "conditions" fields))
      ∙ ap (λ b. not (b && speaks fusion fields true (get "lang" fields)))
          (has-criteria_of (get "conditions" fields))
  lower_kind-panics (some goto) id fields = goto_target-panics (get "goto" fields)
  lower_kind-panics (some llm) id fields = registered-panics fusion id fields _ _ _
  lower_kind-panics (some mcp) id fields = registered-panics fusion id fields _ _ _
  lower_kind-panics (some cast) id fields = registered-panics fusion id fields _ _ _
  lower_kind-panics (some http) id fields = registered-panics fusion id fields _ _ _
  lower_kind-panics (some decision) id fields = registered-panics fusion id fields _ _ _
  lower_kind-panics (some plugin) id fields =
      called-panics fusion id (action_request fields)
        (plugin_node fusion id fields (action_request fields) (action_body fields))
        (registered-panics fusion id fields (action_request fields) (action_body fields)
          (fusion.new_plugin (get_str fields "title") (plugin_unique_id fields id) 15))
