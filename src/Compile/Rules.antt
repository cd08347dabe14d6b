-- ===== src/Compile/Rules.antt =====
-- The kinds of node that `NodeBuilder` of inflow/compiler.go knows, and what a node is lowered to. A
-- rule of inflow-fusion is here the call that makes it.
use morph_api.Prelude.{ℕ, String, Option, none, some, List, [], ◌∷◌, ◌==◌, if◌then◌else◌}
use morph_api.Prelude.Text.{append, quote}
use morph_api.Json.{Fields}

pub data Kind : Type 0 where
  start promise_all void js opa contract rule goto llm mcp cast http decision plugin hitl : Kind
  docstore vecstore until : Kind

abbrev pub kinds : List (String × Kind)
kinds =
    ("startNode", start)
    ∷ ("promissall", promise_all)
    ∷ ("void", void)
    ∷ ("js", js)
    ∷ ("opa", opa)
    ∷ ("contract", contract)
    ∷ ("rule", rule)
    ∷ ("goto", goto)
    ∷ ("llm", llm)
    ∷ ("mcp", mcp)
    ∷ ("cast", cast)
    ∷ ("http", http)
    ∷ ("ai-decision", decision)
    ∷ ("jev", decision)
    ∷ ("plugin", plugin)
    ∷ ("hitl", hitl)
    ∷ ("docstore", docstore)
    ∷ ("vecstore", vecstore)
    ∷ ("until", until)
    ∷ []

unfoldable pub find_kind : List (String × Kind) → String → Option Kind
find_kind [] type = none
find_kind ((name, k) ∷ more) type =
    let later = find_kind more type in if type == name then some k else later

-- the type of a compiled node; no kind that is known leaves it unset
pub data NodeType : Type 0 where
  untyped void_type code_type rule_type goto_type plugin_type extrinsic_type : NodeType

pub data Rule : Type 0 where
  no_rule : Rule
  js_code : (logic : String) → Rule
  opa_code : (logic : String) → (result : String) → (criteria : Fields) → Rule
  js_contract : (logic : String) → (criteria : Fields) → Rule
  opa_contract : (result : String) → (logic : String) → (criteria : Fields) → Rule
  goto_nowhere : Rule
  goto_flow : (flow : String) → (from : String) → (to : String) → Rule
  plugin_call :
      (title : String) → (unique_id : String) → (request : String) → (body : Fields) → Rule
  extrinsic : (subject : String) → (unique_id : String) → (timeout : ℕ) → (payload : Fields) → Rule

pub data BuildError : Type 0 where
  invalid_fields : BuildError
  account_unavailable : (cause : String) → BuildError
  no_action : (node_id : String) → BuildError

unfoldable pub error_text : BuildError → String
error_text invalid_fields = "invalid node data "
error_text (account_unavailable cause) = append "plugin infra account unavailable: " cause
error_text (no_action node_id) =
    append "plugin node " (append (quote node_id) " has no action to call")

-- What a builder comes to; `panicked` is a type assertion that fails.
pub data Lowered : Type 0 where
  lowered : NodeType → Rule → Lowered
  refused : BuildError → Lowered
  panicked : Lowered

-- What of inflow-fusion the builders use: the names of the languages, the registered subject of a
-- service, the subject of an action, and the registration of a plugin node, which answers the text of
-- its failure.
pub record Fusion : Type 0 where
  pub js_lang : String
  pub opa_lang : String
  pub get_svc : String → String
  pub svc_topic : String → String
  pub action_subject : String → String → String
  pub new_plugin : (title : String) → (unique_id : String) → (idle_minutes : ℕ) → Option String
