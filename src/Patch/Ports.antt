-- ===== src/Patch/Ports.antt =====
-- The ports of designer/patch.go: what a node's data lets an edge leave by.
pub mod Laws
mod Examples
use morph_api.Prelude.{
  ℕ, ◌+◌, String, Bool, true, false, not, ◌&&◌, ◌||◌, Option, none, some, List, [], ◌∷◌, ◌++◌, ◌==◌,
  map, if◌then◌else◌,
}
use morph_api.Prelude.Text.{append, trim_space, join}
use morph_api.Prelude.Decimal.{decimal}
use morph_api.Json.{Value, bool, str, Fields}
use morph_api.Patch.{
  Level, Problem, error, warn, Message, port_ignored, port_required, no_such_port,
}
use morph_api.Patch.Values.{
  get, as_slice, as_rows, as_str, or_empty, is_blank, first_str, contains_fold,
}

pub record Port : Type 0 where
  pub id : String
  pub tags : List String

abbrev pub exception_tag : String
exception_tag = "_exception"

abbrev pub exception_port : Port
exception_port = record { id = exception_tag; tags = exception_tag ∷ [] }

-- the trimmed text of each value that is a text and not blank
unfoldable pub trimmed_tags : List Value → List String
trimmed_tags [] = []
trimmed_tags (str s ∷ vs) =
    let rest = trimmed_tags vs in if is_blank s then rest else trim_space s ∷ rest
trimmed_tags (_ ∷ vs) = trimmed_tags vs

-- the one tag of a name, if it is not blank
unfoldable pub name_tag : String → List String
name_tag name = if is_blank name then [] else trim_space name ∷ []

unfoldable pub handler_tags : Fields → List String
handler_tags h =
    let name = as_str (get "name" h) in
    if is_blank name then trimmed_tags (as_slice (get "tags" h)) else name_tag name

function_port : ℕ → Fields → Port
function_port i f = record {
  id = first_str (get "id" f ∷ get "name" f ∷ str (append "fn" (decimal i)) ∷ []);
  tags = name_tag (as_str (get "name" f));
}

handler_port : ℕ → Fields → Port
handler_port i h = record {
  id = first_str (get "id" h ∷ str (append "h" (decimal i)) ∷ []);
  tags = handler_tags h;
}

outbound_port : ℕ → Fields → Port
outbound_port i p =
    let tags = trimmed_tags (as_slice (get "tags" p)) in
    record {
      id = first_str (
          str (trim_space (as_str (get "title" p)))
          ∷ str (join " / " tags)
          ∷ str (append "out" (decimal i))
          ∷ []);
      tags = tags;
    }

-- `for i, r := range rows`
unfoldable pub ports_from : (ℕ → Fields → Port) → ℕ → List Fields → List Port
ports_from port i [] = []
ports_from port i (r ∷ rs) = port i r ∷ ports_from port (i + 1) rs

abbrev pub kind_decision : String
kind_decision = "ai-decision"

abbrev pub kind_decision_legacy : String
kind_decision_legacy = "jev"

abbrev pub is_decision_kind : String → Bool
is_decision_kind kind = kind == kind_decision || kind == kind_decision_legacy

-- the option `oi` of the question `qi` whose trimmed id is `qid`
option_port : (qid : String) (qi : ℕ) → ℕ → Fields → Port
option_port qid qi oi o =
    let name = trim_space (as_str (get "name" o)) in
    let tags = if name == "" then [] else append qid (append "." name) ∷ [] in
    record {
      id = first_str (
          get "id" o
          ∷ str (join "" tags)
          ∷ str (append "q" (append (decimal qi) (append "-opt" (decimal oi))))
          ∷ []);
      tags = tags;
    }

-- A question with `route: false` is data only.
abbrev pub is_data_only : Value → Bool
is_data_only (bool b) = not b
is_data_only _ = false

question_ports : ℕ → Fields → List Port
question_ports qi q =
    let qid = trim_space (as_str (get "id" q)) in
    if is_data_only (get "route" q) || qid == ""
    then []
    else ports_from (option_port qid qi) 0 (or_empty (as_rows (get "options" q)))

questions_ports : ℕ → List Fields → List Port
questions_ports qi [] = []
questions_ports qi (q ∷ qs) = question_ports qi q ++ questions_ports (qi + 1) qs

-- the ports, and the exception port behind them if there are any
unfoldable pub with_exception : List Port → List Port
with_exception [] = []
with_exception (p ∷ ps) = (p ∷ ps) ++ exception_port ∷ []

unfoldable pub decision_ports : Fields → List Port
unfolding questions_ports question_ports option_port
decision_ports payload =
    with_exception (questions_ports 0 (or_empty (as_rows (get "questions" payload))))

unfoldable pub derived_ports : String → Fields → List Port
unfolding function_port handler_port outbound_port
derived_ports kind payload =
    if kind == "llm"
    then with_exception (ports_from function_port 0 (or_empty (as_rows (get "functions" payload))))
    else if is_decision_kind kind
    then decision_ports payload
    else if kind == "rule"
    then ports_from handler_port 0 (or_empty (as_rows (get "handlers" payload)))
    else if kind == "plugin"
    then ports_from outbound_port 0 (or_empty (as_rows (get "outbound" payload)))
    else []

abbrev pub port_name : Port → String
port_name p = elim p.tags [ [] ↦ p.id | t ∷ ts ↦ t ]

unfoldable pub port_names : List Port → String
port_names ports = join ", " (map port_name ports)

-- What `resolvePort` answers: the handle, the tags, the problem, and whether the edge is dropped.
pub record Resolved : Type 0 where
  pub handle : String
  pub tags : List String
  pub problem : Option Problem
  pub drop : Bool

unfoldable pub find_port : String → List Port → Option Port
find_port want [] = none
find_port want (p ∷ ps) =
    if p.id == want || contains_fold p.tags want then some p else find_port want ps

-- a problem whose place the caller fills in
abbrev pub report : Level → Message → Option Problem
report level message = some (record { level = level; at = ""; message = message })

resolve_named : String → List Port → Resolved
resolve_named want ports = elim (find_port want ports) [
  | none ↦ record {
    handle = "";
    tags = [];
    problem = report error (no_such_port want (port_names ports));
    drop = true;
  }
  | some p ↦ record { handle = p.id; tags = p.tags; problem = none; drop = false }
]

resolve_ports : String → List Port → Resolved
unfolding resolve_named
resolve_ports want [] = record {
  handle = "";
  tags = [];
  problem = if want == "" then none else report warn (port_ignored want);
  drop = false;
}
resolve_ports want (p ∷ ps) =
    if want == ""
    then record {
      handle = "";
      tags = [];
      problem = report error (port_required (port_names (p ∷ ps)));
      drop = true;
    }
    else resolve_named want (p ∷ ps)

unfoldable pub resolve_port : String → Fields → String → Resolved
unfolding resolve_ports
resolve_port kind payload requested =
    resolve_ports (trim_space requested) (derived_ports kind payload)
