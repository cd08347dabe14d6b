-- ===== src/Compile/Nodes.antt =====
-- The nodes that the walk of inflow/compiler.go builds, and the maps that it keeps them in.
use morph_api.Prelude.{
  String, Bool, true, false, Option, none, some, List, [], ◌∷◌, ◌==◌, if◌then◌else◌,
}
use morph_api.Prelude.Sort.{text_less, sort_by}
use morph_api.Json.{Fields}
use morph_api.Graph.{Node}
use morph_api.Compile.Read.{get_str}
use morph_api.Compile.Rules.{NodeType, Rule, BuildError, Lowered, lowered, refused, panicked}

pub record Compiled : Type 0 where
  pub id : String
  pub title : String
  pub key : String
  pub scope : String
  pub type : NodeType
  pub rule : Rule
  pub depends : List String

pub data Built : Type 0 where
  built : Compiled → Built
  not_built : BuildError → Built
  crashed : Built

abbrev pub scaffold : String → Fields → Lowered → Built
scaffold id fields (lowered type rule) = built (record {
  id = id;
  title = get_str fields "title";
  key = get_str fields "key";
  scope = get_str fields "scope";
  type = type;
  rule = rule;
  depends = [];
})
scaffold id fields (refused e) = not_built e
scaffold id fields panicked = crashed

abbrev pub has_crashed : Built → Bool
has_crashed crashed = true
has_crashed _ = false

-- The error of the walk that no builder reported, or a builder's.
pub data Failure : Type 0 where
  by_builder : BuildError → Failure
  by_walk : (text : String) → Failure

-- The graph as the walk leaves it, with nodes that may be nil; `none` is the nil map.
abbrev pub Graph : Type 0
Graph = List (String × Option Compiled)

pub record Walked : Type 0 where
  pub visited : List Node
  pub graph : Option Graph
  pub errors : List (String × String)

abbrev pub or_no_nodes : Option Graph → Graph
or_no_nodes none = []
or_no_nodes (some g) = g

-- `m[k]` and `m[k] = v` on the keys of a map
module _ {A : Type 0} where
  unfoldable pub find : String → List (String × A) → Option A
  find k [] = none
  find k ((j, a) ∷ m) = let rest = find k m in if j == k then some a else rest

  unfoldable pub put : String → A → List (String × A) → List (String × A)
  put k a [] = (k, a) ∷ []
  put k a ((j, b) ∷ m) = let rest = put k a m in if j == k then (k, a) ∷ m else (j, b) ∷ rest

  unfoldable pub keys : List (String × A) → List String
  keys [] = []
  keys ((j, a) ∷ m) = j ∷ keys m

  unfoldable pub sorted_keys : List (String × A) → List String
  sorted_keys m = sort_by text_less (keys m)
