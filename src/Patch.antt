-- ===== src/Patch.antt =====
-- designer/patch.go: from a graph patch that a model emits to a Vue-Flow graph.
pub mod Values
pub mod Ports
pub mod Reach
pub mod Merge
pub mod Inspect
pub mod Plan
use morph_api.Prelude.{ℕ, String, Option, List}
use morph_api.Json.{Fields}
use morph_api.Graph.{Point}

pub record PatchNode : Type 0 where
  pub ref : String
  pub kind : String
  pub title : String
  pub key : String
  pub scope : String
  pub position : Option Point
  pub payload : Fields
  pub note : String

pub record PatchEdge : Type 0 where
  pub from : String
  pub to : String
  pub port : String
  pub note : String

pub record Patch : Type 0 where
  pub nodes : List PatchNode
  pub edges : List PatchEdge
  pub notes : List String

pub data Level : Type 0 where
  error warn : Level

-- The messages, each with what it is formatted from.
pub data Message : Type 0 where
  duplicate_ref : (ref : String) → Message
  unknown_kind : (kind : String) → Message
  missing_end : (name : String) → Message
  port_ignored : (want : String) → Message
  port_required : (names : String) → Message
  no_such_port : (want names : String) → Message
  many_scope_routes : (ref scope : String) → Message
  many_scope_roots : (ref scope : String) → Message
  runs_many_times : (count : ℕ) (label : String) → Message
  nothing_to_join : (label : String) (count : ℕ) → Message
  waits_on_many : (label source : String) → Message

pub record Problem : Type 0 where
  pub level : Level
  pub at : String
  pub message : Message
