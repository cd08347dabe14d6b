-- ===== src/Graph.antt =====
-- The Vue-Flow graph: the fields of the `VueFlow`, `VueFlowNode` and `Edges` of inflow-fusion that
-- this repository reads or writes.
pub mod Normalize
use morph_api.Prelude.{ℕ, String, Bool, List}
use morph_api.Json.{Value}

-- A coordinate is a whole number of some unit: it is compared with zero and copied. `below n` is
-- -(n + 1).
pub data Coord : Type 0 where
  at : ℕ → Coord
  below : ℕ → Coord

pub record Point : Type 0 where
  pub x : Coord
  pub y : Coord

pub record Node : Type 0 where
  pub id : String
  pub kind : String
  pub payload : Value
  pub position : Point
  pub computed : Point
  pub width : Coord
  pub height : Coord
  pub initialized : Bool

pub record Edge : Type 0 where
  pub id : String
  pub source : String
  pub target : String
  pub source_handle : String
  pub tags : List String

pub record Flow : Type 0 where
  pub nodes : List Node
  pub edges : List Edge
  pub zoom : Coord
