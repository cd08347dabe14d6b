-- ===== src/Flowfile.antt =====
-- flowfile/flowfile.go: a workflow document and what an install makes of it.
pub mod Rows
pub mod Identity
pub mod Profiles
pub mod Import
mod Examples
use morph_api.Prelude.{String, Bool, List}
use morph_api.Json.{Fields}

-- a plugin that a document depends on
pub record PluginManifestEntry : Type 0 where
  pub name : String
  pub actions : List String
  pub repo : String
  pub ref : String
  pub subdir : String

-- an action of the document that nothing here serves, with the nodes that call it
pub record MissingAction : Type 0 where
  pub action : String
  pub plugin : String
  pub repo : String
  pub ref : String
  pub subdir : String
  pub nodes : List String

-- a plugin node that is kept and not bound, with the plugins that could serve it
pub record UnboundNode : Type 0 where
  pub ref : String
  pub title : String
  pub action : String
  pub plugin : String
  pub choices : List String
  pub withheld : Bool

pub record OutboundPort : Type 0 where
  pub title : String
  pub tags : List String
  pub description : String

-- The fields of an `ExtensionRecord` that the binding of a node reads; a nil map is empty.
pub record ExtensionRecord : Type 0 where
  pub id : String
  pub type : String
  pub name : String
  pub plugin_id : String
  pub action : String
  pub schema : Fields
  pub ui : Fields
  pub outbound : List OutboundPort
