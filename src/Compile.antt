-- ===== src/Compile.antt =====
-- inflow/compiler.go: `NodeBuilder` and `CompileFlow`, over the walk of the graph and the guard of
-- inflow-fusion.
pub mod Nodes
pub mod Read
pub mod Settings
pub mod Questions
pub mod Payloads
pub mod Rules
pub mod Bodies
pub mod Build
pub mod Flow
mod Examples
