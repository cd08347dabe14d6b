-- ===== src/Runs.antt =====
-- The runs of flows: inflow/process.go, scheduler.go, events.go, continue.go and hitl_resume.go, over
-- the engine, the clock and the stores.
pub mod Params
pub mod Rows
pub mod Starts
pub mod Engine
pub mod Launch
pub mod Stop
pub mod Finish
pub mod Schedule
pub mod Resume
mod Examples
