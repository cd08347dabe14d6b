-- ===== src/Lib.antt =====
-- Models of morph-api: the parts of the service that decide, over the values they decide on. A
-- flow is a graph that people and language models edit; a patch from a model is planned into a
-- graph (designer/patch.go), a graph is normalised (inflow/graph_normalize.go) and compiled with
-- diagnostics (inflow/validate.go), and a launch prepares the values of the flow's entry form
-- (models/flow_preferences.go, inflow/entry.go), seeds them into a context document at a path
-- (models/contextpath.go) and runs. A flow carries tags (models/tags.go). A read query of a
-- memory store passes a gate (models/storequery.go).
--
-- Json: the values that Go holds in an `any`, and `map[string]any` with its reads and writes.
-- ContextPath: ParseContextPath, SetAtContextPath, ValueAtContextPath and renderContextPath of
--   models/contextpath.go.
-- Graph: the graph of inflow-fusion, with the fields that this repository uses; Graph.Normalize:
--   NormalizeGraph of inflow/graph_normalize.go.
-- Diagnostics: the type Diagnostics of inflow/validate.go and its methods; the text of one issue
--   is inflow-fusion's and a parameter.
-- Patch: designer/patch.go. Patch.Ports has derivedPorts, decisionPorts and resolvePort,
--   Patch.Reach reaches and loopClosingEdges, Patch.Merge mergeData with pickMessages and
--   stampIDs, Patch.Inspect the three inspections, Patch.Plan PlanPatch with resolveEndpoint.
-- Chat: hitl/commands.go and AllAnswered of models/hitl.go. HumanContext: inflow/hitl_context.go.
--   Plugins: PluginBackedNodeType and CollectFlowPlugins of models/flow_plugins.go. ReadQuery:
--   ValidateReadSQL, containsWord and IsSafeIdentifier of models/storequery.go. Tags:
--   NormalizeTags of models/tags.go. Preferences: models/flow_preferences.go.
-- Compile: NodeBuilder and CompileFlow of inflow/compiler.go. Compile.Read has the helpers at the
--   end of inflow/node_builders.go, Compile.Settings the projections of settings,
--   Compile.Questions the rows of functions, questions and evidence, Compile.Payloads the
--   payloads of extrinsic nodes, Compile.Rules the kinds and what they are lowered to,
--   Compile.Bodies the bodies of plugin nodes, Compile.Build the builders, Compile.Nodes what the
--   walk builds, and Compile.Flow the pass.
-- Flowfile: flowfile/flowfile.go. Flowfile.Rows has the indexes of rows of stampIdentities,
--   manifestFor, namespaceOf, pluginChoices and outboundRows, Flowfile.Identity the stamping of
--   the nodes; Flowfile.Profiles resolveSettingsProfiles; Flowfile.Import Import, which composes
--   the two with Patch, Graph.Normalize, Preferences, Plugins, Compile and Workflows. What the
--   install's rows and profiles are is a parameter. Each index is a look-up in the rows, by the
--   value that the source's loop leaves at a key.
-- Triggers: EffectiveCron of inflow/trigger.go; Triggers.Launch has LaunchTrigger with the
--   context of a firing, by way of Runs.Launch; Triggers.Schedule dispatchAndArm of
--   inflow/trigger_scheduler.go, over any effect of a firing, and Triggers.Fire its fire and the
--   pass with that effect. The parser of the cron library, with the times of a schedule, is a
--   parameter.
-- Workflows: the saving of a flow in repository/sqlite/workflow.go and its twin of postgres, over
--   a table that keeps what the columns keep; a record that cannot be marshalled is a failed
--   write.
-- Runs: a run and its row. Runs.Rows: models/process.go and the repository of runs, as an
--   interface that a list of rows implements; Runs.Starts: nonEmpty, nextNodeIDs, startNodesFor,
--   resumeFor and loadResumeSnapshot of inflow/process.go; Runs.Engine: what is asked of the
--   engine, and the state; Runs.Params: StartParams with the row and the request that
--   StartWorkflow makes; Runs.Launch: StartWorkflow; Runs.Stop: StopWorkflow, and finishStatus
--   and resolveFinishedRecord of inflow/events.go; Runs.Finish: handleProcFinish; Runs.Schedule:
--   launch and dispatchDue of inflow/scheduler.go; Runs.Resume: HandleContinueAfter of
--   inflow/continue.go and ResumeHumanTask of inflow/hitl_resume.go.
-- Entry: SchemaDefaults, EntryDefaults and PrepareEntryValues of inflow/entry.go; Entry.Store:
--   what it uses of the repository of contexts (repository/repository.go, models/context.go), as
--   an interface that a list of rows implements; Entry.Seed: SeedEntry and seedScheduledEntry;
--   Entry.View: ResolveEntryView.
--
-- A text is a list of code points, and lengths and positions are those of the source when its
-- characters are ASCII; upper and lower case are ASCII's. A JSON number is its literal text and a
-- coordinate a whole number, since the source only copies them and compares coordinates with
-- zero. A map is a list of fields in which the first of a key counts; where the source walks a
-- map in no order, the model takes the order of the fields. A problem's message is a constructor
-- with what the text is formatted from. The catalog of kinds is a list, and the short ids drawn
-- from UUIDs are a supply, a function from numbers to texts: no theorem here needs them to
-- differ. A nil canvas is an empty one. A row of a context holds its text decoded.
--
-- Fuel: the loop of ParseContextPath has the length of the path, the loop over double dashes in
-- NormalizeTags the length of the text, which each round shortens, and the search of reaches one
-- round for each edge and one more, since only a first visit to a node pushes its edges; theorems
-- show each to be enough.
--
-- A run changes a state of the stores, the requests sent and the stops asked for; each reading of
-- the clock and each new UUID is an argument. The walk of the graph, the guard, the engine and
-- Go's arithmetic on floats and times are parameters.
--
-- Not modelled: network and database access, the Telegram transport, the runtime and the walk of
-- inflow-fusion, the timers of the schedulers, HTTP and MCP handlers, the export of a flow and
-- the decoding of a document, and the sharing of maps between a patch and the data planned from
-- it.
mod Prelude
pub mod Json
pub mod ContextPath
pub mod Graph
pub mod Diagnostics
pub mod Compile
pub mod Patch
pub mod Tags
pub mod Preferences
pub mod Entry
pub mod ReadQuery
pub mod Plugins
pub mod Chat
pub mod HumanContext
pub mod Runs
pub mod Flowfile
pub mod Workflows
pub mod Triggers
