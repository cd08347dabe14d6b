-- ===== src/Flowfile/Import/Laws.antt =====
-- When a document lands, and what it leaves behind.
use morph_api.Prelude.{ℕ, String, ◌≡◌, ◌≢◌, refl, Bool, true, false, Option, none, some, List, ◌∙◌}
use morph_api.Graph.{Node, Flow}
use morph_api.Diagnostics.{Issue, compile_err}
use morph_api.Patch.{Problem}
use morph_api.Patch.Merge.{NodeKind}
use morph_api.Compile.Read.{Floats}
use morph_api.Compile.Rules.{Fusion}
use morph_api.Compile.Flow.{CompileResult, compile_flow}
use morph_api.Compile.Nodes.{Graph, Built, Walked}
use morph_api.Workflows.{FlowRecord, FlowTable, unreadable, Save}
use morph_api.Workflows.Laws.{Reliable, Saves, Keeps, upsert-Keeps}
use morph_api.Flowfile.{ExtensionRecord}
use morph_api.Flowfile.Identity.{Stamped, stamp_identities}
use morph_api.Flowfile.Profiles.{NodeSetting}
use morph_api.Flowfile.Import.{
  Input, Result, Imported, imported, count_type, lowered_as, plan_of, record_of, with_saved, save,
  result_of, is_none_of, import_flow,
}

-- The reports of an import, which a save does not touch.
abbrev pub SameReport : Result → Result → Type 0
SameReport r q =
    (q.problems ≡ r.problems)
    × (q.missing ≡ r.missing)
    × (q.unbound ≡ r.unbound)
    × (q.validation ≡ r.validation)
    × (q.compile_error ≡ r.compile_error)

module _ {S : Type 0} (table : FlowTable S) where
  -- What there is after a dry run, and after a real one.
  abbrev pub Lands : Bool → S → FlowRecord → S → FlowRecord → Type 0
  Lands true s w t flow = (t ≡ s) × (flow ≡ w)
  Lands false s w t flow = Keeps table w t flow

  abbrev pub Imports : (S → Result → Type 0) → Imported S → Type 0
  Imports Q a = (t : S) × (r : Result) × (a ≡ imported t r) × Q t r

  with_saved-Lands :
      (s : S) (r : Result) (a : Save S)
      → Saves table (Keeps table r.flow) a
      → Imports (λ t q. Lands false s r.flow t q.flow × SameReport r q) (with_saved table r a)
  with_saved-Lands s r a (t, flow, e, kept) =
      rw (e) (t, record r { flow = flow }, refl, (kept, (refl, refl, refl, refl, refl)))

  save-Lands :
      (sure : Reliable table) (dry : Bool) (s : S) (now : ℕ) (minted : String) (r : Result)
      → ((text : String) → table.read s r.flow.id ≢ unreadable text)
      → Imports
          (λ t q. Lands dry s r.flow t q.flow × SameReport r q)
          (save table dry s now minted r)
  save-Lands sure true s now minted r readable =
      (s, r, refl, ((refl, refl), (refl, refl, refl, refl, refl)))
  save-Lands sure false s now minted r readable =
      with_saved-Lands s r _ (upsert-Keeps table sure s now minted r.flow readable)

  lowered_as-save :
      (sure : Reliable table) (s : S) (now : ℕ) (minted : String) (c : CompileResult) (r : Result)
      (text : Option String)
      → r.compile_error ≡ none
      → ((text : String) → table.read s r.flow.id ≢ unreadable text)
      → Imports
          (λ t q.
            Lands r.dry_run s r.flow t q.flow
            × (q.problems ≡ r.problems)
            × (q.missing ≡ r.missing)
            × (q.unbound ≡ r.unbound)
            × (q.validation ≡ c.diagnostics)
            × (q.compile_error ≡ text))
          (save table r.dry_run s now minted (lowered_as text c r))
  lowered_as-save sure s now minted c r none clean readable =
      let (t, q, e, (lands, (a, b, d, f, g))) =
        save-Lands sure r.dry_run s now minted (lowered_as none c r) readable in
      (t, q, e, (lands, a, b, d, f, g ∙ clean))
  lowered_as-save sure s now minted c r (some text) clean readable =
      let (t, q, e, (lands, (a, b, d, f, g))) =
        save-Lands sure r.dry_run s now minted (lowered_as (some text) c r) readable in
      (t, q, e, (lands, a, b, d, f, g))

module _ (floats : Floats) (parse_time : String → String → Option String) (fusion : Fusion)
    (walk : (Node → Built) → String → Flow → Walked) (guard : String → Graph → List Issue)
    (issue_error : Issue → String) (catalog : List NodeKind) (short_id : ℕ → String)
    (profiles : String → Option NodeSetting) {S : Type 0} (table : FlowTable S)
    (exts builtins : List ExtensionRecord) where
  -- the document with this install's rows, and the graph that it is planned into
  abbrev pub stamped : Input → Stamped
  stamped i = stamp_identities exts builtins i.doc.plugins i.doc.nodes

  abbrev pub planned : Input → Flow × List Problem
  planned i = plan_of catalog short_id (stamped i).nodes i.doc

  abbrev pub drafted : Input → FlowRecord
  drafted i = record_of profiles i (planned i).0

  -- A document with nodes, whose graph has one start node, lands when its plugin rows can be listed, its
  -- row can be read, no write fails and no builder panics; that its graph does not compile, or that
  -- plugins are missing, is no obstacle. What is told is what the planning, the stamping and the
  -- compilation found. A dry run leaves the flows as they were, and any other run
  -- leaves the flow that it returns, with the title and the graph of the record that a dry run
  -- would return.
  pub import_flow-Lands :
      (sure : Reliable table) (s : S) (now : ℕ) (minted : String) (i : Input) (c : CompileResult)
      → is_none_of i.doc.nodes ≡ false
      → count_type "startNode" (planned i).0.nodes ≡ 1
      → compile_flow floats parse_time fusion walk guard true (drafted i).graph ≡ some c
      → ((text : String) → table.read s (drafted i).id ≢ unreadable text)
      → Imports table
          (λ t q.
            Lands table i.dry_run s (drafted i) t q.flow
            × (q.problems ≡ (planned i).1)
            × (q.missing ≡ (stamped i).missing)
            × (q.unbound ≡ (stamped i).unbound)
            × (q.validation ≡ c.diagnostics)
            × (q.compile_error ≡ compile_err issue_error c.diagnostics))
          (import_flow floats parse_time fusion walk guard issue_error catalog short_id profiles
            table
            (some (exts, builtins))
            s
            now
            minted
            i)
  unfolding import_flow
  import_flow-Lands sure s now minted i c some_nodes one compiles readable =
      rw (some_nodes, one, compiles)
        (lowered_as-save table sure s now minted c (result_of profiles i (stamped i) (planned i))
          (compile_err issue_error c.diagnostics) refl readable)
