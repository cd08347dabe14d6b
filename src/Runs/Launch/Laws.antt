-- ===== src/Runs/Launch/Laws.antt =====
-- What a launch leaves behind.
use morph_api.Prelude.{
  ℕ, String, ◌≡◌, ◌⊎◌, refl, inl, inr, true, ◌&&◌, Option, none, some, List, if-split, arith,
}
use morph_api.Json.{Fields}
use morph_api.Patch.Values.{is_blank}
use morph_api.Preferences.{EntryForm}
use morph_api.Entry.Store.{ContextStore}
use morph_api.Runs.Rows.{
  LaunchError, no_flow_id, no_context_id, no_start_node, not_recorded, flow_not_loaded,
  ProcessStore,
}
use morph_api.Runs.Starts.{non_empty}
use morph_api.Runs.Engine.{Engine, FlowRecord, World, Outcome, refuse}
use morph_api.Runs.Launch.{
  seed_now, recorded, with_values, entry_values, started, with_flow, start_workflow,
}
use morph_api.Runs.Params.{
  StartParams, starts_on, form_of, has_ids, EntryValues, values, not_allowed, new_row,
}

module _ {P C : Type 0} (rows : ProcessStore P) (contexts : ContextStore C)
    (flows : String → Option FlowRecord) (validate : Fields → Fields → Option String)
    (engine : Engine) (w : World P C) (p : StartParams) (minted : String) (now : ℕ → ℕ) where
  abbrev pub launch : Outcome P C
  launch = start_workflow rows contexts flows validate engine w p minted now

  -- where the flow comes from: it is that of the run, unless nodes to start on were given
  abbrev pub Origin : Option FlowRecord → Type 0
  Origin flow = (has_ids (non_empty p.start_node_ids) ≡ true) ⊎ (flow ≡ flows p.flow_id)

  -- A launch is refused, or it records a row and goes on with it: what holds of both holds of it.
  module _ {κ} (Q : Outcome P C → Type κ) (stopped : (e : LaunchError) → Q (refuse w e))
      (went : (flow : Option FlowRecord) (ids : List String) (form : Option EntryForm)
          (entry : Fields) (t : P) (index : ℕ)
        → starts_on (non_empty p.start_node_ids) flow ≡ some ids
        → Origin flow
        → rows.create w.rows (new_row p ids entry (now 0)) ≡ some (t, index)
        → Q (
            seed_now rows contexts flows validate engine
              (record w { rows = t })
              p
              ids
              form
              entry
              (record (new_row p ids entry (now 0)) { index = index })
              minted
              now)) where
    recorded-cases :
        (flow : Option FlowRecord) (ids : List String) (form : Option EntryForm) (entry : Fields)
        (o : Option (P × ℕ))
        → starts_on (non_empty p.start_node_ids) flow ≡ some ids
        → Origin flow
        → rows.create w.rows (new_row p ids entry (now 0)) ≡ o
        → Q (recorded rows contexts flows validate engine w p ids form entry minted now o)
    recorded-cases flow ids form entry none s from e = stopped not_recorded
    recorded-cases flow ids form entry (some (t, index)) s from e =
        went flow ids form entry t index s from e

    with_values-cases :
        (flow : Option FlowRecord) (ids : List String) (form : Option EntryForm) (v : EntryValues)
        → starts_on (non_empty p.start_node_ids) flow ≡ some ids
        → Origin flow
        → Q (with_values rows contexts flows validate engine w p ids form minted now v)
    with_values-cases flow ids form (not_allowed e) s from = stopped e
    with_values-cases flow ids form (values entry) s from =
        recorded-cases flow ids form entry _ s from refl

    started-cases :
        (flow : Option FlowRecord) (ids : Option (List String))
        → starts_on (non_empty p.start_node_ids) flow ≡ ids
        → Origin flow
        → Q (started rows contexts flows validate engine w p flow minted now ids)
    started-cases flow none s from = stopped no_start_node
    started-cases flow (some ids) s from =
        with_values-cases flow ids (form_of p.entry_skip flow)
          (entry_values rows contexts flows validate engine w.contexts p
            (form_of p.entry_skip flow))
          s from

    with_flow-cases :
        (flow : Option FlowRecord)
        → flow ≡ flows p.flow_id
        → Q (with_flow rows contexts flows validate engine w p minted now flow)
    with_flow-cases none from = stopped (flow_not_loaded p.flow_id)
    with_flow-cases (some flow) from =
        started-cases (some flow) (starts_on (non_empty p.start_node_ids) (some flow)) refl
          (inr from)

    pub launch-cases : Q launch
    unfolding start_workflow
    launch-cases =
        if-split Q (is_blank p.flow_id) _ _ (λ e. stopped no_flow_id)
          (λ e.
            if-split Q (is_blank p.context_id) _ _ (λ e. stopped no_context_id)
              (λ e.
                if-split Q (has_ids (non_empty p.start_node_ids) && p.entry_skip) _ _
                  (λ e.
                    started-cases none (starts_on (non_empty p.start_node_ids) none) refl
                      (inl (ground arith)))
                  (λ e. with_flow-cases (flows p.flow_id) refl)))
