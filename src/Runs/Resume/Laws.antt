-- ===== src/Runs/Resume/Laws.antt =====
-- Where a parked flow goes on.
use morph_api.Prelude.{
  ℕ, ◌+◌, String, ◌≡◌, ◌⊎◌, refl, subst, inl, inr, true, ◌||◌, Option, none, some, List, ◌∷◌, arith,
  if-split,
}
use morph_api.Prelude.Int.{ℤ, is_positive}
use morph_api.Json.{Value, Fields}
use morph_api.Patch.Values.{is_blank}
use morph_api.Entry.Store.{ContextStore}
use morph_api.Runs.Rows.{scheduled, LaunchError, ProcessRecord, ProcessStore}
use morph_api.Runs.Starts.{Next, next_node_ids, load_resume_snapshot}
use morph_api.Runs.Engine.{Request, Engine, FlowRecord, World, Outcome}
use morph_api.Runs.Params.{StartParams}
use morph_api.Runs.Launch.Laws.{launch}
use morph_api.Runs.Launch.Stored.{Reliable, Phase, Settled, start_workflow-Settled}
use morph_api.Runs.Launch.Sent.{Sends, start_workflow-Sends}
use morph_api.Runs.Resume.{
  ContinuePayload, Headers, ExtNode, StopHere, Parked, stop_here, ParkedTask, Resumed,
  scheduled_time, continue_params, parked, handle_continue_after, resume_human_task,
}

module _ (encode_nexts : List Next → Value) (encode_time : ℤ → Value) {P C : Type 0}
    (rows : ProcessStore P) (contexts : ContextStore C) (flows : String → Option FlowRecord)
    (validate : Fields → Fields → Option String) (decode : Fields → Option Fields)
    (engine : Engine) where
  abbrev pub resume : World P C → Option ParkedTask → String → (ℕ → ℕ) → Resumed P C
  resume w t minted now =
      resume_human_task encode_nexts encode_time rows contexts flows validate decode engine w t
        minted now

  -- the request, if any, that a resumption sends
  abbrev pub Continues : World P C → ParkedTask → Resumed P C → Type 0
  Continues w t o =
      (o.world.sent ≡ w.sent)
      ⊎ ((q : Request) × (o.world.sent ≡ q ∷ w.sent)
          × (q.start_nodes ≡ next_node_ids t.nexts)
          × (q.resume ≡ load_resume_snapshot rows decode w.rows t.pid))

  abbrev pub continue :
      World P C → Headers → ContinuePayload → Option ExtNode → String → (ℕ → ℕ) → World P C × Parked
  continue w h op node minted now =
      handle_continue_after encode_nexts encode_time rows contexts flows validate decode engine w h
        op node minted now

  -- a run that waits in the store, and of which nothing was sent
  abbrev pub Waits : World P C → World P C → StopHere → Type 0
  Waits before w s =
      (r : ProcessRecord) × (rows.get_by_index w.rows s.index ≡ some r)
      × (r.status ≡ scheduled)
      × (s.status ≡ scheduled)
      × (w.sent ≡ before.sent)

  parked-Waits :
      (w : World P C) (p : StartParams) (minted : String) (o : Outcome P C)
      (row : Option ProcessRecord) (e : Option LaunchError) (s : StopHere)
      (later : is_positive p.scheduled_at ≡ true) (sure : Reliable rows)
      → o.row ≡ row
      → o.error ≡ e
      → Settled rows contexts flows validate engine sure p o
      → Sends rows contexts flows validate engine minted w.sent p o
      → parked encode_nexts encode_time rows contexts flows validate decode engine o p.scheduled_at
          row e
        ≡ stop_here s
      → Waits w o.world s
  parked-Waits w p minted o row (some x) s later sure a b c d e = absurd (cc e)
  parked-Waits w p minted o none none s later sure a b c d e = absurd (cc e)
  parked-Waits w p minted o (some r) none s later sure a b c d e =
      let (here, phase) = c r a in
      let settled : Phase rows contexts flows validate engine sure (is_positive p.scheduled_at) none
          r.status =
        subst
          (λ x.
            Phase rows contexts flows validate engine sure (is_positive p.scheduled_at) x r.status)
          b phase in
      let waits : r.status ≡ scheduled = ground (arith, later, settled) in
      let same : (record { index = r.index; status = r.status; scheduled_at = p.scheduled_at })
          ≡ s =
        cc e in
      let quiet : o.world.sent ≡ w.sent = elim d [
        | inl f ↦ f
        | inr (q, f, g) ↦ absurd (cc (g.due_now, later))
      ] in
      subst (Waits w o.world) same (r, here, waits, waits, quiet)

  -- When no write fails, a Continue After node that stops the run has put its continuation off: the
  -- store holds a row that is scheduled, under the index that is answered, and nothing was sent.
  pub handle_continue_after-Waits :
      (sure : Reliable rows) (w : World P C) (h : Headers) (op : ContinuePayload)
      (node : Option ExtNode) (minted : String) (now : ℕ → ℕ) (s : StopHere)
      → is_positive (scheduled_time op (now 0)) ≡ true
      → (continue w h op node minted now).1 ≡ stop_here s
      → Waits w (continue w h op node minted now).0 s
  unfolding handle_continue_after continue_params
  handle_continue_after-Waits sure w h op node minted now s later e =
      let p = continue_params encode_nexts encode_time h op node (now 0) in
      let o = launch rows contexts flows validate engine w p minted (λ n. now (n + 1)) in
      if-split (λ (x : World P C × Parked). x.1 ≡ stop_here s → Waits w x.0 s)
        (is_blank h.flow_id || is_blank h.context_id) _ _ (λ b f. absurd (cc f))
        (λ b f.
          parked-Waits w p minted o o.row o.error s later sure refl refl
            (start_workflow-Settled rows contexts flows validate engine sure w p minted
              (λ n. now (n + 1)))
            (start_workflow-Sends rows contexts flows validate engine minted w p (λ n. now (n + 1)))
            f)
        e
