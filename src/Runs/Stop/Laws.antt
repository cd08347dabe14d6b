-- ===== src/Runs/Stop/Laws.antt =====
-- What a stop leaves behind.
use morph_api.Prelude.{
  ℕ, String, ◌≡◌, refl, sym, subst, ◌∙◌, Option, none, some, ◌∷◌, ◌==◌, ltb, if-split, false,
}
use morph_api.Runs.Rows.{
  Status, scheduled, running, waiting, finished, stopped, failed, ProcessRecord, ProcessStore,
}
use morph_api.Runs.Engine.{
  Engine, Stopping, halted, accepted, unhalted, Traced, trace_failed, no_trace, trace, World, woken,
}
use morph_api.Runs.Launch.Stored.{update-read}
use morph_api.Runs.Stop.Endings.{
  Ended, ended_finished, ended_stopped, ended_failed, finish_status-Ended, finish_status-Says, Live,
  live_running, live_waiting, Heeds, heeds_halted, heeds_accepted, Closes, was_ended, was_scheduled,
  was_heeded, was_lost, was_over,
}
use morph_api.Runs.Stop.{
  Stopped, finish_status, stopped_row, traced_row, closed, cancelled, by_trace, by_answer,
  stop_live, by_status, stop_found, stop_workflow,
}

module _ {P C : Type 0} (rows : ProcessStore P) (engine : Engine) where
  -- What a stop without an error comes to: the row is there, as it is returned, has ended, and was closed
  -- as its run's state asks.
  abbrev pub Halts : ℕ → World P C → ℕ → Stopped P C → Type 0
  Halts now v i o =
      o.error ≡ none
      → (old : ProcessRecord) × (r : ProcessRecord) × (rows.get_by_index v.rows i ≡ some old)
        × (o.row ≡ some r)
        × Ended r.status
        × (rows.get_by_index o.world.rows i ≡ some r)
        × Closes engine now v o.world old r

  closed-Halts :
      (now : ℕ) (v w : World P C) (old r : ProcessRecord) (o : Option P)
      → Ended r.status
      → rows.get_by_index v.rows r.index ≡ some old
      → rows.get_by_index w.rows r.index ≡ some old
      → ((t : P) → Closes engine now v (record w { rows = t }) old r)
      → rows.update w.rows r ≡ o
      → Halts now v r.index (closed rows engine w r o)
  closed-Halts now v w old r none d b h c u e = absurd (cc e)
  closed-Halts now v w old r (some t) d b h c u e =
      (old, r, b, refl, d, update-read rows w.rows t old r h u, c t)

  cancelled-Halts :
      (now : ℕ) (w : World P C) (old r : ProcessRecord) (o : Option P)
      → Ended r.status
      → rows.get_by_index w.rows r.index ≡ some old
      → ((t : P) → Closes engine now w (woken (record w { rows = t })) old r)
      → rows.update w.rows r ≡ o
      → Halts now w r.index (cancelled rows engine w r o)
  cancelled-Halts now w old r none d h c u e = absurd (cc e)
  cancelled-Halts now w old r (some t) d h c u e =
      (old, r, h, refl, d, update-read rows w.rows t old r h u, c t)

  by_trace-Halts :
      (w : World P C) (r : ProcessRecord) (now : ℕ) (text : String) (t : Traced)
      → rows.get_by_index w.rows r.index ≡ some r
      → Live r.status
      → (r.pid == "") ≡ false
      → engine.stop_process r.pid r.resource_url ≡ unhalted text
      → engine.fetch_trace r.pid ≡ t
      → Halts now w r.index
          (by_trace rows engine (record w { stops = r.pid ∷ w.stops }) r now text t)
  by_trace-Halts w r now text trace_failed h l p a f = λ e. absurd (cc e)
  by_trace-Halts w r now text no_trace h l p a f =
      closed-Halts now w (record w { stops = r.pid ∷ w.stops }) r (stopped_row now r) _
        ended_stopped h h (λ t. was_lost text l p refl a f refl) refl
  by_trace-Halts w r now text (trace at word duration) h l p a f =
      if-split (Halts now w r.index) (ltb 0 at) _ _
        (λ e.
          let s = finish_status engine word in
          closed-Halts now w (record w { stops = r.pid ∷ w.stops }) r (traced_row s at duration r) _
            (finish_status-Ended engine word) h h
            (λ t.
              was_over text word at duration s l p refl a f (λ q. absurd (cc (e, q)))
                (finish_status-Says engine word) refl)
            refl)
        (λ e f. absurd (cc f))

  by_answer-Halts :
      (w : World P C) (r : ProcessRecord) (now : ℕ) (a : Stopping)
      → rows.get_by_index w.rows r.index ≡ some r
      → Live r.status
      → (r.pid == "") ≡ false
      → engine.stop_process r.pid r.resource_url ≡ a
      → Halts now w r.index (by_answer rows engine (record w { stops = r.pid ∷ w.stops }) r now a)
  by_answer-Halts w r now halted h l p a =
      closed-Halts now w (record w { stops = r.pid ∷ w.stops }) r (stopped_row now r) _
        ended_stopped h h (λ t. was_heeded l p refl (subst Heeds (sym a) heeds_halted) refl) refl
  by_answer-Halts w r now accepted h l p a =
      closed-Halts now w (record w { stops = r.pid ∷ w.stops }) r (stopped_row now r) _
        ended_stopped h h (λ t. was_heeded l p refl (subst Heeds (sym a) heeds_accepted) refl) refl
  by_answer-Halts w r now (unhalted text) h l p a =
      by_trace-Halts w r now text (engine.fetch_trace r.pid) h l p a refl

  stop_live-Halts :
      (w : World P C) (r : ProcessRecord) (now : ℕ)
      → rows.get_by_index w.rows r.index ≡ some r
      → Live r.status
      → Halts now w r.index (stop_live rows engine w r now)
  stop_live-Halts w r now h l =
      if-split (Halts now w r.index) (r.pid == "") _ _ (λ e f. absurd (cc f))
        (λ e. by_answer-Halts w r now _ h l e refl)

  by_status-Halts :
      (w : World P C) (r : ProcessRecord) (now : ℕ) (s : Status)
      → r.status ≡ s
      → rows.get_by_index w.rows r.index ≡ some r
      → Halts now w r.index (by_status rows engine w r now s)
  by_status-Halts w r now finished q h = λ e.
      let d = subst Ended (sym q) ended_finished in (r, r, h, refl, d, h, was_ended d refl refl)
  by_status-Halts w r now stopped q h =
      λ e. let d = subst Ended (sym q) ended_stopped in (r, r, h, refl, d, h, was_ended d refl refl)
  by_status-Halts w r now failed q h =
      λ e. let d = subst Ended (sym q) ended_failed in (r, r, h, refl, d, h, was_ended d refl refl)
  by_status-Halts w r now scheduled q h =
      cancelled-Halts now w r (stopped_row now r) _ ended_stopped h (λ t. was_scheduled q refl refl)
        refl
  by_status-Halts w r now running q h = stop_live-Halts w r now h (subst Live (sym q) live_running)
  by_status-Halts w r now waiting q h = stop_live-Halts w r now h (subst Live (sym q) live_waiting)

  stop_found-Halts :
      (w : World P C) (i now : ℕ) (o : Option ProcessRecord)
      → rows.get_by_index w.rows i ≡ o
      → Halts now w i (stop_found rows engine w now o)
  stop_found-Halts w i now none h = λ e. absurd (cc e)
  stop_found-Halts w i now (some r) h =
      let at : r.index ≡ i = rows.get-index w.rows i r h in
      subst (λ i. Halts now w i (stop_found rows engine w now (some r))) at
        (by_status-Halts w r now r.status refl
          (subst (λ i. rows.get_by_index w.rows i ≡ some r) (sym at) h))

  -- A stop that reports no error has stopped the run: the store holds the row that is returned, with a
  -- status that a run ends in. A run that had ended is left alone, and one that is only scheduled is
  -- closed without the engine; for any other the engine was asked, and its row is closed as stopped if
  -- the engine stops it or has no trace of it, and as the trace says if that has an end, so not while
  -- the trace shows it live.
  pub stop_workflow-Halts :
      (w : World P C) (index now : ℕ)
      → (stop_workflow rows engine w index now).error ≡ none
      → (old : ProcessRecord) × (r : ProcessRecord) × (rows.get_by_index w.rows index ≡ some old)
        × ((stop_workflow rows engine w index now).row ≡ some r)
        × Ended r.status
        × (rows.get_by_index (stop_workflow rows engine w index now).world.rows index ≡ some r)
        × Closes engine now w (stop_workflow rows engine w index now).world old r
  unfolding stop_workflow
  stop_workflow-Halts w index now =
      stop_found-Halts w index now (rows.get_by_index w.rows index) refl

  by_status-Ended :
      (w : World P C) (r : ProcessRecord) (now : ℕ) (s : Status)
      → Ended s
      → by_status rows engine w r now s ≡ record { world = w; row = some r; error = none }
  by_status-Ended w r now scheduled d = elim d [ ]
  by_status-Ended w r now running d = elim d [ ]
  by_status-Ended w r now waiting d = elim d [ ]
  by_status-Ended w r now finished d = refl
  by_status-Ended w r now stopped d = refl
  by_status-Ended w r now failed d = refl

  -- To stop a run again changes nothing and asks the engine nothing: it answers the same row.
  pub stop_workflow_idem :
      (w : World P C) (index now later : ℕ)
      → let once = stop_workflow rows engine w index now in
        once.error ≡ none → stop_workflow rows engine once.world index later ≡ once
  unfolding stop_workflow
  stop_workflow_idem w index now later e =
      let once = stop_found rows engine w now (rows.get_by_index w.rows index) in
      let (old, r, was, row, d, here, how) =
        stop_found-Halts w index now (rows.get_by_index w.rows index) refl e in
      let again : stop_found rows engine once.world later (some r) ≡ once =
        by_status-Ended once.world r later r.status d ∙ rw (sym row, sym e) refl in
      subst (λ o. stop_found rows engine once.world later o ≡ once) (sym here) again
