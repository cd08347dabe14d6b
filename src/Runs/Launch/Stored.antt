-- ===== src/Runs/Launch/Stored.antt =====
-- The row that a launch returns is the one that the store holds.
use morph_api.Prelude.{
  ℕ, String, ◌≡◌, ◌≢◌, refl, subst, Bool, ◌&&◌, ◌||◌, Option, none, some, List, ◌==◌, if◌then◌else◌,
  arith, if-split,
}
use morph_api.Prelude.Int.{is_positive, is_zero}
use morph_api.Json.{Fields}
use morph_api.Preferences.{is_filled}
use morph_api.Entry.Store.{ContextStore}
use morph_api.Entry.Seed.{SeedError}
use morph_api.Runs.Rows.{
  Status, scheduled, running, failed, LaunchError, not_seeded, not_built, not_dispatched,
  ProcessRecord, ProcessStore,
}
use morph_api.Runs.Engine.{
  Request, Engine, FlowRecord, World, Outcome, Prepared, prepared, unprepared, Reply, echoed,
  unanswered, woken, sending,
}
use morph_api.Runs.Launch.{
  or_kept, try_update, fail, sync_pid, answered, dispatch, requested, built, send, seeded,
}
use morph_api.Runs.Params.{StartParams, request_of, new_row, failed_row, instance_of}
use morph_api.Runs.Launch.Laws.{launch, launch-cases}

-- No write to the store fails.
abbrev pub Reliable : {P : Type 0} → ProcessStore P → Type 0
Reliable {P} rows = (s : P) (r : ProcessRecord) → rows.update s r ≢ none

module _ {P : Type 0} (rows : ProcessStore P) where
  -- a write of a row that is there is read back
  pub update-read :
      (s t : P) (old r : ProcessRecord)
      → rows.get_by_index s r.index ≡ some old
      → rows.update s r ≡ some t
      → rows.get_by_index t r.index ≡ some r
  update-read s t old r h u = ground (arith, rows.get-update s t old r r.index h u)

module _ {P C : Type 0} (rows : ProcessStore P) (contexts : ContextStore C)
    (flows : String → Option FlowRecord) (validate : Fields → Fields → Option String)
    (engine : Engine) (sure : Reliable rows) where
  abbrev pub Phase : Bool → Option LaunchError → Status → Type 0
  Phase later none s = s ≡ (if later then scheduled else running)
  Phase later (some e) s = s ≡ failed

  abbrev pub Settled : StartParams → Outcome P C → Type 0
  Settled p o =
      (r : ProcessRecord)
      → o.row ≡ some r
      → (rows.get_by_index o.world.rows r.index ≡ some r)
        × Phase (is_positive p.scheduled_at) o.error r.status

  or_kept-read :
      (w : World P C) (old r : ProcessRecord) (o : Option P)
      → rows.get_by_index w.rows r.index ≡ some old
      → rows.update w.rows r ≡ o
      → rows.get_by_index (or_kept rows contexts flows validate engine w o).rows r.index ≡ some r
  or_kept-read w old r none h u = absurd (sure w.rows r u)
  or_kept-read w old r (some t) h u = update-read rows w.rows t old r h u

  fail-Settled :
      (w : World P C) (p : StartParams) (e : LaunchError) (n : ℕ) (old r : ProcessRecord)
      → rows.get_by_index w.rows r.index ≡ some old
      → Settled p (fail rows contexts flows validate engine w e n r)
  fail-Settled w p e n old r h q f =
      let same : failed_row e n r ≡ q = cc f in
      subst
        (λ q.
          (rows.get_by_index
              (try_update rows contexts flows validate engine w (failed_row e n r)).rows q.index
            ≡ some q)
          × (q.status ≡ failed))
        same (or_kept-read w old (failed_row e n r) _ h refl, refl)

  kept-Settled :
      (w : World P C) (p : StartParams) (r : ProcessRecord)
      → rows.get_by_index w.rows r.index ≡ some r
      → Phase (is_positive p.scheduled_at) none r.status
      → Settled p (record { world = w; row = some r; error = none })
  kept-Settled w p r h s q f =
      let same : r ≡ q = cc f in
      subst
        (λ q.
          (rows.get_by_index w.rows q.index ≡ some q)
          × Phase (is_positive p.scheduled_at) none q.status)
        same (h, s)

  sync_pid-Settled :
      (w : World P C) (p : StartParams) (r : ProcessRecord) (pid : String)
      → rows.get_by_index w.rows r.index ≡ some r
      → Phase (is_positive p.scheduled_at) none r.status
      → Settled p (sync_pid rows contexts flows validate engine w r pid)
  sync_pid-Settled w p r pid h s =
      if-split (Settled p) (pid == "" || pid == r.pid) _ _ (λ e. kept-Settled w p r h s)
        (λ e.
          kept-Settled (try_update rows contexts flows validate engine w (record r { pid = pid })) p
            (record r { pid = pid }) (or_kept-read w r (record r { pid = pid }) _ h refl) s)

  answered-Settled :
      (w : World P C) (p : StartParams) (r : ProcessRecord) (now : ℕ → ℕ) (a : Reply)
      → rows.get_by_index w.rows r.index ≡ some r
      → Phase (is_positive p.scheduled_at) none r.status
      → Settled p (answered rows contexts flows validate engine w r now a)
  answered-Settled w p r now (echoed pid) h s = sync_pid-Settled w p r pid h s
  answered-Settled w p r now (unanswered text) h s =
      fail-Settled w p (not_dispatched text) (now 1) r r h

  dispatch-Settled :
      (w : World P C) (p : StartParams) (q : Request) (r : ProcessRecord) (now : ℕ → ℕ)
      → rows.get_by_index w.rows r.index ≡ some r
      → Phase (is_positive p.scheduled_at) none r.status
      → Settled p (dispatch rows contexts flows validate engine w p q r now)
  dispatch-Settled w p q r now h s =
      if-split (Settled p) (is_positive p.scheduled_at) _ _ (λ e. kept-Settled (woken w) p r h s)
        (λ e. answered-Settled (sending w q) p r now (engine.exec q) h s)

  requested-Settled :
      (w : World P C) (p : StartParams) (q : Request) (old r : ProcessRecord) (now : ℕ → ℕ)
      (o : Option P)
      → rows.get_by_index w.rows r.index ≡ some old
      → rows.update w.rows r ≡ o
      → Phase (is_positive p.scheduled_at) none r.status
      → Settled p (requested rows contexts flows validate engine w p q r now o)
  requested-Settled w p q old r now none h u s = absurd (sure w.rows r u)
  requested-Settled w p q old r now (some t) h u s =
      dispatch-Settled (record w { rows = t }) p q r now (update-read rows w.rows t old r h u) s

  built-Settled :
      (w : World P C) (p : StartParams) (q : Request) (old r : ProcessRecord) (now : ℕ → ℕ)
      (a : Prepared)
      → rows.get_by_index w.rows r.index ≡ some old
      → Phase (is_positive p.scheduled_at) none r.status
      → Settled p (built rows contexts flows validate engine w p q r now a)
  built-Settled w p q old r now (unprepared text) h s =
      fail-Settled w p (not_built text) (now 1) old r h
  built-Settled w p q old r now (prepared pid url stored) h s =
      requested-Settled w p q old (record r { pid = pid; resource_url = url; request = stored }) now
        _ h refl s

  send-Settled :
      (w : World P C) (p : StartParams) (ids : List String) (r : ProcessRecord) (minted : String)
      (now : ℕ → ℕ)
      → rows.get_by_index w.rows r.index ≡ some r
      → Phase (is_positive p.scheduled_at) none r.status
      → Settled p (send rows contexts flows validate engine w p ids r minted now)
  unfolding send
  send-Settled w p ids r minted now h s =
      built-Settled w p (request_of p ids r.index minted) r
        (record r { instance_id = instance_of p.instance_id minted }) now _ h s

  seeded-Settled :
      (w : World P C) (p : StartParams) (ids : List String) (r : ProcessRecord) (minted : String)
      (now : ℕ → ℕ) (a : C × Option SeedError)
      → rows.get_by_index w.rows r.index ≡ some r
      → Phase (is_positive p.scheduled_at) none r.status
      → Settled p (seeded rows contexts flows validate engine w p ids r minted now a)
  seeded-Settled w p ids r minted now (c, none) h s =
      send-Settled (record w { contexts = c }) p ids r minted now h s
  seeded-Settled w p ids r minted now (c, some e) h s =
      fail-Settled (record w { contexts = c }) p (not_seeded e) (now 1) r r h

  -- When no write fails, the row that a launch returns is the row that the store holds, and its status
  -- tells how the launch ended: scheduled or running when there was no error, and failed
  -- otherwise.
  pub start_workflow-Settled :
      (w : World P C) (p : StartParams) (minted : String) (now : ℕ → ℕ)
      → Settled p (launch rows contexts flows validate engine w p minted now)
  unfolding new_row
  start_workflow-Settled w p minted now =
      launch-cases rows contexts flows validate engine w p minted now (Settled p)
        (λ e r f. absurd (cc f))
        (λ flow ids form entry t index starts from made.
          let fresh = record (new_row p ids entry (now 0)) { index = index } in
          let here : rows.get_by_index t index ≡ some fresh =
            ground
              (arith, rows.get-create w.rows t (new_row p ids entry (now 0)) index index made) in
          if-split (Settled p) (is_zero p.scheduled_at && is_filled entry) _ _
            (λ e. seeded-Settled (record w { rows = t }) p ids fresh minted now _ here refl)
            (λ e. send-Settled (record w { rows = t }) p ids fresh minted now here refl))
