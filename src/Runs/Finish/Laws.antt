-- ===== src/Runs/Finish/Laws.antt =====
-- What an event of the engine closes.
use morph_api.Prelude.{ℕ, ◌≡◌, ◌≢◌, refl, Option, none, some, if◌then◌else◌, eqb, arith, if-split}
use morph_api.Runs.Rows.{ProcessRecord, ProcessStore, Status, engine_text}
use morph_api.Runs.Engine.{Engine, World}
use morph_api.Runs.Launch.Stored.{Reliable}
use morph_api.Runs.Stop.{resolve_finished_record}
use morph_api.Runs.Stop.Endings.{Says, finish_status-Says}
use morph_api.Runs.Finish.{
  ProcFinish, finished_row, write_finished, finish_found, handle_proc_finish,
}

-- When a run ended: as the event says, or now if the event says nothing.
pub data Dated (ts now : ℕ) : ℕ → Type 0 where
  dated_by_event : ts ≢ 0 → Dated ts now ts
  dated_now : ts ≡ 0 → Dated ts now now

-- How the row `before` at `j` relates to the row `after` an event, which found the row `o` running.
pub data Told (engine : Engine) (f : ProcFinish) (now j : ℕ) (o before after : Option ProcessRecord)
    : Type 0 where
  told_none : o ≡ none → after ≡ before → Told engine f now j o before after
  told_other :
      (r : ProcessRecord)
      → o ≡ some r
      → r.index ≢ j
      → after ≡ before
      → Told engine f now j o before after
  told_closed :
      (r : ProcessRecord) (s : Status) (at : ℕ)
      → o ≡ some r
      → r.index ≡ j
      → Says engine f.status s
      → Dated f.ts now at
      → after
        ≡ some (record r {
          status = s;
          finished_at = at;
          duration = f.duration;
          error = engine_text f.error;
        })
      → Told engine f now j o before after

at-Dated : (ts now : ℕ) → Dated ts now (if eqb ts 0 then now else ts)
at-Dated ts now =
    if-split (Dated ts now) (eqb ts 0) _ _ (λ e. dated_now (ground (arith, e)))
      (λ e. dated_by_event (λ q. absurd (ground (arith, e, q))))

finished_row-Told :
    (engine : Engine) (f : ProcFinish) (now j : ℕ) (r : ProcessRecord)
    (before : Option ProcessRecord)
    → Told engine f now j
        (some r)
        before
        (if eqb r.index j then some (finished_row engine f now r) else before)
finished_row-Told engine f now j r before =
    if-split (Told engine f now j (some r) before) (eqb r.index j) _ _
      (λ e.
        told_closed r _ _ refl (ground (arith, e)) (finish_status-Says engine f.status)
          (at-Dated f.ts now) refl)
      (λ e. told_other r refl (λ q. absurd (ground (arith, e, q))) refl)

module _ {P C : Type 0} (rows : ProcessStore P) (engine : Engine) (sure : Reliable rows) where
  write_finished-row :
      (w : World P C) (f : ProcFinish) (now j : ℕ) (r : ProcessRecord) (o : Option P)
      → rows.get_by_index w.rows r.index ≡ some r
      → rows.update w.rows (finished_row engine f now r) ≡ o
      → Told engine f now j
          (some r)
          (rows.get_by_index w.rows j)
          (rows.get_by_index (write_finished rows engine w o).rows j)
  write_finished-row w f now j r none h u = absurd (sure w.rows (finished_row engine f now r) u)
  write_finished-row w f now j r (some t) h u =
      rw (rows.get-update w.rows t r (finished_row engine f now r) j h u)
        (finished_row-Told engine f now j r (rows.get_by_index w.rows j))

  finish_found-row :
      (w : World P C) (f : ProcFinish) (now j : ℕ) (o : Option ProcessRecord)
      → rows.running_by_pid w.rows f.pid ≡ o
      → Told engine f now j o
          (rows.get_by_index w.rows j)
          (rows.get_by_index (finish_found rows engine w f now o).rows j)
  finish_found-row w f now j none h = told_none refl refl
  finish_found-row w f now j (some r) h =
      write_finished-row w f now j r _ (rows.running-status w.rows f.pid r h).2 refl

  -- An event without an index closes the running row of its pid: the row has the status that the
  -- event's word says, ended when the event says or now if it does not say, has the event's duration
  -- and error, and is otherwise as it was. No other row is changed; if no row of the pid is running,
  -- none is. It holds if no write to the store fails.
  pub handle_proc_finish-row :
      (w : World P C) (f : ProcFinish) (now j : ℕ)
      → Told engine f now j
          (rows.running_by_pid w.rows f.pid)
          (rows.get_by_index w.rows j)
          (rows.get_by_index (handle_proc_finish rows engine w none f now).rows j)
  unfolding handle_proc_finish resolve_finished_record
  handle_proc_finish-row w f now j = finish_found-row w f now j _ refl
