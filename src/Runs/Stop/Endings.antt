-- ===== src/Runs/Stop/Endings.antt =====
-- How a run ends, and how a stop gets it there.
use morph_api.Prelude.{ℕ, String, ◌≡◌, ◌≢◌, ◌∷◌, ◌==◌, if-split, false, arith, eq_iff}
use morph_api.Runs.Rows.{
  Status, scheduled, running, waiting, finished, stopped, failed, ProcessRecord,
}
use morph_api.Runs.Engine.{Engine, Stopping, halted, accepted, unhalted, no_trace, trace, World}
use morph_api.Runs.Stop.{finish_status}

-- A run that has ended.
pub data Ended : Status → Type 0 where
  ended_finished : Ended finished
  ended_stopped : Ended stopped
  ended_failed : Ended failed

pub finish_status-Ended : (engine : Engine) (s : String) → Ended (finish_status engine s)
unfolding finish_status
finish_status-Ended engine s =
    if-split Ended (s == engine.finish_completed) _ _ (λ e. ended_finished)
      (λ e.
        if-split Ended (s == engine.finish_stopped) _ _ (λ e. ended_stopped)
          (λ e.
            if-split Ended (s == engine.finish_failed) _ _ (λ e. ended_failed)
              (λ e. ended_finished)))

-- What a word of the engine says a run has come to: one that is not known is read as finished.
pub data Says (engine : Engine) (text : String) : Status → Type 0 where
  says_finished : text ≡ engine.finish_completed → Says engine text finished
  says_stopped :
      text ≢ engine.finish_completed → text ≡ engine.finish_stopped → Says engine text stopped
  says_failed :
      text ≢ engine.finish_completed
      → text ≢ engine.finish_stopped
      → text ≡ engine.finish_failed
      → Says engine text failed
  says_unknown :
      text ≢ engine.finish_completed
      → text ≢ engine.finish_stopped
      → text ≢ engine.finish_failed
      → Says engine text finished

neq : (a b : String) → (a == b) ≡ false → a ≢ b
neq a b e q = ground (arith, eq_iff a b)

pub finish_status-Says : (engine : Engine) (s : String) → Says engine s (finish_status engine s)
unfolding finish_status
finish_status-Says engine s =
    if-split (Says engine s) (s == engine.finish_completed) _ _
      (λ e. says_finished (ground (arith, eq_iff s engine.finish_completed)))
      (λ e.
        let p : s ≢ engine.finish_completed = neq s engine.finish_completed e in
        if-split (Says engine s) (s == engine.finish_stopped) _ _
          (λ f. says_stopped p (ground (arith, eq_iff s engine.finish_stopped)))
          (λ f.
            if-split (Says engine s) (s == engine.finish_failed) _ _
              (λ g.
                says_failed p (neq s engine.finish_stopped f)
                  (ground (arith, eq_iff s engine.finish_failed)))
              (λ g. says_unknown p (neq s engine.finish_stopped f) (neq s engine.finish_failed g))))

-- A run that the engine has.
pub data Live : Status → Type 0 where
  live_running : Live running
  live_waiting : Live waiting

-- The engine's answers that mean it stops the run.
pub data Heeds : Stopping → Type 0 where
  heeds_halted : Heeds halted
  heeds_accepted : Heeds accepted

-- How a stop gets from the world `v` and the row `old` to the world `w` and the row `r`.
pub data Closes {P C : Type 0} (engine : Engine) (now : ℕ) (v w : World P C) (old r : ProcessRecord)
    : Type 0 where
  -- a run that had ended is left alone
  was_ended : Ended old.status → w ≡ v → r ≡ old → Closes engine now v w old r
  -- the engine is not asked for a run that it was never sent
  was_scheduled :
      old.status ≡ scheduled
      → w.stops ≡ v.stops
      → r ≡ record old { status = stopped; finished_at = now }
      → Closes engine now v w old r
  -- the engine was asked and stops the run
  was_heeded :
      Live old.status
      → (old.pid == "") ≡ false
      → w.stops ≡ old.pid ∷ v.stops
      → Heeds (engine.stop_process old.pid old.resource_url)
      → r ≡ record old { status = stopped; finished_at = now }
      → Closes engine now v w old r
  -- the engine was asked, did not stop the run, and has no trace of it
  was_lost :
      (text : String)
      → Live old.status
      → (old.pid == "") ≡ false
      → w.stops ≡ old.pid ∷ v.stops
      → engine.stop_process old.pid old.resource_url ≡ unhalted text
      → engine.fetch_trace old.pid ≡ no_trace
      → r ≡ record old { status = stopped; finished_at = now }
      → Closes engine now v w old r
  -- the engine was asked, did not stop the run, and its trace has an end
  was_over :
      (text word : String) (at duration : ℕ) (s : Status)
      → Live old.status
      → (old.pid == "") ≡ false
      → w.stops ≡ old.pid ∷ v.stops
      → engine.stop_process old.pid old.resource_url ≡ unhalted text
      → engine.fetch_trace old.pid ≡ trace at word duration
      → at ≢ 0
      → Says engine word s
      → r ≡ record old { status = s; finished_at = at; duration = duration }
      → Closes engine now v w old r
