-- ===== src/Triggers/Fire.antt =====
-- `fire` of inflow/trigger_scheduler.go, and a pass of the scheduler over the stores.
use morph_api.Prelude.{ℕ, String, Bool, true, false, Option, none, some, List}
use morph_api.Prelude.Text.{append}
use morph_api.Json.{Fields}
use morph_api.Entry.Store.{ContextStore}
use morph_api.Runs.Rows.{LaunchError, ProcessStore}
use morph_api.Runs.Engine.{Engine, FlowRecord, World, Outcome}
use morph_api.Triggers.{Trigger, spec_of}
use morph_api.Triggers.Launch.{Launched, launched, not_launched, crashed, launch_trigger}
use morph_api.Triggers.Schedule.{Pass, dispatch_and_arm}
use morph_api.Prelude.Int.{ℤ}

-- what a pass changes: the stores of the runs, and the triggers
pub record Fired (P C T : Type 0) : Type 0 where
  pub runs : World P C
  pub triggers : T

-- whether the parser of the cron library answers a schedule
abbrev pub is_parsed : Option (ℕ → ℕ) → Bool
is_parsed none = false
is_parsed (some next) = true

-- `mark_fired` is the store's, whose failure is ignored. `minted` is the two new ids of a firing, `now`
-- its clock during the launch, and `fired_at` the clock after it.
module _ {P C T : Type 0} (rows : ProcessStore P) (contexts : ContextStore C)
    (flows : String → Option FlowRecord) (validate : Fields → Fields → Option String)
    (engine : Engine) (mark_fired : T → String → ℕ → T) (minted : ℕ → String × String)
    (now : ℕ → ℕ → ℕ) (fired_at : ℕ → ℕ) where
  abbrev pub mark : Fired P C T → Trigger → ℕ → Outcome P C → Option LaunchError → Fired P C T
  mark f t at o (some e) = record f { runs = o.world }
  mark f t at o none = record { runs = o.world; triggers = mark_fired f.triggers t.id at }

  -- Only a payload can make a launch panic, and a schedule has none.
  abbrev pub mark_launched : Fired P C T → Trigger → ℕ → Launched P C → Fired P C T
  mark_launched f t at (launched o) = mark f t at o o.error
  mark_launched f t at (not_launched e) = f
  mark_launched f t at crashed = f

  unfoldable pub fire : Fired P C T → Trigger → ℕ → Fired P C T
  fire f t k = mark_launched f t (fired_at k) (
      launch_trigger rows contexts flows validate engine f.runs t (append "schedule: " t.title) none
        (minted k).0 (minted k).1 (now k))

  -- One round of the scheduler's loop; `parse` is the cron library's, with the times of a schedule.
  unfoldable pub run_pass :
      (ℤ → String)
      → (String → Option (ℕ → ℕ))
      → (ℕ → ℕ)
      → ℕ
      → ℕ
      → Fired P C T
      → List (String × ℕ)
      → Option (List Trigger)
      → Pass (Fired P C T)
  run_pass duration_text parse clock fallback at f armed listed =
      dispatch_and_arm fire (λ t. parse (spec_of duration_text (λ text. is_parsed (parse text)) t))
        clock fallback at f armed listed
