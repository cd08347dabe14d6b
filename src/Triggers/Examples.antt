-- ===== src/Triggers/Examples.antt =====
-- The theorems on the triggers at two schedules and a webhook.
use morph_api.Prelude.{
  ℕ, ◌+◌, String, ◌≡◌, refl, ap, false, Option, none, some, List, [], ◌∷◌, ◌++◌, arith,
}
use morph_api.Prelude.Membership.{mem}
use morph_api.Prelude.Int.{pos}
use morph_api.Json.{str, end, field}
use morph_api.Compile.Nodes.{find}
use morph_api.Entry.Store.{ContextRecord, found, document, find_row, rows_store}
use morph_api.Triggers.{Trigger}
use morph_api.Triggers.Launch.{resolve_trigger_context}
use morph_api.Triggers.Launch.Laws.{Reliable, Folds, resolve_trigger_context-Carries}
use morph_api.Triggers.Schedule.{ids_of, dispatch_and_arm}
use morph_api.Triggers.Schedule.Laws.{Timely, Recurs, dispatch_and_arm-Timely}
use morph_api.Triggers.Schedule.Fires.{Distinct, fire_due, dispatch_and_arm-fires}

abbrev trigger : String → String → Trigger
trigger id context_id = record {
  id = id;
  flow_id = "f";
  start_node_id = "s";
  title = "Nightly";
  context_mode = "existing";
  context_id = context_id;
  context_title = "";
  settings = none;
  mode = "interval";
  cron = "";
  interval_sec = pos 60;
  timezone = "";
  cron_effective = "@every 1m0s";
}

abbrev schedules : List Trigger
schedules = trigger "t1" "c" ∷ trigger "t2" "c" ∷ []

abbrev log : List String → Trigger → ℕ → List String
log fired t k = fired ++ t.id ∷ []

abbrev every_minute : Trigger → Option (ℕ → ℕ)
every_minute t = some (λ after. after + 60)

abbrev ticking : ℕ → ℕ
ticking k = k + 100

abbrev time_at : Option (ℕ → ℕ) → ℕ → ℕ
time_at none after = 0
time_at (some next) after = next after

recurs : Recurs log every_minute ticking 100
recurs t next e =
    let same : 160 ≡ next 100 = ap (λ (o : Option (ℕ → ℕ)). time_at o 100) e in omega (arith, same)

dispatch_and_arm-Timely_example :
    let p =
      dispatch_and_arm log every_minute ticking 300 100 []
        (("t1", 90) ∷ ("old", 95) ∷ [])
        (some schedules) in
    Timely log every_minute ticking 100 p "t1"
    × (mem "t1" (ids_of schedules) ≡ false → find "t1" p.armed ≡ none)
dispatch_and_arm-Timely_example =
    dispatch_and_arm-Timely log every_minute ticking 100 (λ k. omega arith) recurs 300 []
      (("t1", 90) ∷ ("old", 95) ∷ []) schedules "t1"

distinct : Distinct schedules
unfolding ids_of mem
distinct = (refl, (refl, tt))

dispatch_and_arm-fires_example :
    (dispatch_and_arm log every_minute ticking 300 100 [] (("t1", 90) ∷ []) (some schedules)).world
    ≡ fire_due log every_minute ticking 100 (("t1", 90) ∷ []) 0 schedules []
dispatch_and_arm-fires_example =
    dispatch_and_arm-fires log every_minute ticking 100 300 [] (("t1", 90) ∷ []) schedules distinct

abbrev context : ContextRecord
context = record {
  id = "c";
  title = "Orders";
  context = document (field "order" (str "1") (field "kept" (str "k") end));
  header = end;
  updated_by = record { by = "user"; address = "" };
}

sure : Reliable rows_store
unfolding rows_store
sure c r e = absurd (cc e)

there : rows_store.get_by_id (context ∷ []) "c" ≡ found context
unfolding rows_store find_row
there = refl

resolve_trigger_context-Carries_example :
    Folds rows_store "c" context context.context (field "order" (str "2") end) (
      resolve_trigger_context rows_store
        (context ∷ [])
        (trigger "t1" "c")
        "webhook"
        (some (field "order" (str "2") end))
        "new")
resolve_trigger_context-Carries_example =
    resolve_trigger_context-Carries rows_store sure (context ∷ []) (trigger "t1" "c") "webhook"
      "new" (field "order" (str "2") end) context refl refl there
