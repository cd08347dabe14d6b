-- ===== src/Triggers.antt =====
-- inflow/trigger.go and inflow/trigger_scheduler.go: what starts a flow at its times, or for a webhook.
pub mod Launch
pub mod Schedule
pub mod Fire
mod Examples
use morph_api.Prelude.{
  String, Bool, true, false, not, ◌&&◌, Option, none, some, ◌==◌, if◌then◌else◌,
}
use morph_api.Prelude.Text.{append, trim_space, has_prefix}
use morph_api.Prelude.Int.{ℤ, is_positive}
use morph_api.Runs.Engine.{RunSettings}

-- The fields of a `Trigger` that a launch and the scheduler read.
pub record Trigger : Type 0 where
  pub id : String
  pub flow_id : String
  pub start_node_id : String
  pub title : String
  pub context_mode : String
  pub context_id : String
  pub context_title : String
  pub settings : Option RunSettings
  pub mode : String
  pub cron : String
  pub interval_sec : ℤ
  pub timezone : String
  pub cron_effective : String

pub data CronError : Type 0 where
  no_expression interval_not_positive not_parsed : CronError
  unknown_mode : (mode : String) → CronError

pub data Spec : Type 0 where
  spec : String → Spec
  rejected : CronError → Spec

abbrev pub with_timezone : String → String → String
with_timezone timezone cron =
    if not (timezone == "") && not (has_prefix "CRON_TZ=" cron) && not (has_prefix "@" cron)
    then append "CRON_TZ=" (append timezone (append " " cron))
    else cron

-- `duration_text` prints a number of seconds, which is taken to fit a duration, and `parses` is the parser
-- of the cron library.
module _ (duration_text : ℤ → String) (parses : String → Bool) where
  abbrev pub checked : String → Spec
  checked text = if parses text then spec text else rejected not_parsed

  unfoldable pub effective_cron : Trigger → Spec
  effective_cron t =
      if t.mode == "cron"
      then (if trim_space t.cron == ""
          then rejected no_expression
          else checked (with_timezone t.timezone (trim_space t.cron)))
      else if t.mode == "interval"
      then (if is_positive t.interval_sec
          then checked (append "@every " (duration_text t.interval_sec))
          else rejected interval_not_positive)
      else rejected (unknown_mode t.mode)

  abbrev pub or_blank : Spec → String
  or_blank (spec text) = text
  or_blank (rejected e) = ""

  -- a row that was written before its spec was kept has it derived
  unfoldable pub spec_of : Trigger → String
  spec_of t = if t.cron_effective == "" then or_blank (effective_cron t) else t.cron_effective
