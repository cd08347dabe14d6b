-- ===== src/Triggers/Schedule.antt =====
-- `dispatchAndArm` of inflow/trigger_scheduler.go: one pass over the schedules. Times are numbers on one
-- clock, on which the zero time is 0.
pub mod Laws
pub mod Fires
use morph_api.Prelude.{
  ℕ, ◌+◌, ◌-◌, suc, String, Bool, true, false, Option, none, some, List, [], ◌∷◌, ◌==◌, ltb, leb,
  if◌then◌else◌,
}
use morph_api.Prelude.Membership.{mem}
use morph_api.Compile.Nodes.{find, put}
use morph_api.Triggers.{Trigger}

-- `delete(m, k)`
unfoldable pub drop_key : String → List (String × ℕ) → List (String × ℕ)
drop_key k [] = []
drop_key k ((j, a) ∷ m) = let rest = drop_key k m in if j == k then rest else (j, a) ∷ rest

-- the keys that are among some ids
unfoldable pub keep_keys : List String → List (String × ℕ) → List (String × ℕ)
keep_keys ids [] = []
keep_keys ids ((j, a) ∷ m) = let rest = keep_keys ids m in if mem j ids then (j, a) ∷ rest else rest

-- What a pass holds: what firing changes, the armed times, and the wait so far.
pub record Pass (W : Type 0) : Type 0 where
  pub world : W
  pub armed : List (String × ℕ)
  pub wait : ℕ

abbrev pub smaller : ℕ → ℕ → ℕ
smaller a b = if ltb a b then a else b

-- A time that is past is no wait at all: the source lets the wait run below zero and sets it to zero at
-- the end.
abbrev pub until_from : ℕ → ℕ → ℕ
until_from clock next = next - clock

unfoldable pub ids_of : List Trigger → List String
ids_of [] = []
ids_of (t ∷ ts) = t.id ∷ ids_of ts

abbrev pub next_fire : Option (ℕ → ℕ) → ℕ → Option ℕ
next_fire none after = none
next_fire (some next) after = some (next after)

-- `schedule_of` parses the spec of a trigger, and answers the next time after a given one.
module _ {W : Type 0} (fire : W → Trigger → ℕ → W) (schedule_of : Trigger → Option (ℕ → ℕ))
    (clock : ℕ → ℕ) where
  abbrev pub waiting : ℕ → Pass W → ℕ → Pass W
  waiting k p next = record p { wait = smaller (until_from (clock k) next) p.wait }

  abbrev pub rearm : ℕ → String → Pass W → Option ℕ → Pass W
  rearm k id p none = record p { armed = drop_key id p.armed }
  rearm k id p (some next) = waiting k (record p { armed = put id next p.armed }) next

  -- A time that is reached fires once, and the next is counted from now.
  abbrev pub due : ℕ → ℕ → Trigger → Pass W → ℕ → Pass W
  due now k t p next =
      if leb next now
      then rearm k t.id (record p { world = fire p.world t k }) (next_fire (schedule_of t) now)
      else waiting k p next

  abbrev pub arm_new : ℕ → ℕ → Trigger → Pass W → Option ℕ → Pass W
  arm_new now k t p none = p
  arm_new now k t p (some next) = due now k t (record p { armed = put t.id next p.armed }) next

  abbrev pub arm : ℕ → ℕ → Trigger → Pass W → Option ℕ → Pass W
  arm now k t p (some next) = due now k t p next
  arm now k t p none = arm_new now k t p (next_fire (schedule_of t) now)

  unfoldable pub pass_over : ℕ → ℕ → List Trigger → Pass W → Pass W
  pass_over now k [] p = p
  pass_over now k (t ∷ ts) p = pass_over now (suc k) ts (arm now k t p (find t.id p.armed))

  -- `listed` is none when the schedules cannot be read; `fallback` is the longest sleep.
  unfoldable pub dispatch_and_arm : ℕ → ℕ → W → List (String × ℕ) → Option (List Trigger) → Pass W
  dispatch_and_arm fallback now w armed none = record { world = w; armed = armed; wait = fallback }
  dispatch_and_arm fallback now w armed (some ts) =
      let p = pass_over now 0 ts (record { world = w; armed = armed; wait = fallback }) in
      record p { armed = keep_keys (ids_of ts) p.armed }
