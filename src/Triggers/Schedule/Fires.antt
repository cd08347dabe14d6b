-- ===== src/Triggers/Schedule/Fires.antt =====
-- Which triggers a pass over the schedules fires.
use morph_api.Prelude.{
  ℕ, suc, String, ◌≡◌, refl, ap, ◌∙◌, Bool, true, false, Option, none, some, List, [], ◌∷◌, ◌==◌,
  leb, if◌then◌else◌, arith, eq_iff, if-split, inl, inr, Bool-cases,
}
use morph_api.Prelude.Membership.{mem}
use morph_api.Compile.Nodes.{find, put}
use morph_api.Compile.Flow.Maps.{find-put}
use morph_api.Triggers.{Trigger}
use morph_api.Triggers.Schedule.{
  Pass, ids_of, next_fire, rearm, due, arm_new, arm, pass_over, dispatch_and_arm,
}
use morph_api.Triggers.Schedule.Laws.{find-drop_key}

-- No trigger is listed twice.
abbrev pub Distinct : List Trigger → Type 0
Distinct [] = Unit
Distinct (t ∷ ts) = (mem t.id (ids_of ts) ≡ false) × Distinct ts

abbrev pub is_reached : ℕ → Option ℕ → Bool
is_reached now none = false
is_reached now (some n) = leb n now

abbrev pub first_of : Option ℕ → Option ℕ → Option ℕ
first_of none o = o
first_of (some n) o = some n

module _ {W : Type 0} (fire : W → Trigger → ℕ → W) (schedule_of : Trigger → Option (ℕ → ℕ))
    (clock : ℕ → ℕ) (now : ℕ) where
  -- by the time that is armed, or for a new trigger by its first time
  abbrev pub is_due : List (String × ℕ) → Trigger → Bool
  is_due armed t = is_reached now (first_of (find t.id armed) (next_fire (schedule_of t) now))

  unfoldable pub fire_due : List (String × ℕ) → ℕ → List Trigger → W → W
  fire_due armed k [] w = w
  fire_due armed k (t ∷ ts) w = fire_due armed (suc k) ts (if is_due armed t then fire w t k else w)

  rearm_world :
      (k : ℕ) (id : String) (p : Pass W) (o : Option ℕ)
      → (rearm fire schedule_of clock k id p o).world ≡ p.world
  rearm_world k id p none = refl
  rearm_world k id p (some next) = refl

  due_world :
      (k : ℕ) (t : Trigger) (p : Pass W) (next : ℕ)
      → (due fire schedule_of clock now k t p next).world
        ≡ (if leb next now then fire p.world t k else p.world)
  due_world k t p next = elim (Bool-cases (leb next now)) [
    | inl e ↦ rw e (rearm_world k t.id (record p { world = fire p.world t k }) _)
    | inr e ↦ rw e refl
  ]

  arm_new_world :
      (k : ℕ) (t : Trigger) (p : Pass W) (o : Option ℕ)
      → (arm_new fire schedule_of clock now k t p o).world
        ≡ (if is_reached now o then fire p.world t k else p.world)
  arm_new_world k t p none = refl
  arm_new_world k t p (some next) = due_world k t (record p { armed = put t.id next p.armed }) next

  arm_world :
      (k : ℕ) (t : Trigger) (p : Pass W) (o : Option ℕ)
      → (arm fire schedule_of clock now k t p o).world ≡ (
          if is_reached now (first_of o (next_fire (schedule_of t) now))
          then fire p.world t k
          else p.world)
  arm_world k t p (some next) = due_world k t p next
  arm_world k t p none = arm_new_world k t p _

  rearm-find :
      (k : ℕ) (t : Trigger) (p : Pass W) (o : Option ℕ) (id : String)
      → (t.id == id) ≡ false
      → find id (rearm fire schedule_of clock k t.id p o).armed ≡ find id p.armed
  rearm-find k t p none id ne = ground (arith, find-drop_key t.id id p.armed)
  rearm-find k t p (some next) id ne = ground (arith, find-put t.id id next p.armed)

  due-find :
      (k : ℕ) (t : Trigger) (p : Pass W) (next : ℕ) (id : String)
      → (t.id == id) ≡ false
      → find id (due fire schedule_of clock now k t p next).armed ≡ find id p.armed
  due-find k t p next id ne =
      if-split (λ (q : Pass W). find id q.armed ≡ find id p.armed) (leb next now) _ _
        (λ e. rearm-find k t (record p { world = fire p.world t k }) _ id ne) (λ e. refl)

  arm_new-find :
      (k : ℕ) (t : Trigger) (p : Pass W) (o : Option ℕ) (id : String)
      → (t.id == id) ≡ false
      → find id (arm_new fire schedule_of clock now k t p o).armed ≡ find id p.armed
  arm_new-find k t p none id ne = refl
  arm_new-find k t p (some next) id ne =
      due-find k t (record p { armed = put t.id next p.armed }) next id ne
      ∙ ground (arith, find-put t.id id next p.armed)

  arm-find :
      (k : ℕ) (t : Trigger) (p : Pass W) (o : Option ℕ) (id : String)
      → (t.id == id) ≡ false
      → find id (arm fire schedule_of clock now k t p o).armed ≡ find id p.armed
  arm-find k t p (some next) id ne = due-find k t p next id ne
  arm-find k t p none id ne = arm_new-find k t p _ id ne

  pass_over-fires :
      (armed : List (String × ℕ)) (k : ℕ) (ts : List Trigger) (p : Pass W)
      → Distinct ts
      → ((id : String) → mem id (ids_of ts) ≡ true → find id p.armed ≡ find id armed)
      → (pass_over fire schedule_of clock now k ts p).world ≡ fire_due armed k ts p.world
  unfolding pass_over fire_due ids_of mem
  pass_over-fires armed k [] p distinct same = refl
  pass_over-fires armed k (t ∷ ts) p (fresh, distinct) same =
      let q = arm fire schedule_of clock now k t p (find t.id p.armed) in
      let here : find t.id p.armed ≡ find t.id armed =
        same t.id (ground (arith, eq_iff t.id t.id)) in
      let fired : q.world ≡ (if is_due armed t then fire p.world t k else p.world) =
        arm_world k t p (find t.id p.armed)
        ∙ ap
            (λ (o : Option ℕ).
              if is_reached now (first_of o (next_fire (schedule_of t) now))
              then fire p.world t k
              else p.world)
            here in
      pass_over-fires armed (suc k) ts q distinct (λ id h.
        let apart : (t.id == id) ≡ false = ground (arith, eq_iff t.id id) in
        arm-find k t p (find t.id p.armed) id apart ∙ same id (ground (arith, h)))
      ∙ ap (fire_due armed (suc k) ts) fired

  -- A pass fires, in the order of the list and each once, the triggers whose armed time is reached, and the
  -- new ones whose first time is.
  pub dispatch_and_arm-fires :
      (fallback : ℕ) (w : W) (armed : List (String × ℕ)) (ts : List Trigger)
      → Distinct ts
      → (dispatch_and_arm fire schedule_of clock fallback now w armed (some ts)).world
        ≡ fire_due armed 0 ts w
  unfolding dispatch_and_arm
  dispatch_and_arm-fires fallback w armed ts distinct =
      pass_over-fires armed 0 ts (record { world = w; armed = armed; wait = fallback }) distinct
        (λ id h. refl)
