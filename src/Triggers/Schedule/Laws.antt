-- ===== src/Triggers/Schedule/Laws.antt =====
-- What is armed after a pass over the schedules, and how long the scheduler sleeps.
use morph_api.Prelude.{
  ℕ, ◌+◌, suc, ◌≤◌, ◌<◌, String, ◌≡◌, refl, true, false, Option, none, some, List, [], ◌∷◌, ◌==◌,
  leb, if◌then◌else◌, arith, eq_iff, if-split, Bool-cases, inl, inr, ◌⊎◌, subst,
}
use morph_api.Prelude.Membership.{mem}
use morph_api.Compile.Nodes.{find, put}
use morph_api.Compile.Flow.Maps.{find-put}
use morph_api.Triggers.{Trigger}
use morph_api.Triggers.Schedule.{
  drop_key, keep_keys, Pass, smaller, until_from, ids_of, next_fire, waiting, rearm, due, arm_new,
  arm, pass_over, dispatch_and_arm,
}

pub find-drop_key :
    (k j : String) (m : List (String × ℕ))
    → find j (drop_key k m) ≡ (if k == j then none else find j m)
unfolding find drop_key
find-drop_key k j [] = ground arith
find-drop_key k j ((i, a) ∷ m) =
    ground (arith, eq_iff i k, eq_iff i j, eq_iff k j, find-drop_key k j m)

find-keep_keys :
    (ids : List String) (j : String) (m : List (String × ℕ))
    → find j (keep_keys ids m) ≡ (if mem j ids then find j m else none)
unfolding find keep_keys
find-keep_keys ids j [] = ground arith
find-keep_keys ids j ((i, a) ∷ m) = ground (arith, eq_iff i j, find-keep_keys ids j m)

smaller_le : (a b : ℕ) → (smaller a b ≤ a) × (smaller a b ≤ b)
smaller_le a b = ground arith

module _ {W : Type 0} (fire : W → Trigger → ℕ → W) (schedule_of : Trigger → Option (ℕ → ℕ))
    (clock : ℕ → ℕ) (now : ℕ) where
  -- A time that is armed is ahead, and the scheduler wakes by then.
  abbrev pub Timely : Pass W → String → Type 0
  Timely p id = (n : ℕ) → find id p.armed ≡ some n → (now < n) × (now + p.wait ≤ n)

  abbrev pub Step : Trigger → Pass W → Pass W → Type 0
  Step t p q = Timely q t.id × ((id : String) → (t.id == id) ≡ false → Timely p id → Timely q id)

  waiting-Step :
      (later : (k : ℕ) → now ≤ clock k) (t : Trigger) (k : ℕ) (p : Pass W) (next : ℕ)
      → find t.id p.armed ≡ some next
      → now < next
      → Step t p (waiting fire schedule_of clock k p next)
  waiting-Step later t k p next there ahead = (
    λ n h.
        let same : next ≡ n = cc (there, h) in
        let within = (smaller_le (until_from (clock k) next) p.wait).0 in ground (arith, later k),
    λ id ne was n h.
        let (before, awake) = was n h in
        let within = (smaller_le (until_from (clock k) next) p.wait).1 in (before, ground arith),
  )

  rearm-Step :
      (later : (k : ℕ) → now ≤ clock k) (t : Trigger) (k : ℕ) (p : Pass W) (o : Option ℕ)
      → ((next : ℕ) → o ≡ some next → now < next)
      → Step t p (rearm fire schedule_of clock k t.id p o)
  rearm-Step later t k p none ahead = (
    λ n h. absurd (ground (arith, eq_iff t.id t.id, find-drop_key t.id t.id p.armed)),
    λ id ne was n h. was n (ground (arith, find-drop_key t.id id p.armed)),
  )
  rearm-Step later t k p (some next) ahead =
      let (own, others) =
        waiting-Step later t k (record p { armed = put t.id next p.armed }) next
          (ground (arith, eq_iff t.id t.id, find-put t.id t.id next p.armed)) (ahead next refl) in
      (
        own,
        λ id ne was. others id ne (λ n h. was n (ground (arith, find-put t.id id next p.armed))),
      )

  next_fire-ahead :
      (o : Option (ℕ → ℕ))
      → ((next : ℕ → ℕ) → o ≡ some next → now < next now)
      → (n : ℕ) → next_fire o now ≡ some n
      → now < n
  next_fire-ahead none sound n h = absurd (cc h)
  next_fire-ahead (some next) sound n h =
      let same : next now ≡ n = cc h in ground (arith, sound next refl)

  -- Each spec that parses has a time to come.
  abbrev pub Recurs : Type 0
  Recurs = (t : Trigger) (next : ℕ → ℕ) → schedule_of t ≡ some next → now < next now

  due-Step :
      (later : (k : ℕ) → now ≤ clock k) (recurs : Recurs) (t : Trigger) (k : ℕ) (p : Pass W)
      (next : ℕ)
      → find t.id p.armed ≡ some next
      → Step t p (due fire schedule_of clock now k t p next)
  due-Step later recurs t k p next there =
      if-split (Step t p) (leb next now) _ _
        (λ e.
          rearm-Step later t k (record p { world = fire p.world t k }) _
            (next_fire-ahead (schedule_of t) (recurs t)))
        (λ e. waiting-Step later t k p next there (ground arith))

  arm_new-Step :
      (later : (k : ℕ) → now ≤ clock k) (recurs : Recurs) (t : Trigger) (k : ℕ) (p : Pass W)
      (o : Option ℕ)
      → find t.id p.armed ≡ none
      → Step t p (arm_new fire schedule_of clock now k t p o)
  arm_new-Step later recurs t k p none free = (λ n h. absurd (cc (free, h)), λ id ne was. was)
  arm_new-Step later recurs t k p (some next) free =
      let (own, others) =
        due-Step later recurs t k (record p { armed = put t.id next p.armed }) next
          (ground (arith, eq_iff t.id t.id, find-put t.id t.id next p.armed)) in
      (
        own,
        λ id ne was. others id ne (λ n h. was n (ground (arith, find-put t.id id next p.armed))),
      )

  arm-Step :
      (later : (k : ℕ) → now ≤ clock k) (recurs : Recurs) (t : Trigger) (k : ℕ) (p : Pass W)
      (o : Option ℕ)
      → find t.id p.armed ≡ o
      → Step t p (arm fire schedule_of clock now k t p o)
  arm-Step later recurs t k p (some next) there = due-Step later recurs t k p next there
  arm-Step later recurs t k p none there = arm_new-Step later recurs t k p _ there

  -- What has been passed over stays timely.
  pass_over-Timely :
      (later : (k : ℕ) → now ≤ clock k) (recurs : Recurs) (k : ℕ) (ts : List Trigger) (p : Pass W)
      (id : String)
      → (mem id (ids_of ts) ≡ true) ⊎ Timely p id
      → Timely (pass_over fire schedule_of clock now k ts p) id
  unfolding pass_over ids_of mem
  pass_over-Timely later recurs k [] p id (inl h) = absurd (cc h)
  pass_over-Timely later recurs k [] p id (inr h) = h
  pass_over-Timely later recurs k (t ∷ ts) p id was =
      let (own, others) = arm-Step later recurs t k p _ refl in
      pass_over-Timely later recurs (suc k) ts
        (arm fire schedule_of clock now k t p (find t.id p.armed)) id
        (elim (Bool-cases (t.id == id)) [
          | inl e ↦ inr (
              subst (λ id. Timely (arm fire schedule_of clock now k t p (find t.id p.armed)) id)
                (ground (arith, eq_iff t.id id)) own)
          | inr e ↦ elim was [ inl h ↦ inl (ground arith) | inr h ↦ inr (others id e h) ]
        ])

  -- When every spec that parses has a time to come, a pass over the schedules leaves nothing armed that is not
  -- enabled, and everything that it leaves armed is ahead of the pass; the sleep ends by the first of
  -- those times.
  pub dispatch_and_arm-Timely :
      (later : (k : ℕ) → now ≤ clock k) (recurs : Recurs) (fallback : ℕ) (w : W)
      (armed : List (String × ℕ)) (ts : List Trigger) (id : String)
      → let p = dispatch_and_arm fire schedule_of clock fallback now w armed (some ts) in
        Timely p id × (mem id (ids_of ts) ≡ false → find id p.armed ≡ none)
  unfolding dispatch_and_arm
  dispatch_and_arm-Timely later recurs fallback w armed ts id =
      let p =
        pass_over fire schedule_of clock now 0 ts
          (record { world = w; armed = armed; wait = fallback }) in
      (
        λ n h.
            let enabled : mem id (ids_of ts) ≡ true =
              ground (arith, find-keep_keys (ids_of ts) id p.armed) in
            pass_over-Timely later recurs 0 ts
              (record { world = w; armed = armed; wait = fallback }) id (inl enabled) n
              (ground (arith, find-keep_keys (ids_of ts) id p.armed)),
        λ off. ground (arith, find-keep_keys (ids_of ts) id p.armed),
      )
