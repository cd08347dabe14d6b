-- ===== src/Patch/Reach/Laws.antt =====
-- `reaches` decides reachability.
use mathlib.Core.List.{reverse, reverse-cons}
use morph_api.Prelude.{
  ℕ, zero, suc, ◌+◌, ◌≤◌, String, true, false, ◌||◌, ◌≡◌, ◌↔◌, refl, subst, ◌∙◌, ap, inl, inr, List,
  [], ◌∷◌, ◌++◌, ◌==◌, eq_iff, eq_refl, length, length-append, if◌then◌else◌, arith, Bool-cases,
}
use morph_api.Prelude.Membership.{mem, mem-append}
use morph_api.Graph.{Edge}
use morph_api.Patch.Reach.{targets, search_loop, reaches}

-- b is reached from a along the edges, in any number of steps.
pub data Leads (es : List Edge) : String → String → Type 0 where
  here : {a : String} → Leads es a a
  step : {a m b : String} → mem m (targets a es) ≡ true → Leads es m b → Leads es a b

mem-reverse : (x : String) (xs : List String) → mem x (reverse xs) ≡ mem x xs
unfolding mem
mem-reverse x [] = refl
mem-reverse x (y ∷ xs) =
    rw (reverse-cons y xs) (mem-append x (reverse xs) (y ∷ []) ∙ ground (arith, mem-reverse x xs))

-- the edges whose source has not been visited
unseen : List String → List Edge → ℕ
unseen seen [] = 0
unseen seen (e ∷ es) = (if mem e.source seen then 0 else 1) + unseen seen es

unseen-visit :
    (n : String) (seen : List String) (es : List Edge)
    → mem n seen ≡ false
    → unseen seen es ≡ unseen (n ∷ seen) es + length (targets n es)
unfolding unseen mem targets
unseen-visit n seen [] h = refl
unseen-visit n seen (e ∷ es) h =
    ground (arith, unseen-visit n seen es h, eq_iff e.source n, eq_iff n e.source)

size-reverse : (xs : List String) → length (reverse xs) ≡ length xs
size-reverse [] = refl
size-reverse (x ∷ xs) =
    ap length (reverse-cons x xs)
    ∙ omega (arith, length-append (reverse xs) (x ∷ []), size-reverse xs)

-- What holds between two rounds that have not found the goal: what leads out of a visited node is
-- visited or waits on the stack.
record IsOpen (es : List Edge) (to : String) (seen stack : List String) : Type 0 where
  closed :
      (a m : String)
      → mem a seen ≡ true
      → mem m (targets a es) ≡ true
      → (mem m seen || mem m stack) ≡ true
  missed : mem to seen ≡ false

module _ (es : List Edge) (to : String) where
  IsOpen-skip :
      (n : String) (seen stack : List String)
      → mem n seen ≡ true
      → IsOpen es to seen (n ∷ stack)
      → IsOpen es to seen stack
  unfolding mem
  IsOpen-skip n seen stack old h = record {
    closed = λ a m p q. ground (arith, h.closed a m p q, eq_iff n m);
    missed = h.missed;
  }

  IsOpen-visit :
      (n : String) (seen stack : List String)
      → (n == to) ≡ false
      → IsOpen es to seen (n ∷ stack)
      → IsOpen es to (n ∷ seen) (reverse (targets n es) ++ stack)
  unfolding mem
  IsOpen-visit n seen stack other h = record {
    closed = λ a m p q. ground (
      arith,
      h.closed a m,
      eq_iff n a,
      eq_iff n m,
      mem-append m (reverse (targets n es)) stack,
      mem-reverse m (targets n es),
      p,
      q,
    );
    missed = ground (arith, h.missed);
  }

  -- Once the stack is empty nothing visited leads to the goal.
  Leads-missed :
      (seen : List String) {a b : String}
      → Leads es a b
      → b ≡ to
      → IsOpen es to seen []
      → mem a seen ≡ false
  unfolding mem
  Leads-missed seen here e h = rw e h.missed
  Leads-missed seen (step {a} {m} out later) e h =
      ground (arith, h.closed a m, Leads-missed seen later e h, out)

  -- A visit moves edges from those not seen to the stack.
  visit-fits :
      (n : String) (seen stack : List String) (fuel : ℕ)
      → length (n ∷ stack) + unseen seen es ≤ suc fuel
      → mem n seen ≡ false
      → length (reverse (targets n es) ++ stack) + unseen (n ∷ seen) es ≤ fuel
  visit-fits n seen stack fuel fits new = omega (
    arith,
    unseen-visit n seen es new,
    length-append (reverse (targets n es)) stack,
    size-reverse (targets n es),
  )

  mem-visit :
      (a n : String) (seen pushed stack : List String)
      → (mem a (n ∷ seen) || mem a (pushed ++ stack)) ≡ false
      → (mem a seen || mem a (n ∷ stack)) ≡ false
  unfolding mem
  mem-visit a n seen pushed stack h = ground (arith, mem-append a pushed stack)

  search_loop_complete :
      (fuel : ℕ) (seen stack : List String)
      → length stack + unseen seen es ≤ fuel
      → IsOpen es to seen stack
      → search_loop fuel es to seen stack ≡ false
      → (a : String) → Leads es a to
      → (mem a seen || mem a stack) ≡ false
  unfolding search_loop mem
  search_loop_complete fuel seen [] fits h miss a l = ground (arith, Leads-missed seen l refl h)
  search_loop_complete zero seen (n ∷ stack) fits h miss a l = ground arith
  search_loop_complete (suc fuel) seen (n ∷ stack) fits h miss a l =
      elim (Bool-cases (mem n seen)) [
        | inl old ↦ ground (
          arith,
          search_loop_complete fuel seen stack (omega arith) (IsOpen-skip n seen stack old h)
              (ground arith) a l,
          eq_iff n a,
          old,
        )
        | inr new ↦ mem-visit a n seen (reverse (targets n es)) stack (
            search_loop_complete fuel (n ∷ seen) (reverse (targets n es) ++ stack)
              (visit-fits n seen stack fuel fits new) (IsOpen-visit n seen stack (ground arith) h)
              (ground arith) a l)
      ]

Leads-trans : {es : List Edge} {a b c : String} → Leads es a b → Leads es b c → Leads es a c
Leads-trans here l = l
Leads-trans (step out k) l = step out (Leads-trans k l)

module _ (es : List Edge) (to from : String) where
  -- What the stack holds is reached from the start.
  search_loop_sound :
      (fuel : ℕ) (seen stack : List String)
      → ((a : String) → mem a stack ≡ true → Leads es from a)
      → search_loop fuel es to seen stack ≡ true
      → Leads es from to
  unfolding search_loop mem
  search_loop_sound fuel seen [] h found = cc
  search_loop_sound zero seen (n ∷ stack) h found = cc
  search_loop_sound (suc fuel) seen (n ∷ stack) h found =
      let front : Leads es from n = h n (ground (arith, eq_refl n)) in
      let rest : (a : String) → mem a stack ≡ true → Leads es from a =
        λ a m. h a (ground (arith, m)) in
      elim (Bool-cases (n == to)) [
        | inl hit ↦ rw (← (eq_iff n to).0 hit) front
        | inr more ↦ elim (Bool-cases (mem n seen)) [
          | inl old ↦ search_loop_sound fuel seen stack rest (ground arith)
          | inr new ↦
              search_loop_sound fuel (n ∷ seen) (reverse (targets n es) ++ stack)
                (λ a m. elim (Bool-cases (mem a (targets n es))) [
                  | inl out ↦ Leads-trans front (step out here)
                  | inr other ↦ rest a (
                      ground (
                        arith,
                        m,
                        mem-append a (reverse (targets n es)) stack,
                        mem-reverse a (targets n es),
                      ))
                ])
                (ground arith)
        ]
      ]

unseen-nil : (es : List Edge) → unseen [] es ≡ length es
unfolding unseen mem
unseen-nil [] = refl
unseen-nil (e ∷ es) = omega (arith, unseen-nil es)

-- The search answers yes exactly when the second node is reached from the first along the edges, in
-- any number of steps, on every graph, cyclic or not: a node reaches itself.
pub reaches_iff :
    (es : List Edge) (from to : String) → (reaches es from to ≡ true) ↔ Leads es from to
unfolding reaches
reaches_iff es from to = (
  search_loop_sound es to from (1 + length es) [] (from ∷ [])
      (λ a m. subst (λ s. Leads es from s) (only a m) here),
  λ l. elim (Bool-cases (reaches es from to)) [
    | inl found ↦ found
    | inr miss ↦ absurd (
        unstarted (
          search_loop_complete es to (1 + length es) [] (from ∷ []) (omega (arith, unseen-nil es))
            (unfold mem in record { closed = λ a m p q. cc; missed = refl }) miss from l))
  ],
)
  where
    only : (a : String) → mem a (from ∷ []) ≡ true → from ≡ a
    only a m = unfold mem in ground (arith, eq_iff from a)

    unstarted : (mem from [] || mem from (from ∷ [])) ≡ false → ⊥
    unstarted h = unfold mem in ground (arith, eq_refl from)
