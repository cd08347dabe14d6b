-- ===== src/Diagnostics/Laws.antt =====
-- Adding issues keeps the order, the counts and the flag of a diagnosis right.
use mathlib.Core.List.{append-nil}
use morph_api.Prelude.{
  ◌≡◌, ◌↔◌, refl, ◌∙◌, inl, inr, Bool, true, false, not, List, [], ◌∷◌, ◌++◌, ◌+◌, length,
  length-append, eqb, arith, Bool-cases, All,
}
use morph_api.Diagnostics.{
  Issue, Diagnostics, is_error, select, errors, insert_stable, sort_stable, error_first, count, add,
}

abbrev pub is_other : Issue → Bool
is_other i = not (is_error i)

select-append :
    (p : Issue → Bool) (xs ys : List Issue) → select p (xs ++ ys) ≡ select p xs ++ select p ys
unfolding select
select-append p [] ys = refl
select-append p (x ∷ xs) ys = ground (arith, select-append p xs ys)

-- An error goes to the front, and any other issue behind the errors.
insert_stable-error :
    (i : Issue) (js : List Issue) → is_error i ≡ true → insert_stable error_first i js ≡ i ∷ js
unfolding insert_stable
insert_stable-error i [] h = refl
insert_stable-error i (j ∷ js) h = ground arith

insert_stable-other :
    (i : Issue) (is js : List Issue)
    → is_error i ≡ false
    → insert_stable error_first i (select is_error is ++ select is_other js)
      ≡ select is_error is ++ i ∷ select is_other js
unfolding insert_stable select
insert_stable-other i [] [] h = refl
insert_stable-other i [] (j ∷ js) h = ground (arith, insert_stable-other i [] js h)
insert_stable-other i (k ∷ is) js h = ground (arith, insert_stable-other i is js h)

sort_stable-select :
    (is : List Issue) → sort_stable error_first is ≡ select is_error is ++ select is_other is
unfolding sort_stable select
sort_stable-select [] = refl
sort_stable-select (i ∷ is) = elim (Bool-cases (is_error i)) [
  | inl e ↦ rw (sort_stable-select is) (rw e (insert_stable-error i _ e))
  | inr e ↦ rw (sort_stable-select is) (rw e (insert_stable-other i is is e))
]

count-select : (p : Issue → Bool) (is : List Issue) → count p is ≡ length (select p is)
unfolding count select
count-select p [] = refl
count-select p (i ∷ is) = ground (arith, count-select p is)

-- A diagnosis whose list, counts and flag belong together.
pub record IsConsistent (d : Diagnostics) : Type 0 where
  pub sorted : d.issues ≡ select is_error d.issues ++ select is_other d.issues
  pub errors_counted : d.error_count ≡ length (select is_error d.issues)
  pub others_counted : d.warning_count ≡ length (select is_other d.issues)
  pub flagged : d.ok ≡ eqb d.error_count 0

select-select_self : (p : Issue → Bool) (is : List Issue) → select p (select p is) ≡ select p is
unfolding select
select-select_self p [] = refl
select-select_self p (i ∷ is) = ground (arith, select-select_self p is)

select-error_of_other : (is : List Issue) → select is_error (select is_other is) ≡ []
unfolding select
select-error_of_other [] = refl
select-error_of_other (i ∷ is) = ground (arith, select-error_of_other is)

select-other_of_error : (is : List Issue) → select is_other (select is_error is) ≡ []
unfolding select
select-other_of_error [] = refl
select-other_of_error (i ∷ is) = ground (arith, select-other_of_error is)

select-sorted :
    (is : List Issue)
    → (select is_error (sort_stable error_first is) ≡ select is_error is)
      × (select is_other (sort_stable error_first is) ≡ select is_other is)
select-sorted is = rw (sort_stable-select is) (
  simp (select-append, select-select_self, select-error_of_other, append-nil),
  simp (select-append, select-select_self, select-other_of_error),
)

-- After an `add` the list has the errors first, the counts are those of the list, and the flag says
-- whether an error was found, whatever the diagnosis held before.
pub add-IsConsistent : (d : Diagnostics) (new : List Issue) → IsConsistent (add d new)
unfolding add
add-IsConsistent d new =
    let is = d.issues ++ new in
    let (es, os) = select-sorted is in
    record {
      sorted = rw (es, os) (sort_stable-select is);
      errors_counted = count-select is_error (sort_stable error_first is);
      others_counted = count-select is_other (sort_stable error_first is);
      flagged = refl;
    }

-- The list after an `add`: the errors that were there, the new errors, then the other issues that
-- were there and the new ones, each group in its order.
pub issues-add :
    (d : Diagnostics) (new : List Issue)
    → (add d new).issues
      ≡ (errors d ++ select is_error new) ++ (select is_other d.issues ++ select is_other new)
unfolding add errors
issues-add d new = sort_stable-select (d.issues ++ new) ∙ simp select-append

length-insert_stable :
    (less : Issue → Issue → Bool) (i : Issue) (js : List Issue)
    → length (insert_stable less i js) ≡ length js + 1
unfolding insert_stable
length-insert_stable less i [] = refl
length-insert_stable less i (j ∷ js) = ground (arith, length-insert_stable less i js)

length-sort_stable :
    (less : Issue → Issue → Bool) (is : List Issue) → length (sort_stable less is) ≡ length is
unfolding sort_stable
length-sort_stable less [] = refl
length-sort_stable less (i ∷ is) =
    omega (arith, length-insert_stable less i (sort_stable less is), length-sort_stable less is)

-- An `add` loses no issue and invents none.
pub length-add :
    (d : Diagnostics) (new : List Issue) → length (add d new).issues ≡ length d.issues + length new
unfolding add
length-add d new =
    omega (arith, length-sort_stable error_first (d.issues ++ new), length-append d.issues new)

module _ (P : Issue → Type 0) where
  All-insert_stable :
      (less : Issue → Issue → Bool) (i : Issue) (js : List Issue)
      → All P (insert_stable less i js) ↔ (P i × All P js)
  unfolding insert_stable
  All-insert_stable less i [] = (λ h. h, λ h. h)
  All-insert_stable less i (j ∷ js) = elim (Bool-cases (less j i)) [
    | inl e ↦ rw e (
        (
          λ h. let (p, q) = (All-insert_stable less i js).0 h.1 in (p, (h.0, q)),
          λ h. (h.1.0, (All-insert_stable less i js).1 (h.0, h.1.1)),
        ))
    | inr e ↦ rw e (λ h. h, λ h. h)
  ]

  All-sort_stable :
      (less : Issue → Issue → Bool) (is : List Issue) → All P (sort_stable less is) ↔ All P is
  unfolding sort_stable
  All-sort_stable less [] = (λ h. h, λ h. h)
  All-sort_stable less (i ∷ is) =
      let (to, from) = All-insert_stable less i (sort_stable less is) in
      let (to', from') = All-sort_stable less is in
      (λ h. let (p, q) = to h in (p, to' q), λ h. from (h.0, from' h.1))

  All-append_iff : (xs ys : List Issue) → All P (xs ++ ys) ↔ (All P xs × All P ys)
  All-append_iff [] ys = (λ h. (tt, h), λ h. h.1)
  All-append_iff (x ∷ xs) ys =
      let (to, from) = All-append_iff xs ys in
      (λ h. let (p, q) = to h.1 in ((h.0, p), q), λ h. (h.0.0, from (h.0.1, h.1)))

  -- What holds of every issue after an `add` is what holds of the old and of the new ones.
  pub All-add_iff :
      (d : Diagnostics) (new : List Issue) → All P (add d new).issues ↔ (All P d.issues × All P new)
  unfolding add
  All-add_iff d new =
      let (to, from) = All-sort_stable error_first (d.issues ++ new) in
      let (to', from') = All-append_iff d.issues new in (λ h. to' (to h), λ h. from (from' h))
