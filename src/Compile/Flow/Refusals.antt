-- ===== src/Compile/Flow/Refusals.antt =====
-- The issues of a pass that only lowers: one error for each failure, none of them a guard's verdict.
use morph_api.Prelude.{
  ◌+◌, String, ◌≡◌, ◌≢◌, ◌↔◌, refl, ◌∙◌, inl, inr, true, false, Option, none, some, List, [], ◌∷◌,
  ◌==◌, arith, length, All, All-map, Bool-cases, eq_refl,
}
use morph_api.Prelude.Sort.{text_less, All-sort_by, length-sort_by}
use morph_api.Graph.{Node}
use morph_api.Diagnostics.{Issue, Diagnostics, is_error, is_guard_code, select}
use morph_api.Diagnostics.Verdicts.{IsVerdict}
use morph_api.Diagnostics.Laws.{IsConsistent, add-IsConsistent, length-add, All-add_iff}
use morph_api.Compile.Flow.{build_issue, add_found, add_build_issues}
use morph_api.Compile.Nodes.{find, keys, sorted_keys}
use morph_api.Compile.Nodes.{Failure}

-- an error that no guard gave
abbrev pub IsOwn : Issue → Type 0
IsOwn i = (is_error i ≡ true) × (is_guard_code i.code ≡ false)

pub IsOwn-errors : (is : List Issue) → All IsOwn is → (select is_error is ≡ []) ↔ (is ≡ [])
unfolding select
IsOwn-errors [] h = (λ e. refl, λ e. refl)
IsOwn-errors (i ∷ is) h = ground (arith, h.0)

pub IsOwn-verdicts : (is : List Issue) → All IsOwn is → All IsVerdict is ↔ (is ≡ [])
IsOwn-verdicts [] h = (λ e. refl, λ e. tt)
IsOwn-verdicts (i ∷ is) h = ground (arith, h.0)

pub length-nil_iff :
    {A B : Type 0} (xs : List A) (ys : List B) → length xs ≡ length ys → (xs ≡ []) ↔ (ys ≡ [])
length-nil_iff [] [] h = (λ e. refl, λ e. refl)
length-nil_iff [] (y ∷ ys) h = absurd (omega (arith, h))
length-nil_iff (x ∷ xs) [] h = absurd (omega (arith, h))
length-nil_iff (x ∷ xs) (y ∷ ys) h = (λ e. cc e, λ e. cc e)

build_issue-IsOwn : (nodes : List Node) (id : String) (f : Failure) → IsOwn (build_issue nodes id f)
unfolding build_issue
build_issue-IsOwn nodes id f = ground arith

module _ (nodes : List Node) (errs : List (String × Failure)) where
  add_found-IsOwn :
      (id : String) (o : Option Failure) (d : Diagnostics)
      → All IsOwn d.issues
      → All IsOwn (add_found nodes id o d).issues
  add_found-IsOwn id none d h = h
  add_found-IsOwn id (some f) d h =
      (All-add_iff IsOwn d (build_issue nodes id f ∷ [])).1 (h, (build_issue-IsOwn nodes id f, tt))

  pub add_build_issues-IsOwn :
      (ids : List String) (d : Diagnostics)
      → All IsOwn d.issues
      → All IsOwn (add_build_issues nodes errs ids d).issues
  unfolding add_build_issues
  add_build_issues-IsOwn [] d h = h
  add_build_issues-IsOwn (id ∷ ids) d h =
      add_build_issues-IsOwn ids (add_found nodes id (find id errs) d)
        (add_found-IsOwn id (find id errs) d h)

  add_found-IsConsistent :
      (id : String) (o : Option Failure) (d : Diagnostics)
      → IsConsistent d
      → IsConsistent (add_found nodes id o d)
  add_found-IsConsistent id none d h = h
  add_found-IsConsistent id (some f) d h = add-IsConsistent d (build_issue nodes id f ∷ [])

  pub add_build_issues-IsConsistent :
      (ids : List String) (d : Diagnostics)
      → IsConsistent d
      → IsConsistent (add_build_issues nodes errs ids d)
  unfolding add_build_issues
  add_build_issues-IsConsistent [] d h = h
  add_build_issues-IsConsistent (id ∷ ids) d h =
      add_build_issues-IsConsistent ids (add_found nodes id (find id errs) d)
        (add_found-IsConsistent id (find id errs) d h)

  length-add_found :
      (id : String) (o : Option Failure) (d : Diagnostics)
      → o ≢ none
      → length (add_found nodes id o d).issues ≡ length d.issues + 1
  length-add_found id none d h = absurd (h refl)
  length-add_found id (some f) d h = length-add d (build_issue nodes id f ∷ [])

  pub length-add_build_issues :
      (ids : List String) (d : Diagnostics)
      → All (λ id. find id errs ≢ none) ids
      → length (add_build_issues nodes errs ids d).issues ≡ length d.issues + length ids
  unfolding add_build_issues
  length-add_build_issues [] d h = omega arith
  length-add_build_issues (id ∷ ids) d (p, h) = omega (
    arith,
    length-add_build_issues ids (add_found nodes id (find id errs) d) h,
    length-add_found id (find id errs) d p,
  )

module _ {A : Type 0} where
  find-skip :
      (i : String) (a : A) (m : List (String × A)) (k : String)
      → find k m ≢ none
      → find k ((i, a) ∷ m) ≢ none
  unfolding find
  find-skip i a m k h = elim (Bool-cases (i == k)) [ inl e ↦ rw e (λ q. cc q) | inr e ↦ rw e h ]

  find-keys : (m : List (String × A)) → All (λ k. find k m ≢ none) (keys m)
  unfolding find keys
  find-keys [] = tt
  find-keys ((i, a) ∷ m) =
      (rw (eq_refl i) (λ q. cc q), All-map (find-skip i a m) (keys m) (find-keys m))

  length-keys : (m : List (String × A)) → length (keys m) ≡ length m
  unfolding keys
  length-keys [] = refl
  length-keys ((i, a) ∷ m) = omega (arith, length-keys m)

  pub sorted_keys-found : (m : List (String × A)) → All (λ k. find k m ≢ none) (sorted_keys m)
  unfolding sorted_keys
  sorted_keys-found m = All-sort_by text_less (λ k. find k m ≢ none) (keys m) (find-keys m)

  pub length-sorted_keys : (m : List (String × A)) → length (sorted_keys m) ≡ length m
  unfolding sorted_keys
  length-sorted_keys m = length-sort_by text_less (keys m) ∙ length-keys m
