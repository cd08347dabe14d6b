-- ===== src/Diagnostics/Verdicts.antt =====
-- What the errors and the summary of a diagnosis say of its issues.
use morph_api.Prelude.{
  String, ◌≡◌, ◌≢◌, ◌↔◌, ◌⊎◌, refl, Bool, true, false, not, none, List, [], ◌∷◌, length, arith, All,
}
use morph_api.Diagnostics.{
  Issue, Diagnostics, is_error, is_warning, is_guard_code, has_errors, select, errors, warnings,
  joined, err, compile_err, summary,
}
use morph_api.Diagnostics.Laws.{IsConsistent, is_other}

-- An issue has one of the two severities of inflow-fusion.
abbrev pub HasKnownSeverity : Issue → Type 0
HasKnownSeverity i = (is_error i ≡ true) ⊎ (is_warning i ≡ true)

-- a compile-time error is a guard's verdict
abbrev pub IsVerdict : Issue → Type 0
IsVerdict i = is_error i ≡ true → is_guard_code i.code ≡ true

select-eq-nil_iff :
    (p : Issue → Bool) (is : List Issue) → (select p is ≡ []) ↔ All (λ i. p i ≡ false) is
unfolding select
select-eq-nil_iff p [] = (λ e. tt, λ h. refl)
select-eq-nil_iff p (i ∷ is) = ground (arith, select-eq-nil_iff p is)

length-eq-zero_iff : (is : List Issue) → (length is ≡ 0) ↔ (is ≡ [])
length-eq-zero_iff [] = (λ h. refl, λ h. refl)
length-eq-zero_iff (i ∷ is) = ground arith

abbrev is_own : Issue → Bool
is_own i = not (is_guard_code i.code)

select-own_iff : (is : List Issue) → (select is_own (select is_error is) ≡ []) ↔ All IsVerdict is
unfolding select
select-own_iff [] = (λ e. tt, λ h. refl)
select-own_iff (i ∷ is) = ground (arith, select-own_iff is)

known_others :
    (is : List Issue) → All HasKnownSeverity is → select is_other is ≡ select is_warning is
unfolding select
known_others [] h = refl
known_others (i ∷ is) h = ground (arith, known_others is h.1)

module _ (issue_error : Issue → String) where
  joined-eq-none_iff : (is : List Issue) → (joined issue_error is ≡ none) ↔ (is ≡ [])
  unfolding joined
  joined-eq-none_iff [] = (λ h. refl, λ h. refl)
  joined-eq-none_iff (i ∷ is) = ground arith

  -- An error text is missing exactly when there is no error.
  pub err-none_iff : (d : Diagnostics) → (err issue_error d ≡ none) ↔ (errors d ≡ [])
  unfolding err
  err-none_iff d = joined-eq-none_iff (errors d)

  -- In a consistent diagnosis there is an error text exactly when the flag is down, and exactly when
  -- `HasErrors` says so.
  pub err-eq-none_iff :
      (d : Diagnostics)
      → IsConsistent d
      → ((err issue_error d ≡ none) ↔ (d.ok ≡ true)) × (d.ok ≡ not (has_errors d))
  unfolding err errors has_errors
  err-eq-none_iff d c = ground (
    arith,
    joined-eq-none_iff (select is_error d.issues),
    length-eq-zero_iff (select is_error d.issues),
  )

  -- `CompileErr` is silent exactly when every error is a verdict of the guard.
  pub compile_err-eq-none_iff :
      (d : Diagnostics) → (compile_err issue_error d ≡ none) ↔ All IsVerdict d.issues
  unfolding compile_err errors
  compile_err-eq-none_iff d = ground (
    arith,
    joined-eq-none_iff (select is_own (select is_error d.issues)),
    select-own_iff d.issues,
  )

  -- The summary of a consistent diagnosis indexes no empty list, if the severities are known.
  pub summary-total :
      (d : Diagnostics)
      → IsConsistent d
      → All HasKnownSeverity d.issues
      → summary issue_error d ≢ none
  unfolding summary errors warnings
  summary-total d c k = ground (arith, known_others d.issues k, c.errors_counted, c.others_counted)
