-- ===== src/Patch/Merge/Ids.antt =====
-- The ids that `stampIDs` gives.
use Prim.Native.String.{[], ◌∷◌}
use morph_api.Prelude.{
  ℕ, ◌+◌, String, code, Bool, true, false, not, List, [], ◌∷◌, ◌==◌, ◌≡◌, arith, inl, inr,
  Bool-cases,
}
use morph_api.Prelude.Text.{
  append, is_empty, is_space, trim, trim_left, trim_right, trim_space, any,
}
use morph_api.Prelude.Text.Laws.{any-append, ==-eq-false}
use text.Mathlib.TextLemmas.{cons≢nil}
use morph_api.Json.{Value, str, Fields, insert}
use morph_api.Patch.Values.{get, as_str, as_rows, or_empty, is_blank}
use morph_api.Patch.Merge.{stamp_row, stamp_from, stamp_ids}

-- A text that is all spaces, by its characters.
trim_left-empty :
    (p : ℕ → Bool) (s : String)
    → any (λ c. not (p c)) s ≡ true
    → any (λ c. not (p c)) (trim_left p s) ≡ true
unfolding any trim_left
trim_left-empty p [] h = h
trim_left-empty p (c ∷ s) h = elim (Bool-cases (p (code c))) [
  | inl e ↦ rw e (trim_left-empty p s (ground arith))
  | inr e ↦ rw (e, any) (ground arith)
]

trim_right-empty :
    (p : ℕ → Bool) (s : String) → any (λ c. not (p c)) s ≡ true → is_empty (trim_right p s) ≡ false
unfolding any trim_right
trim_right-empty p [] h = ground arith
trim_right-empty p (c ∷ s) h = ground (arith, trim_right-empty p s)

filled-ne : (t : String) → is_empty t ≡ false → (t == "") ≡ false
filled-ne [] e = ground arith
filled-ne (c ∷ t) e = ==-eq-false cons≢nil

marked-ne : (s : String) → any (λ c. not (is_space c)) s ≡ true → is_blank s ≡ false
unfolding trim_space trim
marked-ne s h =
    filled-ne (trim_right is_space (trim_left is_space s))
      (trim_right-empty is_space (trim_left is_space s) (trim_left-empty is_space s h))

-- An id that is drawn is not blank: it holds a dash.
drawn-ne : (prefix rest : String) → is_blank (append prefix (append "-" rest)) ≡ false
drawn-ne prefix rest = marked-ne (append prefix (append "-" rest)) (
    rw (any-append (λ c. not (is_space c)) prefix (append "-" rest))
      (unfold any is_space in ground arith))

-- A row that had an id is as it was; one that had none is given an id that is not blank.
pub data IsStamped (row : Fields) : Fields → Type 0 where
  kept : is_blank (as_str (get "id" row)) ≡ false → IsStamped row row
  drawn :
      (id : String)
      → is_blank (as_str (get "id" row)) ≡ true
      → is_blank id ≡ false
      → IsStamped row (insert "id" (str id) row)

-- Row by row.
pub data AllStamped : List Fields → List Fields → Type 0 where
  none_left : AllStamped [] []
  next :
      {r s : Fields} {rs ss : List Fields}
      → IsStamped r s
      → AllStamped rs ss
      → AllStamped (r ∷ rs) (s ∷ ss)

module _ (short_id : ℕ → String) (prefix : String) where
  stamp_row-IsStamped :
      (n i : ℕ) (row : Fields) → IsStamped row (stamp_row short_id prefix n i row).0
  unfolding stamp_row
  stamp_row-IsStamped n i row = elim (Bool-cases (is_blank (as_str (get "id" row)))) [
    | inl e ↦ rw e (drawn _ e (drawn-ne prefix _))
    | inr e ↦ rw e (kept e)
  ]

  stamp_from-AllStamped :
      (rows : List Fields) (n i : ℕ) → AllStamped rows (stamp_from short_id prefix n i rows).0
  unfolding stamp_from
  stamp_from-AllStamped [] n i = none_left
  stamp_from-AllStamped (r ∷ rs) n i =
      next (stamp_row-IsStamped n i r)
        (stamp_from-AllStamped rs (stamp_row short_id prefix n i r).1 (i + 1))

  -- Stamping keeps the rows and their order: a row that has an id is kept as it is, and one that has
  -- none gets an id that is not blank, and nothing else.
  pub stamp_ids-AllStamped :
      (n : ℕ) (v : Value) → AllStamped (or_empty (as_rows v)) (stamp_ids short_id prefix n v).0
  unfolding stamp_ids
  stamp_ids-AllStamped n v = stamp_from-AllStamped (or_empty (as_rows v)) n 0
