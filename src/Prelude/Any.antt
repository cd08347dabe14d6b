-- ===== src/Prelude/Any.antt =====
-- Some element of a list, as a type, and what sorting and membership have to do with it.
use Prim.Native.String.{String}
use mathlib.Core.Path.{◌≡◌}
use mathlib.Core.Bool.{Bool, true}
use mathlib.Core.List.{List, [], ◌∷◌}
use mathlib.Core.Logic.{◌⊎◌, inl, inr}
use text.Mathlib.Text.{◌==◌}
use text.Mathlib.TextEquality.{eq_iff}
use native.Mathlib.Omega.{arith}
use morph_api.Prelude.Tests.{Bool-cases, if-split}
use morph_api.Prelude.Membership.{mem}
use morph_api.Prelude.Sort.{sort_by, insert_by}

-- some element has the property
abbrev pub Any {ℓ} : {A : Type ℓ} → (A → Type 0) → List A → Type 0
Any P [] = ⊥
Any P (x ∷ xs) = P x ⊎ Any P xs

Any-insert_by :
    {A : Type 0} (less : A → A → Bool) (P : A → Type 0) (a : A) (bs : List A)
    → P a ⊎ Any P bs
    → Any P (insert_by less a bs)
unfolding insert_by
Any-insert_by less P a [] h = h
Any-insert_by less P a (b ∷ bs) h =
    if-split (Any P) (less b a) _ _
      (λ e. elim h [
        | inl p ↦ inr (Any-insert_by less P a bs (inl p))
        | inr k ↦ elim k [ inl p ↦ inl p | inr q ↦ inr (Any-insert_by less P a bs (inr q)) ]
      ])
      (λ e. h)

pub Any-sort_by :
    {A : Type 0} (less : A → A → Bool) (P : A → Type 0) (xs : List A)
    → Any P xs
    → Any P (sort_by less xs)
unfolding sort_by
Any-sort_by less P [] h = h
Any-sort_by less P (a ∷ xs) (inl p) = Any-insert_by less P a (sort_by less xs) (inl p)
Any-sort_by less P (a ∷ xs) (inr h) =
    Any-insert_by less P a (sort_by less xs) (inr (Any-sort_by less P xs h))

pub mem-Any : (x : String) (xs : List String) → mem x xs ≡ true → Any (λ y. y ≡ x) xs
unfolding mem
mem-Any x [] h = absurd (cc h)
mem-Any x (y ∷ ys) h = elim (Bool-cases (y == x)) [
  | inl e ↦ inl (ground (arith, eq_iff y x))
  | inr e ↦ inr (mem-Any x ys (ground (arith, e, h)))
]
