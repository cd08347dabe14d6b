-- ===== src/Prelude/Lists.antt =====
-- Lists measured by native numbers, and predicates on lists by recursion.
use Prim.Native.Nat.{ℕ, suc, ◌+◌}
use mathlib.Core.Path.{◌≡◌}
use mathlib.Core.List.{List, [], ◌∷◌, ◌++◌}
use native.Mathlib.Omega.{arith}

module _ {ℓ} {A : Type ℓ} where
  abbrev pub length : List A → ℕ
  length [] = 0
  length (x ∷ xs) = suc (length xs)

  pub length-append : (xs ys : List A) → length (xs ++ ys) ≡ length xs + length ys
  length-append [] ys = omega arith
  length-append (x ∷ xs) ys = omega (arith, length-append xs ys)

abbrev pub All {ℓ κ} : {A : Type ℓ} → (A → Type κ) → List A → Type κ
All P [] = Unit
All P (x ∷ xs) = P x × All P xs

pub All-append {ℓ κ} :
    {A : Type ℓ} (P : A → Type κ) (xs : List A) {x : A} → All P xs → P x → All P (xs ++ x ∷ [])
All-append P [] h p = (p, tt)
All-append P (y ∷ xs) (q, h) p = (q, All-append P xs h p)

pub All-map {ℓ κ} :
    {A : Type ℓ} {P Q : A → Type κ} → ((a : A) → P a → Q a) → (xs : List A) → All P xs → All Q xs
All-map f [] h = tt
All-map f (x ∷ xs) (p, h) = (f x p, All-map f xs h)

-- A relation between two lists, place by place.
abbrev pub Pointwise {ℓ} : {A : Type ℓ} → (A → A → Type 0) → List A → List A → Type 0
Pointwise P [] [] = Unit
Pointwise P (x ∷ xs) (y ∷ ys) = P x y × Pointwise P xs ys
Pointwise P _ _ = ⊥

pub Pointwise-append {ℓ} :
    {A : Type ℓ} (P : A → A → Type 0) (xs ys : List A) (x y : A)
    → Pointwise P xs ys
    → P x y
    → Pointwise P (xs ++ x ∷ []) (ys ++ y ∷ [])
Pointwise-append P [] [] x y h p = (p, tt)
Pointwise-append P (a ∷ xs) (b ∷ ys) x y (q, h) p = (q, Pointwise-append P xs ys x y h p)
Pointwise-append P [] (b ∷ ys) x y h p = absurd h
Pointwise-append P (a ∷ xs) [] x y h p = absurd h
