-- ===== src/Prelude/Sort.antt =====
-- Sorting by a test, as `sort.Slice` and `sort.Strings` do, and the order of texts.
use Prim.Native.Nat.{ℕ, ◌+◌}
use Prim.Native.Char.{code}
use Prim.Native.String.{String, [], ◌∷◌}
use mathlib.Core.Path.{◌≡◌, refl}
use mathlib.Core.Bool.{Bool, true, false, ◌&&◌, ◌||◌}
use mathlib.Core.List.{List, [], ◌∷◌}
use native.Mathlib.Omega.{arith}
use morph_api.Prelude.Tests.{ltb, eqb, if◌then◌else◌, Bool-cases, if-split}
use morph_api.Prelude.Lists.{length, All}
use mathlib.Core.Logic.{inl, inr}

-- `s < t`, by code points, which is the order of the bytes of UTF-8
unfoldable pub text_less : String → String → Bool
text_less s [] = false
text_less [] (d ∷ t) = true
text_less (c ∷ s) (d ∷ t) = ltb (code c) (code d) || eqb (code c) (code d) && text_less s t

pub text_less-asym : (s t : String) → text_less s t ≡ true → text_less t s ≡ false
unfolding text_less
text_less-asym s [] h = ground arith
text_less-asym [] (d ∷ t) h = refl
text_less-asym (c ∷ s) (d ∷ t) h = ground (arith, text_less-asym s t)

module _ {ℓ} {A : Type ℓ} (less : A → A → Bool) where
  unfoldable pub insert_by : A → List A → List A
  insert_by a [] = a ∷ []
  insert_by a (b ∷ bs) = let later = insert_by a bs in if less b a then b ∷ later else a ∷ b ∷ bs

  unfoldable pub sort_by : List A → List A
  unfolding insert_by
  sort_by [] = []
  sort_by (a ∷ xs) = insert_by a (sort_by xs)

  -- No element is less than the one before it.
  unfoldable pub in_order : List A → Bool
  in_order [] = true
  in_order (a ∷ []) = true
  in_order (a ∷ b ∷ bs) = (if less b a then false else true) && in_order (b ∷ bs)

  insert_by-in_order :
      ((a b : A) → less a b ≡ true → less b a ≡ false)
      → (a : A) (bs : List A) → in_order bs ≡ true
      → in_order (insert_by a bs) ≡ true
  unfolding insert_by in_order
  insert_by-in_order asym a [] h = refl
  insert_by-in_order asym a (b ∷ []) h = ground (arith, asym b a)
  insert_by-in_order asym a (b ∷ c ∷ bs) h =
      ground (arith, asym b a, insert_by-in_order asym a (c ∷ bs) (ground arith))

  -- Sorting by an asymmetric test puts the elements in its order.
  pub sort_by-in_order :
      ((a b : A) → less a b ≡ true → less b a ≡ false)
      → (xs : List A) → in_order (sort_by xs) ≡ true
  unfolding sort_by in_order
  sort_by-in_order asym [] = refl
  sort_by-in_order asym (a ∷ xs) = insert_by-in_order asym a (sort_by xs) (sort_by-in_order asym xs)

-- a measure of the elements, added up
abbrev pub sum {ℓ} : {A : Type ℓ} → (A → ℕ) → List A → ℕ
sum f [] = 0
sum f (a ∷ xs) = f a + sum f xs

pub sum-sort_by {ℓ} :
    {A : Type ℓ} (less : A → A → Bool) (f : A → ℕ) (xs : List A)
    → sum f (sort_by less xs) ≡ sum f xs
unfolding sort_by
sum-sort_by less f [] = refl
sum-sort_by less f (a ∷ xs) =
    omega (arith, sum-insert_by less f a (sort_by less xs), sum-sort_by less f xs)
  where
    sum-insert_by :
        {A : Type ℓ} (less : A → A → Bool) (f : A → ℕ) (a : A) (bs : List A)
        → sum f (insert_by less a bs) ≡ f a + sum f bs
    sum-insert_by less f a [] = refl
    sum-insert_by less f a (b ∷ bs) = ground (arith, sum-insert_by less f a bs)

module _ {ℓ κ} {A : Type ℓ} (less : A → A → Bool) (P : A → Type κ) where
  All-insert_by : (a : A) (bs : List A) → P a → All P bs → All P (insert_by less a bs)
  unfolding insert_by
  All-insert_by a [] p h = (p, tt)
  All-insert_by a (b ∷ bs) p (q, h) = elim (Bool-cases (less b a)) [
    | inl e ↦ rw e (q, All-insert_by a bs p h)
    | inr e ↦ rw e (p, (q, h))
  ]

  pub All-sort_by : (xs : List A) → All P xs → All P (sort_by less xs)
  unfolding sort_by
  All-sort_by [] h = tt
  All-sort_by (a ∷ xs) (p, h) = All-insert_by a (sort_by less xs) p (All-sort_by xs h)

module _ {ℓ} {A : Type ℓ} (less : A → A → Bool) where
  length-insert_by : (a : A) (bs : List A) → length (insert_by less a bs) ≡ length bs + 1
  unfolding insert_by
  length-insert_by a [] = refl
  length-insert_by a (b ∷ bs) = elim (Bool-cases (less b a)) [
    | inl e ↦ rw e (omega (arith, length-insert_by a bs))
    | inr e ↦ rw e (omega arith)
  ]

  pub length-sort_by : (xs : List A) → length (sort_by less xs) ≡ length xs
  unfolding sort_by
  length-sort_by [] = refl
  length-sort_by (a ∷ xs) = omega (arith, length-insert_by a (sort_by less xs), length-sort_by xs)

module _ {ℓ κ} {A : Type ℓ} (less : A → A → Bool) (P : A → Type κ) where
  All-uninsert_by : (a : A) (bs : List A) → All P (insert_by less a bs) → P a × All P bs
  unfolding insert_by
  All-uninsert_by a [] h = h
  All-uninsert_by a (b ∷ bs) h =
      if-split (λ (xs : List A). All P xs → P a × All P (b ∷ bs)) (less b a) _ _
        (λ e (q, k). let (p, r) = All-uninsert_by a bs k in (p, (q, r))) (λ e k. k) h

  pub All-unsort_by : (xs : List A) → All P (sort_by less xs) → All P xs
  unfolding sort_by
  All-unsort_by [] h = tt
  All-unsort_by (a ∷ xs) h =
      let (p, r) = All-uninsert_by a (sort_by less xs) h in (p, All-unsort_by xs r)
