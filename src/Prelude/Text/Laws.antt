-- ===== src/Prelude/Text/Laws.antt =====
-- Laws of the text functions.
use Prim.Native.Nat.{ℕ, ◌+◌}
use Prim.Native.Char.{code}
use Prim.Native.String.{String, [], ◌∷◌}
use mathlib.Core.Path.{◌≡◌, refl, ap}
use mathlib.Core.Bool.{Bool, false, ◌||◌}
use mathlib.Core.Logic.{◌≢◌, inl, inr}
use text.Mathlib.Text.{◌==◌}
use text.Mathlib.TextEquality.{eq_iff}
use text.Mathlib.TextLemmas.{head-eq_of_cons-eq, tail-eq_of_cons-eq}
use native.Mathlib.Omega.{arith}
use morph_api.Prelude.Tests.{Bool-cases}
use morph_api.Prelude.Text.{
  append, size, is_empty, trim_left, trim_right, trim, trim_space, is_space, any,
}

pub ==-eq-false : {s t : String} → s ≢ t → (s == t) ≡ false
==-eq-false {s} {t} h = ground (arith, eq_iff s t)

pub size-append : (s t : String) → size (append s t) ≡ size s + size t
size-append [] t = omega arith
size-append (c ∷ s) t = omega (arith, size-append s t)

-- A text that ends two texts leaves two that are equal when they are.
pub append_cancel_right : (s t u : String) → append s u ≡ append t u → s ≡ t
append_cancel_right [] [] u h = refl
append_cancel_right [] (c ∷ t) u h = absurd (omega (arith, ap size h, size-append (c ∷ t) u))
append_cancel_right (c ∷ s) [] u h = absurd (omega (arith, ap size h, size-append (c ∷ s) u))
append_cancel_right (c ∷ s) (d ∷ t) u h =
    let first = head-eq_of_cons-eq h in
    let rest = append_cancel_right s t u (tail-eq_of_cons-eq h) in rw (first, rest) refl

pub append_cancel_left : (s t u : String) → append s t ≡ append s u → t ≡ u
append_cancel_left [] t u h = h
append_cancel_left (c ∷ s) t u h = append_cancel_left s t u (tail-eq_of_cons-eq h)

pub any-append : (p : ℕ → Bool) (s t : String) → any p (append s t) ≡ (any p s || any p t)
unfolding any
any-append p [] t = refl
any-append p (c ∷ s) t = ground (arith, any-append p s t)

-- A text whose last character stays is trimmed to itself, whatever stands before it.
pub trim_right-append :
    (p : ℕ → Bool) (s t : String)
    → is_empty t ≡ false
    → trim_right p t ≡ t
    → trim_right p (append s t) ≡ append s t
unfolding trim_right
trim_right-append p [] t ne h = h
trim_right-append p (c ∷ s) t ne h =
    rw (trim_right-append p s t ne h) (ground (arith, is_empty-append s t))
  where
    is_empty-append : (s t : String) → is_empty t ≡ false → is_empty (append s t) ≡ false
    is_empty-append [] t e = e
    is_empty-append (c ∷ s) t e = refl

-- So is a text none of whose own characters is trimmed, before a text that is trimmed to itself.
pub trim_right-append_all :
    (p : ℕ → Bool) (s t : String)
    → any p s ≡ false
    → trim_right p t ≡ t
    → trim_right p (append s t) ≡ append s t
unfolding trim_right any
trim_right-append_all p [] t no_p h = h
trim_right-append_all p (c ∷ s) t no_p h =
    rw (trim_right-append_all p s t (ground arith) h) (ground arith)

trim_left_stop :
    (p : ℕ → Bool) (s : String)
    → trim_left p (trim_right p (trim_left p s)) ≡ trim_right p (trim_left p s)
unfolding trim_left trim_right
trim_left_stop p [] = refl
trim_left_stop p (c ∷ s) = elim (Bool-cases (p (code c))) [
  | inl e ↦ rw e (trim_left_stop p s)
  | inr e ↦ rw (e, trim_right) (ground arith)
]

trim_right_idem : (p : ℕ → Bool) (s : String) → trim_right p (trim_right p s) ≡ trim_right p s
unfolding trim_right
trim_right_idem p [] = refl
trim_right_idem p (c ∷ s) = ground (arith, trim_right_idem p s)

pub trim_idem : (p : ℕ → Bool) (s : String) → trim p (trim p s) ≡ trim p s
unfolding trim
trim_idem p s = rw (trim_left_stop p s) (trim_right_idem p (trim_left p s))

pub trim_space_idem : (s : String) → trim_space (trim_space s) ≡ trim_space s
unfolding trim_space
trim_space_idem s = trim_idem is_space s
