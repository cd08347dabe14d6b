-- ===== src/Tags/Dashes.antt =====
-- The steps that clean a tag: the loop over its dashes ends, and what no step brings back.
use Prim.Native.String.{[], ◌∷◌}
use morph_api.Prelude.{
  ℕ, zero, suc, ◌≤◌, ◌<◌, String, code, Bool, true, false, ◌&&◌, ◌||◌, [], ◌∷◌, ◌≡◌, refl, arith,
  inl, inr, Bool-cases,
}
use morph_api.Prelude.Text.{
  size, contains, has_prefix, trim, trim_left, trim_right, trim_space, to_lower, any, is_empty,
}
use morph_api.Tags.{
  is_dash, is_dropped, is_blank_char, dash_map, halve_dashes, squeeze, clean_tag, take_text,
}

-- Two dashes in a row, by recursion.
pub has_pair : String → Bool
has_pair [] = false
has_pair (c ∷ []) = false
has_pair (c ∷ d ∷ s) = is_dash (code c) && is_dash (code d) || has_pair (d ∷ s)

pub has_pair-lem : (s : String) → contains "--" s ≡ has_pair s
unfolding has_pair contains has_prefix
has_pair-lem [] = refl
has_pair-lem (c ∷ []) = ground arith
has_pair-lem (c ∷ d ∷ s) = rw (has_pair-lem (d ∷ s)) (ground arith)

halve-size : (s : String) → size (halve_dashes s) ≤ size s
unfolding halve_dashes
halve-size [] = omega arith
halve-size (c ∷ []) = omega arith
halve-size (c ∷ d ∷ s) = ground (arith, halve-size s, halve-size (d ∷ s))

halve-shorter : (s : String) → has_pair s ≡ true → size (halve_dashes s) < size s
unfolding halve_dashes has_pair
halve-shorter [] h = ground arith
halve-shorter (c ∷ []) h = ground arith
halve-shorter (c ∷ d ∷ s) h = ground (arith, halve-size s, halve-shorter (d ∷ s))

-- The fuel is enough: the loop ends in a text without two dashes in a row.
squeeze-ends : (fuel : ℕ) (s : String) → size s ≤ fuel → has_pair (squeeze fuel s) ≡ false
unfolding squeeze has_pair
squeeze-ends zero [] h = refl
squeeze-ends zero (c ∷ s) h = ground arith
squeeze-ends (suc fuel) s h = elim (Bool-cases (has_pair s)) [
  | inl e ↦
      rw (has_pair-lem s, e) (squeeze-ends fuel (halve_dashes s) (omega (arith, halve-shorter s e)))
  | inr e ↦ rw (has_pair-lem s, e) e
]

halve-any : (p : ℕ → Bool) (s : String) → any p s ≡ false → any p (halve_dashes s) ≡ false
unfolding halve_dashes any
halve-any p [] h = refl
halve-any p (c ∷ []) h = h
halve-any p (c ∷ d ∷ s) h = elim (Bool-cases (is_dash (code c) && is_dash (code d))) [
  | inl e ↦ rw (e, any) (ground (arith, halve-any p s (ground arith)))
  | inr e ↦ rw (e, any) (ground (arith, halve-any p (d ∷ s) (ground arith)))
]

squeeze-any :
    (p : ℕ → Bool) (fuel : ℕ) (s : String) → any p s ≡ false → any p (squeeze fuel s) ≡ false
unfolding squeeze
squeeze-any p zero s h = h
squeeze-any p (suc fuel) s h = ground (arith, squeeze-any p fuel (halve_dashes s) (halve-any p s h))

-- What the tags of a canonical list never hold.
abbrev pub is_foreign : ℕ → Bool
is_foreign c = is_dropped c || is_blank_char c

dash_map-any : (s : String) → any is_foreign (dash_map s) ≡ false
unfolding dash_map any
dash_map-any [] = refl
dash_map-any (c ∷ s) = ground (arith, dash_map-any s)

trim_left-any : (p q : ℕ → Bool) (s : String) → any p s ≡ false → any p (trim_left q s) ≡ false
unfolding trim_left any
trim_left-any p q [] h = refl
trim_left-any p q (c ∷ s) h = ground (arith, trim_left-any p q s (ground arith))

trim_right-any : (p q : ℕ → Bool) (s : String) → any p s ≡ false → any p (trim_right q s) ≡ false
unfolding trim_right any
trim_right-any p q [] h = refl
trim_right-any p q (c ∷ s) h = ground (arith, trim_right-any p q s (ground arith))

pub take_text-any :
    (p : ℕ → Bool) (n : ℕ) (s : String) → any p s ≡ false → any p (take_text n s) ≡ false
unfolding take_text any
take_text-any p zero s h = refl
take_text-any p (suc n) [] h = refl
take_text-any p (suc n) (c ∷ s) h = ground (arith, take_text-any p n s (ground arith))

trim_left-pair : (q : ℕ → Bool) (s : String) → has_pair s ≡ false → has_pair (trim_left q s) ≡ false
unfolding trim_left has_pair
trim_left-pair q [] h = refl
trim_left-pair q (c ∷ []) h = elim (Bool-cases (q (code c))) [
  | inl e ↦ rw e refl
  | inr e ↦ rw e refl
]
trim_left-pair q (c ∷ d ∷ s) h = elim (Bool-cases (q (code c))) [
  | inl e ↦ rw (e, trim_left) (trim_left-pair q (d ∷ s) (ground arith))
  | inr e ↦ rw (e, trim_left) h
]

trim_right-pair :
    (q : ℕ → Bool) (s : String) → has_pair s ≡ false → has_pair (trim_right q s) ≡ false
unfolding trim_right has_pair
trim_right-pair q [] h = refl
trim_right-pair q (c ∷ []) h = elim (Bool-cases (q (code c))) [
  | inl e ↦ rw e refl
  | inr e ↦ rw e refl
]
trim_right-pair q (c ∷ d ∷ s) h =
    let later = trim_right-pair q (d ∷ s) (ground arith) in
    elim (Bool-cases (is_empty (trim_right q s) && q (code d))) [
      | inl e ↦ rw e (elim (Bool-cases (q (code c))) [ inl f ↦ rw f refl | inr f ↦ rw f refl ])
      | inr e ↦ rw e (ground (arith, rw e at later))
    ]

-- A text of at most so many characters has no two dashes in a row when a longer one it begins has none.
pub take_text-pair : (n : ℕ) (s : String) → has_pair s ≡ false → has_pair (take_text n s) ≡ false
unfolding take_text has_pair
take_text-pair zero s h = refl
take_text-pair (suc n) [] h = refl
take_text-pair (suc zero) (c ∷ s) h = refl
take_text-pair (suc (suc n)) (c ∷ []) h = refl
take_text-pair (suc (suc n)) (c ∷ d ∷ s) h =
    ground (arith, take_text-pair (suc n) (d ∷ s) (ground arith))

pub take_text-size : (n : ℕ) (s : String) → size (take_text n s) ≤ n
unfolding take_text
take_text-size zero s = omega arith
take_text-size (suc n) [] = omega arith
take_text-size (suc n) (c ∷ s) = omega (arith, take_text-size n s)

pub clean_tag-pair : (raw : String) → has_pair (clean_tag raw) ≡ false
unfolding clean_tag trim
clean_tag-pair raw =
    let t = dash_map (to_lower (trim_space raw)) in
    trim_right-pair is_dash _
      (trim_left-pair is_dash (squeeze (size t) t) (squeeze-ends (size t) t (omega arith)))

pub clean_tag-any : (raw : String) → any is_foreign (clean_tag raw) ≡ false
unfolding clean_tag trim
clean_tag-any raw =
    let t = dash_map (to_lower (trim_space raw)) in
    trim_right-any is_foreign is_dash _ (
      trim_left-any is_foreign is_dash (squeeze (size t) t)
        (squeeze-any is_foreign (size t) t (dash_map-any (to_lower (trim_space raw)))))
