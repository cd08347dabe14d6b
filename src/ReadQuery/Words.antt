-- ===== src/ReadQuery/Words.antt =====
-- What a text contains when another is appended to it.
use Prim.Native.String.{[], ◌∷◌}
use morph_api.Prelude.{
  ℕ, ◌≤◌, String, Char, code, Bool, true, false, not, ◌&&◌, ◌||◌, ◌≡◌, refl, arith, eqb, Bool-cases,
  inl, inr,
}
use morph_api.Prelude.Text.{append, size, contains, has_prefix, is_empty, trim_right, to_lower, any}
use morph_api.ReadQuery.{is_word_char, word_here, word_from}

pub to_lower-append : (s t : String) → to_lower (append s t) ≡ append (to_lower s) (to_lower t)
unfolding to_lower
to_lower-append [] t = refl
to_lower-append (c ∷ s) t = rw (to_lower-append s t) refl

pub has_prefix-append : (p s t : String) → has_prefix p s ≡ true → has_prefix p (append s t) ≡ true
unfolding has_prefix
has_prefix-append [] s t h = refl
has_prefix-append (a ∷ p) [] t h = ground arith
has_prefix-append (a ∷ p) (c ∷ s) t h = ground (arith, has_prefix-append p s t)

pub contains-append_one :
    (a : Char) (s t : String)
    → contains (a ∷ []) s ≡ false
    → contains (a ∷ []) t ≡ false
    → contains (a ∷ []) (append s t) ≡ false
unfolding contains has_prefix
contains-append_one a [] t h k = k
contains-append_one a (c ∷ s) t h k = ground (arith, contains-append_one a s t (ground arith) k)

-- A pair of characters does not arise where the second text begins with another character.
pub contains-append_two :
    (a b d : Char) (s t : String)
    → eqb (code b) (code d) ≡ false
    → contains (a ∷ b ∷ []) s ≡ false
    → contains (a ∷ b ∷ []) (d ∷ t) ≡ false
    → contains (a ∷ b ∷ []) (append s (d ∷ t)) ≡ false
unfolding contains has_prefix
contains-append_two a b d [] t ne h k = k
contains-append_two a b d (c ∷ []) t ne h k = ground arith
contains-append_two a b d (c ∷ e ∷ s) t ne h k =
    ground (arith, contains-append_two a b d (e ∷ s) t ne (ground arith) k)

prefix-trim_right :
    (f : ℕ → Bool) (p s : String) → has_prefix p s ≡ false → has_prefix p (trim_right f s) ≡ false
unfolding has_prefix trim_right
prefix-trim_right f [] s h = h
prefix-trim_right f (a ∷ p) [] h = refl
prefix-trim_right f (a ∷ p) (c ∷ s) h =
    elim (Bool-cases (is_empty (trim_right f s) && f (code c))) [
      | inl e ↦ rw e refl
      | inr e ↦ rw (e, has_prefix) (ground (arith, prefix-trim_right f p s))
    ]

pub contains-trim_right :
    (f : ℕ → Bool) (a : Char) (p s : String)
    → contains (a ∷ p) s ≡ false
    → contains (a ∷ p) (trim_right f s) ≡ false
unfolding contains trim_right
contains-trim_right f a p [] h = refl
contains-trim_right f a p (c ∷ s) h =
    let below = contains-trim_right f a p s (ground arith) in
    let here = prefix-trim_right f (a ∷ p) (c ∷ s) (ground arith) in
    elim (Bool-cases (is_empty (trim_right f s) && f (code c))) [
      | inl e ↦ rw e refl
      | inr e ↦ rw (e, contains) (ground (arith, below, rw (trim_right, e) at here))
    ]

pub trim_right-size : (f : ℕ → Bool) (s : String) → size (trim_right f s) ≤ size s
unfolding trim_right
trim_right-size f [] = omega arith
trim_right-size f (c ∷ s) = ground (arith, trim_right-size f s)

word_char-ne : (a d : ℕ) → is_word_char d ≡ false → not (is_word_char a) ≡ false → eqb a d ≡ false
word_char-ne a d n h = elim (Bool-cases (eqb a d)) [
  | inr e ↦ e
  | inl e ↦ let same : a ≡ d = ground arith in cc (rw same at h)
]

-- A word keeps to its side of a character that is not a word's.
word_here-append :
    (w : String) (d : Char) (s t : String)
    → is_word_char (code d) ≡ false
    → any (λ c. not (is_word_char c)) w ≡ false
    → word_here w (append s (d ∷ t)) ≡ word_here w s
unfolding word_here any
word_here-append [] d [] t n h = ground arith
word_here-append [] d (c ∷ s) t n h = refl
word_here-append (a ∷ w) d [] t n h =
    ground (arith, word_char-ne (code a) (code d) n (ground arith))
word_here-append (a ∷ w) d (c ∷ s) t n h = ground (arith, word_here-append w d s t n (ground arith))

pub word_from-append :
    (before : Bool) (a : Char) (w : String) (d : Char) (s t : String)
    → is_word_char (code d) ≡ false
    → any (λ c. not (is_word_char c)) (a ∷ w) ≡ false
    → word_from before (a ∷ w) (append s (d ∷ t))
      ≡ (word_from before (a ∷ w) s || word_from false (a ∷ w) t)
unfolding word_from
word_from-append before a w d [] t n h =
    ground (arith, n, word_char-ne (code a) (code d) n (unfold any in ground arith), word_here-cons)
  where
    word_here-cons : eqb (code a) (code d) ≡ false → word_here (a ∷ w) (d ∷ t) ≡ false
    word_here-cons e = unfold word_here in ground arith
word_from-append before a w d (c ∷ s) t n h = ground (
  arith,
  word_here-append (a ∷ w) d (c ∷ s) t n h,
  word_from-append (is_word_char (code c)) a w d s t n h,
)
