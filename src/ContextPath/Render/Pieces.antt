-- ===== src/ContextPath/Render/Pieces.antt =====
-- The pieces of a written path: what the parser makes of each.
use Prim.Native.String.{[], ◌∷◌}
use morph_api.Prelude.{
  ℕ, String, Char, code, ◌≡◌, refl, ◌∙◌, ap, inl, inr, Bool, true, false, ◌||◌, some, List, [], ◌∷◌,
  eqb, arith, Bool-cases, All,
}
use morph_api.Prelude.Text.{
  append, is_empty, any, contains, has_prefix, trim_right, trim_space, is_space,
}
use morph_api.Prelude.Text.Laws.{size-append, trim_right-append, trim_right-append_all, any-append}
use morph_api.ContextPath.{
  cut_close, cut_name, last_is, init, unquote, selects_many, is_word, all_word, is_plain_member,
  render_members,
}

abbrev is_many : ℕ → Bool
is_many c = eqb c b'*' || eqb c b'?' || eqb c b'@'

-- A member that a path can name: it is not empty, holds no `]`, none of the characters that select
-- many locations, and no two dots in a row.
pub record IsWritable (m : String) : Type 0 where
  pub nonempty : is_empty m ≡ false
  pub no_close : any (λ c. eqb c b']') m ≡ false
  pub no_many : any is_many m ≡ false
  pub no_dots : contains ".." m ≡ false

abbrev is_separator : ℕ → Bool
is_separator c = eqb c b'.' || eqb c b'['

word_no_separator : (c : ℕ) → is_word c ≡ true → is_separator c ≡ false
unfolding is_word
word_no_separator c h = ground arith

word_no_space : (c : ℕ) → is_word c ≡ true → is_space c ≡ false
unfolding is_word is_space
word_no_space c h = ground arith

-- A test that fails on the characters of words fails on a word.
any_of_all_word :
    (p : ℕ → Bool)
    → ((c : ℕ) → is_word c ≡ true → p c ≡ false)
    → (m : String) → all_word m ≡ true
    → any p m ≡ false
unfolding all_word any
any_of_all_word p h [] w = refl
any_of_all_word p h (c ∷ m) w = ground (arith, h (code c), any_of_all_word p h m)

all_word_of_plain : (m : String) → is_plain_member m ≡ true → all_word m ≡ true
unfolding is_plain_member is_word all_word
all_word_of_plain [] h = ground arith
all_word_of_plain (c ∷ m) h = ground arith

cut_name-append :
    (m r : String)
    → any is_separator m ≡ false
    → cut_name r ≡ ([], r)
    → cut_name (append m r) ≡ (m, r)
unfolding any cut_name
cut_name-append [] r h stop = stop
cut_name-append (c ∷ m) r h stop = ground (arith, cut_name-append m r)

pub cut_close-append :
    (m t r : String)
    → any (λ c. eqb c b']') m ≡ false
    → cut_close t ≡ some ("'", r)
    → cut_close (append m t) ≡ some (append m "'", r)
unfolding any cut_close
cut_close-append [] t r h stop = stop
cut_close-append (c ∷ m) t r h stop = ground (arith, cut_close-append m t r)

last_is-append : (m : String) → last_is 39 (append m "'") ≡ true
last_is-append [] = refl
last_is-append (c ∷ []) = refl
last_is-append (c ∷ d ∷ m) = last_is-append (d ∷ m)

init-append : (m : String) → init (append m "'") ≡ m
unfolding init
init-append [] = refl
init-append (c ∷ []) = refl
init-append (c ∷ d ∷ m) = ap (λ s. c ∷ s) (init-append (d ∷ m))

-- What the source trims and unquotes between `[` and `]`.
pub trim_space-quoted :
    (m : String) → trim_space (append "'" (append m "'")) ≡ append "'" (append m "'")
unfolding trim_space trim_right
trim_space-quoted m = trim_right-append is_space (append "'" m) "'" refl refl

pub unquote-quoted :
    (m : String) → is_empty m ≡ false → unquote (append "'" (append m "'")) ≡ some m
unfolding unquote
unquote-quoted [] ne = ground arith
unquote-quoted (c ∷ m) ne =
    ground (arith, size-append m "'", last_is-append (c ∷ m), init-append (c ∷ m))

pub cut_name-append_word :
    (m r : String)
    → is_plain_member m ≡ true
    → cut_name r ≡ ([], r)
    → cut_name (append m r) ≡ (m, r)
cut_name-append_word m r w stop =
    cut_name-append m r (any_of_all_word is_separator word_no_separator m (all_word_of_plain m w))
      stop

pub cut_name-render_members :
    (ms : List String) → cut_name (render_members ms) ≡ ([], render_members ms)
unfolding cut_name render_members
cut_name-render_members [] = refl
cut_name-render_members (m ∷ ms) = ground arith

pub trim_right-render_members :
    (ms : List String) → trim_right is_space (render_members ms) ≡ render_members ms
unfolding render_members
trim_right-render_members [] = unfold trim_right in refl
trim_right-render_members (m ∷ ms) = elim (Bool-cases (is_plain_member m)) [
  | inl w ↦ rw w (
      trim_right-append_all is_space (append "." m) (render_members ms)
        (rw (any-append is_space "." m)
          (unfold any is_space in any_of_all_word is_space word_no_space m (all_word_of_plain m w)))
        (trim_right-render_members ms))
  | inr w ↦ rw w (
      trim_right-append is_space (append "['" m) (append "']" (render_members ms)) refl (
        trim_right-append_all is_space "']" (render_members ms) (unfold any is_space in refl)
          (trim_right-render_members ms)))
]

-- Two dots in a row: a character that is no dot parts the text.
contains-cons_ne :
    (c : Char) (s : String) → eqb (code c) b'.' ≡ false → contains ".." (c ∷ s) ≡ contains ".." s
unfolding contains has_prefix
contains-cons_ne c s h = ground arith

contains-append_stop :
    (m : String) (c : Char) (t : String)
    → eqb (code c) b'.' ≡ false
    → contains ".." m ≡ false
    → contains ".." (append m (c ∷ t)) ≡ contains ".." t
unfolding contains has_prefix
contains-append_stop [] c t h no_dots = contains-cons_ne c t h
contains-append_stop (d ∷ []) c t h no_dots = ground arith
contains-append_stop (d ∷ e ∷ m) c t h no_dots = ground (arith, contains-append_stop (e ∷ m) c t h)

contains-append_word :
    (m t : String) → any is_separator m ≡ false → contains ".." (append m t) ≡ contains ".." t
unfolding any
contains-append_word [] t h = refl
contains-append_word (c ∷ m) t h =
    contains-cons_ne c (append m t) (ground arith) ∙ contains-append_word m t (ground arith)

contains-dot_cons :
    (c : Char) (s : String)
    → eqb (code c) b'.' ≡ false
    → contains ".." (append "." (c ∷ s)) ≡ contains ".." (c ∷ s)
unfolding contains has_prefix
contains-dot_cons c s h = ground arith

contains-plain :
    (m t : String)
    → is_plain_member m ≡ true
    → contains ".." (append "." (append m t)) ≡ contains ".." t
unfolding is_plain_member
contains-plain [] t p = ground arith
contains-plain (c ∷ m) t p =
    contains-dot_cons c (append m t) (ground arith)
    ∙ contains-append_word (c ∷ m) t
        (any_of_all_word is_separator word_no_separator (c ∷ m) (all_word_of_plain (c ∷ m) p))

contains-quoted :
    (m t : String)
    → contains ".." m ≡ false
    → contains ".." (append "['" (append m (append "']" t))) ≡ contains ".." t
contains-quoted m t h =
    contains-cons_ne "[" (append "'" (append m (append "']" t))) refl
    ∙ contains-cons_ne "'" (append m (append "']" t)) refl
    ∙ contains-append_stop m "'" (append "]" t) refl h
    ∙ contains-cons_ne "]" t refl

word_no_many : (c : ℕ) → is_word c ≡ true → is_many c ≡ false
unfolding is_word
word_no_many c h = ground arith

no_many-render_members :
    (ms : List String) → All IsWritable ms → any is_many (render_members ms) ≡ false
unfolding any render_members
no_many-render_members [] h = refl
no_many-render_members (m ∷ ms) (w, h) = ground (
  arith,
  any-append is_many m (render_members ms),
  any-append is_many m (append "']" (render_members ms)),
  no_many-render_members ms h,
)

no_dots-render_members :
    (ms : List String) → All IsWritable ms → contains ".." (render_members ms) ≡ false
unfolding render_members
no_dots-render_members [] h = unfold contains in refl
no_dots-render_members (m ∷ ms) (w, h) = elim (Bool-cases (is_plain_member m)) [
  | inl p ↦ rw p (contains-plain m (render_members ms) p ∙ no_dots-render_members ms h)
  | inr p ↦ rw p (contains-quoted m (render_members ms) w.no_dots ∙ no_dots-render_members ms h)
]

-- A written path names one location.
pub selects_many-render_members :
    (ms : List String) → All IsWritable ms → selects_many (render_members ms) ≡ false
unfolding selects_many
selects_many-render_members ms h =
    ground (arith, no_dots-render_members ms h, no_many-render_members ms h)
