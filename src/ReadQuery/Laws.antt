-- ===== src/ReadQuery/Laws.antt =====
-- What an accepted read query is.
use Prim.Native.String.{[], ◌∷◌}
use morph_api.Prelude.{
  ◌+◌, ◌≤◌, String, Bool, true, false, not, ◌&&◌, none, List, [], ◌∷◌, ◌≡◌, refl, subst, arith, inl,
  inr, Bool-cases, Option-cases, All,
}
use morph_api.Prelude.Text.{
  append, size, contains, has_prefix, trim_space, trim_right, to_lower, lower_char, any,
}
use morph_api.Prelude.Text.Laws.{size-append}
use morph_api.ReadQuery.{
  max_read_query_len, limit_clause, forbidden_keywords, is_word_char, word_here, word_from,
  contains_word, forbidden_in, accepted, has_comment_marker, is_trailing, is_select, bound,
  check_statement, validate_read_sql,
}
use morph_api.ReadQuery.Words.{
  to_lower-append, has_prefix-append, contains-append_one, contains-append_two, contains-trim_right,
  trim_right-size, word_from-append,
}

-- One statement without comments, a SELECT with no keyword that writes, with a limit, and bounded.
pub record IsReadOnly (q : String) : Type 0 where
  pub single : contains ";" q ≡ false
  pub comment_free : has_comment_marker q ≡ false
  pub selects : is_select (to_lower q) ≡ true
  pub read_only : All (λ kw. contains_word kw (to_lower q) ≡ false) forbidden_keywords
  pub limited : contains_word "limit" (to_lower q) ≡ true
  pub short : size q ≤ max_read_query_len + size limit_clause

abbrev lower_clause : String
lower_clause = " limit 1000"

lower-bound : (s : String) → to_lower (append s limit_clause) ≡ append (to_lower s) lower_clause
unfolding to_lower lower_char
lower-bound s = to_lower-append s limit_clause

forbidden_in-none :
    (kws : List String) (lower : String)
    → forbidden_in kws lower ≡ none
    → All (λ kw. contains_word kw lower ≡ false) kws
unfolding forbidden_in
forbidden_in-none [] lower h = tt
forbidden_in-none (kw ∷ kws) lower h = (ground arith, forbidden_in-none kws lower (ground arith))

-- a word that the limit clause does not hold
abbrev is_apart : String → Bool
is_apart [] = false
is_apart (a ∷ w) =
    not (any (λ c. not (is_word_char c)) (a ∷ w)) && not (word_from false (a ∷ w) "limit 1000")

abbrev all_apart : List String → Bool
all_apart [] = true
all_apart (w ∷ ws) = is_apart w && all_apart ws

keyword-apart :
    (w s : String)
    → is_apart w ≡ true
    → contains_word w s ≡ false
    → contains_word w (append s lower_clause) ≡ false
unfolding contains_word
keyword-apart [] s p h = ground arith
keyword-apart (a ∷ w) s p h =
    ground (arith, word_from-append false a w " " s "limit 1000" refl (ground arith))

keywords-apart :
    (ws : List String) (s : String)
    → all_apart ws ≡ true
    → All (λ kw. contains_word kw s ≡ false) ws
    → All (λ kw. contains_word kw (append s lower_clause) ≡ false) ws
keywords-apart [] s p h = tt
keywords-apart (w ∷ ws) s p (h, hs) =
    (keyword-apart w s (ground arith) h, keywords-apart ws s (ground arith) hs)

all_keywords-apart : all_apart forbidden_keywords ≡ true
unfolding any word_from word_here
all_keywords-apart = refl

limit-there : (s : String) → contains_word "limit" (append s lower_clause) ≡ true
unfolding contains_word word_from word_here any
limit-there s = ground (arith, word_from-append false "l" "imit" " " s "limit 1000" refl refl)

comment-clause :
    (s : String) → has_comment_marker s ≡ false → has_comment_marker (append s limit_clause) ≡ false
unfolding contains has_prefix
comment-clause s c = ground (
  arith,
  contains-append_two "-" "-" " " s "LIMIT 1000" refl (ground arith) refl,
  contains-append_two "/" "*" " " s "LIMIT 1000" refl (ground arith) refl,
  contains-append_two "*" "/" " " s "LIMIT 1000" refl (ground arith) refl,
  contains-append_one "#" s limit_clause (ground arith) refl,
)

select-clause :
    (s : String)
    → is_select (to_lower s) ≡ true
    → is_select (to_lower (append s limit_clause)) ≡ true
select-clause s h = rw (lower-bound s) (
    ground (
      arith,
      has_prefix-append "select" (to_lower s) lower_clause,
      has_prefix-append "with" (to_lower s) lower_clause,
    ))

-- A statement that passes its checks, as it is or with the limit clause.
plain-IsReadOnly :
    (s : String)
    → size s ≤ max_read_query_len
    → has_comment_marker s ≡ false
    → contains ";" s ≡ false
    → is_select (to_lower s) ≡ true
    → forbidden_in forbidden_keywords (to_lower s) ≡ none
    → IsReadOnly (bound s)
plain-IsReadOnly s n c one sel kws = elim (Bool-cases (contains_word "limit" (to_lower s))) [
  | inl l ↦ rw l (record {
    single = one;
    comment_free = c;
    selects = sel;
    read_only = forbidden_in-none forbidden_keywords (to_lower s) kws;
    limited = l;
    short = omega arith;
  })
  | inr l ↦ rw l (record {
    single = contains-append_one _ s limit_clause one (unfold contains has_prefix in refl);
    comment_free = comment-clause s c;
    selects = select-clause s sel;
    read_only = rw (lower-bound s) (
        keywords-apart forbidden_keywords (to_lower s) all_keywords-apart
          (forbidden_in-none forbidden_keywords (to_lower s) kws));
    limited = rw (lower-bound s) (limit-there (to_lower s));
    short = omega (arith, size-append s limit_clause);
  })
]

comment-trim_right :
    (s : String)
    → has_comment_marker s ≡ false
    → has_comment_marker (trim_right is_trailing s) ≡ false
comment-trim_right s c = ground (
  arith,
  contains-trim_right is_trailing "-" "-" s (ground arith),
  contains-trim_right is_trailing "/" "*" s (ground arith),
  contains-trim_right is_trailing "*" "/" s (ground arith),
  contains-trim_right is_trailing "#" "" s (ground arith),
)

checked-IsReadOnly :
    (s q : String)
    → size s ≤ max_read_query_len
    → has_comment_marker s ≡ false
    → check_statement s ≡ accepted q
    → IsReadOnly q
checked-IsReadOnly s q n c h = elim (Option-cases (forbidden_in forbidden_keywords (to_lower s))) [
  | inr (kw, f) ↦ absurd (ground arith)
  | inl f ↦
      let same : bound s ≡ q = ground arith in
      subst IsReadOnly same (plain-IsReadOnly s n c (ground arith) (ground arith) f)
]

-- A query that is accepted is one statement without comment markers, begins as a SELECT or a WITH,
-- holds no forbidden keyword as a word, holds a LIMIT and is bounded in length, in the text that is
-- returned.
pub validate_read_sql-IsReadOnly :
    (query q : String) → validate_read_sql query ≡ accepted q → IsReadOnly q
unfolding validate_read_sql
validate_read_sql-IsReadOnly query q h =
    let t = trim_space query in
    let s = trim_right is_trailing t in
    let n : size t ≤ max_read_query_len = ground arith in
    let c : has_comment_marker t ≡ false = ground arith in
    let checked : check_statement s ≡ accepted q = ground arith in
    checked-IsReadOnly s q (omega (arith, n, trim_right-size is_trailing t))
      (comment-trim_right t c) checked
