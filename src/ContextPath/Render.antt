-- ===== src/ContextPath/Render.antt =====
-- `ParseContextPath` reads back what `renderContextPath` writes.
mod Pieces
use Prim.Native.String.{[], ◌∷◌}
use text.Mathlib.TextLemmas.{nil≢cons, cons≢nil, tail-eq_of_cons-eq}
use morph_api.Prelude.{
  ℕ, zero, suc, ◌≤◌, String, code, ◌≡◌, refl, sym, ◌∙◌, ap, Bool, true, false, List, [], ◌∷◌, ◌==◌,
  eqb, arith, if◌then◌else◌, Bool-cases, inl, inr, All,
}
use morph_api.Prelude.Text.{
  append, size, is_empty, any, contains, trim_left, trim_right, trim, trim_space, is_space,
}
use morph_api.Prelude.Text.Laws.{==-eq-false, size-append, trim_right-append_all}
use morph_api.ContextPath.{
  Result, ok, keep, cut_close, cut_name, bracketed, unquoted, unquote, named, after_dot,
  trim_dollar, selects_many, members, parse_context_path, is_plain_member, render_members,
  render_context_path,
}
use Pieces.{
  IsWritable, cut_name-append_word, cut_close-append, trim_space-quoted, unquote-quoted,
  cut_name-render_members, trim_right-render_members, selects_many-render_members,
}

-- One round over a written member.
module _ (rest : String → Result (List String)) (path : String) (m r : String) where
  after_dot-plain :
      is_plain_member m ≡ true
      → cut_name r ≡ ([], r)
      → after_dot rest path (append m r) ≡ keep m (rest r)
  after_dot-plain p stop = go m p (cut_name-append_word m r p stop)
    where
      go :
          (m : String)
          → is_plain_member m ≡ true
          → cut_name (append m r) ≡ (m, r)
          → after_dot rest path (append m r) ≡ keep m (rest r)
      go [] p e = unfold is_plain_member in cc
      go (c ∷ m) p e = unfold is_plain_member after_dot named in ground arith

  bracketed-quoted :
      IsWritable m
      → bracketed rest path (cut_close (append "'" (append m (append "']" r)))) ≡ keep m (rest r)
  unfolding bracketed unquoted
  bracketed-quoted w =
      rw
        (cut_close-append (append "'" m) (append "']" r) r (unfold any in w.no_close)
          (unfold cut_close in refl))
        (rw (trim_space-quoted m) (rw (unquote-quoted m w.nonempty)))

members-render_members :
    (path : String) (fuel : ℕ) (ms : List String)
    → All IsWritable ms
    → size (render_members ms) ≤ fuel
    → members fuel path (render_members ms) ≡ ok ms
unfolding members render_members
members-render_members path fuel [] h fits = refl
members-render_members path zero (m ∷ ms) h fits = ground arith
members-render_members path (suc fuel) (m ∷ ms) (w, h) fits =
    elim (Bool-cases (is_plain_member m)) [
      | inl p ↦ rw p (
          after_dot-plain (members fuel path) path m (render_members ms) p
            (cut_name-render_members ms)
          ∙ ap (keep m) (
              members-render_members path fuel ms h
                (ground (arith, size-append m (render_members ms)))))
      | inr p ↦ rw p (
          bracketed-quoted (members fuel path) path m (render_members ms) w
          ∙ ap (keep m) (
              members-render_members path fuel ms h
                (ground (arith, size-append m (append "']" (render_members ms))))))
    ]

trim_space-render :
    (ms : List String) → trim_space (render_context_path ms) ≡ render_context_path ms
unfolding trim_space trim_left render_context_path
trim_space-render ms =
    trim_right-append_all is_space "$" (render_members ms) (unfold any is_space in refl)
      (trim_right-render_members ms)

render_members-ne : (m : String) (ms : List String) → is_empty (render_members (m ∷ ms)) ≡ false
unfolding render_members
render_members-ne m ms = ground arith

dollar-ne : (b : String) → is_empty b ≡ false → (append "$" b == "$") ≡ false
dollar-ne [] h = ground arith
dollar-ne (c ∷ b) h = ==-eq-false (λ e. nil≢cons (sym (tail-eq_of_cons-eq e)))

dollar-ne_empty : (b : String) → (append "$" b == "") ≡ false
dollar-ne_empty b = ==-eq-false cons≢nil

-- Parsing a path that was written from members yields these members, if each can be named in a
-- path: not empty, with no `]`, no `*`, `?` or `@`, and no two dots in a row.
pub parse-render :
    (ms : List String) → All IsWritable ms → parse_context_path (render_context_path ms) ≡ ok ms
unfolding parse_context_path render_context_path trim_dollar
parse-render [] h = unfold trim_space in refl
parse-render (m ∷ ms) h =
    let path = render_context_path (m ∷ ms) in
    let body = render_members (m ∷ ms) in
    rw
      (
        trim_space-render (m ∷ ms),
        dollar-ne_empty body,
        dollar-ne body (render_members-ne m ms),
        selects_many-render_members (m ∷ ms) h,
      )
      (members-render_members path (size body) (m ∷ ms) h (omega arith))
