-- ===== src/ContextPath/Parse.antt =====
-- The loop of `ParseContextPath` ends, and what it accepts.
use Prim.Native.String.{[], ◌∷◌}
use morph_api.Prelude.{
  ℕ, zero, suc, ◌≤◌, String, Char, code, ◌≡◌, ◌≢◌, refl, inl, inr, false, Option, none, some, List,
  [], ◌∷◌, eqb, arith, Option-cases, Bool-cases,
}
use morph_api.Prelude.Text.{size, trim_space, contains, any}
use morph_api.ContextPath.{
  Result, ok, err, exhausted, keep, cut_close, cut_name, unquote, unquoted, bracketed, named,
  after_dot, trim_dollar, selects_many, members, parse_context_path,
}

cut_close-size : (s : String) (a b : String) → cut_close s ≡ some (a, b) → size b ≤ size s
unfolding cut_close
cut_close-size [] a b h = ground arith
cut_close-size (c ∷ s) a b h = elim (Option-cases (cut_close s)) [
  | inl e ↦ ground (arith, e)
  | inr ((x, y), e) ↦ ground (arith, e, cut_close-size s x y e)
]

cut_name-size : (s : String) → size (cut_name s).1 ≤ size s
unfolding cut_name
cut_name-size [] = omega arith
cut_name-size (c ∷ s) = ground (arith, cut_name-size s)

-- A name that does not start with `.` or `[` takes a character.
cut_name-size_plain :
    (c : Char) (s : String) (f : ℕ)
    → eqb (code c) b'[' ≡ false
    → eqb (code c) b'.' ≡ false
    → size s ≤ f
    → size (cut_name (c ∷ s)).1 ≤ f
unfolding cut_name
cut_name-size_plain c s f p q fits = ground (arith, cut_name-size s)

cons_total :
    (name : String) (r : Result (List String)) → r ≢ err exhausted → keep name r ≢ err exhausted
cons_total name (ok names) h e = ground arith
cons_total name (err x) h e = h (ground arith)

-- What a round returns is no `exhausted`, if what follows it returns none.
module _ (rest : String → Result (List String)) (path : String) where
  named_total : (n : String × String) → rest n.1 ≢ err exhausted → named rest path n ≢ err exhausted
  unfolding named
  named_total ([], s) h e = ground arith
  named_total (c ∷ n, s) h e = cons_total (c ∷ n) (rest s) h e

  unquoted_total :
      (raw after : String) (o : Option String)
      → rest after ≢ err exhausted
      → unquoted rest path raw after o ≢ err exhausted
  unfolding unquoted
  unquoted_total raw after none h e = ground arith
  unquoted_total raw after (some name) h e = cons_total name (rest after) h e

module _ (rest : String → Result (List String)) (path : String) (f : ℕ)
    (later : (s : String) → size s ≤ f → rest s ≢ err exhausted) where
  bracketed_total : (s : String) → size s ≤ f → bracketed rest path (cut_close s) ≢ err exhausted
  unfolding bracketed
  bracketed_total s fits e = elim (Option-cases (cut_close s)) [
    | inl p ↦ cc (rw p at e)
    | inr ((a, b), p) ↦
        unquoted_total rest path (trim_space a) b (unquote (trim_space a))
          (later b (omega (arith, cut_close-size s a b p))) (rw p at e)
  ]

  after_dot_total : (s : String) → size s ≤ f → after_dot rest path s ≢ err exhausted
  unfolding after_dot
  after_dot_total [] fits e = ground arith
  after_dot_total (c ∷ s) fits e = elim (Bool-cases (eqb (code c) b'[')) [
    | inl p ↦ later (c ∷ s) fits (rw p at e)
    | inr p ↦
        named_total rest path (cut_name (c ∷ s))
          (later (cut_name (c ∷ s)).1 (omega (arith, cut_name-size (c ∷ s)))) (rw p at e)
  ]

members_total : (fuel : ℕ) (path s : String) → size s ≤ fuel → members fuel path s ≢ err exhausted
unfolding members
members_total fuel path [] fits e = ground arith
members_total zero path (c ∷ s) fits e = omega arith
members_total (suc fuel) path (c ∷ s) fits e = elim (Bool-cases (eqb (code c) b'[')) [
  | inl p ↦
      bracketed_total (members fuel path) path fuel (members_total fuel path) s (omega arith)
        (rw p at e)
  | inr p ↦ elim (Bool-cases (eqb (code c) b'.')) [
    | inl q ↦
        after_dot_total (members fuel path) path fuel (members_total fuel path) s (omega arith)
          (rw (p, q) at e)
    | inr q ↦
        named_total (members fuel path) path (cut_name (c ∷ s))
          (members_total fuel path (cut_name (c ∷ s)).1
            (cut_name-size_plain c s fuel p q (omega arith)))
          (rw (p, q) at e)
  ]
]

-- Parsing always ends with members or with one of the errors of the source: the fuel is enough.
pub parse_total : (path : String) → parse_context_path path ≢ err exhausted
unfolding parse_context_path
parse_total path e =
    let q = trim_dollar (trim_space path) in
    ground (arith, members_total (size q) path q (omega arith))

-- the path that the entry forms of flows default to
pub parse_entry : parse_context_path "$._entry" ≡ ok ("_entry" ∷ [])
unfolding parse_context_path members trim_dollar selects_many trim_space contains any cut_name
    bracketed unquoted named after_dot unquote cut_close
parse_entry = refl

-- a path of one member, written without the dollar
pub parse_other : parse_context_path "other" ≡ ok ("other" ∷ [])
unfolding parse_context_path members trim_dollar selects_many trim_space contains any cut_name
    bracketed unquoted named after_dot unquote cut_close
parse_other = refl
