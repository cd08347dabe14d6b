-- ===== src/Chat/Laws.antt =====
-- What the commands of a session are read from.
use Prim.Native.String.{[], ◌∷◌}
use morph_api.Prelude.{
  ◌≤◌, String, true, some, List, [], ◌∷◌, ◌==◌, length, ◌≡◌, refl, arith, eq_iff, inl, inr,
  Bool-cases,
}
use morph_api.Prelude.Text.{
  append, is_space, has_prefix, trim_right, trim_space, to_lower, lower_char,
}
use morph_api.Chat.{
  Command, done, status, help, name_of, word_of, first_field, before_at, command_named,
  parse_command, Question, answered_count, all_answered,
}

-- A command followed by a space and any words is that command.
pub parse_command-words :
    (c : Command) (rest : String) → parse_command (append (name_of c) (append " " rest)) ≡ some c
unfolding parse_command first_field word_of is_space trim_right to_lower lower_char has_prefix
    before_at command_named
parse_command-words done rest = refl
parse_command-words status rest = refl
parse_command-words help rest = refl

answered-some : (s : String) → (s == "") ≡ true → (trim_space s == "") ≡ true
unfolding trim_space
answered-some s e = let same : s ≡ "" = ground (arith, eq_iff s "") in rw same (ground arith)

answered_count-length : (qs : List Question) → answered_count qs ≤ length qs
unfolding answered_count
answered_count-length [] = omega arith
answered_count-length (q ∷ qs) = ground (arith, answered_count-length qs)

-- A report that counts as many answers as questions is of a task whose questions are all answered.
pub answered_count-all :
    (qs : List Question) → answered_count qs ≡ length qs → all_answered qs ≡ true
unfolding answered_count all_answered
answered_count-all [] h = refl
answered_count-all (q ∷ qs) h =
    let bound = answered_count-length qs in
    elim (Bool-cases (q.answer == "")) [
      | inl e ↦ absurd (ground (arith, bound, answered-some q.answer e))
      | inr e ↦ rw e (answered_count-all qs (ground (arith, bound)))
    ]
