-- ===== src/Chat.antt =====
-- hitl/commands.go: the commands of a session held in a messenger, and what is answered to them.
pub mod Laws
mod Examples
use Prim.Native.String.{[], ◌∷◌}
use morph_api.Prelude.{
  ℕ, ◌+◌, String, code, Bool, true, false, not, ◌&&◌, ◌||◌, Option, none, some, List, [], ◌∷◌, ◌==◌,
  eqb, ltb, length, if◌then◌else◌,
}
use morph_api.Prelude.Text.{
  append, size, is_empty, is_space, has_prefix, quote, trim_right, trim_space, to_lower,
}
use morph_api.Prelude.Decimal.{decimal}

pub data Command : Type 0 where
  done status help : Command

abbrev pub name_of : Command → String
name_of done = "/done"
name_of status = "/status"
name_of help = "/help"

abbrev pub what_of : Command → String
what_of done = "finish — you are done answering and the workflow can continue"
what_of status = "show what has been asked and answered so far"
what_of help = "show this list"

abbrev pub commands : List Command
commands = done ∷ status ∷ help ∷ []

abbrev pub cmd_start : String
cmd_start = "/start"

-- the text up to the first space
unfoldable pub word_of : String → String
word_of [] = []
word_of (c ∷ s) = let rest = word_of s in if is_space (code c) then [] else c ∷ rest

-- `strings.Fields(text)[0]`, if there is a field
unfoldable pub first_field : String → Option String
first_field [] = none
first_field (c ∷ s) =
    let later = first_field s in if is_space (code c) then later else some (word_of (c ∷ s))

-- `.,!?;:`
abbrev pub is_punctuation : ℕ → Bool
is_punctuation c = eqb c b'.' || eqb c b',' || eqb c b'!' || eqb c b'?' || eqb c b';' || eqb c b':'

-- the text before the first `@`, the whole if there is none
unfoldable pub before_at : String → String
before_at [] = []
before_at (c ∷ s) = let rest = before_at s in if eqb (code c) b'@' then [] else c ∷ rest

-- An `@` at the very start cuts nothing.
abbrev pub cut_bot : String → String
cut_bot first = if is_empty (before_at first) then first else before_at first

unfoldable pub command_named : List Command → String → Option Command
command_named [] first = none
command_named (c ∷ cs) first =
    let later = command_named cs first in if first == name_of c then some c else later

abbrev pub or_start : String → Option Command → Option Command
or_start first (some c) = some c
or_start first none = if first == cmd_start then some help else none

abbrev pub read_command : String → Option Command
read_command field =
    let first = to_lower (trim_right is_punctuation field) in
    if not (has_prefix "/" first)
    then none
    else or_start (cut_bot first) (command_named commands (cut_bot first))

-- `none` is the empty command, for an ordinary text.
unfoldable pub parse_command : String → Option Command
parse_command text = elim (first_field text) [ none ↦ none | some field ↦ read_command field ]

unfoldable pub looks_like_command : String → Bool
looks_like_command text = elim (first_field text) [
  | none ↦ false
  | some field ↦ has_prefix "/" field && ltb 1 (size field)
]

unfoldable pub list_lines : List Command → String
list_lines [] = ""
list_lines (c ∷ cs) =
    append (name_of c) (append " — " (append (what_of c) (append "\n" (list_lines cs))))

unfoldable pub command_list : String
command_list = trim_right (λ c. eqb c 10) (list_lines commands)

unfoldable pub help_message : String → String
help_message title =
    let named = trim_space title in
    let shown = if named == "" then "a step that needs your input" else named in
    append "This is an automated workflow that paused at " (
      append (quote shown) (
        append
          " and needs your input before it can carry on. Answer in your own words and I will work through it with you.\n\n"
          command_list))

-- `none` where the source would index an empty list
unfoldable pub unknown_command_message : String → Option String
unknown_command_message text = elim (first_field text) [
  | none ↦ none
  | some typed ↦ some (
      append "I don't know " (
        append typed (
          append ". What I understand:\n\n" (
            append command_list "\n\nAnything else you type is an answer to the question above."))))
]

unfoldable pub opening_footer : String
opening_footer = append "\n\n— — —\n" (
    append (name_of done) (
      append " when you're finished · "
        (append (name_of status) (append " what's left · " (name_of help)))))

-- `HumanTaskQuestion`
pub record Question : Type 0 where
  pub id : String
  pub text : String
  pub answer : String
  pub answered_at : ℕ

abbrev pub is_answered : Question → Bool
is_answered q = not (trim_space q.answer == "")

unfoldable pub answered_count : List Question → ℕ
answered_count [] = 0
answered_count (q ∷ qs) = (if is_answered q then 1 else 0) + answered_count qs

unfoldable pub question_lines : List Question → String
question_lines [] = ""
question_lines (q ∷ qs) = append "\n· [" (
    append (if is_answered q then "answered" else "open")
      (append "] " (append q.text (question_lines qs))))

abbrev pub report_of : List Question → String
report_of [] = "Nothing is pinned down yet — we are still working out what needs answering."
report_of (q ∷ qs) = append (decimal (answered_count (q ∷ qs))) (
    append " of " (
      append (decimal (length (q ∷ qs)))
        (append " question(s) answered:\n" (question_lines (q ∷ qs)))))

unfoldable pub status_message : List Question → String
status_message qs = append (report_of qs) (
    append "\n\nReply "
      (append (name_of done) " when you are finished and the workflow will continue."))

-- `AllAnswered` of models/hitl.go
unfoldable pub all_answered : List Question → Bool
all_answered [] = true
all_answered (q ∷ qs) = if q.answer == "" then false else all_answered qs
