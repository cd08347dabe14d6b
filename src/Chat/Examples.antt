-- ===== src/Chat/Examples.antt =====
-- Tests of the commands of a session, and their theorems at concrete texts.
use morph_api.Prelude.{◌≡◌, refl, String, [], ◌∷◌, some, none, true}
use morph_api.Prelude.Text.{
  quote, is_space, has_prefix, trim, trim_left, trim_right, trim_space, to_lower, lower_char,
}
use morph_api.Chat.{
  done, word_of, first_field, before_at, command_named, parse_command, looks_like_command, Question,
  answered_count, all_answered,
}

parses_bot : parse_command " /Done@flo_bot, thanks" ≡ some done
unfolding parse_command first_field word_of is_space trim_right to_lower lower_char has_prefix
    before_at command_named
parses_bot = refl

parses_sentence : parse_command "I am not /done yet" ≡ none
unfolding parse_command first_field word_of is_space trim_right to_lower lower_char has_prefix
    before_at command_named
parses_sentence = refl

looks_unknown : looks_like_command "/finish now" ≡ true
unfolding looks_like_command first_field word_of is_space has_prefix
looks_unknown = refl

abbrev replied : String → Question
replied answer = record { id = "q"; text = "How many?"; answer = answer; answered_at = 0 }

-- A blank answer is an answer to the task, and an open question to the report.
blank_answer : all_answered (replied " " ∷ []) ≡ true
unfolding all_answered
blank_answer = refl

blank_open : answered_count (replied " " ∷ []) ≡ 0
unfolding answered_count trim_space trim trim_left trim_right is_space
blank_open = refl

quoted_title : quote "a \"b\"\n" ≡ "\"a \\\"b\\\"\\n\""
unfolding quote
quoted_title = refl
