-- ===== src/ReadQuery.antt =====
-- models/storequery.go: the gate that a read query of a memory store passes before it is run.
pub mod Words
pub mod Laws
mod Examples
use Prim.Native.String.{[], ◌∷◌}
use morph_api.Prelude.{
  ℕ, String, code, Bool, true, false, not, ◌&&◌, ◌||◌, Option, none, some, List, [], ◌∷◌, ◌==◌, eqb,
  ltb, leb, if◌then◌else◌,
}
use morph_api.Prelude.Text.{
  append, size, contains, has_prefix, trim_space, trim_right, to_lower, any,
}

abbrev pub max_read_query_len : ℕ
max_read_query_len = 4000

-- what is appended to a query that has no limit: ` LIMIT ` and `MaxReadRows`
abbrev pub limit_clause : String
limit_clause = " LIMIT 1000"

abbrev pub forbidden_keywords : List String
forbidden_keywords =
    "insert" ∷ "update" ∷ "delete" ∷ "drop" ∷ "alter" ∷ "create" ∷ "replace" ∷ "truncate" ∷ "merge"
    ∷ "upsert" ∷ "into" ∷ "attach" ∷ "detach" ∷ "pragma" ∷ "vacuum" ∷ "reindex" ∷ "trigger"
    ∷ "grant" ∷ "revoke" ∷ "load_extension" ∷ "writefile" ∷ []

abbrev pub is_alpha : ℕ → Bool
is_alpha c = leb b'A' c && leb c b'Z' || leb b'a' c && leb c b'z' || eqb c b'_'

-- `\w`
abbrev pub is_word_char : ℕ → Bool
is_word_char c = is_alpha c || leb b'0' c && leb c b'9'

unfoldable pub is_safe_identifier : String → Bool
is_safe_identifier [] = false
is_safe_identifier (c ∷ s) = is_alpha (code c) && not (any (λ d. not (is_word_char d)) s)

-- The word stands here and ends here: `word\b`, for a word of `\w` characters.
unfoldable pub word_here : String → String → Bool
word_here [] [] = true
word_here [] (c ∷ s) = not (is_word_char (code c))
word_here (w ∷ ws) [] = false
word_here (w ∷ ws) (c ∷ s) = eqb (code w) (code c) && word_here ws s

-- `\bword\b` from a place on, given whether a `\w` stands before it
unfoldable pub word_from : Bool → String → String → Bool
word_from before word [] = false
word_from before word (c ∷ s) =
    not before && word_here word (c ∷ s) || word_from (is_word_char (code c)) word s

-- `containsWord`, the word first; the source caches the pattern of each word
unfoldable pub contains_word : String → String → Bool
contains_word word lower = word_from false word lower

-- the first of the keywords that stands in the text
unfoldable pub forbidden_in : List String → String → Option String
forbidden_in [] lower = none
forbidden_in (kw ∷ kws) lower =
    let rest = forbidden_in kws lower in if contains_word kw lower then some kw else rest

pub data ReadQuery : Type 0 where
  accepted : (query : String) → ReadQuery
  is_blank_query : ReadQuery
  too_long : ReadQuery
  control_character : ReadQuery
  has_comment : ReadQuery
  many_statements : ReadQuery
  not_a_select : ReadQuery
  not_allowed : (keyword : String) → ReadQuery

abbrev pub has_comment_marker : String → Bool
has_comment_marker q = contains "--" q || contains "/*" q || contains "*/" q || contains "#" q

-- `strings.TrimRight(q, "; \t\r\n")`
abbrev pub is_trailing : ℕ → Bool
is_trailing c = eqb c b';' || eqb c 32 || eqb c 9 || eqb c 13 || eqb c 10

abbrev pub is_select : String → Bool
is_select lower = has_prefix "select" lower || has_prefix "with" lower

abbrev pub bound : String → String
bound q = if contains_word "limit" (to_lower q) then q else append q limit_clause

-- the checks on a statement without its trailing semicolons
abbrev pub check_statement : String → ReadQuery
check_statement q =
    if contains ";" q
    then many_statements
    else if not (is_select (to_lower q))
    then not_a_select
    else elim (forbidden_in forbidden_keywords (to_lower q)) [
      | some kw ↦ not_allowed kw
      | none ↦ accepted (bound q)
    ]

unfoldable pub validate_read_sql : String → ReadQuery
validate_read_sql query =
    let q = trim_space query in
    if q == ""
    then is_blank_query
    else if ltb max_read_query_len (size q)
    then too_long
    else if any (λ c. eqb c 0) q
    then control_character
    else if has_comment_marker q
    then has_comment
    else check_statement (trim_right is_trailing q)
