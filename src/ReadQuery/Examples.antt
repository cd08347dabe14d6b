-- ===== src/ReadQuery/Examples.antt =====
-- Tests of `ValidateReadSQL`, and its theorem at a query.
use morph_api.Prelude.{◌≡◌, refl, true}
use morph_api.Prelude.Text.{
  trim_space, trim, trim_left, trim_right, is_space, contains, has_prefix, any, to_lower,
  lower_char,
}
use morph_api.ReadQuery.{
  validate_read_sql, accepted, not_allowed, forbidden_in, contains_word, word_from, word_here,
  is_safe_identifier,
}
use morph_api.ReadQuery.Laws.{IsReadOnly, validate_read_sql-IsReadOnly}

accepts : validate_read_sql " SELECT a FROM t; " ≡ accepted "SELECT a FROM t LIMIT 1000"
unfolding validate_read_sql forbidden_in contains_word word_from word_here trim_space trim trim_left
    trim_right is_space contains has_prefix any to_lower lower_char
accepts = refl

refuses : validate_read_sql "with x as (select 1) DELETE from t" ≡ not_allowed "delete"
unfolding validate_read_sql forbidden_in contains_word word_from word_here trim_space trim trim_left
    trim_right is_space contains has_prefix any to_lower lower_char
refuses = refl

-- The limit of a subquery keeps the cap off the whole.
uncapped :
    validate_read_sql "select a from t where b in (select c from u limit 1)"
    ≡ accepted "select a from t where b in (select c from u limit 1)"
unfolding validate_read_sql forbidden_in contains_word word_from word_here trim_space trim trim_left
    trim_right is_space contains has_prefix any to_lower lower_char
uncapped = refl

safe_name : is_safe_identifier "notes_2" ≡ true
unfolding is_safe_identifier any
safe_name = refl

validate_read_sql-IsReadOnly_example : IsReadOnly "SELECT a FROM t LIMIT 1000"
validate_read_sql-IsReadOnly_example =
    validate_read_sql-IsReadOnly " SELECT a FROM t; " "SELECT a FROM t LIMIT 1000" accepts
