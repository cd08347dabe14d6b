-- ===== src/ContextPath/Examples.antt =====
-- Tests of models/contextpath.go, and its theorems at concrete documents.
use morph_api.Prelude.{◌≡◌, ◌≢◌, refl, inl, [], ◌∷◌, some, ◌==◌, true, eq_iff}
use morph_api.Prelude.Text.{contains, any, trim_space}
use morph_api.Json.{Value, num, str, obj, Fields, end, field, lookup, insert}
use morph_api.ContextPath.{
  parse_context_path, ok, err, exhausted, members, set_at, value_at_context_path, runs_through,
  render_context_path, not_a_member, trim_dollar, selects_many, write_at, read_members, cut_name,
  unquoted, bracketed, named, after_dot, unquote, cut_close,
}
use morph_api.ContextPath.Write.{value_at-set_at, value_at-set_at_ne}
use morph_api.ContextPath.Parse.{parse_total}
use morph_api.ContextPath.Render.{parse-render}

abbrev held : Fields
held = field "a" (num "42") (field "c" (obj end) end)

opened : Unit {0}
unfolding parse_context_path members trim_dollar selects_many trim_space contains any cut_name
    bracketed unquoted named after_dot unquote cut_close set_at write_at read_members
    value_at_context_path insert lookup render_context_path
opened = tt

parse_quoted : parse_context_path " $.input['order id'].x1 " ≡ ok ("input" ∷ "order id" ∷ "x1" ∷ [])
unfolding opened
parse_quoted = refl

parse_index : parse_context_path "$.items[0]" ≡ err (not_a_member "$.items[0]" "0")
unfolding opened
parse_index = refl

render_quoted : render_context_path ("input" ∷ "order id" ∷ "x1" ∷ []) ≡ "$.input['order id'].x1"
unfolding opened
render_quoted = refl

abbrev stopped : Value
stopped = str "x"

set_at_stops : (set_at held "$.a.b" stopped).1 ≡ some (runs_through "$.a.b" "$.a" "number")
unfolding opened
set_at_stops = refl

value_at-set_at_example :
    value_at_context_path (some (set_at held "$.c.b" stopped).0) "$.c.b" ≡ some (str "x")
unfolding opened
value_at-set_at_example = value_at-set_at held "$.c.b" stopped "c" ("b" ∷ []) refl refl

value_at-set_at_ne_example :
    value_at_context_path (some (set_at held "$.c.b" stopped).0) "a"
    ≡ value_at_context_path (some held) "a"
unfolding opened
value_at-set_at_ne_example =
    value_at-set_at_ne held "$.c.b" "a" stopped "c" ("b" ∷ []) ("a" ∷ []) refl refl
      (inl (λ e. differ ((eq_iff "c" "a").1 e)))
  where
    differ : ("c" == "a") ≡ true → ⊥
    differ h = cc

parse_total_example : parse_context_path "$[" ≢ err exhausted
parse_total_example = parse_total "$["

parse-render_example :
    parse_context_path (render_context_path ("order id" ∷ [])) ≡ ok ("order id" ∷ [])
unfolding any contains
parse-render_example =
    parse-render ("order id" ∷ [])
      (record { nonempty = refl; no_close = refl; no_many = refl; no_dots = refl }, tt)

abbrev seed : Fields
seed = field "a" (str "new") end
