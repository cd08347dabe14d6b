-- ===== src/ContextPath.antt =====
-- models/contextpath.go: the path of one location in a context document, and reading and writing
-- that location. A document is a tree, so the write through pointers returns the new document.
pub mod Write
pub mod Parse
pub mod Render
mod Examples
use Prim.Native.String.{[], ◌∷◌}
use morph_api.Prelude.{
  ℕ, zero, suc, String, code, Bool, true, false, ◌&&◌, ◌||◌, Option, none, some, List, [], ◌∷◌,
  ◌++◌, ◌==◌, eqb, leb, if◌then◌else◌, ◌≡◌, refl, ◌⊎◌, inl, inr,
}
use morph_api.Prelude.Text.{append, size, is_empty, trim_space, has_prefix, contains, any}
use morph_api.Json.{
  Value, null, bool, num, str, arr, obj, rows, strs, Fields, end, lookup, insert, merge,
}

-- The messages of `fmt.Errorf`, with what they are formatted from.
pub data PathError : Type 0 where
  many_locations : (path : String) → PathError
  unclosed_bracket : (path : String) → PathError
  not_a_member : (path raw : String) → PathError
  ends_in_dot : (path : String) → PathError
  empty_member : (path : String) → PathError
  no_document : PathError
  root_not_object : (path kind : String) → PathError
  runs_through : (path through kind : String) → PathError
  -- the fuel of `members` ran out: `parse_total` shows that this is never returned
  exhausted : PathError

pub data Result {ℓ} (A : Type ℓ) : Type ℓ where
  ok : A → Result A
  err : PathError → Result A

-- `out = append(out, name)` before the rounds that follow
abbrev pub keep : String → Result (List String) → Result (List String)
keep name (ok names) = ok (name ∷ names)
keep name (err e) = err e

-- the text before the first `]` and the text after it
pub cut_close : String → Option (String × String)
cut_close [] = none
cut_close (c ∷ s) =
    let rest = cut_close s in
    if eqb (code c) b']'
    then some ([], s)
    else elim rest [ none ↦ none | some (a, b) ↦ some (c ∷ a, b) ]

abbrev is_quote : ℕ → Bool
is_quote c = eqb c 39 || eqb c 34

abbrev last_is : ℕ → String → Bool
last_is q [] = false
last_is q (c ∷ s) = let later = last_is q s in if is_empty s then eqb (code c) q else later

-- all but the last character
init : String → String
init [] = []
init (c ∷ s) = let rest = init s in if is_empty s then [] else c ∷ rest

-- `raw[0]` is a quote, `raw` ends in the same one, and something stands between: that text.
pub unquote : String → Option String
unfolding init
unquote [] = none
unquote (q ∷ s) =
    if is_quote (code q) && leb 2 (size s) && last_is (code q) s then some (init s) else none

-- the name up to the first `.` or `[`, and the rest from there
pub cut_name : String → String × String
cut_name [] = ([], [])
cut_name (c ∷ s) =
    let rest = cut_name s in
    if eqb (code c) b'.' || eqb (code c) b'[' then ([], c ∷ s) else (c ∷ rest.0, rest.1)

-- The three branches of a round, over the rounds that follow.
module _ (rest : String → Result (List String)) (path : String) where
  unquoted : (raw after : String) → Option String → Result (List String)
  unquoted raw after none = err (not_a_member path raw)
  unquoted raw after (some name) = keep name (rest after)

  -- `['name']`, with its bracket taken
  bracketed : Option (String × String) → Result (List String)
  bracketed none = err (unclosed_bracket path)
  bracketed (some (inside, after)) = let raw = trim_space inside in unquoted raw after (unquote raw)

  -- a name that ends before `.`, `[` or at the end
  named : String × String → Result (List String)
  named ([], after) = err (empty_member path)
  named (c ∷ name, after) = keep (c ∷ name) (rest after)

  -- `.`, with the dot taken
  after_dot : String → Result (List String)
  after_dot [] = err (ends_in_dot path)
  after_dot (c ∷ s) = if eqb (code c) b'[' then rest (c ∷ s) else named (cut_name (c ∷ s))

-- The loop of `ParseContextPath`. Each round takes a character at least, so the length of the text
-- is enough fuel.
pub members : ℕ → String → String → Result (List String)
members fuel path [] = ok []
members zero path (c ∷ s) = err exhausted
members (suc fuel) path (c ∷ s) =
    if eqb (code c) b'['
    then bracketed (members fuel path) path (cut_close s)
    else if eqb (code c) b'.'
    then after_dot (members fuel path) path s
    else named (members fuel path) path (cut_name (c ∷ s))

-- `strings.TrimPrefix(p, "$")`
pub trim_dollar : String → String
trim_dollar [] = []
trim_dollar (c ∷ s) = if eqb (code c) b'$' then s else c ∷ s

-- `*`, `?` and `@` select many locations, and so does `..`.
pub selects_many : String → Bool
selects_many p = contains ".." p || any (λ c. eqb c b'*' || eqb c b'?' || eqb c b'@') p

unfoldable pub parse_context_path : String → Result (List String)
parse_context_path path =
    let p = trim_space path in
    let q = trim_dollar p in
    if p == "" || p == "$"
    then ok []
    else if selects_many q
    then err (many_locations path)
    else members (size q) path q

json_kind : Value → String
json_kind null = "null"
json_kind (obj fs) = "object"
json_kind (arr xs) = "array"
json_kind (str s) = "string"
json_kind (bool b) = "boolean"
json_kind _ = "number"

-- the letters, and the digits after the first place
is_letter : ℕ → Bool
is_letter c = leb b'a' c && leb c b'z' || leb b'A' c && leb c b'Z' || eqb c b'_'

is_word : ℕ → Bool
unfolding is_letter
is_word c = is_letter c || leb b'0' c && leb c b'9'

all_word : String → Bool
unfolding is_word
all_word [] = true
all_word (c ∷ s) = is_word (code c) && all_word s

pub is_plain_member : String → Bool
unfolding all_word is_letter
is_plain_member [] = false
is_plain_member (c ∷ s) = is_letter (code c) && all_word s

-- the loop of `renderContextPath`, whose builder starts with `$`
pub render_members : List String → String
unfolding is_plain_member
render_members [] = ""
render_members (m ∷ ms) =
    let rest = render_members ms in
    if is_plain_member m
    then append "." (append m rest)
    else append "['" (append m (append "']" rest))

unfoldable pub render_context_path : List String → String
unfolding render_members
render_context_path ms = append "$" (render_members ms)

-- `cur[m] = child` before the descent, whose writes go through `child` into the document
put_child : String → Fields → Fields × Option PathError → Fields × Option PathError
put_child m doc (child, e) = (insert m (obj child) doc, e)

-- One round of the descent of `SetAtContextPath`, by what the member holds; `deeper` is the rest.
-- The document comes back beside the error too, with what was written before it.
step_into :
    (path : String) (walked : List String) (deeper : Fields → Fields × Option PathError)
    (m : String) (doc : Fields)
    → Option Value
    → Fields × Option PathError
unfolding put_child json_kind
step_into path walked deeper m doc none = put_child m doc (deeper end)
step_into path walked deeper m doc (some null) = put_child m doc (deeper end)
step_into path walked deeper m doc (some (obj child)) = put_child m doc (deeper child)
step_into path walked deeper m doc (some held) =
    (doc, some (runs_through path (render_context_path walked) (json_kind held)))

module _ (path : String) (value : Value) where
  -- The descent and the last write. The members walked so far stand in `walked`.
  write_members : List String → List String → Fields → Fields × Option PathError
  unfolding step_into insert lookup
  write_members walked [] doc = (doc, none)
  write_members walked (m ∷ []) doc = (insert m value doc, none)
  write_members walked (m ∷ n ∷ ms) doc =
      step_into path (walked ++ m ∷ []) (write_members (walked ++ m ∷ []) (n ∷ ms)) m doc
        (lookup m doc)

  -- At the root an object is merged into the document.
  write_root : Value → Fields → Fields × Option PathError
  unfolding merge json_kind
  write_root (obj fs) doc = (merge doc fs, none)
  write_root v doc = (doc, some (root_not_object path (json_kind v)))

  unfoldable pub write_at : List String → Fields → Fields × Option PathError
  unfolding write_members write_root
  write_at [] doc = write_root value doc
  write_at (m ∷ ms) doc = write_members [] (m ∷ ms) doc

-- The document and the error, if any. A nil document is refused by `set_at_context_path`.
unfoldable pub set_at : Fields → String → Value → Fields × Option PathError
set_at doc path value = elim (parse_context_path path) [
  | err e ↦ (doc, some e)
  | ok members ↦ write_at path value members doc
]

unfoldable pub set_at_context_path :
    Option Fields → String → Value → Option Fields × Option PathError
set_at_context_path none path value = (none, some no_document)
set_at_context_path (some doc) path value = let (doc', e) = set_at doc path value in (some doc', e)

-- `return cur, cur != nil`
abbrev present : Value → Option Value
present null = none
present v = some v

-- the loop of `ValueAtContextPath`, from a value
unfoldable pub read_members : List String → Value → Option Value
unfolding lookup
read_members [] v = present v
read_members (m ∷ ms) (obj fs) = elim (lookup m fs) [ none ↦ none | some v ↦ read_members ms v ]
read_members (m ∷ ms) _ = none

unfoldable pub value_at_context_path : Option Fields → String → Option Value
value_at_context_path none path = none
value_at_context_path (some doc) path = elim (parse_context_path path) [
  | err e ↦ none
  | ok members ↦ read_members members (obj doc)
]

pub Result-cases {ℓ} :
    {A : Type ℓ} (r : Result A) → ((a : A) × (r ≡ ok a)) ⊎ ((e : PathError) × (r ≡ err e))
Result-cases (ok a) = inl (a, refl)
Result-cases (err e) = inr (e, refl)
