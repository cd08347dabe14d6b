-- ===== src/Tags.antt =====
-- models/tags.go: the canonical form of a list of tags.
pub mod Dashes
pub mod Canonical
pub mod Distinct
mod Examples
use Prim.Native.String.{[], ◌∷◌}
use morph_api.Prelude.{
  ℕ, zero, suc, ◌+◌, String, code, Bool, true, false, ◌&&◌, ◌||◌, Option, none, some, List, [], ◌∷◌,
  ◌++◌, ◌==◌, eqb, ltb, leb, length, if◌then◌else◌,
}
use morph_api.Prelude.Text.{size, contains, trim, trim_space, to_lower}
use morph_api.Prelude.Membership.{mem}

abbrev pub max_tag_len : ℕ
max_tag_len = 64

abbrev pub max_tag_count : ℕ
max_tag_count = 32

abbrev pub is_dash : ℕ → Bool
is_dash c = eqb c b'-'

-- The characters that the map drops, and those that it turns into a dash.
abbrev pub is_dropped : ℕ → Bool
is_dropped c = eqb c b',' || eqb c b'"'

abbrev pub is_blank_char : ℕ → Bool
is_blank_char c = eqb c 32 || eqb c 9 || eqb c 10 || eqb c 13

-- `strings.Map` with the function of the source
unfoldable pub dash_map : String → String
dash_map [] = []
dash_map (c ∷ s) =
    let rest = dash_map s in
    if is_dropped (code c) then rest else if is_blank_char (code c) then "-" ∷ rest else c ∷ rest

-- `strings.ReplaceAll(t, "--", "-")`, which replaces from the left without overlap
unfoldable pub halve_dashes : String → String
halve_dashes [] = []
halve_dashes (c ∷ []) = c ∷ []
halve_dashes (c ∷ d ∷ s) =
    let paired = halve_dashes s in
    let single = halve_dashes (d ∷ s) in
    if is_dash (code c) && is_dash (code d) then c ∷ paired else c ∷ single

-- The loop while the text has two dashes in a row, on fuel.
unfoldable pub squeeze : ℕ → String → String
squeeze zero t = t
squeeze (suc fuel) t =
    let next = squeeze fuel (halve_dashes t) in if contains "--" t then next else t

-- A tag before the test for one already seen: the fuel is its length, since each round shortens it.
unfoldable pub clean_tag : String → String
clean_tag raw = let t = dash_map (to_lower (trim_space raw)) in trim is_dash (squeeze (size t) t)

-- `t[:MaxTagLen]`, where t is longer
unfoldable pub take_text : ℕ → String → String
take_text zero s = []
take_text (suc n) [] = []
take_text (suc n) (c ∷ s) = c ∷ take_text n s

abbrev pub shorten : String → String
shorten t = if ltb max_tag_len (size t) then take_text max_tag_len t else t

-- The loop: `seen` holds what `out` holds.
unfoldable pub add_tags : List String → List String → List String
add_tags out [] = out
add_tags out (raw ∷ raws) =
    let t = clean_tag raw in
    let grown = out ++ shorten t ∷ [] in
    let skipped = add_tags out raws in
    let more = add_tags grown raws in
    if t == "" || mem t out
    then skipped
    else if eqb (length grown) max_tag_count
    then grown
    else more

-- `none` is nil.
unfoldable pub normalize_tags : Option (List String) → Option (List String)
normalize_tags none = none
normalize_tags (some raws) = some (add_tags [] raws)
