-- ===== src/Prelude/Text.antt =====
-- What the program uses of Go's `strings`, over the code points of a text. A text whose characters
-- are ASCII has one byte for each of them, so positions and lengths are those of the source.
pub mod Laws
use Prim.Native.Nat.{ℕ, zero, suc, ◌+◌, ◌-◌, ◌/◌, ◌%◌}
use Prim.Native.Char.{Char, code}
use Prim.Native.String.{String, [], ◌∷◌}
use mathlib.Core.List.{List, [], ◌∷◌}
use mathlib.Core.Bool.{Bool, true, false, not, ◌&&◌, ◌||◌}
use text.Mathlib.Text.{◌==◌}
use morph_api.Prelude.Tests.{leb, eqb, if◌then◌else◌}

abbrev pub size : String → ℕ
size [] = 0
size (c ∷ s) = suc (size s)

-- `s + t`
abbrev pub append : String → String → String
append [] t = t
append (c ∷ s) t = c ∷ append s t

abbrev pub is_empty : String → Bool
is_empty [] = true
is_empty (c ∷ s) = false

-- `unicode.IsSpace`
unfoldable pub is_space : ℕ → Bool
is_space c =
    leb 9 c && leb c 13
    || eqb c 32
    || eqb c 0x85
    || eqb c 0xa0
    || eqb c 0x1680
    || leb 0x2000 c && leb c 0x200a
    || eqb c 0x2028
    || eqb c 0x2029
    || eqb c 0x202f
    || eqb c 0x205f
    || eqb c 0x3000

-- `strings.TrimLeft`, `TrimRight` and `Trim`, over a test on characters
unfoldable pub trim_left : (ℕ → Bool) → String → String
trim_left p [] = []
trim_left p (c ∷ s) = let rest = trim_left p s in if p (code c) then rest else c ∷ s

unfoldable pub trim_right : (ℕ → Bool) → String → String
trim_right p [] = []
trim_right p (c ∷ s) =
    let rest = trim_right p s in if is_empty rest && p (code c) then [] else c ∷ rest

unfoldable pub trim : (ℕ → Bool) → String → String
unfolding trim_left trim_right
trim p s = trim_right p (trim_left p s)

-- `strings.TrimSpace`
unfoldable pub trim_space : String → String
unfolding trim is_space
trim_space s = trim is_space s

-- `strings.HasPrefix`, the prefix first
unfoldable pub has_prefix : String → String → Bool
has_prefix [] s = true
has_prefix (c ∷ p) [] = false
has_prefix (c ∷ p) (d ∷ s) = eqb (code c) (code d) && has_prefix p s

-- `strings.Contains`, the part first
unfoldable pub contains : String → String → Bool
unfolding has_prefix
contains part [] = is_empty part
contains part (c ∷ s) = has_prefix part (c ∷ s) || contains part s

-- whether some character passes the test, as `strings.ContainsAny` asks
unfoldable pub any : (ℕ → Bool) → String → Bool
any p [] = false
any p (c ∷ s) = p (code c) || any p s

-- `strings.Join`, the separator first
unfoldable pub join : String → List String → String
join sep [] = ""
join sep (s ∷ []) = s
join sep (s ∷ t ∷ more) = append s (append sep (join sep (t ∷ more)))

-- the i-th character, or the given one past the end
pick : String → ℕ → Char → Char
pick [] i d = d
pick (c ∷ s) zero d = c
pick (c ∷ s) (suc i) d = pick s i d

-- `unicode.ToLower` on ASCII
unfoldable pub lower_char : Char → Char
unfolding pick
lower_char c =
    if leb b'A' (code c) && leb (code c) b'Z'
    then pick "abcdefghijklmnopqrstuvwxyz" (code c - b'A') c
    else c

-- `strings.ToLower`
unfoldable pub to_lower : String → String
unfolding lower_char
to_lower [] = []
to_lower (c ∷ s) = lower_char c ∷ to_lower s

abbrev fold_code : ℕ → ℕ
fold_code c = if leb b'A' c && leb c b'Z' then c + 32 else c

-- `strings.EqualFold` on ASCII
unfoldable pub equal_fold : String → String → Bool
equal_fold [] [] = true
equal_fold (c ∷ s) (d ∷ t) = eqb (fold_code (code c)) (fold_code (code d)) && equal_fold s t
equal_fold [] (d ∷ t) = false
equal_fold (c ∷ s) [] = false

hex_digit : ℕ → String
unfolding pick
hex_digit n = pick "0123456789abcdef" n "0" ∷ []

-- one character as `%q` prints it; a character above ASCII is printed as it is
escape : Char → String
unfolding hex_digit
escape c =
    if eqb (code c) 34
    then "\\\""
    else if eqb (code c) 92
    then "\\\\"
    else if eqb (code c) 7
    then "\\a"
    else if eqb (code c) 8
    then "\\b"
    else if eqb (code c) 9
    then "\\t"
    else if eqb (code c) 10
    then "\\n"
    else if eqb (code c) 11
    then "\\v"
    else if eqb (code c) 12
    then "\\f"
    else if eqb (code c) 13
    then "\\r"
    else if leb (code c) 31 || eqb (code c) 127
    then append "\\x" (append (hex_digit (code c / 16)) (hex_digit (code c % 16)))
    else c ∷ []

escaped : String → String
unfolding escape
escaped [] = []
escaped (c ∷ s) = append (escape c) (escaped s)

-- `%q`
unfoldable pub quote : String → String
unfolding escaped
quote s = append "\"" (append (escaped s) "\"")
