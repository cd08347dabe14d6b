-- ===== src/Compile/Read.antt =====
-- The data-reading helpers at the end of inflow/node_builders.go, over the data of a node.
use Prim.Native.String.{[], ◌∷◌}
use morph_api.Prelude.{
  ℕ, ◌+◌, ◌*◌, ◌-◌, String, code, Bool, false, ◌&&◌, Option, none, some, List, ◌==◌, leb, ltb,
  if◌then◌else◌,
}
use morph_api.Prelude.Text.{append, trim_space}
use morph_api.Prelude.Decimal.{decimal}
use morph_api.Json.{Value, bool, num, str, obj, Fields, end, insert}
use morph_api.Patch.Values.{get, as_rows, or_empty}

unfoldable pub get_str : Fields → String → String
get_str fields key = elim (get key fields) [ str s ↦ s | _ ↦ "" ]

unfoldable pub get_bool : Fields → String → Bool
get_bool fields key = elim (get key fields) [ bool b ↦ b | str s ↦ s == "true" | _ ↦ false ]

unfoldable pub get_map : Fields → String → Fields
get_map fields key = elim (get key fields) [ obj m ↦ m | _ ↦ end ]

-- Its readers range over the rows or count them, so nil is the empty list.
unfoldable pub rows_of : Value → List Fields
rows_of v = or_empty (as_rows v)

-- Go's arithmetic of float64 on the literal texts of numbers: `fmt.Sscanf` with `%g`, the conversion
-- to int, the test against zero, and the product with a whole number.
pub record Floats : Type 0 where
  pub scan : String → Option String
  pub truncate : String → String
  pub is_positive : String → Bool
  pub times : String → ℕ → String

-- the number that some digits spell, which is none for other text
digits_of : ℕ → String → Option ℕ
digits_of n [] = some n
digits_of n (c ∷ s) =
    let rest = digits_of (n * 10 + (code c - b'0')) s in
    if leb b'0' (code c) && leb (code c) b'9' then rest else none

some_digits : String → Option ℕ
unfolding digits_of
some_digits [] = none
some_digits (c ∷ s) = digits_of 0 (c ∷ s)

abbrev max_int : ℕ
max_int = 9223372036854775807

abbrev positive_int : Option ℕ → Option String
positive_int none = none
positive_int (some n) = if leb n max_int then some (decimal n) else none

abbrev negative_int : Option ℕ → Option String
negative_int none = none
negative_int (some n) =
    if leb n (max_int + 1)
    then some (if ltb 0 n then append "-" (decimal n) else decimal n)
    else none

-- `strconv.Atoi`: the decimal text of a number of 64 bits, or its error
unfoldable pub atoi : String → Option String
unfolding some_digits
atoi [] = none
atoi (c ∷ s) =
    if leb (code c) b'-' && leb b'-' (code c)
    then negative_int (some_digits s)
    else if leb (code c) b'+' && leb b'+' (code c)
    then positive_int (some_digits s)
    else positive_int (some_digits (c ∷ s))

abbrev or_zero : Option String → String
or_zero none = "0"
or_zero (some n) = n

module _ (floats : Floats) where
  unfoldable pub get_float : Fields → String → String
  get_float fields key = elim (get key fields) [
    | num n ↦ n
    | str s ↦ or_zero (floats.scan s)
    | _ ↦ "0"
  ]

  abbrev pub put_parsed : Fields → String → Option String → Fields
  put_parsed out key none = out
  put_parsed out key (some n) = insert key (num n) out

  abbrev pub put_whole : Fields → String → Value → Fields
  put_whole out key (num n) = insert key (num (floats.truncate n)) out
  put_whole out key (str s) = put_parsed out key (atoi (trim_space s))
  put_whole out key _ = out

  unfoldable pub put_optional_int : Fields → Fields → String → Fields
  put_optional_int out profile key = put_whole out key (get key profile)

unfoldable pub delay_mode_seconds : String → ℕ
delay_mode_seconds mode =
    if mode == "seconds"
    then 1
    else if mode == "minutes"
    then 60
    else if mode == "hour"
    then 3600
    else if mode == "day"
    then 86400
    else 0
