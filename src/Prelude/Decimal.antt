-- ===== src/Prelude/Decimal.antt =====
-- `%d`: the decimal text of a number.
use Prim.Native.Nat.{ℕ, zero, suc, ◌/◌, ◌%◌}
use Prim.Native.Char.{Char}
use Prim.Native.String.{String, [], ◌∷◌}
use morph_api.Prelude.Tests.{ltb, eqb, if◌then◌else◌}

digit : ℕ → Char
digit d =
    if eqb d 0
    then "0"
    else if eqb d 1
    then "1"
    else if eqb d 2
    then "2"
    else if eqb d 3
    then "3"
    else if eqb d 4
    then "4"
    else if eqb d 5
    then "5"
    else if eqb d 6
    then "6"
    else if eqb d 7
    then "7"
    else if eqb d 8
    then "8"
    else "9"

-- The digits before those in `after`; a number has at most as many as itself and one more.
digits : ℕ → ℕ → String → String
unfolding digit
digits zero n after = after
digits (suc fuel) n after =
    let more = digits fuel (n / 10) (digit (n % 10) ∷ after) in
    if ltb n 10 then digit n ∷ after else more

unfoldable pub decimal : ℕ → String
unfolding digits
decimal n = digits (suc n) n []
