-- ===== src/Patch/Values.antt =====
-- The small helpers at the end of designer/patch.go, over the values of a node's data.
use morph_api.Prelude.{
  String, Bool, false, ◌||◌, Option, none, some, List, [], ◌∷◌, ◌==◌, if◌then◌else◌,
}
use morph_api.Prelude.Text.{trim_space, contains, equal_fold}
use morph_api.Json.{
  Value, null, str, arr, obj, rows, Items, nil, cons, Fields, Rows, no_rows, row, lookup,
}

-- `m[k]`, which is nil for a missing key
unfoldable pub get : String → Fields → Value
get k m = elim (lookup k m) [ none ↦ null | some v ↦ v ]

unfoldable pub items : Items → List Value
items nil = []
items (cons v vs) = v ∷ items vs

pub row_list : Rows → List Fields
row_list no_rows = []
row_list (row r rs) = r ∷ row_list rs

pub to_rows : List Fields → Rows
to_rows [] = no_rows
to_rows (r ∷ rs) = row r (to_rows rs)

-- `none` is nil.
unfoldable pub as_object : Value → Option Fields
as_object (obj m) = some m
as_object _ = none

unfoldable pub as_slice : Value → List Value
as_slice (arr vs) = items vs
as_slice _ = []

-- the objects among some values
unfoldable pub objects : List Value → List Fields
objects [] = []
objects (obj m ∷ vs) = m ∷ objects vs
objects (_ ∷ vs) = objects vs

-- `none` is nil, for a field that is absent, which differs from an empty list.
unfoldable pub as_rows : Value → Option (List Fields)
as_rows (arr vs) = some (objects (items vs))
as_rows (rows rs) = some (row_list rs)
as_rows _ = none

-- `range` over a nil slice does nothing.
abbrev pub or_empty {ℓ} : {A : Type ℓ} → Option (List A) → List A
or_empty none = []
or_empty (some xs) = xs

unfoldable pub as_str : Value → String
as_str (str s) = s
as_str _ = ""

abbrev pub is_blank : String → Bool
is_blank s = trim_space s == ""

unfoldable pub first_str : List Value → String
first_str [] = ""
first_str (str s ∷ vs) = if is_blank s then first_str vs else s
first_str (_ ∷ vs) = first_str vs

unfoldable pub contains_fold : List String → String → Bool
contains_fold [] want = false
contains_fold (s ∷ ss) want = equal_fold s want || contains_fold ss want

unfoldable pub is_many_scope : String → Bool
is_many_scope scope = contains "[*]" scope || contains "[?" scope || contains ".." scope
