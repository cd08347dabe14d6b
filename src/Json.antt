-- ===== src/Json.antt =====
-- The values that Go code holds in an `any` (encoding/json, and the typed slices that
-- designer/patch.go stores), and the operations on `map[string]any` that the program uses.
pub mod Laws
use morph_api.Prelude.{String, Bool, Option, none, some, List, ◌==◌, if◌then◌else◌}

-- A number is its literal text: nothing here computes with it.
mutual
  pub data Value : Type 0 where
    null : Value
    bool : Bool → Value
    num : String → Value
    str : String → Value
    arr : Items → Value
    obj : Fields → Value
    rows : Rows → Value
    strs : List String → Value

  pub data Items : Type 0 where
    nil : Items
    cons : Value → Items → Items

  -- a `map[string]any`, in no particular order of its keys
  pub data Fields : Type 0 where
    end : Fields
    field : String → Value → Fields → Fields

  -- a `[]map[string]any`
  pub data Rows : Type 0 where
    no_rows : Rows
    row : Fields → Rows → Rows

-- `m[k]`
unfoldable pub lookup : String → Fields → Option Value
lookup k end = none
lookup k (field j v fs) = if j == k then some v else lookup k fs

-- `m[k] = v`
unfoldable pub insert : String → Value → Fields → Fields
insert k v end = field k v end
insert k v (field j w fs) = if j == k then field k v fs else field j w (insert k v fs)

-- `for k, v := range src { dst[k] = v }`
unfoldable pub merge : Fields → Fields → Fields
unfolding insert
merge dst end = dst
merge dst (field k v fs) = insert k v (merge dst fs)

-- `delete(m, k)`
unfoldable pub erase : String → Fields → Fields
erase k end = end
erase k (field j v fs) = let rest = erase k fs in if j == k then rest else field j v rest
