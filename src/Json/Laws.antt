-- ===== src/Json/Laws.antt =====
-- The laws of `map[string]any`, and its normal form: a map holds each key once.
use morph_api.Prelude.{
  String, Option, none, some, ◌≡◌, refl, Bool, true, false, arith, eq_iff, ◌==◌, if◌then◌else◌,
}
use morph_api.Json.{Value, Fields, end, field, lookup, insert, merge, erase}

-- `ground` is given `eq_iff` at each pair of texts that is compared.
pub lookup-insert :
    (k j : String) (v : Value) (m : Fields)
    → lookup j (insert k v m) ≡ (if k == j then some v else lookup j m)
unfolding lookup insert
lookup-insert k j v end = refl
lookup-insert k j v (field i w m) =
    ground (arith, eq_iff k j, eq_iff i k, eq_iff i j, lookup-insert k j v m)

pub lookup-erase :
    (k j : String) (m : Fields) → lookup j (erase k m) ≡ (if k == j then none else lookup j m)
unfolding lookup erase
lookup-erase k j end = ground arith
lookup-erase k j (field i w m) =
    ground (arith, eq_iff k j, eq_iff i k, eq_iff i j, lookup-erase k j m)

-- The value of the first that has one.
abbrev pub or_else {ℓ} : {A : Type ℓ} → Option A → Option A → Option A
or_else (some a) o = some a
or_else none o = o

pub lookup-merge :
    (dst src : Fields) (k : String)
    → lookup k (merge dst src) ≡ or_else (lookup k src) (lookup k dst)
unfolding lookup merge
lookup-merge dst end k = refl
lookup-merge dst (field j v src) k =
    ground (arith, eq_iff j k, lookup-insert j k v (merge dst src), lookup-merge dst src k)

-- Writing back what a key holds changes nothing.
pub insert_self : (k : String) (v : Value) (m : Fields) → lookup k m ≡ some v → insert k v m ≡ m
unfolding lookup insert
insert_self k v (field j w m) h = ground (arith, eq_iff j k, insert_self k v m)
insert_self k v end h = ground arith

-- No key is there twice.
unfoldable pub is_map : Fields → Bool
is_map end = true
is_map (field k v m) = elim (lookup k m) [ none ↦ is_map m | some w ↦ false ]

pub lookup-insert_same : (k : String) (v : Value) (m : Fields) → lookup k (insert k v m) ≡ some v
lookup-insert_same k v m = ground (arith, eq_iff k k, lookup-insert k k v m)

pub lookup-insert_ne :
    (k j : String) (v : Value) (m : Fields)
    → (k == j) ≡ false
    → lookup j (insert k v m) ≡ lookup j m
lookup-insert_ne k j v m h = ground (arith, lookup-insert k j v m)

pub lookup-erase_same : (k : String) (m : Fields) → lookup k (erase k m) ≡ none
lookup-erase_same k m = ground (arith, eq_iff k k, lookup-erase k k m)

pub lookup-erase_ne :
    (k j : String) (m : Fields) → (k == j) ≡ false → lookup j (erase k m) ≡ lookup j m
lookup-erase_ne k j m h = ground (arith, lookup-erase k j m)
