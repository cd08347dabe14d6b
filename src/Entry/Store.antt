-- ===== src/Entry/Store.antt =====
-- The store of contexts that inflow/entry.go works against: what it uses of `repository.Store`, and
-- the laws it relies on; a list of rows has them. A row holds its text decoded: the source parses it
-- with encoding/json after each read and prints it before each write.
use morph_api.Prelude.{
  String, false, Option, some, List, [], ◌∷◌, ◌==◌, if◌then◌else◌, ◌≡◌, refl, sym, arith, eq_iff,
}
use morph_api.Json.{Fields}

-- The text of a row: blank, `null`, one that is not a JSON object, or an object.
pub data Body : Type 0 where
  blank : Body
  null_text : Body
  malformed : (text : String) → Body
  document : Fields → Body

pub record LastChange : Type 0 where
  pub by : String
  pub address : String

-- A row without its times, which the store sets.
pub record ContextRecord : Type 0 where
  pub id : String
  pub title : String
  pub context : Body
  pub header : Fields
  pub updated_by : LastChange

-- What `GetByID` answers.
pub data Fetched : Type 0 where
  found : ContextRecord → Fetched
  not_found : Fetched
  failed : Fetched

-- `upsert` answers no store when it fails. It is documented for a row that has an id: to one without,
-- the repository assigns an id.
pub record ContextStore (S : Type 0) : Type 1 where
  pub get_by_id : S → String → Fetched
  pub upsert : S → ContextRecord → Option S
  pub get-id : (s : S) (id : String) (r : ContextRecord) → get_by_id s id ≡ found r → r.id ≡ id
  pub get-upsert :
      (s t : S) (r : ContextRecord) (j : String)
      → (r.id == "") ≡ false
      → upsert s r ≡ some t
      → get_by_id t j ≡ (if r.id == j then found r else get_by_id s j)

unfoldable pub find_row : List ContextRecord → String → Fetched
find_row [] id = not_found
find_row (r ∷ rs) id = if r.id == id then found r else find_row rs id

pub find_row-get :
    (s t : List ContextRecord) (r : ContextRecord) (j : String)
    → (r.id == "") ≡ false
    → some (r ∷ s) ≡ some t
    → find_row t j ≡ (if r.id == j then found r else find_row s j)
unfolding find_row
find_row-get s t r j ne h = let same : (r ∷ s) ≡ t = ground arith in rw (sym same) refl

pub find_row-id :
    (rs : List ContextRecord) (id : String) (r : ContextRecord)
    → find_row rs id ≡ found r
    → r.id ≡ id
unfolding find_row
find_row-id [] id r h = ground arith
find_row-id (q ∷ rs) id r h = ground (arith, find_row-id rs id r, eq_iff q.id id)

-- The newest row at the head.
unfoldable pub rows_store : ContextStore (List ContextRecord)
rows_store = record {
  get_by_id = find_row;
  upsert = λ rs r. some (r ∷ rs);
  get-id = find_row-id;
  get-upsert = find_row-get;
}
