-- ===== src/Runs/Rows.antt =====
-- The rows of runs (models/process.go), and the repository of them (repository/repository.go) as the
-- operations that the program uses with the laws that it relies on. A list of rows has them.
pub mod Memory
use morph_api.Prelude.{
  ℕ, String, Bool, true, false, Option, none, some, List, eqb, if◌then◌else◌, ◌≡◌, All,
}
use morph_api.Prelude.Int.{ℤ, at_most}
use morph_api.Json.{Fields}
use morph_api.Entry.Seed.{SeedError}

pub data Status : Type 0 where
  scheduled running waiting finished stopped failed : Status

-- Why a run could not be started; a text of the engine or of a validation is kept as it is.
pub data LaunchError : Type 0 where
  no_flow_id no_context_id no_start_node not_recorded request_not_recorded : LaunchError
  not_claimed launch_not_recorded : LaunchError
  flow_not_loaded : (id : String) → LaunchError
  entry_refused : (message : String) → LaunchError
  entry_required : (flow_id : String) → LaunchError
  not_seeded : SeedError → LaunchError
  not_built : (text : String) → LaunchError
  not_dispatched : (text : String) → LaunchError

-- The error kept on a row: a text of the engine, or that of a launch.
pub data RowError : Type 0 where
  engine_text : String → RowError
  launch_error : LaunchError → RowError

pub record ProcessRecord : Type 0 where
  pub index : ℕ
  pub pid : String
  pub instance_id : String
  pub flow_id : String
  pub context_id : String
  pub start_node_id : String
  pub status : Status
  pub resource_url : String
  pub request : Fields
  pub meta : Fields
  pub snapshot : Fields
  pub error : RowError
  pub scheduled_at : ℤ
  pub started_at : ℕ
  pub finished_at : ℕ
  pub duration : ℕ

-- A write answers no store when it fails, and a read no row when there is none or when it fails.
-- `by_pid` is the newest row of a pid.
pub record ProcessStore (S : Type 0) : Type 1 where
  pub create : S → ProcessRecord → Option (S × ℕ)
  pub update : S → ProcessRecord → Option S
  pub get_by_index : S → ℕ → Option ProcessRecord
  pub by_pid : S → String → Option ProcessRecord
  pub running_by_pid : S → String → Option ProcessRecord
  pub list_due : S → ℕ → Option (List ProcessRecord)
  pub get-index : (s : S) (i : ℕ) (r : ProcessRecord) → get_by_index s i ≡ some r → r.index ≡ i
  pub get-create :
      (s t : S) (r : ProcessRecord) (i j : ℕ)
      → create s r ≡ some (t, i)
      → get_by_index t j ≡ (if eqb i j then some (record r { index = i }) else get_by_index s j)
  pub get-update :
      (s t : S) (old r : ProcessRecord) (j : ℕ)
      → get_by_index s r.index ≡ some old
      → update s r ≡ some t
      → get_by_index t j ≡ (if eqb r.index j then some r else get_by_index s j)
  pub running-status :
      (s : S) (pid : String) (r : ProcessRecord)
      → running_by_pid s pid ≡ some r
      → (r.status ≡ running) × (r.pid ≡ pid) × (get_by_index s r.index ≡ some r)
  pub due-status :
      (s : S) (now : ℕ) (rs : List ProcessRecord)
      → list_due s now ≡ some rs
      → All
          (λ r.
            (r.status ≡ scheduled)
            × (at_most r.scheduled_at now ≡ true)
            × (get_by_index s r.index ≡ some r))
          rs
