-- ===== src/Runs/Rows/Memory.antt =====
-- A list of rows as a repository of runs, the newest at the head.
use morph_api.Prelude.{
  ℕ, ◌+◌, String, Bool, true, false, ◌&&◌, Option, none, some, List, [], ◌∷◌, ◌==◌, eqb, ltb,
  if◌then◌else◌, ◌≡◌, refl, sym, arith, All, All-map, subst, inl, inr, Bool-cases, eq_iff,
}
use morph_api.Prelude.Int.{at_most}
use morph_api.Runs.Rows.{
  Status, scheduled, running, waiting, finished, stopped, failed, ProcessRecord, ProcessStore,
}

unfoldable pub row_at : List ProcessRecord → ℕ → Option ProcessRecord
row_at [] i = none
row_at (r ∷ rs) i = let rest = row_at rs i in if eqb r.index i then some r else rest

unfoldable pub replace : ProcessRecord → List ProcessRecord → List ProcessRecord
replace r [] = []
replace r (q ∷ qs) = let rest = replace r qs in if eqb q.index r.index then r ∷ qs else q ∷ rest

abbrev pub is_scheduled : Status → Bool
is_scheduled scheduled = true
is_scheduled _ = false

abbrev pub is_running : Status → Bool
is_running running = true
is_running _ = false

abbrev pub is_due : ℕ → ProcessRecord → Bool
is_due now r = is_scheduled r.status && at_most r.scheduled_at now

abbrev pub runs_as : String → ProcessRecord → Bool
runs_as pid r = is_running r.status && r.pid == pid

abbrev pub keep :
    (ProcessRecord → Bool) → Option ProcessRecord → List ProcessRecord → List ProcessRecord
keep p none rs = rs
keep p (some r) rs = if p r then r ∷ rs else rs

-- the rows that pass a test, each looked up by its index
unfoldable pub rows_where :
    (ProcessRecord → Bool) → List ProcessRecord → List ProcessRecord → List ProcessRecord
rows_where p all [] = []
rows_where p all (r ∷ rs) = keep p (row_at all r.index) (rows_where p all rs)

abbrev pub first : List ProcessRecord → Option ProcessRecord
first [] = none
first (r ∷ rs) = some r

pub row_at-index :
    (rs : List ProcessRecord) (i : ℕ) (r : ProcessRecord) → row_at rs i ≡ some r → r.index ≡ i
unfolding row_at
row_at-index [] i r h = ground arith
row_at-index (q ∷ qs) i r h = ground (arith, row_at-index qs i r)

-- one more than every index
unfoldable pub next_index : List ProcessRecord → ℕ
next_index [] = 1
next_index (r ∷ rs) = let n = next_index rs in if ltb r.index n then n else r.index + 1

abbrev pub insert_row : List ProcessRecord → ProcessRecord → ℕ → Option (List ProcessRecord × ℕ)
insert_row rs r n = some (record r { index = n } ∷ rs, n)

pub row_at-create :
    (s t : List ProcessRecord) (r : ProcessRecord) (n i j : ℕ)
    → insert_row s r n ≡ some (t, i)
    → row_at t j ≡ (if eqb i j then some (record r { index = i }) else row_at s j)
unfolding row_at
row_at-create s t r n i j h =
    let same : (record r { index = n } ∷ s) ≡ t = cc h in
    let at : n ≡ i = cc h in
    subst (λ x. row_at x j ≡ (if eqb i j then some (record r { index = i }) else row_at s j)) same
      (rw at refl)

pub row_at-replace :
    (s : List ProcessRecord) (old r : ProcessRecord) (j : ℕ)
    → row_at s r.index ≡ some old
    → row_at (replace r s) j ≡ (if eqb r.index j then some r else row_at s j)
unfolding row_at replace
row_at-replace [] old r j h = ground arith
row_at-replace (q ∷ qs) old r j h = ground (arith, row_at-replace qs old r j)

keep-All :
    (p : ProcessRecord → Bool) (all : List ProcessRecord) (i : ℕ) (o : Option ProcessRecord)
    (rs : List ProcessRecord)
    → row_at all i ≡ o
    → All (λ r. (p r ≡ true) × (row_at all r.index ≡ some r)) rs
    → All (λ r. (p r ≡ true) × (row_at all r.index ≡ some r)) (keep p o rs)
keep-All p all i none rs e h = h
keep-All p all i (some r) rs e h = elim (Bool-cases (p r)) [
  | inl t ↦ rw t ((t, subst (λ k. row_at all k ≡ some r) (sym (row_at-index all i r e)) e), h)
  | inr t ↦ rw t h
]

pub rows_where-All :
    (p : ProcessRecord → Bool) (all rs : List ProcessRecord)
    → All (λ r. (p r ≡ true) × (row_at all r.index ≡ some r)) (rows_where p all rs)
unfolding rows_where
rows_where-All p all [] = tt
rows_where-All p all (r ∷ rs) =
    keep-All p all r.index (row_at all r.index) (rows_where p all rs) refl (rows_where-All p all rs)

is_scheduled-eq : (s : Status) → is_scheduled s ≡ true → s ≡ scheduled
is_scheduled-eq scheduled h = refl
is_scheduled-eq running h = cc h
is_scheduled-eq waiting h = cc h
is_scheduled-eq finished h = cc h
is_scheduled-eq stopped h = cc h
is_scheduled-eq failed h = cc h

is_running-eq : (s : Status) → is_running s ≡ true → s ≡ running
is_running-eq running h = refl
is_running-eq scheduled h = cc h
is_running-eq waiting h = cc h
is_running-eq finished h = cc h
is_running-eq stopped h = cc h
is_running-eq failed h = cc h

pub due_rows-status :
    (s : List ProcessRecord) (now : ℕ) (rs : List ProcessRecord)
    → some (rows_where (is_due now) s s) ≡ some rs
    → All
        (λ r.
          (r.status ≡ scheduled)
          × (at_most r.scheduled_at now ≡ true)
          × (row_at s r.index ≡ some r))
        rs
due_rows-status s now rs h =
    let same : rows_where (is_due now) s s ≡ rs = cc h in
    subst
      (All (λ r.
        (r.status ≡ scheduled) × (at_most r.scheduled_at now ≡ true) × (row_at s r.index ≡ some r)))
      same
      (All-map (λ r (d, e). (is_scheduled-eq r.status (ground (arith, d)), ground (arith, d), e))
        (rows_where (is_due now) s s) (rows_where-All (is_due now) s s))

pub first-status :
    (s rs : List ProcessRecord) (pid : String) (r : ProcessRecord)
    → All (λ r. (runs_as pid r ≡ true) × (row_at s r.index ≡ some r)) rs
    → first rs ≡ some r
    → (r.status ≡ running) × (r.pid ≡ pid) × (row_at s r.index ≡ some r)
first-status s [] pid r h e = absurd (cc e)
first-status s (q ∷ qs) pid r ((d, g), h) e =
    let same : q ≡ r = cc e in
    subst (λ q. (q.status ≡ running) × (q.pid ≡ pid) × (row_at s q.index ≡ some q)) same
      (is_running-eq q.status (ground (arith, d)), ground (arith, d, eq_iff q.pid pid), g)

abbrev pub has_pid : String → ProcessRecord → Bool
has_pid pid r = r.pid == pid

unfoldable pub list_store : ProcessStore (List ProcessRecord)
list_store = record {
  create = λ rs r. insert_row rs r (next_index rs);
  update = λ rs r. some (replace r rs);
  get_by_index = row_at;
  by_pid = λ rs pid. first (rows_where (has_pid pid) rs rs);
  running_by_pid = λ rs pid. first (rows_where (runs_as pid) rs rs);
  list_due = λ rs now. some (rows_where (is_due now) rs rs);
  get-index = row_at-index;
  get-create = λ s t r i j h. row_at-create s t r (next_index s) i j h;
  get-update = λ s t old r j f h.
      let same : replace r s ≡ t = cc h in
      subst (λ x. row_at x j ≡ (if eqb r.index j then some r else row_at s j)) same
        (row_at-replace s old r j f);
  running-status = λ s pid r h.
      first-status s (rows_where (runs_as pid) s s) pid r (rows_where-All (runs_as pid) s s) h;
  due-status = due_rows-status;
}
