-- ===== src/Runs/Schedule/Laws.antt =====
-- A row that came due is taken once.
use morph_api.Prelude.{
  ℕ, ◌+◌, String, ◌≡◌, ◌⊎◌, refl, sym, subst, inl, inr, Option, none, some, List, [], ◌∷◌, ◌==◌,
  ◌||◌, eqb, arith, if-split, Bool-cases, All, All-map,
}
use morph_api.Json.{Fields}
use morph_api.Entry.Store.{ContextStore}
use morph_api.Entry.Seed.{SeedError}
use morph_api.Runs.Rows.{Status, running, failed, LaunchError, ProcessRecord, ProcessStore}
use morph_api.Runs.Engine.{
  Request, Prepared, prepared, unprepared, Reply, echoed, unanswered, Engine, FlowRecord, World,
  sending,
}
use morph_api.Runs.Params.{failed_row}
use morph_api.Runs.Launch.Stored.{Reliable, update-read}
use morph_api.Runs.Schedule.{
  Launched, claimed_row, launch_request, launch_written, launch_answered, launch_built,
  launch_seeded, launch_claimed, launch, or_kept, mark, dispatch_one, dispatch_all, dispatch_listed,
  dispatch_due,
}

-- A row that is no longer waiting for its time.
pub data IsTaken : Status → Type 0 where
  taken_running : IsTaken running
  taken_failed : IsTaken failed

module _ {P C : Type 0} (rows : ProcessStore P) (contexts : ContextStore C)
    (flows : String → Option FlowRecord) (decode : Fields → Option Fields) (engine : Engine)
    (sure : Reliable rows) where
  -- The row at an index is there, with a status of some kind.
  abbrev pub Kept : (Status → Type 0) → P → ℕ → Type 0
  Kept K s i = (r : ProcessRecord) × (rows.get_by_index s i ≡ some r) × K r.status

  -- What a launch writes has the status running, and what marks its failure has the status failed.
  module _ (K : Status → Type 0) (k_running : K running) (k_failed : K failed) where
    update-Kept :
        (s t : P) (old r : ProcessRecord) (i : ℕ)
        → rows.get_by_index s r.index ≡ some old
        → rows.update s r ≡ some t
        → K r.status
        → (Kept K s i ⊎ (r.index ≡ i))
        → Kept K t i
    update-Kept s t old r i h u k (inr e) =
        (r, subst (λ i. rows.get_by_index t i ≡ some r) e (update-read rows s t old r h u), k)
    update-Kept s t old r i h u k (inl (q, g, d)) = elim (Bool-cases (eqb r.index i)) [
      | inl e ↦ (r, ground (arith, rows.get-update s t old r i h u), k)
      | inr e ↦ (q, ground (arith, rows.get-update s t old r i h u), d)
    ]

    -- A launch that has claimed its row keeps it in the store, and every taken row taken.
    abbrev pub Holds : ℕ → Launched P C → Type 0
    Holds i o =
        ((old : ProcessRecord) × (rows.get_by_index o.world.rows o.row.index ≡ some old))
        × K o.row.status
        × Kept K o.world.rows i

    launch_written-Holds :
        (w : World P C) (old r : ProcessRecord) (i : ℕ) (o : Option P)
        → rows.get_by_index w.rows r.index ≡ some old
        → rows.update w.rows r ≡ o
        → K r.status
        → Kept K w.rows i
        → Holds i (launch_written rows contexts flows decode engine w r o)
    launch_written-Holds w old r i none h u k t = absurd (sure w.rows r u)
    launch_written-Holds w old r i (some s) h u k t =
        ((r, update-read rows w.rows s old r h u), k, update-Kept w.rows s old r i h u k (inl t))

    echo_pid-Holds :
        (w : World P C) (old r : ProcessRecord) (i : ℕ) (pid : String)
        → rows.get_by_index w.rows r.index ≡ some old
        → K r.status
        → Kept K w.rows i
        → Holds i (launch_answered rows contexts flows decode engine w r (echoed pid))
    echo_pid-Holds w old r i pid h k t =
        if-split
          (λ q.
            Holds i (launch_written rows contexts flows decode engine w q (rows.update w.rows q)))
          (pid == "" || pid == r.pid) r (record r { pid = pid })
          (λ e. launch_written-Holds w old r i _ h refl k t)
          (λ e. launch_written-Holds w old (record r { pid = pid }) i _ h refl k t)

    launch_answered-Holds :
        (w : World P C) (old r : ProcessRecord) (i : ℕ) (a : Reply)
        → rows.get_by_index w.rows r.index ≡ some old
        → K r.status
        → Kept K w.rows i
        → Holds i (launch_answered rows contexts flows decode engine w r a)
    launch_answered-Holds w old r i (unanswered text) h k t = ((old, h), k, t)
    launch_answered-Holds w old r i (echoed pid) h k t = echo_pid-Holds w old r i pid h k t

    launch_built-Holds :
        (w : World P C) (q : Request) (old r : ProcessRecord) (i : ℕ) (a : Prepared)
        → rows.get_by_index w.rows r.index ≡ some old
        → K r.status
        → Kept K w.rows i
        → Holds i (launch_built rows contexts flows decode engine w q r a)
    launch_built-Holds w q old r i (unprepared text) h k t = ((old, h), k, t)
    launch_built-Holds w q old r i (prepared pid url stored) h k t =
        launch_answered-Holds (sending w q) old (record r { resource_url = url; request = stored })
          i (engine.exec q) h k t

    launch_seeded-Holds :
        (w : World P C) (old r : ProcessRecord) (i : ℕ) (a : C × Option SeedError)
        → rows.get_by_index w.rows r.index ≡ some old
        → K r.status
        → Kept K w.rows i
        → Holds i (launch_seeded rows contexts flows decode engine w r a)
    launch_seeded-Holds w old r i (c, some e) h k t = ((old, h), k, t)
    launch_seeded-Holds w old r i (c, none) h k t =
        launch_built-Holds (record w { contexts = c })
          (launch_request rows contexts flows decode engine w.rows r) old r i _ h k t

    launch_claimed-Holds :
        (w : World P C) (old r : ProcessRecord) (i : ℕ) (o : Option P)
        → rows.get_by_index w.rows r.index ≡ some old
        → rows.update w.rows r ≡ o
        → K r.status
        → (Kept K w.rows i ⊎ (r.index ≡ i))
        → Holds i (launch_claimed rows contexts flows decode engine w r o)
    launch_claimed-Holds w old r i none h u k t = absurd (sure w.rows r u)
    launch_claimed-Holds w old r i (some s) h u k t =
        launch_seeded-Holds (record w { rows = s }) r r i _ (update-read rows w.rows s old r h u) k
          (update-Kept w.rows s old r i h u k t)

    launch-Holds :
        (w : World P C) (old r : ProcessRecord) (i now : ℕ)
        → rows.get_by_index w.rows r.index ≡ some old
        → (Kept K w.rows i ⊎ (r.index ≡ i))
        → Holds i (launch rows contexts flows decode engine w r now)
    unfolding launch
    launch-Holds w old r i now h t =
        launch_claimed-Holds w old (claimed_row now r) i _ h refl k_running t

    or_kept-Kept :
        (w : World P C) (old r : ProcessRecord) (i : ℕ) (o : Option P)
        → rows.get_by_index w.rows r.index ≡ some old
        → rows.update w.rows r ≡ o
        → K r.status
        → Kept K w.rows i
        → Kept K (or_kept rows contexts flows decode engine w o).rows i
    or_kept-Kept w old r i none h u k t = t
    or_kept-Kept w old r i (some s) h u k t = update-Kept w.rows s old r i h u k (inl t)

    mark-Kept :
        (o : Launched P C) (e : Option LaunchError) (i now : ℕ)
        → Holds i o
        → Kept K (mark rows contexts flows decode engine o e now).rows i
    mark-Kept o none i now (h, k, t) = t
    mark-Kept o (some e) i now ((old, h), k, t) =
        or_kept-Kept o.world old (failed_row e now o.row) i _ h refl k_failed t

    pub dispatch_one-Kept :
        (w : World P C) (old r : ProcessRecord) (i claimed_at failed_at : ℕ)
        → rows.get_by_index w.rows r.index ≡ some old
        → (Kept K w.rows i ⊎ (r.index ≡ i))
        → Kept K (dispatch_one rows contexts flows decode engine w r claimed_at failed_at).rows i
    unfolding dispatch_one
    dispatch_one-Kept w old r i claimed_at failed_at h t =
        mark-Kept (launch rows contexts flows decode engine w r claimed_at) _ i failed_at
          (launch-Holds w old r i claimed_at h t)

  -- A row that is there stays there, whatever its status.
  abbrev There : Status → Type 0
  There s = Unit

  IsThere : P → ProcessRecord → Type 0
  IsThere s r = Kept There s r.index

  dispatch_one-IsThere :
      (w : World P C) (r q : ProcessRecord) (a b : ℕ)
      → IsThere w.rows r
      → IsThere w.rows q
      → IsThere (dispatch_one rows contexts flows decode engine w r a b).rows q
  unfolding IsThere
  dispatch_one-IsThere w r q a b (old, h, u) t =
      dispatch_one-Kept There tt tt w old r q.index a b h (inl t)

  -- what was taken stays taken to the end of the batch
  dispatch_all-keeps :
      (w : World P C) (rs : List ProcessRecord) (clock : ℕ → ℕ × ℕ) (n i : ℕ)
      → All (IsThere w.rows) rs
      → Kept IsTaken w.rows i
      → Kept IsTaken (dispatch_all rows contexts flows decode engine w rs clock n).rows i
  unfolding dispatch_all IsThere
  dispatch_all-keeps w [] clock n i h t = t
  dispatch_all-keeps w (r ∷ rs) clock n i ((old, g, u), h) t =
      dispatch_all-keeps
        (dispatch_one rows contexts flows decode engine w r (clock n).0 (clock n).1) rs clock
        (n + 1) i
        (All-map (λ q k. dispatch_one-IsThere w r q (clock n).0 (clock n).1 (old, g, u) k) rs h)
        (dispatch_one-Kept IsTaken taken_running taken_failed w old r i (clock n).0 (clock n).1 g
          (inl t))

  dispatch_all-takes :
      (w : World P C) (rs : List ProcessRecord) (clock : ℕ → ℕ × ℕ) (n : ℕ)
      → All (IsThere w.rows) rs
      → All
          (λ r.
            Kept IsTaken (dispatch_all rows contexts flows decode engine w rs clock n).rows r.index)
          rs
  unfolding dispatch_all IsThere
  dispatch_all-takes w [] clock n h = tt
  dispatch_all-takes w (r ∷ rs) clock n ((old, g, u), h) =
      let later =
        All-map (λ q k. dispatch_one-IsThere w r q (clock n).0 (clock n).1 (old, g, u) k) rs h in
      let next = dispatch_one rows contexts flows decode engine w r (clock n).0 (clock n).1 in
      (
        dispatch_all-keeps next rs clock (n + 1) r.index later (
            dispatch_one-Kept IsTaken taken_running taken_failed w old r r.index (clock n).0
              (clock n).1 g (inr refl)),
        dispatch_all-takes next rs clock (n + 1) later,
      )

  -- When no write fails, a pass of the scheduler takes every row that is due: at its end none of them
  -- waits for its time any longer, so that no later pass sends it a second time.
  pub dispatch_due-takes :
      (w : World P C) (now : ℕ) (clock : ℕ → ℕ × ℕ) (due : List ProcessRecord)
      → rows.list_due w.rows now ≡ some due
      → All
          (λ r.
            Kept IsTaken (dispatch_due rows contexts flows decode engine w now clock).rows r.index)
          due
  unfolding dispatch_due IsThere
  dispatch_due-takes w now clock due h =
      subst
        (λ o.
          All
            (λ r.
              Kept IsTaken (dispatch_listed rows contexts flows decode engine w clock o).rows
                r.index)
            due)
        (sym h)
        (dispatch_all-takes w due clock 0
          (All-map (λ r (a, b, c). (r, c, tt)) due (rows.due-status w.rows now due h)))
