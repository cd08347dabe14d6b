-- ===== src/Runs/Launch/Sent.antt =====
-- What a launch sends to the engine.
use morph_api.Prelude.{
  ℕ, String, ◌≡◌, ◌⊎◌, refl, sym, ◌∙◌, inl, inr, false, ◌&&◌, ◌||◌, Option, none, some, List, ◌∷◌,
  ◌==◌, if-split, true, not, [], Bool-cases, arith, eq_iff, ap,
}
use morph_api.Graph.{Node}
use morph_api.Patch.Values.{is_blank}
use morph_api.Prelude.Membership.{mem}
use morph_api.Compile.Flow.{get_start_node_id}
use morph_api.Prelude.Decimal.{decimal}
use morph_api.Prelude.Int.{is_positive, is_zero}
use morph_api.Json.{Fields}
use morph_api.Preferences.{is_filled}
use morph_api.Entry.Store.{ContextStore}
use morph_api.Entry.Seed.{SeedError}
use morph_api.Compile.Nodes.{find}
use morph_api.Compile.Flow.Maps.{find-put}
use morph_api.Runs.Rows.{
  LaunchError, not_seeded, not_built, not_dispatched, ProcessRecord, ProcessStore,
}
use morph_api.Runs.Engine.{
  Request, Engine, FlowRecord, World, Outcome, Prepared, prepared, unprepared, Reply, echoed,
  unanswered, sending,
}
use morph_api.Runs.Starts.{non_empty}
use morph_api.Runs.Launch.{
  or_kept, fail, sync_pid, answered, dispatch, requested, built, send, seeded,
}
use morph_api.Runs.Params.{
  StartParams, start_of_flow, starts_on, has_ids, put_missing, request_meta, request_of, new_row,
  failed_row, instance_of,
}
use morph_api.Runs.Launch.Laws.{launch, launch-cases}

-- the first start node of a flow
pub StartsAt : List Node → String → Type 0
StartsAt [] id = ⊥
StartsAt (n ∷ ns) id =
    ((n.kind ≡ "startNode") × (n.id ≡ id)) ⊎ (((n.kind == "startNode") ≡ false) × StartsAt ns id)

-- The nodes that a run enters: those that were asked for and have a name, or else the start node of
-- its own flow.
abbrev pub EntersOn :
    (String → Option FlowRecord) → StartParams → List String → List String → Type 0
EntersOn flows p (id ∷ ids) nodes =
    (nodes ≡ id ∷ ids) × ((s : String) → mem s nodes ≡ (mem s p.start_node_ids && not (is_blank s)))
EntersOn flows p [] nodes =
    ((s : String) → mem s p.start_node_ids ≡ true → is_blank s ≡ true)
    × ((f : FlowRecord) × (id : String) × (flows p.flow_id ≡ some f)
        × StartsAt f.nodes id
        × (nodes ≡ id ∷ []))

abbrev pub Enters : (String → Option FlowRecord) → StartParams → List String → Type 0
Enters flows p nodes = EntersOn flows p (non_empty p.start_node_ids) nodes

get_start_node_id-StartsAt :
    (ns : List Node) (id : String) → get_start_node_id ns ≡ some id → StartsAt ns id
unfolding get_start_node_id StartsAt
get_start_node_id-StartsAt [] id h = absurd (cc h)
get_start_node_id-StartsAt (n ∷ ns) id h = elim (Bool-cases (n.kind == "startNode")) [
  | inl e ↦ inl (ground (arith, eq_iff n.kind "startNode"), ground arith)
  | inr e ↦ inr (e, get_start_node_id-StartsAt ns id (ground arith))
]

mem-non_empty :
    (s : String) (ids : List String) → mem s (non_empty ids) ≡ (mem s ids && not (is_blank s))
unfolding mem non_empty
mem-non_empty s [] = refl
mem-non_empty s (id ∷ ids) = ground (arith, eq_iff id s, mem-non_empty s ids)

start_of_flow-cases :
    (o : Option String) (ids : List String)
    → start_of_flow o ≡ some ids
    → (id : String) × (o ≡ some id) × (ids ≡ id ∷ [])
start_of_flow-cases none ids h = absurd (cc h)
start_of_flow-cases (some id) ids h = (id, refl, cc h)

starts_on-EntersOn :
    (flows : String → Option FlowRecord) (p : StartParams) (asked : List String)
    (flow : Option FlowRecord) (ids : List String)
    → non_empty p.start_node_ids ≡ asked
    → (has_ids asked ≡ true) ⊎ (flow ≡ flows p.flow_id)
    → starts_on asked flow ≡ some ids
    → EntersOn flows p asked ids
unfolding mem
starts_on-EntersOn flows p (a ∷ more) flow ids kept from h =
    let same : a ∷ more ≡ ids = cc h in
    (sym same, λ s. ap (mem s) (sym same ∙ sym kept) ∙ mem-non_empty s p.start_node_ids)
starts_on-EntersOn flows p [] none ids kept from h = absurd (cc h)
starts_on-EntersOn flows p [] (some f) ids kept (inl e) h = absurd (cc e)
starts_on-EntersOn flows p [] (some f) ids kept (inr e) h =
    let (id, found, same) = start_of_flow-cases (get_start_node_id f.nodes) ids h in
    (
      λ s m. ground (arith, mem-non_empty s p.start_node_ids, ap (mem s) kept),
      (f, id, sym e, get_start_node_id-StartsAt f.nodes id found, same),
    )

-- The request carries the pid of the run, the index of its row and the snapshot it resumes from, it
-- is for the flow and the context of the run, it enters the flow where the run is to, and the run is
-- not to wait.
pub record IsAddressed (flows : String → Option FlowRecord) (p : StartParams) (minted : String)
    (row : Option ProcessRecord) (q : Request) : Type 0 where
  pub due_now : is_positive p.scheduled_at ≡ false
  pub entered : Enters flows p q.start_nodes
  pub flow_is : q.flow_id ≡ p.flow_id
  pub context_is : q.context_id ≡ p.context_id
  pub resumes : q.resume ≡ p.resume
  pub pid_is : q.pid ≡ minted
  pub pid_told : find "pid" q.meta ≡ some minted
  pub index_told :
      (r : ProcessRecord) → row ≡ some r → find "indexId" q.meta ≡ some (decimal r.index)

find-put_missing :
    (j k v : String) (m : List (String × String)) (o : Option String)
    → (k == j) ≡ false
    → find j (put_missing k v m o) ≡ find j m
find-put_missing j k v m none h = find-put k j v m ∙ rw h refl
find-put_missing j k v m (some w) h = refl

module _ {P C : Type 0} (rows : ProcessStore P) (contexts : ContextStore C)
    (flows : String → Option FlowRecord) (validate : Fields → Fields → Option String)
    (engine : Engine) (minted : String) where
  abbrev pub Sends : List Request → StartParams → Outcome P C → Type 0
  Sends before p o =
      (o.world.sent ≡ before)
      ⊎ ((q : Request) × (o.world.sent ≡ q ∷ before) × IsAddressed flows p minted o.row q)

  meta-pid : (p : StartParams) (i : ℕ) → find "pid" (request_meta p i minted) ≡ some minted
  unfolding request_meta
  meta-pid p i = find-put "instanceId" "pid" _ _ ∙ find-put "pid" "pid" minted _

  meta-index :
      (p : StartParams) (i : ℕ) → find "indexId" (request_meta p i minted) ≡ some (decimal i)
  unfolding request_meta
  meta-index p i =
      find-put "instanceId" "indexId" _ _
      ∙ find-put "pid" "indexId" minted _
      ∙ find-put_missing "indexId" "contextId" p.context_id _ _ refl
      ∙ find-put_missing "indexId" "flowId" p.flow_id _ _ refl
      ∙ find-put "indexId" "indexId" (decimal i) p.req_meta

  or_kept-sent :
      (w : World P C) (o : Option P)
      → (or_kept rows contexts flows validate engine w o).sent ≡ w.sent
  or_kept-sent w none = refl
  or_kept-sent w (some t) = refl

  fail-sent :
      (w : World P C) (e : LaunchError) (n : ℕ) (r : ProcessRecord)
      → (fail rows contexts flows validate engine w e n r).world.sent ≡ w.sent
  fail-sent w e n r = or_kept-sent w _

  -- nothing more is sent, and the row keeps its index
  abbrev Quiet : List Request → ℕ → Outcome P C → Type 0
  Quiet before i o = (o.world.sent ≡ before) × ((q : ProcessRecord) → o.row ≡ some q → q.index ≡ i)

  same_index : (r q : ProcessRecord) (i : ℕ) → r.index ≡ i → some r ≡ some q → q.index ≡ i
  same_index r q i h f = let same : r ≡ q = cc f in rw (sym same) h

  sync_pid-Quiet :
      (w : World P C) (r : ProcessRecord) (pid : String)
      → Quiet w.sent r.index (sync_pid rows contexts flows validate engine w r pid)
  sync_pid-Quiet w r pid =
      if-split (Quiet w.sent r.index) (pid == "" || pid == r.pid) _ _
        (λ e. (refl, λ q f. same_index r q r.index refl f))
        (λ e. (or_kept-sent w _, λ q f. same_index (record r { pid = pid }) q r.index refl f))

  answered-Quiet :
      (w : World P C) (r : ProcessRecord) (now : ℕ → ℕ) (a : Reply)
      → Quiet w.sent r.index (answered rows contexts flows validate engine w r now a)
  answered-Quiet w r now (echoed pid) = sync_pid-Quiet w r pid
  answered-Quiet w r now (unanswered text) = (
    fail-sent w (not_dispatched text) (now 1) r,
    λ q f. same_index (failed_row (not_dispatched text) (now 1) r) q r.index refl f,
  )

  dispatch-Sends :
      (w : World P C) (p : StartParams) (ids : List String) (on : Enters flows p ids)
      (r : ProcessRecord) (now : ℕ → ℕ)
      → Sends w.sent p
          (dispatch rows contexts flows validate engine w p (request_of p ids r.index minted) r now)
  unfolding request_of
  dispatch-Sends w p ids on r now =
      let q = request_of p ids r.index minted in
      if-split (Sends w.sent p) (is_positive p.scheduled_at) _ _ (λ e. inl refl)
        (λ e.
          let (s, f) = answered-Quiet (sending w q) r now (engine.exec q) in
          inr (
            q,
            s,
            record {
              due_now = e;
              entered = on;
              flow_is = refl;
              context_is = refl;
              resumes = refl;
              pid_is = refl;
              pid_told = meta-pid p r.index;
              index_told = λ x g. rw (f x g) (meta-index p r.index);
            },
          ))

  requested-Sends :
      (w : World P C) (p : StartParams) (ids : List String) (on : Enters flows p ids)
      (r : ProcessRecord) (now : ℕ → ℕ) (o : Option P)
      → Sends w.sent p (
          requested rows contexts flows validate engine w p
            (request_of p ids r.index minted)
            r
            now
            o)
  requested-Sends w p ids on r now none = inl refl
  requested-Sends w p ids on r now (some t) = dispatch-Sends (record w { rows = t }) p ids on r now

  built-Sends :
      (w : World P C) (p : StartParams) (ids : List String) (on : Enters flows p ids)
      (r : ProcessRecord) (now : ℕ → ℕ) (a : Prepared)
      → Sends w.sent p
          (built rows contexts flows validate engine w p (request_of p ids r.index minted) r now a)
  built-Sends w p ids on r now (unprepared text) = inl (fail-sent w (not_built text) (now 1) r)
  built-Sends w p ids on r now (prepared pid url stored) =
      requested-Sends w p ids on (record r { pid = pid; resource_url = url; request = stored }) now
        _

  send-Sends :
      (w : World P C) (p : StartParams) (ids : List String) (on : Enters flows p ids)
      (r : ProcessRecord) (now : ℕ → ℕ)
      → Sends w.sent p (send rows contexts flows validate engine w p ids r minted now)
  unfolding send
  send-Sends w p ids on r now =
      built-Sends w p ids on (record r { instance_id = instance_of p.instance_id minted }) now _

  seeded-Sends :
      (w : World P C) (p : StartParams) (ids : List String) (on : Enters flows p ids)
      (r : ProcessRecord) (now : ℕ → ℕ) (a : C × Option SeedError)
      → Sends w.sent p (seeded rows contexts flows validate engine w p ids r minted now a)
  seeded-Sends w p ids on r now (c, none) = send-Sends (record w { contexts = c }) p ids on r now
  seeded-Sends w p ids on r now (c, some e) =
      inl (fail-sent (record w { contexts = c }) (not_seeded e) (now 1) r)

  -- A launch sends at most one request; it carries the pid that was minted, the index of the row that
  -- is returned and the snapshot to resume from, it is for the flow and the context of the launch, and
  -- it enters on the nodes that were asked for and have a name or else, when there are none, on the
  -- first start node of that flow. A launch for later sends none.
  pub start_workflow-Sends :
      (w : World P C) (p : StartParams) (now : ℕ → ℕ)
      → Sends w.sent p (launch rows contexts flows validate engine w p minted now)
  start_workflow-Sends w p now =
      launch-cases rows contexts flows validate engine w p minted now (Sends w.sent p)
        (λ e. inl refl)
        (λ flow ids form entry t index starts from made.
          let on =
            starts_on-EntersOn flows p (non_empty p.start_node_ids) flow ids refl from starts in
          let fresh = record (new_row p ids entry (now 0)) { index = index } in
          if-split (Sends w.sent p) (is_zero p.scheduled_at && is_filled entry) _ _
            (λ e. seeded-Sends (record w { rows = t }) p ids on fresh now _)
            (λ e. send-Sends (record w { rows = t }) p ids on fresh now))
