-- ===== src/Patch/Plan/Nodes.antt =====
-- The loop over the nodes of a patch: each node is placed or reported.
use morph_api.Prelude.{
  ℕ, ◌+◌, String, ◌≡◌, refl, ◌∙◌, inl, inr, Bool, true, false, ◌||◌, some, List, [], ◌∷◌, ◌++◌,
  if◌then◌else◌, arith, length, length-append, All, All-append, Bool-cases, eq_refl,
}
use morph_api.Json.{Fields}
use morph_api.Graph.{Node}
use morph_api.Patch.{PatchNode, Problem, error, warn}
use morph_api.Patch.Merge.{NodeKind, merge_data}
use morph_api.Patch.Inspect.{inspect_scope, inspect_row_refs}
use morph_api.Patch.Plan.{
  Plan, find, ref_of, has_ref, is_known, has_id, complain, accept, plan_node, plan_nodes,
}

abbrev pub is_error : Problem → Bool
is_error p = elim p.level [ error ↦ true | warn ↦ false ]

pub error_count : List Problem → ℕ
error_count [] = 0
error_count (p ∷ ps) = (if is_error p then 1 else 0) + error_count ps

pub error_count-none : error_count [] ≡ 0
unfolding error_count
error_count-none = refl

pub error_count-append :
    (ps qs : List Problem) → error_count (ps ++ qs) ≡ error_count ps + error_count qs
unfolding error_count
error_count-append [] qs = omega arith
error_count-append (p ∷ ps) qs = omega (arith, error_count-append ps qs)

-- The inspections of one node only warn.
error_count-inspect :
    (raw : PatchNode) (m : Fields) → error_count (inspect_scope raw m ++ inspect_row_refs raw m) ≡ 0
unfolding error_count inspect_scope inspect_row_refs
error_count-inspect raw m = ground arith

pub has_id-append :
    (id : String) (ns ms : List Node) → has_id id (ns ++ ms) ≡ (has_id id ns || has_id id ms)
unfolding has_id
has_id-append id [] ms = refl
has_id-append id (n ∷ ns) ms = ground (arith, has_id-append id ns ms)

-- A planned node has a kind of the catalog, or is a plugin's; a ref leads to a planned node.
pub record IsPlanned (catalog : List NodeKind) (s : Plan) : Type 0 where
  pub known : All (λ n. is_known catalog n.kind ≡ true) s.nodes
  pub led : (ref id : String) → find ref s.id_by_ref ≡ some id → has_id id s.nodes ≡ true

led-append :
    (ref : String) (n : Node) (ns : List Node) (m : List (String × String))
    → ((r id : String) → find r m ≡ some id → has_id id ns ≡ true)
    → (r id : String) → find r ((ref, n.id) ∷ m) ≡ some id
    → has_id id (ns ++ n ∷ []) ≡ true
unfolding find has_id
led-append ref n ns m led r id e =
    ground (arith, has_id-append id ns (n ∷ []), led r id, e, eq_refl id)

pub error_count-complain :
    (s : Plan) (p : Problem)
    → error_count (complain p s).problems ≡ error_count s.problems + (if is_error p then 1 else 0)
unfolding error_count
error_count-complain s p = ground (arith, error_count-append s.problems (p ∷ []))

complain-count :
    (s : Plan) (p : Problem)
    → is_error p ≡ true
    → length (complain p s).nodes + error_count (complain p s).problems
      ≡ length s.nodes + error_count s.problems + 1
complain-count s p e = ground (arith, error_count-complain s p)

module _ (catalog : List NodeKind) (short_id : ℕ → String) where
  accept-IsPlanned :
      (ref : String) (raw : PatchNode) (s : Plan)
      → is_known catalog raw.kind ≡ true
      → IsPlanned catalog s
      → IsPlanned catalog (accept catalog short_id ref raw s)
  unfolding accept
  accept-IsPlanned ref raw s k h = record {
    known = All-append (λ n. is_known catalog n.kind ≡ true) s.nodes h.known k;
    led = led-append ref _ s.nodes s.id_by_ref h.led;
  }

  accept-count :
      (ref : String) (raw : PatchNode) (s : Plan)
      → let s' = accept catalog short_id ref raw s in
        length s'.nodes + error_count s'.problems ≡ length s.nodes + error_count s.problems + 1
  unfolding accept
  accept-count ref raw s =
      let m = (merge_data short_id catalog s.supply raw).0 in
      omega (
        arith,
        length-append s.nodes _,
        error_count-append s.problems (inspect_scope raw m ++ inspect_row_refs raw m),
        error_count-inspect raw m,
      )

  plan_node-IsPlanned :
      (i : ℕ) (raw : PatchNode) (s : Plan)
      → IsPlanned catalog s
      → IsPlanned catalog (plan_node catalog short_id i raw s)
  unfolding plan_node
  plan_node-IsPlanned i raw s h = elim (Bool-cases (has_ref (find (ref_of i raw) s.id_by_ref))) [
    | inl d ↦ rw d (record { known = h.known; led = h.led })
    | inr d ↦ elim (Bool-cases (is_known catalog raw.kind)) [
      | inl k ↦ rw (d, k) (accept-IsPlanned (ref_of i raw) raw s k h)
      | inr k ↦ rw (d, k) (record { known = h.known; led = h.led })
    ]
  ]

  pub plan_nodes-IsPlanned :
      (i : ℕ) (raws : List PatchNode) (s : Plan)
      → IsPlanned catalog s
      → IsPlanned catalog (plan_nodes catalog short_id i raws s)
  unfolding plan_nodes
  plan_nodes-IsPlanned i [] s h = h
  plan_nodes-IsPlanned i (raw ∷ raws) s h =
      plan_nodes-IsPlanned (i + 1) raws (plan_node catalog short_id i raw s)
        (plan_node-IsPlanned i raw s h)

  -- One more node, or one more error.
  plan_node-count :
      (i : ℕ) (raw : PatchNode) (s : Plan)
      → let s' = plan_node catalog short_id i raw s in
        length s'.nodes + error_count s'.problems ≡ length s.nodes + error_count s.problems + 1
  unfolding plan_node
  plan_node-count i raw s = elim (Bool-cases (has_ref (find (ref_of i raw) s.id_by_ref))) [
    | inl d ↦ rw d (complain-count s _ refl)
    | inr d ↦ elim (Bool-cases (is_known catalog raw.kind)) [
      | inl k ↦ rw (d, k) (accept-count (ref_of i raw) raw s)
      | inr k ↦ rw (d, k) (complain-count s _ refl)
    ]
  ]

  pub plan_nodes-count :
      (i : ℕ) (raws : List PatchNode) (s : Plan)
      → let s' = plan_nodes catalog short_id i raws s in
        length s'.nodes + error_count s'.problems
        ≡ length s.nodes + error_count s.problems + length raws
  unfolding plan_nodes
  plan_nodes-count i [] s = omega arith
  plan_nodes-count i (raw ∷ raws) s = omega (
    arith,
    plan_nodes-count (i + 1) raws (plan_node catalog short_id i raw s),
    plan_node-count i raw s,
  )

  plan_node-edges :
      (i : ℕ) (raw : PatchNode) (s : Plan) → (plan_node catalog short_id i raw s).edges ≡ s.edges
  unfolding plan_node accept
  plan_node-edges i raw s = ground arith

  pub plan_nodes-edges :
      (i : ℕ) (raws : List PatchNode) (s : Plan)
      → (plan_nodes catalog short_id i raws s).edges ≡ s.edges
  unfolding plan_nodes
  plan_nodes-edges i [] s = refl
  plan_nodes-edges i (raw ∷ raws) s =
      plan_nodes-edges (i + 1) raws (plan_node catalog short_id i raw s) ∙ plan_node-edges i raw s
