-- ===== src/Compile/Flow/Blame.antt =====
-- Which nodes the errors of a pass blame: those that the hook refused or, if it refused none, one on which
-- the walk failed.
use morph_api.Prelude.{
  String, ◌≡◌, ◌≢◌, ◌↔◌, refl, inl, inr, true, Option, none, some, List, [], ◌∷◌, ◌==◌, arith, All,
  All-map, Bool-cases, eq_iff, eq_refl,
}
use morph_api.Prelude.Sort.{text_less, All-sort_by, All-unsort_by}
use morph_api.Graph.{Node}
use morph_api.Diagnostics.{Diagnostics}
use morph_api.Diagnostics.Laws.{All-add_iff}
use morph_api.Compile.Read.{Floats}
use morph_api.Compile.Rules.{Fusion}
use morph_api.Compile.Flow.{
  build_issue, add_found, add_build_issues, keep_walk_errors, record_error, build_errors,
  node_builder,
}
use morph_api.Compile.Nodes.{find, put, keys, sorted_keys}
use morph_api.Compile.Nodes.{Failure, Built, built, not_built, crashed, by_builder}
use morph_api.Compile.Rules.{BuildError}
use morph_api.Compile.Flow.Maps.{find-put}

-- The hook refuses a node with this id among the nodes.
pub data Refuses (hook : Node → Built) (id : String) : List Node → Type 0 where
  refuses_here :
      (n : Node) (ns : List Node) (e : BuildError)
      → n.id ≡ id
      → hook n ≡ not_built e
      → Refuses hook id (n ∷ ns)
  refuses_there : (n : Node) (ns : List Node) → Refuses hook id ns → Refuses hook id (n ∷ ns)

-- The hook refuses none of the nodes.
abbrev pub Builds : (Node → Built) → List Node → Type 0
Builds hook ns = (id : String) → ¬ Refuses hook id ns

-- a node that the hook refuses or, if it refuses none, the first that the walk failed on
pub data Blamed (hook : Node → Built) (ns : List Node) (walk_errors : List (String × String))
    (id : String) : Type 0 where
  by_hook : Refuses hook id ns → Blamed hook ns walk_errors id
  by_traversal :
      (text : String) (es : List (String × String))
      → Builds hook ns
      → walk_errors ≡ (id, text) ∷ es
      → Blamed hook ns walk_errors id

keys-put :
    {A : Type 0} (P : String → Type 0) (k : String) (a : A) (m : List (String × A))
    → P k
    → All P (keys m)
    → All P (keys (put k a m))
unfolding keys put
keys-put P k a [] p h = (p, tt)
keys-put {A = A} P k a ((j, b) ∷ m) p (q, h) = elim (Bool-cases (j == k)) [
  | inl e ↦ rw e (p, h)
  | inr e ↦ rw e (q, keys-put {A = A} P k a m p h)
]

find-keys_ne :
    {A : Type 0} (k : String) (m : List (String × A))
    → find k m ≢ none
    → ¬ All (λ j. j ≢ k) (keys m)
unfolding find keys
find-keys_ne k [] f h = f refl
find-keys_ne {A = A} k ((j, a) ∷ m) f (ne, h) = elim (Bool-cases (j == k)) [
  | inl e ↦ ne (ground (arith, eq_iff j k))
  | inr e ↦ find-keys_ne {A = A} k m (λ q. f (rw e q)) h
]

keys-nil : {A : Type 0} (m : List (String × A)) → All (λ j. ⊥) (keys m) → m ≡ []
unfolding keys
keys-nil [] h = refl
keys-nil ((j, a) ∷ m) (h, t) = absurd h

found-put :
    {A : Type 0} (k j : String) (a : A) (m : List (String × A))
    → (k == j) ≡ true
    → find j (put k a m) ≢ none
found-put k j a m q = rw (find-put k j a m, q) (λ f. absurd (cc f))

put-keeps :
    {A : Type 0} (k j : String) (a : A) (m : List (String × A))
    → find j m ≢ none
    → find j (put k a m) ≢ none
put-keeps k j a m h = elim (Bool-cases (k == j)) [
  | inl q ↦ found-put k j a m q
  | inr q ↦ rw (find-put k j a m, q) h
]

module _ (nodes : List Node) (errs : List (String × Failure)) (P : String → Type 0) where
  abbrev Named : Diagnostics → Type 0
  Named d = All (λ i. P i.node_id) d.issues

  add_found-names :
      (id : String) (o : Option Failure) (d : Diagnostics)
      → P id
      → Named d
      → Named (add_found nodes id o d)
  unfolding build_issue
  add_found-names id none d p h = h
  add_found-names id (some f) d p h =
      (All-add_iff (λ i. P i.node_id) d (build_issue nodes id f ∷ [])).1 (h, (p, tt))

  names-add_found :
      (id : String) (o : Option Failure) (d : Diagnostics)
      → o ≢ none
      → Named (add_found nodes id o d)
      → P id × Named d
  unfolding build_issue
  names-add_found id none d f h = absurd (f refl)
  names-add_found id (some x) d f h =
      let (old, (p, t)) = (All-add_iff (λ i. P i.node_id) d (build_issue nodes id x ∷ [])).0 h in
      (p, old)

  pub add_build_issues-names :
      (ids : List String) (d : Diagnostics)
      → All P ids
      → Named d
      → Named (add_build_issues nodes errs ids d)
  unfolding add_build_issues
  add_build_issues-names [] d p h = h
  add_build_issues-names (id ∷ ids) d (p, ps) h =
      add_build_issues-names ids _ ps (add_found-names id (find id errs) d p h)

  pub names-add_build_issues :
      (ids : List String) (d : Diagnostics)
      → All (λ k. find k errs ≢ none) ids
      → Named (add_build_issues nodes errs ids d)
      → All P ids × Named d
  unfolding add_build_issues
  names-add_build_issues [] d f h = (tt, h)
  names-add_build_issues (id ∷ ids) d (q, f) h =
      let (ps, all) = names-add_build_issues ids (add_found nodes id (find id errs) d) f h in
      let (p, old) = names-add_found id (find id errs) d q all in ((p, ps), old)

module _ (floats : Floats) (parse_time : String → String → Option String) (fusion : Fusion) where
  abbrev pub hook : Node → Built
  hook n = node_builder floats parse_time fusion n

  abbrev refusals : List Node → List (String × Failure) → List (String × Failure)
  refusals ns errs = build_errors floats parse_time fusion ns errs

  record_error-keeps :
      (n : Node) (b : Built) (id : String) (errs : List (String × Failure))
      → find id errs ≢ none
      → find id (record_error floats parse_time fusion n b errs) ≢ none
  record_error-keeps n (built c) id errs h = h
  record_error-keeps n crashed id errs h = h
  record_error-keeps n (not_built e) id errs h = put-keeps n.id id (by_builder e) errs h

  build_errors-keeps :
      (ns : List Node) (id : String) (errs : List (String × Failure))
      → find id errs ≢ none
      → find id (refusals ns errs) ≢ none
  unfolding build_errors
  build_errors-keeps [] id errs h = h
  build_errors-keeps (n ∷ ns) id errs h =
      build_errors-keeps ns id _ (record_error-keeps n (hook n) id errs h)

  record_error-finds :
      (n : Node) (b : Built) (e : BuildError) (id : String) (errs : List (String × Failure))
      → b ≡ not_built e
      → n.id ≡ id
      → find id (record_error floats parse_time fusion n b errs) ≢ none
  record_error-finds n (built c) e id errs q same = absurd (cc q)
  record_error-finds n crashed e id errs q same = absurd (cc q)
  record_error-finds n (not_built x) e id errs q same =
      found-put n.id id (by_builder x) errs (rw same (eq_refl id))

  build_errors-finds :
      (id : String) (ns : List Node)
      → Refuses hook id ns
      → (errs : List (String × Failure)) → find id (refusals ns errs) ≢ none
  unfolding build_errors
  build_errors-finds id ns (refuses_here n ms e same refused) errs =
      build_errors-keeps ms id (record_error floats parse_time fusion n (hook n) errs)
        (record_error-finds n (hook n) e id errs refused same)
  build_errors-finds id ns (refuses_there n ms h) errs =
      build_errors-finds id ms h (record_error floats parse_time fusion n (hook n) errs)

  record_error-blames :
      (P : String → Type 0) (n : Node) (b : Built) (errs : List (String × Failure))
      → ((e : BuildError) → b ≡ not_built e → P n.id)
      → All P (keys errs)
      → All P (keys (record_error floats parse_time fusion n b errs))
  record_error-blames P n (built c) errs p h = h
  record_error-blames P n crashed errs p h = h
  record_error-blames P n (not_built e) errs p h = keys-put P n.id (by_builder e) errs (p e refl) h

  build_errors-blames :
      (P : String → Type 0) (ns : List Node) (errs : List (String × Failure))
      → ((k : String) → Refuses hook k ns → P k)
      → All P (keys errs)
      → All P (keys (refusals ns errs))
  unfolding build_errors
  build_errors-blames P [] errs p h = h
  build_errors-blames P (n ∷ ns) errs p h =
      build_errors-blames P ns _ (λ k r. p k (refuses_there n ns r))
        (record_error-blames P n (hook n) errs (λ e q. p n.id (refuses_here n ns e refl q)) h)

  abbrev kept : List Node → List (String × String) → List (String × Failure)
  kept ns es = keep_walk_errors es (refusals ns [])

  nothing_refused : (ns : List Node) → refusals ns [] ≡ [] → Builds hook ns
  unfolding find
  nothing_refused ns e id r = build_errors-finds id ns r [] (rw e refl)

  no_refusal : (ns : List Node) → Builds hook ns → refusals ns [] ≡ []
  unfolding keys
  no_refusal ns b = keys-nil (refusals ns []) (build_errors-blames (λ j. ⊥) ns [] (λ k r. b k r) tt)

  keep-nil_iff :
      (es : List (String × String)) (errs : List (String × Failure))
      → (keep_walk_errors es errs ≡ []) ↔ ((es ≡ []) × (errs ≡ []))
  unfolding keep_walk_errors
  keep-nil_iff [] [] = (λ e. (refl, refl), λ e. refl)
  keep-nil_iff ((id, text) ∷ es) [] = (λ e. absurd (cc e), λ e. absurd (cc e.0))
  keep-nil_iff [] (x ∷ errs) = (λ e. absurd (cc e), λ e. absurd (cc e.1))
  keep-nil_iff (y ∷ es) (x ∷ errs) = (λ e. absurd (cc e), λ e. absurd (cc e.1))

  -- No error is kept exactly when the walk had none and the hook built every node it was called on.
  pub failures-nil_iff :
      (ns : List Node) (es : List (String × String))
      → (keep_walk_errors es (refusals ns []) ≡ []) ↔ ((es ≡ []) × Builds hook ns)
  failures-nil_iff ns es =
      let (to, from) = keep-nil_iff es (refusals ns []) in
      (λ e. let (w, b) = to e in (w, nothing_refused ns b), λ (w, b). from (w, no_refusal ns b))

  keep-Blamed :
      (ns : List Node) (es : List (String × String)) (errs : List (String × Failure))
      → refusals ns [] ≡ errs
      → All (λ k. Refuses hook k ns) (keys errs)
      → All (Blamed hook ns es) (keys (keep_walk_errors es errs))
  unfolding keep_walk_errors keys
  keep-Blamed ns [] [] q h = tt
  keep-Blamed ns ((id, text) ∷ es) [] q h = (by_traversal text es (nothing_refused ns q) refl, tt)
  keep-Blamed ns [] (x ∷ errs) q h = All-map (λ k r. by_hook r) (keys (x ∷ errs)) h
  keep-Blamed ns (y ∷ es) (x ∷ errs) q h = All-map (λ k r. by_hook r) (keys (x ∷ errs)) h

  -- Every id with an error is to blame.
  pub failures-Blamed :
      (ns : List Node) (es : List (String × String))
      → All (Blamed hook ns es) (sorted_keys (keep_walk_errors es (refusals ns [])))
  unfolding sorted_keys keys
  failures-Blamed ns es = All-sort_by text_less (Blamed hook ns es) _ (
      keep-Blamed ns es (refusals ns []) refl
        (build_errors-blames (λ k. Refuses hook k ns) ns [] (λ k r. r) tt))

  keep-finds :
      (id : String) (es : List (String × String)) (errs : List (String × Failure))
      → find id errs ≢ none
      → find id (keep_walk_errors es errs) ≢ none
  unfolding keep_walk_errors find
  keep-finds id es [] h = absurd (h refl)
  keep-finds id [] (x ∷ errs) h = h
  keep-finds id (y ∷ es) (x ∷ errs) h = h

  -- No node that the hook refuses is missing from the ids with an error.
  pub failures-name :
      (id : String) (ns : List Node) (es : List (String × String))
      → Refuses hook id ns
      → ¬ All (λ k. k ≢ id) (sorted_keys (keep_walk_errors es (refusals ns [])))
  unfolding sorted_keys
  failures-name id ns es r h =
      find-keys_ne id _ (keep-finds id es (refusals ns []) (build_errors-finds id ns r []))
        (All-unsort_by text_less (λ k. k ≢ id) _ h)
