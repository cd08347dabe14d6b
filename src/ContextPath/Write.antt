-- ===== src/ContextPath/Write.antt =====
-- What a write of models/contextpath.go does to the document: the value is read back, nothing else
-- moves, and an error leaves the document as it was.
use morph_api.Prelude.{
  ◌≡◌, ◌≢◌, refl, ap, ◌∙◌, ◌⊎◌, inl, inr, Option, none, some, List, [], ◌∷◌, ◌++◌, String, arith,
  eq_iff,
}
use morph_api.Json.{Value, null, obj, Fields, end, lookup, insert}
use morph_api.Json.Laws.{or_else, lookup-insert, lookup-insert_same, lookup-merge, insert_self}
use morph_api.ContextPath.{
  PathError, Result-cases, ok, parse_context_path, step_into, write_members, write_root, write_at,
  set_at, present, read_members, value_at_context_path,
}

-- Two member lists part ways: neither leads through the other's location.
abbrev pub Diverge : List String → List String → Type 0
Diverge (m ∷ ms) (n ∷ ns) = (m ≢ n) ⊎ ((m ≡ n) × Diverge ms ns)
Diverge _ _ = ⊥

-- One round, from what the later rounds do.
module _ (path : String) (walked : List String) (deeper : Fields → Fields × Option PathError)
    (m : String) (doc : Fields) where
  step_into_error :
      ((deeper end).1 ≡ none)
      → ((child : Fields) (e : PathError) → (deeper child).1 ≡ some e → (deeper child).0 ≡ child)
      → (o : Option Value) (e : PathError) → lookup m doc ≡ o
      → (step_into path walked deeper m doc o).1 ≡ some e
      → (step_into path walked deeper m doc o).0 ≡ doc
  unfolding step_into
  step_into_error fresh keeps none e held h = ground arith
  step_into_error fresh keeps (some null) e held h = ground arith
  step_into_error fresh keeps (some (obj child)) e held h =
      rw (keeps child e h) (insert_self m (obj child) doc held)
  step_into_error fresh keeps (some _) e held h = refl

  step_into_reads :
      (ms : List String) (want : Option Value)
      → ((child : Fields) → (deeper child).1 ≡ none → read_members ms (obj (deeper child).0) ≡ want)
      → (o : Option Value) → (step_into path walked deeper m doc o).1 ≡ none
      → read_members (m ∷ ms) (obj (step_into path walked deeper m doc o).0) ≡ want
  unfolding step_into read_members
  step_into_reads ms want deep none h = rw (lookup-insert_same m _ doc, read_members) (deep end h)
  step_into_reads ms want deep (some null) h =
      rw (lookup-insert_same m _ doc, read_members) (deep end h)
  step_into_reads ms want deep (some (obj child)) h =
      rw (lookup-insert_same m _ doc, read_members) (deep child h)
  step_into_reads ms want deep (some _) h = ground arith

  lookup-step_into_ne :
      (n : String)
      → m ≢ n
      → (o : Option Value) → lookup n (step_into path walked deeper m doc o).0 ≡ lookup n doc
  unfolding step_into
  lookup-step_into_ne n d none =
      ground (arith, lookup-insert m n (obj (deeper end).0) doc, eq_iff m n)
  lookup-step_into_ne n d (some null) =
      ground (arith, lookup-insert m n (obj (deeper end).0) doc, eq_iff m n)
  lookup-step_into_ne n d (some (obj child)) =
      ground (arith, lookup-insert m n (obj (deeper child).0) doc, eq_iff m n)
  lookup-step_into_ne n d (some _) = refl

  -- An absent member and a null one read alike, with or without the object that takes their place.
  read-step_into_same :
      (n : String) (ns : List String)
      → ((child : Fields)
          → read_members (n ∷ ns) (obj (deeper child).0) ≡ read_members (n ∷ ns) (obj child))
      → (o : Option Value) → lookup m doc ≡ o
      → read_members (m ∷ n ∷ ns) (obj (step_into path walked deeper m doc o).0)
        ≡ read_members (m ∷ n ∷ ns) (obj doc)
  unfolding step_into read_members
  read-step_into_same n ns deep none held =
      rw (lookup-insert_same m _ doc, held, read_members) (deep end)
  read-step_into_same n ns deep (some null) held =
      rw (lookup-insert_same m _ doc, held, read_members) (deep end)
  read-step_into_same n ns deep (some (obj child)) held =
      rw (lookup-insert_same m _ doc, held, read_members) (deep child)
  read-step_into_same n ns deep (some _) held = refl

read_members-cong :
    (n : String) (ns : List String) (doc doc' : Fields)
    → lookup n doc' ≡ lookup n doc
    → read_members (n ∷ ns) (obj doc') ≡ read_members (n ∷ ns) (obj doc)
unfolding read_members
read_members-cong n ns doc doc' e = rw (e, read_members)

module _ (path : String) (value : Value) where
  -- Below an object that was just made no member stands in the way.
  write_members-end :
      (walked : List String) (m : String) (ms : List String)
      → (write_members path value walked (m ∷ ms) end).1 ≡ none
  unfolding write_members
  write_members-end walked m [] = refl
  write_members-end walked m (n ∷ ms) = write_members-end (walked ++ m ∷ []) n ms

  write_members_error :
      (walked ms : List String) (doc : Fields) (e : PathError)
      → (write_members path value walked ms doc).1 ≡ some e
      → (write_members path value walked ms doc).0 ≡ doc
  unfolding write_members
  write_members_error walked [] doc e h = refl
  write_members_error walked (m ∷ []) doc e h = ground arith
  write_members_error walked (m ∷ n ∷ ms) doc e h =
      step_into_error path (walked ++ m ∷ []) _ m doc (write_members-end (walked ++ m ∷ []) n ms)
        (write_members_error (walked ++ m ∷ []) (n ∷ ms)) (lookup m doc) e refl h

  read-write_members :
      (walked : List String) (m : String) (ms : List String) (doc : Fields)
      → (write_members path value walked (m ∷ ms) doc).1 ≡ none
      → read_members (m ∷ ms) (obj (write_members path value walked (m ∷ ms) doc).0) ≡ present value
  unfolding write_members read_members
  read-write_members walked m [] doc h = rw (lookup-insert_same m value doc, read_members)
  read-write_members walked m (n ∷ ms) doc h =
      step_into_reads path (walked ++ m ∷ []) _ m doc (n ∷ ms) (present value)
        (read-write_members (walked ++ m ∷ []) n ms) (lookup m doc) h

  read-write_members_ne :
      (walked : List String) (m : String) (ms ns : List String) (doc : Fields)
      → Diverge (m ∷ ms) ns
      → read_members ns (obj (write_members path value walked (m ∷ ms) doc).0)
        ≡ read_members ns (obj doc)
  unfolding write_members
  read-write_members_ne walked m ms [] doc d = absurd d
  read-write_members_ne walked m [] (n ∷ ns) doc (inl d) =
      read_members-cong n ns doc (insert m value doc)
        (ground (arith, lookup-insert m n value doc, eq_iff m n))
  read-write_members_ne walked m [] (n ∷ ns) doc (inr (same, d)) = absurd d
  read-write_members_ne walked m (m' ∷ ms) (n ∷ ns) doc (inl d) = read_members-cong n ns doc _ (
      lookup-step_into_ne path (walked ++ m ∷ [])
        (write_members path value (walked ++ m ∷ []) (m' ∷ ms)) m doc n d (lookup m doc))
  read-write_members_ne walked m (m' ∷ ms) (n ∷ []) doc (inr (same, d)) = absurd d
  read-write_members_ne walked m (m' ∷ ms) (n ∷ n' ∷ ns) doc (inr (same, d)) = rw (← same) (
      read-step_into_same path (walked ++ m ∷ [])
        (write_members path value (walked ++ m ∷ []) (m' ∷ ms)) m doc n' ns
        (λ child. read-write_members_ne (walked ++ m ∷ []) m' ms (n' ∷ ns) child d) (lookup m doc)
        refl)

write_at_error :
    (path : String) (value : Value) (ms : List String) (doc : Fields) (e : PathError)
    → (write_at path value ms doc).1 ≡ some e
    → (write_at path value ms doc).0 ≡ doc
unfolding write_at
write_at_error path value [] doc e h = root value h
  where
    root :
        (v : Value)
        → (write_root path value v doc).1 ≡ some e
        → (write_root path value v doc).0 ≡ doc
    root (obj fs) p = ground arith
    root _ p = refl
write_at_error path value (m ∷ ms) doc e h = write_members_error path value [] (m ∷ ms) doc e h

set_at-ok :
    (doc : Fields) (path : String) (value : Value) {ms : List String}
    → parse_context_path path ≡ ok ms
    → set_at doc path value ≡ write_at path value ms doc
unfolding set_at
set_at-ok doc path value p = rw (p, set_at)

value_at-ok :
    (doc : Fields) (path : String) {ms : List String}
    → parse_context_path path ≡ ok ms
    → value_at_context_path (some doc) path ≡ read_members ms (obj doc)
unfolding value_at_context_path
value_at-ok doc path p = rw (p, value_at_context_path)

-- A write that fails leaves the document exactly as it was, whatever was walked before the error.
pub set_at_error :
    (doc : Fields) (path : String) (value : Value) (e : PathError)
    → (set_at doc path value).1 ≡ some e
    → (set_at doc path value).0 ≡ doc
unfolding set_at
set_at_error doc path value e h = elim (Result-cases (parse_context_path path)) [
  | inl (ms, p) ↦
      rw (set_at-ok doc path value p)
        (write_at_error path value ms doc e (rw (set_at-ok doc path value p) at h))
  | inr (x, p) ↦ rw (p, set_at)
]

-- After a write that succeeds at a path below the root, reading that path yields the value written,
-- or nothing when that is null.
pub value_at-set_at :
    (doc : Fields) (path : String) (value : Value) (m : String) (ms : List String)
    → parse_context_path path ≡ ok (m ∷ ms)
    → (set_at doc path value).1 ≡ none
    → value_at_context_path (some (set_at doc path value).0) path ≡ present value
unfolding write_at write_members
value_at-set_at doc path value m ms p h = rw (value_at-ok (set_at doc path value).0 path p) (
    rw (set_at-ok doc path value p)
      (read-write_members path value [] m ms doc (rw (set_at-ok doc path value p) at h)))

-- A write at a path below the root, successful or not, changes what no other location reads: a path
-- whose members part ways with the written path reads as it did before.
pub value_at-set_at_ne :
    (doc : Fields) (path other : String) (value : Value) (m : String) (ms ns : List String)
    → parse_context_path path ≡ ok (m ∷ ms)
    → parse_context_path other ≡ ok ns
    → Diverge (m ∷ ms) ns
    → value_at_context_path (some (set_at doc path value).0) other
      ≡ value_at_context_path (some doc) other
unfolding write_at write_members
value_at-set_at_ne doc path other value m ms ns p q d =
    rw (value_at-ok (set_at doc path value).0 other q, value_at-ok doc other q)
      (rw (set_at-ok doc path value p) (read-write_members_ne path value [] m ms ns doc d))

-- At the root an object is merged into the document, without error: a key holds what the object
-- gives it, and what the document held where the object gives it nothing.
pub set_at-root :
    (doc : Fields) (path : String) (fs : Fields) (k : String)
    → parse_context_path path ≡ ok []
    → ((set_at doc path (obj fs)).1 ≡ none)
      × (lookup k (set_at doc path (obj fs)).0 ≡ or_else (lookup k fs) (lookup k doc))
unfolding write_at write_root
set_at-root doc path fs k p = (
  ap (λ r. r.1) (set_at-ok doc path (obj fs) p),
  ap (λ r. lookup k r.0) (set_at-ok doc path (obj fs) p) ∙ lookup-merge doc fs k,
)

pub set_at-member :
    (doc : Fields) (path : String) (value : Value) (m : String)
    → parse_context_path path ≡ ok (m ∷ [])
    → set_at doc path value ≡ (insert m value doc, none)
unfolding write_at write_members
set_at-member doc path value m p = set_at-ok doc path value p
