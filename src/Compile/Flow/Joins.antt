-- ===== src/Compile/Flow/Joins.antt =====
-- What the compiled graph holds of each node, after the fan-ins are wired.
use morph_api.Prelude.{
  String, ◌≡◌, ◌↔◌, refl, sym, ◌∙◌, Bool, true, false, ◌&&◌, ◌||◌, Option, none, some, List, [],
  ◌∷◌, ◌==◌, arith, eq_iff, Bool-cases, inl, inr,
}
use morph_api.Prelude.Membership.{mem}
use morph_api.Graph.{Node, Edge}
use morph_api.Compile.Flow.{inbound_sources, join_at, wire_joins}
use morph_api.Compile.Nodes.{find}
use morph_api.Compile.Nodes.{Graph, Compiled}
use morph_api.Compile.Flow.Maps.{find-put}

-- some node of the flow with this id is a fan-in
unfoldable pub is_join : List Node → String → Bool
is_join [] id = false
is_join (n ∷ ns) id = n.id == id && n.kind == "promissall" || is_join ns id

abbrev pub waiting : Bool → List String → Option (Option Compiled) → Option (Option Compiled)
waiting true sources (some (some c)) = some (some (record c { depends = sources }))
waiting _ sources found = found

waiting-none : (b : Bool) (sources : List String) → waiting b sources none ≡ none
waiting-none true sources = refl
waiting-none false sources = refl

waiting-nil : (b : Bool) (sources : List String) → waiting b sources (some none) ≡ some none
waiting-nil true sources = refl
waiting-nil false sources = refl

waiting-twice :
    (a b : Bool) (sources : List String) (o : Option (Option Compiled))
    → waiting a sources (waiting b sources o) ≡ waiting (b || a) sources o
waiting-twice true true sources none = refl
waiting-twice true true sources (some none) = refl
waiting-twice true true sources (some (some c)) = refl
waiting-twice true false sources o = refl
waiting-twice false true sources o = refl
waiting-twice false false sources o = refl

find-join_at :
    (edges : List Edge) (n : Node) (g : Graph) (j : String) (o : Option (Option Compiled))
    → find n.id g ≡ o
    → find j (join_at edges n g o)
      ≡ waiting (n.id == j && n.kind == "promissall") (inbound_sources edges j) (find j g)
find-join_at edges n g j none h = elim (Bool-cases (n.id == j)) [
  | inl e ↦
      let here : find j g ≡ none = ground (arith, eq_iff n.id j) in rw here (sym (waiting-none _ _))
  | inr e ↦ rw e refl
]
find-join_at edges n g j (some none) h = elim (Bool-cases (n.id == j)) [
  | inl e ↦
      let here : find j g ≡ some none = ground (arith, eq_iff n.id j) in
      rw here (sym (waiting-nil _ _))
  | inr e ↦ rw e refl
]
find-join_at edges n g j (some (some c)) h = elim (Bool-cases (n.kind == "promissall")) [
  | inl k ↦ elim (Bool-cases (n.id == j)) [
    | inl e ↦
        let same : n.id ≡ j = ground (arith, eq_iff n.id j) in
        let here : find j g ≡ some (some c) = ground arith in
        rw (k, e, here)
          (find-put {A = Option Compiled} n.id j
              (some (record c { depends = inbound_sources edges n.id })) g
            ∙ rw (e, same) refl)
    | inr e ↦
        rw (k, e)
          (find-put {A = Option Compiled} n.id j
              (some (record c { depends = inbound_sources edges n.id })) g
            ∙ rw e refl)
  ]
  | inr k ↦ elim (Bool-cases (n.id == j)) [ inl e ↦ rw (k, e) refl | inr e ↦ rw (k, e) refl ]
]

-- Wiring the fan-ins gives the compiled nodes whose id is that of a fan-in the sources of the edges
-- into them, and changes no other.
pub find-wire_joins :
    (edges : List Edge) (ns : List Node) (g : Graph) (j : String)
    → find j (wire_joins edges ns g) ≡ waiting (is_join ns j) (inbound_sources edges j) (find j g)
unfolding wire_joins is_join
find-wire_joins edges [] g j = refl
find-wire_joins edges (n ∷ ns) g j =
    find-wire_joins edges ns (join_at edges n g (find n.id g)) j
    ∙ rw (find-join_at edges n g j (find n.id g) refl) (
        waiting-twice (is_join ns j) (n.id == j && n.kind == "promissall") (inbound_sources edges j)
          (find j g))

-- an edge from the node `s` into the node `j`
pub data Feeds (s j : String) : List Edge → Type 0 where
  feeds_here : (e : Edge) (es : List Edge) → e.source ≡ s → e.target ≡ j → Feeds s j (e ∷ es)
  feeds_there : (e : Edge) (es : List Edge) → Feeds s j es → Feeds s j (e ∷ es)

-- How a node is wired: a compiled fan-in waits for exactly the nodes with an edge into it.
pub data Wired (join : Bool) (edges : List Edge) (j : String)
    (before after : Option (Option Compiled)) : Type 0 where
  wired :
      (c : Compiled) (sources : List String)
      → join ≡ true
      → before ≡ some (some c)
      → ((s : String) → (mem s sources ≡ true) ↔ Feeds s j edges)
      → after ≡ some (some (record c { depends = sources }))
      → Wired join edges j before after
  no_fan_in : join ≡ false → after ≡ before → Wired join edges j before after
  not_walked : before ≡ none → after ≡ none → Wired join edges j before after
  not_compiled : before ≡ some none → after ≡ some none → Wired join edges j before after

inbound-Feeds :
    (edges : List Edge) (s j : String) → mem s (inbound_sources edges j) ≡ true → Feeds s j edges
unfolding mem inbound_sources
inbound-Feeds [] s j h = absurd (cc h)
inbound-Feeds (e ∷ es) s j h = elim (Bool-cases (e.target == j)) [
  | inl t ↦ elim (Bool-cases (e.source == s)) [
    | inl q ↦
        feeds_here e es (ground (arith, eq_iff e.source s)) (ground (arith, eq_iff e.target j))
    | inr q ↦ feeds_there e es (inbound-Feeds es s j (rw (t, q) at h))
  ]
  | inr t ↦ feeds_there e es (inbound-Feeds es s j (rw t at h))
]

Feeds-inbound :
    (s j : String) (edges : List Edge) → Feeds s j edges → mem s (inbound_sources edges j) ≡ true
unfolding mem inbound_sources
Feeds-inbound s j edges (feeds_here e es q t) = ground (arith, eq_iff e.source s, eq_iff e.target j)
Feeds-inbound s j edges (feeds_there e es h) = ground (arith, Feeds-inbound s j es h)

pub waiting-Wired :
    (b : Bool) (edges : List Edge) (j : String) (o : Option (Option Compiled))
    → Wired b edges j o (waiting b (inbound_sources edges j) o)
waiting-Wired false edges j o = no_fan_in refl refl
waiting-Wired true edges j none = not_walked refl refl
waiting-Wired true edges j (some none) = not_compiled refl refl
waiting-Wired true edges j (some (some c)) =
    wired c (inbound_sources edges j) refl refl
      (λ s. (inbound-Feeds edges s j, Feeds-inbound s j edges)) refl
