-- ===== src/Patch/Reach.antt =====
-- `reaches` and `loopClosingEdges` of designer/patch.go.
pub mod Laws
mod Examples
use morph_api.Prelude.{
  ℕ, zero, suc, ◌+◌, String, Bool, true, false, ◌||◌, List, [], ◌∷◌, ◌++◌, ◌==◌, length, map,
  if◌then◌else◌,
}
use mathlib.Core.List.{reverse}
use morph_api.Prelude.Membership.{mem}
use morph_api.Graph.{Edge}

-- `adj[n]`: the targets of the edges out of n, in their order
unfoldable pub targets : String → List Edge → List String
targets n [] = []
targets n (e ∷ es) = let rest = targets n es in if e.source == n then e.target ∷ rest else rest

-- The loop of `reaches`. The top of the stack is at the head, so the last target pushed is the first
-- one popped. A round takes one entry of the stack, and only a first visit to a node pushes.
pub search_loop : ℕ → List Edge → (to : String) → (seen stack : List String) → Bool
search_loop fuel es to seen [] = false
search_loop zero es to seen (n ∷ stack) = false
search_loop (suc fuel) es to seen (n ∷ stack) =
    let skip = search_loop fuel es to seen stack in
    let visit = search_loop fuel es to (n ∷ seen) (reverse (targets n es) ++ stack) in
    if n == to then true else if mem n seen then skip else visit

-- One entry on the stack and one push for each edge: that many rounds.
unfoldable pub reaches : List Edge → (from to : String) → Bool
unfolding search_loop
reaches es from to = search_loop (1 + length es) es to [] (from ∷ [])

unfoldable pub loop_closing_edges : List Edge → List Bool
loop_closing_edges es = map (λ e. reaches es e.target e.source) es
