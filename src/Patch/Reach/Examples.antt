-- ===== src/Patch/Reach/Examples.antt =====
-- Reachability in a loop of two nodes.
use morph_api.Prelude.{◌≡◌, ◌↔◌, List, [], ◌∷◌, String, true}
use morph_api.Graph.{Edge}
use morph_api.Patch.Reach.{reaches}
use morph_api.Patch.Reach.Laws.{Leads, reaches_iff}

abbrev link : String → String → Edge
link a b = record { id = ""; source = a; target = b; source_handle = ""; tags = [] }

abbrev looped : List Edge
looped = link "a" "b" ∷ link "b" "a" ∷ link "b" "c" ∷ []

reaches_iff_example : (reaches looped "a" "c" ≡ true) ↔ Leads looped "a" "c"
reaches_iff_example = reaches_iff looped "a" "c"
