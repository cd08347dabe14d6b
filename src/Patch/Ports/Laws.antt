-- ===== src/Patch/Ports/Laws.antt =====
-- Which edges `resolvePort` lets through, and what they carry.
use mathlib.Core.List.{Memᴰ}
use morph_api.Prelude.{
  String, ◌≡◌, ◌≢◌, ◌↔◌, ◌⊎◌, refl, inl, inr, Bool, true, false, ◌||◌, Option, none, some, List, [],
  ◌∷◌, ◌==◌, arith, Bool-cases, Option-cases, eq_iff, All,
}
use morph_api.Prelude.Text.{trim_space}
use morph_api.Json.{Fields}
use morph_api.Patch.{Problem, error, warn}
use morph_api.Patch.Values.{contains_fold}
use morph_api.Patch.Ports.{
  Port, Resolved, find_port, resolve_named, resolve_ports, resolve_port, derived_ports,
}

-- The port goes by that name: its id, or one of its tags up to case.
abbrev pub is_named : String → Port → Bool
is_named want p = p.id == want || contains_fold p.tags want

-- What an edge carries is what some port of the source that goes by the wanted name has.
pub record Leaves (ports : List Port) (want : String) (r : Resolved) : Type 0 where
  pub port : Port
  pub listed : Memᴰ port ports
  pub named : is_named want port ≡ true
  pub handle : r.handle ≡ port.id
  pub tags : r.tags ≡ port.tags

find_port_sound :
    (want : String) (ports : List Port) (p : Port)
    → find_port want ports ≡ some p
    → Memᴰ p ports × (is_named want p ≡ true)
unfolding find_port
find_port_sound want [] p h = ground arith
find_port_sound want (q ∷ ps) p h = elim (Bool-cases (is_named want q)) [
  | inl e ↦ let same : p ≡ q = ground arith in rw same (Memᴰ.head refl, e)
  | inr e ↦ let (m, n) = find_port_sound want ps p (rw (e, find_port) at h) in (Memᴰ.tail m, n)
]

find_port-eq-none :
    (want : String) (ports : List Port)
    → (find_port want ports ≡ none) ↔ All (λ p. is_named want p ≡ false) ports
unfolding find_port
find_port-eq-none want [] = (λ h. tt, λ h. refl)
find_port-eq-none want (q ∷ ps) = ground (arith, find_port-eq-none want ps)

abbrev pub reports_error : Option Problem → Bool
reports_error none = false
reports_error (some p) = elim p.level [ error ↦ true | warn ↦ false ]

resolve_ports-drop :
    (want : String) (ports : List Port)
    → (((resolve_ports want ports).drop ≡ true)
        ↔ (ports ≢ []) × ((want ≡ "") ⊎ All (λ p. is_named want p ≡ false) ports))
      × ((resolve_ports want ports).drop ≡ reports_error (resolve_ports want ports).problem)
unfolding resolve_ports
resolve_ports-drop want [] = ground (arith, eq_iff want "")
resolve_ports-drop want (p ∷ ps) = ground (arith, eq_iff want "", find_port-eq-none want (p ∷ ps))

-- An edge is dropped exactly when the source has ports and no name is given or none of them goes by
-- it; exactly then an error is reported. So a source without ports drops no edge.
pub resolve_port-drop :
    (kind : String) (payload : Fields) (requested : String)
    → let r = resolve_port kind payload requested in
      let ports = derived_ports kind payload in
      let want = trim_space requested in
      ((r.drop ≡ true) ↔ (ports ≢ []) × ((want ≡ "") ⊎ All (λ p. is_named want p ≡ false) ports))
      × (r.drop ≡ reports_error r.problem)
unfolding resolve_port
resolve_port-drop kind payload requested =
    resolve_ports-drop (trim_space requested) (derived_ports kind payload)

resolve_ports-Leaves :
    (want : String) (ports : List Port)
    → ports ≢ []
    → (resolve_ports want ports).drop ≡ false
    → Leaves ports want (resolve_ports want ports)
unfolding resolve_ports
resolve_ports-Leaves want [] ne kept = absurd (ne refl)
resolve_ports-Leaves want (p ∷ ps) ne kept = elim (Option-cases (find_port want (p ∷ ps))) [
  | inl e ↦ absurd (ground arith)
  | inr (q, e) ↦
      let (m, n) = find_port_sound want (p ∷ ps) q e in
      let given : (want == "") ≡ false = ground arith in
      rw (given, e, resolve_named)
        (record { port = q; listed = m; named = n; handle = refl; tags = refl })
]

-- An edge that is kept, out of a source with ports, carries the handle and the tags of one of these
-- ports, which goes by the wanted name.
pub resolve_port-Leaves :
    (kind : String) (payload : Fields) (requested : String)
    → derived_ports kind payload ≢ []
    → (resolve_port kind payload requested).drop ≡ false
    → Leaves
        (derived_ports kind payload)
        (trim_space requested)
        (resolve_port kind payload requested)
unfolding resolve_port
resolve_port-Leaves kind payload requested =
    resolve_ports-Leaves (trim_space requested) (derived_ports kind payload)
