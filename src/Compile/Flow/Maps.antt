-- ===== src/Compile/Flow/Maps.antt =====
-- Lookups in the maps of the compiler after a write.
use morph_api.Prelude.{
  String, ◌≡◌, refl, inl, inr, some, List, [], ◌∷◌, ◌==◌, if◌then◌else◌, arith, eq_iff, Bool-cases,
}
use morph_api.Compile.Nodes.{find, put}

module _ {A : Type 0} where
  pub find-put :
      (k j : String) (a : A) (m : List (String × A))
      → find j (put k a m) ≡ (if k == j then some a else find j m)
  unfolding find put
  find-put k j a [] = refl
  find-put k j a ((i, b) ∷ m) = elim (Bool-cases (i == k)) [
    | inl e ↦
        rw e (elim (Bool-cases (k == j)) [ inl f ↦ rw f refl | inr f ↦ ground (arith, eq_iff i k) ])
    | inr e ↦ rw e (elim (Bool-cases (i == j)) [
      | inl f ↦ ground (arith, eq_iff i j, eq_iff k j)
      | inr f ↦ rw f (find-put k j a m)
    ])
  ]
