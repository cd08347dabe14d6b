-- ===== src/Tags/Distinct.antt =====
-- The tags that `NormalizeTags` keeps: none of them twice, and all that fit.
use morph_api.Prelude.{
  ◌≤◌, String, Bool, true, not, ◌&&◌, ◌||◌, some, List, [], ◌∷◌, ◌++◌, ◌==◌, eqb, length, ◌≡◌, refl,
  arith, eq_iff, inl, inr, Bool-cases, All,
}
use morph_api.Prelude.Text.{size}
use morph_api.Prelude.Membership.{mem, mem-append}
use morph_api.Tags.{max_tag_len, max_tag_count, clean_tag, shorten, add_tags, normalize_tags}

-- No text of the list is there twice.
pub distinct : List String → Bool
distinct [] = true
distinct (x ∷ xs) = not (mem x xs) && distinct xs

distinct-append :
    (x : String) (xs : List String) → distinct (xs ++ x ∷ []) ≡ (distinct xs && not (mem x xs))
unfolding distinct mem
distinct-append x [] = refl
distinct-append x (y ∷ xs) =
    ground (arith, distinct-append x xs, mem-append y xs (x ∷ []), eq_iff x y, eq_iff y x)

-- The cleaned text is a tag as it is.
abbrev pub Fits : String → Type 0
Fits raw = size (clean_tag raw) ≤ max_tag_len

shorten-Fits : (raw : String) → Fits raw → shorten (clean_tag raw) ≡ clean_tag raw
shorten-Fits raw f = ground arith

add_tags-distinct :
    (raws out : List String)
    → All Fits raws
    → distinct out ≡ true
    → distinct (add_tags out raws) ≡ true
unfolding add_tags
add_tags-distinct [] out f d = d
add_tags-distinct (raw ∷ raws) out (f, fs) d =
    let t = clean_tag raw in
    elim (Bool-cases (t == "" || mem t out)) [
      | inl skip ↦ rw skip (add_tags-distinct raws out fs d)
      | inr keep ↦
          let same = shorten-Fits raw f in
          let grown : distinct (out ++ shorten t ∷ []) ≡ true =
            rw same (ground (arith, distinct-append t out)) in
          elim (Bool-cases (eqb (length (out ++ shorten t ∷ [])) max_tag_count)) [
            | inl full ↦ rw (keep, full) grown
            | inr room ↦ rw (keep, room) (add_tags-distinct raws (out ++ shorten t ∷ []) fs grown)
          ]
    ]

-- A canonical list holds no tag twice, when no cleaned text is longer than a tag may be.
pub normalize_tags-distinct :
    (raws out : List String)
    → All Fits raws
    → normalize_tags (some raws) ≡ some out
    → distinct out ≡ true
unfolding normalize_tags distinct
normalize_tags-distinct raws out f h =
    let same : add_tags [] raws ≡ out = ground arith in
    rw same at (add_tags-distinct raws [] f refl)
