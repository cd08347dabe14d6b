-- ===== src/Tags/Canonical.antt =====
-- The list that `NormalizeTags` returns.
use Prim.Native.String.{[], ◌∷◌}
use morph_api.Prelude.{
  ℕ, suc, ◌≤◌, ◌<◌, String, false, ◌||◌, some, List, [], ◌∷◌, ◌++◌, ◌==◌, eqb, ltb, length,
  length-append, ◌≡◌, arith, inl, inr, Bool-cases, All, All-append,
}
use morph_api.Prelude.Text.{size, contains, any}
use text.Mathlib.TextLemmas.{cons≢nil}
use morph_api.Prelude.Text.Laws.{==-eq-false}
use morph_api.Prelude.Membership.{mem}
use morph_api.Tags.{
  max_tag_len, max_tag_count, clean_tag, take_text, shorten, add_tags, normalize_tags,
}
use morph_api.Tags.Dashes.{
  is_foreign, has_pair-lem, take_text-any, take_text-pair, take_text-size, clean_tag-pair,
  clean_tag-any,
}

-- Not empty, not too long, without two dashes in a row and without a comma, a quote or a blank.
pub record IsTag (tag : String) : Type 0 where
  pub filled : (tag == "") ≡ false
  pub short : size tag ≤ max_tag_len
  pub no_pair : contains "--" tag ≡ false
  pub clean : any is_foreign tag ≡ false

take_text-filled : (n : ℕ) (s : String) → (s == "") ≡ false → (take_text (suc n) s == "") ≡ false
unfolding take_text
take_text-filled n [] h = cc
take_text-filled n (c ∷ s) h = ==-eq-false cons≢nil

shorten-IsTag : (raw : String) → (clean_tag raw == "") ≡ false → IsTag (shorten (clean_tag raw))
shorten-IsTag raw ne = elim (Bool-cases (ltb max_tag_len (size (clean_tag raw)))) [
  | inl long ↦ rw long (record {
    filled = take_text-filled 63 (clean_tag raw) ne;
    short = take_text-size 64 (clean_tag raw);
    no_pair =
        rw (has_pair-lem (take_text 64 (clean_tag raw)))
          (take_text-pair 64 (clean_tag raw) (clean_tag-pair raw));
    clean = take_text-any is_foreign 64 (clean_tag raw) (clean_tag-any raw);
  })
  | inr fits ↦ rw fits (record {
    filled = ne;
    short = ground arith;
    no_pair = rw (has_pair-lem (clean_tag raw)) (clean_tag-pair raw);
    clean = clean_tag-any raw;
  })
]

add_tags-IsTag :
    (raws out : List String)
    → All IsTag out
    → length out < max_tag_count
    → All IsTag (add_tags out raws) × (length (add_tags out raws) ≤ max_tag_count)
unfolding add_tags
add_tags-IsTag [] out h n = (h, omega arith)
add_tags-IsTag (raw ∷ raws) out h n =
    let t = clean_tag raw in
    elim (Bool-cases (t == "" || mem t out)) [
      | inl skip ↦ rw skip (add_tags-IsTag raws out h n)
      | inr keep ↦
          let grown = All-append IsTag out h (shorten-IsTag raw (ground arith)) in
          let more = length-append out (shorten t ∷ []) in
          elim (Bool-cases (eqb (length (out ++ shorten t ∷ [])) max_tag_count)) [
            | inl full ↦ rw (keep, full) (grown, ground arith)
            | inr room ↦
                rw (keep, room) (add_tags-IsTag raws (out ++ shorten t ∷ []) grown (ground arith))
          ]
    ]

-- A canonical list has at most `MaxTagCount` tags, each of them not empty, at most `MaxTagLen` long,
-- without two dashes in a row and without a comma, a quote or a blank.
pub normalize_tags-IsTag :
    (raws out : List String)
    → normalize_tags (some raws) ≡ some out
    → All IsTag out × (length out ≤ max_tag_count)
unfolding normalize_tags
normalize_tags-IsTag raws out h =
    let same : add_tags [] raws ≡ out = ground arith in
    rw same at (add_tags-IsTag raws [] tt (omega arith))
