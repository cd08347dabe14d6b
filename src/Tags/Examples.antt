-- ===== src/Tags/Examples.antt =====
-- Tests of `NormalizeTags`, and its theorems at concrete lists.
use morph_api.Prelude.{◌≡◌, refl, List, [], ◌∷◌, String, some, ◌≤◌, length, All}
use morph_api.Prelude.Text.{
  append, trim, trim_left, trim_right, trim_space, to_lower, contains, has_prefix, is_space,
}
use morph_api.Prelude.Membership.{mem}
use morph_api.Tags.{
  normalize_tags, add_tags, clean_tag, squeeze, halve_dashes, dash_map, take_text, max_tag_count,
}
use morph_api.Tags.Canonical.{IsTag, normalize_tags-IsTag}

abbrev typed : List String
typed = " Big  Deal, " ∷ "big-deal" ∷ "\"x\"" ∷ "" ∷ []

abbrev shown : List String
shown = "big-deal" ∷ "x" ∷ []

normalize_typed : normalize_tags (some typed) ≡ some shown
unfolding normalize_tags add_tags clean_tag squeeze halve_dashes dash_map take_text trim trim_left
    trim_right trim_space to_lower contains has_prefix is_space mem
normalize_typed = refl

normalize_tags-IsTag_example : All IsTag shown × (length shown ≤ max_tag_count)
normalize_tags-IsTag_example = normalize_tags-IsTag typed shown normalize_typed

-- Two long texts with the same first `MaxTagLen` characters leave the same tag twice.
abbrev long : String
long = "aaaaaaaaaaaaaaaaaaaaaaaaaaaaaaaaaaaaaaaaaaaaaaaaaaaaaaaaaaaaaaaa"

normalize_long :
    normalize_tags (some (append long "x" ∷ append long "y" ∷ [])) ≡ some (long ∷ long ∷ [])
unfolding normalize_tags add_tags clean_tag squeeze halve_dashes dash_map take_text trim trim_left
    trim_right trim_space to_lower contains has_prefix is_space mem
normalize_long = refl
