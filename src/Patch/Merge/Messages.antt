-- ===== src/Patch/Merge/Messages.antt =====
-- The messages that `pickMessages` picks.
use morph_api.Prelude.{
  String, Bool, true, false, not, ◌||◌, some, List, [], ◌∷◌, ◌++◌, if◌then◌else◌, ◌≡◌, refl, arith,
  inl, inr, ◌⊎◌, sym, Option-cases, Bool-cases,
}
use morph_api.Json.{Value, null, bool, num, str, arr, obj, rows, strs, Fields, lookup}
use morph_api.Patch.Values.{get, as_str, as_rows, is_blank}
use morph_api.Patch.Merge.{
  message_row, holds_text, has_role, shorthand, add_messages, system_first, settle, pick_messages,
}

abbrev pub role_of : Bool → String
role_of true = "system"
role_of false = "user"

-- At most one row of each role, and no row without a text.
pub data Picked : List Fields → Type 0 where
  nothing : Picked []
  one : (r : Bool) (s : String) → is_blank s ≡ false → Picked (message_row (role_of r) s ∷ [])
  both :
      (r : Bool) (s t : String)
      → is_blank s ≡ false
      → is_blank t ≡ false
      → Picked (message_row (role_of r) s ∷ message_row (role_of (not r)) t ∷ [])

-- The same, with the system's row first.
pub data Settled : List Fields → Type 0 where
  empty : Settled []
  single : (r : Bool) (s : String) → is_blank s ≡ false → Settled (message_row (role_of r) s ∷ [])
  pair :
      (s t : String)
      → is_blank s ≡ false
      → is_blank t ≡ false
      → Settled (message_row "system" s ∷ message_row "user" t ∷ [])

add-Picked :
    (r : Bool) (s : String) (rs : List Fields)
    → Picked rs
    → is_blank s ≡ false
    → has_role (role_of r) rs ≡ false
    → Picked (rs ++ message_row (role_of r) s ∷ [])
unfolding has_role get lookup
add-Picked r s _ nothing b h = one r s b
add-Picked true s _ (one true t c) b h = absurd (ground arith)
add-Picked false s _ (one true t c) b h = both true t s c b
add-Picked true s _ (one false t c) b h = both false t s c b
add-Picked false s _ (one false t c) b h = absurd (ground arith)
add-Picked true s _ (both true t u c d) b h = absurd (ground arith)
add-Picked false s _ (both true t u c d) b h = absurd (ground arith)
add-Picked true s _ (both false t u c d) b h = absurd (ground arith)
add-Picked false s _ (both false t u c d) b h = absurd (ground arith)

system_first-Settled : (rs : List Fields) → Picked rs → Settled (system_first rs)
unfolding system_first get lookup
system_first-Settled _ nothing = empty
system_first-Settled _ (one r s b) = single r s b
system_first-Settled _ (both true s t b c) = pair s t b c
system_first-Settled _ (both false s t b c) = pair t s c b

role_of-holds :
    (m : Fields)
    → (if holds_text "role" "system" m then "system" else "user")
      ≡ role_of (holds_text "role" "system" m)
role_of-holds m = ground arith

add_messages-Picked : (ms picked : List Fields) → Picked picked → Picked (add_messages picked ms)
unfolding add_messages
add_messages-Picked [] picked p = p
add_messages-Picked (m ∷ ms) picked p =
    let r = holds_text "role" "system" m in
    let content = as_str (get "content" m) in
    elim (Bool-cases (is_blank content || has_role (role_of r) picked)) [
      | inl skip ↦ rw (role_of-holds m, skip) (add_messages-Picked ms picked p)
      | inr add ↦
          rw (role_of-holds m, add)
            (add_messages-Picked ms _ (add-Picked r content picked p (ground arith) (ground arith)))
    ]

shorthand-cases :
    (r : Bool) (v : Value)
    → (shorthand (role_of r) v ≡ [])
      ⊎ ((s : String) × (is_blank s ≡ false)
          × (shorthand (role_of r) v ≡ message_row (role_of r) s ∷ []))
unfolding shorthand
shorthand-cases r (str s) = elim (Bool-cases (is_blank s)) [
  | inl e ↦ inl (rw e refl)
  | inr e ↦ inr (s, e, rw e refl)
]
shorthand-cases r null = inl refl
shorthand-cases r (bool b) = inl refl
shorthand-cases r (num t) = inl refl
shorthand-cases r (arr vs) = inl refl
shorthand-cases r (obj m) = inl refl
shorthand-cases r (rows rs) = inl refl
shorthand-cases r (strs ss) = inl refl

short-Picked : (v w : Value) → Picked (shorthand "system" v ++ shorthand "user" w)
short-Picked v w = elim (shorthand-cases true v) [
  | inl e ↦ elim (shorthand-cases false w) [
    | inl f ↦ rw (e, f) nothing
    | inr (t, c, f) ↦ rw (e, f) (one false t c)
  ]
  | inr (s, b, e) ↦ elim (shorthand-cases false w) [
    | inl f ↦ rw (e, f) (one true s b)
    | inr (t, c, f) ↦ rw (e, f) (both true s t b c)
  ]
]

settle-Settled :
    (rs : List Fields) (reset : Bool) (out : List Fields)
    → Picked rs
    → settle rs reset ≡ some out
    → Settled out
settle-Settled [] reset out p h = let same : [] ≡ out = ground arith in rw (sym same) empty
settle-Settled (r ∷ rs) reset out p h =
    let same : system_first (r ∷ rs) ≡ out = ground arith in
    rw (sym same) (system_first-Settled (r ∷ rs) p)

-- The picked messages are at most one of the system and one of the user, each with a text that is not
-- blank, and the system's stands first.
pub pick_messages-Settled :
    (payload : Fields) (out : List Fields) → pick_messages payload ≡ some out → Settled out
unfolding pick_messages
pick_messages-Settled payload out h =
    let short = short-Picked (get "system" payload) (get "prompt" payload) in
    elim (Option-cases (as_rows (get "messages" payload))) [
      | inl e ↦
          settle-Settled _ false out (add_messages-Picked _ _ short) (rw (pick_messages, e) at h)
      | inr (given, e) ↦
          settle-Settled _ true out (add_messages-Picked given _ short) (rw (pick_messages, e) at h)
    ]
