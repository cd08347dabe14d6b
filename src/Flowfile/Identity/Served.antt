-- ===== src/Flowfile/Identity/Served.antt =====
-- The rows of an install that serve an action, and what the indexes of flowfile/flowfile.go answer of them.
use morph_api.Prelude.{
  String, ◌≡◌, ◌≢◌, refl, subst, ◌⊎◌, inl, inr, Bool, true, false, not, ◌&&◌, Option, none, some,
  List, [], ◌∷◌, ◌==◌, if◌then◌else◌, arith, eq_iff, if-split, Bool-cases, ◌∙◌, ap, sym,
}
use morph_api.Prelude.Text.{append}
use morph_api.Prelude.Text.Laws.{append_cancel_right}
use morph_api.Prelude.Membership.{mem}
use morph_api.Flowfile.{ExtensionRecord}
use morph_api.Flowfile.Rows.{plugin_key, row_key, is_served, last_row, by_plugin_action, by_action}

abbrev pub In : ExtensionRecord → List ExtensionRecord → Type 0
In r [] = ⊥
In r (q ∷ qs) = (q ≡ r) ⊎ In r qs

-- a plugin and an action, joined as a key
abbrev pub joined : String → String → String
joined plugin_id action = append plugin_id (append "\0" action)

-- a row of an action, of a plugin that has an id
abbrev pub IsRow : List ExtensionRecord → ExtensionRecord → Type 0
IsRow exts r = In r exts × ((r.plugin_id == "") ≡ false) × ((r.action == "") ≡ false)

-- The row serves the action.
abbrev pub Serves : List ExtensionRecord → String → ExtensionRecord → Type 0
Serves exts action r = IsRow exts r × (r.action ≡ action)

-- The row is the one that the plugin and the action name.
abbrev pub Pairs : List ExtensionRecord → String → String → ExtensionRecord → Type 0
Pairs exts hint action r = IsRow exts r × (joined r.plugin_id r.action ≡ joined hint action)

-- A row of another action has the key of this one, which takes a NUL in one of the two.
abbrev pub Hidden : List ExtensionRecord → ExtensionRecord → Type 0
Hidden exts q =
    (s : ExtensionRecord) × IsRow exts s
    × (joined s.plugin_id s.action ≡ joined q.plugin_id q.action)
    × (s.action ≢ q.action)

row_key-joined : (r : ExtensionRecord) → row_key r ≡ joined r.plugin_id r.action
unfolding plugin_key
row_key-joined r = refl

IsRow-is_served :
    (exts : List ExtensionRecord) (r : ExtensionRecord) → IsRow exts r → is_served r ≡ true
IsRow-is_served exts r (h, p, a) = ground (arith, p, a)

last_row-cases :
    (later : Option ExtensionRecord) (b : Bool) (q r : ExtensionRecord)
    → last_row later (if b then some q else none) ≡ some r
    → (later ≡ some r) ⊎ ((b ≡ true) × (q ≡ r))
last_row-cases (some s) b q r h = inl h
last_row-cases none true q r h = inr (refl, cc h)
last_row-cases none false q r h = absurd (cc h)

last_row-none :
    (later : Option ExtensionRecord) (b : Bool) (q : ExtensionRecord)
    → last_row later (if b then some q else none) ≡ none
    → (later ≡ none) × (b ≡ false)
last_row-none (some s) b q h = absurd (cc h)
last_row-none none true q h = absurd (cc h)
last_row-none none false q h = (refl, refl)

pub by_plugin_action-Pairs :
    (hint action : String) (rs : List ExtensionRecord) (r : ExtensionRecord)
    → by_plugin_action (plugin_key hint action) rs ≡ some r
    → Pairs rs hint action r
unfolding by_plugin_action plugin_key
by_plugin_action-Pairs hint action [] r h = absurd (cc h)
by_plugin_action-Pairs hint action (q ∷ qs) r h =
    let key = plugin_key hint action in
    elim (last_row-cases (by_plugin_action key qs) (is_served q && row_key q == key) q r h) [
      | inl later ↦
          let ((there, p, a), same) = by_plugin_action-Pairs hint action qs r later in
          ((inr there, p, a), same)
      | inr (here, same) ↦
          subst (λ r. Pairs (q ∷ qs) hint action r) same
            ((inl refl, ground arith, ground arith), ground (arith, eq_iff (row_key q) key))
    ]

pub by_plugin_action-none :
    (hint action : String) (rs : List ExtensionRecord) (q : ExtensionRecord)
    → by_plugin_action (plugin_key hint action) rs ≡ none
    → ¬ Pairs rs hint action q
unfolding by_plugin_action plugin_key
by_plugin_action-none hint action [] q h ((here, p, a), same) = here
by_plugin_action-none hint action (x ∷ xs) q h ((inl here, p, a), same) =
    let key = plugin_key hint action in
    let (later, idle) =
      last_row-none (by_plugin_action key xs) (is_served x && row_key x == key) x h in
    absurd (ground (arith, idle, p, a, here, same, eq_iff (row_key x) key))
by_plugin_action-none hint action (x ∷ xs) q h ((inr there, p, a), same) =
    let key = plugin_key hint action in
    let (later, idle) =
      last_row-none (by_plugin_action key xs) (is_served x && row_key x == key) x h in
    by_plugin_action-none hint action xs q later ((there, p, a), same)

mem-seen :
    (b : Bool) (key k : String) (seen : List String)
    → mem k (if b then key ∷ seen else seen) ≡ false
    → mem k seen ≡ false
unfolding mem
mem-seen true key k seen h = ground (arith, h)
mem-seen false key k seen h = h

seen-mem :
    (b : Bool) (key k : String) (seen : List String)
    → mem k (if b then key ∷ seen else seen) ≡ true
    → ((b ≡ true) × (key ≡ k)) ⊎ (mem k seen ≡ true)
unfolding mem
seen-mem true key k seen h = elim (Bool-cases (key == k)) [
  | inl e ↦ inl (refl, ground (arith, eq_iff key k))
  | inr e ↦ inr (ground (arith, e, h))
]
seen-mem false key k seen h = inr h

-- Each row that the index lists serves the action, and its key was not seen before.
pub by_action-Serves :
    (action : String) (seen : List String) (rs : List ExtensionRecord) (r : ExtensionRecord)
    → In r (by_action action seen rs)
    → Serves rs action r × (mem (row_key r) seen ≡ false)
unfolding by_action mem
by_action-Serves action seen [] r h = absurd h
by_action-Serves action seen (q ∷ qs) r h =
    let seen' = if is_served q then row_key q ∷ seen else seen in
    let listed = is_served q && not (mem (row_key q) seen) && q.action == action in
    let Goal : Type 0 = Serves (q ∷ qs) action r × (mem (row_key r) seen ≡ false) in
    let later : In r (by_action action seen' qs) → Goal = λ k.
      let (((there, p, a), same), fresh) = by_action-Serves action seen' qs r k in
      (((inr there, p, a), same), mem-seen (is_served q) (row_key q) (row_key r) seen fresh) in
    if-split (λ (xs : List ExtensionRecord). In r xs → Goal) listed _ _
      (λ e k. elim k [
        | inl here ↦
            subst (λ r. Serves (q ∷ qs) action r × (mem (row_key r) seen ≡ false)) here
              (
                ((inl refl, ground arith, ground arith), ground (arith, eq_iff q.action action)),
                ground arith,
              )
        | inr there ↦ later there
      ])
      (λ e k. later k) h

-- Two rows that the index lists one after the other are of different plugins.
pub by_action-apart :
    (action : String) (seen : List String) (rs : List ExtensionRecord) (r s : ExtensionRecord)
    (more : List ExtensionRecord)
    → by_action action seen rs ≡ r ∷ s ∷ more
    → row_key r ≢ row_key s
unfolding by_action mem
by_action-apart action seen [] r s more h = absurd (cc h)
by_action-apart action seen (q ∷ qs) r s more h =
    let seen' = if is_served q then row_key q ∷ seen else seen in
    let listed = is_served q && not (mem (row_key q) seen) && q.action == action in
    if-split (λ (xs : List ExtensionRecord). xs ≡ r ∷ s ∷ more → row_key r ≢ row_key s) listed _ _
      (λ e k same.
        let first : q ≡ r = cc k in
        let rest : by_action action seen' qs ≡ s ∷ more = cc k in
        let (serves, fresh) =
          by_action-Serves action seen' qs s
            (subst (λ (xs : List ExtensionRecord). In s xs) (sym rest) (inl refl)) in
        let served : is_served q ≡ true = ground (arith, e) in
        let key : row_key q ≡ row_key s = ap (λ x. row_key x) first ∙ same in
        absurd (ground (arith, served, fresh, key, eq_iff (row_key q) (row_key s))))
      (λ e k. by_action-apart action seen' qs r s more k) h

still_listed :
    (b : Bool) (x c : ExtensionRecord) (xs : List ExtensionRecord)
    → In c xs
    → In c (if b then x ∷ xs else xs)
still_listed true x c xs h = inr h
still_listed false x c xs h = h

-- What becomes of a row that serves the action: its key was seen, or is that of a listed row, or that of a
-- row of another action.
abbrev pub Caught :
    String → List String → List ExtensionRecord → List ExtensionRecord → ExtensionRecord → Type 0
Caught action seen rs listed q =
    (mem (row_key q) seen ≡ true)
    ⊎ ((c : ExtensionRecord) × In c listed × (row_key c ≡ row_key q))
    ⊎ Hidden rs q

Hidden-later : (x q : ExtensionRecord) (xs : List ExtensionRecord) → Hidden xs q → Hidden (x ∷ xs) q
Hidden-later x q xs (s, (there, p, a), same, other) = (s, (inr there, p, a), same, other)

-- A row whose key is that of the first row: that row is listed, or its action is another.
first_row_listed :
    (action : String) (seen : List String) (x q : ExtensionRecord) (xs later : List ExtensionRecord)
    → is_served x ≡ true
    → row_key x ≡ row_key q
    → q.action ≡ action
    → Caught action seen
        (x ∷ xs)
        (if is_served x && not (mem (row_key x) seen) && x.action == action
          then x ∷ later
          else later)
        q
first_row_listed action seen x q xs later served key act = elim (Bool-cases (x.action == action)) [
  | inr e ↦ inr (
      inr (
        x,
        (inl refl, ground (arith, served), ground (arith, served)),
        sym (row_key-joined x) ∙ key ∙ row_key-joined q,
        λ f. absurd (ground (arith, e, f, act, eq_iff x.action action)),
      ))
  | inl e ↦ elim (Bool-cases (mem (row_key x) seen)) [
    | inl m ↦ inl (subst (λ k. mem k seen ≡ true) key m)
    | inr m ↦ inr (inl (rw (served, e, m) (x, inl refl, key)))
  ]
]

pub by_action-Caught :
    (action : String) (seen : List String) (rs : List ExtensionRecord) (q : ExtensionRecord)
    → Serves rs action q
    → Caught action seen rs (by_action action seen rs) q
unfolding by_action
by_action-Caught action seen [] q ((here, p, a), act) = absurd here
by_action-Caught action seen (x ∷ xs) q ((inl here, p, a), act) =
    first_row_listed action seen x q xs _
      (subst (λ y. is_served y ≡ true) (sym here) (IsRow-is_served (q ∷ []) q (inl refl, p, a)))
      (ap (λ y. row_key y) here) act
by_action-Caught action seen (x ∷ xs) q ((inr there, p, a), act) =
    let seen' = if is_served x then row_key x ∷ seen else seen in
    let later = by_action action seen' xs in
    elim (by_action-Caught action seen' xs q ((there, p, a), act)) [
      | inl m ↦ elim (seen-mem (is_served x) (row_key x) (row_key q) seen m) [
        | inl (served, key) ↦ first_row_listed action seen x q xs later served key act
        | inr old ↦ inl old
      ]
      | inr (inl (c, here, key)) ↦ inr (inl (c, still_listed _ x c later here, key))
      | inr (inr hidden) ↦ inr (inr (Hidden-later x q xs hidden))
    ]

-- Rows of one action with one key are of one plugin.
pub row_key-plugin_id :
    (q r : ExtensionRecord)
    → row_key q ≡ row_key r
    → q.action ≡ r.action
    → q.plugin_id ≡ r.plugin_id
row_key-plugin_id q r key act = append_cancel_right q.plugin_id r.plugin_id (append "\0" r.action) (
    ap (λ a. append q.plugin_id (append "\0" a)) (sym act)
    ∙ sym (row_key-joined q)
    ∙ key
    ∙ row_key-joined r)

pub plugin_id-row_key :
    (q r : ExtensionRecord)
    → q.plugin_id ≡ r.plugin_id
    → q.action ≡ r.action
    → row_key q ≡ row_key r
plugin_id-row_key q r same act = ground (arith, same, act)
