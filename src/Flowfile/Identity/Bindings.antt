-- ===== src/Flowfile/Identity/Bindings.antt =====
-- The data of a bound node and of an unbound one.
use morph_api.Prelude.{
  String, ◌≡◌, refl, ◌⊎◌, false, ◌&&◌, ◌||◌, none, some, List, [], ◌∷◌, ◌==◌, arith, if-split, ◌∙◌,
}
use morph_api.Json.{Value, str, Fields, lookup, insert, erase}
use morph_api.Json.Laws.{lookup-insert_same, lookup-insert_ne, lookup-erase_same, lookup-erase_ne}
use morph_api.Patch.Values.{get, as_str, is_blank}
use morph_api.Flowfile.{OutboundPort, ExtensionRecord}
use morph_api.Flowfile.Identity.{cleared, with_outbound, with_title, bind}

abbrev pub In : ExtensionRecord → List ExtensionRecord → Type 0
In r [] = ⊥
In r (q ∷ qs) = (q ≡ r) ⊎ In r qs

-- the keys of a node that its binding consists of
abbrev pub BoundTo : ExtensionRecord → Fields → Type 0
BoundTo r m =
    (lookup "extensionId" m ≡ some (str r.id))
    × (lookup "pluginId" m ≡ some (str r.plugin_id))
    × (lookup "action" m ≡ some (str r.action))

abbrev pub Unbound : Fields → Type 0
Unbound m =
    (lookup "extensionId" m ≡ none)
    × (lookup "pluginId" m ≡ none)
    × (lookup "form" m ≡ none)
    × (lookup "outbound" m ≡ none)

with_outbound-lookup :
    (k : String) (ps : List OutboundPort) (m : Fields)
    → ("outbound" == k) ≡ false
    → lookup k (with_outbound ps m) ≡ lookup k m
with_outbound-lookup k [] m h = refl
with_outbound-lookup k (p ∷ ps) m h = lookup-insert_ne "outbound" k _ m h

with_title-lookup :
    (k title name : String) (m : Fields)
    → ("title" == k) ≡ false
    → lookup k (with_title title name m) ≡ lookup k m
with_title-lookup k title name m h =
    if-split (λ (x : Fields). lookup k x ≡ lookup k m)
      (is_blank title && is_blank (as_str (get "title" m))) _ _
      (λ e. lookup-insert_ne "title" k (str name) m h) (λ e. refl)

-- What a key that is none of the outer ones holds in the data of a bound node.
bind-lookup :
    (k title : String) (r : ExtensionRecord) (m : Fields)
    → ("outbound" == k) ≡ false
    → ("form" == k) ≡ false
    → ("title" == k) ≡ false
    → lookup k (bind title r m)
      ≡ lookup k (
          insert "action" (str r.action) (
            insert "pluginId"
              (str r.plugin_id)
              (insert "extensionId" (str r.id) (erase "bindPlugin" m))))
unfolding bind
bind-lookup k title r m o f t =
    with_outbound-lookup k r.outbound _ o
    ∙ lookup-insert_ne "form" k _ _ f
    ∙ with_title-lookup k title r.name _ t

pub bind-BoundTo : (title : String) (r : ExtensionRecord) (m : Fields) → BoundTo r (bind title r m)
bind-BoundTo title r m = (
  bind-lookup "extensionId" title r m refl refl refl
      ∙ lookup-insert_ne "action" "extensionId" _ _ refl
      ∙ lookup-insert_ne "pluginId" "extensionId" _ _ refl
      ∙ lookup-insert_same "extensionId" _ _,
  bind-lookup "pluginId" title r m refl refl refl
      ∙ lookup-insert_ne "action" "pluginId" _ _ refl
      ∙ lookup-insert_same "pluginId" _ _,
  bind-lookup "action" title r m refl refl refl ∙ lookup-insert_same "action" _ _,
)

pub cleared-Unbound : (m : Fields) → Unbound (cleared m)
unfolding cleared
cleared-Unbound m = (
  lookup-erase_ne "missingPlugin" "extensionId" _ refl
      ∙ lookup-erase_ne "outbound" "extensionId" _ refl
      ∙ lookup-erase_ne "form" "extensionId" _ refl
      ∙ lookup-erase_ne "pluginId" "extensionId" _ refl
      ∙ lookup-erase_same "extensionId" m,
  lookup-erase_ne "missingPlugin" "pluginId" _ refl
      ∙ lookup-erase_ne "outbound" "pluginId" _ refl
      ∙ lookup-erase_ne "form" "pluginId" _ refl
      ∙ lookup-erase_same "pluginId" _,
  lookup-erase_ne "missingPlugin" "form" _ refl
      ∙ lookup-erase_ne "outbound" "form" _ refl
      ∙ lookup-erase_same "form" _,
  lookup-erase_ne "missingPlugin" "outbound" _ refl ∙ lookup-erase_same "outbound" _,
)

pub insert-Unbound :
    (k : String) (v : Value) (m : Fields)
    → ((k == "extensionId") || (k == "pluginId") || (k == "form") || (k == "outbound")) ≡ false
    → Unbound m
    → Unbound (insert k v m)
insert-Unbound k v m h (a, b, c, d) = (
  lookup-insert_ne k "extensionId" v m (ground arith) ∙ a,
  lookup-insert_ne k "pluginId" v m (ground arith) ∙ b,
  lookup-insert_ne k "form" v m (ground arith) ∙ c,
  lookup-insert_ne k "outbound" v m (ground arith) ∙ d,
)

pub erase-Unbound :
    (k : String) (m : Fields)
    → ((k == "extensionId") || (k == "pluginId") || (k == "form") || (k == "outbound")) ≡ false
    → Unbound m
    → Unbound (erase k m)
erase-Unbound k m h (a, b, c, d) = (
  lookup-erase_ne k "extensionId" m (ground arith) ∙ a,
  lookup-erase_ne k "pluginId" m (ground arith) ∙ b,
  lookup-erase_ne k "form" m (ground arith) ∙ c,
  lookup-erase_ne k "outbound" m (ground arith) ∙ d,
)
