-- ===== src/Compile/Payloads/Laws.antt =====
-- What the payloads of human tasks and of stores hold.
use Prim.Native.String.{[], ◌∷◌}
use morph_api.Prelude.{
  String, ◌≡◌, refl, ◌∙◌, inl, inr, true, false, none, some, List, [], ◌∷◌, ◌==◌, if◌then◌else◌,
  arith, Bool-cases, eq_iff, eq_refl, All,
}
use morph_api.Prelude.Text.{append, trim_space, has_prefix}
use morph_api.Prelude.Membership.{mem}
use morph_api.Prelude.Text.Laws.{==-eq-false}
use morph_api.Json.{
  Value, null, str, arr, obj, Items, nil, cons, Fields, end, field, lookup, insert,
}
use morph_api.Json.Laws.{lookup-insert, lookup-merge, or_else}
use morph_api.Patch.Values.{get}
use morph_api.Compile.Read.{get_str}
use morph_api.Compile.Settings.{put_present}
use morph_api.Compile.Settings.Laws.{lookup-put_present}
use morph_api.Compile.Payloads.{
  hitl_mode, hitl_channel, put_authored, put_text, put_texts, telegram_keys, held_of, delivered,
  hitl_payload, meta_key, meta_rows, meta_fields, store_meta_payload, store_keys, copy_keys,
  store_action, store_payload,
}

has_prefix-append : (p s : String) → has_prefix p (append p s) ≡ true
unfolding has_prefix
has_prefix-append [] s = refl
has_prefix-append (c ∷ p) s = ground (arith, has_prefix-append p s)

meta_key-ne : (k j : String) → has_prefix "meta." j ≡ false → (meta_key k == j) ≡ false
meta_key-ne k j h = ==-eq-false (λ e. cc (has_prefix-append "meta." (trim_space k), e, h))

insert_ne :
    (j k : String) (v : Value) (out : Fields)
    → (k == j) ≡ false
    → lookup j (insert k v out) ≡ lookup j out
insert_ne j k v out h = ground (arith, lookup-insert k j v out)

insert_eq : (k : String) (v : Value) (out : Fields) → lookup k (insert k v out) ≡ some v
insert_eq k v out = ground (arith, lookup-insert k k v out, eq_refl k)

lookup-put_authored :
    (j k : String) (v : Value) (out : Fields)
    → (k == j) ≡ false
    → lookup j (put_authored out k v) ≡ lookup j out
lookup-put_authored j k null out h = refl
lookup-put_authored j k v out h = insert_ne j k v out h

lookup-put_text :
    (j k s : String) (out : Fields) → (k == j) ≡ false → lookup j (put_text out k s) ≡ lookup j out
lookup-put_text j k s out h = ground (arith, insert_ne j k (str s) out)

lookup-put_texts :
    (j : String) (fields : Fields) (ks : List String) (out : Fields)
    → mem j ks ≡ false
    → lookup j (put_texts fields ks out) ≡ lookup j out
unfolding put_texts mem
lookup-put_texts j fields [] out h = refl
lookup-put_texts j fields (k ∷ ks) out h =
    lookup-put_texts j fields ks (put_text out k (get_str fields k)) (ground (arith, h))
    ∙ lookup-put_text j k (get_str fields k) out (ground (arith, h))

lookup-delivered :
    (j channel : String) (fields held : Fields)
    → mem j telegram_keys ≡ false
    → lookup j (delivered channel fields held) ≡ lookup j held
lookup-delivered j channel fields held h =
    ground (arith, lookup-put_texts j fields telegram_keys held h)

lookup-hitl_payload :
    (j id key : String) (fields : Fields)
    → ("key" == j) ≡ false
    → ("settingsId" == j) ≡ false
    → lookup j (hitl_payload id key fields)
      ≡ lookup j (delivered (hitl_channel (get_str fields "channel")) fields (held_of id fields))
unfolding hitl_payload
lookup-hitl_payload j id key fields h g =
    lookup-put_text j "key" key _ h ∙ lookup-put_text j "settingsId" _ _ g

held_of-authored :
    (j id : String) (fields : Fields)
    → ("title" == j) ≡ false
    → ("prompt" == j) ≡ false
    → lookup j (
        put_authored
          (put_authored (field "nodeId" (str id) end) "title" (get "title" fields))
          "prompt"
          (get "prompt" fields))
      ≡ lookup j (field "nodeId" (str id) end)
held_of-authored j id fields t p =
    lookup-put_authored j "prompt" (get "prompt" fields) _ p
    ∙ lookup-put_authored j "title" (get "title" fields) _ t

unaddressed :
    (j id : String) (fields : Fields)
    → (hitl_channel (get_str fields "channel") == "telegram") ≡ false
    → ("nodeId" == j) ≡ false
    → ("title" == j) ≡ false
    → ("prompt" == j) ≡ false
    → ("mode" == j) ≡ false
    → ("channel" == j) ≡ false
    → lookup j (delivered (hitl_channel (get_str fields "channel")) fields (held_of id fields))
      ≡ none
unfolding lookup
unaddressed j id fields h n t p m c =
    let held = held_of id fields in
    let authored =
      put_authored (put_authored (field "nodeId" (str id) end) "title" (get "title" fields))
        "prompt" (get "prompt" fields) in
    let moded = insert "mode" (str (hitl_mode (get_str fields "mode"))) authored in
    let whole : delivered (hitl_channel (get_str fields "channel")) fields held ≡ held =
      rw h refl in
    rw whole (
      insert_ne j "channel" _ moded c
      ∙ insert_ne j "mode" _ authored m
      ∙ held_of-authored j id fields t p
      ∙ rw n refl)

unaddressed-All :
    (id key : String) (fields : Fields)
    → (hitl_channel (get_str fields "channel") == "telegram") ≡ false
    → All (λ k. lookup k (hitl_payload id key fields) ≡ none) telegram_keys
unaddressed-All id key fields h = (
  lookup-hitl_payload "telegramConnection" id key fields refl refl
      ∙ unaddressed "telegramConnection" id fields h refl refl refl refl refl,
  (
    lookup-hitl_payload "telegramAlias" id key fields refl refl
        ∙ unaddressed "telegramAlias" id fields h refl refl refl refl refl,
    (
      lookup-hitl_payload "telegramChatId" id key fields refl refl
          ∙ unaddressed "telegramChatId" id fields h refl refl refl refl refl,
      tt,
    ),
  ),
)

-- A human task is delivered with the id of its node, and with its mode and its channel narrowed to
-- those that the handler knows; unless the channel is Telegram, with no address of Telegram.
pub hitl_payload-fields :
    (id key : String) (fields : Fields)
    → (lookup "nodeId" (hitl_payload id key fields) ≡ some (str id))
      × (lookup "mode" (hitl_payload id key fields)
          ≡ some (str (hitl_mode (get_str fields "mode"))))
      × (lookup "channel" (hitl_payload id key fields)
          ≡ some (str (hitl_channel (get_str fields "channel"))))
      × ((hitl_channel (get_str fields "channel") == "telegram") ≡ false
          → All (λ k. lookup k (hitl_payload id key fields) ≡ none) telegram_keys)
unfolding mem lookup
hitl_payload-fields id key fields =
    let channel = hitl_channel (get_str fields "channel") in
    let held = held_of id fields in
    let authored =
      put_authored (put_authored (field "nodeId" (str id) end) "title" (get "title" fields))
        "prompt" (get "prompt" fields) in
    let moded = insert "mode" (str (hitl_mode (get_str fields "mode"))) authored in
    (
      lookup-hitl_payload "nodeId" id key fields refl refl
          ∙ lookup-delivered "nodeId" channel fields held refl
          ∙ insert_ne "nodeId" "channel" (str channel) moded refl
          ∙ insert_ne "nodeId" "mode" _ authored refl
          ∙ held_of-authored "nodeId" id fields refl refl,
      lookup-hitl_payload "mode" id key fields refl refl
          ∙ lookup-delivered "mode" channel fields held refl
          ∙ insert_ne "mode" "channel" (str channel) moded refl
          ∙ insert_eq "mode" _ authored,
      lookup-hitl_payload "channel" id key fields refl refl
          ∙ lookup-delivered "channel" channel fields held refl
          ∙ insert_eq "channel" (str channel) moded,
      λ h. unaddressed-All id key fields h,
    )

lookup-meta_row :
    (j k : String) (v : Value) (out : Fields)
    → has_prefix "meta." j ≡ false
    → lookup j (if trim_space k == "" then out else insert (meta_key k) v out) ≡ lookup j out
lookup-meta_row j k v out h = elim (Bool-cases (trim_space k == "")) [
  | inl e ↦ rw e refl
  | inr e ↦ rw e (insert_ne j (meta_key k) v out (meta_key-ne k j h))
]

lookup-meta_rows :
    (j : String) (vs : Items) (out : Fields)
    → has_prefix "meta." j ≡ false
    → lookup j (meta_rows vs out) ≡ lookup j out
unfolding meta_rows
lookup-meta_rows j nil out h = refl
lookup-meta_rows j (cons (obj r) vs) out h =
    lookup-meta_rows j vs _ h ∙ lookup-meta_row j (get_str r "key") (get "value" r) out h
lookup-meta_rows j (cons _ vs) out h = lookup-meta_rows j vs out h

lookup-meta_fields :
    (j : String) (m out : Fields)
    → has_prefix "meta." j ≡ false
    → lookup j (meta_fields m out) ≡ lookup j out
unfolding meta_fields
lookup-meta_fields j end out h = refl
lookup-meta_fields j (field k v m) out h = lookup-meta_fields j m _ h ∙ lookup-meta_row j k v out h

lookup-store_meta :
    (j : String) (raw : Value)
    → has_prefix "meta." j ≡ false
    → lookup j (store_meta_payload raw) ≡ none
unfolding store_meta_payload lookup
lookup-store_meta j (arr vs) h = lookup-meta_rows j vs end h
lookup-store_meta j (obj m) h = lookup-meta_fields j m end h
lookup-store_meta j _ h = refl

-- the value that a store node ships under a key: its own for the keys that are copied
lookup-copy_keys :
    (j : String) (fields : Fields) (ks : List String) (out : Fields)
    → lookup j (copy_keys fields ks out)
      ≡ (if mem j ks then or_else (lookup j fields) (lookup j out) else lookup j out)
unfolding copy_keys mem
lookup-copy_keys j fields [] out = refl
lookup-copy_keys j fields (k ∷ ks) out = ground (
  arith,
  lookup-copy_keys j fields ks (put_present out k (lookup k fields)),
  lookup-put_present j k (lookup k fields) out,
  eq_iff k j,
)

-- A store node ships its action and its own fields, whatever its metadata is called: no row of the
-- metadata replaces one of them.
pub store_payload-lookup :
    (j : String) (fields : Fields)
    → has_prefix "meta." j ≡ false
    → lookup j (store_payload fields) ≡ (
        if mem j store_keys
        then or_else (lookup j fields) (lookup j (field "action" (str (store_action fields)) end))
        else lookup j (field "action" (str (store_action fields)) end))
unfolding store_payload
store_payload-lookup j fields h =
    lookup-merge (copy_keys fields store_keys (field "action" (str (store_action fields)) end))
      (store_meta_payload (get "metadata" fields)) j
    ∙ rw (lookup-store_meta j (get "metadata" fields) h)
        (lookup-copy_keys j fields store_keys (field "action" (str (store_action fields)) end))
