-- ===== src/Compile/Payloads.antt =====
-- The operation payloads of the extrinsic nodes of inflow/node_builders.go: a human task, a store and
-- a continuation.
pub mod Laws
use morph_api.Prelude.{
  String, Bool, true, false, not, ◌||◌, Option, none, some, List, [], ◌∷◌, ◌==◌, eqb, ltb,
  if◌then◌else◌,
}
use morph_api.Prelude.Text.{append, trim_space}
use morph_api.Json.{
  Value, null, num, str, arr, obj, Items, nil, cons, Fields, end, field, lookup, insert, merge,
}
use morph_api.Patch.Values.{get}
use morph_api.Compile.Read.{Floats, get_str, get_float, delay_mode_seconds}
use morph_api.Compile.Settings.{put_present}

abbrev pub hitl_mode : String → String
hitl_mode v = if v == "continue" then "continue" else "park"

abbrev pub hitl_channel : String → String
hitl_channel v = if v == "telegram" || v == "whatsapp" then v else "direct"

-- a field that is present and not nil, as it is authored
abbrev pub put_authored : Fields → String → Value → Fields
put_authored out key null = out
put_authored out key v = insert key v out

-- a text that is not empty
abbrev pub put_text : Fields → String → String → Fields
put_text out key s = if s == "" then out else insert key (str s) out

unfoldable pub put_texts : Fields → List String → Fields → Fields
put_texts fields [] out = out
put_texts fields (k ∷ ks) out = put_texts fields ks (put_text out k (get_str fields k))

abbrev pub telegram_keys : List String
telegram_keys = "telegramConnection" ∷ "telegramAlias" ∷ "telegramChatId" ∷ []

-- the payload up to the channel
abbrev pub held_of : String → Fields → Fields
held_of node_id fields =
    let authored =
      put_authored (put_authored (field "nodeId" (str node_id) end) "title" (get "title" fields))
        "prompt" (get "prompt" fields) in
    insert "channel" (str (hitl_channel (get_str fields "channel")))
      (insert "mode" (str (hitl_mode (get_str fields "mode"))) authored)

-- what a session in Telegram is delivered with
abbrev pub delivered : String → Fields → Fields → Fields
delivered channel fields held =
    if channel == "telegram" then put_texts fields telegram_keys held else held

-- `key` is the key of the node that is built
unfoldable pub hitl_payload : String → String → Fields → Fields
hitl_payload node_id key fields =
    let out = delivered (hitl_channel (get_str fields "channel")) fields (held_of node_id fields) in
    put_text (put_text out "settingsId" (get_str fields "settingsId")) "key" key

abbrev pub meta_key : String → String
meta_key k = append "meta." (trim_space k)

-- a row with a blank key is dropped
unfoldable pub meta_rows : Items → Fields → Fields
meta_rows nil out = out
meta_rows (cons v vs) out = elim v [
  | obj r ↦ meta_rows vs (
      if trim_space (get_str r "key") == ""
      then out
      else insert (meta_key (get_str r "key")) (get "value" r) out)
  | _ ↦ meta_rows vs out
]

unfoldable pub meta_fields : Fields → Fields → Fields
meta_fields end out = out
meta_fields (field k v m) out =
    meta_fields m (if trim_space k == "" then out else insert (meta_key k) v out)

-- Keys of an object that differ by blanks alone end at one key, as the source's random order has it;
-- here the last one is kept.
unfoldable pub store_meta_payload : Value → Fields
store_meta_payload raw = elim raw [
  | arr rows ↦ meta_rows rows end
  | obj m ↦ meta_fields m end
  | _ ↦ end
]

abbrev pub store_keys : List String
store_keys = "storeId" ∷ "query" ∷ "input" ∷ "key" ∷ "text" ∷ "topK" ∷ "partition" ∷ "minScore" ∷ []

unfoldable pub copy_keys : Fields → List String → Fields → Fields
copy_keys fields [] out = out
copy_keys fields (k ∷ ks) out = copy_keys fields ks (put_present out k (lookup k fields))

abbrev pub store_action : Fields → String
store_action fields = if get_str fields "action" == "" then "read" else get_str fields "action"

unfoldable pub store_payload : Fields → Fields
store_payload fields =
    merge (copy_keys fields store_keys (field "action" (str (store_action fields)) end))
      (store_meta_payload (get "metadata" fields))

-- `parse_time` is `time.Parse` by a layout, with the milliseconds of the time it reads.
module _ (parse_time : String → String → Option String) where
  unfoldable pub first_time : List String → String → String
  first_time [] at = "0"
  first_time (l ∷ ls) at =
      let later = first_time ls at in elim (parse_time l at) [ none ↦ later | some ms ↦ ms ]

  unfoldable pub parse_at_millis : String → String
  parse_at_millis at =
      if at == ""
      then "0"
      else first_time
          ("2006-01-02T15:04:05Z07:00" ∷ "2006-01-02T15:04:05" ∷ "2006-01-02T15:04" ∷ []) at

  module _ (floats : Floats) where
    unfoldable pub until_payload : Fields → Fields
    until_payload fields =
        let mode = get_str fields "mode" in
        let payload = field "mode" (str mode) end in
        if mode == "at"
        then insert "continueAt" (num (parse_at_millis (get_str fields "at")))
            (insert "at" (str (get_str fields "at")) payload)
        else if ltb 0 (delay_mode_seconds mode)
        then insert "delaySeconds"
            (num (
              floats.truncate
                (floats.times (get_float floats fields "value") (delay_mode_seconds mode))))
            payload
        else insert "delaySeconds" (num (floats.truncate (get_float floats fields "delaySeconds")))
            payload
