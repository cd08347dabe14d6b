-- ===== src/HumanContext.antt =====
-- inflow/hitl_context.go: the outcome of a closed session is bound into the context of its run.
pub mod Laws
mod Examples
use Prim.Native.String.{[], ◌∷◌}
use morph_api.Prelude.{
  ℕ, String, Bool, true, false, not, ◌&&◌, ◌||◌, Option, none, some, List, [], ◌∷◌, ◌==◌,
  if◌then◌else◌,
}
use morph_api.Prelude.Text.{append, is_empty, trim_space}
use morph_api.Prelude.Decimal.{decimal}
use morph_api.Json.{Value, num, str, arr, obj, Items, nil, cons, Fields, end, field, insert}
use morph_api.Chat.{Question}
use morph_api.Entry.Store.{
  ContextStore, ContextRecord, Fetched, found, not_found, failed, Body, blank, null_text, malformed,
  document,
}

-- `HumanTaskMessage`
pub record Message : Type 0 where
  pub id : String
  pub role : String
  pub text : String
  pub at : ℕ

-- The fields of a `HumanTask` that are read here.
pub record HumanTask : Type 0 where
  pub status : String
  pub node_id : String
  pub context_id : String
  pub key : String
  pub questions : List Question
  pub messages : List Message
  pub closed_at : ℕ

abbrev pub label_of : String → String
label_of role =
    if role == "human"
    then "User"
    else if role == "assistant"
    then "Assistant"
    else if role == "system"
    then "System"
    else role

-- the loop that writes the transcript behind what is written
unfoldable pub transcript_from : String → List Message → String
transcript_from b [] = b
transcript_from b (m ∷ ms) =
    let start = if is_empty b then b else append b "\n" in
    transcript_from (append start (append (label_of m.role) (append ": " m.text))) ms

abbrev pub transcript : HumanTask → String
transcript task = transcript_from "" task.messages

unfoldable pub answer_items : List Question → Items
answer_items [] = nil
answer_items (q ∷ qs) =
    cons (obj (field "question" (str q.text) (field "answer" (str q.answer) end))) (answer_items qs)

unfoldable pub question_items : List Question → Items
question_items [] = nil
question_items (q ∷ qs) =
    cons
      (obj (
        field "id" (str q.id) (
          field "text" (str q.text) (
            field "answer" (str q.answer) (field "answeredAt" (num (decimal q.answered_at)) end)))))
      (question_items qs)

unfoldable pub message_items : List Message → Items
message_items [] = nil
message_items (m ∷ ms) =
    cons
      (obj (
        field "id" (str m.id) (
          field "role" (str m.role)
            (field "text" (str m.text) (field "at" (num (decimal m.at)) end)))))
      (message_items ms)

-- The outcome, as encoding/json writes it into the document; a nil list, which it writes as `null`, is
-- an empty one here.
unfoldable pub human_task_outcome : HumanTask → Fields
human_task_outcome task = field "status" (str task.status) (
    field "answers" (arr (answer_items task.questions)) (
      field "questions" (arr (question_items task.questions)) (
        field "messages" (arr (message_items task.messages)) (
          field "text" (str (transcript task))
            (field "closedAt" (num (decimal task.closed_at)) end)))))

pub data Outcome : Type 0 where
  skipped : Outcome
  written : Outcome
  load_failed : (id : String) → Outcome
  not_an_object : (id : String) → Outcome
  save_failed : (id : String) → Outcome
  -- an assignment to a key of a nil map
  panics : Outcome

module _ {S : Type 0} (store : ContextStore S) where
  abbrev pub saved_as : S → String → Option S → S × Outcome
  saved_as s id none = (s, save_failed id)
  saved_as s id (some t) = (t, written)

  abbrev pub save_bound : S → HumanTask → ContextRecord → Fields → S × Outcome
  save_bound s task rec doc = saved_as s (trim_space task.context_id) (
      store.upsert s (record rec {
        context = document (insert (trim_space task.key) (obj (human_task_outcome task)) doc);
        updated_by = record { by = "flow"; address = task.node_id };
      }))

  -- Parsing `null` leaves a nil map.
  abbrev pub bind_outcome : S → HumanTask → ContextRecord → Body → S × Outcome
  bind_outcome s task rec blank = save_bound s task rec end
  bind_outcome s task rec null_text = (s, panics)
  bind_outcome s task rec (malformed text) = (s, not_an_object (trim_space task.context_id))
  bind_outcome s task rec (document doc) = save_bound s task rec doc

  abbrev pub bind_fetched : S → HumanTask → Fetched → S × Outcome
  bind_fetched s task (found rec) = bind_outcome s task rec rec.context
  bind_fetched s task not_found = (s, load_failed (trim_space task.context_id))
  bind_fetched s task failed = (s, load_failed (trim_space task.context_id))

  -- A nil task is `none`.
  unfoldable pub write_human_task_context : S → Option HumanTask → S × Outcome
  write_human_task_context s none = (s, skipped)
  write_human_task_context s (some task) =
      if trim_space task.key == "" || trim_space task.context_id == ""
      then (s, skipped)
      else bind_fetched s task (store.get_by_id s (trim_space task.context_id))
