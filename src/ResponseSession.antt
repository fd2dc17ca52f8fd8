-- ===== src/ResponseSession.antt =====
-- state/session.py: `StatefulServingSession` over the response store. An event of the inner session
-- comes with the time at which the store reads its clock. The inner session's own cancellation is
-- its business; what is counted is how often it is called.
pub mod Persistence
mod Tests
use ex_qserve.Base.{
  ℕ, ◌+◌, String, Bool, true, false, ◌||◌, Option, none, some, List, [], ◌∷◌, ◌++◌, if◌then◌else◌,
}
use ex_qserve.Core.{
  ToolCallItem, CanonicalError, internal, GenerationEvent, generation_completed,
  generation_cancelled, generation_failed, text_completed, reasoning_completed, tool_call_completed,
}
use ex_qserve.Store.{
  Store, Config, ResponseStoreDisposition, stored, refused_too_large, refused_missing_parent,
  refused_model_mismatch, refused_invalid_graph, refused_budget,
}
use ex_qserve.Store.Record.{PyValue, str, scalar, enum, dataclass, end, field, ResponseRecord}
use ex_qserve.Store.Methods.{put}

-- What does not change, of `__init__`.
pub record Setup : Type 0 where
  pub response_id : String
  pub model : String
  pub parent_response_id : Option String
  pub current_input : List PyValue
  pub store_response : Bool

pub record StatefulSession : Type 0 where
  pub outputs : List PyValue
  pub terminal : Bool
  pub cancelled : Bool
  pub cancels : ℕ

abbrev pub new_session : StatefulSession
new_session = record { outputs = []; terminal = false; cancelled = false; cancels = 0 }

-- ReasoningItem(text)
abbrev pub reasoning_item : String → PyValue
reasoning_item text =
    dataclass (field "text" (str text) (field "starts_new_assistant_segment" scalar end))

-- MessageItem(MessageRole.ASSISTANT, text)
abbrev pub assistant_message : String → PyValue
assistant_message text =
    dataclass (field "role" (enum (str "assistant")) (field "text" (str text) end))

abbrev pub tool_call_item : ToolCallItem → PyValue
tool_call_item call = dataclass (
    field "call_id" (str call.call_id) (
      field "name" (str call.name)
        (field "arguments_json" (str call.arguments_json) (field "index" scalar end))))

abbrev pub refusal_message : ResponseStoreDisposition → String
refusal_message stored = "Response state could not be stored (stored)."
refusal_message refused_too_large = "Response state could not be stored (refused_too_large)."
refusal_message refused_missing_parent =
    "Response state could not be stored (refused_missing_parent)."
refusal_message refused_model_mismatch =
    "Response state could not be stored (refused_model_mismatch)."
refusal_message refused_invalid_graph =
    "Response state could not be stored (refused_invalid_graph)."
refusal_message refused_budget = "Response state could not be stored (refused_budget)."

abbrev pub store_refused : ResponseStoreDisposition → CanonicalError
store_refused disposition = record {
  category = internal;
  code = "response_store_refused";
  message = refusal_message disposition;
  retryable = false;
  cause = none;
}

-- The session, the store and the event that the caller gets.
pub record Reading : Type 0 where
  pub session : StatefulSession
  pub store : Store
  pub event : GenerationEvent

abbrev with_output : PyValue → GenerationEvent → StatefulSession → Store → Reading
with_output item e t s = record {
  session = record t { outputs = t.outputs ++ item ∷ [] };
  store = s;
  event = e;
}

abbrev ended : GenerationEvent → StatefulSession → Store → Reading
ended e t s = record { session = record t { terminal = true }; store = s; event = e }

unfoldable pub cancel : StatefulSession → StatefulSession
cancel t =
    if t.terminal || t.cancelled then t else record t { cancelled = true; cancels = t.cancels + 1 }

-- __aexit__
unfoldable pub exit_session : StatefulSession → StatefulSession
unfolding cancel
exit_session t = if t.terminal then t else cancel t

module _ (c : Config) (setup : Setup) where
  -- The record of a session with these outputs.
  abbrev pub response_record : List PyValue → ResponseRecord
  response_record outputs = record {
    response_id = setup.response_id;
    model = setup.model;
    parent_response_id = setup.parent_response_id;
    delta_items = setup.current_input ++ outputs;
  }

  -- What the caller gets after the store's answer.
  abbrev pub answer_of : GenerationEvent → ResponseStoreDisposition → GenerationEvent
  answer_of e stored = e
  answer_of e disposition = generation_failed setup.response_id (store_refused disposition)

  unfoldable pub complete_stored :
      GenerationEvent → StatefulSession → Store × ResponseStoreDisposition → Reading
  complete_stored e t (s, disposition) = ended (answer_of e disposition) t s

  unfoldable pub next : GenerationEvent → ℕ → StatefulSession → Store → Reading
  unfolding complete_stored put
  next (reasoning_completed r text) now t s =
      with_output (reasoning_item text) (reasoning_completed r text) t s
  next (text_completed r text) now t s =
      with_output (assistant_message text) (text_completed r text) t s
  next (tool_call_completed r call) now t s =
      with_output (tool_call_item call) (tool_call_completed r call) t s
  next (generation_completed r reason usage stop) now t s =
      if setup.store_response
      then complete_stored (generation_completed r reason usage stop) t
          (put c (response_record t.outputs) now s)
      else ended (generation_completed r reason usage stop) t s
  next (generation_failed r error) now t s = ended (generation_failed r error) t s
  next (generation_cancelled r) now t s = ended (generation_cancelled r) t s
  next e now t s = record { session = t; store = s; event = e }

  -- The caller reads these events of the inner session, each with the time.
  unfoldable pub read :
      List (GenerationEvent × ℕ)
      → StatefulSession
      → Store
      → StatefulSession × Store × List GenerationEvent
  unfolding next
  read [] t s = (t, s, [])
  read ((e, now) ∷ es) t s =
      let n = next e now t s in
      let (u, v, later) = read es n.session n.store in (u, v, n.event ∷ later)
