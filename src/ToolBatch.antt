-- ===== src/ToolBatch.antt =====
-- serving/tool_batch.py: the gate that stages, validates and publishes the tool calls of one turn.
pub mod Guarantee
pub mod Order
pub mod Atomic
pub mod Bounds
mod Tests
use ex_qserve.Base.{
  ℕ, String, Bool, true, false, Option, none, some, List, [], ◌∷◌, ◌++◌, ◌==◌, ◌&&◌, ◌||◌, not, leb,
  min, if◌then◌else◌, contains, is_empty, length,
}
use ex_qserve.Core.{
  ToolCallItem, GenerationEvent, tool_call_started, tool_call_arguments_delta, tool_call_completed,
}
use ex_qserve.Agent.{
  Json, ToolPolicy, ValidationCode, ValidationIssue, invalid_json, duplicate_json_key,
  json_value_not_object, schema_validation_failed, duplicate_tool_call_id, invalid_tool_call_order,
  validate_tool_calls,
}

-- _MODEL_TOOL_OUTPUT_INVALID_CODES
abbrev pub is_model_output_code : ValidationCode → Bool
is_model_output_code invalid_json = true
is_model_output_code duplicate_json_key = true
is_model_output_code json_value_not_object = true
is_model_output_code schema_validation_failed = true
is_model_output_code _ = false

-- _TOOL_CALL_INVALID_CODES
abbrev pub is_tool_call_code : ValidationCode → Bool
is_tool_call_code duplicate_tool_call_id = true
is_tool_call_code invalid_tool_call_order = true
is_tool_call_code code = is_model_output_code code

-- _FORMAT_GUARANTEED_INVALID_CODES
abbrev pub is_format_code : ValidationCode → Bool
is_format_code invalid_json = true
is_format_code duplicate_json_key = true
is_format_code json_value_not_object = true
is_format_code _ = false

abbrev pub any_code : (ValidationCode → Bool) → List ValidationIssue → Bool
any_code p [] = false
any_code p (i ∷ is) = p i.code || any_code p is

pub record BatchFailure : Type 0 where
  pub code : String
  pub message : String
  pub validation_issues : List ValidationIssue

pub record BatchDecision : Type 0 where
  pub events : List GenerationEvent
  pub failure : Option BatchFailure

-- `tool_validation_failure`, of a result with at least one issue.
unfoldable pub tool_validation_failure : List ValidationIssue → BatchFailure
tool_validation_failure issues =
    if any_code is_tool_call_code issues
    then record {
      code = "tool_call_invalid";
      message = "Model produced an invalid tool call.";
      validation_issues = issues;
    }
    else record {
      code = "tool_policy_violation";
      message = "Model output violated the requested tool policy.";
      validation_issues = issues;
    }

pub data BatchLifecycle : Type 0 where
  opened committed aborted : BatchLifecycle

-- The fields that the methods of `ToolCallBatchGate` change.
pub record Gate : Type 0 where
  pub accepted_call_ids : List String
  pub completed_calls : List ToolCallItem
  pub buffered_events : List GenerationEvent
  pub lifecycle : BatchLifecycle

abbrev pub new_gate : Gate
new_gate = record {
  accepted_call_ids = [];
  completed_calls = [];
  buffered_events = [];
  lifecycle = opened;
}

abbrev pub publish : List GenerationEvent → BatchDecision
publish events = record { events = events; failure = none }

abbrev pub fail : BatchFailure → BatchDecision
fail f = record { events = []; failure = some f }

abbrev pub reject : String → String → BatchDecision
reject code message = fail (record { code = code; message = message; validation_issues = [] })

abbrev pub finalized : BatchDecision
finalized =
    reject "tool_call_stream_invalid"
      "Model produced Tool Call events after the Tool Call batch was finalized."

-- self._lifecycle is _BatchLifecycle.OPEN
abbrev pub is_open : BatchLifecycle → Bool
is_open opened = true
is_open _ = false

-- _effective_limit
unfoldable pub effective_limit : Bool → ℕ → ℕ → ℕ
effective_limit atomic_parallel_tools fanout_limit constrained_limit =
    if atomic_parallel_tools then min fanout_limit constrained_limit else fanout_limit

abbrev pub buffer : GenerationEvent → Gate → Gate × BatchDecision
buffer event g = (record g { buffered_events = g.buffered_events ++ event ∷ [] }, publish [])

unfoldable pub on_passthrough : GenerationEvent → Gate → Gate × BatchDecision
on_passthrough event g =
    if not (is_open g.lifecycle)
    then (g, finalized)
    else if not (is_empty g.buffered_events)
    then buffer event g
    else (g, publish (event ∷ []))

unfoldable pub commit_events : Gate → Gate × List GenerationEvent
commit_events g =
    if not (is_open g.lifecycle)
    then (g, [])
    else (record g { lifecycle = committed; buffered_events = [] }, g.buffered_events)

unfoldable pub abort_lifecycle : BatchLifecycle → Gate → Gate
abort_lifecycle committed g = g
abort_lifecycle _ g = record g { lifecycle = aborted; buffered_events = [] }

unfoldable pub abort : Gate → Gate
unfolding abort_lifecycle
abort g = abort_lifecycle g.lifecycle g

module _ (json : Json) (policy : ToolPolicy json) (atomic_parallel_tools : Bool) (limit : ℕ) where
  unfoldable pub accept_event : GenerationEvent → Gate → Gate × BatchDecision
  accept_event event g =
      if atomic_parallel_tools || not (is_empty g.buffered_events)
      then buffer event g
      else (g, publish (event ∷ []))

  unfoldable pub on_started : String → String → String → ℕ → Gate → Gate × BatchDecision
  unfolding accept_event
  on_started request_id call_id name index g =
      if not (is_open g.lifecycle)
      then (g, finalized)
      else if contains call_id g.accepted_call_ids
      then (
        g,
        reject "tool_call_stream_invalid" "Model produced a duplicate tool-call start event.",
      )
      else if leb limit (length g.accepted_call_ids)
      then (g, reject "tool_policy_violation" "Model output exceeded the server tool-call policy.")
      else accept_event (tool_call_started request_id call_id name index)
          (record g { accepted_call_ids = call_id ∷ g.accepted_call_ids })

  unfoldable pub on_arguments_delta : String → String → String → ℕ → Gate → Gate × BatchDecision
  unfolding accept_event
  on_arguments_delta request_id call_id delta index g =
      if not (is_open g.lifecycle)
      then (g, finalized)
      else if not (contains call_id g.accepted_call_ids)
      then (
        g,
        reject "tool_call_stream_invalid"
            "Model produced tool arguments before an accepted tool call start.",
      )
      else accept_event (tool_call_arguments_delta request_id call_id delta index) g

  -- The call joins the completed ones if the batch with it has no issue.
  unfoldable pub complete :
      String → ToolCallItem → Gate → List ValidationIssue → Gate × BatchDecision
  unfolding tool_validation_failure
  complete request_id call g [] =
      buffer (tool_call_completed request_id call)
        (record g { completed_calls = g.completed_calls ++ call ∷ [] })
  complete request_id call g (i ∷ is) = (g, fail (tool_validation_failure (i ∷ is)))

  unfoldable pub on_completed : String → ToolCallItem → Gate → Gate × BatchDecision
  unfolding complete
  on_completed request_id call g =
      if not (is_open g.lifecycle)
      then (g, finalized)
      else if not (contains call.call_id g.accepted_call_ids)
      then (
        g,
        reject "tool_call_stream_invalid" "Model completed a tool call that was not accepted.",
      )
      else complete request_id call g
          (validate_tool_calls json (g.completed_calls ++ call ∷ []) policy).0

  -- One call of a method of the gate by the engine, other than `abort`, which ends the stream and
  -- drops what the buffer holds.
  pub data Input : Type 0 where
    started : String → String → String → ℕ → Input
    delta : String → String → String → ℕ → Input
    completed : String → ToolCallItem → Input
    passthrough : GenerationEvent → Input
    commit : Input

  unfoldable pub feed : Input → Gate → Gate × BatchDecision
  unfolding on_started on_arguments_delta on_completed on_passthrough commit_events
  feed (started r c n i) g = on_started r c n i g
  feed (delta r c d i) g = on_arguments_delta r c d i g
  feed (completed r c) g = on_completed r c g
  feed (passthrough e) g = on_passthrough e g
  feed commit g = let (h, events) = commit_events g in (h, publish events)

  -- The gate after the inputs, with all that it published.
  unfoldable pub feed_all : List Input → Gate → Gate × List GenerationEvent
  unfolding feed
  feed_all [] g = (g, [])
  feed_all (i ∷ is) g =
      let (h, d) = feed i g in let (final, later) = feed_all is h in (final, d.events ++ later)
