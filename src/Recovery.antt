-- ===== src/Recovery.antt =====
-- serving/recovery.py: when a failed attempt may be discarded and run again, and what the streaming
-- loop of `RecoveringServingSession` shows of one attempt. `ServingVisibilityMode` is of
-- serving/contracts.py. Of the sampling only whether its temperature is 0 is read.
pub mod Session
pub mod Retry
pub mod Loop
pub mod Safety
pub mod Budget
pub mod Launch
pub mod Rounds
pub mod Finish
pub mod Quiet
pub mod Ending
pub mod Shown
pub mod Retried
pub mod Shape
mod Tests
use ex_qserve.Base.{
  ℕ, String, Bool, true, false, not, ◌||◌, ◌&&◌, Option, none, some, List, [], ◌∷◌, ◌++◌, ◌==◌,
  if◌then◌else◌, ltb, nat_eq, is_some,
}
use ex_qserve.Core.{
  FailureCause, output_eos, parser_ambiguity_limit, runtime_recovering, model_tool_output_invalid,
  CanonicalError, GenerationEvent, generation_started, generation_completed, generation_cancelled,
  generation_failed, text_started, text_delta, text_completed, reasoning_started, reasoning_delta,
  reasoning_completed, tool_call_started, tool_call_arguments_delta, tool_call_completed,
  timing_updated, usage_updated,
}

pub data ServingVisibilityMode : Type 0 where
  unseen streaming buffered : ServingVisibilityMode

pub data RecoverySkipReason : Type 0 where
  disabled attempt_budget_exhausted visibility_unknown : RecoverySkipReason
  semantic_already_published deterministic_model_output : RecoverySkipReason
  runtime_replay_unsupported runtime_readiness_unsupported runtime_not_ready : RecoverySkipReason
  attachment_replay_unsupported failure_not_allowlisted : RecoverySkipReason
  injection_replay_unsupported : RecoverySkipReason

-- `AttemptRecoveryDecision`: a skip reason stands with the kind NONE, and with it alone.
pub data AttemptRecoveryDecision : Type 0 where
  skip : RecoverySkipReason → AttemptRecoveryDecision
  regenerate_model_output wait_runtime_and_retry : AttemptRecoveryDecision

-- What does not change during the request, of `AttemptRecoveryEvidence`.
pub record Request : Type 0 where
  pub visibility_mode : ServingVisibilityMode
  pub max_extra_attempts : ℕ
  pub seed : Option ℕ
  pub temperature_is_zero : Bool
  pub fresh_attempt_replay : Bool
  pub recovery_readiness : Bool
  pub has_prompt_attachments : Bool
  pub prompt_attachment_replay : Bool

pub record AttemptRecoveryEvidence : Type 0 where
  pub request : Request
  pub error : CanonicalError
  pub is_published : Bool
  pub attempt_ordinal : ℕ
  pub request_replay_safe : Bool

abbrev pub is_unseen : ServingVisibilityMode → Bool
is_unseen unseen = true
is_unseen _ = false

abbrev pub model_reroll_is_deterministic : Request → Bool
model_reroll_is_deterministic r = is_some r.seed || r.temperature_is_zero

abbrev pub is_recovering : Option FailureCause → Bool
is_recovering (some runtime_recovering) = true
is_recovering _ = false

abbrev pub is_allowlisted : Option FailureCause → String → Bool
is_allowlisted (some output_eos) code =
    (code == "tool_call_incomplete") || (code == "protocol_ambiguity")
is_allowlisted (some parser_ambiguity_limit) code = code == "protocol_ambiguity"
is_allowlisted (some model_tool_output_invalid) code = code == "tool_call_invalid"
is_allowlisted _ code = false

unfoldable pub classify_cause : AttemptRecoveryEvidence → AttemptRecoveryDecision
classify_cause e =
    if is_recovering e.error.cause
    then if not e.request.fresh_attempt_replay
      then skip runtime_replay_unsupported
      else if not e.request.recovery_readiness
      then skip runtime_readiness_unsupported
      else wait_runtime_and_retry
    else if not e.request.fresh_attempt_replay
    then skip runtime_replay_unsupported
    else if model_reroll_is_deterministic e.request
    then skip deterministic_model_output
    else if is_allowlisted e.error.cause e.error.code
    then regenerate_model_output
    else skip failure_not_allowlisted

unfoldable pub classify_attempt_recovery : AttemptRecoveryEvidence → AttemptRecoveryDecision
unfolding classify_cause
classify_attempt_recovery e =
    if nat_eq e.request.max_extra_attempts 0
    then skip disabled
    else if ltb e.request.max_extra_attempts e.attempt_ordinal
    then skip attempt_budget_exhausted
    else if is_unseen e.request.visibility_mode
    then skip visibility_unknown
    else if e.is_published
    then skip semantic_already_published
    else if e.request.has_prompt_attachments && not e.request.prompt_attachment_replay
    then skip attachment_replay_unsupported
    else if not e.request_replay_safe
    then skip injection_replay_unsupported
    else classify_cause e

abbrev pub is_retry : AttemptRecoveryDecision → Bool
is_retry (skip reason) = false
is_retry _ = true

-- _is_public_semantic_event
abbrev pub is_public_semantic_event : GenerationEvent → Bool
is_public_semantic_event (text_started r) = true
is_public_semantic_event (text_delta r t) = true
is_public_semantic_event (text_completed r t) = true
is_public_semantic_event (reasoning_started r) = true
is_public_semantic_event (reasoning_delta r t) = true
is_public_semantic_event (reasoning_completed r t) = true
is_public_semantic_event (tool_call_completed r c) = true
is_public_semantic_event _ = false

-- _is_staged_tool_event
abbrev pub is_staged_tool_event : GenerationEvent → Bool
is_staged_tool_event (tool_call_started r c n i) = true
is_staged_tool_event (tool_call_arguments_delta r c d i) = true
is_staged_tool_event _ = false

-- _is_attempt_diagnostic_event
abbrev pub is_attempt_diagnostic_event : GenerationEvent → Bool
is_attempt_diagnostic_event (timing_updated r t) = true
is_attempt_diagnostic_event (usage_updated r u) = true
is_attempt_diagnostic_event _ = false

abbrev pub is_tool_call_completed : GenerationEvent → Bool
is_tool_call_completed (tool_call_completed r c) = true
is_tool_call_completed _ = false

unfoldable pub drain_staged_for_publication : Bool → List GenerationEvent → List GenerationEvent
drain_staged_for_publication tool_validated [] = []
drain_staged_for_publication tool_validated (e ∷ staged) =
    let rest = drain_staged_for_publication tool_validated staged in
    if is_staged_tool_event e && not tool_validated then rest else e ∷ rest

-- What the streaming loop keeps: `_published`, `_external_started` and the staged events.
pub record Streaming : Type 0 where
  pub published : Bool
  pub external_started : Bool
  pub staged : List GenerationEvent

-- How the loop over one attempt ends. A failure leaves the decision to `classify_attempt_recovery`.
pub data AttemptEnd : Type 0 where
  failed : String → CanonicalError → AttemptEnd
  terminated : AttemptEnd
  exhausted : AttemptEnd

-- One event that ends no attempt: what is yielded, and the new state.
unfoldable pub observe : GenerationEvent → Streaming → Streaming × List GenerationEvent
unfolding drain_staged_for_publication
observe (generation_started r) s =
    if not s.external_started
    then (record s { external_started = true }, generation_started r ∷ [])
    else (s, [])
observe event s =
    if (is_staged_tool_event event || is_attempt_diagnostic_event event) && not s.published
    then (record s { staged = s.staged ++ event ∷ [] }, [])
    else if is_public_semantic_event event
    then (
      record s { staged = []; published = true },
      drain_staged_for_publication (is_tool_call_completed event) s.staged ++ event ∷ [],
    )
    else (s, event ∷ [])

-- `failed` is still to be decided: its staged events are drained or cleared after that.
unfoldable pub stream_attempt :
    List GenerationEvent → Streaming → Streaming × List GenerationEvent × AttemptEnd
unfolding observe
stream_attempt [] s = (s, [], exhausted)
stream_attempt (generation_failed r error ∷ events) s = (s, [], failed r error)
stream_attempt (generation_completed r reason usage stop ∷ events) s = (
  s,
  drain_staged_for_publication false s.staged ++ generation_completed r reason usage stop ∷ [],
  terminated,
)
stream_attempt (generation_cancelled r ∷ events) s =
    (s, drain_staged_for_publication false s.staged ++ generation_cancelled r ∷ [], terminated)
stream_attempt (event ∷ events) s =
    let (t, first) = observe event s in
    let (final, later, end) = stream_attempt events t in (final, first ++ later, end)
