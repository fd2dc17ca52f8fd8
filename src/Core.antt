-- ===== src/Core.antt =====
-- core/errors.py, core/items.py, core/events.py, core/generation_guarantees.py and
-- core/usage.py: the values that cross the layers. Usage and timing are carried, never computed
-- with, so `TokenUsage` and the timing are numbers that name a measurement.
use ex_qserve.Base.{ℕ, String, Bool, Option}

pub data FailureCause : Type 0 where
  output_eos output_length parser_ambiguity_limit runtime_recovering : FailureCause
  restart_required constraint_failure model_tool_output_invalid : FailureCause

pub data ErrorCategory : Type 0 where
  invalid_request unsupported_capability context_length overloaded : ErrorCategory
  model_failure runtime_failure internal : ErrorCategory

pub record CanonicalError : Type 0 where
  pub category : ErrorCategory
  pub code : String
  pub message : String
  pub retryable : Bool
  pub cause : Option FailureCause

pub data GenerationGuarantee : Type 0 where
  none_ format schema unknown : GenerationGuarantee

pub data CompletionReason : Type 0 where
  stop length tool_calls filter : CompletionReason

pub record ToolCallItem : Type 0 where
  pub call_id : String
  pub name : String
  pub arguments_json : String
  pub index : ℕ

pub data GenerationEvent : Type 0 where
  generation_started : String → GenerationEvent
  generation_completed : String → CompletionReason → Option ℕ → Option String → GenerationEvent
  generation_cancelled : String → GenerationEvent
  generation_failed : String → CanonicalError → GenerationEvent
  text_started : String → GenerationEvent
  text_delta : String → String → GenerationEvent
  text_completed : String → String → GenerationEvent
  reasoning_started : String → GenerationEvent
  reasoning_delta : String → String → GenerationEvent
  reasoning_completed : String → String → GenerationEvent
  tool_call_started : String → String → String → ℕ → GenerationEvent
  tool_call_arguments_delta : String → String → String → ℕ → GenerationEvent
  tool_call_completed : String → ToolCallItem → GenerationEvent
  timing_updated : String → ℕ → GenerationEvent
  usage_updated : String → ℕ → GenerationEvent
