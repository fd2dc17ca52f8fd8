-- ===== src/Terminal/Decision.antt =====
-- serving/terminal.py: `TerminalEvidence.resolve`, which turns the evidence into a decision.
use ex_qserve.Base.{Bool, true, false, Option, none, some}
use ex_qserve.Core.{
  CanonicalError, runtime_failure, internal, CompletionReason, stop, length, filter,
}
use ex_qserve.Terminal.{
  TerminalDisposition, success, failure, cancellation, TerminalPrimaryOwner, request_rejection,
  lifecycle_termination, runtime_ownership, constraint_integrity, parser_integrity,
  semantic_contract, normal_runtime_terminal, unknown_internal, LifecycleOrigin, deadline,
  RuntimeStopReason, length_stop, filter_stop, loop, other, TerminalDecision, TerminalEvidence,
  timeout_error,
}

abbrev pub runtime_loop_error : CanonicalError
runtime_loop_error = record {
  category = runtime_failure;
  code = "runtime_loop_detected";
  message = "Inference runtime terminated after detecting a generation loop.";
  retryable = false;
  cause = none;
}

abbrev pub unknown_runtime_terminal_error : CanonicalError
unknown_runtime_terminal_error = record {
  category = internal;
  code = "runtime_terminal_unknown";
  message = "Inference runtime ended with an unsupported terminal reason.";
  retryable = false;
  cause = none;
}

abbrev pub unresolved_terminal_error : CanonicalError
unresolved_terminal_error = record {
  category = internal;
  code = "terminal_state_unresolved";
  message = "Inference ended without an authoritative terminal disposition.";
  retryable = false;
  cause = none;
}

unfoldable pub request_rejection_decision : CanonicalError → TerminalDecision
request_rejection_decision error = record {
  disposition = failure;
  primary_owner = request_rejection;
  canonical_error = some error;
  completion_reason = none;
  underlying_runtime_stop_reason = none;
  runtime_failure = none;
  semantic_failure = none;
  parser_issue = none;
  constraint_evidence = none;
  lifecycle_origin = none;
}

abbrev pub transformed : Option (CanonicalError → CanonicalError) → CanonicalError → CanonicalError
transformed none error = error
transformed (some f) error = f error

-- What every decision but the runtime's cancellation takes from the evidence.
abbrev pub decision_of :
    TerminalDisposition
    → TerminalPrimaryOwner
    → Option CanonicalError
    → Option CompletionReason
    → TerminalEvidence
    → TerminalDecision
decision_of disposition owner error reason e = record {
  disposition = disposition;
  primary_owner = owner;
  canonical_error = error;
  completion_reason = reason;
  underlying_runtime_stop_reason = e.runtime_stop_reason;
  runtime_failure = e.runtime_failure;
  semantic_failure = e.semantic_failure;
  parser_issue = e.parser_issue;
  constraint_evidence = e.constraint_evidence;
  lifecycle_origin = e.lifecycle_origin;
}

abbrev pub decision_for_failure :
    TerminalPrimaryOwner → CanonicalError → TerminalEvidence → TerminalDecision
decision_for_failure owner error e = decision_of failure owner (some error) none e

unfoldable pub resolve_lifecycle :
    Option (CanonicalError → CanonicalError)
    → TerminalEvidence
    → Option LifecycleOrigin
    → TerminalDecision
resolve_lifecycle transform e (some deadline) =
    decision_for_failure lifecycle_termination (transformed transform timeout_error) e
resolve_lifecycle transform e _ = decision_of cancellation lifecycle_termination none none e

-- The arguments are the runtime's failure and whether it was cancelled.
unfoldable pub resolve_runtime : TerminalEvidence → Option CanonicalError → Bool → TerminalDecision
resolve_runtime e (some error) cancelled = decision_for_failure runtime_ownership error e
resolve_runtime e none true = record (decision_of cancellation runtime_ownership none none e) {
  runtime_failure = none;
  lifecycle_origin = none;
}
resolve_runtime e none false = decision_for_failure unknown_internal unresolved_terminal_error e

abbrev pub completion_of : Option CompletionReason → RuntimeStopReason → CompletionReason
completion_of (some reason) _ = reason
completion_of none length_stop = length
completion_of none filter_stop = filter
completion_of none _ = stop

unfoldable pub resolve_normal :
    Option CompletionReason → TerminalEvidence → Option RuntimeStopReason → TerminalDecision
resolve_normal reason e none = decision_for_failure unknown_internal unresolved_terminal_error e
resolve_normal reason e (some stopped) =
    decision_of success normal_runtime_terminal none (some (completion_of reason stopped)) e

-- The failures of the constraint, of the parser, of the semantic contract and of unknown origin.
unfoldable pub resolve_failures :
    Option CompletionReason
    → TerminalEvidence
    → Option CanonicalError
    → Option CanonicalError
    → Option CanonicalError
    → Option CanonicalError
    → TerminalDecision
unfolding resolve_normal
resolve_failures reason e (some error) _ _ _ = decision_for_failure constraint_integrity error e
resolve_failures reason e none (some error) _ _ = decision_for_failure parser_integrity error e
resolve_failures reason e none none (some error) _ = decision_for_failure semantic_contract error e
resolve_failures reason e none none none (some error) =
    decision_for_failure unknown_internal error e
resolve_failures reason e none none none none = resolve_normal reason e e.runtime_stop_reason

unfoldable pub resolve_stop :
    Option CompletionReason → TerminalEvidence → Option RuntimeStopReason → TerminalDecision
unfolding resolve_failures
resolve_stop reason e (some loop) = decision_for_failure runtime_ownership runtime_loop_error e
resolve_stop reason e (some other) =
    decision_for_failure unknown_internal unknown_runtime_terminal_error e
resolve_stop reason e _ =
    resolve_failures reason e e.constraint_failure e.parser_integrity_failure e.semantic_failure
      e.unknown_failure

unfoldable pub resolve_owner :
    Option CompletionReason
    → Option (CanonicalError → CanonicalError)
    → TerminalEvidence
    → Option TerminalPrimaryOwner
    → TerminalDecision
unfolding resolve_lifecycle resolve_runtime resolve_stop
resolve_owner reason transform e (some lifecycle_termination) =
    resolve_lifecycle transform e e.lifecycle_origin
resolve_owner reason transform e (some runtime_ownership) =
    resolve_runtime e e.runtime_failure e.runtime_cancelled
resolve_owner reason transform e _ = resolve_stop reason e e.runtime_stop_reason

unfoldable pub resolve_over :
    Option CompletionReason
    → Option (CanonicalError → CanonicalError)
    → TerminalEvidence
    → Option TerminalDecision
    → TerminalDecision
unfolding resolve_owner
resolve_over reason transform e (some d) = d
resolve_over reason transform e none = resolve_owner reason transform e e.causal_owner

unfoldable pub resolve :
    Option CompletionReason
    → Option (CanonicalError → CanonicalError)
    → TerminalEvidence
    → TerminalDecision
unfolding resolve_over
resolve reason transform e = resolve_over reason transform e e.decision
