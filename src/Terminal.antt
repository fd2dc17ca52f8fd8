-- ===== src/Terminal.antt =====
-- serving/terminal.py: the evidence that a request's parts record, and the one decision that ends
-- the request. `RequestTerminalReason` is of control/request.py, `RuntimeStopReason` of
-- runtime/contracts.py.
pub mod Decision
pub mod Records
pub mod Outcome
pub mod Finality
mod Tests
use ex_qserve.Base.{String, Bool, true, false, Option, none, some, List, [], ◌∷◌, if◌then◌else◌}
use ex_qserve.Core.{
  CanonicalError, runtime_failure, internal, GenerationGuarantee, CompletionReason, stop, length,
  filter,
}

pub data RequestTerminalReason : Type 0 where
  completed runtime_failed runtime_cancelled client_cancelled : RequestTerminalReason
  application_cancelled timeout server_shutdown model_switch : RequestTerminalReason

pub data RuntimeStopReason : Type 0 where
  eos stop_string length_stop filter_stop loop other : RuntimeStopReason

pub data TerminalDisposition : Type 0 where
  success failure cancellation : TerminalDisposition

pub data TerminalPrimaryOwner : Type 0 where
  request_rejection lifecycle_termination runtime_ownership : TerminalPrimaryOwner
  constraint_integrity parser_integrity semantic_contract : TerminalPrimaryOwner
  normal_runtime_terminal unknown_internal : TerminalPrimaryOwner

pub data LifecycleOrigin : Type 0 where
  user deadline shutdown switched : LifecycleOrigin

pub record TerminalConstraintEvidence : Type 0 where
  pub installed : Bool
  pub activated : Bool
  pub effective_guarantee : GenerationGuarantee

pub record TerminalDecision : Type 0 where
  pub disposition : TerminalDisposition
  pub primary_owner : TerminalPrimaryOwner
  pub canonical_error : Option CanonicalError
  pub completion_reason : Option CompletionReason
  pub underlying_runtime_stop_reason : Option RuntimeStopReason
  pub runtime_failure : Option CanonicalError
  pub semantic_failure : Option CanonicalError
  pub parser_issue : Option String
  pub constraint_evidence : Option TerminalConstraintEvidence
  pub lifecycle_origin : Option LifecycleOrigin

pub record TerminalEvidence : Type 0 where
  pub causal_owner : Option TerminalPrimaryOwner
  pub lifecycle_origin : Option LifecycleOrigin
  pub runtime_failure : Option CanonicalError
  pub runtime_cancelled : Bool
  pub runtime_stop_reason : Option RuntimeStopReason
  pub constraint_evidence : Option TerminalConstraintEvidence
  pub constraint_failure : Option CanonicalError
  pub parser_integrity_failure : Option CanonicalError
  pub semantic_failure : Option CanonicalError
  pub parser_issue : Option String
  pub unknown_failure : Option CanonicalError
  pub decision : Option TerminalDecision

abbrev pub new_evidence : TerminalEvidence
new_evidence = record {
  causal_owner = none;
  lifecycle_origin = none;
  runtime_failure = none;
  runtime_cancelled = false;
  runtime_stop_reason = none;
  constraint_evidence = none;
  constraint_failure = none;
  parser_integrity_failure = none;
  semantic_failure = none;
  parser_issue = none;
  unknown_failure = none;
  decision = none;
}

-- if x is None: x = a
abbrev pub keep_first {ℓ} : {A : Type ℓ} → Option A → A → Option A
keep_first none a = some a
keep_first (some b) a = some b

-- _LIFECYCLE_ORIGINS, with the model switch.
abbrev pub origin_of : RequestTerminalReason → Option LifecycleOrigin
origin_of client_cancelled = some user
origin_of timeout = some deadline
origin_of server_shutdown = some shutdown
origin_of model_switch = some switched
origin_of _ = none

abbrev pub claim_causal_owner : TerminalPrimaryOwner → TerminalEvidence → TerminalEvidence
claim_causal_owner owner e = record e { causal_owner = keep_first e.causal_owner owner }

unfoldable pub record_origin : Option LifecycleOrigin → TerminalEvidence → TerminalEvidence
record_origin none e = e
record_origin (some origin) e =
    claim_causal_owner lifecycle_termination
      (record e { lifecycle_origin = keep_first e.lifecycle_origin origin })

unfoldable pub record_controlled_reason :
    Option RequestTerminalReason → TerminalEvidence → TerminalEvidence
unfolding record_origin
record_controlled_reason none e = e
record_controlled_reason (some reason) e = record_origin (origin_of reason) e

-- One call of a recording method.
pub data Recorded : Type 0 where
  controlled_reason : Option RequestTerminalReason → Recorded
  finished : RuntimeStopReason → TerminalConstraintEvidence → Recorded
  failed_runtime : CanonicalError → Recorded
  cancelled_runtime : Recorded
  parser_issue : String → Recorded
  failed_parser : CanonicalError → Recorded
  failed_constraint : CanonicalError → Recorded
  failed_semantic : CanonicalError → Recorded
  failed_unknown : CanonicalError → Recorded

unfoldable pub record_one : Recorded → TerminalEvidence → TerminalEvidence
unfolding record_controlled_reason
record_one (controlled_reason reason) e = record_controlled_reason reason e
record_one (finished reason constraint) e = record e {
  runtime_stop_reason = some reason;
  constraint_evidence = some constraint;
}
record_one (failed_runtime error) e =
    claim_causal_owner runtime_ownership
      (record e { runtime_failure = keep_first e.runtime_failure error })
record_one cancelled_runtime e =
    claim_causal_owner runtime_ownership (record e { runtime_cancelled = true })
record_one (parser_issue issue) e = record e { parser_issue = keep_first e.parser_issue issue }
record_one (failed_parser error) e = record e {
  parser_integrity_failure = keep_first e.parser_integrity_failure error;
}
record_one (failed_constraint error) e = record e {
  constraint_failure = keep_first e.constraint_failure error;
}
record_one (failed_semantic error) e = record e {
  semantic_failure = keep_first e.semantic_failure error;
}
record_one (failed_unknown error) e = record e {
  unknown_failure = keep_first e.unknown_failure error;
}

unfoldable pub record_all : List Recorded → TerminalEvidence → TerminalEvidence
unfolding record_one
record_all [] e = e
record_all (r ∷ rs) e = record_all rs (record_one r e)

-- `commit_decision`, of the dataclass's equality; `none` is its RuntimeError.
abbrev pub agree : Bool → TerminalDecision → Option TerminalDecision
agree true old = some old
agree false old = none

unfoldable pub commit_over :
    (TerminalDecision → TerminalDecision → Bool)
    → TerminalDecision
    → TerminalEvidence
    → Option TerminalDecision
    → TerminalEvidence × Option TerminalDecision
commit_over equal d e none = (record e { decision = some d }, some d)
commit_over equal d e (some old) = (e, agree (equal old d) old)

unfoldable pub commit_decision :
    (TerminalDecision → TerminalDecision → Bool)
    → TerminalDecision
    → TerminalEvidence
    → TerminalEvidence × Option TerminalDecision
unfolding commit_over
commit_decision equal d e = commit_over equal d e e.decision

abbrev pub timeout_error : CanonicalError
timeout_error = record {
  category = runtime_failure;
  code = "request_timeout";
  message = "Inference request exceeded its serving deadline.";
  retryable = true;
  cause = none;
}
