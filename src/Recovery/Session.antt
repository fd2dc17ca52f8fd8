-- ===== src/Recovery/Session.antt =====
-- serving/recovery.py: `RecoveringServingSession` over all of a request's attempts. What the others do
-- meanwhile is in `Attempt`: where the loop waits, `cancel` may run, in one step, and what it waits for
-- may raise. The runtime trace and the close of the iterator by its reader are left out.
use ex_qserve.Base.{
  ℕ, ◌+◌, String, Bool, true, false, ◌||◌, Option, none, some, List, [], ◌∷◌, ◌++◌, if◌then◌else◌,
  ltb, is_some,
}
use ex_qserve.Core.{
  FailureCause, restart_required, CanonicalError, runtime_failure, GenerationEvent,
  generation_completed, generation_cancelled, generation_failed, timing_updated, usage_updated,
}
use ex_qserve.Recovery.{RecoverySkipReason, runtime_not_ready, Request, AttemptRecoveryEvidence}

pub data AttemptRecoveryKind : Type 0 where
  no_recovery regenerates waits : AttemptRecoveryKind

pub data RecoveryAttemptStatus : Type 0 where
  submission_failure completion failure cancellation : RecoveryAttemptStatus

pub record RecoveryAttemptRecord : Type 0 where
  pub ordinal : ℕ
  pub status : RecoveryAttemptStatus
  pub error_code : Option String
  pub failure_cause : Option FailureCause
  pub usage : Option ℕ
  pub timing : Option ℕ
  pub discarded : Bool

pub data RuntimeReadinessResult : Type 0 where
  runtime_ready runtime_failed deadline_passed runtime_closed : RuntimeReadinessResult

-- What `attempt_factory` does: an attempt, ServingRejected with its `attempt_started`, or another
-- exception.
pub data FactoryAnswer : Type 0 where
  created factory_raised : FactoryAnswer
  rejected : Bool → CanonicalError → FactoryAnswer

-- An attempt's events, whether its iterator raises after them, its measurements, and whether the lease
-- is replay safe at its failure; what a retry after it meets: the answer of the runtime's waiter, where
-- `none` is an exception, the answer of the factory, whether the lease is inactive where the code asks,
-- and whether a new attempt that is cancelled at once raises; and where `cancel` is called: while
-- the attempt's events come, in the wait, in the factory, in the cancellation of the new attempt, and
-- while the last event is shown.
pub record Attempt : Type 0 where
  pub events : List GenerationEvent
  pub raises : Bool
  pub attempt_usage : Option ℕ
  pub attempt_timing : Option ℕ
  pub replay_safe : Bool
  pub readiness : Option RuntimeReadinessResult
  pub factory : FactoryAnswer
  pub inactive_in_wait : Bool
  pub inactive_before : Bool
  pub inactive_after : Bool
  pub stop_raises : Bool
  pub cancelled_streaming : Bool
  pub cancelled_in_wait : Bool
  pub cancelled_in_factory : Bool
  pub cancelled_in_stop : Bool
  pub cancelled_at_end : Bool

-- `lease_releases` counts the calls of the lease's `release`.
pub record RecoveringSession : Type 0 where
  pub attempt_ordinal : ℕ
  pub attempts_started : ℕ
  pub recovery_attempts : ℕ
  pub attempt_records : List RecoveryAttemptRecord
  pub recovered : Bool
  pub final_skip_reason : Option RecoverySkipReason
  pub last_recovery_kind : AttemptRecoveryKind
  pub recovery_decision : String
  pub runtime_state : RuntimeReadinessResult
  pub released : Bool
  pub lease_releases : ℕ
  pub terminal : Bool
  pub cancelled : Bool
  pub published : Bool
  pub external_started : Bool

-- The session of a request with so many attempts behind it.
abbrev pub new_session : ℕ → ℕ → ℕ → List RecoveryAttemptRecord → RecoveringSession
new_session ordinal started recoveries records = record {
  attempt_ordinal = ordinal;
  attempts_started = started;
  recovery_attempts = recoveries;
  attempt_records = records;
  recovered = false;
  final_skip_reason = none;
  last_recovery_kind = if ltb 0 recoveries then waits else no_recovery;
  recovery_decision = if ltb 0 recoveries then "retried" else "not_evaluated";
  runtime_state = runtime_ready;
  released = false;
  lease_releases = 0;
  terminal = false;
  cancelled = false;
  published = false;
  external_started = false;
}

unfoldable pub release_once : RecoveringSession → RecoveringSession
release_once s =
    if s.released then s else record s { released = true; lease_releases = s.lease_releases + 1 }

-- `cancel`, which also cancels the attempt that runs.
unfoldable pub cancel : RecoveringSession → RecoveringSession
unfolding release_once
cancel s = if s.terminal || s.cancelled then s else release_once (record s { cancelled = true })

-- The session after a wait in which `cancel` is called or not.
unfoldable pub cancel_if : Bool → RecoveringSession → RecoveringSession
unfolding cancel
cancel_if b s = if b then cancel s else s

-- _observe_attempt_measurements
unfoldable pub observe_measurements : GenerationEvent → Option ℕ × Option ℕ → Option ℕ × Option ℕ
observe_measurements (usage_updated r u) (usage, timing) = (some u, timing)
observe_measurements (timing_updated r t) (usage, timing) = (usage, some t)
observe_measurements (generation_completed r reason (some u) stop) (usage, timing) =
    (some u, timing)
observe_measurements _ m = m

abbrev pub is_terminal : GenerationEvent → Bool
is_terminal (generation_completed r reason usage stop) = true
is_terminal (generation_cancelled r) = true
is_terminal (generation_failed r error) = true
is_terminal _ = false

abbrev pub is_completed : GenerationEvent → Bool
is_completed (generation_completed r reason usage stop) = true
is_completed _ = false

unfoldable pub measure_events : List GenerationEvent → Option ℕ × Option ℕ → Option ℕ × Option ℕ
unfolding observe_measurements
measure_events [] m = m
measure_events (e ∷ es) m = measure_events es (observe_measurements e m)

-- The events that the streaming loop reads: those up to the first one that is terminal.
unfoldable pub read_events : List GenerationEvent → List GenerationEvent
read_events [] = []
read_events (e ∷ es) = let rest = read_events es in if is_terminal e then e ∷ [] else e ∷ rest

abbrev pub last_event : List GenerationEvent → Option GenerationEvent
last_event [] = none
last_event (e ∷ []) = some e
last_event (e ∷ f ∷ es) = last_event (f ∷ es)

unfoldable pub attempt_record :
    ℕ → GenerationEvent → Option ℕ × Option ℕ → Bool → Option RecoveryAttemptRecord
attempt_record ordinal (generation_completed r reason u stop) (usage, timing) discarded =
    some (record {
      ordinal = ordinal;
      status = completion;
      error_code = none;
      failure_cause = none;
      usage = if is_some u then u else usage;
      timing = timing;
      discarded = discarded;
    })
attempt_record ordinal (generation_failed r error) (usage, timing) discarded = some (record {
  ordinal = ordinal;
  status = failure;
  error_code = some error.code;
  failure_cause = error.cause;
  usage = usage;
  timing = timing;
  discarded = discarded;
})
attempt_record ordinal (generation_cancelled r) (usage, timing) discarded = some (record {
  ordinal = ordinal;
  status = cancellation;
  error_code = none;
  failure_cause = none;
  usage = usage;
  timing = timing;
  discarded = discarded;
})
attempt_record ordinal _ m discarded = none

unfoldable pub append_record : Option RecoveryAttemptRecord → RecoveringSession → RecoveringSession
append_record none s = s
append_record (some q) s = record s { attempt_records = s.attempt_records ++ q ∷ [] }

abbrev pub with_own : Attempt → Option ℕ × Option ℕ → Option ℕ × Option ℕ
with_own a (usage, timing) = (
  if is_some usage then usage else a.attempt_usage,
  if is_some timing then timing else a.attempt_timing,
)

unfoldable pub record_terminal_attempt :
    Attempt → GenerationEvent → Option ℕ × Option ℕ → Bool → RecoveringSession → RecoveringSession
unfolding attempt_record append_record
record_terminal_attempt a event m discarded s =
    append_record (attempt_record s.attempt_ordinal event (with_own a m) discarded) s

-- _evidence
abbrev pub evidence :
    Request → Attempt → CanonicalError → RecoveringSession → AttemptRecoveryEvidence
evidence request a error s = record {
  request = request;
  error = error;
  is_published = s.published;
  attempt_ordinal = s.attempt_ordinal;
  request_replay_safe = a.replay_safe;
}

abbrev pub not_ready : RecoveringSession → RecoveringSession
not_ready s = record s { final_skip_reason = some runtime_not_ready }

abbrev pub deadline_error : CanonicalError
deadline_error = record {
  category = runtime_failure;
  code = "request_timeout";
  message = "Inference request exceeded its serving deadline.";
  retryable = true;
  cause = none;
}

abbrev pub recovery_unavailable_error : CanonicalError
recovery_unavailable_error = record {
  category = runtime_failure;
  code = "runtime_recovery_unavailable";
  message = "Inference runtime did not become ready before request recovery ended.";
  retryable = false;
  cause = some restart_required;
}
