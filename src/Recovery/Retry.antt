-- ===== src/Recovery/Retry.antt =====
-- serving/recovery.py: `_start_retry_or_failure`, from the decision to the next attempt.
use ex_qserve.Base.{
  ◌+◌, String, ◌||◌, false, Option, none, some, [], ◌∷◌, ◌++◌, if◌then◌else◌, nat_eq,
}
use ex_qserve.Core.{CanonicalError, GenerationEvent, generation_cancelled, generation_failed}
use ex_qserve.Recovery.{
  AttemptRecoveryDecision, skip, regenerate_model_output, wait_runtime_and_retry,
}
use ex_qserve.Recovery.Session.{
  runtime_ready, runtime_failed, deadline_passed, runtime_closed, submission_failure, no_recovery,
  regenerates, waits, AttemptRecoveryKind, RuntimeReadinessResult, FactoryAnswer, created, rejected,
  factory_raised, cancel_if, Attempt, RecoveringSession, not_ready, deadline_error,
  recovery_unavailable_error,
}

-- What `_start_retry_or_failure` does: None, the event that ends the request, or an exception.
pub data RetryResult : Type 0 where
  next_started retry_raises : RetryResult
  gives : GenerationEvent → RetryResult

-- After the runtime's readiness is known; an event ends the request.
unfoldable pub on_readiness :
    RuntimeReadinessResult → String → RecoveringSession → RecoveringSession × RetryResult
on_readiness runtime_ready r s = (s, next_started)
on_readiness runtime_closed r s =
    (record (not_ready s) { recovery_decision = "runtime_closed" }, gives (generation_cancelled r))
on_readiness deadline_passed r s = (
  record (not_ready s) { recovery_decision = "deadline" },
  gives (generation_failed r deadline_error),
)
on_readiness runtime_failed r s = (
  record (not_ready s) { recovery_decision = "runtime_not_ready" },
  gives (generation_failed r recovery_unavailable_error),
)

-- After the waiter's answer.
unfoldable pub on_waited :
    Option RuntimeReadinessResult
    → Attempt
    → String
    → RecoveringSession
    → RecoveringSession × RetryResult
unfolding on_readiness
on_waited none a r s = (s, retry_raises)
on_waited (some w) a r s =
    if s.cancelled || a.inactive_in_wait
    then (not_ready s, gives (generation_cancelled r))
    else on_readiness w r (record s { runtime_state = w })

unfoldable pub wait_runtime : Attempt → String → RecoveringSession → RecoveringSession × RetryResult
unfolding on_waited cancel_if
wait_runtime a r s = on_waited a.readiness a r (cancel_if a.cancelled_in_wait s)

abbrev pub next_attempt : RecoveringSession → RecoveringSession
next_attempt s = record s {
  recovery_attempts = s.recovery_attempts + 1;
  attempt_ordinal = s.attempt_ordinal + 1;
  attempts_started = s.attempts_started + 1;
}

abbrev pub submission_failed : CanonicalError → RecoveringSession → RecoveringSession
submission_failed error s = record (next_attempt s) {
  recovery_decision = "retry_submission_failed";
  attempt_records =
      s.attempt_records
      ++ record {
        ordinal = s.attempt_ordinal + 1;
        status = submission_failure;
        error_code = some error.code;
        failure_cause = error.cause;
        usage = none;
        timing = none;
        discarded = false;
      }
        ∷ [];
}

-- The answer of the factory.
unfoldable pub on_factory :
    FactoryAnswer → Attempt → String → RecoveringSession → RecoveringSession × RetryResult
unfolding cancel_if
on_factory factory_raised a r s = (s, retry_raises)
on_factory (rejected started error) a r s =
    if s.cancelled || a.inactive_after
    then (record s { recovery_decision = "cancelled" }, gives (generation_cancelled r))
    else (
      if started
          then submission_failed error s
          else record s { recovery_decision = "retry_blocked_before_submit" },
      gives (generation_failed r error),
    )
on_factory created a r s =
    let t = record (next_attempt s) { recovery_decision = "retried" } in
    if s.cancelled || a.inactive_after
    then (
      cancel_if a.cancelled_in_stop t,
      if a.stop_raises then retry_raises else gives (generation_cancelled r),
    )
    else (t, next_started)

unfoldable pub launch : Attempt → String → RecoveringSession → RecoveringSession × RetryResult
unfolding on_factory cancel_if
launch a r s =
    if s.cancelled || a.inactive_before
    then (not_ready s, gives (generation_cancelled r))
    else on_factory a.factory a r (cancel_if a.cancelled_in_factory s)

unfoldable pub launch_after :
    Attempt → String → RecoveringSession × RetryResult → RecoveringSession × RetryResult
unfolding launch
launch_after a r (s, gives event) = (s, gives event)
launch_after a r (s, retry_raises) = (s, retry_raises)
launch_after a r (s, next_started) = launch a r s

abbrev pub planned : AttemptRecoveryKind → RecoveringSession → RecoveringSession
planned kind s = record s { last_recovery_kind = kind; recovery_decision = "retry_planned" }

unfoldable pub start_retry_or_failure :
    AttemptRecoveryDecision → String → Attempt → RecoveringSession → RecoveringSession × RetryResult
unfolding launch launch_after wait_runtime
start_retry_or_failure (skip reason) r a s = (
  record s {
    last_recovery_kind = if nat_eq s.recovery_attempts 0 then no_recovery else s.last_recovery_kind;
    recovery_decision = "skipped";
    final_skip_reason = some reason;
  },
  next_started,
)
start_retry_or_failure regenerate_model_output r a s = launch a r (planned regenerates s)
start_retry_or_failure wait_runtime_and_retry r a s =
    launch_after a r (wait_runtime a r (planned waits s))
