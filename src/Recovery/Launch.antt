-- ===== src/Recovery/Launch.antt =====
-- The budget of extra attempts: what a retry starts.
use ex_qserve.Base.{
  ℕ, ◌≤◌, String, ◌≡◌, ◌≢◌, refl, true, false, ◌||◌, Option, none, some, if◌then◌else◌, if_elim,
  arith,
}
use ex_qserve.Core.{generation_cancelled, generation_failed}
use ex_qserve.Recovery.{
  AttemptRecoveryDecision, skip, regenerate_model_output, wait_runtime_and_retry, is_retry,
}
use ex_qserve.Recovery.Session.{
  Attempt, RecoveringSession, FactoryAnswer, created, factory_raised, rejected,
  RuntimeReadinessResult, runtime_ready, runtime_failed, deadline_passed, runtime_closed, not_ready,
  cancel_if, waits,
}
use ex_qserve.Recovery.Retry.{
  RetryResult, next_started, gives, retry_raises, start_retry_or_failure, on_readiness, on_waited,
  wait_runtime, on_factory, launch, launch_after, next_attempt, submission_failed, planned,
}
use ex_qserve.Recovery.Budget.{
  IsFurther, still, IsFurther-trans, cancel_if-IsFurther, discards-append,
}

-- A retry that was tried: it started at most one attempt, and exactly one if it goes on.
pub record IsLaunch (s : RecoveringSession) (q : RecoveringSession × RetryResult) : Type 0 where
  pub n : ℕ
  pub further : IsFurther n 0 s q.0
  pub at_most_one : n ≤ 1
  pub started_one : q.1 ≡ next_started → n ≡ 1

-- A session before the launch that differs in other fields.
before-IsLaunch :
    (s t : RecoveringSession) (q : RecoveringSession × RetryResult)
    → IsFurther 0 0 s t
    → IsLaunch t q
    → IsLaunch s q
before-IsLaunch s t q h k = record {
  n = k.n;
  further = IsFurther-trans 0 k.n 0 0 k.n 0 s t q.0 (omega arith) (omega arith) h k.further;
  at_most_one = k.at_most_one;
  started_one = k.started_one;
}

-- No attempt is started, and the request ends.
stopped-IsLaunch :
    (s : RecoveringSession) (q : RecoveringSession × RetryResult)
    → IsFurther 0 0 s q.0
    → q.1 ≢ next_started
    → IsLaunch s q
stopped-IsLaunch s q h k = record {
  n = 0;
  further = h;
  at_most_one = omega arith;
  started_one = λ h. absurd (k h);
}

-- An attempt is started.
started-IsLaunch :
    (s : RecoveringSession) (q : RecoveringSession × RetryResult)
    → IsFurther 1 0 s q.0
    → IsLaunch s q
started-IsLaunch s q h = record {
  n = 1;
  further = h;
  at_most_one = omega arith;
  started_one = λ k. refl;
}

next_attempt-IsFurther :
    (s : RecoveringSession) (d : String)
    → IsFurther 1 0 s (record (next_attempt s) { recovery_decision = d })
next_attempt-IsFurther s d = record {
  ordinal = refl;
  started = refl;
  recoveries = refl;
  discarded = omega arith;
  once_kept = λ h. h;
}

on_factory-IsLaunch :
    (f : FactoryAnswer) (a : Attempt) (r : String) (s : RecoveringSession)
    → IsLaunch s (on_factory f a r s)
unfolding on_factory
on_factory-IsLaunch factory_raised a r s =
    stopped-IsLaunch s _ (still s _ refl refl refl refl refl refl) (λ h. cc)
on_factory-IsLaunch (rejected true error) a r s =
    if_elim (IsLaunch s) (s.cancelled || a.inactive_after)
      (λ e. stopped-IsLaunch s _ (still s _ refl refl refl refl refl refl) (λ h. cc))
      (λ e.
        started-IsLaunch s (submission_failed error s, gives (generation_failed r error))
          (record {
            ordinal = refl;
            started = refl;
            recoveries = refl;
            discarded = omega (arith, discards-append s.attempt_records);
            once_kept = λ h. h;
          }))
on_factory-IsLaunch (rejected false error) a r s =
    if_elim (IsLaunch s) (s.cancelled || a.inactive_after)
      (λ e. stopped-IsLaunch s _ (still s _ refl refl refl refl refl refl) (λ h. cc))
      (λ e. stopped-IsLaunch s _ (still s _ refl refl refl refl refl refl) (λ h. cc))
on_factory-IsLaunch created a r s =
    let t = record (next_attempt s) { recovery_decision = "retried" } in
    if_elim (IsLaunch s) (s.cancelled || a.inactive_after)
      (λ e.
        started-IsLaunch s
          (
            cancel_if a.cancelled_in_stop t,
            if a.stop_raises then retry_raises else gives (generation_cancelled r),
          )
          (IsFurther-trans 1 0 0 0 1 0 s t (cancel_if a.cancelled_in_stop t) (omega arith)
            (omega arith) (next_attempt-IsFurther s "retried")
            (cancel_if-IsFurther a.cancelled_in_stop t)))
      (λ e. started-IsLaunch s (t, next_started) (next_attempt-IsFurther s "retried"))

launch-IsLaunch : (a : Attempt) (r : String) (s : RecoveringSession) → IsLaunch s (launch a r s)
unfolding launch
launch-IsLaunch a r s =
    if_elim (IsLaunch s) (s.cancelled || a.inactive_before)
      (λ e. stopped-IsLaunch s _ (still s _ refl refl refl refl refl refl) (λ h. cc))
      (λ e.
        let t = cancel_if a.cancelled_in_factory s in
        before-IsLaunch s t _ (cancel_if-IsFurther a.cancelled_in_factory s)
          (on_factory-IsLaunch a.factory a r t))

-- The wait ends the request or leaves the session to the launch.
ready-IsLaunch :
    (a : Attempt) (r : String) (s : RecoveringSession) (w : RuntimeReadinessResult)
    → IsLaunch s (launch_after a r (on_readiness w r s))
unfolding launch_after on_readiness
ready-IsLaunch a r s runtime_ready = launch-IsLaunch a r s
ready-IsLaunch a r s runtime_closed =
    stopped-IsLaunch s _ (still s _ refl refl refl refl refl refl) (λ h. cc)
ready-IsLaunch a r s deadline_passed =
    stopped-IsLaunch s _ (still s _ refl refl refl refl refl refl) (λ h. cc)
ready-IsLaunch a r s runtime_failed =
    stopped-IsLaunch s _ (still s _ refl refl refl refl refl refl) (λ h. cc)

waited-IsLaunch :
    (o : Option RuntimeReadinessResult) (a : Attempt) (r : String) (s : RecoveringSession)
    → IsLaunch s (launch_after a r (on_waited o a r s))
unfolding on_waited launch_after
waited-IsLaunch none a r s =
    stopped-IsLaunch s _ (still s _ refl refl refl refl refl refl) (λ h. cc)
waited-IsLaunch (some w) a r s =
    if_elim (λ (q : RecoveringSession × RetryResult). IsLaunch s (launch_after a r q))
      (s.cancelled || a.inactive_in_wait)
      (λ e.
        stopped-IsLaunch s (not_ready s, gives (generation_cancelled r))
          (still s _ refl refl refl refl refl refl) (λ h. cc))
      (λ e.
        before-IsLaunch s (record s { runtime_state = w }) _
          (still s _ refl refl refl refl refl refl) (ready-IsLaunch a r _ w))

pub retry-IsLaunch :
    (d : AttemptRecoveryDecision) (r : String) (a : Attempt) (s : RecoveringSession)
    → is_retry d ≡ true
    → IsLaunch s (start_retry_or_failure d r a s)
unfolding start_retry_or_failure wait_runtime
retry-IsLaunch (skip reason) r a s h = absurd cc
retry-IsLaunch regenerate_model_output r a s h =
    before-IsLaunch s _ _ (still s _ refl refl refl refl refl refl) (launch-IsLaunch a r _)
retry-IsLaunch wait_runtime_and_retry r a s h =
    let t = planned waits s in
    let u = cancel_if a.cancelled_in_wait t in
    before-IsLaunch s t _ (still s t refl refl refl refl refl refl) (
      before-IsLaunch t u _ (cancel_if-IsFurther a.cancelled_in_wait t)
        (waited-IsLaunch a.readiness a r u))
