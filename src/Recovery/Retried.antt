-- ===== src/Recovery/Retried.antt =====
-- serving/recovery.py: a retry, of itself, shows no start of the generation.
use ex_qserve.Base.{◌∙◌, String, ◌≡◌, refl, Bool, true, false, ◌||◌, Option, none, some, if_elim}
use ex_qserve.Recovery.{
  AttemptRecoveryDecision, skip, regenerate_model_output, wait_runtime_and_retry,
}
use ex_qserve.Recovery.Session.{
  regenerates, waits, Attempt, RecoveringSession, FactoryAnswer, created, factory_raised, rejected,
  release_once, cancel, cancel_if, RuntimeReadinessResult, runtime_ready, runtime_failed,
  deadline_passed, runtime_closed,
}
use ex_qserve.Recovery.Retry.{
  RetryResult, gives, start_retry_or_failure, on_readiness, on_waited, wait_runtime, on_factory,
  launch, launch_after, planned, next_attempt,
}
use ex_qserve.Recovery.Safety.{is_started}

abbrev pub gives_start : RetryResult → Bool
gives_start (gives e) = is_started e
gives_start _ = false

-- A retry shows no start itself.
pub record IsRetried (s : RecoveringSession) (q : RecoveringSession × RetryResult) : Type 0 where
  pub same : q.0.external_started ≡ s.external_started
  pub no_start : gives_start q.1 ≡ false

release_once-external :
    (s : RecoveringSession) → (release_once s).external_started ≡ s.external_started
unfolding release_once
release_once-external s =
    if_elim (λ (t : RecoveringSession). t.external_started ≡ s.external_started) s.released
      (λ e. refl) (λ e. refl)

pub cancel_if-external :
    (b : Bool) (s : RecoveringSession) → (cancel_if b s).external_started ≡ s.external_started
unfolding cancel_if cancel
cancel_if-external true s =
    if_elim (λ (t : RecoveringSession). t.external_started ≡ s.external_started)
      (s.terminal || s.cancelled) (λ e. refl)
      (λ e. release_once-external (record s { cancelled = true }))
cancel_if-external false s = refl

on_factory-IsRetried :
    (f : FactoryAnswer) (a : Attempt) (r : String) (s : RecoveringSession)
    → IsRetried s (on_factory f a r s)
unfolding on_factory
on_factory-IsRetried factory_raised a r s = record { same = refl; no_start = refl }
on_factory-IsRetried (rejected true error) a r s =
    if_elim (IsRetried s) (s.cancelled || a.inactive_after)
      (λ e. record { same = refl; no_start = refl }) (λ e. record { same = refl; no_start = refl })
on_factory-IsRetried (rejected false error) a r s =
    if_elim (IsRetried s) (s.cancelled || a.inactive_after)
      (λ e. record { same = refl; no_start = refl }) (λ e. record { same = refl; no_start = refl })
on_factory-IsRetried created a r s =
    if_elim (IsRetried s) (s.cancelled || a.inactive_after)
      (λ e. record {
        same =
            cancel_if-external a.cancelled_in_stop
              (record (next_attempt s) { recovery_decision = "retried" });
        no_start = if_elim (λ x. gives_start x ≡ false) a.stop_raises (λ f. refl) (λ f. refl);
      })
      (λ e. record { same = refl; no_start = refl })

-- A retry of a session with the same start.
after-IsRetried :
    (s t : RecoveringSession) (q : RecoveringSession × RetryResult)
    → t.external_started ≡ s.external_started
    → IsRetried t q
    → IsRetried s q
after-IsRetried s t q e h = record { same = h.same ∙ e; no_start = h.no_start }

launch-IsRetried : (a : Attempt) (r : String) (s : RecoveringSession) → IsRetried s (launch a r s)
unfolding launch
launch-IsRetried a r s =
    if_elim (IsRetried s) (s.cancelled || a.inactive_before)
      (λ e. record { same = refl; no_start = refl })
      (λ e.
        after-IsRetried s (cancel_if a.cancelled_in_factory s) _
          (cancel_if-external a.cancelled_in_factory s) (on_factory-IsRetried a.factory a r _))

ready-IsRetried :
    (a : Attempt) (r : String) (s : RecoveringSession) (w : RuntimeReadinessResult)
    → IsRetried s (launch_after a r (on_readiness w r s))
unfolding launch_after on_readiness
ready-IsRetried a r s runtime_ready = launch-IsRetried a r s
ready-IsRetried a r s runtime_closed = record { same = refl; no_start = refl }
ready-IsRetried a r s deadline_passed = record { same = refl; no_start = refl }
ready-IsRetried a r s runtime_failed = record { same = refl; no_start = refl }

waited-IsRetried :
    (o : Option RuntimeReadinessResult) (a : Attempt) (r : String) (s : RecoveringSession)
    → IsRetried s (launch_after a r (on_waited o a r s))
unfolding launch_after on_waited
waited-IsRetried none a r s = record { same = refl; no_start = refl }
waited-IsRetried (some w) a r s =
    if_elim (λ (q : RecoveringSession × RetryResult). IsRetried s (launch_after a r q))
      (s.cancelled || a.inactive_in_wait) (λ e. record { same = refl; no_start = refl })
      (λ e. after-IsRetried s (record s { runtime_state = w }) _ refl (ready-IsRetried a r _ w))

pub retry-IsRetried :
    (d : AttemptRecoveryDecision) (r : String) (a : Attempt) (s : RecoveringSession)
    → IsRetried s (start_retry_or_failure d r a s)
unfolding start_retry_or_failure wait_runtime
retry-IsRetried (skip reason) r a s = record { same = refl; no_start = refl }
retry-IsRetried regenerate_model_output r a s =
    after-IsRetried s (planned regenerates s) _ refl (launch-IsRetried a r (planned regenerates s))
retry-IsRetried wait_runtime_and_retry r a s =
    let t = cancel_if a.cancelled_in_wait (planned waits s) in
    after-IsRetried s t _ (cancel_if-external a.cancelled_in_wait (planned waits s))
      (waited-IsRetried a.readiness a r t)
