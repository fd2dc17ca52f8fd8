-- ===== src/Recovery/Quiet.antt =====
-- serving/recovery.py: where the loop over the attempts ends with an exception.
use ex_qserve.Base.{
  ℕ, String, Bool, true, false, not, ◌||◌, ◌≡◌, refl, Option, none, some, List, [], ◌∷◌, if_elim,
  is_some, arith, Bool-cases, inl, inr,
}
use ex_qserve.Core.{
  CanonicalError, GenerationEvent, generation_completed, generation_cancelled, generation_failed,
}
use ex_qserve.Recovery.{
  AttemptRecoveryDecision, skip, regenerate_model_output, wait_runtime_and_retry, Request, is_retry,
  Streaming, AttemptEnd, failed, terminated, exhausted, stream_attempt,
  drain_staged_for_publication,
}
use ex_qserve.Recovery.Session.{
  Attempt, RecoveringSession, FactoryAnswer, created, factory_raised, rejected, waits, regenerates,
  RuntimeReadinessResult, runtime_ready, runtime_failed, deadline_passed, runtime_closed, cancel_if,
  last_event, record_terminal_attempt, measure_events, read_events,
}
use ex_qserve.Recovery.Retry.{
  RetryResult, next_started, gives, retry_raises, start_retry_or_failure, on_readiness, on_waited,
  wait_runtime, on_factory, launch, launch_after, planned,
}
use ex_qserve.Recovery.Loop.{
  Round, RoundEnd, goes_again, request_over, exception, is_again, is_exception, after_failure,
  decide, fail_attempt, streamed, end_streaming, end_buffered, streaming_round, buffered_round,
  unavailable_round, recovery_unavailable, is_buffered, attempt_round, end_round, run_round,
  run_rounds,
}

abbrev is_factory_raised : FactoryAnswer → Bool
is_factory_raised factory_raised = true
is_factory_raised _ = false

-- The attempt's iterator raises, or something that the loop waits for after it.
abbrev pub may_raise : Attempt → Bool
may_raise a =
    a.raises || (a.stop_raises || (not (is_some a.readiness) || is_factory_raised a.factory))

abbrev pub any_raises : List Attempt → Bool
any_raises [] = false
any_raises (a ∷ rest) = may_raise a || any_raises rest

abbrev is_raise : RetryResult → Bool
is_raise retry_raises = true
is_raise _ = false

-- The retry does not raise.
abbrev Calm : RecoveringSession × RetryResult → Type 0
Calm q = is_raise q.1 ≡ false

on_factory-Calm :
    (f : FactoryAnswer) (a : Attempt) (r : String) (s : RecoveringSession)
    → is_factory_raised f ≡ false
    → a.stop_raises ≡ false
    → Calm (on_factory f a r s)
unfolding on_factory
on_factory-Calm factory_raised a r s h k = absurd cc
on_factory-Calm (rejected b error) a r s h k =
    if_elim Calm (s.cancelled || a.inactive_after) (λ e. refl) (λ e. refl)
on_factory-Calm created a r s h k =
    if_elim Calm (s.cancelled || a.inactive_after) (λ e. rw k refl) (λ e. refl)

launch-Calm :
    (a : Attempt) (r : String) (s : RecoveringSession) → may_raise a ≡ false → Calm (launch a r s)
unfolding launch
launch-Calm a r s h =
    if_elim Calm (s.cancelled || a.inactive_before) (λ e. refl)
      (λ e. on_factory-Calm a.factory a r _ (ground arith) (ground arith))

ready-Calm :
    (w : RuntimeReadinessResult) (a : Attempt) (r : String) (s : RecoveringSession)
    → may_raise a ≡ false
    → Calm (launch_after a r (on_readiness w r s))
unfolding launch_after on_readiness
ready-Calm runtime_ready a r s h = launch-Calm a r s h
ready-Calm runtime_closed a r s h = refl
ready-Calm deadline_passed a r s h = refl
ready-Calm runtime_failed a r s h = refl

waited-Calm :
    (o : Option RuntimeReadinessResult) (a : Attempt) (r : String) (s : RecoveringSession)
    → is_some o ≡ true
    → may_raise a ≡ false
    → Calm (launch_after a r (on_waited o a r s))
unfolding launch_after on_waited
waited-Calm none a r s k h = absurd cc
waited-Calm (some w) a r s k h =
    if_elim (λ (q : RecoveringSession × RetryResult). Calm (launch_after a r q))
      (s.cancelled || a.inactive_in_wait) (λ e. refl) (λ e. ready-Calm w a r _ h)

retry-Calm :
    (d : AttemptRecoveryDecision) (r : String) (a : Attempt) (s : RecoveringSession)
    → may_raise a ≡ false
    → Calm (start_retry_or_failure d r a s)
unfolding start_retry_or_failure wait_runtime
retry-Calm (skip reason) r a s h = refl
retry-Calm regenerate_model_output r a s h = launch-Calm a r (planned regenerates s) h
retry-Calm wait_runtime_and_retry r a s h =
    waited-Calm a.readiness a r (cancel_if a.cancelled_in_wait (planned waits s)) (ground arith) h

-- The round does not end with an exception.
abbrev IsQuiet : Round → Type 0
IsQuiet r = is_exception r.outcome ≡ false

after_failure-IsQuiet :
    (d : AttemptRecoveryDecision) (e : GenerationEvent) (shown staged : List GenerationEvent)
    (q : RecoveringSession × RetryResult)
    → Calm q
    → IsQuiet (after_failure d e shown staged q)
unfolding after_failure
after_failure-IsQuiet d e shown staged (s, retry_raises) h = absurd cc
after_failure-IsQuiet d e shown staged (s, gives f) h = refl
after_failure-IsQuiet d e shown staged (s, next_started) h =
    if_elim IsQuiet (is_retry d) (λ x. refl) (λ x. refl)

module _ (request : Request) where
  fail_attempt-IsQuiet :
      (a : Attempt) (r : String) (error : CanonicalError) (m : Option ℕ × Option ℕ)
      (shown staged : List GenerationEvent) (s : RecoveringSession)
      → may_raise a ≡ false
      → IsQuiet (fail_attempt request a r error m shown staged s)
  unfolding fail_attempt
  fail_attempt-IsQuiet a r error m shown staged s h =
      let d = decide request a error s in
      after_failure-IsQuiet d _ shown staged _ (
        retry-Calm d r a (record_terminal_attempt a (generation_failed r error) m (is_retry d) s) h)

  end_streaming-IsQuiet :
      (a : Attempt) (s : RecoveringSession) (q : Streaming × List GenerationEvent × AttemptEnd)
      → may_raise a ≡ false
      → IsQuiet (end_streaming request a s q)
  unfolding end_streaming
  end_streaming-IsQuiet a s (t, shown, failed r error) h =
      fail_attempt-IsQuiet a r error (measure_events (read_events a.events) (none, none)) shown
        (drain_staged_for_publication false t.staged) (streamed request s t) h
  end_streaming-IsQuiet a s (t, shown, terminated) h = refl
  end_streaming-IsQuiet a s (t, shown, exhausted) h = ground arith

  end_buffered-IsQuiet :
      (a : Attempt) (s : RecoveringSession) (o : Option GenerationEvent)
      → may_raise a ≡ false
      → IsQuiet (end_buffered request a s o)
  unfolding end_buffered
  end_buffered-IsQuiet a s (some (generation_failed r error)) h =
      fail_attempt-IsQuiet a r error (measure_events a.events (none, none)) [] [] s h
  end_buffered-IsQuiet a s (some (generation_cancelled r)) h = refl
  end_buffered-IsQuiet a s (some (generation_completed r reason usage stop)) h = refl
  end_buffered-IsQuiet a s _ h = refl

  attempt_round-IsQuiet :
      (a : Attempt) (s : RecoveringSession)
      → may_raise a ≡ false
      → IsQuiet (attempt_round request a s)
  unfolding attempt_round unavailable_round buffered_round streaming_round
  attempt_round-IsQuiet a s h =
      if_elim IsQuiet (recovery_unavailable request) (λ e. ground arith)
        (λ e.
          if_elim IsQuiet (is_buffered request request.visibility_mode)
            (λ f.
              if_elim IsQuiet a.raises (λ g. absurd (ground arith))
                (λ g. end_buffered-IsQuiet a s (last_event a.events) h))
            (λ f.
              end_streaming-IsQuiet a s
                (stream_attempt a.events (record {
                  published = s.published;
                  external_started = s.external_started;
                  staged = [];
                }))
                h))

  end_round-IsQuiet :
      (o : RoundEnd) (a : Attempt) (r : Round) → IsQuiet r → IsQuiet (end_round request o a r)
  unfolding end_round
  end_round-IsQuiet request_over a r h = h
  end_round-IsQuiet goes_again a r h = h
  end_round-IsQuiet exception a r h = h

  run_round-IsQuiet :
      (a : Attempt) (s : RecoveringSession) → may_raise a ≡ false → IsQuiet (run_round request a s)
  unfolding run_round
  run_round-IsQuiet a s h =
      let r = attempt_round request a (cancel_if a.cancelled_streaming s) in
      end_round-IsQuiet r.outcome a r (attempt_round-IsQuiet a _ h)

  pub run_rounds-IsQuiet :
      (attempts : List Attempt) (s : RecoveringSession)
      → any_raises attempts ≡ false
      → is_exception (run_rounds request attempts s).outcome ≡ false
  unfolding run_rounds
  run_rounds-IsQuiet [] s h = refl
  run_rounds-IsQuiet (a ∷ rest) s h = elim (Bool-cases (is_again (run_round request a s).outcome)) [
    | inl e ↦
        rw (e, run_rounds) (run_rounds-IsQuiet rest (run_round request a s).session (ground arith))
    | inr e ↦ rw (e, run_rounds) (run_round-IsQuiet a s (ground arith))
  ]
