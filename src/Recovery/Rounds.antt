-- ===== src/Recovery/Rounds.antt =====
-- What each round of the loop over attempts starts and discards.
use mathlib.Core.Path.{subst}
use ex_qserve.Base.{
  ℕ, ◌+◌, ◌-◌, ◌≤◌, String, ◌≡◌, refl, true, false, Option, none, some, List, [], ◌∷◌, ◌++◌,
  if◌then◌else◌, if_elim, ltb, arith, Bool-cases, inl, inr,
}
use ex_qserve.Core.{
  CanonicalError, GenerationEvent, generation_completed, generation_cancelled, generation_failed,
}
use ex_qserve.Recovery.{
  drain_staged_for_publication, AttemptRecoveryDecision, skip, regenerate_model_output,
  wait_runtime_and_retry, Request, is_retry, Streaming, AttemptEnd, failed, terminated, exhausted,
}
use ex_qserve.Recovery.Session.{
  Attempt, RecoveringSession, measure_events, observe_measurements, read_events, last_event,
  is_terminal, record_terminal_attempt, with_own, evidence,
}
use ex_qserve.Recovery.Retry.{
  start_retry_or_failure, RetryResult, next_started, gives, retry_raises,
}
use ex_qserve.Recovery.Safety.{retry_iff}
use ex_qserve.Recovery.Loop.{
  Round, RoundEnd, goes_again, request_over, exception, is_again, after_events, after_failure,
  decide, fail_attempt, streamed, recorded_end, end_streaming, end_buffered, pass_events,
  observe_unavailable, with_skip_reason, mark_recovered,
}
use ex_qserve.Recovery.Budget.{IsFurther, still, IsFurther-trans, record_kept, record_failed}
use ex_qserve.Recovery.Launch.{IsLaunch, retry-IsLaunch}

-- A round: `n` attempts are started and `d` discarded, each at most one, and none beyond the budget.
pub record IsRound (budget : ℕ) (s : RecoveringSession) (r : Round) : Type 0 where
  pub n : ℕ
  pub d : ℕ
  pub further : IsFurther n d s r.session
  pub discarded_first : n ≤ d
  pub at_most_one : d ≤ 1
  pub allowed : d ≤ (budget + 1) - s.attempt_ordinal
  pub goes_on : is_again r.outcome ≡ true → n ≡ 1

-- A round that starts no attempt.
pub final-IsRound :
    (budget : ℕ) (s t : RecoveringSession) (es : List GenerationEvent) (o : RoundEnd)
    → is_again o ≡ false
    → IsFurther 0 0 s t
    → IsRound budget s (record { session = t; events = es; outcome = o })
final-IsRound budget s t es o f h = record {
  n = 0;
  d = 0;
  further = h;
  discarded_first = omega arith;
  at_most_one = omega arith;
  allowed = omega arith;
  goes_on = λ e. cc;
}

pub after_events-over : (a : Attempt) → is_again (after_events a) ≡ false
after_events-over a = ground arith

retried_within :
    (request : Request) (a : Attempt) (error : CanonicalError) (s : RecoveringSession)
    → is_retry (decide request a error s) ≡ true
    → s.attempt_ordinal ≤ request.max_extra_attempts
retried_within request a error s h = ground (arith, retry_iff (evidence request a error s))

-- A round that discards its attempt for a retry.
retried-IsRound :
    (budget : ℕ) (s0 s t : RecoveringSession) (es : List GenerationEvent) (o : RoundEnd)
    (x : RetryResult) (l : IsLaunch s (t, x))
    → IsFurther 0 1 s0 s
    → s0.attempt_ordinal ≤ budget
    → (is_again o ≡ true → l.n ≡ 1)
    → IsRound budget s0 (record { session = t; events = es; outcome = o })
retried-IsRound budget s0 s t es o x l k w g = record {
  n = l.n;
  d = 1;
  further = IsFurther-trans 0 l.n 1 0 l.n 1 s0 s t (omega arith) (omega arith) k l.further;
  discarded_first = l.at_most_one;
  at_most_one = omega arith;
  allowed = omega (arith, w);
  goes_on = g;
}

failed-IsRound :
    (request : Request) (e : GenerationEvent) (shown staged : List GenerationEvent)
    (s0 s : RecoveringSession) (d : AttemptRecoveryDecision) (q : RecoveringSession × RetryResult)
    → IsLaunch s q
    → IsFurther 0 1 s0 s
    → s0.attempt_ordinal ≤ request.max_extra_attempts
    → IsRound request.max_extra_attempts s0 (after_failure d e shown staged q)
unfolding after_failure
failed-IsRound request e shown staged s0 s d (t, retry_raises) l k w =
    retried-IsRound _ s0 s t _ exception retry_raises l k w (λ x. cc)
failed-IsRound request e shown staged s0 s d (t, gives f) l k w =
    retried-IsRound _ s0 s t _ request_over (gives f) l k w (λ x. cc)
failed-IsRound request e shown staged s0 s d (t, next_started) l k w =
    if_elim (IsRound request.max_extra_attempts s0) (is_retry d)
      (λ x. retried-IsRound _ s0 s t _ goes_again next_started l k w (λ y. l.started_one refl))
      (λ x. retried-IsRound _ s0 s t _ request_over next_started l k w (λ y. cc))

skip-IsRound :
    (request : Request) (d : AttemptRecoveryDecision) (a : Attempt) (r : String)
    (e : GenerationEvent) (shown staged : List GenerationEvent) (s0 s : RecoveringSession)
    → is_retry d ≡ false
    → IsFurther 0 0 s0 s
    → IsRound request.max_extra_attempts s0
        (after_failure d e shown staged (start_retry_or_failure d r a s))
unfolding after_failure start_retry_or_failure
skip-IsRound request (skip reason) a r e shown staged s0 s h k =
    let t = (start_retry_or_failure (skip reason) r a s).0 in
    final-IsRound request.max_extra_attempts s0 t (shown ++ (staged ++ e ∷ [])) request_over refl (
      IsFurther-trans 0 0 0 0 0 0 s0 s t (omega arith) (omega arith) k
        (still s t refl refl refl refl refl refl))
skip-IsRound request regenerate_model_output a r e shown staged s0 s h k = absurd cc
skip-IsRound request wait_runtime_and_retry a r e shown staged s0 s h k = absurd cc

fail_attempt-IsRound :
    (request : Request) (a : Attempt) (r : String) (error : CanonicalError)
    (m : Option ℕ × Option ℕ) (shown staged : List GenerationEvent) (s : RecoveringSession)
    → IsRound request.max_extra_attempts s (fail_attempt request a r error m shown staged s)
unfolding fail_attempt record_terminal_attempt
fail_attempt-IsRound request a r error m shown staged s =
    let d = decide request a error s in
    let t = record_terminal_attempt a (generation_failed r error) m (is_retry d) s in
    let k = record_failed s.attempt_ordinal r error (with_own a m) (is_retry d) s in
    elim (Bool-cases (is_retry d)) [
      | inl e ↦
          failed-IsRound request _ shown staged s t d _ (retry-IsLaunch d r a t e)
            (subst (λ b. IsFurther 0 (if b then 1 else 0) s t) e k)
            (retried_within request a error s e)
      | inr e ↦
          skip-IsRound request d a r _ shown staged s t e
            (subst (λ b. IsFurther 0 (if b then 1 else 0) s t) e k)
    ]

-- A round of a session that differs from this one in other fields.
pub before_round :
    (budget : ℕ) (s t : RecoveringSession) (r : Round)
    → IsFurther 0 0 s t
    → IsRound budget t r
    → IsRound budget s r
before_round budget s t r h k = record {
  n = k.n;
  d = k.d;
  further =
      IsFurther-trans 0 k.n 0 k.d k.n k.d s t r.session (omega arith) (omega arith) h k.further;
  discarded_first = k.discarded_first;
  at_most_one = k.at_most_one;
  allowed = omega (arith, k.allowed, h.ordinal);
  goes_on = k.goes_on;
}

streamed-IsFurther :
    (request : Request) (s : RecoveringSession) (t : Streaming)
    → IsFurther 0 0 s (streamed request s t)
streamed-IsFurther request s t = still s (streamed request s t) refl refl refl refl refl refl

ended-IsFurther :
    (request : Request) (a : Attempt) (o : Option GenerationEvent) (m : Option ℕ × Option ℕ)
    (s : RecoveringSession)
    → IsFurther 0 0 s (recorded_end request a o m s)
unfolding record_terminal_attempt
ended-IsFurther request a none m s = still s s refl refl refl refl refl refl
ended-IsFurther request a (some e) m s =
    let t = record_terminal_attempt a e m false s in
    IsFurther-trans 0 0 0 0 0 0 s t (recorded_end request a (some e) m s) (omega arith)
      (omega arith) (record_kept s.attempt_ordinal e (with_own a m) s)
      (still t (recorded_end request a (some e) m s) refl refl refl refl refl refl)

pub end_streaming-IsRound :
    (request : Request) (a : Attempt) (s : RecoveringSession)
    (q : Streaming × List GenerationEvent × AttemptEnd)
    → IsRound request.max_extra_attempts s (end_streaming request a s q)
unfolding end_streaming
end_streaming-IsRound request a s (t, shown, failed r error) =
    before_round _ s (streamed request s t) _ (streamed-IsFurther request s t) (
      fail_attempt-IsRound request a r error (measure_events (read_events a.events) (none, none))
        shown (drain_staged_for_publication false t.staged) (streamed request s t))
end_streaming-IsRound request a s (t, shown, terminated) =
    let u = streamed request s t in
    let v =
      recorded_end request a (last_event (read_events a.events))
        (measure_events (read_events a.events) (none, none)) u in
    final-IsRound _ s v shown request_over refl (
      IsFurther-trans 0 0 0 0 0 0 s u v (omega arith) (omega arith) (streamed-IsFurther request s t)
        (ended-IsFurther request a _ _ u))
end_streaming-IsRound request a s (t, shown, exhausted) =
    final-IsRound _ s (streamed request s t) shown (after_events a) (after_events-over a)
      (streamed-IsFurther request s t)

pub end_buffered-IsRound :
    (request : Request) (a : Attempt) (s : RecoveringSession) (o : Option GenerationEvent)
    → IsRound request.max_extra_attempts s (end_buffered request a s o)
unfolding end_buffered record_terminal_attempt
end_buffered-IsRound request a s (some (generation_failed r error)) =
    fail_attempt-IsRound request a r error (measure_events a.events (none, none)) [] [] s
end_buffered-IsRound request a s (some (generation_cancelled r)) =
    final-IsRound _ s
      (record_terminal_attempt a (generation_cancelled r) (measure_events a.events (none, none))
        false s)
      _ request_over refl (record_kept s.attempt_ordinal (generation_cancelled r) _ s)
end_buffered-IsRound request a s (some (generation_completed r reason usage stop)) =
    final-IsRound _ s
      (recorded_end request a (some (generation_completed r reason usage stop))
        (measure_events a.events (none, none)) s)
      _ request_over refl
      (ended-IsFurther request a (some (generation_completed r reason usage stop))
        (measure_events a.events (none, none)) s)
end_buffered-IsRound request a s _ =
    final-IsRound _ s s _ request_over refl (still s s refl refl refl refl refl refl)

skip-IsFurther :
    (request : Request) (a : Attempt) (e : GenerationEvent) (s : RecoveringSession)
    → IsFurther 0 0 s (with_skip_reason request a e s)
skip-IsFurther request a (generation_failed r error) s =
    if_elim (IsFurther 0 0 s) (ltb 0 request.max_extra_attempts)
      (λ h. still s _ refl refl refl refl refl refl) (λ h. still s s refl refl refl refl refl refl)
skip-IsFurther request a _ s = still s s refl refl refl refl refl refl

observe-IsFurther :
    (request : Request) (a : Attempt) (e : GenerationEvent) (m : Option ℕ × Option ℕ)
    (s : RecoveringSession)
    → IsFurther 0 0 s (observe_unavailable request a e m s)
unfolding record_terminal_attempt
observe-IsFurther request a e m s =
    if_elim (IsFurther 0 0 s) (is_terminal e)
      (λ h.
        let t = with_skip_reason request a e s in
        let u = mark_recovered e t in
        IsFurther-trans 0 0 0 0 0 0 s t (record_terminal_attempt a e m false u) (omega arith)
          (omega arith) (skip-IsFurther request a e s)
          (IsFurther-trans 0 0 0 0 0 0 t u (record_terminal_attempt a e m false u) (omega arith)
            (omega arith) (still t u refl refl refl refl refl refl)
            (record_kept u.attempt_ordinal e (with_own a m) u)))
      (λ h. still s s refl refl refl refl refl refl)

pub pass-IsFurther :
    (request : Request) (a : Attempt) (es : List GenerationEvent) (m : Option ℕ × Option ℕ)
    (s : RecoveringSession)
    → IsFurther 0 0 s (pass_events request a es m s)
unfolding pass_events
pass-IsFurther request a [] m s = still s s refl refl refl refl refl refl
pass-IsFurther request a (e ∷ es) m s =
    let n = observe_measurements e m in
    let t = observe_unavailable request a e n s in
    IsFurther-trans 0 0 0 0 0 0 s t _ (omega arith) (omega arith)
      (observe-IsFurther request a e n s) (pass-IsFurther request a es n t)
