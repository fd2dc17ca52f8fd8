-- ===== src/Recovery/Shape.antt =====
-- serving/recovery.py: the starts and the terminal events that a streamed request shows.
use mathlib.Core.Bool.{false≢true}
use ex_qserve.Base.{
  sym, ◌∙◌, ℕ, ◌+◌, ◌≤◌, ◌≡◌, refl, Bool, true, false, Option, none, some, List, [], ◌∷◌, ◌++◌,
  if_elim, arith, Bool-cases, inl, inr,
}
use ex_qserve.Core.{GenerationEvent, generation_failed}
use ex_qserve.Recovery.{
  drain_staged_for_publication, AttemptRecoveryDecision, Request, is_retry, Streaming, AttemptEnd,
  failed, terminated, exhausted, stream_attempt,
}
use ex_qserve.Recovery.Session.{
  Attempt, RecoveringSession, RecoveryAttemptRecord, measure_events, read_events, last_event,
  cancel_if, record_terminal_attempt, attempt_record, append_record, with_own,
}
use ex_qserve.Recovery.Retry.{
  RetryResult, next_started, gives, retry_raises, start_retry_or_failure,
}
use ex_qserve.Recovery.Loop.{
  Round, RoundEnd, goes_again, request_over, exception, is_again, attempt_round, end_round,
  after_failure, decide, fail_attempt, streamed, recorded_end, end_streaming, streaming_round,
  recovery_unavailable, is_buffered, run_round, run_rounds, run,
}
use ex_qserve.Recovery.Safety.{is_started}
use ex_qserve.Recovery.Rounds.{after_events-over}
use ex_qserve.Recovery.Shown.{
  starts, no_end, ends_last, starts-append, no_end-append, ends_last-append, no_end-ends_last, calm,
  calm_lem, drain-calm, bit, IsAttempt, stream-IsAttempt,
}
use ex_qserve.Recovery.Retried.{gives_start, cancel_if-external, retry-IsRetried}

record_external :
    (o : Option RecoveryAttemptRecord) (s : RecoveringSession)
    → (append_record o s).external_started ≡ s.external_started
unfolding append_record
record_external none s = refl
record_external (some q) s = refl

-- A round of the streaming loop, or several: what it shows.
record IsStream (s : RecoveringSession) (r : Round) : Type 0 where
  start : starts r.events + bit s.external_started ≤ bit r.session.external_started
  last : ends_last r.events ≡ true
  going : is_again r.outcome ≡ true → no_end r.events ≡ true

-- The staged events of a failed attempt and the event that ends the request are shown.
shown-IsStream :
    (s t : RecoveringSession) (shown staged : List GenerationEvent) (e : GenerationEvent)
    → is_started e ≡ false
    → calm staged ≡ true
    → no_end shown ≡ true
    → starts shown + bit s.external_started ≤ bit t.external_started
    → IsStream s
        (record { session = t; events = shown ++ (staged ++ e ∷ []); outcome = request_over })
shown-IsStream s t shown staged e he c h k =
    let q = calm_lem staged c in
    record {
      start =
          ground
            (arith, starts-append shown (staged ++ e ∷ []), starts-append staged (e ∷ []), q.1, he);
      last =
          ends_last-append shown (staged ++ e ∷ []) h (ends_last-append staged (e ∷ []) q.0 refl);
      going = λ x. cc;
    }

failure-IsStream :
    (d : AttemptRecoveryDecision) (e : GenerationEvent) (shown staged : List GenerationEvent)
    (s : RecoveringSession) (b : Bool) (q : RecoveringSession × RetryResult)
    → is_started e ≡ false
    → calm staged ≡ true
    → no_end shown ≡ true
    → starts shown + bit s.external_started ≤ bit b
    → q.0.external_started ≡ b
    → gives_start q.1 ≡ false
    → IsStream s (after_failure d e shown staged q)
unfolding after_failure
failure-IsStream d e shown staged s b (t, retry_raises) he c h k x n = record {
  start = rw x k;
  last = no_end-ends_last shown h;
  going = λ z. h;
}
failure-IsStream d e shown staged s b (t, gives f) he c h k x n =
    shown-IsStream s t shown staged f n c h (rw x k)
failure-IsStream d e shown staged s b (t, next_started) he c h k x n =
    if_elim (IsStream s) (is_retry d)
      (λ y. record { start = rw x k; last = no_end-ends_last shown h; going = λ z. h })
      (λ y. shown-IsStream s t shown staged e he c h (rw x k))

ended_external :
    (request : Request) (a : Attempt) (o : Option GenerationEvent) (m : Option ℕ × Option ℕ)
    (s : RecoveringSession)
    → (recorded_end request a o m s).external_started ≡ s.external_started
unfolding record_terminal_attempt
ended_external request a none m s = refl
ended_external request a (some e) m s =
    record_external (attempt_record s.attempt_ordinal e (with_own a m) false) s

end_streaming-IsStream :
    (request : Request) (a : Attempt) (s : RecoveringSession) (z : Streaming)
    (q : Streaming × List GenerationEvent × AttemptEnd)
    → z.external_started ≡ s.external_started
    → IsAttempt z q
    → IsStream s (end_streaming request a s q)
unfolding end_streaming fail_attempt record_terminal_attempt
end_streaming-IsStream request a s z (t, shown, failed r error) x h =
    let u = streamed request s t in
    let d = decide request a error u in
    let m = measure_events (read_events a.events) (none, none) in
    let v = record_terminal_attempt a (generation_failed r error) m (is_retry d) u in
    let k = retry-IsRetried d r a v in
    failure-IsStream d (generation_failed r error) shown
      (drain_staged_for_publication false t.staged) s t.external_started
      (start_retry_or_failure d r a v) refl (drain-calm false t.staged h.staged) (h.going refl)
      (rw (sym x) h.start)
      (k.same
        ∙ record_external
            (attempt_record u.attempt_ordinal (generation_failed r error) (with_own a m)
              (is_retry d))
            u)
      k.no_start
end_streaming-IsStream request a s z (t, shown, terminated) x h = record {
  start =
      rw
        (
          ended_external request a (last_event (read_events a.events))
              (measure_events (read_events a.events) (none, none)) (streamed request s t),
          sym x,
        )
        h.start;
  last = h.last;
  going = λ y. cc;
}
end_streaming-IsStream request a s z (t, shown, exhausted) x h = record {
  start = rw (sym x) h.start;
  last = h.last;
  going = λ y. absurd (false≢true (sym (after_events-over a) ∙ y));
}

before-IsStream :
    (s t : RecoveringSession) (r : Round)
    → t.external_started ≡ s.external_started
    → IsStream t r
    → IsStream s r
before-IsStream s t r e h = record { start = rw (sym e) h.start; last = h.last; going = h.going }

module _ (request : Request) (available : recovery_unavailable request ≡ false)
    (mode : is_buffered request request.visibility_mode ≡ false) where
  attempt-IsStream : (a : Attempt) (s : RecoveringSession) → IsStream s (attempt_round request a s)
  unfolding attempt_round streaming_round
  attempt-IsStream a s =
      let z : Streaming = record {
        published = s.published;
        external_started = s.external_started;
        staged = [];
      } in
      if_elim (IsStream s) (recovery_unavailable request)
        (λ e. absurd (false≢true (sym available ∙ e)))
        (λ e.
          if_elim (IsStream s) (is_buffered request request.visibility_mode)
            (λ f. absurd (false≢true (sym mode ∙ f)))
            (λ f.
              end_streaming-IsStream request a s z (stream_attempt a.events z) refl
                (stream-IsAttempt a.events z refl)))

  end-IsStream :
      (o : RoundEnd) (a : Attempt) (s : RecoveringSession) (r : Round)
      → r.outcome ≡ o
      → IsStream s r
      → IsStream s (end_round request o a r)
  unfolding end_round
  end-IsStream request_over a s r e h = record {
    start = rw (cancel_if-external a.cancelled_at_end r.session) h.start;
    last = h.last;
    going = h.going;
  }
  end-IsStream goes_again a s r e h = h
  end-IsStream exception a s r e h = h

  round-IsStream : (a : Attempt) (s : RecoveringSession) → IsStream s (run_round request a s)
  unfolding run_round
  round-IsStream a s =
      let t = cancel_if a.cancelled_streaming s in
      let r = attempt_round request a t in
      end-IsStream r.outcome a s r refl
        (before-IsStream s t r (cancel_if-external a.cancelled_streaming s) (attempt-IsStream a t))

  rounds-IsStream :
      (attempts : List Attempt) (s : RecoveringSession) → IsStream s (run_rounds request attempts s)
  unfolding run_rounds
  rounds-IsStream [] s = record { start = omega arith; last = refl; going = λ x. refl }
  rounds-IsStream (a ∷ rest) s =
      let r = run_round request a s in
      let h = round-IsStream a s in
      let k = rounds-IsStream rest r.session in
      let later = run_rounds request rest r.session in
      elim (Bool-cases (is_again (run_round request a s).outcome)) [
        | inl e ↦
            rw (e, run_rounds)
              (record {
                start = omega (arith, starts-append r.events later.events, h.start, k.start);
                last = ends_last-append r.events later.events (h.going e) k.last;
                going =
                    λ x. ground (arith, no_end-append r.events later.events, h.going e, k.going x);
              })
        | inr e ↦ rw (e, run_rounds) h
      ]

one_start : (b : Bool) → bit b ≤ 1
one_start true = omega arith
one_start false = omega arith

events-run :
    (request : Request) (attempts : List Attempt) (s : RecoveringSession)
    → (run request attempts s).events ≡ (run_rounds request attempts s).events
unfolding run
events-run request attempts s =
    if_elim (λ (r : Round). r.events ≡ (run_rounds request attempts s).events)
      (is_again (run_rounds request attempts s).outcome) (λ e. refl) (λ e. refl)

-- A streamed request with recovery: over all its attempts, whatever their events are, what is shown
-- holds at most one start of the generation, and no terminal event but as its last event.
pub shown_once :
    (request : Request) (s : RecoveringSession) (attempts : List Attempt)
    → recovery_unavailable request ≡ false
    → is_buffered request request.visibility_mode ≡ false
    → (starts (run request attempts s).events ≤ 1)
      × (ends_last (run request attempts s).events ≡ true)
shown_once request s attempts h k =
    let q = rounds-IsStream request h k attempts s in
    rw (events-run request attempts s) (
      omega (arith, q.start, one_start (run_rounds request attempts s).session.external_started),
      q.last,
    )
