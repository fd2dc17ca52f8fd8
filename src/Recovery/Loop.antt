-- ===== src/Recovery/Loop.antt =====
-- serving/recovery.py: `_run`, the loop over the attempts in each visibility mode.
use ex_qserve.Base.{
  ℕ, String, Bool, true, false, not, ◌||◌, ◌&&◌, Option, none, some, List, [], ◌∷◌, ◌++◌,
  if◌then◌else◌, nat_eq, ltb,
}
use ex_qserve.Core.{
  CanonicalError, GenerationEvent, generation_completed, generation_cancelled, generation_failed,
}
use ex_qserve.Recovery.{
  ServingVisibilityMode, buffered, RecoverySkipReason, AttemptRecoveryDecision, skip, Request,
  is_unseen, classify_attempt_recovery, is_retry, drain_staged_for_publication, Streaming,
  AttemptEnd, failed, terminated, exhausted, stream_attempt,
}
use ex_qserve.Recovery.Session.{
  Attempt, RecoveringSession, release_once, cancel_if, measure_events, observe_measurements,
  read_events, last_event, is_terminal, is_completed, record_terminal_attempt, evidence,
}
use ex_qserve.Recovery.Retry.{
  start_retry_or_failure, RetryResult, next_started, gives, retry_raises,
}

-- How a round of the loop ends: with another attempt, with the end of the request, or with an
-- exception.
pub data RoundEnd : Type 0 where
  goes_again request_over exception : RoundEnd

abbrev pub is_again : RoundEnd → Bool
is_again goes_again = true
is_again _ = false

abbrev pub is_exception : RoundEnd → Bool
is_exception exception = true
is_exception _ = false

-- An attempt's part of the loop: the session after it, what is yielded, and how it ends.
pub record Round : Type 0 where
  pub session : RecoveringSession
  pub events : List GenerationEvent
  pub outcome : RoundEnd

abbrev round : RecoveringSession → List GenerationEvent → RoundEnd → Round
round s es o = record { session = s; events = es; outcome = o }

-- The attempt's events came to their end, or its iterator raised.
abbrev pub after_events : Attempt → RoundEnd
after_events a = if a.raises then exception else request_over

-- Recovered, if a retry came to a completed attempt.
abbrev pub mark_recovered : GenerationEvent → RecoveringSession → RecoveringSession
mark_recovered e s = record s {
  recovered = is_completed e && ltb 0 s.recovery_attempts || s.recovered;
}

abbrev skip_reason_of : AttemptRecoveryDecision → Option RecoverySkipReason
skip_reason_of (skip reason) = some reason
skip_reason_of _ = none

-- The failed attempt is retried, or its events that may be shown and the failure end the request.
unfoldable pub after_failure :
    AttemptRecoveryDecision
    → GenerationEvent
    → List GenerationEvent
    → List GenerationEvent
    → RecoveringSession × RetryResult
    → Round
after_failure decision event shown staged (s, retry_raises) = round s shown exception
after_failure decision event shown staged (s, gives e) =
    round s (shown ++ (staged ++ e ∷ [])) request_over
after_failure decision event shown staged (s, next_started) =
    if is_retry decision
    then round s shown goes_again
    else round s (shown ++ (staged ++ event ∷ [])) request_over

module _ (request : Request) where
  abbrev pub decide : Attempt → CanonicalError → RecoveringSession → AttemptRecoveryDecision
  decide a error s = classify_attempt_recovery (evidence request a error s)

  -- The failure of an attempt whose events were measured.
  unfoldable pub fail_attempt :
      Attempt
      → String
      → CanonicalError
      → Option ℕ × Option ℕ
      → List GenerationEvent
      → List GenerationEvent
      → RecoveringSession
      → Round
  unfolding after_failure start_retry_or_failure record_terminal_attempt classify_attempt_recovery
  fail_attempt a r error m shown staged s =
      let d = decide a error s in
      after_failure d (generation_failed r error) shown staged (
        start_retry_or_failure d r a
          (record_terminal_attempt a (generation_failed r error) m (is_retry d) s))

  abbrev pub streamed : RecoveringSession → Streaming → RecoveringSession
  streamed s t = record s { published = t.published; external_started = t.external_started }

  abbrev pub recorded_end :
      Attempt → Option GenerationEvent → Option ℕ × Option ℕ → RecoveringSession → RecoveringSession
  recorded_end a none m s = s
  recorded_end a (some e) m s = mark_recovered e (record_terminal_attempt a e m false s)

  -- The end of the streaming loop over one attempt.
  unfoldable pub end_streaming :
      Attempt → RecoveringSession → Streaming × List GenerationEvent × AttemptEnd → Round
  unfolding fail_attempt measure_events read_events record_terminal_attempt
  end_streaming a s (t, shown, failed r error) =
      fail_attempt a r error (measure_events (read_events a.events) (none, none)) shown
        (drain_staged_for_publication false t.staged) (streamed s t)
  end_streaming a s (t, shown, terminated) =
      round
        (recorded_end a (last_event (read_events a.events))
          (measure_events (read_events a.events) (none, none)) (streamed s t))
        shown request_over
  end_streaming a s (t, shown, exhausted) = round (streamed s t) shown (after_events a)

  unfoldable pub streaming_round : Attempt → RecoveringSession → Round
  unfolding end_streaming stream_attempt
  streaming_round a s = end_streaming a s (
      stream_attempt a.events
        (record { published = s.published; external_started = s.external_started; staged = [] }))

  unfoldable pub end_buffered : Attempt → RecoveringSession → Option GenerationEvent → Round
  unfolding fail_attempt measure_events record_terminal_attempt
  end_buffered a s (some (generation_failed r error)) =
      fail_attempt a r error (measure_events a.events (none, none)) [] [] s
  end_buffered a s (some (generation_cancelled r)) =
      round
        (record_terminal_attempt a (generation_cancelled r) (measure_events a.events (none, none))
          false s)
        (generation_cancelled r ∷ []) request_over
  end_buffered a s (some (generation_completed r reason usage stop)) =
      round
        (recorded_end a (some (generation_completed r reason usage stop))
          (measure_events a.events (none, none)) s)
        a.events request_over
  end_buffered a s _ = round s a.events request_over

  unfoldable pub buffered_round : Attempt → RecoveringSession → Round
  unfolding end_buffered
  buffered_round a s =
      if a.raises then round s [] exception else end_buffered a s (last_event a.events)

  -- The skip reason of a failure that could not be retried.
  abbrev pub with_skip_reason : Attempt → GenerationEvent → RecoveringSession → RecoveringSession
  with_skip_reason a (generation_failed r error) s =
      if ltb 0 request.max_extra_attempts
      then record s { final_skip_reason = skip_reason_of (decide a error s) }
      else s
  with_skip_reason a _ s = s

  abbrev pub observe_unavailable :
      Attempt → GenerationEvent → Option ℕ × Option ℕ → RecoveringSession → RecoveringSession
  observe_unavailable a e m s =
      if is_terminal e
      then record_terminal_attempt a e m false (mark_recovered e (with_skip_reason a e s))
      else s

  -- Recovery is unavailable: the events pass, and the terminal ones are recorded.
  unfoldable pub pass_events :
      Attempt → List GenerationEvent → Option ℕ × Option ℕ → RecoveringSession → RecoveringSession
  unfolding observe_measurements record_terminal_attempt classify_attempt_recovery
  pass_events a [] m s = s
  pass_events a (e ∷ es) m s =
      let n = observe_measurements e m in pass_events a es n (observe_unavailable a e n s)

  unfoldable pub unavailable_round : Attempt → RecoveringSession → Round
  unfolding pass_events
  unavailable_round a s = round (pass_events a a.events (none, none) s) a.events (after_events a)

  abbrev pub recovery_unavailable : Bool
  recovery_unavailable =
      nat_eq request.max_extra_attempts 0
      || (is_unseen request.visibility_mode
          || (not request.fresh_attempt_replay
              || request.has_prompt_attachments && not request.prompt_attachment_replay))

  abbrev pub is_buffered : ServingVisibilityMode → Bool
  is_buffered buffered = true
  is_buffered _ = false

  unfoldable pub attempt_round : Attempt → RecoveringSession → Round
  unfolding unavailable_round buffered_round streaming_round
  attempt_round a s =
      if recovery_unavailable
      then unavailable_round a s
      else if is_buffered request.visibility_mode
      then buffered_round a s
      else streaming_round a s

  -- After the last event is shown, the session is terminal.
  unfoldable pub end_round : RoundEnd → Attempt → Round → Round
  unfolding cancel_if
  end_round request_over a r = record r {
    session = record (cancel_if a.cancelled_at_end r.session) { terminal = true };
  }
  end_round goes_again a r = r
  end_round exception a r = r

  unfoldable pub run_round : Attempt → RecoveringSession → Round
  unfolding attempt_round end_round cancel_if
  run_round a s =
      let r = attempt_round a (cancel_if a.cancelled_streaming s) in end_round r.outcome a r

  -- The rounds over the attempts that come, up to one that ends the request or raises; it ends with
  -- `goes_again` when more attempts are asked for.
  unfoldable pub run_rounds : List Attempt → RecoveringSession → Round
  unfolding run_round
  run_rounds [] s = round s [] goes_again
  run_rounds (a ∷ rest) s =
      let r = run_round a s in
      elim (is_again r.outcome) [
        | false ↦ r
        | true ↦
            let later = run_rounds rest r.session in
            record later { events = r.events ++ later.events }
      ]

  -- `_run` with its `finally`.
  unfoldable pub run : List Attempt → RecoveringSession → Round
  unfolding run_rounds release_once
  run attempts s =
      let r = run_rounds attempts s in
      if is_again r.outcome then r else record r { session = release_once r.session }
