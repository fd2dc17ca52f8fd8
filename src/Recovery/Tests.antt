-- ===== src/Recovery/Tests.antt =====
-- Tests of the recovery of failed attempts, and the theorems at concrete attempts.
use ex_qserve.Base.{not, ◌≤◌, ◌+◌, ◌-◌, ◌||◌, arith}
use ex_qserve.Core.{generation_completed, stop, text_delta}
use ex_qserve.Recovery.Session.{
  Attempt, RecoveringSession, new_session, created, runtime_ready, cancel,
}
use ex_qserve.Recovery.Loop
use ex_qserve.Recovery.Loop.{is_again, is_exception}
use ex_qserve.Recovery.Budget.{discards, IsOnce}
use ex_qserve.Recovery.Quiet.{any_raises}
use ex_qserve.Recovery.Ending.{run_ends, cancel_and_run-IsOnce}
use ex_qserve.Recovery.Shown.{starts, ends_last}
use ex_qserve.Recovery.Shape.{shown_once}
use ex_qserve.Base.{◌≡◌, refl, true, false, none, some, List, [], ◌∷◌}
use ex_qserve.Core.{
  CanonicalError, model_failure, model_tool_output_invalid, GenerationEvent, generation_started,
  generation_cancelled, generation_failed, tool_call_started, usage_updated,
}
use ex_qserve.Recovery.{
  Request, streaming, Streaming, classify_attempt_recovery, is_retry, skip,
  semantic_already_published, stream_attempt,
}
use ex_qserve.Recovery.Safety.{evidence_of, all_started, retried_shows_nothing, retry_iff}

program : Unit {0}
unfolding classify_attempt_recovery stream_attempt Loop.run
program = tt

abbrev request : Request
request = record {
  visibility_mode = streaming;
  max_extra_attempts = 1;
  seed = none;
  temperature_is_zero = false;
  fresh_attempt_replay = true;
  recovery_readiness = false;
  has_prompt_attachments = false;
  prompt_attachment_replay = false;
}

abbrev invalid_call : CanonicalError
invalid_call = record {
  category = model_failure;
  code = "tool_call_invalid";
  message = "";
  retryable = true;
  cause = some model_tool_output_invalid;
}

abbrev fresh : Streaming
fresh = record { published = false; external_started = false; staged = [] }

abbrev failing : List GenerationEvent
failing =
    generation_started "r"
    ∷ usage_updated "r" 3
    ∷ tool_call_started "r" "a" "look" 0
    ∷ generation_failed "r" invalid_call
    ∷ []

shows_start : (stream_attempt failing fresh).1 ≡ generation_started "r" ∷ []
unfolding program
shows_start = refl

published_is_final :
    classify_attempt_recovery (evidence_of request invalid_call true 1 true)
    ≡ skip semantic_already_published
unfolding program
published_is_final = refl

retry_iff_example :
    is_retry (classify_attempt_recovery (evidence_of request invalid_call false 1 true)) ≡ true
retry_iff_example = retry_iff (evidence_of request invalid_call false 1 true)

retried_shows_nothing_example : all_started (stream_attempt failing fresh).1 ≡ true
unfolding program
retried_shows_nothing_example =
    retried_shows_nothing request 1 true failing fresh "r" invalid_call refl refl

-- An attempt with which nothing else happens.
abbrev attempt_of : List GenerationEvent → Attempt
attempt_of events = record {
  events = events;
  raises = false;
  attempt_usage = none;
  attempt_timing = none;
  replay_safe = true;
  readiness = some runtime_ready;
  factory = created;
  inactive_in_wait = false;
  inactive_before = false;
  inactive_after = false;
  stop_raises = false;
  cancelled_streaming = false;
  cancelled_in_wait = false;
  cancelled_in_factory = false;
  cancelled_in_stop = false;
  cancelled_at_end = false;
}

abbrev completing : List GenerationEvent
completing =
    generation_started "r" ∷ text_delta "r" "hello" ∷ generation_completed "r" stop none none ∷ []

abbrev begun : RecoveringSession
begun = new_session 1 1 0 []

shows_second :
    (Loop.run request (attempt_of failing ∷ attempt_of completing ∷ []) begun).events ≡ completing
unfolding program
shows_second = refl

-- The first attempt fails before it shows anything, and the second one raises, after a cancellation.
abbrev raising : Attempt
raising = record (attempt_of (generation_started "r" ∷ [])) {
  raises = true;
  cancelled_streaming = true;
}

shows_until_exception :
    (Loop.run request (attempt_of failing ∷ raising ∷ []) begun).events
    ≡ generation_started "r" ∷ []
unfolding program
shows_until_exception = refl

-- The request is cancelled in the wait for the next attempt.
cancelled_in_retry :
    (Loop.run request
      (record (attempt_of failing) { cancelled_in_factory = true } ∷ [])
      begun).events
    ≡ generation_started "r" ∷ usage_updated "r" 3 ∷ generation_cancelled "r" ∷ []
unfolding program
cancelled_in_retry = refl

run_ends_example :
    let r = Loop.run request (attempt_of failing ∷ raising ∷ []) begun in
    (is_again r.outcome ≡ false)
    × ((r.session.terminal || is_exception r.outcome) ≡ true)
    × ((not (is_exception r.outcome) || any_raises (attempt_of failing ∷ raising ∷ [])) ≡ true)
    × (r.session.lease_releases ≡ 1)
    × (r.session.attempts_started ≤ 1 + (2 - 1))
    × (discards r.session.attempt_records ≤ 0 + (2 - 1))
run_ends_example = run_ends request 1 1 0 [] (attempt_of failing) (raising ∷ []) (omega arith)

shown_once_example :
    let r = Loop.run request (attempt_of failing ∷ attempt_of completing ∷ []) begun in
    (starts r.events ≤ 1) × (ends_last r.events ≡ true)
shown_once_example =
    shown_once request begun (attempt_of failing ∷ attempt_of completing ∷ []) refl refl

cancel_and_run-IsOnce_example :
    IsOnce (cancel (Loop.run request (attempt_of failing ∷ []) begun).session)
    × IsOnce (cancel (Loop.run request (attempt_of failing ∷ []) (cancel begun)).session)
cancel_and_run-IsOnce_example = cancel_and_run-IsOnce request (attempt_of failing ∷ []) begun refl
