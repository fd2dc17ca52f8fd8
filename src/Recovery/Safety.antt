-- ===== src/Recovery/Safety.antt =====
-- serving/recovery.py: which failures are retried, and that a discarded attempt showed nothing.
use ex_qserve.Base.{
  ℕ, String, Bool, true, false, not, ◌||◌, ◌&&◌, List, [], ◌∷◌, ◌++◌, ◌≡◌, refl, ap, arith,
  if◌then◌else◌, leb, nat_eq,
}
use ex_qserve.Core.{
  CanonicalError, GenerationEvent, generation_started, generation_completed, generation_cancelled,
  generation_failed, text_started, text_delta, text_completed, reasoning_started, reasoning_delta,
  reasoning_completed, tool_call_started, tool_call_arguments_delta, tool_call_completed,
  timing_updated, usage_updated,
}
use ex_qserve.Recovery.{
  AttemptRecoveryEvidence, Request, is_unseen, is_recovering, is_allowlisted,
  model_reroll_is_deterministic, classify_attempt_recovery, is_retry, Streaming, AttemptEnd, failed,
  observe, stream_attempt,
}

-- The cause of the failure lets the attempt run again.
abbrev pub is_repeatable : AttemptRecoveryEvidence → Bool
is_repeatable e =
    if is_recovering e.error.cause
    then e.request.recovery_readiness
    else not (model_reroll_is_deterministic e.request) && is_allowlisted e.error.cause e.error.code

-- A failed attempt is run again exactly if the budget of extra attempts is not spent, its
-- visibility is known and nothing is published, the prompt's attachments and the request can be
-- replayed, the runtime runs fresh attempts, and the cause can be repeated: a recovering runtime
-- that tells when it is ready, or a failure of the model's output on the list of those, with no
-- seed and a temperature other than 0.
pub retry_iff :
    (e : AttemptRecoveryEvidence)
    → is_retry (classify_attempt_recovery e) ≡ (
        (not (nat_eq e.request.max_extra_attempts 0)
          && leb e.attempt_ordinal e.request.max_extra_attempts)
        && (not (is_unseen e.request.visibility_mode)
            && (not e.is_published
                && ((not e.request.has_prompt_attachments || e.request.prompt_attachment_replay)
                    && (e.request_replay_safe
                        && (e.request.fresh_attempt_replay && is_repeatable e))))))
unfolding classify_attempt_recovery
retry_iff e = ground arith

abbrev pub is_started : GenerationEvent → Bool
is_started (generation_started r) = true
is_started _ = false

abbrev pub all_started : List GenerationEvent → Bool
all_started [] = true
all_started (e ∷ es) = is_started e && all_started es

abbrev pub is_failed : AttemptEnd → Bool
is_failed (failed r error) = true
is_failed _ = false

abbrev is_ending : GenerationEvent → Bool
is_ending (generation_completed r reason usage stop) = true
is_ending (generation_cancelled r) = true
is_ending (generation_failed r error) = true
is_ending _ = false

all_started-append :
    (es fs : List GenerationEvent)
    → all_started es ≡ true
    → all_started fs ≡ true
    → all_started (es ++ fs) ≡ true
all_started-append [] fs h g = g
all_started-append (e ∷ es) fs h g = ground (arith, all_started-append es fs)

observe-quiet :
    (e : GenerationEvent) (s : Streaming)
    → is_ending e ≡ false
    → (observe e s).0.published ≡ false
    → (all_started (observe e s).1 ≡ true) × (s.published ≡ false)
unfolding observe
observe-quiet (generation_started r) s g = ground arith
observe-quiet (text_started r) s g = ground arith
observe-quiet (text_delta r t) s g = ground arith
observe-quiet (text_completed r t) s g = ground arith
observe-quiet (reasoning_started r) s g = ground arith
observe-quiet (reasoning_delta r t) s g = ground arith
observe-quiet (reasoning_completed r t) s g = ground arith
observe-quiet (tool_call_started r c n i) s g = ground arith
observe-quiet (tool_call_arguments_delta r c d i) s g = ground arith
observe-quiet (tool_call_completed r c) s g = ground arith
observe-quiet (timing_updated r t) s g = ground arith
observe-quiet (usage_updated r t) s g = ground arith
observe-quiet (generation_completed r reason usage stop) s g = absurd cc
observe-quiet (generation_cancelled r) s g = absurd cc
observe-quiet (generation_failed r error) s g = absurd cc

quiet_step :
    (e : GenerationEvent) (s : Streaming) (later : List GenerationEvent)
    → is_ending e ≡ false
    → (all_started later ≡ true) × ((observe e s).0.published ≡ false)
    → (all_started ((observe e s).1 ++ later) ≡ true) × (s.published ≡ false)
quiet_step e s later g (h, u) =
    let (first, was) = observe-quiet e s g u in
    (all_started-append (observe e s).1 later first h, was)

quiet :
    (es : List GenerationEvent) (s : Streaming)
    → is_failed (stream_attempt es s).2 ≡ true
    → (stream_attempt es s).0.published ≡ false
    → (all_started (stream_attempt es s).1 ≡ true) × (s.published ≡ false)
unfolding stream_attempt
quiet [] s f u = (refl, u)
quiet (generation_failed r error ∷ es) s f u = (refl, u)
quiet (generation_completed r reason usage stop ∷ es) s f u = absurd cc
quiet (generation_cancelled r ∷ es) s f u = absurd cc
quiet (generation_started r ∷ es) s f u =
    quiet_step (generation_started r) s (stream_attempt es (observe (generation_started r) s).0).1
      refl (quiet es (observe (generation_started r) s).0 f u)
quiet (text_started r ∷ es) s f u =
    quiet_step (text_started r) s (stream_attempt es (observe (text_started r) s).0).1 refl
      (quiet es (observe (text_started r) s).0 f u)
quiet (text_delta r t ∷ es) s f u =
    quiet_step (text_delta r t) s (stream_attempt es (observe (text_delta r t) s).0).1 refl
      (quiet es (observe (text_delta r t) s).0 f u)
quiet (text_completed r t ∷ es) s f u =
    quiet_step (text_completed r t) s (stream_attempt es (observe (text_completed r t) s).0).1 refl
      (quiet es (observe (text_completed r t) s).0 f u)
quiet (reasoning_started r ∷ es) s f u =
    quiet_step (reasoning_started r) s (stream_attempt es (observe (reasoning_started r) s).0).1
      refl (quiet es (observe (reasoning_started r) s).0 f u)
quiet (reasoning_delta r t ∷ es) s f u =
    quiet_step (reasoning_delta r t) s (stream_attempt es (observe (reasoning_delta r t) s).0).1
      refl (quiet es (observe (reasoning_delta r t) s).0 f u)
quiet (reasoning_completed r t ∷ es) s f u =
    quiet_step (reasoning_completed r t) s
      (stream_attempt es (observe (reasoning_completed r t) s).0).1 refl
      (quiet es (observe (reasoning_completed r t) s).0 f u)
quiet (tool_call_started r c n i ∷ es) s f u =
    quiet_step (tool_call_started r c n i) s
      (stream_attempt es (observe (tool_call_started r c n i) s).0).1 refl
      (quiet es (observe (tool_call_started r c n i) s).0 f u)
quiet (tool_call_arguments_delta r c d i ∷ es) s f u =
    quiet_step (tool_call_arguments_delta r c d i) s
      (stream_attempt es (observe (tool_call_arguments_delta r c d i) s).0).1 refl
      (quiet es (observe (tool_call_arguments_delta r c d i) s).0 f u)
quiet (tool_call_completed r c ∷ es) s f u =
    quiet_step (tool_call_completed r c) s
      (stream_attempt es (observe (tool_call_completed r c) s).0).1 refl
      (quiet es (observe (tool_call_completed r c) s).0 f u)
quiet (timing_updated r t ∷ es) s f u =
    quiet_step (timing_updated r t) s (stream_attempt es (observe (timing_updated r t) s).0).1 refl
      (quiet es (observe (timing_updated r t) s).0 f u)
quiet (usage_updated r t ∷ es) s f u =
    quiet_step (usage_updated r t) s (stream_attempt es (observe (usage_updated r t) s).0).1 refl
      (quiet es (observe (usage_updated r t) s).0 f u)

-- The evidence of a failure that ended the streaming of an attempt.
abbrev pub evidence_of : Request → CanonicalError → Bool → ℕ → Bool → AttemptRecoveryEvidence
evidence_of request error published ordinal safe = record {
  request = request;
  error = error;
  is_published = published;
  attempt_ordinal = ordinal;
  request_replay_safe = safe;
}

-- An attempt that fails and is then run again has shown nothing but starts of the generation,
-- whatever its events were.
pub retried_shows_nothing :
    (request : Request) (ordinal : ℕ) (safe : Bool) (es : List GenerationEvent) (s : Streaming)
    (r : String) (error : CanonicalError)
    → (stream_attempt es s).2 ≡ failed r error
    → is_retry (
        classify_attempt_recovery
          (evidence_of request error (stream_attempt es s).0.published ordinal safe))
      ≡ true
    → all_started (stream_attempt es s).1 ≡ true
retried_shows_nothing request ordinal safe es s r error f h =
    (quiet es s (ap is_failed f) (
      ground (
        arith,
        retry_iff (evidence_of request error (stream_attempt es s).0.published ordinal safe),
      ))).0
