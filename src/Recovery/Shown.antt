-- ===== src/Recovery/Shown.antt =====
-- What the streaming loop shows over all the attempts of a request.
use ex_qserve.Recovery.{
  is_staged_tool_event, is_attempt_diagnostic_event, is_public_semantic_event,
  is_tool_call_completed,
}
use ex_qserve.Base.{
  ℕ, ◌+◌, ◌≤◌, ◌≡◌, refl, Bool, true, false, not, ◌||◌, ◌&&◌, List, [], ◌∷◌, ◌++◌, if◌then◌else◌,
  if_elim, arith,
}
use ex_qserve.Core.{
  GenerationEvent, generation_started, generation_completed, generation_cancelled,
  generation_failed,
}
use ex_qserve.Recovery.{
  observe, drain_staged_for_publication, Streaming, AttemptEnd, terminated, stream_attempt,
}
use ex_qserve.Recovery.Session.{is_terminal}
use ex_qserve.Recovery.Safety.{is_started}

-- How many starts of a generation are among the events.
abbrev pub starts : List GenerationEvent → ℕ
starts [] = 0
starts (e ∷ es) = (if is_started e then 1 else 0) + starts es

-- No event is terminal.
abbrev pub no_end : List GenerationEvent → Bool
no_end [] = true
no_end (e ∷ es) = not (is_terminal e) && no_end es

-- No event but the last one is terminal.
abbrev pub ends_last : List GenerationEvent → Bool
ends_last [] = true
ends_last (e ∷ []) = true
ends_last (e ∷ f ∷ es) = not (is_terminal e) && ends_last (f ∷ es)

-- The events may be staged: none is terminal or a start.
abbrev pub calm : List GenerationEvent → Bool
calm [] = true
calm (e ∷ es) = not (is_terminal e) && (not (is_started e) && calm es)

abbrev pub bit : Bool → ℕ
bit true = 1
bit false = 0

pub starts-append : (es fs : List GenerationEvent) → starts (es ++ fs) ≡ starts es + starts fs
starts-append [] fs = omega arith
starts-append (e ∷ es) fs = omega (arith, starts-append es fs)

pub no_end-append : (es fs : List GenerationEvent) → no_end (es ++ fs) ≡ (no_end es && no_end fs)
no_end-append [] fs = refl
no_end-append (e ∷ es) fs = ground (arith, no_end-append es fs)

calm-append : (es fs : List GenerationEvent) → calm (es ++ fs) ≡ (calm es && calm fs)
calm-append [] fs = refl
calm-append (e ∷ es) fs = ground (arith, calm-append es fs)

pub calm_lem : (es : List GenerationEvent) → calm es ≡ true → (no_end es ≡ true) × (starts es ≡ 0)
calm_lem [] h = (refl, refl)
calm_lem (e ∷ es) h = ground (arith, calm_lem es)

pub ends_last-append :
    (es fs : List GenerationEvent)
    → no_end es ≡ true
    → ends_last fs ≡ true
    → ends_last (es ++ fs) ≡ true
ends_last-append [] fs h k = k
ends_last-append (e ∷ []) [] h k = refl
ends_last-append (e ∷ []) (f ∷ fs) h k = ground arith
ends_last-append (e ∷ g ∷ es) fs h k = ground (arith, ends_last-append (g ∷ es) fs)

pub no_end-ends_last : (es : List GenerationEvent) → no_end es ≡ true → ends_last es ≡ true
no_end-ends_last [] h = refl
no_end-ends_last (e ∷ []) h = refl
no_end-ends_last (e ∷ f ∷ es) h = ground (arith, no_end-ends_last (f ∷ es))

pub drain-calm :
    (b : Bool) (es : List GenerationEvent)
    → calm es ≡ true
    → calm (drain_staged_for_publication b es) ≡ true
unfolding drain_staged_for_publication
drain-calm b [] h = refl
drain-calm b (e ∷ es) h = ground (arith, drain-calm b es)

-- `observe` of an event that is no start.
abbrev observe_other : GenerationEvent → Streaming → Streaming × List GenerationEvent
observe_other e s =
    if (is_staged_tool_event e || is_attempt_diagnostic_event e) && not s.published
    then (record s { staged = s.staged ++ e ∷ [] }, [])
    else if is_public_semantic_event e
    then (
      record s { staged = []; published = true },
      drain_staged_for_publication (is_tool_call_completed e) s.staged ++ e ∷ [],
    )
    else (s, e ∷ [])

-- What is shown from one state of the streaming loop to another.
record IsShown (s t : Streaming) (es : List GenerationEvent) : Type 0 where
  staged : calm t.staged ≡ true
  start : starts es + bit s.external_started ≤ bit t.external_started
  going : no_end es ≡ true

module _ (e : GenerationEvent) (s : Streaming) (h : is_terminal e ≡ false)
    (k : is_started e ≡ false) (c : calm s.staged ≡ true) where
  IsShown-one : IsShown s s (e ∷ [])
  IsShown-one = record { staged = c; start = ground (arith, k); going = ground (arith, h) }

  staged_one : IsShown s (record s { staged = s.staged ++ e ∷ [] }) []
  staged_one = record {
    staged = ground (arith, calm-append s.staged (e ∷ []));
    start = omega arith;
    going = refl;
  }

  published_one :
      (b : Bool)
      → IsShown s
          (record s { staged = []; published = true })
          (drain_staged_for_publication b s.staged ++ e ∷ [])
  published_one b =
      let q = calm_lem (drain_staged_for_publication b s.staged) (drain-calm b s.staged c) in
      record {
        staged = refl;
        start =
            ground (arith, starts-append (drain_staged_for_publication b s.staged) (e ∷ []), q.1);
        going =
            ground (arith, no_end-append (drain_staged_for_publication b s.staged) (e ∷ []), q.0);
      }

  -- An event that is no start.
  other : IsShown s (observe_other e s).0 (observe_other e s).1
  other =
      let P = λ (q : Streaming × List GenerationEvent). IsShown s q.0 q.1 in
      if_elim P ((is_staged_tool_event e || is_attempt_diagnostic_event e) && not s.published)
        (λ x. staged_one)
        (λ x.
          if_elim P (is_public_semantic_event e) (λ y. published_one (is_tool_call_completed e))
            (λ y. IsShown-one))

observe-IsShown :
    (e : GenerationEvent) (s : Streaming)
    → is_terminal e ≡ false
    → calm s.staged ≡ true
    → IsShown s (observe e s).0 (observe e s).1
unfolding observe
observe-IsShown (generation_started r) s h c =
    if_elim (λ (q : Streaming × List GenerationEvent). IsShown s q.0 q.1) (not s.external_started)
      (λ x. record { staged = c; start = ground arith; going = refl })
      (λ x. record { staged = c; start = omega arith; going = refl })
observe-IsShown (generation_completed r reason u stop) s h c = absurd cc
observe-IsShown (generation_cancelled r) s h c = absurd cc
observe-IsShown (generation_failed r error) s h c = absurd cc
observe-IsShown e s h c = other e s refl refl c

abbrev pub is_terminated : AttemptEnd → Bool
is_terminated terminated = true
is_terminated _ = false

-- What is shown of an attempt from here.
pub record IsAttempt (s : Streaming) (q : Streaming × List GenerationEvent × AttemptEnd)
    : Type 0 where
  pub staged : calm q.0.staged ≡ true
  pub start : starts q.1 + bit s.external_started ≤ bit q.0.external_started
  pub last : ends_last q.1 ≡ true
  pub going : is_terminated q.2 ≡ false → no_end q.1 ≡ true

IsAttempt-step :
    (e : GenerationEvent) (es : List GenerationEvent) (s : Streaming)
    → is_terminal e ≡ false
    → calm s.staged ≡ true
    → ((t : Streaming) → calm t.staged ≡ true → IsAttempt t (stream_attempt es t))
    → let (t, first) = observe e s in
      let (final, later, end) = stream_attempt es t in IsAttempt s (final, first ++ later, end)
IsAttempt-step e es s h c rec =
    let q = observe-IsShown e s h c in
    let t = (observe e s).0 in
    let k = rec t q.staged in
    let first = (observe e s).1 in
    let later = (stream_attempt es t).1 in
    record {
      staged = k.staged;
      start = omega (arith, starts-append first later, q.start, k.start);
      last = ends_last-append first later q.going k.last;
      going = λ x. ground (arith, no_end-append first later, q.going, k.going x);
    }

ending-IsAttempt :
    (e : GenerationEvent) (s : Streaming)
    → is_started e ≡ false
    → calm s.staged ≡ true
    → IsAttempt s (s, drain_staged_for_publication false s.staged ++ e ∷ [], terminated)
ending-IsAttempt e s h c =
    let q = calm_lem (drain_staged_for_publication false s.staged) (drain-calm false s.staged c) in
    record {
      staged = c;
      start =
          ground
            (arith, starts-append (drain_staged_for_publication false s.staged) (e ∷ []), q.1, h);
      last = ends_last-append (drain_staged_for_publication false s.staged) (e ∷ []) q.0 refl;
      going = λ x. cc;
    }

pub stream-IsAttempt :
    (es : List GenerationEvent) (s : Streaming)
    → calm s.staged ≡ true
    → IsAttempt s (stream_attempt es s)
unfolding stream_attempt
stream-IsAttempt [] s c = record { staged = c; start = omega arith; last = refl; going = λ x. refl }
stream-IsAttempt (generation_failed r error ∷ es) s c = record {
  staged = c;
  start = omega arith;
  last = refl;
  going = λ x. refl;
}
stream-IsAttempt (generation_completed r reason u stop ∷ es) s c =
    ending-IsAttempt (generation_completed r reason u stop) s refl c
stream-IsAttempt (generation_cancelled r ∷ es) s c =
    ending-IsAttempt (generation_cancelled r) s refl c
stream-IsAttempt (e ∷ es) s c = IsAttempt-step e es s refl c (λ t k. stream-IsAttempt es t k)
