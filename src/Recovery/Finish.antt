-- ===== src/Recovery/Finish.antt =====
-- A round of the loop with what comes before and after the attempt, and how it leaves the session.
use ex_qserve.Base.{ℕ, ◌≡◌, refl, Bool, true, false, ◌||◌, none, [], if_elim, arith}
use ex_qserve.Recovery.{Request, stream_attempt}
use ex_qserve.Recovery.Session.{Attempt, RecoveringSession, cancel_if, last_event}
use ex_qserve.Recovery.Loop.{
  Round, RoundEnd, goes_again, request_over, exception, is_again, is_exception, after_events,
  attempt_round, end_round, streaming_round, buffered_round, pass_events, unavailable_round,
  recovery_unavailable, is_buffered, run_round,
}
use ex_qserve.Recovery.Budget.{still, IsFurther-trans, cancel_if-IsFurther}
use ex_qserve.Recovery.Rounds.{
  IsRound, final-IsRound, before_round, after_events-over, end_streaming-IsRound,
  end_buffered-IsRound, pass-IsFurther,
}

attempt_round-IsRound :
    (request : Request) (a : Attempt) (s : RecoveringSession)
    → IsRound request.max_extra_attempts s (attempt_round request a s)
unfolding attempt_round unavailable_round buffered_round streaming_round
attempt_round-IsRound request a s =
    let P = IsRound request.max_extra_attempts s in
    if_elim P (recovery_unavailable request)
      (λ e.
        final-IsRound request.max_extra_attempts s (pass_events request a a.events (none, none) s)
          a.events (after_events a) (after_events-over a)
          (pass-IsFurther request a a.events (none, none) s))
      (λ e.
        if_elim P (is_buffered request request.visibility_mode)
          (λ f.
            if_elim P a.raises
              (λ g. final-IsRound _ s s [] exception refl (still s s refl refl refl refl refl refl))
              (λ g. end_buffered-IsRound request a s (last_event a.events)))
          (λ f. end_streaming-IsRound request a s (
            stream_attempt a.events (record {
              published = s.published;
              external_started = s.external_started;
              staged = [];
            }))))

-- The end of a round changes nothing that the budget is about.
end_round-IsRound :
    (request : Request) (budget : ℕ) (o : RoundEnd) (a : Attempt) (s : RecoveringSession)
    (r : Round)
    → r.outcome ≡ o
    → IsRound budget s r
    → IsRound budget s (end_round request o a r)
unfolding end_round
end_round-IsRound request budget request_over a s r e h =
    let t = cancel_if a.cancelled_at_end r.session in
    let u = record t { terminal = true } in
    record {
      n = h.n;
      d = h.d;
      further =
          IsFurther-trans h.n 0 h.d 0 h.n h.d s r.session u (omega arith) (omega arith) h.further (
            IsFurther-trans 0 0 0 0 0 0 r.session t u (omega arith) (omega arith)
              (cancel_if-IsFurther a.cancelled_at_end r.session)
              (still t u refl refl refl refl refl refl));
      discarded_first = h.discarded_first;
      at_most_one = h.at_most_one;
      allowed = h.allowed;
      goes_on = h.goes_on;
    }
end_round-IsRound request budget goes_again a s r e h = h
end_round-IsRound request budget exception a s r e h = h

pub run_round-IsRound :
    (request : Request) (a : Attempt) (s : RecoveringSession)
    → IsRound request.max_extra_attempts s (run_round request a s)
unfolding run_round
run_round-IsRound request a s =
    let t = cancel_if a.cancelled_streaming s in
    let r = attempt_round request a t in
    end_round-IsRound request request.max_extra_attempts r.outcome a s r refl (
      before_round request.max_extra_attempts s t r (cancel_if-IsFurther a.cancelled_streaming s)
        (attempt_round-IsRound request a t))

-- A round that does not go on leaves the session terminal, unless it raised.
abbrev pub is_done : Round → Bool
is_done r = r.session.terminal || is_exception r.outcome

end_round-is_done :
    (request : Request) (o : RoundEnd) (a : Attempt) (r : Round)
    → r.outcome ≡ o
    → is_again (end_round request o a r).outcome ≡ false
    → is_done (end_round request o a r) ≡ true
unfolding end_round
end_round-is_done request request_over a r e h = refl
end_round-is_done request goes_again a r e h = absurd (ground arith)
end_round-is_done request exception a r e h = ground arith

pub run_round-is_done :
    (request : Request) (a : Attempt) (s : RecoveringSession)
    → is_again (run_round request a s).outcome ≡ false
    → is_done (run_round request a s) ≡ true
unfolding run_round
run_round-is_done request a s h =
    let r = attempt_round request a (cancel_if a.cancelled_streaming s) in
    end_round-is_done request r.outcome a r refl h
