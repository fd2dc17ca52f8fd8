-- ===== src/Control/Session/Once.antt =====
-- control/request.py: whatever is called on a session, its runtime is cancelled and its lease
-- released at most once, and the first reason stays.
use ex_qserve.Base.{if_elim, not, ◌&&◌, ◌||◌, String}
use ex_qserve.Base.{
  ℕ, ◌+◌, Bool, true, false, Option, some, List, [], ◌∷◌, ◌++◌, ◌≡◌, refl, ap, arith, if◌then◌else◌,
}
use ex_qserve.Terminal.{RequestTerminalReason, client_cancelled, timeout, keep_first}
use ex_qserve.Control.Session.{
  Effect, cancel_runtime, release, inject, ControlledSession, new_session, Result, ◌then◌,
  release_once, cancel_and_release, cancel, exit_session, inject_text, Next, finished, failed,
  cancelled_event, other_event, stop_iteration, task_cancelled, raised, outcome_of, has_expired,
  is_cancellation, set_reason, next_with_deadline, receive, receive_after, next, Call, cancels,
  exits, injects, nexts, call, run,
}

abbrev pub cancellations : List Effect → ℕ
cancellations [] = 0
cancellations (cancel_runtime ∷ effects) = 1 + cancellations effects
cancellations (_ ∷ effects) = cancellations effects

abbrev pub releases : List Effect → ℕ
releases [] = 0
releases (release ∷ effects) = 1 + releases effects
releases (_ ∷ effects) = releases effects

cancellations-append :
    (es fs : List Effect) → cancellations (es ++ fs) ≡ cancellations es + cancellations fs
cancellations-append [] fs = omega arith
cancellations-append (cancel_runtime ∷ es) fs = omega (arith, cancellations-append es fs)
cancellations-append (release ∷ es) fs = cancellations-append es fs
cancellations-append (inject text ∷ es) fs = cancellations-append es fs

releases-append : (es fs : List Effect) → releases (es ++ fs) ≡ releases es + releases fs
releases-append [] fs = omega arith
releases-append (cancel_runtime ∷ es) fs = releases-append es fs
releases-append (release ∷ es) fs = omega (arith, releases-append es fs)
releases-append (inject text ∷ es) fs = releases-append es fs

abbrev pub once : Bool → ℕ
once done = if done then 1 else 0

-- The effects of a call make up for the change of the flags, a reason that is set stays, and a
-- session that is over is released if it was before.
pub record Accounts (s : ControlledSession) (result : Result) : Type 0 where
  pub cancelled_once : once s.cancel_called + cancellations result.1 ≡ once result.0.cancel_called
  pub released_once : once s.released + releases result.1 ≡ once result.0.released
  pub keeps_reason :
      (r : RequestTerminalReason) → s.terminal_reason ≡ some r → result.0.terminal_reason ≡ some r
  pub keeps_released :
      (s.iteration_terminal ≡ true → s.released ≡ true)
      → result.0.iteration_terminal ≡ true
      → result.0.released ≡ true

Accounts-then :
    (s : ControlledSession) (result : Result) (f : ControlledSession → Result)
    → Accounts s result
    → Accounts result.0 (f result.0)
    → Accounts s (result then f)
Accounts-then s result f h g = record {
  cancelled_once =
      omega
        (arith, cancellations-append result.1 (f result.0).1, h.cancelled_once, g.cancelled_once);
  released_once =
      omega (arith, releases-append result.1 (f result.0).1, h.released_once, g.released_once);
  keeps_reason = λ r e. g.keeps_reason r (h.keeps_reason r e);
  keeps_released = λ k. g.keeps_released (h.keeps_released k);
}

release_once-Accounts : (s : ControlledSession) → Accounts s (release_once s)
unfolding release_once
release_once-Accounts s = ground arith

same-Accounts : (s : ControlledSession) → Accounts s (s, [])
same-Accounts s = ground arith

cancel_and_release-Accounts :
    (reason : RequestTerminalReason) (raises : Bool) (s : ControlledSession)
    → Accounts s (
        cancel_and_release raises
          (record s { terminal_reason = keep_first s.terminal_reason reason }))
unfolding cancel_and_release
cancel_and_release-Accounts reason raises s = ground arith

cancel-Accounts :
    (reason : RequestTerminalReason) (raises : Bool) (s : ControlledSession)
    → Accounts s (cancel reason raises s)
unfolding cancel
cancel-Accounts reason raises s =
    if_elim (Accounts s) (not (is_cancellation reason) || s.iteration_terminal || s.cancel_called)
      (λ _. same-Accounts s) (λ _. cancel_and_release-Accounts reason raises s)

exit_session-Accounts : (raises : Bool) (s : ControlledSession) → Accounts s (exit_session raises s)
unfolding exit_session
exit_session-Accounts raises s =
    if_elim (Accounts s) (not s.iteration_terminal && not s.cancel_called)
      (λ _. cancel-Accounts client_cancelled raises s) (λ _. same-Accounts s)

inject_text-Accounts :
    (text : String) (available : Bool) (s : ControlledSession)
    → Accounts s (inject_text text available s).0
unfolding inject_text
inject_text-Accounts text available s = ground arith

receive-Accounts : (outcome : Next) (s : ControlledSession) → Accounts s (receive outcome s)
unfolding receive
receive-Accounts finished s = ground arith
receive-Accounts failed s = ground arith
receive-Accounts cancelled_event s = ground arith
receive-Accounts other_event s = same-Accounts s
receive-Accounts stop_iteration s = ground arith
receive-Accounts raised s = ground arith
receive-Accounts task_cancelled s = ground arith

next-Accounts :
    (now : ℕ) (late raises : Bool) (outcome : Next) (s : ControlledSession)
    → Accounts s (next now late raises outcome s)
unfolding next next_with_deadline
next-Accounts now late raises outcome s =
    if_elim (Accounts s) s.iteration_terminal (λ _. same-Accounts s)
      λ _.
        if_elim (λ (w : Result × Bool). Accounts s (receive_after w outcome))
          (not s.cancel_called && has_expired now late s.deadline)
          (λ _.
            Accounts-then s (cancel_and_release raises (set_reason timeout s))
              (receive (outcome_of raises outcome)) (cancel_and_release-Accounts timeout raises s)
              (receive-Accounts (outcome_of raises outcome)
                (cancel_and_release raises (set_reason timeout s)).0))
          (λ _.
            Accounts-then s (s, []) (receive outcome) (same-Accounts s)
              (receive-Accounts outcome s))

call-Accounts : (c : Call) (s : ControlledSession) → Accounts s (call c s)
unfolding call
call-Accounts (cancels reason raises) s = cancel-Accounts reason raises s
call-Accounts (exits raises) s = exit_session-Accounts raises s
call-Accounts (injects text available) s = inject_text-Accounts text available s
call-Accounts (nexts now late raises outcome) s = next-Accounts now late raises outcome s

run-Accounts : (cs : List Call) (s : ControlledSession) → Accounts s (run cs s)
unfolding run
run-Accounts [] s = same-Accounts s
run-Accounts (c ∷ cs) s =
    Accounts-then s (call c s) (run cs) (call-Accounts c s) (run-Accounts cs (call c s).0)

-- Over any calls on a new session, in any order and with any answers of the runtime: the runtime is
-- cancelled at most once, and exactly if `_cancel_called` is set; the lease is released at most
-- once, and exactly if `_released` is set; and when the iteration is over it has been released.
pub run-once :
    (injection_allowed : Bool) (deadline : Option ℕ) (cs : List Call)
    → let (s, effects) = run cs (new_session injection_allowed deadline) in
      (cancellations effects ≡ once s.cancel_called)
      × (releases effects ≡ once s.released)
      × (s.iteration_terminal ≡ true → s.released ≡ true)
run-once injection_allowed deadline cs =
    let h = run-Accounts cs (new_session injection_allowed deadline) in
    (omega (arith, h.cancelled_once), omega (arith, h.released_once), h.keeps_released (λ e. cc))

-- The reason for the end of a session that is set first stays, whatever is called afterwards.
pub first_reason_stays :
    (cs : List Call) (s : ControlledSession) (r : RequestTerminalReason)
    → s.terminal_reason ≡ some r
    → (run cs s).0.terminal_reason ≡ some r
first_reason_stays cs s r h = (run-Accounts cs s).keeps_reason r h

-- Any outcome of the wait but an event that is not the last.
abbrev pub is_ending : Next → Bool
is_ending other_event = false
is_ending _ = true

receive-terminal :
    (outcome : Next) (s : ControlledSession)
    → is_ending outcome ≡ true
    → (receive outcome s).0.iteration_terminal ≡ true
unfolding receive
receive-terminal finished s h = ground arith
receive-terminal failed s h = ground arith
receive-terminal cancelled_event s h = ground arith
receive-terminal other_event s h = absurd cc
receive-terminal stop_iteration s h = ground arith
receive-terminal raised s h = ground arith
receive-terminal task_cancelled s h = ground arith

outcome_of-is_ending :
    (raises : Bool) (outcome : Next)
    → is_ending outcome ≡ true
    → is_ending (outcome_of raises outcome) ≡ true
outcome_of-is_ending true outcome h = refl
outcome_of-is_ending false outcome h = h

next-terminal :
    (now : ℕ) (late raises : Bool) (outcome : Next) (s : ControlledSession)
    → is_ending outcome ≡ true
    → (next now late raises outcome s).0.iteration_terminal ≡ true
unfolding next
next-terminal now late raises outcome s h =
    if_elim (λ (r : Result). r.0.iteration_terminal ≡ true) s.iteration_terminal (λ e. e)
      λ _.
        let waited = next_with_deadline now late raises s in
        receive-terminal (outcome_of waited.1 outcome) waited.0.0
          (outcome_of-is_ending waited.1 outcome h)

-- After any calls on a new session, waiting for an event that turns out to be the last, or that
-- ends in an exception, ends the iteration, and the lease has then been released exactly once.
pub ending_releases :
    (injection_allowed : Bool) (deadline : Option ℕ) (cs : List Call) (now : ℕ) (late raises : Bool)
    (outcome : Next)
    → is_ending outcome ≡ true
    → let (s, effects) =
        run cs (new_session injection_allowed deadline) then next now late raises outcome in
      (s.iteration_terminal ≡ true) × (releases effects ≡ 1)
ending_releases injection_allowed deadline cs now late raises outcome h =
    let new = new_session injection_allowed deadline in
    let before = run cs new in
    let account =
      Accounts-then new before (next now late raises outcome) (run-Accounts cs new)
        (next-Accounts now late raises outcome before.0) in
    let over = next-terminal now late raises outcome before.0 h in
    let released = account.keeps_released (λ e. cc) over in
    (over, omega (arith, account.released_once, ap once released))
