-- ===== src/Control/Session.antt =====
-- control/request.py: `ControlledSession`, the lifecycle wrapper of one runtime session. A method
-- gives the new fields with the calls that it makes outside; what the runtime answers is an input.
pub mod Once
use ex_qserve.Base.{
  ℕ, String, Bool, true, false, not, ◌&&◌, ◌||◌, Option, none, some, List, [], ◌∷◌, ◌++◌,
  if◌then◌else◌, leb,
}
use ex_qserve.Terminal.{
  RequestTerminalReason, completed, runtime_failed, runtime_cancelled, client_cancelled,
  application_cancelled, timeout, server_shutdown, model_switch, keep_first,
}

-- `cancel_runtime` is `runtime_session.cancel()`, `release` the controller's callback, and
-- `inject` the runtime's `inject_text`.
pub data Effect : Type 0 where
  cancel_runtime release : Effect
  inject : String → Effect

pub record ControlledSession : Type 0 where
  pub injection_allowed : Bool
  pub deadline : Option ℕ
  pub released : Bool
  pub cancel_called : Bool
  pub iteration_terminal : Bool
  pub terminal_reason : Option RequestTerminalReason

abbrev pub new_session : Bool → Option ℕ → ControlledSession
new_session injection_allowed deadline = record {
  injection_allowed = injection_allowed;
  deadline = deadline;
  released = false;
  cancel_called = false;
  iteration_terminal = false;
  terminal_reason = none;
}

abbrev pub Result : Type 0
Result = ControlledSession × List Effect

infixl 5 ◌then◌
abbrev pub ◌then◌ : Result → (ControlledSession → Result) → Result
◌then◌ (s, effects) f = let (t, more) = f s in (t, effects ++ more)

unfoldable pub release_once : ControlledSession → Result
release_once s = if s.released then (s, []) else (record s { released = true }, release ∷ [])

unfoldable pub cancel_runtime_once : ControlledSession → Result
cancel_runtime_once s =
    if s.cancel_called then (s, []) else (record s { cancel_called = true }, cancel_runtime ∷ [])

abbrev pub set_reason : RequestTerminalReason → ControlledSession → ControlledSession
set_reason reason s = record s { terminal_reason = keep_first s.terminal_reason reason }

abbrev pub end_iteration : ControlledSession → ControlledSession
end_iteration s = record s { iteration_terminal = true }

-- The reasons that `cancel` allows.
abbrev pub is_cancellation : RequestTerminalReason → Bool
is_cancellation client_cancelled = true
is_cancellation application_cancelled = true
is_cancellation timeout = true
is_cancellation server_shutdown = true
is_cancellation model_switch = true
is_cancellation _ = false

-- The runtime's cancellation, and the release unless it raised.
unfoldable pub cancel_and_release : Bool → ControlledSession → Result
unfolding release_once cancel_runtime_once
cancel_and_release raises s =
    if raises then cancel_runtime_once s else (cancel_runtime_once s then release_once)

-- `raises` tells whether the runtime's cancellation raises here.
unfoldable pub cancel : RequestTerminalReason → Bool → ControlledSession → Result
unfolding cancel_and_release
cancel reason raises s =
    if not (is_cancellation reason) || s.iteration_terminal || s.cancel_called
    then (s, [])
    else cancel_and_release raises (set_reason reason s)

-- `__aexit__`
unfoldable pub exit_session : Bool → ControlledSession → Result
unfolding cancel
exit_session raises s =
    if not s.iteration_terminal && not s.cancel_called
    then cancel client_cancelled raises s
    else (s, [])

-- How `inject_text` of a text that is not empty ends.
pub data Injected : Type 0 where
  injected conflict terminating : Injected

-- `available` tells whether the runtime still takes the text.
unfoldable pub inject_text : String → Bool → ControlledSession → Result × Injected
inject_text text available s =
    if not s.injection_allowed
    then ((s, []), conflict)
    else if s.iteration_terminal || s.cancel_called || s.released
    then ((s, []), terminating)
    else ((s, inject text ∷ []), if available then injected else terminating)

-- What waiting for the runtime's next event gives: one of its last events, any other event, or an
-- exception.
pub data Next : Type 0 where
  finished failed cancelled_event other_event stop_iteration task_cancelled raised : Next

abbrev pub has_expired : ℕ → Bool → Option ℕ → Bool
has_expired now late none = false
has_expired now late (some deadline) = leb deadline now || late

abbrev pub outcome_of : Bool → Next → Next
outcome_of true outcome = raised
outcome_of false outcome = outcome

-- `_next_with_deadline`, up to the event that it returns. `late` tells whether the deadline comes
-- before the event.
unfoldable pub next_with_deadline : ℕ → Bool → Bool → ControlledSession → Result × Bool
unfolding cancel_and_release
next_with_deadline now late raises s =
    if not s.cancel_called && has_expired now late s.deadline
    then (cancel_and_release raises (set_reason timeout s), raises)
    else ((s, []), false)

abbrev pub finish : RequestTerminalReason → ControlledSession → Result
finish reason s = release_once (end_iteration (set_reason reason s))

-- What `__anext__` does with the outcome of the wait.
unfoldable pub receive : Next → ControlledSession → Result
unfolding release_once cancel_runtime_once
receive finished s = finish completed s
receive failed s = finish runtime_failed s
receive cancelled_event s = finish runtime_cancelled s
receive other_event s = (s, [])
receive stop_iteration s = release_once (end_iteration s)
receive raised s = release_once (end_iteration s)
receive task_cancelled s =
    cancel_runtime_once (end_iteration (set_reason client_cancelled s)) then release_once

abbrev pub receive_after : Result × Bool → Next → Result
receive_after (result, raises) outcome = result then receive (outcome_of raises outcome)

-- `__anext__`
unfoldable pub next : ℕ → Bool → Bool → Next → ControlledSession → Result
unfolding next_with_deadline receive
next now late raises outcome s =
    if s.iteration_terminal
    then (s, [])
    else receive_after (next_with_deadline now late raises s) outcome

-- A call of a method.
pub data Call : Type 0 where
  cancels : RequestTerminalReason → Bool → Call
  exits : Bool → Call
  injects : String → Bool → Call
  nexts : ℕ → Bool → Bool → Next → Call

unfoldable pub call : Call → ControlledSession → Result
unfolding cancel exit_session inject_text next
call (cancels reason raises) s = cancel reason raises s
call (exits raises) s = exit_session raises s
call (injects text available) s = (inject_text text available s).0
call (nexts now late raises outcome) s = next now late raises outcome s

unfoldable pub run : List Call → ControlledSession → Result
unfolding call
run [] s = (s, [])
run (c ∷ cs) s = call c s then run cs
