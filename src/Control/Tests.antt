-- ===== src/Control/Tests.antt =====
-- Tests of request control, and the theorems at concrete requests.
use ex_qserve.Base.{◌+◌, ◌<◌, arith, ◌≡◌, refl, true, false, none, some, List, [], ◌∷◌}
use ex_qserve.Dict
use ex_qserve.Terminal.{timeout, client_cancelled}
use ex_qserve.Control.{RequestControlConfig, resolved, resolve_output_limit, validate_limits}
use ex_qserve.Control.Limits.{IsWithin, resolve_output_limit_accepted}
use ex_qserve.Control.Session.{
  ControlledSession, new_session, cancel_runtime, release, Call, cancels, nexts, other_event,
  finished, ◌then◌, next, run,
}
use ex_qserve.Control.Session.Once.{
  cancellations, releases, once, run-once, first_reason_stays, ending_releases,
}
use ex_qserve.Control.Controller.{new_controller}
use ex_qserve.Control.Controller.Methods.{
  Op, acquires, submits, ends_attempt, closes, accepted, step,
}
use ex_qserve.Control.Controller.Methods
use ex_qserve.Control.Controller.Invariant.{IsConsistent}
use ex_qserve.Control.Controller.Run.{run-IsConsistent}
use ex_qserve.Control.Controller.Refinement.{view, Implements, run-Implements}

program : Unit {0}
unfolding resolve_output_limit validate_limits run next Methods.run step Dict.get Dict.set Dict.pop
program = tt

abbrev config : RequestControlConfig
config = record {
  max_in_flight = 1;
  max_prompt_tokens = some 100;
  max_output_tokens = some 50;
  max_total_tokens = some 120;
  timeout_seconds = some 30;
}

limit_90 : resolve_output_limit config 90 none ≡ resolved 30
unfolding program
limit_90 = refl

resolve_output_limit_accepted_example :
    (0 < 30)
    × IsWithin (some 50) 30
    × IsWithin (some 120) (90 + 30)
    × (validate_limits config 90 30 ≡ none)
unfolding program
resolve_output_limit_accepted_example =
    resolve_output_limit_accepted config 90 30 refl (omega arith)

-- The deadline passes before the second event; the end of the stream follows.
abbrev calls : List Call
calls =
    nexts 1 false false other_event
    ∷ nexts 5 true false other_event
    ∷ cancels client_cancelled false
    ∷ []

abbrev session : ControlledSession
session = new_session true (some 30)

effects_of_calls : (run calls session).1 ≡ cancel_runtime ∷ release ∷ []
unfolding program
effects_of_calls = refl

reason_after_calls : (run calls session).0.terminal_reason ≡ some timeout
unfolding program
reason_after_calls = refl

run-once_example :
    (cancellations (run calls session).1 ≡ once (run calls session).0.cancel_called)
    × (releases (run calls session).1 ≡ once (run calls session).0.released)
    × ((run calls session).0.iteration_terminal ≡ true → (run calls session).0.released ≡ true)
run-once_example = run-once true (some 30) calls

first_reason_stays_example : (run calls (run calls session).0).0.terminal_reason ≡ some timeout
first_reason_stays_example =
    first_reason_stays calls (run calls session).0 timeout reason_after_calls

ending_releases_example :
    ((run calls session then next 9 false false finished).0.iteration_terminal ≡ true)
    × (releases (run calls session then next 9 false false finished).1 ≡ 1)
ending_releases_example = ending_releases true (some 30) calls 9 false false finished refl

-- "b" is refused while "a" holds the one slot; the final attempt of "a" ends.
abbrev ops : List Op
ops = acquires "a" 0 ∷ acquires "b" 1 ∷ submits 0 90 30 2 accepted ∷ ends_attempt "a" 1 true ∷ []

slot_is_free : (Methods.run config ops new_controller).in_flight ≡ 0
unfolding program
slot_is_free = refl

slot_was_taken :
    (Methods.run config (acquires "a" 0 ∷ acquires "b" 1 ∷ []) new_controller).in_flight ≡ 1
unfolding program
slot_was_taken = refl

run-IsConsistent_example : IsConsistent config (Methods.run config ops new_controller)
run-IsConsistent_example = run-IsConsistent config ops

run-Implements_example :
    Implements 1 (acquires "c" 5) (view (Methods.run config ops new_controller)) (
      view (step config (acquires "c" 5) (Methods.run config ops new_controller)).0,
      (step config (acquires "c" 5) (Methods.run config ops new_controller)).1,
    )
run-Implements_example = run-Implements config ops (acquires "c" 5)
