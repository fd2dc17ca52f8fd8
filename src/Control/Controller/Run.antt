-- ===== src/Control/Controller/Run.antt =====
-- control/request.py: the invariant of `RequestController` over any interleaving of its sections.
use ex_qserve.Base.{ℕ, String, Option, none, some, List, [], ◌∷◌, refl, arith}
use ex_qserve.Dict
use ex_qserve.Dict.{Dict, IsUnique, get-set, get-pop, pop-IsUnique, set-IsUnique}
use ex_qserve.Control.{RequestControlConfig, validate_limits}
use ex_qserve.Control.Controller.{Controller, new_controller}
use ex_qserve.Control.Controller.Methods.{
  injected_into, or_same, Op, acquires, submits, ends_attempt, releases, closes, injects, step, run,
}
use ex_qserve.Control.Controller.Invariant.{
  IsConsistent, release_lease_last-IsConsistent, release_attempt_of-IsConsistent,
  acquire-IsConsistent,
}
use ex_qserve.Control.Controller.Submission.{
  submit_checked-IsConsistent, close_locked-IsConsistent, mark_injected-IsConsistent,
}

module _ (config : RequestControlConfig) where
  injected_into-IsConsistent :
      (id : String) (c : Controller) (o : Option ℕ)
      → IsConsistent config c
      → IsConsistent config (or_same c (injected_into id c o))
  unfolding injected_into
  injected_into-IsConsistent id c none v = v
  injected_into-IsConsistent id c (some s) v =
      mark_injected-IsConsistent config c (Dict.get id c.leases_by_request_id) v

  pub step-IsConsistent :
      (op : Op) (c : Controller) → IsConsistent config c → IsConsistent config (step config op c).0
  unfolding step
  step-IsConsistent (acquires id now) c v = acquire-IsConsistent config id now c v
  step-IsConsistent (submits h prompt output now answer) c v =
      submit_checked-IsConsistent config h now answer c (validate_limits config prompt output) v
  step-IsConsistent (ends_attempt id s final_release) c v =
      release_attempt_of-IsConsistent config id s final_release c
        (Dict.get id c.leases_by_request_id) v
  step-IsConsistent (releases h) c v = release_lease_last-IsConsistent config h c v
  step-IsConsistent (closes reason) c v = close_locked-IsConsistent config reason c v
  step-IsConsistent (injects id) c v =
      injected_into-IsConsistent id c (Dict.get id c.sessions_by_request_id) v

  run_from-IsConsistent :
      (ops : List Op) (c : Controller)
      → IsConsistent config c
      → IsConsistent config (run config ops c)
  unfolding run
  run_from-IsConsistent [] c v = v
  run_from-IsConsistent (op ∷ ops) c v =
      run_from-IsConsistent ops (step config op c).0 (step-IsConsistent op c v)

  -- After any sections of any methods on a new controller, in any order: each request id has one
  -- lease at most, the requests in flight are counted right and are no more than the configured
  -- maximum, `drained` is set exactly if there is none, and each lease of the dictionary stands
  -- under its own request id and is not released.
  pub run-IsConsistent : (ops : List Op) → IsConsistent config (run config ops new_controller)
  unfolding Dict.get
  run-IsConsistent ops = run_from-IsConsistent ops new_controller (record {
    unique = tt;
    counted = refl;
    within = omega arith;
    drained_iff = refl;
    named = λ id h e. cc;
  })
