-- ===== src/Control/Controller/Submission.antt =====
-- control/request.py: submissions and the close keep the invariant of `RequestController`.
use ex_qserve.Base.{
  ℕ, true, false, not, ◌&&◌, ◌||◌, Option, none, some, List, [], ◌∷◌, refl, if_elim, nat_eq,
  is_some,
}
use ex_qserve.Dict.{Dict}
use ex_qserve.Terminal.{RequestTerminalReason, timeout, keep_first}
use ex_qserve.Control.{RequestControlConfig, RequestRejected}
use ex_qserve.Control.Controller.{RequestLease, Controller, write, is_current, is_released, active}
use ex_qserve.Control.Controller.Methods.{
  Submitted, RuntimeAnswer, accepted, raised, unavailable, ensure_deadline, has_passed,
  start_attempt, submit_in_time, with_deadline, submit_locked, submit_checked, terminate_leases,
  close_locked, mark_injected,
}
use ex_qserve.Control.Controller.Invariant.{
  Named, write-Named, more-Named, IsConsistent, rewrite_lease,
}

module _ (config : RequestControlConfig) where
  start_attempt-IsConsistent :
      (h : ℕ) (c : Controller) (answer : RuntimeAnswer)
      → IsConsistent config c
      → IsConsistent config (start_attempt config h c answer).0
  unfolding start_attempt
  start_attempt-IsConsistent h c accepted v =
      let w =
        rewrite_lease config h (record (c.lease h) { state = active; session = some c.next }) c v
          refl (λ _. refl) in
      record {
        unique = w.unique;
        counted = w.counted;
        within = w.within;
        drained_iff = w.drained_iff;
        named =
            more-Named c.leases_by_request_id
              (write h (record (c.lease h) { state = active; session = some c.next }) c.lease)
              c.next w.named;
      }
  start_attempt-IsConsistent h c (unavailable error) v = v
  start_attempt-IsConsistent h c raised v = v

  submit_in_time-IsConsistent :
      (h now : ℕ) (answer : RuntimeAnswer) (c : Controller)
      → IsConsistent config c
      → IsConsistent config (submit_in_time config h now answer c).0
  unfolding submit_in_time
  submit_in_time-IsConsistent h now answer c v =
      if_elim (λ (r : Controller × Submitted). IsConsistent config r.0)
        (has_passed now (c.lease h).deadline)
        (λ _.
          rewrite_lease config h
            (record (c.lease h) {
              terminal_reason = keep_first (c.lease h).terminal_reason timeout;
              terminated = true;
            })
            c v refl (λ r. r))
        (λ _. start_attempt-IsConsistent h c answer v)

  submit_locked-IsConsistent :
      (h now : ℕ) (answer : RuntimeAnswer) (c : Controller)
      → IsConsistent config c
      → IsConsistent config (submit_locked config h now answer c).0
  unfolding submit_locked
  submit_locked-IsConsistent h now answer c v =
      let P = λ (r : Controller × Submitted). IsConsistent config r.0 in
      if_elim P c.closed (λ _. v)
        λ _.
          if_elim P (not (is_current h c) || is_released (c.lease h).state) (λ _. v)
            λ _.
              if_elim P (is_some (c.lease h).session) (λ _. v)
                λ _. submit_in_time-IsConsistent h now answer (with_deadline config h now c) (
                  rewrite_lease config h
                    (record (c.lease h) {
                      deadline = ensure_deadline now config.timeout_seconds (c.lease h).deadline;
                    })
                    c v refl (λ r. r))

  pub submit_checked-IsConsistent :
      (h now : ℕ) (answer : RuntimeAnswer) (c : Controller) (o : Option RequestRejected)
      → IsConsistent config c
      → IsConsistent config (submit_checked config h now answer c o).0
  unfolding submit_checked
  submit_checked-IsConsistent h now answer c none v = submit_locked-IsConsistent h now answer c v
  submit_checked-IsConsistent h now answer c (some r) v = v

  terminate_leases-Named :
      (reason : RequestTerminalReason) (d rest : Dict ℕ) (leases : ℕ → RequestLease) (next : ℕ)
      → Named d leases next
      → Named d (terminate_leases reason rest leases) next
  unfolding terminate_leases
  terminate_leases-Named reason d [] leases next n = n
  terminate_leases-Named reason d ((id, h) ∷ rest) leases next n =
      let l = record (leases h) {
        terminal_reason = keep_first (leases h).terminal_reason reason;
        terminated = true;
      } in
      terminate_leases-Named reason d rest (write h l leases) next
        (write-Named d leases next h l n refl (λ r. r))

  pub close_locked-IsConsistent :
      (reason : RequestTerminalReason) (c : Controller)
      → IsConsistent config c
      → IsConsistent config (close_locked reason c).0
  unfolding close_locked
  close_locked-IsConsistent reason c v =
      if_elim (λ (r : Controller × List ℕ). IsConsistent config r.0)
        (c.closed && nat_eq c.in_flight 0) (λ _. v)
        λ _. record {
          unique = v.unique;
          counted = v.counted;
          within = v.within;
          drained_iff = v.drained_iff;
          named =
              terminate_leases-Named reason c.leases_by_request_id c.leases_by_request_id c.lease
                c.next v.named;
        }

  pub mark_injected-IsConsistent :
      (c : Controller) (o : Option ℕ)
      → IsConsistent config c
      → IsConsistent config (mark_injected c o)
  unfolding mark_injected
  mark_injected-IsConsistent c none v = v
  mark_injected-IsConsistent c (some h) v =
      rewrite_lease config h (record (c.lease h) { replay_safe = false }) c v refl (λ r. r)
