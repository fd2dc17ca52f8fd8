-- ===== src/Control/Controller/Methods.antt =====
-- control/request.py: `acquire`, `_submit_reserved`, `close` and `inject_text` of `RequestController`, and
-- its sections as steps.
use ex_qserve.Base.{
  ℕ, suc, ◌+◌, String, Bool, true, false, not, ◌&&◌, ◌||◌, Option, none, some, List, [], ◌∷◌,
  if◌then◌else◌, leb, nat_eq, is_some,
}
use ex_qserve.Core.{CanonicalError, invalid_request, overloaded, runtime_failure}
use ex_qserve.Dict
use ex_qserve.Dict.{Dict}
use ex_qserve.Terminal.{RequestTerminalReason, timeout, keep_first}
use ex_qserve.Control.{
  RequestControlConfig, RequestRejected, rejection, shutting_down, validate_limits,
}
use ex_qserve.Control.Controller.{
  active, RequestLease, Controller, new_lease, write, is_released, is_current, release_lease_last,
  release_attempt,
}

pub data Acquired : Type 0 where
  granted : ℕ → Acquired
  refused : RequestRejected → Acquired

-- How `_submit_reserved` ends: with a session, a rejection, the RuntimeError of a lease that cannot
-- submit, or the error of the setup.
pub data Submitted : Type 0 where
  session : ℕ → Submitted
  rejected : RequestRejected → Submitted
  inactive_lease busy_lease setup_error : Submitted

-- What `runtime.submit` does.
pub data RuntimeAnswer : Type 0 where
  accepted raised : RuntimeAnswer
  unavailable : CanonicalError → RuntimeAnswer

abbrev pub deadline_from : ℕ → Option ℕ → Option ℕ
deadline_from now none = none
deadline_from now (some seconds) = some (now + seconds)

-- if deadline is None and timeout is not None: deadline = now + timeout
abbrev pub ensure_deadline : ℕ → Option ℕ → Option ℕ → Option ℕ
ensure_deadline now seconds none = deadline_from now seconds
ensure_deadline now seconds (some deadline) = some deadline

abbrev pub has_passed : ℕ → Option ℕ → Bool
has_passed now none = false
has_passed now (some deadline) = leb deadline now

module _ (config : RequestControlConfig) where
  unfoldable pub acquire : String → ℕ → Controller → Controller × Acquired
  acquire request_id now c =
      if c.closed
      then (c, refused shutting_down)
      else if is_some (Dict.get request_id c.leases_by_request_id)
      then (
        c,
        refused (
            rejection invalid_request "duplicate_request_id"
              "An active request already uses this request id." false),
      )
      else if leb config.max_in_flight c.in_flight
      then (c, refused (rejection overloaded "server_overloaded" "Server is at capacity." true))
      else (
        record c {
          next = suc c.next;
          lease =
              write c.next (new_lease request_id (deadline_from now config.timeout_seconds))
                c.lease;
          leases_by_request_id = Dict.set request_id c.next c.leases_by_request_id;
          in_flight = c.in_flight + 1;
          drained = false;
        },
        granted c.next,
      )

  unfoldable pub start_attempt : ℕ → Controller → RuntimeAnswer → Controller × Submitted
  start_attempt h c accepted = (
    record c {
      next = suc c.next;
      lease = write h (record (c.lease h) { state = active; session = some c.next }) c.lease;
      sessions = c.next ∷ c.sessions;
      sessions_by_request_id = Dict.set (c.lease h).request_id c.next c.sessions_by_request_id;
    },
    session c.next,
  )
  start_attempt h c (unavailable error) =
      (c, rejected (record { error = error; attempt_started = true }))
  start_attempt h c raised = (c, setup_error)

  abbrev pub request_timeout : RequestRejected
  request_timeout =
      rejection runtime_failure "request_timeout" "Inference request exceeded its serving deadline."
        true

  -- The lease with its deadline, if it is late, is terminated.
  unfoldable pub submit_in_time : ℕ → ℕ → RuntimeAnswer → Controller → Controller × Submitted
  unfolding start_attempt
  submit_in_time h now answer c =
      if has_passed now (c.lease h).deadline
      then (
        record c {
          lease =
              write h
                (record (c.lease h) {
                  terminal_reason = keep_first (c.lease h).terminal_reason timeout;
                  terminated = true;
                })
                c.lease;
        },
        rejected request_timeout,
      )
      else start_attempt h c answer

  abbrev pub with_deadline : ℕ → ℕ → Controller → Controller
  with_deadline h now c = record c {
    lease =
        write h
          (record (c.lease h) {
            deadline = ensure_deadline now config.timeout_seconds (c.lease h).deadline;
          })
          c.lease;
  }

  unfoldable pub submit_locked : ℕ → ℕ → RuntimeAnswer → Controller → Controller × Submitted
  unfolding submit_in_time
  submit_locked h now answer c =
      if c.closed
      then (c, rejected shutting_down)
      else if not (is_current h c) || is_released (c.lease h).state
      then (c, inactive_lease)
      else if is_some (c.lease h).session
      then (c, busy_lease)
      else submit_in_time h now answer (with_deadline h now c)

  unfoldable pub submit_checked :
      ℕ → ℕ → RuntimeAnswer → Controller → Option RequestRejected → Controller × Submitted
  unfolding submit_locked
  submit_checked h now answer c (some rejection) = (c, rejected rejection)
  submit_checked h now answer c none = submit_locked h now answer c

  -- `_submit_reserved` of a request with so many prompt and output tokens.
  unfoldable pub submit_reserved :
      ℕ → ℕ → ℕ → ℕ → RuntimeAnswer → Controller → Controller × Submitted
  unfolding submit_checked validate_limits
  submit_reserved h prompt_count output_count now answer c =
      submit_checked h now answer c (validate_limits config prompt_count output_count)

-- for lease in leases: terminal_reason = reason if it has none; terminated
unfoldable pub terminate_leases :
    RequestTerminalReason → Dict ℕ → (ℕ → RequestLease) → ℕ → RequestLease
terminate_leases reason [] leases = leases
terminate_leases reason ((id, h) ∷ rest) leases = terminate_leases reason rest (
    write h
      (record (leases h) {
        terminal_reason = keep_first (leases h).terminal_reason reason;
        terminated = true;
      })
      leases)

-- The part of `close` under the lock, with the sessions that it cancels then.
unfoldable pub close_locked : RequestTerminalReason → Controller → Controller × List ℕ
unfolding terminate_leases
close_locked reason c = if c.closed && nat_eq c.in_flight 0 then (c, []) else (
  record c { closed = true; lease = terminate_leases reason c.leases_by_request_id c.lease },
  c.sessions,
)

unfoldable pub mark_injected : Controller → Option ℕ → Controller
mark_injected c none = c
mark_injected c (some h) = record c {
  lease = write h (record (c.lease h) { replay_safe = false }) c.lease;
}

-- `inject_text` of a request whose session takes the text.
unfoldable pub injected_into : String → Controller → Option ℕ → Option Controller
unfolding mark_injected
injected_into id c none = none
injected_into id c (some s) = some (mark_injected c (Dict.get id c.leases_by_request_id))

-- One section under the lock, as a call of a method comes to it.
pub data Op : Type 0 where
  acquires : String → ℕ → Op
  submits : ℕ → ℕ → ℕ → ℕ → RuntimeAnswer → Op
  ends_attempt : String → ℕ → Bool → Op
  releases : ℕ → Op
  closes : RequestTerminalReason → Op
  injects : String → Op

abbrev pub is_granted : Acquired → Bool
is_granted (granted h) = true
is_granted (refused r) = false

abbrev pub or_same : Controller → Option Controller → Controller
or_same c none = c
or_same c (some d) = d

module _ (config : RequestControlConfig) where
  -- The controller after the section, and whether a lease was granted in it.
  unfoldable pub step : Op → Controller → Controller × Bool
  unfolding acquire submit_reserved release_attempt release_lease_last close_locked injected_into
  step (acquires id now) c = ((acquire config id now c).0, is_granted (acquire config id now c).1)
  step (submits h prompt output now answer) c =
      ((submit_reserved config h prompt output now answer c).0, false)
  step (ends_attempt id s final_release) c = (release_attempt id s final_release c, false)
  step (releases h) c = (release_lease_last h c, false)
  step (closes reason) c = ((close_locked reason c).0, false)
  step (injects id) c =
      (or_same c (injected_into id c (Dict.get id c.sessions_by_request_id)), false)

  unfoldable pub run : List Op → Controller → Controller
  unfolding step
  run [] c = c
  run (op ∷ ops) c = run ops (step op c).0
