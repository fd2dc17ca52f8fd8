-- ===== src/Control/Controller.antt =====
-- control/request.py: `RequestController`. Each section under its lock is one step; a method that
-- waits outside the lock is cut there. Leases and sessions are objects with identity: a handle names
-- one, and `lease` is the heap of leases. The task that trims an idle runtime is left out.
pub mod Methods
pub mod Invariant
pub mod Submission
pub mod Run
pub mod Refinement
use ex_qserve.Base.{
  ℕ, suc, ◌+◌, ◌-◌, String, Bool, true, false, not, ◌&&◌, ◌||◌, Option, none, some, List, [], ◌∷◌,
  if◌then◌else◌, leb, nat_eq, is_some,
}
use ex_qserve.Core.{CanonicalError, invalid_request, context_length, overloaded, runtime_failure}
use ex_qserve.Dict
use ex_qserve.Dict.{Dict}
use ex_qserve.Terminal.{RequestTerminalReason, timeout, keep_first}
use ex_qserve.Control.{
  RequestControlConfig, RequestRejected, rejection, shutting_down, validate_limits,
}

pub data RequestLeaseState : Type 0 where
  reserved active released : RequestLeaseState

pub record RequestLease : Type 0 where
  pub request_id : String
  pub state : RequestLeaseState
  pub session : Option ℕ
  pub deadline : Option ℕ
  pub terminal_reason : Option RequestTerminalReason
  pub terminated : Bool
  pub replay_safe : Bool

-- `next` is the handle of the next object. `sessions` is a set.
pub record Controller : Type 0 where
  pub next : ℕ
  pub lease : ℕ → RequestLease
  pub in_flight : ℕ
  pub closed : Bool
  pub leases_by_request_id : Dict ℕ
  pub sessions : List ℕ
  pub sessions_by_request_id : Dict ℕ
  pub drained : Bool

abbrev pub new_lease : String → Option ℕ → RequestLease
new_lease request_id deadline = record {
  request_id = request_id;
  state = reserved;
  session = none;
  deadline = deadline;
  terminal_reason = none;
  terminated = false;
  replay_safe = true;
}

abbrev pub new_controller : Controller
new_controller = record {
  next = 0;
  lease = λ h. new_lease "" none;
  in_flight = 0;
  closed = false;
  leases_by_request_id = [];
  sessions = [];
  sessions_by_request_id = [];
  drained = true;
}

abbrev pub write : ℕ → RequestLease → (ℕ → RequestLease) → ℕ → RequestLease
write h l leases g = if nat_eq g h then l else leases g

-- sessions.discard(h)
unfoldable pub discard_session : ℕ → List ℕ → List ℕ
discard_session h [] = []
discard_session h (g ∷ gs) =
    let rest = discard_session h gs in if nat_eq g h then rest else g ∷ rest

-- `d.get(id) is h`
abbrev pub is_handle : ℕ → Option ℕ → Bool
is_handle h none = false
is_handle h (some g) = nat_eq g h

-- if d.get(id) is h: del d[id]
unfoldable pub drop_entry : String → ℕ → Dict ℕ → Dict ℕ
drop_entry id h d = if is_handle h (Dict.get id d) then Dict.pop id d else d

abbrev pub is_released : RequestLeaseState → Bool
is_released released = true
is_released _ = false

unfoldable pub drop_session : String → Option ℕ → Controller → Controller
unfolding discard_session drop_entry
drop_session id none c = c
drop_session id (some s) c = record c {
  sessions = discard_session s c.sessions;
  sessions_by_request_id = drop_entry id s c.sessions_by_request_id;
}

-- Whether the lease is the one that its request id names.
abbrev pub is_current : ℕ → Controller → Bool
is_current h c = is_handle h (Dict.get (c.lease h).request_id c.leases_by_request_id)

unfoldable pub free_lease : ℕ → Controller → Controller
free_lease h c = record c {
  leases_by_request_id = Dict.pop (c.lease h).request_id c.leases_by_request_id;
  lease =
      write h (record (c.lease h) { session = none; state = released; terminated = true }) c.lease;
  in_flight = c.in_flight - 1;
  drained = c.drained || nat_eq (c.in_flight - 1) 0;
}

unfoldable pub release_lease_locked : ℕ → Controller → Controller
unfolding drop_session free_lease
release_lease_locked h c =
    if not (is_current h c) || is_released (c.lease h).state
    then c
    else free_lease h (drop_session (c.lease h).request_id (c.lease h).session c)

-- `_release_lease` before it cancels the session: the session to cancel.
unfoldable pub release_lease_first : ℕ → Controller → Option ℕ
release_lease_first h c = if is_current h c then (c.lease h).session else none

-- `_release_lease` after that.
unfoldable pub release_lease_last : ℕ → Controller → Controller
unfolding release_lease_locked
release_lease_last h c = if is_current h c then release_lease_locked h c else c

-- The lease has no session any more, and is released if the attempt was the final one.
unfoldable pub end_attempt : String → ℕ → ℕ → Bool → Controller → Controller
unfolding drop_session release_lease_locked
end_attempt id h s final_release c =
    let d = drop_session id (some s) c in
    let e = record d { lease = write h (record (d.lease h) { session = none }) d.lease } in
    if final_release || e.closed then release_lease_locked h e else e

-- `_release_attempt`, of the session's handle and request id.
unfoldable pub release_attempt_of : String → ℕ → Bool → Controller → Option ℕ → Controller
unfolding end_attempt
release_attempt_of id s final_release c none = c
release_attempt_of id s final_release c (some h) =
    if is_handle s (c.lease h).session then end_attempt id h s final_release c else c

unfoldable pub release_attempt : String → ℕ → Bool → Controller → Controller
unfolding release_attempt_of
release_attempt id s final_release c =
    release_attempt_of id s final_release c (Dict.get id c.leases_by_request_id)
