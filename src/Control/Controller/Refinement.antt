-- ===== src/Control/Controller/Refinement.antt =====
-- control/request.py: `RequestController` implements a set of slots, one for each request id.
use mathlib.Core.Path.{fun_ext}
use ex_qserve.Base.{
  ℕ, ◌+◌, ◌-◌, ◌<◌, String, Bool, true, false, not, ◌&&◌, ◌||◌, Option, none, some, List, ◌==◌, ◌≡◌,
  ◌⊎◌, refl, ap, arith, if◌then◌else◌, if_elim, leb, nat_eq, is_some, Bool-cases, inl, inr,
}
use ex_qserve.Dict
use ex_qserve.Dict.{Dict, IsUnique, get-set, get-pop}
use ex_qserve.Terminal.{RequestTerminalReason}
use ex_qserve.Control.{RequestControlConfig, RequestRejected, validate_limits}
use ex_qserve.Control.Controller.{
  Controller, new_controller, is_handle, drop_session, is_current, is_released, free_lease,
  release_lease_locked, release_lease_last, end_attempt, release_attempt_of, write,
}
use ex_qserve.Control.Controller.Methods.{
  is_granted, Submitted, RuntimeAnswer, accepted, raised, unavailable, has_passed, acquire,
  start_attempt, submit_in_time, with_deadline, submit_locked, submit_checked, close_locked,
  mark_injected, injected_into, or_same, Op, acquires, submits, ends_attempt, releases, closes,
  injects, step, run,
}
use ex_qserve.Dict.Weight.{total-pop}
use ex_qserve.Control.Controller.Invariant.{IsConsistent, is_handle-eq}
use ex_qserve.Control.Controller.Run.{run-IsConsistent}

-- What a client can tell of the controller: whether it is closed, how many requests are in flight
-- and which ids they have.
pub record Slots : Type 0 where
  pub closed : Bool
  pub count : ℕ
  pub holds : String → Bool

abbrev pub view : Controller → Slots
view c = record {
  closed = c.closed;
  count = c.in_flight;
  holds = λ id. is_some (Dict.get id c.leases_by_request_id);
}

abbrev pub update : String → Bool → (String → Bool) → String → Bool
update id b holds j = if id == j then b else holds j

-- An id gets a slot if the slots are not closed, it has none, and one is free.
abbrev pub take_slot : ℕ → String → Slots → Slots × Bool
take_slot max id s =
    if s.closed || s.holds id || leb max s.count
    then (s, false)
    else (record s { count = s.count + 1; holds = update id true s.holds }, true)

-- A slot that is held is given back.
abbrev pub GivesBack : Slots → Slots → Type 0
GivesBack s t =
    (id : String) × (s.holds id ≡ true)
    × (0 < s.count)
    × (t ≡ record s { count = s.count - 1; holds = update id false s.holds })

-- What each section may do to the slots.
abbrev pub Implements : ℕ → Op → Slots → Slots × Bool → Type 0
Implements max (acquires id now) s (t, granted) = (t, granted) ≡ take_slot max id s
Implements max (submits h prompt output now answer) s (t, granted) = t ≡ s
Implements max (ends_attempt id h final_release) s (t, granted) = (t ≡ s) ⊎ GivesBack s t
Implements max (releases h) s (t, granted) = (t ≡ s) ⊎ GivesBack s t
Implements max (closes reason) s (t, granted) = t ≡ record s { closed = true }
Implements max (injects id) s (t, granted) = t ≡ s

slots_path :
    (closed : Bool) (count : ℕ) (f g : String → Bool)
    → ((id : String) → f id ≡ g id)
    → ◌≡◌ {A = Slots}
        (record { closed = closed; count = count; holds = f })
        (record { closed = closed; count = count; holds = g })
slots_path closed count f g h =
    ap (λ p. record { closed = closed; count = count; holds = p }) (fun_ext h)

and_left : (a b : Bool) → (a && b) ≡ true → a ≡ true
and_left true b e = refl
and_left false b e = cc

current_of : (a b : Bool) → (not a || b) ≡ false → a ≡ true
current_of true b e = refl
current_of false b e = cc

is_current-get :
    (h : ℕ) (c : Controller)
    → is_current h c ≡ true
    → Dict.get (c.lease h).request_id c.leases_by_request_id ≡ some h
is_current-get h c e = is_handle-eq h (Dict.get (c.lease h).request_id c.leases_by_request_id) e

module _ (config : RequestControlConfig) where
  acquire_lem :
      (id : String) (now : ℕ) (c : Controller)
      → ◌≡◌ {A = Slots × Bool}
          (view (acquire config id now c).0, is_granted (acquire config id now c).1)
          (take_slot config.max_in_flight id (view c))
  unfolding acquire
  acquire_lem id now c =
      let d = c.leases_by_request_id in
      elim (Bool-cases c.closed) [
        | inl shut ↦ rw shut refl
        | inr open_ ↦ elim (Bool-cases (is_some (Dict.get id d))) [
          | inl held ↦ rw (open_, held) refl
          | inr free ↦ elim (Bool-cases (leb config.max_in_flight c.in_flight)) [
            | inl full ↦ rw (open_, free, full) refl
            | inr room ↦
                rw (open_, free, room)
                  (ap (λ (s : Slots). (s, true))
                    (slots_path false (c.in_flight + 1)
                      (λ j. is_some (Dict.get j (Dict.set id c.next d)))
                      (update id true (λ j. is_some (Dict.get j d)))
                      (λ j. ground (arith, get-set id j c.next d))))
          ]
        ]
      ]

  drop_session-view :
      (id : String) (s : Option ℕ) (c : Controller) → view (drop_session id s c) ≡ view c
  unfolding drop_session
  drop_session-view id none c = refl
  drop_session-view id (some s) c = refl

  free_lease-view :
      (h : ℕ) (c : Controller)
      → is_some (Dict.get (c.lease h).request_id c.leases_by_request_id) ≡ true
      → 0 < c.in_flight
      → GivesBack (view c) (view (free_lease h c))
  unfolding free_lease
  free_lease-view h c e p = (
    (c.lease h).request_id,
    e,
    p,
    slots_path c.closed (c.in_flight - 1)
        (λ id. is_some (Dict.get id (Dict.pop (c.lease h).request_id c.leases_by_request_id)))
        (update (c.lease h).request_id false (λ id. is_some (Dict.get id c.leases_by_request_id)))
        (λ id. ground (arith, get-pop (c.lease h).request_id id c.leases_by_request_id)),
  )

  drop_session-GivesBack :
      (h : ℕ) (id : String) (s : Option ℕ) (c : Controller)
      → is_current h c ≡ true
      → 0 < c.in_flight
      → GivesBack (view c) (view (free_lease h (drop_session id s c)))
  unfolding drop_session
  drop_session-GivesBack h id none c e p = free_lease-view h c (ap is_some (is_current-get h c e)) p
  drop_session-GivesBack h id (some s) c e p =
      free_lease-view h (drop_session id (some s) c) (ap is_some (is_current-get h c e)) p

  -- A held slot is counted.
  counted_pos :
      (id : String) (h : ℕ) (c : Controller)
      → IsConsistent config c
      → Dict.get id c.leases_by_request_id ≡ some h
      → 0 < c.in_flight
  counted_pos id h c v e =
      omega (arith, v.counted, total-pop (λ _. 1) id h c.leases_by_request_id v.unique e)

  release_lease_locked-view :
      (h : ℕ) (c : Controller)
      → (is_current h c ≡ true → 0 < c.in_flight)
      → (view (release_lease_locked h c) ≡ view c)
        ⊎ GivesBack (view c) (view (release_lease_locked h c))
  unfolding release_lease_locked
  release_lease_locked-view h c p =
      let P = λ (d : Controller). (view d ≡ view c) ⊎ GivesBack (view c) (view d) in
      if_elim P (not (is_current h c) || is_released (c.lease h).state) (λ _. inl refl)
        λ e.
          let current = current_of (is_current h c) (is_released (c.lease h).state) e in
          let id = (c.lease h).request_id in
          inr (drop_session-GivesBack h id (c.lease h).session c current (p current))

  release_lease_last-view :
      (h : ℕ) (c : Controller)
      → IsConsistent config c
      → (view (release_lease_last h c) ≡ view c)
        ⊎ GivesBack (view c) (view (release_lease_last h c))
  unfolding release_lease_last
  release_lease_last-view h c v =
      let P = λ (d : Controller). (view d ≡ view c) ⊎ GivesBack (view c) (view d) in
      if_elim P (is_current h c)
        (λ _.
          release_lease_locked-view h c
            (λ e. counted_pos (c.lease h).request_id h c v (is_current-get h c e)))
        (λ _. inl refl)

  end_attempt-view :
      (id : String) (h s : ℕ) (final_release : Bool) (c : Controller)
      → IsConsistent config c
      → (view (end_attempt id h s final_release c) ≡ view c)
        ⊎ GivesBack (view c) (view (end_attempt id h s final_release c))
  unfolding end_attempt drop_session
  end_attempt-view id h s final_release c v =
      let d = drop_session id (some s) c in
      let l = record (c.lease h) { session = none } in
      let e = record d { lease = write h l d.lease } in
      if_elim (λ (f : Controller). (view f ≡ view c) ⊎ GivesBack (view c) (view f))
        (final_release || e.closed)
        (λ _. release_lease_locked-view h e (λ current.
          counted_pos (e.lease h).request_id h c v
            (is_handle-eq h (Dict.get (e.lease h).request_id c.leases_by_request_id) current)))
        (λ _. inl refl)

  release_attempt_of-view :
      (id : String) (s : ℕ) (final_release : Bool) (c : Controller) (o : Option ℕ)
      → IsConsistent config c
      → (view (release_attempt_of id s final_release c o) ≡ view c)
        ⊎ GivesBack (view c) (view (release_attempt_of id s final_release c o))
  unfolding release_attempt_of
  release_attempt_of-view id s final_release c none v = inl refl
  release_attempt_of-view id s final_release c (some h) v =
      if_elim (λ (d : Controller). (view d ≡ view c) ⊎ GivesBack (view c) (view d))
        (is_handle s (c.lease h).session) (λ _. end_attempt-view id h s final_release c v)
        (λ _. inl refl)

  start_attempt-view :
      (h : ℕ) (c : Controller) (answer : RuntimeAnswer)
      → view (start_attempt config h c answer).0 ≡ view c
  unfolding start_attempt
  start_attempt-view h c accepted = refl
  start_attempt-view h c (unavailable error) = refl
  start_attempt-view h c raised = refl

  submit_locked-view :
      (h now : ℕ) (answer : RuntimeAnswer) (c : Controller)
      → view (submit_locked config h now answer c).0 ≡ view c
  unfolding submit_locked submit_in_time
  submit_locked-view h now answer c =
      let P = λ (r : Controller × Submitted). view r.0 ≡ view c in
      let d = with_deadline config h now c in
      if_elim P c.closed (λ _. refl)
        λ _.
          if_elim P (not (is_current h c) || is_released (c.lease h).state) (λ _. refl)
            λ _.
              if_elim P (is_some (c.lease h).session) (λ _. refl)
                λ _.
                  if_elim P (has_passed now (d.lease h).deadline) (λ _. refl)
                    λ _. start_attempt-view h d answer

  submit_checked-view :
      (h now : ℕ) (answer : RuntimeAnswer) (c : Controller) (o : Option RequestRejected)
      → view (submit_checked config h now answer c o).0 ≡ view c
  unfolding submit_checked
  submit_checked-view h now answer c none = submit_locked-view h now answer c
  submit_checked-view h now answer c (some r) = refl

  close_locked-view :
      (reason : RequestTerminalReason) (c : Controller)
      → view (close_locked reason c).0 ≡ record (view c) { closed = true }
  unfolding close_locked
  close_locked-view reason c =
      if_elim (λ (r : Controller × List ℕ). view r.0 ≡ record (view c) { closed = true })
        (c.closed && nat_eq c.in_flight 0)
        (λ e.
          ap (λ b. record { closed = b; count = c.in_flight; holds = (view c).holds })
            (and_left c.closed (nat_eq c.in_flight 0) e))
        (λ _. refl)

  injected_into-view :
      (id : String) (c : Controller) (o : Option ℕ)
      → view (or_same c (injected_into id c o)) ≡ view c
  unfolding injected_into mark_injected
  injected_into-view id c none = refl
  injected_into-view id c (some s) =
      elim (Dict.get id c.leases_by_request_id) as (λ o. view (mark_injected c o) ≡ view c) [
        | none ↦ refl
        | some h ↦ refl
      ]

  step-Implements :
      (op : Op) (c : Controller)
      → IsConsistent config c
      → Implements config.max_in_flight op
          (view c)
          (view (step config op c).0, (step config op c).1)
  unfolding step
  step-Implements (acquires id now) c v = acquire_lem id now c
  step-Implements (submits h prompt output now answer) c v =
      submit_checked-view h now answer c (validate_limits config prompt output)
  step-Implements (ends_attempt id s final_release) c v =
      release_attempt_of-view id s final_release c (Dict.get id c.leases_by_request_id) v
  step-Implements (releases h) c v = release_lease_last-view h c v
  step-Implements (closes reason) c v = close_locked-view reason c
  step-Implements (injects id) c v = injected_into-view id c (Dict.get id c.sessions_by_request_id)

  -- The controller implements a set of slots: after any sections of any methods, the next one grants
  -- a lease exactly if the slots are not closed, the id has none and one is free, and then the id
  -- takes a slot; the end of an attempt and a release give one held slot back or change nothing;
  -- closing closes the slots; and a submission or an injection leaves the slots alone.
  pub run-Implements :
      (ops : List Op) (op : Op)
      → let c = run config ops new_controller in
        Implements config.max_in_flight op
          (view c)
          (view (step config op c).0, (step config op c).1)
  run-Implements ops op =
      step-Implements op (run config ops new_controller) (run-IsConsistent config ops)
