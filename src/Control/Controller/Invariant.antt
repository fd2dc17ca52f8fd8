-- ===== src/Control/Controller/Invariant.antt =====
-- control/request.py: what `RequestController` keeps to over any interleaving of its sections.
use ex_qserve.Base.{
  ℕ, suc, ◌≤◌, ◌<◌, String, Bool, true, false, not, ◌||◌, Option, none, some, ◌≡◌, refl, arith,
  if_elim, leb, nat_eq, is_some, Bool-cases, inl, inr, eq_iff,
}
use ex_qserve.Dict
use ex_qserve.Dict.{Dict, IsUnique, get-set, get-pop, pop-IsUnique, set-IsUnique}
use ex_qserve.Dict.Weight.{size, total-pop, total-set_new}
use ex_qserve.Control.{RequestControlConfig}
use ex_qserve.Control.Controller.{
  RequestLeaseState, RequestLease, Controller, new_lease, write, is_handle, drop_session,
  is_current, is_released, free_lease, release_lease_locked, release_lease_last, end_attempt,
  release_attempt_of,
}
use ex_qserve.Control.Controller.Methods.{Acquired, deadline_from, acquire}

-- Each lease in the dictionary has the request id under which it stands, is not released, and is an
-- object that exists.
abbrev pub Named : Dict ℕ → (ℕ → RequestLease) → ℕ → Type 0
Named d leases next =
    (id : String) (h : ℕ)
    → Dict.get id d ≡ some h
    → ((leases h).request_id ≡ id) × (is_released (leases h).state ≡ false) × (h < next)

pub write-Named :
    (d : Dict ℕ) (leases : ℕ → RequestLease) (next h : ℕ) (l : RequestLease)
    → Named d leases next
    → l.request_id ≡ (leases h).request_id
    → (is_released (leases h).state ≡ false → is_released l.state ≡ false)
    → Named d (write h l leases) next
write-Named d leases next h l n e s id g p = ground (arith, n id g)

pop-Named :
    (d : Dict ℕ) (leases : ℕ → RequestLease) (next h : ℕ) (l : RequestLease)
    → Named d leases next
    → Named (Dict.pop (leases h).request_id d) (write h l leases) next
pop-Named d leases next h l n id g p =
    ground (arith, n id g, get-pop (leases h).request_id id d, eq_iff (leases h).request_id id)

set-Named :
    (d : Dict ℕ) (leases : ℕ → RequestLease) (next : ℕ) (id : String) (deadline : Option ℕ)
    → Named d leases next
    → Named (Dict.set id next d) (write next (new_lease id deadline) leases) (suc next)
set-Named d leases next id deadline n k g p =
    ground (arith, n k g, get-set id k next d, eq_iff id k)

pub more-Named :
    (d : Dict ℕ) (leases : ℕ → RequestLease) (next : ℕ)
    → Named d leases next
    → Named d leases (suc next)
more-Named d leases next n id g p = ground (arith, n id g)

pub is_handle-eq : (h : ℕ) (o : Option ℕ) → is_handle h o ≡ true → o ≡ some h
is_handle-eq h none e = cc
is_handle-eq h (some g) e = ground arith

drop_session-current :
    (h : ℕ) (id : String) (s : Option ℕ) (c : Controller)
    → is_current h c ≡ true
    → Dict.get ((drop_session id s c).lease h).request_id (drop_session id s c).leases_by_request_id
      ≡ some h
unfolding drop_session
drop_session-current h id none c e =
    is_handle-eq h (Dict.get (c.lease h).request_id c.leases_by_request_id) e
drop_session-current h id (some s) c e =
    is_handle-eq h (Dict.get (c.lease h).request_id c.leases_by_request_id) e

is_some-false {ℓ} : {A : Type ℓ} (o : Option A) → is_some o ≡ false → o ≡ none
is_some-false none e = refl
is_some-false (some a) e = cc

module _ (config : RequestControlConfig) where
  -- The requests in flight are the leases in the dictionary, no more than the maximum, and the
  -- event `drained` is set exactly if there is none.
  pub record IsConsistent (c : Controller) : Type 0 where
    pub unique : IsUnique c.leases_by_request_id
    pub counted : c.in_flight ≡ size c.leases_by_request_id
    pub within : c.in_flight ≤ config.max_in_flight
    pub drained_iff : c.drained ≡ nat_eq c.in_flight 0
    pub named : Named c.leases_by_request_id c.lease c.next

  pub rewrite_lease :
      (h : ℕ) (l : RequestLease) (c : Controller)
      → IsConsistent c
      → l.request_id ≡ (c.lease h).request_id
      → (is_released (c.lease h).state ≡ false → is_released l.state ≡ false)
      → IsConsistent (record c { lease = write h l c.lease })
  rewrite_lease h l c v e s = record {
    unique = v.unique;
    counted = v.counted;
    within = v.within;
    drained_iff = v.drained_iff;
    named = write-Named c.leases_by_request_id c.lease c.next h l v.named e s;
  }

  drop_session-IsConsistent :
      (id : String) (s : Option ℕ) (c : Controller)
      → IsConsistent c
      → IsConsistent (drop_session id s c)
  unfolding drop_session
  drop_session-IsConsistent id none c v = v
  drop_session-IsConsistent id (some s) c v = record {
    unique = v.unique;
    counted = v.counted;
    within = v.within;
    drained_iff = v.drained_iff;
    named = v.named;
  }

  free_lease-IsConsistent :
      (h : ℕ) (c : Controller)
      → IsConsistent c
      → Dict.get (c.lease h).request_id c.leases_by_request_id ≡ some h
      → IsConsistent (free_lease h c)
  unfolding free_lease
  free_lease-IsConsistent h c v e =
      let id = (c.lease h).request_id in
      let d = c.leases_by_request_id in
      let sizes = total-pop (λ _. 1) id h d v.unique e in
      record {
        unique = pop-IsUnique id d v.unique;
        counted = omega (arith, v.counted, sizes);
        within = omega (arith, v.within);
        drained_iff = ground (arith, v.drained_iff, v.counted, sizes);
        named =
            pop-Named d c.lease c.next h
              (record (c.lease h) {
                session = none;
                state = RequestLeaseState.released;
                terminated = true;
              })
              v.named;
      }

  release_lease_locked-IsConsistent :
      (h : ℕ) (c : Controller) → IsConsistent c → IsConsistent (release_lease_locked h c)
  unfolding release_lease_locked
  release_lease_locked-IsConsistent h c v = elim (Bool-cases (is_current h c)) [
    | inr e ↦ rw e v
    | inl e ↦
        if_elim IsConsistent (not (is_current h c) || is_released (c.lease h).state) (λ _. v)
          λ _.
            free_lease-IsConsistent h (drop_session (c.lease h).request_id (c.lease h).session c)
              (drop_session-IsConsistent (c.lease h).request_id (c.lease h).session c v)
              (drop_session-current h (c.lease h).request_id (c.lease h).session c e)
  ]

  pub release_lease_last-IsConsistent :
      (h : ℕ) (c : Controller) → IsConsistent c → IsConsistent (release_lease_last h c)
  unfolding release_lease_last
  release_lease_last-IsConsistent h c v =
      if_elim IsConsistent (is_current h c) (λ _. release_lease_locked-IsConsistent h c v) (λ _. v)

  end_attempt-IsConsistent :
      (id : String) (h s : ℕ) (final_release : Bool) (c : Controller)
      → IsConsistent c
      → IsConsistent (end_attempt id h s final_release c)
  unfolding end_attempt
  end_attempt-IsConsistent id h s final_release c v =
      let d = drop_session id (some s) c in
      let e = record d { lease = write h (record (d.lease h) { session = none }) d.lease } in
      let w =
        rewrite_lease h (record (d.lease h) { session = none }) d
          (drop_session-IsConsistent id (some s) c v) refl (λ r. r) in
      if_elim IsConsistent (final_release || e.closed)
        (λ _. release_lease_locked-IsConsistent h e w) (λ _. w)

  pub release_attempt_of-IsConsistent :
      (id : String) (s : ℕ) (final_release : Bool) (c : Controller) (o : Option ℕ)
      → IsConsistent c
      → IsConsistent (release_attempt_of id s final_release c o)
  unfolding release_attempt_of
  release_attempt_of-IsConsistent id s final_release c none v = v
  release_attempt_of-IsConsistent id s final_release c (some h) v =
      if_elim IsConsistent (is_handle s (c.lease h).session)
        (λ _. end_attempt-IsConsistent id h s final_release c v) (λ _. v)

  pub acquire-IsConsistent :
      (id : String) (now : ℕ) (c : Controller)
      → IsConsistent c
      → IsConsistent (acquire config id now c).0
  unfolding acquire
  acquire-IsConsistent id now c v =
      let P = λ (r : Controller × Acquired). IsConsistent r.0 in
      if_elim P c.closed (λ _. v)
        λ _.
          if_elim P (is_some (Dict.get id c.leases_by_request_id)) (λ _. v)
            λ free.
              if_elim P (leb config.max_in_flight c.in_flight) (λ _. v)
                λ room.
                  let absent = is_some-false (Dict.get id c.leases_by_request_id) free in
                  let sizes = total-set_new (λ _. 1) id c.next c.leases_by_request_id absent in
                  record {
                    unique = set-IsUnique id c.next c.leases_by_request_id v.unique;
                    counted = omega (arith, v.counted, sizes);
                    within = ground arith;
                    drained_iff = ground arith;
                    named =
                        set-Named c.leases_by_request_id c.lease c.next id
                          (deadline_from now config.timeout_seconds) v.named;
                  }
