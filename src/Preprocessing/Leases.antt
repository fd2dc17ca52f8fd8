-- ===== src/Preprocessing/Leases.antt =====
-- serving/preprocessing.py: the leases of lanes, over what happens at a call.
use mathlib.Core.Bool.{false≢true}
use ex_qserve.Base.{
  sym, ◌∙◌, ℕ, zero, suc, ◌+◌, ◌≤◌, ◌≡◌, refl, Bool, true, false, not, ◌||◌, ◌&&◌, List, [], ◌∷◌,
  ◌++◌, if◌then◌else◌, nat_eq, arith, if_elim,
}
use ex_qserve.Preprocessing.{
  RendererLanePool, give_back, Caller, awaiting, terminating, left, Call, leave, cancel_run,
  resume_run, exit_worker, at_call,
}

-- How often a lane is in a list.
abbrev pub count : ℕ → List ℕ → ℕ
count l [] = 0
count l (x ∷ xs) = (if nat_eq x l then 1 else 0) + count l xs

count-append : (l : ℕ) (xs ys : List ℕ) → count l (xs ++ ys) ≡ count l xs + count l ys
count-append l [] ys = omega arith
count-append l (x ∷ xs) ys = omega (arith, count-append l xs ys)

-- The call has not left `run`.
abbrev inside : Caller → Bool
inside awaiting = true
inside terminating = true
inside left = false

abbrev lease : ℕ → Call → ℕ
lease l c = if inside c.caller && nat_eq c.lane l then 1 else 0

-- How many calls have the lane.
abbrev pub leased : ℕ → List Call → ℕ
leased l [] = 0
leased l (c ∷ cs) = lease l c + leased l cs

-- How many workers use the lane.
abbrev pub working : ℕ → List Call → ℕ
working l [] = 0
working l (c ∷ cs) = (if c.working && nat_eq c.lane l then 1 else 0) + working l cs

-- A worker's call is not over.
abbrev held : Call → Bool
held c = inside c.caller || not c.working

abbrev pub all_held : List Call → Bool
all_held [] = true
all_held (c ∷ cs) = held c && all_held cs

pub working_leased : (l : ℕ) (cs : List Call) → all_held cs ≡ true → working l cs ≤ leased l cs
working_leased l [] h = omega arith
working_leased l (c ∷ cs) h = ground (arith, working_leased l cs)

-- What happens at one call, or at a list of them with so many leases of each lane.
pub record IsFair (before after : ℕ → ℕ) (p q : RendererLanePool) : Type 0 where
  pub closed : q.closed ≡ p.closed
  pub lanes : q.lanes ≡ p.lanes
  pub balance :
      p.closed ≡ false → (l : ℕ) → count l q.available + after l ≡ count l p.available + before l
  pub fewer : (l : ℕ) → after l ≤ before l
  pub emptied : p.closed ≡ true → q.available ≡ p.available

pub idle-IsFair :
    (before after : ℕ → ℕ) (p : RendererLanePool)
    → ((l : ℕ) → after l ≡ before l)
    → IsFair before after p p
idle-IsFair before after p e = record {
  closed = refl;
  lanes = refl;
  balance = λ c l. omega (arith, e l);
  fewer = λ l. omega (arith, e l);
  emptied = λ c. refl;
}

leave-IsFair :
    (c : Call) (p : RendererLanePool)
    → inside c.caller ≡ true
    → IsFair (λ l. lease l c) (λ l. lease l (leave c p).1) p (leave c p).0
unfolding leave give_back
leave-IsFair c p h =
    if_elim (IsFair (λ l. lease l c) (λ l. 0) p) p.closed
      (λ e. record {
        closed = refl;
        lanes = refl;
        balance = λ d l. absurd (false≢true (sym d ∙ e));
        fewer = λ l. omega arith;
        emptied = λ d. refl;
      })
      (λ e. record {
        closed = refl;
        lanes = refl;
        balance = λ d l. ground (arith, count-append l p.available (c.lane ∷ []));
        fewer = λ l. omega arith;
        emptied = λ d. absurd (false≢true (sym e ∙ d));
      })

-- A part of `run` at one call.
pub record IsPart (f : Call → RendererLanePool → RendererLanePool × Call) : Type 0 where
  pub fair :
      (c : Call) (p : RendererLanePool)
      → IsFair (λ l. lease l c) (λ l. lease l (f c p).1) p (f c p).0
  pub holds : (c : Call) (p : RendererLanePool) → held c ≡ true → held (f c p).1 ≡ true

cancel-IsFair :
    (o : Caller) (c : Call) (p : RendererLanePool)
    → c.caller ≡ o
    → IsFair (λ l. lease l c) (λ l. lease l (cancel_run o c p).1) p (cancel_run o c p).0
unfolding cancel_run
cancel-IsFair awaiting c p e = idle-IsFair _ _ p (λ l. rw e refl)
cancel-IsFair terminating c p e = idle-IsFair _ _ p (λ l. refl)
cancel-IsFair left c p e = idle-IsFair _ _ p (λ l. refl)

cancel-holds :
    (o : Caller) (c : Call) (p : RendererLanePool)
    → held c ≡ true
    → held (cancel_run o c p).1 ≡ true
unfolding cancel_run
cancel-holds awaiting c p h = refl
cancel-holds terminating c p h = h
cancel-holds left c p h = h

resume-IsFair :
    (o : Caller) (c : Call) (p : RendererLanePool)
    → c.caller ≡ o
    → IsFair (λ l. lease l c) (λ l. lease l (resume_run o c p).1) p (resume_run o c p).0
unfolding resume_run
resume-IsFair awaiting c p e =
    if_elim (λ (q : RendererLanePool × Call). IsFair (λ l. lease l c) (λ l. lease l q.1) p q.0)
      c.working (λ w. idle-IsFair _ _ p (λ l. refl)) (λ w. leave-IsFair c p (rw e refl))
resume-IsFair terminating c p e =
    if_elim (λ (q : RendererLanePool × Call). IsFair (λ l. lease l c) (λ l. lease l q.1) p q.0)
      c.working (λ w. idle-IsFair _ _ p (λ l. refl)) (λ w. leave-IsFair c p (rw e refl))
resume-IsFair left c p e = idle-IsFair _ _ p (λ l. refl)

resume-holds :
    (o : Caller) (c : Call) (p : RendererLanePool)
    → held c ≡ true
    → held (resume_run o c p).1 ≡ true
unfolding resume_run leave
resume-holds awaiting c p h = ground arith
resume-holds terminating c p h = ground arith
resume-holds left c p h = h

pub cancel-IsPart : IsPart (λ c. cancel_run c.caller c)
cancel-IsPart = record {
  fair = λ c p. cancel-IsFair c.caller c p refl;
  holds = λ c p h. cancel-holds c.caller c p h;
}

pub resume-IsPart : IsPart (λ c. resume_run c.caller c)
resume-IsPart = record {
  fair = λ c p. resume-IsFair c.caller c p refl;
  holds = λ c p h. resume-holds c.caller c p h;
}

pub exit-IsPart : IsPart exit_worker
unfolding exit_worker
exit-IsPart = record { fair = λ c p. idle-IsFair _ _ p (λ l. refl); holds = λ c p h. ground arith }

module _ (f : Call → RendererLanePool → RendererLanePool × Call) (h : IsPart f) where
  pub at_call-IsFair :
      (i : ℕ) (cs : List Call) (p : RendererLanePool)
      → IsFair (λ l. leased l cs) (λ l. leased l (at_call f i cs p).1) p (at_call f i cs p).0
  unfolding at_call
  at_call-IsFair i [] p = idle-IsFair _ _ p (λ l. refl)
  at_call-IsFair zero (c ∷ cs) p =
      let k = h.fair c p in
      record {
        closed = k.closed;
        lanes = k.lanes;
        balance = λ d l. omega (arith, k.balance d l);
        fewer = λ l. omega (arith, k.fewer l);
        emptied = k.emptied;
      }
  at_call-IsFair (suc i) (c ∷ cs) p =
      let k = at_call-IsFair i cs p in
      record {
        closed = k.closed;
        lanes = k.lanes;
        balance = λ d l. omega (arith, k.balance d l);
        fewer = λ l. omega (arith, k.fewer l);
        emptied = k.emptied;
      }

  pub all_held-at_call :
      (i : ℕ) (cs : List Call) (p : RendererLanePool)
      → all_held cs ≡ true
      → all_held (at_call f i cs p).1 ≡ true
  unfolding at_call
  all_held-at_call i [] p e = refl
  all_held-at_call zero (c ∷ cs) p e = ground (arith, h.holds c p)
  all_held-at_call (suc i) (c ∷ cs) p e = ground (arith, all_held-at_call i cs p)
