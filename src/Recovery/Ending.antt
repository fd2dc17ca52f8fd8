-- ===== src/Recovery/Ending.antt =====
-- serving/recovery.py: how the loop over the attempts of a request ends.
use ex_qserve.Base.{
  not, ◌∙◌, ℕ, ◌+◌, ◌-◌, ◌≤◌, ◌≡◌, refl, true, false, ◌||◌, List, [], ◌∷◌, if_elim, length, arith,
  ap, Bool-cases, inl, inr,
}
use ex_qserve.Core.{GenerationEvent}
use ex_qserve.Recovery.{Request}
use ex_qserve.Recovery.Session.{
  Attempt, RecoveringSession, RecoveryAttemptRecord, release_once, cancel, new_session,
}
use ex_qserve.Recovery.Loop.{Round, is_again, is_exception, run_round, run_rounds, run}
use ex_qserve.Recovery.Budget.{
  IsFurther, discards, still, IsFurther-trans, once, IsOnce, release_once-IsFurther,
  cancel-IsFurther,
}
use ex_qserve.Recovery.Rounds.{IsRound}
use ex_qserve.Recovery.Quiet.{any_raises, run_rounds-IsQuiet}
use ex_qserve.Recovery.Finish.{run_round-IsRound, is_done, run_round-is_done}

-- The rounds over these attempts: what they start and discard is within the budget, and with as many
-- attempts as the budget allows they end the request.
record IsRun (budget : ℕ) (attempts : List Attempt) (s : RecoveringSession) (r : Round)
    : Type 0 where
  n : ℕ
  d : ℕ
  further : IsFurther n d s r.session
  discarded_first : n ≤ d
  within_budget : d ≤ (budget + 1) - s.attempt_ordinal
  ends :
      1 ≤ length attempts
      → budget + 2 ≤ length attempts + s.attempt_ordinal
      → (is_again r.outcome ≡ false) × (is_done r ≡ true)

one_round :
    (budget : ℕ) (a : Attempt) (rest : List Attempt) (s : RecoveringSession) (r : Round)
    → IsRound budget s r
    → is_again r.outcome ≡ false
    → is_done r ≡ true
    → IsRun budget (a ∷ rest) s r
one_round budget a rest s r h e f = record {
  n = h.n;
  d = h.d;
  further = h.further;
  discarded_first = h.discarded_first;
  within_budget = omega (arith, h.at_most_one, h.allowed);
  ends = λ k l. (e, f);
}

more_rounds :
    (budget : ℕ) (a : Attempt) (rest : List Attempt) (s : RecoveringSession) (r later : Round)
    (es : List GenerationEvent)
    → IsRound budget s r
    → is_again r.outcome ≡ true
    → IsRun budget rest r.session later
    → IsRun budget (a ∷ rest) s (record later { events = es })
more_rounds budget a rest s r later es h e k =
    let n1 = h.goes_on e in
    let d1 : h.d ≡ 1 = omega (arith, n1, h.discarded_first, h.at_most_one) in
    let w : s.attempt_ordinal ≤ budget = omega (arith, d1, h.allowed) in
    record {
      n = h.n + k.n;
      d = h.d + k.d;
      further =
          IsFurther-trans h.n k.n h.d k.d (h.n + k.n) (h.d + k.d) s r.session later.session refl
            refl h.further k.further;
      discarded_first = omega (arith, h.discarded_first, k.discarded_first);
      within_budget = omega (arith, k.within_budget, h.further.ordinal, n1, d1, w);
      ends = λ x y. k.ends (omega (arith, w)) (omega (arith, h.further.ordinal, n1));
    }

run_rounds-IsRun :
    (request : Request) (attempts : List Attempt) (s : RecoveringSession)
    → IsRun request.max_extra_attempts attempts s (run_rounds request attempts s)
unfolding run_rounds
run_rounds-IsRun request [] s = record {
  n = 0;
  d = 0;
  further = still s s refl refl refl refl refl refl;
  discarded_first = omega arith;
  within_budget = omega arith;
  ends = λ x y. absurd (omega arith);
}
run_rounds-IsRun request (a ∷ rest) s =
    let h = run_round-IsRound request a s in
    elim (Bool-cases (is_again (run_round request a s).outcome)) [
      | inl e ↦
          rw (e, run_rounds)
            (more_rounds request.max_extra_attempts a rest s (run_round request a s)
              (run_rounds request rest (run_round request a s).session) _ h e
              (run_rounds-IsRun request rest (run_round request a s).session))
      | inr e ↦
          rw (e, run_rounds)
            (one_round request.max_extra_attempts a rest s (run_round request a s) h e
              (run_round-is_done request a s e))
    ]

-- The `finally` of a run.
closed-IsFurther :
    (request : Request) (attempts : List Attempt) (s : RecoveringSession)
    → IsFurther 0 0 (run_rounds request attempts s).session (run request attempts s).session
unfolding run
closed-IsFurther request attempts s =
    let r = run_rounds request attempts s in
    if_elim (λ (q : Round). IsFurther 0 0 r.session q.session) (is_again r.outcome)
      (λ e. still r.session r.session refl refl refl refl refl refl)
      (λ e. release_once-IsFurther r.session)

release_once-ends :
    (s : RecoveringSession)
    → ((release_once s).released ≡ true) × ((release_once s).terminal ≡ s.terminal)
unfolding release_once
release_once-ends s =
    if_elim (λ (t : RecoveringSession). (t.released ≡ true) × (t.terminal ≡ s.terminal)) s.released
      (λ e. (e, refl)) (λ e. (refl, refl))

closed_run :
    (request : Request) (attempts : List Attempt) (s : RecoveringSession)
    → is_again (run_rounds request attempts s).outcome ≡ false
    → let r = run_rounds request attempts s in
      let q = run request attempts s in
      (q.outcome ≡ r.outcome)
      × (q.session.terminal ≡ r.session.terminal)
      × (q.session.released ≡ true)
unfolding run
closed_run request attempts s e =
    let k = release_once-ends (run_rounds request attempts s).session in rw e (refl, k.1, k.0)

-- An exception of the loop comes from what it waits for.
exception_raised :
    (request : Request) (attempts : List Attempt) (s : RecoveringSession)
    → (not (is_exception (run_rounds request attempts s).outcome) || any_raises attempts) ≡ true
exception_raised request attempts s = elim (Bool-cases (any_raises attempts)) [
  | inl e ↦ ground arith
  | inr e ↦ ground (arith, run_rounds-IsQuiet request attempts s e)
]

-- A request that has come to an attempt of this ordinal, with that attempt and at least as many more
-- as its budget of extra attempts still allows, whose attempts may raise, whose retries may be
-- refused or raise, and which may be cancelled in any of its waits: the run asks for no further
-- attempt; the session is terminal unless the run ended with an exception, which it does only if
-- something that it waited for may raise; the lease's release was called once; and the run has
-- started, and has given up, at most as many attempts as the budget still allowed.
pub run_ends :
    (request : Request) (ordinal started recoveries : ℕ) (records : List RecoveryAttemptRecord)
    (a : Attempt) (rest : List Attempt)
    → request.max_extra_attempts + 1 ≤ length rest + ordinal
    → let r = run request (a ∷ rest) (new_session ordinal started recoveries records) in
      let allowed = (request.max_extra_attempts + 1) - ordinal in
      (is_again r.outcome ≡ false)
      × ((r.session.terminal || is_exception r.outcome) ≡ true)
      × ((not (is_exception r.outcome) || any_raises (a ∷ rest)) ≡ true)
      × (r.session.lease_releases ≡ 1)
      × (r.session.attempts_started ≤ started + allowed)
      × (discards r.session.attempt_records ≤ discards records + allowed)
run_ends request ordinal started recoveries records a rest h =
    let s = new_session ordinal started recoveries records in
    let k = run_rounds-IsRun request (a ∷ rest) s in
    let e = k.ends (omega arith) (omega (arith, h)) in
    let q = closed_run request (a ∷ rest) s e.0 in
    let f = closed-IsFurther request (a ∷ rest) s in
    (
      rw (q.0) (e.0),
      rw (q.0, q.1) (e.1),
      rw (q.0) (exception_raised request (a ∷ rest) s),
      f.once_kept (k.further.once_kept refl) ∙ ap once q.2,
      omega (arith, f.started, k.further.started, k.discarded_first, k.within_budget),
      omega (arith, f.discarded, k.further.discarded, k.within_budget),
    )

run-IsOnce :
    (request : Request) (attempts : List Attempt) (s : RecoveringSession)
    → IsOnce s
    → IsOnce (run request attempts s).session
run-IsOnce request attempts s h =
    (closed-IsFurther request attempts s).once_kept
      ((run_rounds-IsRun request attempts s).further.once_kept h)

-- The lease's release is called at most once, whether the request is cancelled before or after its
-- attempts run, or both, or while they run, and whether they come to an end.
pub cancel_and_run-IsOnce :
    (request : Request) (attempts : List Attempt) (s : RecoveringSession)
    → IsOnce s
    → IsOnce (cancel (run request attempts s).session)
      × IsOnce (cancel (run request attempts (cancel s)).session)
cancel_and_run-IsOnce request attempts s h = (
  (cancel-IsFurther _).once_kept (run-IsOnce request attempts s h),
  (cancel-IsFurther _).once_kept
      (run-IsOnce request attempts (cancel s) ((cancel-IsFurther s).once_kept h)),
)
