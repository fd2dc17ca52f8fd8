-- ===== src/Preprocessing/Conservation.antt =====
-- serving/preprocessing.py: the lanes that are available and those that calls and workers have.
use ex_qserve.Base.{
  sym, ◌∙◌, ◌-◌, ℕ, zero, suc, ◌+◌, ◌≤◌, ◌≡◌, refl, true, false, List, [], ◌∷◌, arith, if_elim,
  Bool-cases, inl, inr,
}
use ex_qserve.Preprocessing.{
  RendererLanePool, close, Call, Serving, start, Step, begins, takes, cancels_wait, closes, cancels,
  exits, resumes, begin_run, take_lane, at_call, or_same, with_calls, step, run,
}
use ex_qserve.Preprocessing.Leases.{
  count, leased, working, all_held, working_leased, IsPart, cancel-IsPart, resume-IsPart,
  exit-IsPart, at_call-IsFair, all_held-at_call,
}

-- Of the lanes of the pool at the start: each is as often available or had by a call as it was there
-- while the pool is open; then none is available, and each is had at most as often as it was there.
pub record IsConserved (lanes : List ℕ) (s : Serving) : Type 0 where
  pub kept : s.pool.closed ≡ false → s.pool.lanes ≡ lanes
  pub conserved :
      s.pool.closed ≡ false → (l : ℕ) → count l s.pool.available + leased l s.calls ≡ count l lanes
  pub bounded : (l : ℕ) → leased l s.calls ≤ count l lanes
  pub emptied : s.pool.closed ≡ true → s.pool.available ≡ []
  pub holding : all_held s.calls ≡ true

take-IsConserved :
    (lanes : List ℕ) (n : ℕ) (xs : List ℕ) (s : Serving)
    → s.pool.available ≡ xs
    → IsConserved lanes s
    → IsConserved lanes (take_lane n xs s)
unfolding take_lane
take-IsConserved lanes zero xs s e h = h
take-IsConserved lanes (suc n) [] s e h = h
take-IsConserved lanes (suc n) (x ∷ xs) s e h = elim (Bool-cases s.pool.closed) [
  | inl c ↦ absurd (ground (arith, h.emptied c))
  | inr c ↦ record {
    kept = h.kept;
    conserved = λ d l. ground (arith, h.conserved c l);
    bounded = λ l. ground (arith, h.conserved c l);
    emptied = λ d. ground arith;
    holding = h.holding;
  }
]

part-IsConserved :
    (lanes : List ℕ) (f : Call → RendererLanePool → RendererLanePool × Call) (i : ℕ) (s : Serving)
    → IsPart f
    → IsConserved lanes s
    → IsConserved lanes (with_calls s (at_call f i s.calls s.pool))
part-IsConserved lanes f i s k h =
    let q = at_call-IsFair f k i s.calls s.pool in
    record {
      kept = λ d. q.lanes ∙ h.kept (sym q.closed ∙ d);
      conserved =
          λ d l. omega (arith, q.balance (sym q.closed ∙ d) l, h.conserved (sym q.closed ∙ d) l);
      bounded = λ l. omega (arith, q.fewer l, h.bounded l);
      emptied = λ d. q.emptied (sym q.closed ∙ d) ∙ h.emptied (sym q.closed ∙ d);
      holding = all_held-at_call f k i s.calls s.pool h.holding;
    }

same-IsConserved :
    (lanes : List ℕ) (n : ℕ) (s : Serving)
    → IsConserved lanes s
    → IsConserved lanes (record s { waiting = n })
same-IsConserved lanes n s h = record {
  kept = h.kept;
  conserved = h.conserved;
  bounded = h.bounded;
  emptied = h.emptied;
  holding = h.holding;
}

close-IsConserved :
    (lanes : List ℕ) (s : Serving)
    → IsConserved lanes s
    → IsConserved lanes (record s { pool = close s.pool })
unfolding close
close-IsConserved lanes s h =
    if_elim (λ (p : RendererLanePool). IsConserved lanes (record s { pool = p })) s.pool.closed
      (λ c. record {
        kept = h.kept;
        conserved = h.conserved;
        bounded = h.bounded;
        emptied = h.emptied;
        holding = h.holding;
      })
      (λ c. record {
        kept = λ d. cc;
        conserved = λ d l. cc;
        bounded = h.bounded;
        emptied = λ d. refl;
        holding = h.holding;
      })

step-IsConserved :
    (lanes : List ℕ) (x : Step) (s : Serving) → IsConserved lanes s → IsConserved lanes (step x s)
unfolding step begin_run
step-IsConserved lanes begins s h =
    if_elim (λ o. IsConserved lanes (or_same s o)) s.pool.closed (λ c. h)
      (λ c. same-IsConserved lanes (suc s.waiting) s h)
step-IsConserved lanes takes s h = take-IsConserved lanes s.waiting s.pool.available s refl h
step-IsConserved lanes cancels_wait s h = same-IsConserved lanes (s.waiting - 1) s h
step-IsConserved lanes closes s h = close-IsConserved lanes s h
step-IsConserved lanes (cancels i) s h = part-IsConserved lanes _ i s cancel-IsPart h
step-IsConserved lanes (exits i) s h = part-IsConserved lanes _ i s exit-IsPart h
step-IsConserved lanes (resumes i) s h = part-IsConserved lanes _ i s resume-IsPart h

run_from-IsConserved :
    (lanes : List ℕ) (xs : List Step) (s : Serving)
    → IsConserved lanes s
    → IsConserved lanes (run xs s)
unfolding run
run_from-IsConserved lanes [] s h = h
run_from-IsConserved lanes (x ∷ xs) s h =
    run_from-IsConserved lanes xs (step x s) (step-IsConserved lanes x s h)

available-working :
    (lanes : List ℕ) (s : Serving)
    → IsConserved lanes s
    → (l : ℕ) → count l s.pool.available + working l s.calls ≤ count l lanes
available-working lanes s h l = elim (Bool-cases s.pool.closed) [
  | inl c ↦ rw (h.emptied c) (omega (arith, h.bounded l, working_leased l s.calls h.holding))
  | inr c ↦ omega (arith, h.conserved c l, working_leased l s.calls h.holding)
]

-- Over any calls, cancellations of waiting and of running calls, and ends of workers, in any order:
-- while the pool is open each of its lanes is available or had by a call that has not left `run`, as
-- often as it was given; once it is closed no lane is available, and those that calls have were given;
-- and the lanes that are available and those that workers use are together no more than were given,
-- so a lane given once never serves two workers, and is never available while a worker uses it,
-- even when its caller was cancelled.
pub run-IsConserved :
    (lanes : List ℕ) (xs : List Step)
    → let s = run xs (start lanes) in
      IsConserved lanes s × ((l : ℕ) → count l s.pool.available + working l s.calls ≤ count l lanes)
run-IsConserved lanes xs =
    let h = run_from-IsConserved lanes xs (start lanes) (record {
      kept = λ d. refl;
      conserved = λ d l. omega arith;
      bounded = λ l. omega arith;
      emptied = λ d. cc;
      holding = refl;
    }) in
    (h, available-working lanes (run xs (start lanes)) h)
