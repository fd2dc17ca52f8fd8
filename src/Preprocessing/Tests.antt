-- ===== src/Preprocessing/Tests.antt =====
-- Tests of the lanes, and the theorem at a concrete schedule.
use ex_qserve.Base.{◌≡◌, ◌≤◌, ◌+◌, ℕ, refl, List, [], ◌∷◌}
use ex_qserve.Preprocessing.{Step, begins, takes, closes, cancels, exits, resumes, start, run}
use ex_qserve.Preprocessing.Leases.{count, working}
use ex_qserve.Preprocessing.Conservation.{IsConserved, run-IsConserved}

program : Unit {0}
unfolding run
program = tt

-- Three calls share two lanes; the first caller is cancelled, and the third call gets its lane only
-- when its worker has come to its end.
abbrev cancelling : List Step
cancelling =
    begins ∷ begins ∷ begins ∷ takes ∷ takes ∷ cancels 1 ∷ resumes 1 ∷ cancels 1 ∷ takes ∷ []

abbrev schedule : List Step
schedule =
    begins
    ∷ begins
    ∷ begins
    ∷ takes
    ∷ takes
    ∷ cancels 1
    ∷ resumes 1
    ∷ takes
    ∷ exits 1
    ∷ resumes 1
    ∷ takes
    ∷ []

still_leased : (run cancelling (start (7 ∷ 8 ∷ []))).pool.available ≡ []
unfolding program
still_leased = refl

both_work : working 7 (run schedule (start (7 ∷ 8 ∷ []))).calls ≡ 1
unfolding program
both_work = refl

closed_after :
    (run (begins ∷ takes ∷ closes ∷ exits 0 ∷ resumes 0 ∷ []) (start (7 ∷ 8 ∷ []))).pool.available
    ≡ []
unfolding program
closed_after = refl

run-IsConserved_example :
    let s = run schedule (start (7 ∷ 8 ∷ [])) in
    IsConserved (7 ∷ 8 ∷ []) s
    × ((l : ℕ) → count l s.pool.available + working l s.calls ≤ count l (7 ∷ 8 ∷ []))
run-IsConserved_example = run-IsConserved (7 ∷ 8 ∷ []) schedule
