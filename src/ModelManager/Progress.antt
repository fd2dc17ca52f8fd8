-- ===== src/ModelManager/Progress.antt =====
-- Every transition ends once the submissions have and what it waits for has answered.
use ex_qserve.Base.{
  ◌∙◌, ap, ℕ, zero, suc, ◌++◌, ◌≤◌, String, ◌≡◌, refl, Bool, true, Option, none, some, List, [],
  ◌∷◌, length, arith, if_elim,
}
use ex_qserve.Dict.{Dict}
use ex_qserve.ModelManager.{
  ActiveModelBundle, Manager, Goal, to_switch, to_unload, to_close, Phase, idle, building, closing,
  draining, tearing, release_count, release_submission_bundle, bundle_close, after_close,
  after_build, BundleClose, closed_bundle, controller_error, unresolved,
}
use ex_qserve.ModelManager.World.{
  World, Step, released_world, controller_closed, submissions_drained, runtime_closed, built, step,
  run, start, releases, controller_closes, preprocessing_closes, runtime_closes, builds,
}
use ex_qserve.ModelManager.Ownership.{IsOwned}
use ex_qserve.ModelManager.Safety.{step-IsOwned, run-IsOwned, run_from-IsOwned}

abbrev pub times : ℕ → List Step
times zero = []
times (suc n) = releases 0 ∷ times n

-- The controller's close, the ends of so many submissions, the renderers', the runtime's close and the
-- builder, with what each gives.
abbrev pub settling : Bool → ℕ → Bool → Bool → Option ActiveModelBundle → List Step
settling controller_fails n preprocessing_fails runtime_fails o =
    controller_closes controller_fails
    ∷ (times n
        ++ preprocessing_closes preprocessing_fails ∷ runtime_closes runtime_fails ∷ builds o ∷ [])

abbrev rank : Phase → ℕ
rank idle = 0
rank (building id) = 1
rank (tearing g b e) = 2
rank (draining g b e) = 3
rank (closing g b) = 4

rank-after_close :
    (g : Goal) (b : ActiveModelBundle) (r : BundleClose) (m : Manager)
    → rank (after_close g b r m).phase ≤ 1
unfolding after_close
rank-after_close (to_switch id) b closed_bundle m = omega arith
rank-after_close (to_switch id) b controller_error m = omega arith
rank-after_close (to_switch id) b unresolved m = omega arith
rank-after_close to_unload b closed_bundle m = omega arith
rank-after_close to_unload b controller_error m = omega arith
rank-after_close to_unload b unresolved m = omega arith
rank-after_close to_close b closed_bundle m = omega arith
rank-after_close to_close b controller_error m = omega arith
rank-after_close to_close b unresolved m = omega arith

rank-controller_closed :
    (f : Bool) (p : Phase) (w : World) → w.phase ≡ p → rank (controller_closed f p w).phase ≤ 3
unfolding controller_closed
rank-controller_closed f idle w e = rw e (omega arith)
rank-controller_closed f (building id) w e = rw e (omega arith)
rank-controller_closed f (tearing g b x) w e = rw e (omega arith)
rank-controller_closed f (draining g b x) w e = rw e (omega arith)
rank-controller_closed f (closing g b) w e = omega arith

leases-controller_closed :
    (f : Bool) (p : Phase) (w : World) → (controller_closed f p w).leases ≡ w.leases
unfolding controller_closed
leases-controller_closed f idle w = refl
leases-controller_closed f (building id) w = refl
leases-controller_closed f (tearing g b x) w = refl
leases-controller_closed f (draining g b x) w = refl
leases-controller_closed f (closing g b) w = refl

rank-submissions_drained :
    (f : Bool) (p : Phase) (w : World)
    → w.phase ≡ p
    → rank p ≤ 3
    → w.manager.submissions_quiesced ≡ true
    → rank (submissions_drained f p w).phase ≤ 2
unfolding submissions_drained
rank-submissions_drained f idle w e r q = rw e (omega arith)
rank-submissions_drained f (building id) w e r q = rw e (omega arith)
rank-submissions_drained f (tearing g b x) w e r q = rw e (omega arith)
rank-submissions_drained f (draining g b x) w e r q =
    let P = λ (v : World). rank v.phase ≤ 2 in
    if_elim P w.manager.submissions_quiesced
      (λ h.
        if_elim P f (λ h. omega (arith, rank-after_close g b unresolved w.manager))
          (λ h. omega arith))
      (λ h. absurd cc)
rank-submissions_drained f (closing g b) w e r q = absurd (omega arith)

rank-runtime_closed :
    (f : Bool) (p : Phase) (w : World)
    → w.phase ≡ p
    → rank p ≤ 2
    → rank (runtime_closed f p w).phase ≤ 1
unfolding runtime_closed
rank-runtime_closed f idle w e r = rw e (omega arith)
rank-runtime_closed f (building id) w e r = rw e (omega arith)
rank-runtime_closed f (tearing g b x) w e r = rank-after_close g b (bundle_close x f) w.manager
rank-runtime_closed f (draining g b x) w e r = absurd (omega arith)
rank-runtime_closed f (closing g b) w e r = absurd (omega arith)

phase-built :
    (o : Option ActiveModelBundle) (p : Phase) (w : World)
    → w.phase ≡ p
    → rank p ≤ 1
    → (built o p w).phase ≡ idle
unfolding built after_build
phase-built o idle w e r = e
phase-built none (building id) w e r = refl
phase-built (some b) (building id) w e r = refl
phase-built o (tearing g b x) w e r = absurd (omega arith)
phase-built o (draining g b x) w e r = absurd (omega arith)
phase-built o (closing g b) w e r = absurd (omega arith)

release_first :
    (l : ℕ) (ls : List ℕ) (n : ℕ) (w : World)
    → w.leases ≡ l ∷ ls
    → w.manager.active_submissions ≡ suc n
    → ((step (releases 0) w).leases ≡ ls) × ((step (releases 0) w).phase ≡ w.phase)
unfolding step release_submission_bundle released_world release_count
release_first l ls n w e f = rw (e, f) (refl, refl)

release_all :
    (ls : List ℕ) (w : World)
    → IsOwned w
    → w.leases ≡ ls
    → ((run (times (length ls)) w).leases ≡ []) × ((run (times (length ls)) w).phase ≡ w.phase)
unfolding run
release_all [] w h e = (e, refl)
release_all (l ∷ ls) w h e =
    let q = release_first l ls (length ls) w e (h.counted ∙ ap length e) in
    let r = release_all ls (step (releases 0) w) (step-IsOwned (releases 0) w h) q.0 in
    (r.0, r.1 ∙ q.1)

run-append : (ss ts : List Step) (w : World) → run (ss ++ ts) w ≡ run ts (run ss w)
unfolding run
run-append [] ts w = refl
run-append (s ∷ ss) ts w = run-append ss ts (step s w)

finishing :
    (d r : Bool) (o : Option ActiveModelBundle) (w : World)
    → IsOwned w
    → w.leases ≡ []
    → rank w.phase ≤ 3
    → (run (preprocessing_closes d ∷ runtime_closes r ∷ builds o ∷ []) w).phase ≡ idle
unfolding run step
finishing d r o w h e k =
    let u = submissions_drained d w.phase w in
    let v = runtime_closed r u.phase u in
    phase-built o v.phase v refl (
      rank-runtime_closed r u.phase u refl
        (rank-submissions_drained d w.phase w refl k (rw (h.quiesced, h.counted, e) refl)))

-- Whatever a transition has come to, it ends: once the submissions that run have ended and the
-- controller, the renderers, the runtime and the builder have answered, failing or not, no transition
-- is left, so the next one gets the lock.
pub settles :
    (candidates : Dict String) (b : ActiveModelBundle) (ss : List Step)
    (controller_fails preprocessing_fails runtime_fails : Bool) (o : Option ActiveModelBundle)
    → let w = run ss (start candidates b) in
      (run
        (settling controller_fails (length w.leases) preprocessing_fails runtime_fails o)
        w).phase
      ≡ idle
unfolding run step
settles candidates b ss c d r o =
    let w = run ss (start candidates b) in
    let h = run-IsOwned candidates b ss in
    let v = step (controller_closes c) w in
    let hv = step-IsOwned (controller_closes c) w h in
    let k = leases-controller_closed c w.phase w in
    let q = release_all w.leases v hv k in
    let u = run (times (length w.leases)) v in
    rw
      (run-append (times (length w.leases))
        (preprocessing_closes d ∷ runtime_closes r ∷ builds o ∷ []) v)
      (finishing d r o u (run_from-IsOwned (times (length w.leases)) v hv) q.0
        (rw (q.1) (rank-controller_closed c w.phase w refl)))
