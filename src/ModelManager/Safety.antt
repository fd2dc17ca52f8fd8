-- ===== src/ModelManager/Safety.antt =====
-- Over any schedule the manager owns at most one runtime, and no submission loses the one it uses.
use ex_qserve.Base.{
  ◌∙◌, ap, sym, ℕ, String, ◌≡◌, refl, Bool, true, false, Option, none, some, List, [], ◌∷◌, nat_eq,
  length, arith, if_elim,
}
use ex_qserve.Dict
use ex_qserve.Dict.{Dict}
use ex_qserve.ModelManager.{
  missing_model, ActiveModelBundle, Manager, Phase, idle, building, closing, draining, tearing,
  acquire_submission_bundle, release_submission_bundle, load, switch, unload, close, bundle_close,
  after_build, section, Section,
}
use ex_qserve.ModelManager.World.{
  World, Step, begin, take_at, discard_runtime, controller_closed, drain_cancelled,
  submissions_drained, runtime_closed, built, step, run, start, acquires, releases, loads, switches,
  unloads, closes, cancels_drain, controller_closes, preprocessing_closes, runtime_closes, builds,
}
use ex_qserve.ModelManager.Ownership.{IsOwned, IsPhase, acquire-IsOwned, release-IsOwned, within}
use ex_qserve.ModelManager.Sections.{
  IsSection, section-IsOwned, load_from-IsSection, switch_from-IsSection, unload_from-IsSection,
  close_from-IsSection, unresolved-IsSection, resolved-IsSection,
}

pub phase_of :
    (w : World) (p : Phase)
    → w.phase ≡ p
    → IsOwned w
    → IsPhase p w.manager.state w.manager.bundle w.runtimes w.leases
phase_of w p e h = rw (sym e) h.phased

begin-IsOwned :
    (f : Manager → Section) (w : World)
    → (IsPhase idle w.manager.state w.manager.bundle w.runtimes w.leases
        → IsSection w.manager w.runtimes w.leases (f w.manager))
    → (p : Phase) → w.phase ≡ p
    → IsOwned w
    → IsOwned (begin p f w)
begin-IsOwned f w q idle e h = section-IsOwned w (f w.manager) h (q (phase_of w _ e h))
begin-IsOwned f w q (building id) e h = h
begin-IsOwned f w q (closing g b) e h = h
begin-IsOwned f w q (draining g b x) e h = h
begin-IsOwned f w q (tearing g b x) e h = h

candidate-IsSection :
    (m : Manager) (rs ls : List ℕ) (o : Option String) (id : String) (s : Section)
    → IsPhase idle m.state m.bundle rs ls
    → IsSection m rs ls s
    → IsSection m rs ls (elim o [ none ↦ section m idle (missing_model id) | some path ↦ s ])
candidate-IsSection m rs ls none id s h q = record {
  phased = h;
  same_count = refl;
  same_quiesced = refl;
}
candidate-IsSection m rs ls (some path) id s h q = q

same_leases-IsOwned :
    (w : World) (p : Phase)
    → IsOwned w
    → IsPhase p w.manager.state w.manager.bundle w.runtimes w.leases
    → IsOwned (record w { phase = p })
same_leases-IsOwned w p h q = record {
  phased = q;
  counted = h.counted;
  quiesced = h.quiesced;
  within_open = h.within_open;
}

controller_closed-IsOwned :
    (failed : Bool) (p : Phase) (w : World)
    → w.phase ≡ p
    → IsOwned w
    → IsOwned (controller_closed failed p w)
unfolding controller_closed
controller_closed-IsOwned failed (closing g b) w e h =
    same_leases-IsOwned w (draining g b failed) h (phase_of w _ e h)
controller_closed-IsOwned failed idle w e h = h
controller_closed-IsOwned failed (building id) w e h = h
controller_closed-IsOwned failed (draining g b x) w e h = h
controller_closed-IsOwned failed (tearing g b x) w e h = h

drain_cancelled-IsOwned :
    (p : Phase) (w : World) → w.phase ≡ p → IsOwned w → IsOwned (drain_cancelled p w)
unfolding drain_cancelled
drain_cancelled-IsOwned (draining g b x) w e h = section-IsOwned w _ h (
    unresolved-IsSection g b w.manager w.runtimes w.leases (phase_of w _ e h).0
      (phase_of w _ e h).1)
drain_cancelled-IsOwned idle w e h = h
drain_cancelled-IsOwned (building id) w e h = h
drain_cancelled-IsOwned (closing g b) w e h = h
drain_cancelled-IsOwned (tearing g b x) w e h = h

no_leases : (n : ℕ) (ls : List ℕ) → n ≡ length ls → nat_eq n 0 ≡ true → ls ≡ []
no_leases n [] e h = refl
no_leases n (l ∷ ls) e h = ground arith

submissions_drained-IsOwned :
    (failed : Bool) (p : Phase) (w : World)
    → w.phase ≡ p
    → IsOwned w
    → IsOwned (submissions_drained failed p w)
unfolding submissions_drained
submissions_drained-IsOwned failed (draining g b x) w e h =
    if_elim IsOwned w.manager.submissions_quiesced
      (λ q.
        if_elim IsOwned failed
          (λ f. section-IsOwned w _ h (
            unresolved-IsSection g b w.manager w.runtimes w.leases (phase_of w _ e h).0
              (phase_of w _ e h).1))
          (λ f. same_leases-IsOwned w (tearing g b x) h (
            (phase_of w _ e h).0,
            (phase_of w _ e h).1,
            no_leases w.manager.active_submissions w.leases h.counted (sym h.quiesced ∙ q),
          )))
      (λ q. h)
submissions_drained-IsOwned failed idle w e h = h
submissions_drained-IsOwned failed (building id) w e h = h
submissions_drained-IsOwned failed (closing g b) w e h = h
submissions_drained-IsOwned failed (tearing g b x) w e h = h

discard_runtime-one : (r : ℕ) → discard_runtime r (r ∷ []) ≡ []
discard_runtime-one r = ground arith

runtime_closed-IsOwned :
    (failed : Bool) (p : Phase) (w : World)
    → w.phase ≡ p
    → IsOwned w
    → IsOwned (runtime_closed failed p w)
unfolding runtime_closed bundle_close
runtime_closed-IsOwned true (tearing g b x) w e h = section-IsOwned w _ h (
    unresolved-IsSection g b w.manager w.runtimes w.leases (phase_of w _ e h).0
      (phase_of w _ e h).1)
runtime_closed-IsOwned false (tearing g b x) w e h =
    let q = phase_of w _ e h in
    let r = resolved-IsSection g b x w.manager w.leases q.0 in
    record {
      phased = rw (q.1, discard_runtime-one b.runtime) r.phased;
      counted = omega (arith, h.counted, r.same_count);
      quiesced = ground (arith, h.quiesced, r.same_count, r.same_quiesced);
      within_open = rw (q.2) refl;
    }
runtime_closed-IsOwned failed idle w e h = h
runtime_closed-IsOwned failed (building id) w e h = h
runtime_closed-IsOwned failed (closing g b) w e h = h
runtime_closed-IsOwned failed (draining g b x) w e h = h

within-nil : (ls rs : List ℕ) → within ls [] ≡ true → within ls rs ≡ true
within-nil [] rs h = refl
within-nil (l ∷ ls) rs h = ground arith

built-IsOwned :
    (o : Option ActiveModelBundle) (p : Phase) (w : World)
    → w.phase ≡ p
    → IsOwned w
    → IsOwned (built o p w)
unfolding built after_build
built-IsOwned none (building id) w e h = record {
  phased = (refl, (phase_of w _ e h).1);
  counted = h.counted;
  quiesced = h.quiesced;
  within_open = h.within_open;
}
built-IsOwned (some b) (building id) w e h = record {
  phased = (refl, ap (λ rs. b.runtime ∷ rs) (phase_of w _ e h).1);
  counted = h.counted;
  quiesced = h.quiesced;
  within_open = within-nil w.leases _ (rw (sym (phase_of w _ e h).1) h.within_open);
}
built-IsOwned o idle w e h = h
built-IsOwned o (closing g b) w e h = h
built-IsOwned o (draining g b x) w e h = h
built-IsOwned o (tearing g b x) w e h = h

pub step-IsOwned : (s : Step) (w : World) → IsOwned w → IsOwned (step s w)
unfolding step acquire_submission_bundle release_submission_bundle load switch unload close
step-IsOwned acquires w h = acquire-IsOwned w.manager.state w.manager.bundle w refl refl h
step-IsOwned (releases i) w h =
    release-IsOwned i w.manager.active_submissions (take_at i w.leases) w refl refl h
step-IsOwned (loads id) w h =
    begin-IsOwned (load id) w
      (λ q.
        candidate-IsSection w.manager _ _ (Dict.get id w.manager.candidates) id _ q
          (load_from-IsSection w.manager _ _ id w.manager.state w.manager.bundle refl refl q))
      w.phase refl h
step-IsOwned (switches id) w h =
    begin-IsOwned (switch id) w
      (λ q.
        candidate-IsSection w.manager _ _ (Dict.get id w.manager.candidates) id _ q
          (switch_from-IsSection w.manager _ _ id w.manager.state w.manager.bundle refl refl q))
      w.phase refl h
step-IsOwned unloads w h =
    begin-IsOwned unload w
      (λ q. unload_from-IsSection w.manager _ _ w.manager.state w.manager.bundle refl refl q)
      w.phase refl h
step-IsOwned closes w h =
    begin-IsOwned close w
      (λ q. close_from-IsSection w.manager _ _ w.manager.state w.manager.bundle refl refl q) w.phase
      refl h
step-IsOwned (controller_closes failed) w h = controller_closed-IsOwned failed w.phase w refl h
step-IsOwned cancels_drain w h = drain_cancelled-IsOwned w.phase w refl h
step-IsOwned (preprocessing_closes failed) w h = submissions_drained-IsOwned failed w.phase w refl h
step-IsOwned (runtime_closes failed) w h = runtime_closed-IsOwned failed w.phase w refl h
step-IsOwned (builds o) w h = built-IsOwned o w.phase w refl h

pub run_from-IsOwned : (ss : List Step) (w : World) → IsOwned w → IsOwned (run ss w)
unfolding run
run_from-IsOwned [] w h = h
run_from-IsOwned (s ∷ ss) w h = run_from-IsOwned ss (step s w) (step-IsOwned s w h)

pub start-IsOwned :
    (candidates : Dict String) (b : ActiveModelBundle) → IsOwned (start candidates b)
start-IsOwned candidates b = record {
  phased = (refl, refl);
  counted = refl;
  quiesced = refl;
  within_open = refl;
}

-- Whatever submissions and transitions do and in whatever order, and whichever of the calls of the
-- controller, the renderers, the runtime and the builder fail: the open runtimes are the one that the
-- manager's bundle or its transition owns, or none, and none while the builder runs; the count of
-- submissions is the number of leases and the event is set exactly when it is zero; each lease is on
-- an open runtime; and no lease is left when the runtime is closed.
pub run-IsOwned :
    (candidates : Dict String) (b : ActiveModelBundle) (ss : List Step)
    → IsOwned (run ss (start candidates b))
run-IsOwned candidates b ss = run_from-IsOwned ss (start candidates b) (start-IsOwned candidates b)
