-- ===== src/ModelManager/Finality.antt =====
-- server/model_manager.py: a manager that was closed.
use mathlib.Core.Bool.{false≢true}
use mathlib.Core.Path.{subst}
use ex_qserve.Base.{
  ◌∙◌, ℕ, zero, suc, String, ◌≡◌, refl, Bool, true, false, Option, none, some, List, [], ◌∷◌, arith,
  if_elim,
}
use ex_qserve.Dict
use ex_qserve.Dict.{Dict}
use ex_qserve.ModelManager.{
  not_ready, model_not_ready, missing_model, ActiveModelBundle, ModelManagerState, ready, loading,
  switching, unloading, unloaded, error, closed, Manager, Goal, to_switch, to_unload, to_close,
  Phase, idle, building, closing, draining, tearing, acquire_from, acquire_submission_bundle,
  release_count, release_submission_bundle, load, load_from, switch, switch_from, unload,
  unload_from, close, close_from, bundle_close, after_close, after_build, section, Section,
  BundleClose, closed_bundle, controller_error, unresolved,
}
use ex_qserve.ModelManager.World.{
  World, Step, begin, leased_world, released_world, take_at, controller_closed, drain_cancelled,
  submissions_drained, runtime_closed, built, step, run, start, acquires, releases, loads, switches,
  unloads, closes, cancels_drain, controller_closes, preprocessing_closes, runtime_closes, builds,
}
use ex_qserve.ModelManager.Ownership.{IsOwned, IsClosing, is_building}
use ex_qserve.ModelManager.Safety.{step-IsOwned, phase_of, run-IsOwned}

candidate_state :
    (m : Manager) (o : Option String) (id : String) (s : Section)
    → s.manager.state ≡ m.state
    → (elim o as (λ _. Section) [
      | none ↦ section m idle (missing_model id)
      | some path ↦ s
    ]).manager.state
      ≡ m.state
candidate_state m none id s e = refl
candidate_state m (some path) id s e = e

begin_state :
    (p : Phase) (f : Manager → Section) (w : World)
    → (f w.manager).manager.state ≡ w.manager.state
    → (begin p f w).manager.state ≡ w.manager.state
begin_state idle f w e = e
begin_state (building id) f w e = refl
begin_state (closing g b) f w e = refl
begin_state (draining g b x) f w e = refl
begin_state (tearing g b x) f w e = refl

not_building : (o : Option ActiveModelBundle) → is_building closed o ≡ true → false ≡ true
not_building none h = h
not_building (some b) h = h

module _ (w : World) (c : w.manager.state ≡ closed) where
  acquire_closed :
      (s : ModelManagerState) (o : Option ActiveModelBundle)
      → s ≡ closed
      → (leased_world w (acquire_from s o w.manager)).manager.state ≡ closed
  unfolding leased_world acquire_from
  acquire_closed closed o e = c
  acquire_closed ready o e = ground arith
  acquire_closed loading o e = ground arith
  acquire_closed switching o e = ground arith
  acquire_closed unloading o e = ground arith
  acquire_closed unloaded o e = ground arith
  acquire_closed error o e = ground arith

  release_closed :
      (o : Option (List ℕ)) (n : ℕ)
      → (released_world o w (release_count n w.manager)).manager.state ≡ closed
  unfolding released_world release_count
  release_closed none n = c
  release_closed (some ls) zero = c
  release_closed (some ls) (suc n) = c

  -- A bundle of a closed manager is closed for the close.
  after_close_closed :
      (g : Goal) (b : ActiveModelBundle) (r : BundleClose) (o : Option ActiveModelBundle)
      → IsClosing g b w.manager.state o
      → (after_close g b r w.manager).manager.state ≡ closed
  unfolding after_close
  after_close_closed (to_switch id) b r o h = ground (arith, c, h.0)
  after_close_closed to_unload b r o h = ground (arith, c, h.0)
  after_close_closed to_close b closed_bundle o h = c
  after_close_closed to_close b controller_error o h = c
  after_close_closed to_close b unresolved o h = c

  controller_closed_closed :
      (failed : Bool) (p : Phase) → (controller_closed failed p w).manager.state ≡ closed
  unfolding controller_closed
  controller_closed_closed failed idle = c
  controller_closed_closed failed (building id) = c
  controller_closed_closed failed (closing g b) = c
  controller_closed_closed failed (draining g b x) = c
  controller_closed_closed failed (tearing g b x) = c

  drain_cancelled_closed :
      IsOwned w → (p : Phase) → w.phase ≡ p → (drain_cancelled p w).manager.state ≡ closed
  unfolding drain_cancelled
  drain_cancelled_closed h (draining g b x) e =
      after_close_closed g b unresolved _ (phase_of w _ e h).0
  drain_cancelled_closed h idle e = c
  drain_cancelled_closed h (building id) e = c
  drain_cancelled_closed h (closing g b) e = c
  drain_cancelled_closed h (tearing g b x) e = c

  submissions_drained_closed :
      IsOwned w
      → (failed : Bool) → (p : Phase) → w.phase ≡ p
      → (submissions_drained failed p w).manager.state ≡ closed
  unfolding submissions_drained
  submissions_drained_closed h failed (draining g b x) e =
      let P = λ (v : World). v.manager.state ≡ closed in
      if_elim P w.manager.submissions_quiesced
        (λ q.
          if_elim P failed (λ f. after_close_closed g b unresolved _ (phase_of w _ e h).0) (λ f. c))
        (λ q. c)
  submissions_drained_closed h failed idle e = c
  submissions_drained_closed h failed (building id) e = c
  submissions_drained_closed h failed (closing g b) e = c
  submissions_drained_closed h failed (tearing g b x) e = c

  runtime_closed_closed :
      IsOwned w
      → (failed : Bool) → (p : Phase) → w.phase ≡ p
      → (runtime_closed failed p w).manager.state ≡ closed
  unfolding runtime_closed
  runtime_closed_closed h failed (tearing g b x) e =
      after_close_closed g b (bundle_close x failed) _ (phase_of w _ e h).0
  runtime_closed_closed h failed idle e = c
  runtime_closed_closed h failed (building id) e = c
  runtime_closed_closed h failed (closing g b) e = c
  runtime_closed_closed h failed (draining g b x) e = c

  built_closed :
      IsOwned w
      → (o : Option ActiveModelBundle) → (p : Phase) → w.phase ≡ p
      → (built o p w).manager.state ≡ closed
  unfolding built after_build
  built_closed h o (building id) e = absurd (
      false≢true (
        not_building w.manager.bundle
          (subst (λ t. is_building t w.manager.bundle ≡ true) c (phase_of w _ e h).0)))
  built_closed h o idle e = c
  built_closed h o (closing g b) e = c
  built_closed h o (draining g b x) e = c
  built_closed h o (tearing g b x) e = c

  begins_closed :
      (f : Manager → Section)
      → (f w.manager).manager.state ≡ w.manager.state
      → (begin w.phase f w).manager.state ≡ closed
  begins_closed f e = begin_state w.phase f w e ∙ c

  step_closed : (s : Step) → IsOwned w → (step s w).manager.state ≡ closed
  unfolding step acquire_submission_bundle release_submission_bundle load switch unload close
      load_from switch_from unload_from close_from
  step_closed acquires h = acquire_closed w.manager.state w.manager.bundle c
  step_closed (releases i) h = release_closed (take_at i w.leases) w.manager.active_submissions
  step_closed (loads id) h =
      begins_closed (load id)
        (candidate_state w.manager (Dict.get id w.manager.candidates) id _ (rw c refl))
  step_closed (switches id) h =
      begins_closed (switch id)
        (candidate_state w.manager (Dict.get id w.manager.candidates) id _ (rw c refl))
  step_closed unloads h = begins_closed unload (rw c refl)
  step_closed closes h = begins_closed close (rw c refl)
  step_closed (controller_closes failed) h = controller_closed_closed failed w.phase
  step_closed cancels_drain h = drain_cancelled_closed h w.phase refl
  step_closed (preprocessing_closes failed) h = submissions_drained_closed h failed w.phase refl
  step_closed (runtime_closes failed) h = runtime_closed_closed h failed w.phase refl
  step_closed (builds o) h = built_closed h o w.phase refl

stays_closed :
    (ss : List Step) (w : World)
    → IsOwned w
    → w.manager.state ≡ closed
    → (run ss w).manager.state ≡ closed
unfolding run
stays_closed [] w h c = c
stays_closed (s ∷ ss) w h c = stays_closed ss (step s w) (step-IsOwned s w h) (step_closed w c s h)

acquire_when_closed :
    (m : Manager) → m.state ≡ closed → acquire_submission_bundle m ≡ (m, not_ready model_not_ready)
unfolding acquire_submission_bundle acquire_from
acquire_when_closed m c = rw c refl

-- A manager that is closed stays closed, whatever happens then, and takes no submission.
pub closed_stays :
    (candidates : Dict String) (b : ActiveModelBundle) (before after : List Step)
    → (run before (start candidates b)).manager.state ≡ closed
    → ((run after (run before (start candidates b))).manager.state ≡ closed)
      × (acquire_submission_bundle (run after (run before (start candidates b))).manager
          ≡ ((run after (run before (start candidates b))).manager, not_ready model_not_ready))
closed_stays candidates b before after c =
    let e = stays_closed after _ (run-IsOwned candidates b before) c in (e, acquire_when_closed _ e)
