-- ===== src/ModelManager/Unresolved.antt =====
-- server/model_manager.py: the operations of a manager in ERROR that still holds a bundle.
use ex_qserve.Base.{
  ◌∙◌, ap, ℕ, zero, suc, String, ◌≡◌, refl, Bool, true, false, Option, none, some, List, [], ◌∷◌,
  arith, ◌||◌,
}
use ex_qserve.Dict
use ex_qserve.Dict.{Dict}
use ex_qserve.ModelManager.{
  not_ready, model_not_ready, missing_model, ActiveModelBundle, ModelManagerState, error, Manager,
  Phase, idle, acquire_from, acquire_submission_bundle, release_count, release_submission_bundle,
  load, load_from, switch, switch_from, unload, unload_from, section, Section,
}
use ex_qserve.ModelManager.World.{
  World, Step, begin, with_section, leased_world, released_world, take_at, controller_closed,
  drain_cancelled, submissions_drained, runtime_closed, built, step, run, start, acquires, releases,
  loads, switches, unloads, closes, cancels_drain, controller_closes, preprocessing_closes,
  runtime_closes, builds,
}
use ex_qserve.ModelManager.Ownership.{IsOwned, runtime_of}
use ex_qserve.ModelManager.Safety.{phase_of, run-IsOwned, run_from-IsOwned}

-- The manager failed to end the runtime of this bundle.
pub record IsUnresolved (b : ActiveModelBundle) (w : World) : Type 0 where
  pub failed : w.manager.state ≡ error
  pub kept : w.manager.bundle ≡ some b
  pub at_rest : w.phase ≡ idle

abbrev pub is_close : Step → Bool
is_close closes = true
is_close _ = false

abbrev pub has_close : List Step → Bool
has_close [] = false
has_close (s ∷ ss) = is_close s || has_close ss

same_section :
    (b : ActiveModelBundle) (w : World) (s : Section)
    → IsUnresolved b w
    → s.manager ≡ w.manager
    → s.phase ≡ idle
    → IsUnresolved b (with_section s w)
same_section b w s h e f = record { failed = rw e h.failed; kept = rw e h.kept; at_rest = f }

candidate_same :
    (m : Manager) (o : Option String) (id : String) (s : Section)
    → (s.manager ≡ m) × (s.phase ≡ idle)
    → let t = (elim o as (λ _. Section) [
      | none ↦ section m idle (missing_model id)
      | some path ↦ s
    ]) in
      (t.manager ≡ m) × (t.phase ≡ idle)
candidate_same m none id s e = (refl, refl)
candidate_same m (some path) id s e = e

acquire_error :
    (s : ModelManagerState) (o : Option ActiveModelBundle) (m : Manager)
    → s ≡ error
    → acquire_from s o m ≡ (m, not_ready model_not_ready)
unfolding acquire_from
acquire_error s o m e = rw e refl

-- At rest nothing is awaited.
no_waits :
    (p : Phase) (w : World)
    → p ≡ idle
    → ((failed : Bool) → controller_closed failed p w ≡ w)
      × (drain_cancelled p w ≡ w)
      × ((failed : Bool) → submissions_drained failed p w ≡ w)
      × ((failed : Bool) → runtime_closed failed p w ≡ w)
      × ((o : Option ActiveModelBundle) → built o p w ≡ w)
unfolding controller_closed drain_cancelled submissions_drained runtime_closed built
no_waits p w e = rw e (λ f. refl, refl, λ f. refl, λ f. refl, λ o. refl)

module _ (b : ActiveModelBundle) (w : World) (h : IsUnresolved b w) where
  acquire-IsUnresolved :
      IsUnresolved b (leased_world w (acquire_from w.manager.state w.manager.bundle w.manager))
  unfolding leased_world acquire_from
  acquire-IsUnresolved = rw (acquire_error w.manager.state w.manager.bundle w.manager h.failed) h

  release-IsUnresolved :
      (o : Option (List ℕ)) (n : ℕ)
      → IsUnresolved b (released_world o w (release_count n w.manager))
  unfolding released_world release_count
  release-IsUnresolved none n = h
  release-IsUnresolved (some ls) zero = h
  release-IsUnresolved (some ls) (suc n) = record {
    failed = h.failed;
    kept = h.kept;
    at_rest = h.at_rest;
  }

  begin-IsUnresolved :
      (f : Manager → Section)
      → ((f w.manager).manager ≡ w.manager) × ((f w.manager).phase ≡ idle)
      → IsUnresolved b (begin w.phase f w)
  begin-IsUnresolved f q = rw (h.at_rest) (same_section b w (f w.manager) h q.0 q.1)

  step-IsUnresolved : (s : Step) → is_close s ≡ false → IsUnresolved b (step s w)
  unfolding step acquire_submission_bundle release_submission_bundle load switch unload load_from
      switch_from unload_from controller_closed drain_cancelled submissions_drained runtime_closed
      built
  step-IsUnresolved acquires e = acquire-IsUnresolved
  step-IsUnresolved (releases i) e =
      release-IsUnresolved (take_at i w.leases) w.manager.active_submissions
  step-IsUnresolved (loads id) e = begin-IsUnresolved (load id) (
      candidate_same w.manager (Dict.get id w.manager.candidates) id _
        (rw (h.failed, h.kept) (refl, refl)))
  step-IsUnresolved (switches id) e = begin-IsUnresolved (switch id) (
      candidate_same w.manager (Dict.get id w.manager.candidates) id _
        (rw (h.failed, h.kept) (refl, refl)))
  step-IsUnresolved unloads e = begin-IsUnresolved unload (rw (h.failed, h.kept) (refl, refl))
  step-IsUnresolved closes e = absurd cc
  step-IsUnresolved (controller_closes failed) e = rw ((no_waits w.phase w h.at_rest).0 failed) h
  step-IsUnresolved cancels_drain e = rw ((no_waits w.phase w h.at_rest).1) h
  step-IsUnresolved (preprocessing_closes failed) e = rw ((no_waits w.phase w h.at_rest).2 failed) h
  step-IsUnresolved (runtime_closes failed) e = rw ((no_waits w.phase w h.at_rest).3 failed) h
  step-IsUnresolved (builds o) e = rw ((no_waits w.phase w h.at_rest).4 o) h

run-IsUnresolved :
    (b : ActiveModelBundle) (ss : List Step) (w : World)
    → IsUnresolved b w
    → has_close ss ≡ false
    → IsUnresolved b (run ss w)
unfolding run
run-IsUnresolved b [] w h e = h
run-IsUnresolved b (s ∷ ss) w h e =
    run-IsUnresolved b ss (step s w) (step-IsUnresolved b w h s (ground arith)) (ground arith)

unresolved_open :
    (b : ActiveModelBundle) (w : World) → IsOwned w → IsUnresolved b w → w.runtimes ≡ b.runtime ∷ []
unresolved_open b w h u = (phase_of w idle u.at_rest h).1 ∙ ap runtime_of u.kept

-- A manager in ERROR that still holds a bundle, at rest, as an unload or a switch leaves it that
-- failed to end the bundle's runtime: whatever happens but a close, it stays so, the runtime stays
-- the one open runtime, no load, switch or unload awaits anything, and a submission is refused as not
-- ready and changes nothing.
pub IsUnresolved-blocks :
    (candidates : Dict String) (first b : ActiveModelBundle) (before after : List Step)
    → IsUnresolved b (run before (start candidates first))
    → has_close after ≡ false
    → let w = run after (run before (start candidates first)) in
      IsUnresolved b w
      × (w.runtimes ≡ b.runtime ∷ [])
      × (acquire_submission_bundle w.manager ≡ (w.manager, not_ready model_not_ready))
unfolding acquire_submission_bundle
IsUnresolved-blocks candidates first b before after u e =
    let w = run after (run before (start candidates first)) in
    let v = run-IsUnresolved b after _ u e in
    (
      v,
      unresolved_open b _ (run_from-IsOwned after _ (run-IsOwned candidates first before)) v,
      acquire_error w.manager.state w.manager.bundle w.manager v.failed,
    )
