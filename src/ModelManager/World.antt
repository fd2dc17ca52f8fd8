-- ===== src/ModelManager/World.antt =====
-- The manager together with what it manages: the runtimes that are open, and the submissions that
-- hold a bundle. A schedule is a list of steps in the order in which they happen.
use ex_qserve.Base.{
  ℕ, zero, suc, String, Bool, Option, none, some, List, [], ◌∷◌, if◌then◌else◌, nat_eq,
}
use mathlib.Core.Option
use ex_qserve.Dict.{Dict}
use ex_qserve.ModelManager.{
  new_manager, ActiveModelBundle, Manager, Acquired, leased, not_ready, acquire_submission_bundle,
  release_submission_bundle, Phase, idle, building, closing, draining, tearing, Section, load,
  switch, unload, close, bundle_close, after_close, after_build, unresolved,
}

-- `runtimes` has those that the builder returned and whose `close` has not returned, and `leases`
-- the runtime that each running submission uses.
pub record World : Type 0 where
  pub manager : Manager
  pub phase : Phase
  pub runtimes : List ℕ
  pub leases : List ℕ

abbrev pub with_section : Section → World → World
with_section s w = record w { manager = s.manager; phase = s.phase }

unfoldable pub leased_world : World → Manager × Acquired → World
leased_world w (m, leased b) = record w { manager = m; leases = b.runtime ∷ w.leases }
leased_world w (m, not_ready e) = record w { manager = m }

-- The leases without the i-th one, if there is one.
abbrev pub take_at : ℕ → List ℕ → Option (List ℕ)
take_at i [] = none
take_at zero (x ∷ xs) = some xs
take_at (suc i) (x ∷ xs) = Option.map (λ ys. x ∷ ys) (take_at i xs)

-- The `finally` of a submission that holds a lease.
unfoldable pub released_world : Option (List ℕ) → World → Option Manager → World
released_world none w o = w
released_world (some ls) w none = w
released_world (some ls) w (some m) = record w { manager = m; leases = ls }

-- A step: a submission takes a bundle or gives it back; a transition that has the lock begins; or
-- what the transition waits for happens, with whether it failed.
pub data Step : Type 0 where
  acquires : Step
  releases : ℕ → Step
  loads switches : String → Step
  unloads closes cancels_drain : Step
  controller_closes preprocessing_closes runtime_closes : Bool → Step
  builds : Option ActiveModelBundle → Step

-- A transition begins only when no other one has the lock.
abbrev pub begin : Phase → (Manager → Section) → World → World
begin idle f w = with_section (f w.manager) w
begin (building id) f w = w
begin (closing g b) f w = w
begin (draining g b e) f w = w
begin (tearing g b e) f w = w

-- `_close_bundle` after the controller's close.
unfoldable pub controller_closed : Bool → Phase → World → World
controller_closed failed (closing g b) w = record w { phase = draining g b failed }
controller_closed failed _ w = w

-- The wait for the submissions is cancelled.
unfoldable pub drain_cancelled : Phase → World → World
unfolding after_close
drain_cancelled (draining g b e) w = with_section (after_close g b unresolved w.manager) w
drain_cancelled _ w = w

-- The submissions have ended: the renderers are closed, and the runtime's close is called.
unfoldable pub submissions_drained : Bool → Phase → World → World
unfolding after_close
submissions_drained failed (draining g b e) w =
    if w.manager.submissions_quiesced
    then if failed
      then with_section (after_close g b unresolved w.manager) w
      else record w { phase = tearing g b e }
    else w
submissions_drained failed _ w = w

abbrev pub discard_runtime : ℕ → List ℕ → List ℕ
discard_runtime r [] = []
discard_runtime r (x ∷ xs) =
    let rest = discard_runtime r xs in if nat_eq x r then rest else x ∷ rest

unfoldable pub runtime_closed : Bool → Phase → World → World
unfolding after_close bundle_close
runtime_closed failed (tearing g b e) w =
    let v = with_section (after_close g b (bundle_close e failed) w.manager) w in
    record v { runtimes = if failed then v.runtimes else discard_runtime b.runtime v.runtimes }
runtime_closed failed _ w = w

abbrev pub opened : Option ActiveModelBundle → List ℕ → List ℕ
opened none rs = rs
opened (some b) rs = b.runtime ∷ rs

unfoldable pub built : Option ActiveModelBundle → Phase → World → World
unfolding after_build
built o (building id) w =
    let v = with_section (after_build o w.manager) w in record v { runtimes = opened o v.runtimes }
built o _ w = w

unfoldable pub step : Step → World → World
unfolding leased_world acquire_submission_bundle released_world release_submission_bundle load
    switch unload close controller_closed drain_cancelled submissions_drained runtime_closed built
step acquires w = leased_world w (acquire_submission_bundle w.manager)
step (releases i) w = released_world (take_at i w.leases) w (release_submission_bundle w.manager)
step (loads id) w = begin w.phase (load id) w
step (switches id) w = begin w.phase (switch id) w
step unloads w = begin w.phase unload w
step closes w = begin w.phase close w
step (controller_closes failed) w = controller_closed failed w.phase w
step cancels_drain w = drain_cancelled w.phase w
step (preprocessing_closes failed) w = submissions_drained failed w.phase w
step (runtime_closes failed) w = runtime_closed failed w.phase w
step (builds o) w = built o w.phase w

unfoldable pub run : List Step → World → World
unfolding step
run [] w = w
run (s ∷ ss) w = run ss (step s w)

-- The server's start: the first bundle is open, and nothing runs.
abbrev pub start : Dict String → ActiveModelBundle → World
start candidates b = record {
  manager = new_manager candidates b;
  phase = idle;
  runtimes = b.runtime ∷ [];
  leases = [];
}
