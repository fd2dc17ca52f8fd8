-- ===== src/ModelManager/Tests.antt =====
-- Tests of the model manager, and the theorems at concrete schedules.
use ex_qserve.Base.{String, ◌≡◌, refl, true, false, none, some, List, [], ◌∷◌, length}
use ex_qserve.Dict
use ex_qserve.Dict.{Dict}
use ex_qserve.ModelManager.{
  ActiveModelBundle, closed, idle, draining, to_switch, acquire_submission_bundle, not_ready,
  model_not_ready,
}
use ex_qserve.ModelManager.World.{
  Step, acquires, releases, loads, switches, unloads, closes, controller_closes,
  preprocessing_closes, runtime_closes, builds, run, start,
}
use ex_qserve.ModelManager.Ownership.{IsOwned}
use ex_qserve.ModelManager.Safety.{run-IsOwned}
use ex_qserve.ModelManager.Finality.{closed_stays}
use ex_qserve.ModelManager.Unresolved.{IsUnresolved, IsUnresolved-blocks}
use ex_qserve.ModelManager.Progress.{settling, settles}

program : Unit {0}
unfolding run Dict.get acquire_submission_bundle
program = tt

abbrev candidates : Dict String
candidates = ("gemma", "/models/gemma") ∷ ("qwen", "/models/qwen") ∷ []

abbrev gemma : ActiveModelBundle
gemma = record {
  management_id = "gemma";
  served_model = "gemma";
  runtime = 1;
  controller = 1;
  preprocessing = some 1;
}

abbrev qwen : ActiveModelBundle
qwen = record {
  management_id = "qwen";
  served_model = "qwen";
  runtime = 2;
  controller = 2;
  preprocessing = none;
}

-- A submission runs when the switch begins, and the runtime's close comes only after its end.
abbrev switching_steps : List Step
switching_steps =
    acquires
    ∷ switches "qwen"
    ∷ acquires
    ∷ controller_closes false
    ∷ preprocessing_closes false
    ∷ []

abbrev switched : List Step
switched =
    acquires
    ∷ switches "qwen"
    ∷ controller_closes false
    ∷ releases 0
    ∷ preprocessing_closes false
    ∷ runtime_closes false
    ∷ builds (some qwen)
    ∷ []

switch_waits :
    (run switching_steps (start candidates gemma)).phase ≡ draining (to_switch "qwen") gemma false
unfolding program
switch_waits = refl

switch_ends : (run switched (start candidates gemma)).manager.bundle ≡ some qwen
unfolding program
switch_ends = refl

run-IsOwned_example : IsOwned (run switched (start candidates gemma))
run-IsOwned_example = run-IsOwned candidates gemma switched

abbrev closing_steps : List Step
closing_steps = acquires ∷ closes ∷ controller_closes true ∷ []

is_closed : (run closing_steps (start candidates gemma)).manager.state ≡ closed
unfolding program
is_closed = refl

closed_stays_example :
    ((run switched (run closing_steps (start candidates gemma))).manager.state ≡ closed)
    × (acquire_submission_bundle (run switched (run closing_steps (start candidates gemma))).manager
        ≡ (
          (run switched (run closing_steps (start candidates gemma))).manager,
          not_ready model_not_ready,
        ))
closed_stays_example = closed_stays candidates gemma closing_steps switched is_closed

abbrev failed_unload : List Step
failed_unload =
    unloads ∷ controller_closes false ∷ preprocessing_closes false ∷ runtime_closes true ∷ []

is_unresolved : IsUnresolved gemma (run failed_unload (start candidates gemma))
unfolding program
is_unresolved = record { failed = refl; kept = refl; at_rest = refl }

IsUnresolved-blocks_example :
    IsUnresolved gemma (run (loads "qwen" ∷ []) (run failed_unload (start candidates gemma)))
    × ((run (loads "qwen" ∷ []) (run failed_unload (start candidates gemma))).runtimes ≡ 1 ∷ [])
    × (acquire_submission_bundle
          (run (loads "qwen" ∷ []) (run failed_unload (start candidates gemma))).manager
        ≡ (
          (run (loads "qwen" ∷ []) (run failed_unload (start candidates gemma))).manager,
          not_ready model_not_ready,
        ))
IsUnresolved-blocks_example =
    IsUnresolved-blocks candidates gemma gemma failed_unload (loads "qwen" ∷ []) is_unresolved refl

settles_example :
    (run
      (settling false
        (length (run switching_steps (start candidates gemma)).leases)
        true
        false
        none)
      (run switching_steps (start candidates gemma))).phase
    ≡ idle
settles_example = settles candidates gemma switching_steps false true false none
