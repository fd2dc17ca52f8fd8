-- ===== src/ModelManager.antt =====
-- server/model_manager.py: `ModelManager`. Each section under its lock is one step; a transition
-- (`load`, `switch`, `unload`, `close`) that waits is cut there, and what it waits for is its phase. The reason that
-- a controller is closed with is left out.
pub mod World
pub mod Ownership
pub mod Sections
pub mod Safety
pub mod Finality
pub mod Unresolved
pub mod Progress
mod Tests
use ex_qserve.Base.{
  ℕ, zero, suc, ◌+◌, ◌-◌, String, Bool, true, false, Option, none, some, List, [], ◌∷◌, ◌==◌,
  if◌then◌else◌, nat_eq,
}
use ex_qserve.Core.{CanonicalError, overloaded}
use ex_qserve.Dict
use ex_qserve.Dict.{Dict, keys}

-- Runtimes, controllers and renderers are objects with identity. The served model is its id, and
-- the engines and the capabilities are left out.
pub record ActiveModelBundle : Type 0 where
  pub management_id : String
  pub served_model : String
  pub runtime : ℕ
  pub controller : ℕ
  pub preprocessing : Option ℕ

pub data ModelManagerState : Type 0 where
  ready loading switching unloading unloaded error closed : ModelManagerState

pub record ModelManagerSnapshot : Type 0 where
  pub state : ModelManagerState
  pub current_model : Option String
  pub served_model : Option String
  pub candidates : List String

-- `candidates` has the path of each model, in the order of their ids.
pub record Manager : Type 0 where
  pub candidates : Dict String
  pub bundle : Option ActiveModelBundle
  pub last_runtime : ℕ
  pub last_controller : ℕ
  pub state : ModelManagerState
  pub active_submissions : ℕ
  pub submissions_quiesced : Bool

-- The manager with its first bundle, whose model is one of the candidates.
abbrev pub new_manager : Dict String → ActiveModelBundle → Manager
new_manager candidates b = record {
  candidates = candidates;
  bundle = some b;
  last_runtime = b.runtime;
  last_controller = b.controller;
  state = ready;
  active_submissions = 0;
  submissions_quiesced = true;
}

abbrev management_id_of : Option ActiveModelBundle → Option String
management_id_of none = none
management_id_of (some b) = some b.management_id

abbrev served_id_of : Option ActiveModelBundle → Option String
served_id_of none = none
served_id_of (some b) = some b.served_model

abbrev pub snapshot : Manager → ModelManagerSnapshot
snapshot m = record {
  state = m.state;
  current_model = management_id_of m.bundle;
  served_model = served_id_of m.bundle;
  candidates = keys m.candidates;
}

pub data Acquired : Type 0 where
  leased : ActiveModelBundle → Acquired
  not_ready : CanonicalError → Acquired

abbrev pub model_not_ready : CanonicalError
model_not_ready = record {
  category = overloaded;
  code = "model_not_ready";
  message = "The model runtime is not ready to accept requests.";
  retryable = true;
  cause = none;
}

unfoldable pub acquire_from :
    ModelManagerState → Option ActiveModelBundle → Manager → Manager × Acquired
acquire_from ready (some b) m = (
  record m {
    active_submissions = m.active_submissions + 1;
    submissions_quiesced =
        if nat_eq (m.active_submissions + 1) 1 then false else m.submissions_quiesced;
  },
  leased b,
)
acquire_from _ _ m = (m, not_ready model_not_ready)

unfoldable pub acquire_submission_bundle : Manager → Manager × Acquired
unfolding acquire_from
acquire_submission_bundle m = acquire_from m.state m.bundle m

-- With no lease the count of the source gets negative and the method raises.
unfoldable pub release_count : ℕ → Manager → Option Manager
release_count zero m = none
release_count (suc n) m = some (record m {
  active_submissions = n;
  submissions_quiesced = if nat_eq n 0 then true else m.submissions_quiesced;
})

unfoldable pub release_submission_bundle : Manager → Option Manager
unfolding release_count
release_submission_bundle m = release_count m.active_submissions m

-- What a bundle is closed for.
pub data Goal : Type 0 where
  to_switch : String → Goal
  to_unload to_close : Goal

-- What the holder of the transition lock waits for: the builder; the controller's close; the end of
-- the leased submissions, with whether the controller's close failed; the runtime's close.
pub data Phase : Type 0 where
  idle : Phase
  building : String → Phase
  closing : Goal → ActiveModelBundle → Phase
  draining tearing : Goal → ActiveModelBundle → Bool → Phase

-- What the caller of a transition gets from a section of it; `raised` is an error passed on.
pub data Answer : Type 0 where
  pending returned raised : Answer
  returned_snapshot : ModelManagerSnapshot → Answer
  runtime_error : String → Answer
  missing_model : String → Answer

pub record Section : Type 0 where
  pub manager : Manager
  pub phase : Phase
  pub answer : Answer

abbrev pub section : Manager → Phase → Answer → Section
section m p a = record { manager = m; phase = p; answer = a }

abbrev load_begun : String → Manager → Section
load_begun id m = section (record m { state = loading; bundle = none }) (building id) pending

unfoldable pub load_from : String → ModelManagerState → Option ActiveModelBundle → Manager → Section
load_from id error (some b) m =
    section m idle
      (runtime_error "model load is blocked while prior runtime ownership is unresolved")
load_from id error none m = load_begun id m
load_from id unloaded b m = load_begun id m
load_from id _ b m = section m idle (runtime_error "model load requires an unloaded manager")

-- `load` up to its call of the builder.
unfoldable pub load : String → Manager → Section
unfolding load_from
load id m = elim (Dict.get id m.candidates) [
  | none ↦ section m idle (missing_model id)
  | some path ↦ load_from id m.state m.bundle m
]

unfoldable pub switch_from :
    String → ModelManagerState → Option ActiveModelBundle → Manager → Section
switch_from id ready (some b) m =
    if b.management_id == id
    then section m idle (returned_snapshot (snapshot m))
    else section (record m { state = switching }) (closing (to_switch id) b) pending
switch_from id _ _ m = section m idle (runtime_error "model switch requires a ready manager")

-- `switch` up to its call of `_close_bundle`.
unfoldable pub switch : String → Manager → Section
unfolding switch_from
switch id m = elim (Dict.get id m.candidates) [
  | none ↦ section m idle (missing_model id)
  | some path ↦ switch_from id m.state m.bundle m
]

unfoldable pub unload_from : ModelManagerState → Option ActiveModelBundle → Manager → Section
unload_from unloaded b m = section m idle (returned_snapshot (snapshot m))
unload_from ready (some b) m =
    section (record m { state = unloading }) (closing to_unload b) pending
unload_from _ _ m = section m idle (runtime_error "model unload requires a ready manager")

-- `unload` up to its call of `_close_bundle`.
unfoldable pub unload : Manager → Section
unfolding unload_from
unload m = unload_from m.state m.bundle m

unfoldable pub close_from : ModelManagerState → Option ActiveModelBundle → Manager → Section
close_from closed b m = section m idle returned
close_from _ none m = section (record m { state = closed; bundle = none }) idle returned
close_from _ (some b) m =
    section (record m { state = closed; bundle = none }) (closing to_close b) pending

-- `close` up to its call of `_close_bundle`.
unfoldable pub close : Manager → Section
unfolding close_from
close m = close_from m.state m.bundle m

-- How `_close_bundle` ends; `unresolved` is its _RuntimeOwnershipUnresolved.
pub data BundleClose : Type 0 where
  closed_bundle controller_error unresolved : BundleClose

unfoldable pub bundle_close : Bool → Bool → BundleClose
bundle_close controller_failed true = unresolved
bundle_close true false = controller_error
bundle_close false false = closed_bundle

-- The rest of the transition after `_close_bundle`.
unfoldable pub after_close : Goal → ActiveModelBundle → BundleClose → Manager → Section
after_close (to_switch id) b closed_bundle m =
    section (record m { bundle = none }) (building id) pending
after_close (to_switch id) b controller_error m =
    section (record m { bundle = none; state = error }) idle raised
after_close (to_switch id) b unresolved m = section (record m { state = error }) idle raised
after_close to_unload b closed_bundle m =
    let n = record m { bundle = none; state = unloaded } in
    section n idle (returned_snapshot (snapshot n))
after_close to_unload b controller_error m =
    section (record m { bundle = none; state = error }) idle raised
after_close to_unload b unresolved m = section (record m { state = error }) idle raised
after_close to_close b closed_bundle m = section m idle returned
after_close to_close b controller_error m = section m idle raised
after_close to_close b unresolved m = section (record m { bundle = some b }) idle raised

-- _publish
abbrev pub publish_bundle : ActiveModelBundle → Manager → Manager
publish_bundle b m = record m {
  bundle = some b;
  last_runtime = b.runtime;
  last_controller = b.controller;
  state = ready;
}

-- The rest of `load` and of `switch` after the builder, which returns a bundle or raises.
unfoldable pub after_build : Option ActiveModelBundle → Manager → Section
after_build none m = section (record m { state = error; bundle = none }) idle raised
after_build (some b) m =
    let n = publish_bundle b m in section n idle (returned_snapshot (snapshot n))
