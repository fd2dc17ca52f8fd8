-- ===== src/ResponseSession/Tests.antt =====
-- Tests of the session that stores responses, and the theorems at a concrete stream.
use ex_qserve.Base.{ℕ, ◌≡◌, refl, true, none, List, [], ◌∷◌, ◌++◌}
use ex_qserve.Core.{
  GenerationEvent, stop, generation_started, generation_completed, text_completed,
  reasoning_completed,
}
use ex_qserve.Store.{Config, init, stored, purge_expired}
use ex_qserve.Store.Methods.{put}
use ex_qserve.Store.Put.{IsValid}
use ex_qserve.Store.Calls.{run, run-IsValid}
use ex_qserve.Store.Record.{estimate_response_record_bytes}
use ex_qserve.Dict
use ex_qserve.Store.Retention.{Retained}
use ex_qserve.ResponseSession.{Setup, new_session, answer_of, read}
use ex_qserve.ResponseSession.Persistence.{
  completed_record, outputs_of, events_of, completed_persists, completed-Retained,
}

program : Unit {0}
unfolding read put run init estimate_response_record_bytes Dict.get Dict.set_last
program = tt

abbrev config : Config
config = record { max_records = 4; ttl_seconds = 60; max_total_bytes = 1000 }

abbrev setup : Setup
setup = record {
  response_id = "resp_1";
  model = "qwen";
  parent_response_id = none;
  current_input = [];
  store_response = true;
}

abbrev stream : List (GenerationEvent × ℕ)
stream =
    (generation_started "resp_1", 1)
    ∷ (reasoning_completed "resp_1" "so", 2)
    ∷ (text_completed "resp_1" "hello", 3)
    ∷ []

abbrev completion : GenerationEvent
completion = generation_completed "resp_1" stop none none

is_stored : (put config (completed_record setup (outputs_of stream)) 4 init).1 ≡ stored
unfolding program
is_stored = refl

init-IsValid : IsValid config init
unfolding program
init-IsValid = run-IsValid config []

completed_persists_example :
    let q = read config setup (stream ++ (completion, 4) ∷ []) new_session init in
    let p = put config (completed_record setup (outputs_of stream)) 4 init in
    (q.1 ≡ p.0)
    × (q.2 ≡ events_of stream ++ answer_of config setup completion p.1 ∷ [])
    × (q.0.terminal ≡ true)
completed_persists_example =
    completed_persists config setup stream "resp_1" stop none none 4 init refl refl

completed-Retained_example :
    let q = read config setup (stream ++ (completion, 4) ∷ []) new_session init in
    Retained config (completed_record setup (outputs_of stream)) 4 (purge_expired 4 init) q.1
    × (q.2 ≡ events_of stream ++ completion ∷ [])
completed-Retained_example =
    completed-Retained config setup stream "resp_1" stop none none 4 init refl refl init-IsValid
      is_stored
