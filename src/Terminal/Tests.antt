-- ===== src/Terminal/Tests.antt =====
-- Tests of the terminal evidence, and the theorems at concrete records.
use ex_qserve.Base.{◌≡◌, refl, Bool, true, false, not, ◌&&◌, none, some, List, [], ◌∷◌, is_some}
use ex_qserve.Core.{CanonicalError, unknown, model_failure, tool_calls}
use ex_qserve.Terminal.{
  TerminalConstraintEvidence, TerminalDecision, new_evidence, Recorded, controlled_reason, finished,
  cancelled_runtime, failed_semantic, record_all, timeout, client_cancelled, eos, commit_decision,
  lifecycle_termination,
}
use ex_qserve.Terminal.Decision.{resolve}
use ex_qserve.Terminal.Records.{
  first_claim, any_failure, is_normal, last_stop, is_success, first_origin,
}
use ex_qserve.Terminal.Outcome.{success_iff, lifecycle_first, lifecycle_disposition}
use ex_qserve.Terminal.Finality.{is_well_formed, resolve_well_formed, commit_final}

program : Unit {0}
unfolding resolve record_all commit_decision
program = tt

abbrev no_constraint : TerminalConstraintEvidence
no_constraint = record { installed = false; activated = false; effective_guarantee = unknown }

abbrev semantic_error : CanonicalError
semantic_error = record {
  category = model_failure;
  code = "tool_call_invalid";
  message = "";
  retryable = false;
  cause = none;
}

abbrev clean : List Recorded
clean = finished eos no_constraint ∷ []

-- The deadline comes before the runtime's cancellation, and the client leaves too late.
abbrev late : List Recorded
late =
    failed_semantic semantic_error
    ∷ controlled_reason (some timeout)
    ∷ cancelled_runtime
    ∷ controlled_reason (some client_cancelled)
    ∷ finished eos no_constraint
    ∷ []

clean_success : is_success (resolve none none (record_all clean new_evidence)).disposition ≡ true
unfolding program
clean_success = refl

success_iff_example :
    is_success (resolve none none (record_all late new_evidence)).disposition
    ≡ (not (is_some (first_claim late)) && (not (any_failure late) && is_normal (last_stop late)))
success_iff_example = success_iff none none late

lifecycle_first_example :
    ((resolve none none (record_all late new_evidence)).primary_owner ≡ lifecycle_termination)
    × ((resolve none none (record_all late new_evidence)).disposition
        ≡ lifecycle_disposition none none (first_origin late))
lifecycle_first_example = lifecycle_first none none late refl

undecided : (record_all late new_evidence).decision ≡ none
unfolding program
undecided = refl

resolve_well_formed_example :
    is_well_formed (resolve (some tool_calls) none (record_all late new_evidence)) ≡ true
resolve_well_formed_example =
    resolve_well_formed (some tool_calls) none (record_all late new_evidence) undecided

-- Decisions compared by whether both have an error.
abbrev equal : TerminalDecision → TerminalDecision → Bool
equal d e = not (is_some d.canonical_error) && not (is_some e.canonical_error)

abbrev ended : TerminalDecision
ended = resolve none none (record_all clean new_evidence)

commit_first : (commit_decision equal ended (record_all clean new_evidence)).1 ≡ some ended
unfolding program
commit_first = refl

commit_final_example :
    resolve none none
      (record_all late (commit_decision equal ended (record_all clean new_evidence)).0)
    ≡ ended
commit_final_example =
    commit_final none none equal ended ended (record_all clean new_evidence) late commit_first
