-- ===== src/ToolBatch/Tests.antt =====
-- Tests of the gate, and the theorems at concrete runs, over the JSON reader of the tests of tools.
use ex_qserve.Base.{ℕ, ◌≡◌, refl, true, false, List, [], ◌∷◌, ◌++◌, ◌&&◌, ◌||◌}
use ex_qserve.Core.{format, tool_call_started, tool_call_completed, text_delta}
use ex_qserve.Agent.{issue, schema_validation_failed, validate_tool_calls}
use ex_qserve.Agent.Tests.{json, policy, call}
use ex_qserve.ToolBatch.{
  BatchFailure, new_gate, Input, started, completed, passthrough, commit, feed_all, effective_limit,
}
use ex_qserve.ToolBatch.Guarantee.{
  guarantee_blame, is_model_tool_output_invalid, violates_tool_constraint_guarantee,
  is_output_failure, is_known,
}
use ex_qserve.ToolBatch.Order.{accepted_events, publication_order}
use ex_qserve.ToolBatch.Bounds.{AreSafe, gate_IsSafe}

program : Unit {0}
unfolding feed_all validate_tool_calls effective_limit accepted_events
program = tt

-- An atomic gate of two calls: the third start is over the limit, and the text waits for the calls.
abbrev limit : ℕ
limit = effective_limit true 8 2

abbrev inputs : List (Input json policy true limit)
inputs =
    passthrough (text_delta "r" "hi")
    ∷ started "r" "a" "look" 0
    ∷ completed "r" (call "a" "{}" 0)
    ∷ passthrough (text_delta "r" "more")
    ∷ started "r" "b" "look" 1
    ∷ started "r" "c" "look" 2
    ∷ completed "r" (call "b" "{\"x\":1}" 1)
    ∷ []

before_commit : (feed_all json policy true limit inputs new_gate).1 ≡ text_delta "r" "hi" ∷ []
unfolding program
before_commit = refl

after_commit :
    (feed_all json policy true limit (inputs ++ commit ∷ []) new_gate).1
    ≡ text_delta "r" "hi"
      ∷ tool_call_started "r" "a" "look" 0
      ∷ tool_call_completed "r" (call "a" "{}" 0)
      ∷ text_delta "r" "more"
      ∷ tool_call_started "r" "b" "look" 1
      ∷ []
unfolding program
after_commit = refl

publication_order_example :
    (feed_all json policy true limit inputs new_gate).1
      ++ (feed_all json policy true limit inputs new_gate).0.buffered_events
    ≡ accepted_events json policy true limit inputs new_gate
publication_order_example = publication_order json policy true limit inputs new_gate

gate_IsSafe_example : AreSafe json policy true limit ("b" ∷ "a" ∷ []) (call "a" "{}" 0 ∷ [])
unfolding program
gate_IsSafe_example = gate_IsSafe json policy true limit inputs

abbrev schema_failure : BatchFailure
schema_failure = record {
  code = "tool_call_invalid";
  message = "";
  validation_issues = issue json schema_validation_failed [] ∷ [];
}

guarantee_blame_example :
    ((is_model_tool_output_invalid schema_failure format
        && violates_tool_constraint_guarantee schema_failure format)
      ≡ false)
    × ((is_model_tool_output_invalid schema_failure format
          || violates_tool_constraint_guarantee schema_failure format)
        ≡ (is_output_failure schema_failure && is_known format))
guarantee_blame_example = guarantee_blame schema_failure format
