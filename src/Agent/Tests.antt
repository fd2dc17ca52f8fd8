-- ===== src/Agent/Tests.antt =====
-- Tests of the tool checks, and the theorem at a concrete batch, over a JSON reader of two texts.
use ex_qserve.Base.{
  ℕ, String, ◌≡◌, ◌↔◌, refl, Bool, true, false, List, [], ◌∷◌, ◌==◌, ◌&&◌, is_empty, length,
  if◌then◌else◌,
}
use ex_qserve.Core.{ToolCallItem}
use ex_qserve.Agent.{
  Json, object, invalid, ToolPolicy, auto, issue, PathPart, at_name, at_index,
  duplicate_tool_call_id, invalid_json, schema_validation_failed, validate_tool_calls,
}
use ex_qserve.Agent.Validity.{MeetsPolicy}
use ex_qserve.Agent.Acceptance.{validate_tool_calls_iff}
use ex_qserve.Agent.History.{
  HistoryItem, tool_call, tool_result, other_item, validate_tool_history, called, answered, are_new,
  are_preceded, validate_tool_history_iff,
}

program : Unit {0}
unfolding validate_tool_calls validate_tool_history
program = tt

-- An object is whether it has the key x, and a schema whether it refuses the key.
abbrev refusals : Bool → Bool → List (List PathPart)
refusals true true = (at_name "x" ∷ []) ∷ []
refusals _ _ = []

abbrev pub json : Json
json = record {
  Object = Bool;
  Schema = Bool;
  parse = λ text.
      if text == "{}" then object false else if text == "{\"x\":1}" then object true else invalid;
  violations = refusals;
  dumps = λ has_x. if has_x then "{\"x\":1}" else "{}";
}

abbrev pub policy : ToolPolicy json
policy = record {
  tools = record { name = "look"; parameters = true; strict = true } ∷ [];
  mode = auto;
  choice_name = "";
  allow_parallel = true;
}

abbrev pub call : String → String → ℕ → ToolCallItem
call id text n = record { call_id = id; name = "look"; arguments_json = text; index = n }

good : (validate_tool_calls json (call "a" "{}" 0 ∷ call "b" "{}" 1 ∷ []) policy).0 ≡ []
unfolding program
good = refl

bad :
    (validate_tool_calls json (call "a" "{\"x\":1}" 0 ∷ call "a" "{" 1 ∷ []) policy).0
    ≡ issue json schema_validation_failed
        (at_name "calls" ∷ at_index 0 ∷ at_name "arguments" ∷ at_name "x" ∷ [])
      ∷ issue json duplicate_tool_call_id (at_name "calls" ∷ at_index 1 ∷ at_name "call_id" ∷ [])
      ∷ issue json invalid_json (at_name "calls" ∷ at_index 1 ∷ at_name "arguments" ∷ [])
      ∷ []
unfolding program
bad = refl

validate_tool_calls_iff_example :
    ((validate_tool_calls json (call "a" "{}" 0 ∷ call "b" "{}" 1 ∷ []) policy).0 ≡ [])
    ↔ MeetsPolicy json policy (call "a" "{}" 0 ∷ call "b" "{}" 1 ∷ [])
validate_tool_calls_iff_example =
    validate_tool_calls_iff json policy (call "a" "{}" 0 ∷ call "b" "{}" 1 ∷ [])

-- The second result of "a" is one too many, and "b" was never called.
abbrev history : List HistoryItem
history = tool_call "a" ∷ other_item ∷ tool_result "a" ∷ tool_result "b" ∷ tool_result "a" ∷ []

history_issues : length (validate_tool_history history) ≡ 2
unfolding program
history_issues = refl

validate_tool_history_iff_example :
    is_empty (validate_tool_history history)
    ≡ (are_new [] (called history) && (are_new [] (answered history) && are_preceded [] history))
validate_tool_history_iff_example = validate_tool_history_iff history
