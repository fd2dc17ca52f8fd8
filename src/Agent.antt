-- ===== src/Agent.antt =====
-- agent/tools.py and agent/validation.py: the tool policy, and the checks of tool calls and of tool
-- history. JSON parsing (`agent/_json.py` over Python's `json`) and schema validation
-- (`agent/schema.py` over `jsonschema`) are parameters. An issue is its code and its path; its
-- message is left out.
pub mod Validity
pub mod Acceptance
pub mod History
pub mod Tests
use ex_qserve.Base.{
  ℕ, suc, String, Bool, true, false, Option, none, some, List, [], ◌∷◌, ◌++◌, ◌==◌, ◌&&◌, ◌||◌, not,
  nat_eq, ltb, if◌then◌else◌, contains, is_empty, length, map,
}
use ex_qserve.Core.{ToolCallItem}

pub data ValidationCode : Type 0 where
  invalid_json duplicate_json_key json_value_not_object schema_validation_failed : ValidationCode
  undeclared_tool tool_call_forbidden tool_call_required wrong_named_tool : ValidationCode
  parallel_tool_calls_forbidden duplicate_tool_call_id invalid_tool_call_order : ValidationCode
  unknown_tool_result duplicate_tool_result : ValidationCode

pub data ToolChoiceMode : Type 0 where
  no_tools auto required named : ToolChoiceMode

abbrev pub is_named : ToolChoiceMode → Bool
is_named named = true
is_named _ = false

-- REQUIRED or NAMED
abbrev pub is_required : ToolChoiceMode → Bool
is_required required = true
is_required named = true
is_required _ = false

-- A part of a path: `str | int`.
pub data PathPart : Type 0 where
  at_name : String → PathPart
  at_index : ℕ → PathPart

pub record ValidationIssue : Type 0 where
  pub code : ValidationCode
  pub path : List PathPart

-- What `parse_json_strict` does with a text: an object, another value, or one of its errors.
pub data ParsedJson (Object : Type 0) : Type 0 where
  object : Object → ParsedJson Object
  not_object : ParsedJson Object
  duplicate_key : ParsedJson Object
  invalid : ParsedJson Object

-- `parse_json_strict`, `_schema_violations` (the paths of the violations) and
-- `canonical_json_dumps`.
pub record Json : Type 1 where
  pub Object : Type 0
  pub Schema : Type 0
  pub parse : String → ParsedJson Object
  pub violations : Schema → Object → List (List PathPart)
  pub dumps : Object → String

abbrev pub is_forbidden : ToolChoiceMode → List ToolCallItem → Bool
is_forbidden no_tools calls = not (is_empty calls)
is_forbidden _ calls = false

module _ (json : Json) where
  open json use {Object, Schema, parse, violations, dumps}

  pub record FunctionTool : Type 0 where
    pub name : String
    pub parameters : Schema
    pub strict : Bool

  -- `choice_name` is the name of a `named` choice.
  pub record ToolPolicy : Type 0 where
    pub tools : List FunctionTool
    pub mode : ToolChoiceMode
    pub choice_name : String
    pub allow_parallel : Bool

  abbrev last_of : Bool → FunctionTool → Option FunctionTool → Option FunctionTool
  last_of matches t (some u) = some u
  last_of true t none = some t
  last_of false t none = none

  -- declared_tools.get(name), for a dictionary in which a later tool of a name replaces an earlier.
  unfoldable pub find_tool : String → List FunctionTool → Option FunctionTool
  find_tool name [] = none
  find_tool name (t ∷ ts) = last_of (t.name == name) t (find_tool name ts)

  abbrev pub issue : ValidationCode → List PathPart → ValidationIssue
  issue code path = record { code = code; path = path }

  abbrev pub call_path : ℕ → List PathPart → List PathPart
  call_path position rest = at_name "calls" ∷ at_index position ∷ rest

  unfoldable pub schema_result :
      ℕ → Object → List (List PathPart) → List ValidationIssue × Option String
  schema_result position o [] = ([], some (dumps o))
  schema_result position o (v ∷ vs) = (
    map (λ p. issue schema_validation_failed (call_path position (at_name "arguments" ∷ p)))
        (v ∷ vs),
    none,
  )

  unfoldable pub judge_arguments :
      FunctionTool → ℕ → ParsedJson Object → List ValidationIssue × Option String
  unfolding schema_result
  judge_arguments tool position duplicate_key =
      (issue duplicate_json_key (call_path position (at_name "arguments" ∷ [])) ∷ [], none)
  judge_arguments tool position invalid =
      (issue invalid_json (call_path position (at_name "arguments" ∷ [])) ∷ [], none)
  judge_arguments tool position not_object =
      (issue json_value_not_object (call_path position (at_name "arguments" ∷ [])) ∷ [], none)
  judge_arguments tool position (object o) = schema_result position o (violations tool.parameters o)

  unfoldable pub name_issues : ToolPolicy → ℕ → ToolCallItem → List ValidationIssue
  name_issues policy position call =
      if is_named policy.mode && not (call.name == policy.choice_name)
      then issue wrong_named_tool (call_path position (at_name "name" ∷ [])) ∷ []
      else []

  unfoldable pub judge_tool :
      ToolPolicy → ℕ → ToolCallItem → Option FunctionTool → List ValidationIssue × Option String
  unfolding judge_arguments name_issues
  judge_tool policy position call none =
      (issue undeclared_tool (call_path position (at_name "name" ∷ [])) ∷ [], none)
  judge_tool policy position call (some tool) =
      let (issues, canonical) = judge_arguments tool position (parse call.arguments_json) in
      (name_issues policy position call ++ issues, canonical)

  unfoldable pub id_issues : List String → ℕ → ToolCallItem → List ValidationIssue
  id_issues seen position call =
      if contains call.call_id seen
      then issue duplicate_tool_call_id (call_path position (at_name "call_id" ∷ [])) ∷ []
      else []

  unfoldable pub order_issues : ℕ → ToolCallItem → List ValidationIssue
  order_issues position call =
      if nat_eq call.index position
      then []
      else issue invalid_tool_call_order (call_path position (at_name "index" ∷ [])) ∷ []

  -- One round of the loop over the calls.
  unfoldable pub judge_call :
      ToolPolicy → List String → ℕ → ToolCallItem → List ValidationIssue × Option String
  unfolding id_issues order_issues judge_tool find_tool
  judge_call policy seen position call =
      let (issues, canonical) =
        judge_tool policy position call (find_tool call.name policy.tools) in
      (id_issues seen position call ++ (order_issues position call ++ issues), canonical)

  unfoldable pub judge_calls :
      ToolPolicy → List String → ℕ → List ToolCallItem → List ValidationIssue × List (Option String)
  unfolding judge_call
  judge_calls policy seen position [] = ([], [])
  judge_calls policy seen position (call ∷ calls) =
      let (issues, canonical) = judge_call policy seen position call in
      let (others, rest) = judge_calls policy (call.call_id ∷ seen) (suc position) calls in
      (issues ++ others, canonical ∷ rest)

  -- The checks of the policy against the number of calls.
  unfoldable pub count_issues : ToolPolicy → List ToolCallItem → List ValidationIssue
  count_issues policy calls =
      (if is_required policy.mode && is_empty calls
        then issue tool_call_required (at_name "calls" ∷ []) ∷ []
        else [])
      ++ (if not policy.allow_parallel && ltb 1 (length calls)
          then issue parallel_tool_calls_forbidden (at_name "calls" ∷ []) ∷ []
          else [])

  -- `validate_tool_calls_with_canonical_arguments`: the issues and the canonical arguments.
  unfoldable pub validate_tool_calls :
      List ToolCallItem → ToolPolicy → List ValidationIssue × List (Option String)
  unfolding judge_calls count_issues
  validate_tool_calls calls policy =
      if is_forbidden policy.mode calls
      then (issue tool_call_forbidden (at_name "calls" ∷ []) ∷ [], map (λ call. none) calls)
      else (
        count_issues policy calls ++ (judge_calls policy [] 0 calls).0,
        (judge_calls policy [] 0 calls).1,
      )
