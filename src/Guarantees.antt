-- ===== src/Guarantees.antt =====
-- serving/guarantees.py: `RequestGuaranteeResolver`, with what it reads of model/contracts.py. The
-- factory of the tool constraints, of the model's dialect, is a parameter, whose answer is `none`
-- where it raises; grammars are texts.
pub mod Soundness
mod Tests
use ex_qserve.Base.{
  ℕ, String, Bool, true, false, not, ◌&&◌, ◌||◌, Option, none, some, List, [], ◌∷◌, ◌==◌, leb,
  if◌then◌else◌, is_some, or_else,
}
use ex_qserve.Core.{GenerationGuarantee, none_, format, schema, unknown}
use ex_qserve.Agent.{
  Json, FunctionTool, ToolPolicy, ToolChoiceMode, no_tools, auto, required, named,
}

pub data ConstraintFallbackPolicy : Type 0 where
  fail_closed allow_validation_only : ConstraintFallbackPolicy

pub record GenerationCapabilitySnapshot : Type 0 where
  pub tool_constraints : Bool
  pub strict_tool_constraints : Bool
  pub structured_output_constraints : Bool

abbrev pub is_unknown : GenerationGuarantee → Bool
is_unknown unknown = true
is_unknown _ = false

abbrev pub is_none : GenerationGuarantee → Bool
is_none none_ = true
is_none _ = false

-- _GUARANTEE_STRENGTH; an unknown guarantee has none, and is never looked up.
abbrev pub strength : GenerationGuarantee → ℕ
strength none_ = 0
strength format = 1
strength schema = 2
strength unknown = 0

unfoldable pub guarantee_satisfies : GenerationGuarantee → GenerationGuarantee → Bool
guarantee_satisfies effective requested =
    if is_unknown effective || is_unknown requested
    then false
    else leb (strength requested) (strength effective)

pub record ToolGenerationConstraint : Type 0 where
  pub trigger : String
  pub lark_grammar : String
  pub branch_guarantees : Option (List (String × GenerationGuarantee))

abbrev pub guarantee_in : String → List (String × GenerationGuarantee) → GenerationGuarantee
guarantee_in name [] = unknown
guarantee_in name ((tool, g) ∷ rest) = if tool == name then g else guarantee_in name rest

-- guarantee_for_tool
abbrev pub branch_guarantee :
    String → Option (List (String × GenerationGuarantee)) → GenerationGuarantee
branch_guarantee name none = unknown
branch_guarantee name (some branches) = guarantee_in name branches

abbrev pub generated : List (String × GenerationGuarantee) → List GenerationGuarantee
generated [] = []
generated ((tool, none_) ∷ rest) = generated rest
generated ((tool, g) ∷ rest) = g ∷ generated rest

abbrev pub any_unknown : List GenerationGuarantee → Bool
any_unknown [] = false
any_unknown (g ∷ gs) = is_unknown g || any_unknown gs

-- min by strength: the first of the weakest.
unfoldable pub weakest : GenerationGuarantee → List GenerationGuarantee → GenerationGuarantee
weakest g [] = g
weakest g (h ∷ hs) = let rest = weakest h hs in if leb (strength g) (strength rest) then g else rest

unfoldable pub weakest_of : List GenerationGuarantee → GenerationGuarantee
unfolding weakest
weakest_of [] = none_
weakest_of (g ∷ gs) = if any_unknown (g ∷ gs) then unknown else weakest g gs

unfoldable pub branches_guarantee :
    Option (List (String × GenerationGuarantee)) → GenerationGuarantee
unfolding weakest_of
branches_guarantee none = unknown
branches_guarantee (some branches) = weakest_of (generated branches)

unfoldable pub runtime_tool_guarantee : Option ToolGenerationConstraint → GenerationGuarantee
unfolding branches_guarantee
runtime_tool_guarantee none = none_
runtime_tool_guarantee (some c) = branches_guarantee c.branch_guarantees

pub record ToolConstraintPlan : Type 0 where
  pub requested_guarantee : GenerationGuarantee
  pub runtime_guarantee : GenerationGuarantee
  pub fallback_policy : ConstraintFallbackPolicy
  pub constraint : Option ToolGenerationConstraint

-- What `resolve_tool_policy` does; `unsupported` is its ToolConstraintUnsupported.
pub data ToolPlan : Type 0 where
  planned : ToolConstraintPlan → ToolPlan
  unsupported : String → ToolPlan
  factory_raised : ToolPlan

pub record StructuredGuaranteePlan : Type 0 where
  pub requested_guarantee : GenerationGuarantee
  pub planned_guarantee : GenerationGuarantee
  pub fallback_policy : ConstraintFallbackPolicy
  pub schema_json : Option String
  pub trigger : Option String
  pub unsupported_reason : Option String

-- `StructuredOutputSpec`; the schema is its canonical text.
pub record StructuredOutputSpec : Type 0 where
  pub canonical_json : String
  pub requested_guarantee : GenerationGuarantee
  pub fallback_policy : ConstraintFallbackPolicy

abbrev pub is_fail_closed : ConstraintFallbackPolicy → Bool
is_fail_closed fail_closed = true
is_fail_closed allow_validation_only = false

abbrev unconstrained_plan : StructuredOutputSpec → String → StructuredGuaranteePlan
unconstrained_plan spec reason = record {
  requested_guarantee = spec.requested_guarantee;
  planned_guarantee = none_;
  fallback_policy = spec.fallback_policy;
  schema_json = none;
  trigger = none;
  unsupported_reason = if is_fail_closed spec.fallback_policy then some reason else none;
}

unfoldable pub resolve_structured_output :
    GenerationCapabilitySnapshot
    → StructuredOutputSpec
    → Bool
    → Option String
    → StructuredGuaranteePlan
resolve_structured_output capabilities spec raw_output_is_text_only structured_output_trigger =
    if not capabilities.structured_output_constraints
    then unconstrained_plan spec
        "effective model snapshot does not provide structured-output constraints"
    else if not (raw_output_is_text_only || is_some structured_output_trigger)
    then unconstrained_plan spec
        "compiled prompt does not expose a supported structured-output constraint path"
    else record {
      requested_guarantee = spec.requested_guarantee;
      planned_guarantee =
          if is_none spec.requested_guarantee then schema else spec.requested_guarantee;
      fallback_policy = spec.fallback_policy;
      schema_json = some spec.canonical_json;
      trigger = if raw_output_is_text_only then none else structured_output_trigger;
      unsupported_reason = none;
    }

module _ (json : Json) where
  abbrev pub any_strict : List (FunctionTool json) → Bool
  any_strict [] = false
  any_strict (t ∷ ts) = t.strict || any_strict ts

  abbrev pub any_named_strict : String → List (FunctionTool json) → Bool
  any_named_strict name [] = false
  any_named_strict name (t ∷ ts) = t.name == name && t.strict || any_named_strict name ts

  abbrev pub strict_in : ToolChoiceMode → String → List (FunctionTool json) → Bool
  strict_in no_tools name tools = false
  strict_in named name tools = any_named_strict name tools
  strict_in auto name tools = any_strict tools
  strict_in required name tools = any_strict tools

  abbrev pub has_exposed_strict_tool : ToolPolicy json → Bool
  has_exposed_strict_tool policy = strict_in policy.mode policy.choice_name policy.tools

  -- Whether the mode exposes the tool.
  abbrev pub is_exposed : ToolChoiceMode → String → String → Bool
  is_exposed no_tools choice name = false
  is_exposed named choice name = name == choice
  is_exposed auto choice name = true
  is_exposed required choice name = true

  -- _exposed_strict_tool_names
  unfoldable pub exposed_strict_tool_names :
      ToolChoiceMode → String → List (FunctionTool json) → List String
  exposed_strict_tool_names mode choice [] = []
  exposed_strict_tool_names mode choice (t ∷ ts) =
      let rest = exposed_strict_tool_names mode choice ts in
      if is_exposed mode choice t.name && t.strict then t.name ∷ rest else rest

  -- Each of these tools has a branch that guarantees its schema.
  abbrev pub all_schema : List String → ToolGenerationConstraint → Bool
  all_schema [] c = true
  all_schema (name ∷ names) c =
      guarantee_satisfies (branch_guarantee name c.branch_guarantees) schema && all_schema names c

  module _ (factory : Option (ToolPolicy json → Option (Option ToolGenerationConstraint)))
      (capabilities : GenerationCapabilitySnapshot) where
    abbrev plan_of : Bool → Option ToolGenerationConstraint → ToolConstraintPlan
    plan_of strict constraint = record {
      requested_guarantee = if strict then schema else none_;
      runtime_guarantee = runtime_tool_guarantee constraint;
      fallback_policy = if strict then fail_closed else allow_validation_only;
      constraint = constraint;
    }

    -- The checks of a strict policy's constraint.
    unfoldable pub check_constraint : ToolPolicy json → Option ToolGenerationConstraint → ToolPlan
    unfolding runtime_tool_guarantee guarantee_satisfies exposed_strict_tool_names
    check_constraint policy none =
        if has_exposed_strict_tool policy
        then unsupported "Strict function tools require a generation-time schema constraint."
        else planned (plan_of false none)
    check_constraint policy (some c) =
        if has_exposed_strict_tool policy
          && not
              (all_schema (exposed_strict_tool_names policy.mode policy.choice_name policy.tools) c)
        then unsupported "Strict function tools require reliable SCHEMA branch guarantees."
        else planned (plan_of (has_exposed_strict_tool policy) (some c))

    abbrev pub constraint_of :
        Option (ToolPolicy json → Option (Option ToolGenerationConstraint))
        → ToolPolicy json
        → Option (Option ToolGenerationConstraint)
    constraint_of none policy = some none
    constraint_of (some f) policy = if capabilities.tool_constraints then f policy else some none

    abbrev pub checked : ToolPolicy json → Option (Option ToolGenerationConstraint) → ToolPlan
    checked policy none = factory_raised
    checked policy (some constraint) = check_constraint policy constraint

    unfoldable pub resolve_tool_policy : ToolPolicy json → ToolPlan
    unfolding check_constraint
    resolve_tool_policy policy =
        if has_exposed_strict_tool policy && not capabilities.strict_tool_constraints
        then unsupported
            "Strict function tools are not supported by the effective model capability snapshot."
        else checked policy (constraint_of factory policy)
